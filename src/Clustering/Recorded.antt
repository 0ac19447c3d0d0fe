-- ===== src/Clustering/Recorded.antt =====
-- Which events the superevents of src/clustering.rs hold after `process`.
use mathlib.Core.List.{Perm, perm_middle, append_assoc}
use mathlib.Core.List.Perm
use boom_gw.Base.{
  ◌∙◌, some_inj, ◌≡◌, refl, sym, subst, inl, inr, List, [], ◌∷◌, ◌++◌, Option, none, some, arith,
}
use boom_gw.Base.Floats.{Float, FloatLaws}
use boom_gw.Base.BTree.{BTreeMap, get, insert, modify}
use boom_gw.Base.BTree.Laws.{Ordering-cases, get-hit}
use boom_gw.Clustering.Defs.{
  GwEvent, Superevent, SupereventCreator, SupereventUpdate, time_cmp, absorb, open_window, half_of,
  process, find_closest_t0,
}
use boom_gw.Clustering.Invariant.{WellFormed, absorb_keeps}
use boom_gw.Clustering.Process.{held, far_from_All, far_absent, process-opened, process-absorbed}

-- The events of all superevents, in the order of the map.
unfoldable pub recorded : {F C : Type 0} → BTreeMap F (Superevent F C) → List (GwEvent F C)
recorded [] = []
recorded ((k, s) ∷ m) = s.g_events ++ recorded m

module _ {F C : Type 0} ⦃fl : Float F⦄ where
  recorded-insert :
      (k : F) (s : Superevent F C) (event : GwEvent F C) (m : BTreeMap F (Superevent F C))
      → s.g_events ≡ event ∷ []
      → get time_cmp k m ≡ none
      → Perm (recorded (insert time_cmp k s m)) (event ∷ recorded m)
  unfolding recorded insert get
  recorded-insert k s event [] e h = rw e (Perm.refl (event ∷ []))
  recorded-insert k s event ((j, w) ∷ m) e h = elim (Ordering-cases (time_cmp k j)) [
    | inl o ↦ rw (o, insert) (rw e (Perm.refl (event ∷ (w.g_events ++ recorded m))))
    | inr (inl o) ↦ ground arith
    | inr (inr o) ↦
        rw (o, insert)
          (Perm.trans (Perm.append_left w.g_events (recorded-insert k s event m e (ground arith)))
            (perm_middle w.g_events (recorded m)))
  ]

  recorded-modify :
      (k : F) (s s' : Superevent F C) (event : GwEvent F C) (m : BTreeMap F (Superevent F C))
      → s'.g_events ≡ s.g_events ++ event ∷ []
      → get time_cmp k m ≡ some s
      → Perm (recorded (modify time_cmp k (λ _. s') m)) (event ∷ recorded m)
  unfolding recorded modify get
  recorded-modify k s s' event [] e h = ground arith
  recorded-modify k s s' event ((j, w) ∷ m) e h = elim (Ordering-cases (time_cmp k j)) [
    | inl o ↦
        rw (o, modify)
          (Perm.trans
            (Perm.append_left w.g_events (recorded-modify k s s' event m e (ground arith)))
            (perm_middle w.g_events (recorded m)))
    | inr (inl o) ↦
        rw (o, modify)
          (rw (e, get-hit time_cmp k j w s m o h, append_assoc s.g_events (event ∷ []) (recorded m))
            (perm_middle s.g_events (recorded m)))
    | inr (inr o) ↦
        rw (o, modify)
          (Perm.trans
            (Perm.append_left w.g_events (recorded-modify k s s' event m e (ground arith)))
            (perm_middle w.g_events (recorded m)))
  ]

module _ {F C : Type 0} ⦃fl : Float F⦄ (L : FloatLaws fl) where
  process_cases_recorded :
      (c : SupereventCreator F C) (event : GwEvent F C)
      (r : SupereventCreator F C × SupereventUpdate F C) (found : Option F)
      → WellFormed L c
      → find_closest_t0 c event.end_time ≡ found
      → process c event ≡ some r
      → Perm (recorded r.0.superevents) (event ∷ recorded c.superevents)
  unfolding open_window
  process_cases_recorded c event r none w h p =
      subst (λ q. Perm (recorded q.0.superevents) (event ∷ recorded c.superevents))
        (some_inj (open_window c event) r (sym (process-opened L c event h) ∙ p))
        (recorded-insert event.end_time _ event c.superevents refl (
          far_absent L (half_of c.window_duration) event.end_time c.superevents w.wide
            (far_from_All L c event.end_time w h)))
  process_cases_recorded c event r (some t) w h p =
      let (s, g) = held L c event.end_time t w h in
      subst (λ q. Perm (recorded q.0.superevents) (event ∷ recorded c.superevents))
        (some_inj
          (
            record c { superevents = modify time_cmp t (λ _. (absorb s event).0) c.superevents },
            (absorb s event).1,
          )
          r (sym (process-absorbed L c event t s h g) ∙ p))
        (recorded-modify t s (absorb s event).0 event c.superevents (absorb_keeps L s event).5 g)

  -- For floats that meet FloatLaws: from a well-formed creator, when `process` returns, the
  -- recorded events of all superevents are those from before and the new event, each as often as
  -- before: nothing is lost or duplicated.
  pub recorded-process :
      (c : SupereventCreator F C) (event : GwEvent F C)
      (r : SupereventCreator F C × SupereventUpdate F C)
      → WellFormed L c
      → process c event ≡ some r
      → Perm (recorded r.0.superevents) (event ∷ recorded c.superevents)
  recorded-process c event r w p =
      process_cases_recorded c event r (find_closest_t0 c event.end_time) w refl p
