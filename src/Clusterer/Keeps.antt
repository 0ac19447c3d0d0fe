-- ===== src/Clusterer/Keeps.antt =====
-- What the handlers of src/bin/gw_clusterer.rs do to the creator: only the engine changes it.
use boom_gw.Base.{none, Option, ◌∷◌, arith, inr, inl, ℕ, ◌∙◌, some, Bytes, ◌≡◌, refl, List, []}
use boom_gw.Base.Floats.{Float, FloatLaws}
use boom_gw.Base.BTree.{BTreeMap, get, modify}
use boom_gw.Clustering.Defs.{
  SupereventUpdate, Superevent, SupereventCreator, time_cmp, attach_skymap,
}
use boom_gw.Clustering.Attach.{
  attach_skymap-HasId, attach_skymap-WellFormed, next_seq-attach_skymap,
}
use boom_gw.Clustering.Invariant.{WellFormed}
use boom_gw.Clustering.Recorded.{recorded}
use boom_gw.Localizer.{LocalizeResult, LocalizeStatus, skymap_fits_bytes}
use boom_gw.Clusterer.World.{Setup, Outside, World, Returned, done, broken}
use boom_gw.Clusterer.Handler.{
  attach_fits, apply_status, Pipeline, and_then, announce, apply_localize_result, take_result,
  take_all, drain_localize_results, persisted, save_and_drain, emit, drained,
}
use boom_gw.Clusterer.Archiving.{archive_localize_result}

module _ {F C : Type 0} ⦃fl : Float F⦄ where
  recorded-modify_same :
      (k : F) (s s' : Superevent F C) (m : BTreeMap F (Superevent F C))
      → s'.g_events ≡ s.g_events
      → get time_cmp k m ≡ some s
      → recorded (modify time_cmp k (λ _. s') m) ≡ recorded m
  unfolding recorded modify get
  recorded-modify_same k s s' [] e h = refl
  recorded-modify_same k s s' ((j, w) ∷ m) e h = ground (arith, recorded-modify_same k s s' m e)

-- What holds of the state that a call leaves, and so of what either continuation makes of it.
pub and_then_lem :
    {A B : Type 0} (P : A → Type 0) (Q : B → Type 0) (r : A × Returned) (left : A → B)
    (next : A → B × Returned)
    → P r.0
    → ((a : A) → P a → Q (left a))
    → ((a : A) → P a → Q (next a).0)
    → Q (and_then r left next).0
and_then_lem P Q (a, broken) left next p f g = f a p
and_then_lem P Q (a, done) left next p f g = g a p

module _ {F C : Type 0} ⦃fl : Float F⦄ (setup : Setup F) (out : Outside F C) where
  pub creator-announce :
      (c : SupereventCreator F C) (u : Option (SupereventUpdate F C)) (w : World F C)
      → (announce setup out c u w).0.creator ≡ c
  creator-announce c none w = refl
  creator-announce c (some update) w =
      and_then_lem (λ w. Unit {0}) (λ (q : Pipeline F C). q.creator ≡ c)
        (emit setup out update none w) _ _ tt (λ w u. refl) (λ w u. refl)

module _ {F C : Type 0} ⦃fl : Float F⦄ (L : FloatLaws fl) where
  -- The creator is well formed, and has the same numbers and the same recorded events.
  pub record Kept (c c' : SupereventCreator F C) : Type 0 where
    pub well_formed : WellFormed L c'
    pub next_seq : c'.next_seq ≡ c.next_seq
    pub events : recorded c'.superevents ≡ recorded c.superevents
    pub window : c'.window_duration ≡ c.window_duration

  pub Kept-refl : (c : SupereventCreator F C) → WellFormed L c → Kept c c
  Kept-refl c w = record { well_formed = w; next_seq = refl; events = refl; window = refl }

  pub Kept-trans : (a b c : SupereventCreator F C) → Kept a b → Kept b c → Kept a c
  Kept-trans a b c h k = record {
    well_formed = k.well_formed;
    next_seq = k.next_seq ∙ h.next_seq;
    events = k.events ∙ h.events;
    window = k.window ∙ h.window;
  }

  attach_skymap-Kept :
      (c : SupereventCreator F C) (id fits : Bytes) (elapsed : ℕ)
      → WellFormed L c
      → Kept c (attach_skymap c id fits elapsed).0
  attach_skymap-Kept c id fits elapsed w = elim (attach_skymap-HasId L c id fits elapsed w) [
    | inl (p, (t, s, g, e, q)) ↦ record {
      well_formed = attach_skymap-WellFormed L c id fits elapsed w;
      next_seq = next_seq-attach_skymap L c id fits elapsed w;
      events = rw q (recorded-modify_same t s _ c.superevents refl g);
      window = rw q refl;
    }
    | inr (p, q) ↦ rw q (Kept-refl c w)
  ]

  module _ (setup : Setup F) (out : Outside F C) where
    attach_fits-Kept :
        (c : SupereventCreator F C) (r : LocalizeResult) (fits : Option (Option Bytes))
        → WellFormed L c
        → Kept c (attach_fits setup out c r fits).0
    attach_fits-Kept c r none w = Kept-refl c w
    attach_fits-Kept c r (some none) w = Kept-refl c w
    attach_fits-Kept c r (some (some fits)) w =
        attach_skymap-Kept c r.superevent_id fits r.elapsed_ms w

    apply_status-Kept :
        (c : SupereventCreator F C) (r : LocalizeResult) (status : LocalizeStatus)
        → WellFormed L c
        → Kept c (apply_status setup out c r status).0
    apply_status-Kept c r LocalizeStatus.ok w =
        attach_fits-Kept c r (skymap_fits_bytes out.base64 r) w
    apply_status-Kept c r LocalizeStatus.error w = Kept-refl c w

    pub apply_localize_result-Kept :
        (c : SupereventCreator F C) (r : LocalizeResult)
        → WellFormed L c
        → Kept c (apply_localize_result setup out c r).0
    unfolding apply_localize_result
    apply_localize_result-Kept c r w = apply_status-Kept c r r.status w

    pub take_result-Kept :
        (r : LocalizeResult) (p : Pipeline F C)
        → WellFormed L p.creator
        → Kept p.creator (take_result setup out r p).0.creator
    unfolding take_result
    take_result-Kept r p w =
        rw
          (creator-announce setup out (apply_localize_result setup out p.creator r).0
            (apply_localize_result setup out p.creator r).1
            (archive_localize_result setup out r p.world))
          (apply_localize_result-Kept p.creator r w)

    pub take_all-Kept :
        (rs : List LocalizeResult) (p : Pipeline F C)
        → WellFormed L p.creator
        → Kept p.creator (take_all setup out rs p).0.creator
    unfolding take_all
    take_all-Kept [] p w = Kept-refl p.creator w
    take_all-Kept (r ∷ rs) p w =
        and_then_lem (λ (q : Pipeline F C). Kept p.creator q.creator)
          (λ (q : Pipeline F C). Kept p.creator q.creator) (take_result setup out r p) _
          (take_all setup out rs) (take_result-Kept r p w) (λ q k. k)
          (λ q k. Kept-trans p.creator q.creator _ k (take_all-Kept rs q k.well_formed))

    drained-Kept :
        (rs : List LocalizeResult) (p : Pipeline F C)
        → WellFormed L p.creator
        → Kept p.creator (drained setup out rs p).0.creator
    drained-Kept [] p w = Kept-refl p.creator w
    drained-Kept (r ∷ rs) p w =
        and_then_lem (λ (q : Pipeline F C). Kept p.creator q.creator)
          (λ (q : Pipeline F C). Kept p.creator q.creator) _ _ (persisted setup out)
          (take_all-Kept (r ∷ rs) _ w) (λ q k. k) (λ q k. k)

    pub drain_localize_results-Kept :
        (p : Pipeline F C)
        → WellFormed L p.creator
        → Kept p.creator (drain_localize_results setup out p).0.creator
    unfolding drain_localize_results
    drain_localize_results-Kept p w =
        ground (arith, Kept-refl p.creator w, drained-Kept p.world.buffered p w)

    pub save_and_drain-Kept :
        (p : Pipeline F C)
        → WellFormed L p.creator
        → Kept p.creator (save_and_drain setup out p).0.creator
    save_and_drain-Kept p w =
        and_then_lem (λ (q : Pipeline F C). Kept p.creator q.creator)
          (λ (q : Pipeline F C). Kept p.creator q.creator) (persisted setup out p) _
          (drain_localize_results setup out) (Kept-refl p.creator w) (λ q k. k)
          (λ q k. Kept-trans p.creator q.creator _ k (drain_localize_results-Kept q k.well_formed))
