-- ===== src/Clustering/Invariant.antt =====
-- What holds of a `SupereventCreator` between two calls (src/clustering.rs).
use boom_gw.Base.{
  ℕ, ◌^◌, ◌≤◌, ◌<◌, ◌≡◌, ◌≢◌, refl, sym, ◌∙◌, subst, ◌⊎◌, inl, inr, List, [], ◌∷◌, ◌++◌, some,
  arith, All, All-map, All-append,
}
use boom_gw.Base.Floats.{Float, FloatLaws, ◌-F◌, ◌+F◌}
use boom_gw.Base.BTree.{get, modify}
use boom_gw.Base.BTree.Laws.{Pairs, map_values, All-modify, Pairs-modify, map_values-modify}
use boom_gw.Clustering.Ids.{format_id}
use boom_gw.Clustering.Defs.{GwEvent, Superevent, SupereventCreator, time_cmp, half_of, absorb}
use boom_gw.Clustering.Neighbours.{Ascending, Ascending-modify}
use boom_gw.Clustering.Nearest.{dist}

-- `x` is one of the elements.
abbrev pub Occurs : {A : Type 0} → A → List A → Type 0
Occurs x [] = ⊥
Occurs x (y ∷ ys) = (x ≡ y) ⊎ Occurs x ys

Occurs-last : {A : Type 0} (xs : List A) (x : A) → Occurs x (xs ++ x ∷ [])
Occurs-last [] x = inl refl
Occurs-last (y ∷ ys) x = inr (Occurs-last ys x)

Occurs-before : {A : Type 0} (xs ys : List A) (x : A) → Occurs x xs → Occurs x (xs ++ ys)
Occurs-before [] ys x h = absurd h
Occurs-before (y ∷ xs) ys x (inl e) = inl e
Occurs-before (y ∷ xs) ys x (inr h) = inr (Occurs-before xs ys x h)

module _ {F C : Type 0} where
  -- The identifier was made from one of the first n sequence numbers.
  abbrev pub Issued : ℕ → Superevent F C → Type 0
  Issued n s = (k : ℕ) × (s.id ≡ format_id k) × (k < n)

  abbrev pub DistinctIds : F × Superevent F C → F × Superevent F C → Type 0
  DistinctIds a b = a.1.id ≢ b.1.id

module _ {F C : Type 0} ⦃fl : Float F⦄ (L : FloatLaws fl) where
  open L use {rank, cmp_rank, dist_sym, dist_zero}

  -- Two windows whose centres are further apart than half a window.
  abbrev pub Apart : F → F × Superevent F C → F × Superevent F C → Type 0
  Apart half a b = rank half < dist L a.0 b.0

  -- The superevent stands under its own centre, and its window is half wide to both sides.
  abbrev pub IsCentred : F → F × Superevent F C → Type 0
  IsCentred half e = (e.1.t_0 ≡ e.0) × (e.1.t_start ≡ e.0 -F half) × (e.1.t_end ≡ e.0 +F half)

  -- The preferred event is one of the recorded events, and none has a higher SNR.
  abbrev pub IsBest : Superevent F C → Type 0
  IsBest s =
      Occurs s.preferred_event s.g_events
      × All (λ g. rank g.snr ≤ rank s.preferred_event.snr) s.g_events

  pub record WellFormed (c : SupereventCreator F C) : Type 0 where
    pub index : c.times ≡ map_values (λ s. s.id) c.superevents
    pub ascending : Ascending L 0 c.superevents
    pub centred : All (IsCentred (half_of c.window_duration)) c.superevents
    pub apart : Pairs (Apart (half_of c.window_duration)) c.superevents
    pub best : All (λ e. IsBest e.1) c.superevents
    pub issued : All (λ e. Issued c.next_seq e.1) c.superevents
    pub distinct : Pairs DistinctIds c.superevents
    pub room : c.next_seq < 2 ^ 64
    pub wide : rank (fl.decimal 0 0) ≤ rank (half_of c.window_duration)

  pub Apart-sym : (half : F) (a b : F × Superevent F C) → Apart half a b → Apart half b a
  Apart-sym half a b h = subst (λ x. rank half < rank x) (dist_sym a.0 b.0) h

  promoted :
      (s : Superevent F C) (event : GwEvent F C)
      → IsBest s
      → rank s.preferred_event.snr < rank event.snr
      → IsBest (record s { preferred_event = event; g_events = s.g_events ++ event ∷ [] })
  promoted s event b h = (
    Occurs-last s.g_events event,
    All-append (λ g. rank g.snr ≤ rank event.snr) s.g_events (event ∷ [])
        (All-map (λ g. rank g.snr ≤ rank s.preferred_event.snr) (λ g. rank g.snr ≤ rank event.snr)
          (λ g q. omega arith) s.g_events b.1)
        (omega arith, tt),
  )

  recorded_only :
      (s : Superevent F C) (event : GwEvent F C)
      → IsBest s
      → rank event.snr ≤ rank s.preferred_event.snr
      → IsBest (record s { g_events = s.g_events ++ event ∷ [] })
  recorded_only s event b h = (
    Occurs-before s.g_events (event ∷ []) s.preferred_event b.0,
    All-append (λ g. rank g.snr ≤ rank s.preferred_event.snr) s.g_events (event ∷ []) b.1 (h, tt),
  )

  pub absorb-IsBest :
      (s : Superevent F C) (event : GwEvent F C) → IsBest s → IsBest (absorb s event).0
  unfolding absorb
  absorb-IsBest s event b =
      ground (
        arith,
        cmp_rank s.preferred_event.snr event.snr,
        promoted s event b,
        recorded_only s event b,
      )

  -- The window and the identifier of a superevent outlive every event that it absorbs.
  pub absorb_keeps :
      (s : Superevent F C) (event : GwEvent F C)
      → ((absorb s event).0.id ≡ s.id)
        × ((absorb s event).0.t_0 ≡ s.t_0)
        × ((absorb s event).0.t_start ≡ s.t_start)
        × ((absorb s event).0.t_end ≡ s.t_end)
        × ((absorb s event).0.skymap ≡ s.skymap)
        × ((absorb s event).0.g_events ≡ s.g_events ++ event ∷ [])
  unfolding absorb
  absorb_keeps s event = ground arith

  -- What each operation does to the map of superevents, in one of three ways.
  pub changed_in_place :
      (c : SupereventCreator F C) (t : F) (s s' : Superevent F C)
      → WellFormed c
      → get time_cmp t c.superevents ≡ some s
      → s'.id ≡ s.id
      → s'.t_0 ≡ s.t_0
      → s'.t_start ≡ s.t_start
      → s'.t_end ≡ s.t_end
      → IsBest s'
      → WellFormed (record c { superevents = modify time_cmp t (λ _. s') c.superevents })
  changed_in_place c t s s' w g id t_0 t_start t_end b = record {
    index = w.index ∙ sym (map_values-modify time_cmp (λ s. s.id) t s s' c.superevents g id);
    ascending = Ascending-modify L t s' 0 c.superevents w.ascending;
    centred =
        All-modify time_cmp (IsCentred (half_of c.window_duration)) t s s' c.superevents g
          (λ j p. (t_0 ∙ p.0, t_start ∙ p.1, t_end ∙ p.2)) w.centred;
    apart =
        Pairs-modify time_cmp (Apart (half_of c.window_duration)) t s s' c.superevents g
          (λ j x p. p) (λ j x p. p) w.apart;
    best = All-modify time_cmp (λ e. IsBest e.1) t s s' c.superevents g (λ j p. b) w.best;
    issued =
        All-modify time_cmp (λ e. Issued c.next_seq e.1) t s s' c.superevents g
          (λ j p. (p.0, id ∙ p.1, p.2)) w.issued;
    distinct =
        Pairs-modify time_cmp DistinctIds t s s' c.superevents g (λ j x p e. p (sym id ∙ e))
          (λ j x p e. p (e ∙ id)) w.distinct;
    room = w.room;
    wide = w.wide;
  }
