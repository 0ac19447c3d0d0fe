-- ===== src/Clustering/Process.antt =====
-- `SupereventCreator::process` (src/clustering.rs).
use boom_gw.Base.{
  ℕ, ◌+◌, ◌%◌, ◌^◌, ◌≤◌, ◌<◌, ◌≡◌, refl, sym, ◌∙◌, ap, subst, inl, [], ◌∷◌, Option, none, some,
  arith, All, All-map,
}
use boom_gw.Base.Floats.{Float, FloatLaws, ◌-F◌, ◌+F◌, fixed}
use boom_gw.Base.BTree.{BTreeMap, get, insert, modify}
use boom_gw.Base.BTree.Laws.{
  map_values, All-insert, Pairs-insert, map_values-insert, get-map_values, All-get,
}
use boom_gw.Clustering.Ids.{format_id, id_seq, id_seq-format_id}
use boom_gw.Clustering.Defs.{
  GwEvent, Superevent, SupereventCreator, SupereventUpdate, time_cmp, half_of, absorb, open_window,
  process, find_closest_t0,
}
use boom_gw.Clustering.Neighbours.{Ascending, Ascending-insert, Ascending-map_values}
use boom_gw.Clustering.Nearest.{
  dist, IsFarFrom, find_closest_t0-IsNearest, find_closest_t0-IsFarFrom,
}
use boom_gw.Clustering.Invariant.{
  WellFormed, Issued, DistinctIds, IsCentred, Apart, Apart-sym, IsBest, absorb-IsBest, absorb_keeps,
  changed_in_place,
}

format_id_injective : (m n : ℕ) → m < 2 ^ 64 → n < 2 ^ 64 → format_id m ≡ format_id n → m ≡ n
format_id_injective m n h k e =
    ground (arith, id_seq-format_id m h, id_seq-format_id n k, ap id_seq e)

module _ {F C : Type 0} where
  -- A new identifier is none of those that were issued.
  fresh_id :
      (n : ℕ) (t : F) (s : Superevent F C) (m : BTreeMap F (Superevent F C))
      → n < 2 ^ 64
      → s.id ≡ format_id n
      → All (λ e. Issued n e.1) m
      → All (DistinctIds (t, s)) m
  fresh_id n t s m h id issued =
      All-map (λ e. Issued n e.1) (DistinctIds (t, s))
        (λ e p q.
          let same : n ≡ p.0 = format_id_injective n p.0 h (omega arith) (sym id ∙ q ∙ p.1) in
          absurd (omega arith))
        m issued

  far_values :
      (P : F → Type 0) (m : BTreeMap F (Superevent F C))
      → All (λ e. P e.0) (map_values (λ s. s.id) m)
      → All (λ e. P e.0) m
  far_values P [] h = tt
  far_values P (e ∷ m) h = (h.0, far_values P m h.1)

module _ {F C : Type 0} ⦃fl : Float F⦄ (L : FloatLaws fl) where
  open L use {rank, cmp_rank, dist_zero}

  -- A time far from all keys is no key.
  pub far_absent :
      (half g : F) (m : BTreeMap F (Superevent F C))
      → rank (fl.decimal 0 0) ≤ rank half
      → All (λ e. rank half < dist L g e.0) m
      → get time_cmp g m ≡ none
  unfolding get
  far_absent half g [] w h = refl
  far_absent half g ((k, s) ∷ m) w h =
      ground (arith, cmp_rank g k, dist_zero g k, far_absent half g m w h.1)

  -- No open superevent lies within half a window of the time.
  pub far_from_All :
      (c : SupereventCreator F C) (g : F)
      → WellFormed L c
      → find_closest_t0 c g ≡ none
      → All (λ e. rank (half_of c.window_duration) < dist L g e.0) c.superevents
  far_from_All c g w h =
      far_values (λ k. rank (half_of c.window_duration) < dist L g k) c.superevents
        (subst (IsFarFrom L (half_of c.window_duration) g) w.index (
          find_closest_t0-IsFarFrom L c g
            (subst (Ascending L 0) (sym w.index)
              (Ascending-map_values L (λ s. s.id) 0 c.superevents w.ascending))
            h))

  pub open_window-WellFormed :
      (c : SupereventCreator F C) (event : GwEvent F C)
      → WellFormed L c
      → c.next_seq + 1 < 2 ^ 64
      → find_closest_t0 c event.end_time ≡ none
      → WellFormed L (open_window c event).0
  unfolding open_window
  open_window-WellFormed c event w room h =
      let t_0 = event.end_time in
      let half = half_of c.window_duration in
      let s : Superevent F C = record {
        id = format_id c.next_seq;
        t_0 = t_0;
        t_start = t_0 -F half;
        t_end = t_0 +F half;
        preferred_event = event;
        g_events = event ∷ [];
        skymap = none;
      } in
      let far = far_from_All c t_0 w h in
      let absent = far_absent half t_0 c.superevents w.wide far in
      record {
        index =
            ap (insert time_cmp t_0 (format_id c.next_seq)) w.index
            ∙ sym (map_values-insert time_cmp (λ s. s.id) t_0 s c.superevents);
        ascending = Ascending-insert L t_0 s 0 c.superevents (omega arith) absent w.ascending;
        centred =
            All-insert time_cmp (IsCentred L half) t_0 s c.superevents absent (refl, refl, refl)
              w.centred;
        apart =
            Pairs-insert time_cmp (Apart L half) t_0 s c.superevents (Apart-sym L half) absent far
              w.apart;
        best =
            All-insert time_cmp (λ e. IsBest L e.1) t_0 s c.superevents absent
              (inl refl, (omega arith, tt)) w.best;
        issued =
            All-insert time_cmp (λ e. Issued ((c.next_seq + 1) % 2 ^ 64) e.1) t_0 s c.superevents
              absent (c.next_seq, refl, omega arith)
              (All-map (λ e. Issued c.next_seq e.1) (λ e. Issued ((c.next_seq + 1) % 2 ^ 64) e.1)
                (λ e p. (p.0, p.1, omega arith)) c.superevents w.issued);
        distinct =
            Pairs-insert time_cmp DistinctIds t_0 s c.superevents (λ a b p e. p (sym e)) absent
              (fresh_id c.next_seq t_0 s c.superevents w.room refl w.issued) w.distinct;
        room = omega arith;
        wide = w.wide;
      }

  -- The window that the search found is held by the map.
  pub held :
      (c : SupereventCreator F C) (g t : F)
      → WellFormed L c
      → find_closest_t0 c g ≡ some t
      → (s : Superevent F C) × (get time_cmp t c.superevents ≡ some s)
  held c g t w h =
      let near =
        find_closest_t0-IsNearest L c g t
          (subst (Ascending L 0) (sym w.index)
            (Ascending-map_values L (λ s. s.id) 0 c.superevents w.ascending))
          h in
      let (v, found) = near.0 in
      let (s, p, q) =
        get-map_values time_cmp (λ s. s.id) t c.superevents v
          (subst (λ m. get time_cmp t m ≡ some v) w.index found) in
      (s, p)

  absorbed-WellFormed :
      (c : SupereventCreator F C) (event : GwEvent F C) (t : F) (s : Superevent F C)
      → WellFormed L c
      → get time_cmp t c.superevents ≡ some s
      → WellFormed L
          (record c { superevents = modify time_cmp t (λ _. (absorb s event).0) c.superevents })
  absorbed-WellFormed c event t s w g =
      let keeps = absorb_keeps L s event in
      let (k, best) = All-get time_cmp (λ e. IsBest L e.1) t s c.superevents g w.best in
      changed_in_place L c t s (absorb s event).0 w g keeps.0 keeps.1 keeps.2 keeps.3
        (absorb-IsBest L s event best)

  pub process-opened :
      (c : SupereventCreator F C) (event : GwEvent F C)
      → find_closest_t0 c event.end_time ≡ none
      → process c event ≡ some (open_window c event)
  unfolding process
  process-opened c event h = rw (h, process)

  pub process-absorbed :
      (c : SupereventCreator F C) (event : GwEvent F C) (t : F) (s : Superevent F C)
      → find_closest_t0 c event.end_time ≡ some t
      → get time_cmp t c.superevents ≡ some s
      → process c event
        ≡ some (
          record c { superevents = modify time_cmp t (λ _. (absorb s event).0) c.superevents },
          (absorb s event).1,
        )
  unfolding process
  process-absorbed c event t s h g = rw (h, process) (rw (g, process))

  next_seq-open_window :
      (c : SupereventCreator F C) (event : GwEvent F C)
      → WellFormed L c
      → c.next_seq + 1 < 2 ^ 64
      → (open_window c event).0.next_seq ≤ c.next_seq + 1
  unfolding open_window
  next_seq-open_window c event w room = omega arith

  process_cases :
      (c : SupereventCreator F C) (event : GwEvent F C) (found : Option F)
      → WellFormed L c
      → c.next_seq + 1 < 2 ^ 64
      → find_closest_t0 c event.end_time ≡ found
      → (r : SupereventCreator F C × SupereventUpdate F C) × (process c event ≡ some r)
        × WellFormed L r.0
        × (r.0.next_seq ≤ c.next_seq + 1)
  unfolding process
  process_cases c event none w room h = (
    open_window c event,
    process-opened c event h,
    open_window-WellFormed c event w room h,
    next_seq-open_window c event w room,
  )
  process_cases c event (some t) w room h =
      let (s, g) = held c event.end_time t w h in
      (
        (
          record c { superevents = modify time_cmp t (λ _. (absorb s event).0) c.superevents },
          (absorb s event).1,
        ),
        process-absorbed c event t s h g,
        absorbed-WellFormed c event t s w g,
        omega arith,
      )

  -- For floats that meet FloatLaws: from a well-formed creator whose next sequence number plus
  -- one is below 2^64, `process` does not panic on any event, the creator that it returns is well
  -- formed, and the sequence number grows by at most one.
  pub process-WellFormed :
      (c : SupereventCreator F C) (event : GwEvent F C)
      → WellFormed L c
      → c.next_seq + 1 < 2 ^ 64
      → (r : SupereventCreator F C × SupereventUpdate F C) × (process c event ≡ some r)
        × WellFormed L r.0
        × (r.0.next_seq ≤ c.next_seq + 1)
  process-WellFormed c event w room =
      process_cases c event (find_closest_t0 c event.end_time) w room refl
