-- ===== src/Clustering/Cleanup.antt =====
-- `SupereventCreator::cleanup_before` (src/clustering.rs).
use boom_gw.Base.{
  ℕ, suc, ◌≤◌, ◌≡◌, refl, sym, ◌∙◌, ap, List, [], ◌∷◌, ◌++◌, arith, All, if◌then◌else◌,
}
use boom_gw.Base.Floats.{Float, FloatLaws, lt_f}
use boom_gw.Base.BTree.{BTreeMap, get, remove}
use boom_gw.Base.BTree.Laws.{All-remove, Pairs-remove, map_values-remove}
use boom_gw.Clustering.Defs.{
  Superevent, SupereventCreator, time_cmp, half_of, cleanup_before, stale_keys, remove_keys,
  to_list,
}
use boom_gw.Clustering.Neighbours.{Ascending, Ascending-remove, Ascending-All}
use boom_gw.Clustering.Invariant.{WellFormed, Issued, DistinctIds, IsCentred, Apart, IsBest}

module _ {F C : Type 0} ⦃fl : Float F⦄ where
  -- The entries that stay, and the superevents that go: a window goes if it ends before the cutoff.
  unfoldable pub still_open : F → BTreeMap F (Superevent F C) → BTreeMap F (Superevent F C)
  still_open cutoff [] = []
  still_open cutoff ((k, s) ∷ m) =
      let rest = still_open cutoff m in if lt_f s.t_end cutoff then rest else (k, s) ∷ rest

  unfoldable pub ended : F → BTreeMap F (Superevent F C) → List (Superevent F C)
  ended cutoff [] = []
  ended cutoff ((k, s) ∷ m) =
      let rest = ended cutoff m in if lt_f s.t_end cutoff then s ∷ rest else rest

  -- `remove_keys` seen on the map of superevents alone.
  dropped : List F → BTreeMap F (Superevent F C) → BTreeMap F (Superevent F C)
  dropped [] m = m
  dropped (k ∷ ks) m = dropped ks (remove time_cmp k m)

  taken : List F → BTreeMap F (Superevent F C) → List (Superevent F C)
  taken [] m = []
  taken (k ∷ ks) m = to_list (get time_cmp k m) ++ taken ks (remove time_cmp k m)

  remove_keys-dropped :
      (ks : List F) (c : SupereventCreator F C)
      → ((remove_keys ks c).0.superevents ≡ dropped ks c.superevents)
        × ((remove_keys ks c).1 ≡ taken ks c.superevents)
        × ((remove_keys ks c).0.next_seq ≡ c.next_seq)
        × ((remove_keys ks c).0.window_duration ≡ c.window_duration)
  unfolding remove_keys dropped taken
  remove_keys-dropped [] c = (refl, refl, refl, refl)
  remove_keys-dropped (k ∷ ks) c =
      let (a, b, d, e) = remove_keys-dropped ks (record c {
        times = remove time_cmp k c.times;
        superevents = remove time_cmp k c.superevents;
      }) in
      (a, ap (◌++◌ (to_list (get time_cmp k c.superevents))) b, d, e)

module _ {F C : Type 0} ⦃fl : Float F⦄ (L : FloatLaws fl) where
  open L use {rank, cmp_rank}

  stale_keys-All :
      (cutoff : F) (n : ℕ) (m : BTreeMap F (Superevent F C))
      → All (λ e. n ≤ rank e.0) m
      → All (λ k. n ≤ rank k) (stale_keys cutoff m)
  unfolding stale_keys
  stale_keys-All cutoff n [] h = tt
  stale_keys-All cutoff n ((k, s) ∷ m) h = ground (arith, stale_keys-All cutoff n m h.1)

  -- Keys above the first entry leave it alone.
  dropped_above :
      (j : F) (s : Superevent F C) (ks : List F) (m : BTreeMap F (Superevent F C))
      → All (λ k. suc (rank j) ≤ rank k) ks
      → (dropped ks ((j, s) ∷ m) ≡ (j, s) ∷ dropped ks m) × (taken ks ((j, s) ∷ m) ≡ taken ks m)
  unfolding dropped taken remove get
  dropped_above j s [] m h = (refl, refl)
  dropped_above j s (k ∷ ks) m h =
      ground (arith, cmp_rank k j, dropped_above j s ks (remove time_cmp k m) h.1)

  drop_stale :
      (cutoff : F) (lo : ℕ) (m : BTreeMap F (Superevent F C))
      → Ascending L lo m
      → (dropped (stale_keys cutoff m) m ≡ still_open cutoff m)
        × (taken (stale_keys cutoff m) m ≡ ended cutoff m)
  unfolding dropped taken stale_keys still_open ended remove get
  drop_stale cutoff lo [] a = (refl, refl)
  drop_stale cutoff lo ((j, s) ∷ m) a = ground (
    arith,
    cmp_rank j j,
    drop_stale cutoff (suc (rank j)) m a.1,
    dropped_above j s (stale_keys cutoff m) m
        (stale_keys-All cutoff (suc (rank j)) m (Ascending-All L (suc (rank j)) m a.1)),
  )

  -- For floats that meet FloatLaws: from a well-formed creator, `cleanup_before` keeps exactly
  -- the superevents whose windows do not end before the cutoff, returns exactly the others, both
  -- in the order of their centres, and leaves the sequence number.
  pub cleanup_before-ended :
      (c : SupereventCreator F C) (cutoff : F)
      → WellFormed L c
      → ((cleanup_before c cutoff).0.superevents ≡ still_open cutoff c.superevents)
        × ((cleanup_before c cutoff).1 ≡ ended cutoff c.superevents)
        × ((cleanup_before c cutoff).0.next_seq ≡ c.next_seq)
  unfolding cleanup_before
  cleanup_before-ended c cutoff w =
      let (a, b, d, e) = remove_keys-dropped (stale_keys cutoff c.superevents) c in
      let (p, q) = drop_stale cutoff 0 c.superevents w.ascending in (a ∙ p, b ∙ q, d)

  removed-WellFormed :
      (k : F) (c : SupereventCreator F C)
      → WellFormed L c
      → WellFormed L (record c {
        times = remove time_cmp k c.times;
        superevents = remove time_cmp k c.superevents;
      })
  removed-WellFormed k c w = record {
    index =
        ap (remove time_cmp k) w.index
        ∙ sym (map_values-remove time_cmp (λ s. s.id) k c.superevents);
    ascending = Ascending-remove L k 0 c.superevents w.ascending;
    centred =
        All-remove time_cmp (IsCentred L (half_of c.window_duration)) k c.superevents w.centred;
    apart = Pairs-remove time_cmp (Apart L (half_of c.window_duration)) k c.superevents w.apart;
    best = All-remove time_cmp (λ e. IsBest L e.1) k c.superevents w.best;
    issued = All-remove time_cmp (λ e. Issued c.next_seq e.1) k c.superevents w.issued;
    distinct = Pairs-remove time_cmp DistinctIds k c.superevents w.distinct;
    room = w.room;
    wide = w.wide;
  }

  remove_keys-WellFormed :
      (ks : List F) (c : SupereventCreator F C) → WellFormed L c → WellFormed L (remove_keys ks c).0
  unfolding remove_keys
  remove_keys-WellFormed [] c w = w
  remove_keys-WellFormed (k ∷ ks) c w = remove_keys-WellFormed ks _ (removed-WellFormed k c w)

  pub cleanup_before-WellFormed :
      (c : SupereventCreator F C) (cutoff : F)
      → WellFormed L c
      → WellFormed L (cleanup_before c cutoff).0
  unfolding cleanup_before
  cleanup_before-WellFormed c cutoff w =
      remove_keys-WellFormed (stale_keys cutoff c.superevents) c w
