-- ===== src/Clustering/Nearest.antt =====
-- `find_closest_t0` of src/clustering.rs over an index whose keys ascend.
use boom_gw.Base.{
  ℕ, ◌≤◌, ◌<◌, ◌≡◌, refl, sym, ◌∙◌, ◌⊎◌, inl, inr, List, [], ◌∷◌, ◌++◌, Option, none, some, arith,
  All, All-map, All-zip,
}
use boom_gw.Base.Floats.{Float, FloatLaws, fixed, ◌-F◌, cmp_f}
use boom_gw.Base.BTree.{BTreeMap, get, last_below, first_from}
use boom_gw.Clustering.Defs.{
  SupereventCreator, time_cmp, half_of, closest, find_closest_t0, within_half, min_by, to_list,
  key_of,
}
use boom_gw.Clustering.Neighbours.{
  Ascending, NoneBelow, AllBelow, IsLastBelow, IsFirstFrom, last_below-none, last_below-some,
  first_from-none, first_from-some,
}

module _ {F : Type 0} ⦃fl : Float F⦄ (L : FloatLaws fl) where
  open L use {rank, cmp_rank, dist_below, dist_above}

  -- The distance of two times, in the order of the values.
  abbrev pub dist : F → F → ℕ
  dist g t = rank (fl.abs (g -F t))

  module _ {V : Type 0} where
    -- No key of `m` lies within `half` of `g`.
    abbrev pub IsFarFrom : F → F → BTreeMap F V → Type 0
    IsFarFrom half g m = All (λ e. rank half < dist g e.0) m

    -- `t` is a key of `m` within `half` of `g`, and no key is nearer to `g`.
    abbrev pub IsNearest : F → F → BTreeMap F V → F → Type 0
    IsNearest half g m t =
        ((v : V) × (get time_cmp t m ≡ some v))
        × (dist g t ≤ rank half)
        × All (λ e. dist g t ≤ dist g e.0) m

    abbrev Either : F → F → F → F × V → Type 0
    Either g b a e = (dist g b ≤ dist g e.0) ⊎ (dist g a ≤ dist g e.0)

    below_above :
        (g b a : F) (m : BTreeMap F V)
        → IsLastBelow L g b m
        → IsFirstFrom L g a m
        → rank b < rank g
        → rank g ≤ rank a
        → All (Either g b a) m
    below_above g b a m hb ha p q =
        All-zip _ _ (Either g b a) (λ e u v. ground (arith, dist_below g e.0 b, dist_above g a e.0))
          m hb ha

    below_only :
        (g b : F) (m : BTreeMap F V)
        → IsLastBelow L g b m
        → AllBelow L g m
        → rank b < rank g
        → All (Either g b b) m
    below_only g b m hb ha p =
        All-zip _ _ (Either g b b) (λ e u v. ground (arith, dist_below g e.0 b)) m hb ha

    above_only :
        (g a : F) (m : BTreeMap F V)
        → NoneBelow L g m
        → IsFirstFrom L g a m
        → rank g ≤ rank a
        → All (Either g a a) m
    above_only g a m hb ha q =
        All-zip _ _ (Either g a a) (λ e u v. ground (arith, dist_above g a e.0)) m hb ha

    nearest_left :
        (g b a t : F) (m : BTreeMap F V)
        → All (Either g b a) m
        → dist g t ≤ dist g b
        → dist g t ≤ dist g a
        → All (λ e. dist g t ≤ dist g e.0) m
    nearest_left g b a t m h p q =
        All-map (Either g b a) (λ e. dist g t ≤ dist g e.0) (λ e u. ground arith) m h

    All-far :
        (half g b a : F) (m : BTreeMap F V)
        → All (Either g b a) m
        → rank half < dist g b
        → rank half < dist g a
        → IsFarFrom half g m
    All-far half g b a m h p q =
        All-map (Either g b a) (λ e. rank half < dist g e.0) (λ e u. ground arith) m h

    empty_far :
        (half g : F) (m : BTreeMap F V) → NoneBelow L g m → AllBelow L g m → IsFarFrom half g m
    empty_far half g m h k =
        All-zip _ _ (λ e. rank half < dist g e.0) (λ e u v. absurd (omega arith)) m h k

  -- The choice between the neighbours, whatever the index.
  abbrev pick : F → F → List F → Option F
  pick half g cs = min_by (λ a b. cmp_f (fl.abs (g -F a)) (fl.abs (g -F b))) (within_half half g cs)

  pick_two_none :
      (half g b a : F)
      → pick half g (b ∷ a ∷ []) ≡ none
      → (rank half < dist g b) × (rank half < dist g a)
  unfolding min_by within_half
  pick_two_none half g b a h =
      ground (arith, cmp_rank (fl.abs (g -F b)) half, cmp_rank (fl.abs (g -F a)) half)

  pick_two_some :
      (half g b a t : F)
      → pick half g (b ∷ a ∷ []) ≡ some t
      → (dist g t ≤ rank half) × (dist g t ≤ dist g b) × (dist g t ≤ dist g a) × ((t ≡ b) ⊎ (t ≡ a))
  unfolding min_by within_half
  pick_two_some half g b a t h = ground (
    arith,
    cmp_rank (fl.abs (g -F b)) half,
    cmp_rank (fl.abs (g -F a)) half,
    cmp_rank (fl.abs (g -F b)) (fl.abs (g -F a)),
  )

  pick_one_none : (half g b : F) → pick half g (b ∷ []) ≡ none → rank half < dist g b
  unfolding min_by within_half
  pick_one_none half g b h = ground (arith, cmp_rank (fl.abs (g -F b)) half)

  pick_one_some :
      (half g b t : F) → pick half g (b ∷ []) ≡ some t → (dist g b ≤ rank half) × (t ≡ b)
  unfolding min_by within_half
  pick_one_some half g b t h = ground (arith, cmp_rank (fl.abs (g -F b)) half)

  pick_nothing : (half g t : F) → pick half g [] ≡ some t → ⊥
  unfolding min_by within_half
  pick_nothing half g t h = cc

  module _ {V : Type 0} where
    key_either :
        (m : BTreeMap F V) (t b a : F) (v w : V)
        → get time_cmp b m ≡ some v
        → get time_cmp a m ≡ some w
        → (t ≡ b) ⊎ (t ≡ a)
        → (x : V) × (get time_cmp t m ≡ some x)
    key_either m t b a v w p q (inl e) = (v, rw e p)
    key_either m t b a v w p q (inr e) = (w, rw e q)

    closest-pick :
        (window g : F) (m : BTreeMap F V)
        → closest window g m
          ≡ pick (half_of window) g (
              to_list (key_of (last_below time_cmp g m))
              ++ to_list (key_of (first_from time_cmp g m)))
    unfolding closest
    closest-pick window g [] = refl
    closest-pick window g (e ∷ es) = refl

    -- The same with the two neighbours named.
    picked :
        (window g : F) (m : BTreeMap F V) (b a : Option (F × V)) (r : Option F)
        → last_below time_cmp g m ≡ b
        → first_from time_cmp g m ≡ a
        → closest window g m ≡ r
        → pick (half_of window) g (to_list (key_of b) ++ to_list (key_of a)) ≡ r
    picked window g m b a r p q h = rw (p, q) at (sym (closest-pick window g m) ∙ h)

    closest-IsNearest :
        (window g t : F) (lo : ℕ) (m : BTreeMap F V) (b a : Option (F × V))
        → Ascending L lo m
        → last_below time_cmp g m ≡ b
        → first_from time_cmp g m ≡ a
        → closest window g m ≡ some t
        → IsNearest (half_of window) g m t
    closest-IsNearest window g t lo m none none asc p q h =
        absurd (pick_nothing (half_of window) g t (picked window g m none none (some t) p q h))
    closest-IsNearest window g t lo m (some (b, v)) none asc p q h =
        let below = last_below-some L g lo m b v asc p in
        let all = below_only g b m below.2 (first_from-none L g m q) below.0 in
        let c =
          pick_one_some (half_of window) g b t
            (picked window g m (some (b, v)) none (some t) p q h) in
        (
          (v, rw (c.1) (below.1)),
          rw (c.1) (c.0),
          rw (c.1) (nearest_left g b b b m all (omega arith) (omega arith)),
        )
    closest-IsNearest window g t lo m none (some (a, w)) asc p q h =
        let above = first_from-some L g lo m a w asc q in
        let all = above_only g a m (last_below-none L g lo m asc p) above.2 above.0 in
        let c =
          pick_one_some (half_of window) g a t
            (picked window g m none (some (a, w)) (some t) p q h) in
        (
          (w, rw (c.1) (above.1)),
          rw (c.1) (c.0),
          rw (c.1) (nearest_left g a a a m all (omega arith) (omega arith)),
        )
    closest-IsNearest window g t lo m (some (b, v)) (some (a, w)) asc p q h =
        let below = last_below-some L g lo m b v asc p in
        let above = first_from-some L g lo m a w asc q in
        let all = below_above g b a m below.2 above.2 below.0 above.0 in
        let c =
          pick_two_some (half_of window) g b a t
            (picked window g m (some (b, v)) (some (a, w)) (some t) p q h) in
        (key_either m t b a v w below.1 above.1 c.3, c.0, nearest_left g b a t m all c.1 c.2)

    closest-far :
        (window g : F) (lo : ℕ) (m : BTreeMap F V) (b a : Option (F × V))
        → Ascending L lo m
        → last_below time_cmp g m ≡ b
        → first_from time_cmp g m ≡ a
        → closest window g m ≡ none
        → IsFarFrom (half_of window) g m
    closest-far window g lo m none none asc p q h =
        empty_far (half_of window) g m (last_below-none L g lo m asc p) (first_from-none L g m q)
    closest-far window g lo m (some (b, v)) none asc p q h =
        let below = last_below-some L g lo m b v asc p in
        let all = below_only g b m below.2 (first_from-none L g m q) below.0 in
        let c =
          pick_one_none (half_of window) g b (picked window g m (some (b, v)) none none p q h) in
        All-far (half_of window) g b b m all c c
    closest-far window g lo m none (some (a, w)) asc p q h =
        let above = first_from-some L g lo m a w asc q in
        let all = above_only g a m (last_below-none L g lo m asc p) above.2 above.0 in
        let c =
          pick_one_none (half_of window) g a (picked window g m none (some (a, w)) none p q h) in
        All-far (half_of window) g a a m all c c
    closest-far window g lo m (some (b, v)) (some (a, w)) asc p q h =
        let below = last_below-some L g lo m b v asc p in
        let above = first_from-some L g lo m a w asc q in
        let all = below_above g b a m below.2 above.2 below.0 above.0 in
        let c =
          pick_two_none (half_of window) g b a
            (picked window g m (some (b, v)) (some (a, w)) none p q h) in
        All-far (half_of window) g b a m all c.0 c.1

  module _ {C : Type 0} where
    -- For floats that meet FloatLaws: if the times of the index ascend and `find_closest_t0`
    -- returns a time, then it is a key of the index, within half a window of the given time, and
    -- no key of the index is nearer.
    pub find_closest_t0-IsNearest :
        (c : SupereventCreator F C) (g t : F)
        → Ascending L 0 c.times
        → find_closest_t0 c g ≡ some t
        → IsNearest (half_of c.window_duration) g c.times t
    unfolding find_closest_t0
    find_closest_t0-IsNearest c g t asc h =
        closest-IsNearest c.window_duration g t 0 c.times _ _ asc refl refl h

    -- For floats that meet FloatLaws: if the times of the index ascend and `find_closest_t0`
    -- returns nothing, then every key of the index is further than half a window from the given
    -- time.
    pub find_closest_t0-IsFarFrom :
        (c : SupereventCreator F C) (g : F)
        → Ascending L 0 c.times
        → find_closest_t0 c g ≡ none
        → IsFarFrom (half_of c.window_duration) g c.times
    unfolding find_closest_t0
    find_closest_t0-IsFarFrom c g asc h =
        closest-far c.window_duration g 0 c.times _ _ asc refl refl h
