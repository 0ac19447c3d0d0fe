-- ===== src/Clustering/Neighbours.antt =====
-- The neighbours of a time in the index of src/clustering.rs (`range(..key)`, `range(key..)`), whose
-- keys ascend.
use boom_gw.Base.{
  ℕ, suc, ◌≤◌, ◌<◌, ◌≡◌, ◌≢◌, refl, ◌⊎◌, inr, [], ◌∷◌, none, some, arith, compare, All, All-map,
  Option-cases,
}
use boom_gw.Base.Floats.{Float, FloatLaws, fixed}
use boom_gw.Base.BTree.{BTreeMap, get, last_below, first_from, insert, modify, remove}
use boom_gw.Base.BTree.Laws.{map_values}
use boom_gw.Clustering.Defs.{time_cmp}

module _ {F : Type 0} ⦃fl : Float F⦄ (L : FloatLaws fl) where
  open L use {rank, cmp_rank, dist_below, dist_above}

  pub time_cmp-rank : (a b : F) → time_cmp a b ≡ compare (rank a) (rank b)
  time_cmp-rank a b = ground (arith, cmp_rank a b)

  module _ {V : Type 0} where
    -- The keys ascend strictly, from `lo` on.
    abbrev pub Ascending : ℕ → BTreeMap F V → Type 0
    Ascending lo [] = Unit {0}
    Ascending lo ((k, v) ∷ m) = (lo ≤ rank k) × Ascending (suc (rank k)) m

    pub Ascending-mono : (lo hi : ℕ) (m : BTreeMap F V) → lo ≤ hi → Ascending hi m → Ascending lo m
    Ascending-mono lo hi [] h a = tt
    Ascending-mono lo hi ((k, v) ∷ m) h a = (omega arith, a.1)

    -- No key stands below `lo`.
    pub Ascending-All : (lo : ℕ) (m : BTreeMap F V) → Ascending lo m → All (λ e. lo ≤ rank e.0) m
    Ascending-All lo [] a = tt
    Ascending-All lo ((k, v) ∷ m) a =
        (a.0, Ascending-All lo m (Ascending-mono lo (suc (rank k)) m (omega arith) a.1))

    -- What is known of the two neighbours of `g`.
    abbrev pub NoneBelow : F → BTreeMap F V → Type 0
    NoneBelow g m = All (λ e. rank g ≤ rank e.0) m

    abbrev pub AllBelow : F → BTreeMap F V → Type 0
    AllBelow g m = All (λ e. rank e.0 < rank g) m

    abbrev pub IsLastBelow : F → F → BTreeMap F V → Type 0
    IsLastBelow g k m = All (λ e. (rank e.0 ≤ rank k) ⊎ (rank g ≤ rank e.0)) m

    abbrev pub IsFirstFrom : F → F → BTreeMap F V → Type 0
    IsFirstFrom g k m = All (λ e. (rank e.0 < rank g) ⊎ (rank k ≤ rank e.0)) m

    NoneBelow-above :
        (g k : F) (m : BTreeMap F V) → Ascending (suc (rank k)) m → rank g ≤ rank k → NoneBelow g m
    NoneBelow-above g k m a h =
        All-map (λ e. suc (rank k) ≤ rank e.0) (λ e. rank g ≤ rank e.0) (λ e q. omega arith) m
          (Ascending-All (suc (rank k)) m a)

    IsLastBelow-NoneBelow : (g k : F) (m : BTreeMap F V) → NoneBelow g m → IsLastBelow g k m
    IsLastBelow-NoneBelow g k m h =
        All-map (λ e. rank g ≤ rank e.0) (λ e. (rank e.0 ≤ rank k) ⊎ (rank g ≤ rank e.0))
          (λ e q. inr q) m h

    IsFirstFrom-above :
        (g k : F) (m : BTreeMap F V) → Ascending (suc (rank k)) m → IsFirstFrom g k m
    IsFirstFrom-above g k m a =
        All-map (λ e. suc (rank k) ≤ rank e.0) (λ e. (rank e.0 < rank g) ⊎ (rank k ≤ rank e.0))
          (λ e q. inr (omega arith)) m (Ascending-All (suc (rank k)) m a)

    -- Where the head stands below `g`, there is a last key below `g`.
    last_below_head :
        (g k : F) (v : V) (m : BTreeMap F V)
        → rank k < rank g
        → last_below time_cmp g ((k, v) ∷ m) ≢ none
    unfolding last_below
    last_below_head g k v m h = ground (arith, cmp_rank k g, Option-cases (last_below time_cmp g m))

    pub get_above :
        (g : F) (lo : ℕ) (m : BTreeMap F V) → Ascending lo m → rank g < lo → get time_cmp g m ≡ none
    unfolding get
    get_above g lo [] a h = refl
    get_above g lo ((k, v) ∷ m) a h = ground (arith, cmp_rank g k, get_above g (suc (rank k)) m a.1)

    pub last_below-none :
        (g : F) (lo : ℕ) (m : BTreeMap F V)
        → Ascending lo m
        → last_below time_cmp g m ≡ none
        → NoneBelow g m
    last_below-none g lo [] a h = tt
    last_below-none g lo ((k, v) ∷ m) a h =
        ground (arith, NoneBelow-above g k m a.1, last_below_head g k v m)

    pub last_below-some :
        (g : F) (lo : ℕ) (m : BTreeMap F V) (k : F) (v : V)
        → Ascending lo m
        → last_below time_cmp g m ≡ some (k, v)
        → (rank k < rank g) × (get time_cmp k m ≡ some v) × IsLastBelow g k m
    unfolding last_below get
    last_below-some g lo [] k v a h = ground arith
    last_below-some g lo ((j, w) ∷ m) k v a h = ground (
      arith,
      cmp_rank j g,
      cmp_rank k j,
      last_below-none g (suc (rank j)) m a.1,
      IsLastBelow-NoneBelow g j m,
      last_below-some g (suc (rank j)) m k v a.1,
      get_above k (suc (rank j)) m a.1,
    )

    pub first_from-none : (g : F) (m : BTreeMap F V) → first_from time_cmp g m ≡ none → AllBelow g m
    unfolding first_from
    first_from-none g [] h = tt
    first_from-none g ((k, v) ∷ m) h = ground (arith, cmp_rank k g, first_from-none g m)

    pub first_from-some :
        (g : F) (lo : ℕ) (m : BTreeMap F V) (k : F) (v : V)
        → Ascending lo m
        → first_from time_cmp g m ≡ some (k, v)
        → (rank g ≤ rank k) × (get time_cmp k m ≡ some v) × IsFirstFrom g k m
    unfolding first_from get
    first_from-some g lo [] k v a h = ground arith
    first_from-some g lo ((j, w) ∷ m) k v a h = ground (
      arith,
      cmp_rank j g,
      cmp_rank k j,
      first_from-some g (suc (rank j)) m k v a.1,
      IsFirstFrom-above g j m a.1,
      get_above k (suc (rank j)) m a.1,
    )

    pub Ascending-insert :
        (k : F) (v : V) (lo : ℕ) (m : BTreeMap F V)
        → lo ≤ rank k
        → get time_cmp k m ≡ none
        → Ascending lo m
        → Ascending lo (insert time_cmp k v m)
    unfolding insert get
    Ascending-insert k v lo [] h g a = (h, tt)
    Ascending-insert k v lo ((j, w) ∷ m) h g a =
        ground (arith, cmp_rank k j, Ascending-insert k v (suc (rank j)) m)

    pub Ascending-modify :
        (k : F) (s' : V) (lo : ℕ) (m : BTreeMap F V)
        → Ascending lo m
        → Ascending lo (modify time_cmp k (λ _. s') m)
    unfolding modify
    Ascending-modify k s' lo [] a = tt
    Ascending-modify k s' lo ((j, w) ∷ m) a =
        ground (arith, cmp_rank k j, Ascending-modify k s' (suc (rank j)) m)

    pub Ascending-remove :
        (k : F) (lo : ℕ) (m : BTreeMap F V) → Ascending lo m → Ascending lo (remove time_cmp k m)
    unfolding remove
    Ascending-remove k lo [] a = tt
    Ascending-remove k lo ((j, w) ∷ m) a = ground (
      arith,
      cmp_rank k j,
      Ascending-remove k (suc (rank j)) m a.1,
      Ascending-mono lo (suc (rank j)) m,
    )

  pub Ascending-map_values :
      {V W : Type 0} (f : V → W) (lo : ℕ) (m : BTreeMap F V)
      → Ascending lo m
      → Ascending lo (map_values f m)
  Ascending-map_values f lo [] a = tt
  Ascending-map_values f lo ((k, v) ∷ m) a = (a.0, Ascending-map_values f (suc (rank k)) m a.1)
