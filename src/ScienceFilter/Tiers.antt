-- ===== src/ScienceFilter/Tiers.antt =====
-- The tier that a cross-match is tagged with (`sort_tiers` and `tier_for` of src/archive.rs).
use boom_gw.Base.{
  ◌≡◌, List, [], ◌∷◌, arith, ℕ, ◌≤◌, ◌⊎◌, Bool, true, false, Option, none, some, Bool-cases, inl,
  inr, All, All-map,
}
use boom_gw.Base.Floats.{Float, FloatLaws, le_f}
use boom_gw.Base.BTree.Laws.{Pairs}
use boom_gw.Clustering.Invariant.{Occurs}
use boom_gw.Clusterer.Earliest.{All-Occurs}
use boom_gw.ScienceFilter.{ConfidenceTier, tier_in, sort_tiers, first_cleared, tier_for}

module _ {F : Type 0} ⦃fl : Float F⦄ (L : FloatLaws fl) where
  abbrev bound : ConfidenceTier F → ℕ
  bound t = L.rank t.joint_far_remapped_max_per_year

  abbrev NoLooser : ConfidenceTier F → ConfidenceTier F → Type 0
  NoLooser a b = bound a ≤ bound b

  tier_in-cases :
      (t x : ConfidenceTier F) (xs : List (ConfidenceTier F))
      → ((bound t ≤ bound x) × (tier_in t (x ∷ xs) ≡ t ∷ x ∷ xs))
        ⊎ ((bound x ≤ bound t) × (tier_in t (x ∷ xs) ≡ x ∷ tier_in t xs))
  unfolding tier_in
  tier_in-cases t x xs =
      ground (arith, L.cmp_rank t.joint_far_remapped_max_per_year x.joint_far_remapped_max_per_year)

  All-tier_in :
      (P : ConfidenceTier F → Type 0) (t : ConfidenceTier F) (xs : List (ConfidenceTier F))
      → P t
      → All P xs
      → All P (tier_in t xs)
  unfolding tier_in
  All-tier_in P t [] h a = (h, tt)
  All-tier_in P t (x ∷ xs) h a = elim (tier_in-cases t x xs) [
    | inl (l, q) ↦ rw q (h, a)
    | inr (l, q) ↦ rw q (a.0, All-tier_in P t xs h a.1)
  ]

  All-out :
      (P : ConfidenceTier F → Type 0) (t : ConfidenceTier F) (xs : List (ConfidenceTier F))
      → All P (tier_in t xs)
      → P t × All P xs
  unfolding tier_in
  All-out P t [] a = a
  All-out P t (x ∷ xs) a = elim (tier_in-cases t x xs) [
    | inl (l, q) ↦ rw q at a
    | inr (l, q) ↦ let b = rw q at a in let r = All-out P t xs b.1 in (r.0, (b.0, r.1))
  ]

  Pairs-tier_in :
      (t : ConfidenceTier F) (xs : List (ConfidenceTier F))
      → Pairs NoLooser xs
      → Pairs NoLooser (tier_in t xs)
  unfolding tier_in
  Pairs-tier_in t [] a = (tt, tt)
  Pairs-tier_in t (x ∷ xs) a = elim (tier_in-cases t x xs) [
    | inl (l, q) ↦ rw q ((l, All-map (NoLooser x) (NoLooser t) (λ y m. omega arith) xs a.0), a)
    | inr (l, q) ↦ rw q (All-tier_in (NoLooser x) t xs l a.0, Pairs-tier_in t xs a.1)
  ]

  Pairs-sort_tiers : (ts : List (ConfidenceTier F)) → Pairs NoLooser (sort_tiers ts)
  unfolding sort_tiers
  Pairs-sort_tiers [] = tt
  Pairs-sort_tiers (t ∷ ts) = Pairs-tier_in t (sort_tiers ts) (Pairs-sort_tiers ts)

  All-sort_tiers :
      (P : ConfidenceTier F → Type 0) (ts : List (ConfidenceTier F))
      → All P ts
      → All P (sort_tiers ts)
  unfolding sort_tiers
  All-sort_tiers P [] a = tt
  All-sort_tiers P (t ∷ ts) a = All-tier_in P t (sort_tiers ts) a.0 (All-sort_tiers P ts a.1)

  All-unsorted :
      (P : ConfidenceTier F → Type 0) (ts : List (ConfidenceTier F))
      → All P (sort_tiers ts)
      → All P ts
  unfolding sort_tiers
  All-unsorted P [] a = tt
  All-unsorted P (t ∷ ts) a = let r = All-out P t (sort_tiers ts) a in (r.0, All-unsorted P ts r.1)

  abbrev pub clears : F → ConfidenceTier F → Bool
  clears far t = le_f far t.joint_far_remapped_max_per_year

  -- The tier of a rate: none is cleared, or it is cleared, and each that is cleared is no stricter.
  abbrev pub IsTier : F → List (ConfidenceTier F) → Option (ConfidenceTier F) → Type 0
  IsTier far ts none = All (λ t. clears far t ≡ false) ts
  IsTier far ts (some tier) =
      (clears far tier ≡ true)
      × Occurs tier ts
      × All (λ t. clears far t ≡ true → bound tier ≤ bound t) ts

  -- The same for a sorted list, with another property of its tiers.
  abbrev Found :
      (ConfidenceTier F → Type 0) → F → List (ConfidenceTier F) → Option (ConfidenceTier F) → Type 0
  Found P far ts none = All (λ t. clears far t ≡ false) ts
  Found P far ts (some tier) =
      (clears far tier ≡ true) × P tier × All (λ t. clears far t ≡ true → bound tier ≤ bound t) ts

  extended :
      (P : ConfidenceTier F → Type 0) (far : F) (t : ConfidenceTier F)
      (ts : List (ConfidenceTier F)) (r : Option (ConfidenceTier F))
      → clears far t ≡ false
      → Found P far ts r
      → Found P far (t ∷ ts) r
  extended P far t ts none n f = (n, f)
  extended P far t ts (some tier) n f = (f.0, f.1, ((λ c. absurd (cc c)), f.2))

  Found-first_cleared :
      (P : ConfidenceTier F → Type 0) (far : F) (ts : List (ConfidenceTier F))
      → Pairs NoLooser ts
      → All P ts
      → Found P far ts (first_cleared far ts)
  unfolding first_cleared
  Found-first_cleared P far [] s a = tt
  Found-first_cleared P far (t ∷ ts) s a = elim (Bool-cases (clears far t)) [
    | inl c ↦ rw (c) (
      c,
      a.0,
      (
        (λ d. omega arith),
        All-map (NoLooser t) (λ u. clears far u ≡ true → bound t ≤ bound u) (λ u m. λ d. m) ts s.0,
      ),
    )
    | inr n ↦
        rw (n) (extended P far t ts (first_cleared far ts) n (Found-first_cleared P far ts s.1 a.1))
  ]

  unsorted :
      (far : F) (ts : List (ConfidenceTier F)) (r : Option (ConfidenceTier F))
      → Found (λ t. Occurs t ts) far (sort_tiers ts) r
      → IsTier far ts r
  unsorted far ts none f = All-unsorted _ ts f
  unsorted far ts (some tier) f = (f.0, f.1, All-unsorted _ ts f.2)

  -- If floats meet FloatLaws, then after `sort_tiers`, whatever the order in which a client gives
  -- the tiers, `tier_for` of a joint rate gives none exactly where the rate clears no tier, and
  -- otherwise one of the given tiers that the rate clears and whose bound is at most that of any
  -- other which it clears.
  pub tier_for-IsTier :
      (far : F) (tiers : List (ConfidenceTier F))
      → IsTier far tiers (tier_for (sort_tiers tiers) (some far))
  unfolding tier_for
  tier_for-IsTier far tiers = unsorted far tiers (first_cleared far (sort_tiers tiers)) (
      Found-first_cleared (λ t. Occurs t tiers) far (sort_tiers tiers) (Pairs-sort_tiers tiers)
        (All-sort_tiers (λ t. Occurs t tiers) tiers
          (All-Occurs (λ t. Occurs t tiers) tiers (λ x o. o))))
