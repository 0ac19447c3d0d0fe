-- ===== src/ScienceFilter.antt =====
-- `ConfidenceTier` of src/archive.rs: the tier of a cross-match.
pub mod Tiers
mod Examples
use boom_gw.Base.{
  Bool, true, false, List, [], ◌∷◌, Option, none, some, Bytes, Ordering, if◌then◌else◌,
}
use boom_gw.Base.Floats.{Float, cmp_f, le_f}

pub record ConfidenceTier (F : Type 0) : Type 0 where
  pub name : Bytes
  pub joint_far_remapped_max_per_year : F

module _ {F : Type 0} ⦃fl : Float F⦄ where
  -- `sort_by` is stable: a tier goes before the later ones of the same bound.
  unfoldable pub tier_in : ConfidenceTier F → List (ConfidenceTier F) → List (ConfidenceTier F)
  tier_in t [] = t ∷ []
  tier_in t (x ∷ xs) =
      let rest = tier_in t xs in
      elim (cmp_f t.joint_far_remapped_max_per_year x.joint_far_remapped_max_per_year) [
        | Ordering.gt ↦ x ∷ rest
        | _ ↦ t ∷ x ∷ xs
      ]

  unfoldable pub sort_tiers : List (ConfidenceTier F) → List (ConfidenceTier F)
  unfolding tier_in
  sort_tiers [] = []
  sort_tiers (t ∷ ts) = tier_in t (sort_tiers ts)

  unfoldable pub first_cleared : F → List (ConfidenceTier F) → Option (ConfidenceTier F)
  first_cleared far [] = none
  first_cleared far (t ∷ ts) =
      if le_f far t.joint_far_remapped_max_per_year then some t else first_cleared far ts

  unfoldable pub tier_for : List (ConfidenceTier F) → Option F → Option (ConfidenceTier F)
  unfolding first_cleared
  tier_for tiers none = none
  tier_for tiers (some far) = first_cleared far tiers
