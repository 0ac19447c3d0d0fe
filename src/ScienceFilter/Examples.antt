-- ===== src/ScienceFilter/Examples.antt =====
-- Two tiers in the wrong order.
use boom_gw.Base.{◌≡◌, refl, [], ◌∷◌, ℕ, some, codes}
use boom_gw.Base.Floats.{fixed, fixed_laws}
use boom_gw.Clustering.Examples.{seconds}
use boom_gw.ScienceFilter.{ConfidenceTier, sort_tiers, tier_for}
use boom_gw.ScienceFilter.Tiers.{IsTier, tier_for-IsTier}

abbrev silver : ConfidenceTier ℕ
silver = record { name = codes "silver"; joint_far_remapped_max_per_year = seconds 12 }

abbrev gold : ConfidenceTier ℕ
gold = record { name = codes "gold"; joint_far_remapped_max_per_year = seconds 1 }

tagged : tier_for (sort_tiers (silver ∷ gold ∷ [])) (some (seconds 1)) ≡ some gold
unfolding tier_for sort_tiers
tagged = refl

tier_for-IsTier_example :
    IsTier fixed_laws
      (seconds 1)
      (silver ∷ gold ∷ [])
      (tier_for (sort_tiers (silver ∷ gold ∷ [])) (some (seconds 1)))
tier_for-IsTier_example = tier_for-IsTier fixed_laws (seconds 1) (silver ∷ gold ∷ [])
