-- ===== src/Crossmatch/Counted.antt =====
-- What the count of the rotations says (`empirical_pvalue` of src/pvalue.rs).
use boom_gw.Base.{
  ◌⊎◌, false, ◌+◌, ◌%◌, ◌^◌, inr, inl, ℕ, zero, suc, ◌≤◌, ◌≡◌, refl, subst, Bool, true, Option,
  Bool-cases, arith,
}
use boom_gw.Base.Floats.{Float, FloatLaws, ◌+F◌, ◌-F◌, ◌*F◌, lt_f, ◌/F◌, le_f}
use boom_gw.Crossmatch.{err, Result, PvalueError, zero_f, Sky, ok, PvalueResult, is_usable}
use boom_gw.Crossmatch.Pvalue.{
  intersection_area_deg2, cone_moc, is_above, n_above_of, seed_of, estimate, empirical_pvalue,
}

-- So many of the first n trials have at least the observed area.
pub data Tally {F : Type 0} ⦃fl : Float F⦄ (observed : F) (area : ℕ → F) : ℕ → ℕ → Type 0 where
  no_trial : Tally observed area 0 0
  at_least :
      (n k : ℕ)
      → le_f observed (area n) ≡ true
      → Tally observed area n k
      → Tally observed area (suc n) (k + 1)
  less :
      (n k : ℕ)
      → le_f observed (area n) ≡ false
      → Tally observed area n k
      → Tally observed area (suc n) k

n_above_of-Tally :
    {F : Type 0} ⦃fl : Float F⦄ (observed : F) (area : ℕ → F) (n : ℕ)
    → Tally observed area n (n_above_of (λ i. le_f observed (area i)) n)
unfolding n_above_of
n_above_of-Tally observed area zero = no_trial
n_above_of-Tally observed area (suc n) = elim (Bool-cases (le_f observed (area n))) [
  | inl h ↦ rw (h) (at_least n _ h (n_above_of-Tally observed area n))
  | inr h ↦ rw (h) (less n _ h (n_above_of-Tally observed area n))
]

n_above_of_mono :
    (f g : ℕ → Bool) (n : ℕ) → ((i : ℕ) → f i ≡ true → g i ≡ true) → n_above_of f n ≤ n_above_of g n
unfolding n_above_of
n_above_of_mono f g zero h = omega arith
n_above_of_mono f g (suc n) h = ground (arith, n_above_of_mono f g n h, h n)

le_f_trans :
    {F : Type 0} ⦃fl : Float F⦄ (L : FloatLaws fl) (x y z : F)
    → le_f x y ≡ true
    → le_f y z ≡ true
    → le_f x z ≡ true
le_f_trans L x y z h k = ground (arith, L.cmp_rank x y, L.cmp_rank y z, L.cmp_rank x z)

module _ {F : Type 0} ⦃fl : Float F⦄ (sky : Sky F) (gw_moc : sky.Moc) where
  -- The overlap of the cone of trial i, at the position that its own generator draws.
  abbrev pub trial_area : F → ℕ → ℕ → F
  trial_area radius seed i =
      let rng = sky.seed_from_u64 ((seed + i) % 2 ^ 64) in
      let a = sky.gen rng in
      let b = sky.gen a.1 in
      let dec = sky.to_degrees (sky.asin (b.0 *F fl.decimal 2 0 -F fl.decimal 1 0)) in
      intersection_area_deg2 sky gw_moc (cone_moc sky (a.0 *F fl.decimal 360 0) dec radius)

  -- The estimate: the overlap of the observed cone, a count of the trials, and its plus-one
  -- quotient.
  pub record IsEstimate (ra dec radius : F) (n_trials seed : ℕ) (res : PvalueResult F)
      : Type 0 where
    pub overlap :
        res.observed_area_deg2 ≡ intersection_area_deg2 sky gw_moc (cone_moc sky ra dec radius)
    pub trials : res.n_trials ≡ n_trials
    pub tally : Tally res.observed_area_deg2 (trial_area radius seed) n_trials res.n_above
    pub quotient :
        res.p_value
        ≡ (fl.decimal res.n_above 0 +F fl.decimal 1 0) /F (fl.decimal n_trials 0 +F fl.decimal 1 0)

  -- An error for a radius that is not finite or not positive, otherwise an estimate.
  abbrev pub Estimates : F → F → F → ℕ → ℕ → Result (PvalueResult F) PvalueError → Type 0
  Estimates ra dec radius n_trials seed (err e) =
      (fl.is_finite radius ≡ false) ⊎ (lt_f zero_f radius ≡ false)
  Estimates ra dec radius n_trials seed (ok res) =
      (fl.is_finite radius ≡ true)
      × (lt_f zero_f radius ≡ true)
      × IsEstimate ra dec radius n_trials seed res

  estimate-IsEstimate :
      (ra dec radius : F) (n_trials : ℕ) (seed : Option ℕ)
      → IsEstimate ra dec radius n_trials
          (seed_of seed)
          (estimate sky gw_moc ra dec radius n_trials seed)
  unfolding estimate is_above
  estimate-IsEstimate ra dec radius n_trials seed = record {
    overlap = refl;
    trials = refl;
    tally = n_above_of-Tally _ (trial_area radius (seed_of seed)) n_trials;
    quotient = refl;
  }

  -- `empirical_pvalue` fails exactly for a radius that is not finite or not positive. Otherwise
  -- its observed overlap is that of the cone at the given position, it counts those of the
  -- requested number of trials whose cone, at the position drawn from the generator of seed plus
  -- trial, overlaps at least as much, and its p-value is the plus-one quotient of this count and
  -- the number of trials.
  pub empirical_pvalue-Estimates :
      (ra dec radius : F) (n_trials : ℕ) (seed : Option ℕ)
      → Estimates ra dec radius n_trials
          (seed_of seed)
          (empirical_pvalue sky gw_moc ra dec radius n_trials seed)
  unfolding empirical_pvalue
  empirical_pvalue-Estimates ra dec radius n_trials seed = elim (Bool-cases (fl.is_finite radius)) [
    | inr f ↦ rw (f) (inl f)
    | inl f ↦ elim (Bool-cases (lt_f zero_f radius)) [
      | inr l ↦ rw (f, l) (inr l)
      | inl l ↦ rw (f, l) (f, l, estimate-IsEstimate ra dec radius n_trials seed)
    ]
  ]

  estimated :
      (ra dec radius : F) (n_trials : ℕ) (seed : Option ℕ) (res : PvalueResult F)
      → empirical_pvalue sky gw_moc ra dec radius n_trials seed ≡ ok res
      → estimate sky gw_moc ra dec radius n_trials seed ≡ res
  unfolding empirical_pvalue
  estimated ra dec radius n_trials seed res h = elim (Bool-cases (is_usable radius)) [
    | inl u ↦ cc (rw (u) at h)
    | inr u ↦ absurd (cc (rw (u) at h))
  ]

  fewer :
      (L : FloatLaws fl) (radius x y : F) (seed n : ℕ)
      → le_f x y ≡ true
      → n_above_of (is_above sky gw_moc radius y seed) n
        ≤ n_above_of (is_above sky gw_moc radius x seed) n
  unfolding is_above
  fewer L radius x y seed n h = n_above_of_mono _ _ n (λ i. λ e. le_f_trans L x y _ h e)

  estimate-antitone :
      (L : FloatLaws fl) (ra dec ra_2 dec_2 radius : F) (n : ℕ) (seed : Option ℕ)
      → le_f
          (estimate sky gw_moc ra dec radius n seed).observed_area_deg2
          (estimate sky gw_moc ra_2 dec_2 radius n seed).observed_area_deg2
        ≡ true
      → (estimate sky gw_moc ra_2 dec_2 radius n seed).n_above
        ≤ (estimate sky gw_moc ra dec radius n seed).n_above
  unfolding estimate
  estimate-antitone L ra dec ra_2 dec_2 radius n seed h = fewer L radius _ _ (seed_of seed) n h

  -- If floats meet FloatLaws, two runs of `empirical_pvalue` with the same region, radius, number
  -- of trials and seed return estimates, and the second has at least the observed overlap of the
  -- first, then the second counts at most as many trials above it.
  pub n_above-antitone :
      (L : FloatLaws fl) (ra dec ra_2 dec_2 radius : F) (n_trials : ℕ) (seed : Option ℕ)
      (a b : PvalueResult F)
      → empirical_pvalue sky gw_moc ra dec radius n_trials seed ≡ ok a
      → empirical_pvalue sky gw_moc ra_2 dec_2 radius n_trials seed ≡ ok b
      → le_f a.observed_area_deg2 b.observed_area_deg2 ≡ true
      → b.n_above ≤ a.n_above
  n_above-antitone L ra dec ra_2 dec_2 radius n seed a b h k =
      subst (λ x. le_f x.observed_area_deg2 b.observed_area_deg2 ≡ true → b.n_above ≤ x.n_above)
        (estimated ra dec radius n seed a h)
        (subst
          (λ y.
            le_f (estimate sky gw_moc ra dec radius n seed).observed_area_deg2 y.observed_area_deg2
              ≡ true
            → y.n_above ≤ (estimate sky gw_moc ra dec radius n seed).n_above)
          (estimated ra_2 dec_2 radius n seed b k)
          (estimate-antitone L ra dec ra_2 dec_2 radius n seed))
