-- ===== src/Crossmatch/Answers.antt =====
-- What `cross_match_with_contours` answers (src/crossmatch.rs).
use boom_gw.Base.{
  both_options, ℕ, ◌<◌, ◌≡◌, refl, ◌⊎◌, inl, inr, Bool, true, false, Option, none, some, Bytes, ltb,
  Bool-cases, Option-cases, arith, if◌then◌else◌,
}
use boom_gw.Base.Floats.{Float, ◌*F◌, ◌/F◌}
use boom_gw.Crossmatch.{
  per_year, TargetedJointFarOpts, Sky, Result, ok, err, CrossMatchError, grb_without_position,
  invalid_error_radius, PvalueOpts, GrbTrigger, SkyPosition, CrossMatchResult, is_usable, radius_of,
  usable_radius, no_overlap, raven_joint_far_per_year, raven_targeted_joint_far_per_year,
  targeted_opts_for,
}
use boom_gw.Crossmatch.Pvalue.{estimate, empirical_pvalue}
use boom_gw.Crossmatch.Matching.{
  Search, Simulated, unsimulated, spatial_overlap, simulated, targeted, result_of,
  cross_match_with_contours,
}

-- A p-value comes with its trials, from options that ask for some and a region of 90%; without it
-- there is no remapped rate.
pub data Simulation {F M : Type 0} (options : Option (PvalueOpts F)) (contour_90 : Option M)
    : Option F → Option ℕ → Option F → Type 0 where
  not_run : Simulation options contour_90 none none none
  run :
      (opts : PvalueOpts F) (m : M) (p : F) (remapped : Option F)
      → options ≡ some opts
      → contour_90 ≡ some m
      → 0 < opts.n_trials
      → Simulation options contour_90 (some p) (some opts.n_trials) remapped

-- The targeted rate needs a rate of the trigger, and where it is, the untargeted one is too.
abbrev pub FallsBack : {F : Type 0} → GrbTrigger F → Option F → Option F → Type 0
FallsBack trigger none joint = Unit
FallsBack {F} trigger (some t) joint =
    ((j : F) × (joint ≡ some j)) × ((far : F) × (trigger.far_hz ≡ some far))

module _ {F : Type 0} ⦃fl : Float F⦄ (search : Search F) (trigger : GrbTrigger F) where
  abbrev untargeted : F → Option F
  untargeted overlap =
      raven_joint_far_per_year search.time_window_sec search.grb_rate_hz search.gw_far_hz overlap

  joint_cases :
      (overlap : F)
      → ((no_overlap overlap ≡ true) × (untargeted overlap ≡ none))
        ⊎ ((no_overlap overlap ≡ false) × ((j : F) × (untargeted overlap ≡ some j)))
  unfolding raven_joint_far_per_year
  joint_cases overlap = elim (Bool-cases (no_overlap overlap)) [
    | inl o ↦ inl (o, rw (o) refl)
    | inr o ↦ inr (
      o,
      (
        per_year (search.time_window_sec *F search.grb_rate_hz *F search.gw_far_hz /F overlap),
        rw (o) refl,
      ),
    )
  ]

  backed :
      (b : Bool) (r j far : F)
      → trigger.far_hz ≡ some far
      → FallsBack trigger (if b then none else some r) (some j)
  backed true r j far h = tt
  backed false r j far h = ((j, refl), (far, h))

  -- Of the options, which come with a rate of the trigger.
  reported :
      (overlap far : F) (opts : TargetedJointFarOpts F)
      → trigger.far_hz ≡ some far
      → FallsBack trigger
          (raven_targeted_joint_far_per_year search.time_window_sec opts search.gw_far_hz overlap)
          (untargeted overlap)
  unfolding raven_targeted_joint_far_per_year
  reported overlap far opts h = elim (joint_cases overlap) [
    | inl (o, e) ↦ rw (o) tt
    | inr (o, (j, e)) ↦ rw (o, e) (backed _ _ j far h)
  ]

  FallsBack-targeted :
      (overlap : F) → FallsBack trigger (targeted search trigger overlap) (untargeted overlap)
  unfolding targeted_opts_for
  FallsBack-targeted overlap = elim (Option-cases trigger.far_hz) [
    | inl h ↦ rw (h) tt
    | inr (far, h) ↦
        both_options (λ t. FallsBack trigger t (untargeted overlap)) (targeted_opts_for trigger)
          none _ tt (λ opts. reported overlap far opts h)
  ]

  -- What a result reports.
  pub record Reports {M : Type 0} (options : Option (PvalueOpts F)) (contour_90 : Option M)
      (overlap : F) (r : CrossMatchResult F) : Type 0 where
    pub overlaps : r.spatial_overlap ≡ overlap
    pub joint :
        ((no_overlap overlap ≡ true) × (r.joint_far_per_year ≡ none))
        ⊎ ((no_overlap overlap ≡ false) × ((j : F) × (r.joint_far_per_year ≡ some j)))
    pub falls_back : FallsBack trigger r.targeted_joint_far_per_year r.joint_far_per_year
    pub simulation :
        Simulation options contour_90 r.p_value r.p_value_trials r.joint_far_remapped_per_year
    pub unassociated : r.associated ≡ false

module _ {F : Type 0} ⦃fl : Float F⦄ (sky : Sky F) (search : Search F) where
  simulated_cases :
      (options : Option (PvalueOpts F)) (contour_90 : Option sky.Moc) (p : SkyPosition F)
      (radius : F)
      → is_usable radius ≡ true
      → (s : Simulated F) × (simulated sky search options contour_90 p radius ≡ ok s)
        × Simulation options contour_90 s.p_value s.trials s.remapped
  unfolding empirical_pvalue estimate
  simulated_cases none contour_90 p radius u = (unsimulated, refl, not_run)
  simulated_cases (some opts) none p radius u = (unsimulated, refl, not_run)
  simulated_cases (some opts) (some m) p radius u = elim (Bool-cases (ltb 0 opts.n_trials)) [
    | inl n ↦ rw (n, u) (_, refl, run opts m _ _ refl refl (ground (arith, n)))
    | inr n ↦ rw (n) (unsimulated, refl, not_run)
  ]

module _ {F : Type 0} ⦃fl : Float F⦄ (sky : Sky F) (search : Search F) (trigger : GrbTrigger F)
    (gw_skymap_fits grb_moc_fits : Bytes) (contour_50 contour_90 : Option sky.Moc)
    (options : Option (PvalueOpts F)) where
  -- The answers: no position, no usable radius, an error in the overlap, or a result.
  pub data Answers : Result (CrossMatchResult F) CrossMatchError → Type 0 where
    unlocalized : trigger.position ≡ none → Answers (err grb_without_position)
    unbounded :
        (p : SkyPosition F)
        → trigger.position ≡ some p
        → is_usable (radius_of trigger p) ≡ false
        → Answers (err invalid_error_radius)
    unread :
        (p : SkyPosition F) (e : CrossMatchError)
        → trigger.position ≡ some p
        → is_usable (radius_of trigger p) ≡ true
        → spatial_overlap sky gw_skymap_fits grb_moc_fits ≡ err e
        → Answers (err e)
    matched :
        (p : SkyPosition F) (overlap : F) (r : CrossMatchResult F)
        → trigger.position ≡ some p
        → is_usable (radius_of trigger p) ≡ true
        → spatial_overlap sky gw_skymap_fits grb_moc_fits ≡ ok overlap
        → Reports search trigger options contour_90 overlap r
        → Answers (ok r)

  result_of-Reports :
      (p : SkyPosition F) (overlap : F) (s : Simulated F)
      → Simulation options contour_90 s.p_value s.trials s.remapped
      → (r : CrossMatchResult F) × (result_of sky search trigger contour_50 contour_90 p overlap
            (ok s)
          ≡ ok r)
        × Reports search trigger options contour_90 overlap r
  result_of-Reports p overlap s h = (
    _,
    refl,
    record {
      overlaps = refl;
      joint = joint_cases search trigger overlap;
      falls_back = FallsBack-targeted search trigger overlap;
      simulation = h;
      unassociated = refl;
    },
  )

  abbrev at_position : SkyPosition F → Result (CrossMatchResult F) CrossMatchError
  at_position p = elim (usable_radius trigger p) [
    | none ↦ err invalid_error_radius
    | some radius ↦ elim (spatial_overlap sky gw_skymap_fits grb_moc_fits) [
      | err e ↦ err e
      | ok overlap ↦
          result_of sky search trigger contour_50 contour_90 p overlap
            (simulated sky search options contour_90 p radius)
    ]
  ]

  overlapped :
      (p : SkyPosition F)
      → trigger.position ≡ some p
      → is_usable (radius_of trigger p) ≡ true
      → (o : Result F CrossMatchError) → spatial_overlap sky gw_skymap_fits grb_moc_fits ≡ o
      → Answers (elim o [
        | err e ↦ err e
        | ok overlap ↦
            result_of sky search trigger contour_50 contour_90 p overlap
              (simulated sky search options contour_90 p (radius_of trigger p))
      ])
  overlapped p h u (err e) q = unread p e h u q
  overlapped p h u (ok overlap) q =
      let s = simulated_cases sky search options contour_90 p (radius_of trigger p) u in
      let r = result_of-Reports p overlap s.0 s.2 in rw (s.1, r.1) (matched p overlap r.0 h u q r.2)

  with_position : (p : SkyPosition F) → trigger.position ≡ some p → Answers (at_position p)
  unfolding usable_radius
  with_position p h = elim (Bool-cases (is_usable (radius_of trigger p))) [
    | inl u ↦
        rw (u, at_position)
          (overlapped p h u (spatial_overlap sky gw_skymap_fits grb_moc_fits) refl)
    | inr u ↦ rw (u, at_position) (unbounded p h u)
  ]

  answered :
      (o : Option (SkyPosition F))
      → trigger.position ≡ o
      → Answers (elim o [ none ↦ err grb_without_position | some p ↦ at_position p ])
  answered none h = unlocalized h
  answered (some p) h = with_position p h

  -- `cross_match_with_contours` fails for a trigger without a position, for one without a finite
  -- positive radius, and with the error of the spatial overlap, and for no other reason, the
  -- Monte Carlo included. Otherwise it reports this overlap; an untargeted joint rate exactly
  -- where the overlap is finite and positive; a targeted one only for a trigger with a rate and
  -- beside an untargeted one; a p-value only with the requested, positive number of trials and a
  -- 90% region, and a remapped rate only beside a p-value; and no association.
  pub cross_match_with_contours-Answers : Answers (
      cross_match_with_contours sky search trigger gw_skymap_fits grb_moc_fits contour_50 contour_90
        options)
  unfolding cross_match_with_contours
  cross_match_with_contours-Answers = answered trigger.position refl
