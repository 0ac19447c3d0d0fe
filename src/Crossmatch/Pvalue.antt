-- ===== src/Crossmatch/Pvalue.antt =====
-- `empirical_pvalue` of src/pvalue.rs: random rotations of the cone of a trigger.
-- Code in parallel is a count in turn, since each trial has a generator of its own.
use boom_gw.Base.{ℕ, zero, suc, ◌+◌, ◌%◌, ◌^◌, Bool, Option, none, some, if◌then◌else◌}
use boom_gw.Base.Floats.{Float, ◌+F◌, ◌-F◌, ◌*F◌, ◌/F◌, le_f}
use boom_gw.Crossmatch.{Sky, Result, ok, err, PvalueError, invalid_range, PvalueResult, is_usable}

unfoldable pub n_above_of : (ℕ → Bool) → ℕ → ℕ
n_above_of above zero = 0
n_above_of above (suc n) = let rest = n_above_of above n in if above n then rest + 1 else rest

abbrev pub seed_of : Option ℕ → ℕ
seed_of none = 42
seed_of (some seed) = seed

module _ {F : Type 0} ⦃fl : Float F⦄ (sky : Sky F) where
  abbrev pub sr_to_deg2 : F
  sr_to_deg2 = fl.decimal 180 0 /F sky.pi *F (fl.decimal 180 0 /F sky.pi)

  abbrev pub moc_area_deg2 : sky.Moc → F
  moc_area_deg2 m = sky.coverage_percentage m *F fl.decimal 4 0 *F sky.pi *F sr_to_deg2

  abbrev pub intersection_area_deg2 : sky.Moc → sky.Moc → F
  intersection_area_deg2 a b = moc_area_deg2 (sky.and_moc a b)

  -- `max`: a radius that is NaN is the bound.
  abbrev pub cone_moc : F → F → F → sky.Moc
  cone_moc ra_deg dec_deg radius_deg =
      sky.from_cone (sky.to_radians ra_deg) (sky.to_radians dec_deg)
        (sky.to_radians (if le_f (fl.decimal 5 2) radius_deg then radius_deg else fl.decimal 5 2))

  abbrev pub random_sky_position : sky.Rng → F × F
  random_sky_position rng =
      let a = sky.gen rng in
      let b = sky.gen a.1 in
      (a.0 *F fl.decimal 360 0, sky.to_degrees (sky.asin (b.0 *F fl.decimal 2 0 -F fl.decimal 1 0)))

  -- Whether trial i overlaps at least as much as what was observed.
  unfoldable pub is_above : sky.Moc → F → F → ℕ → ℕ → Bool
  is_above gw_moc grb_radius_deg observed base_seed i =
      let p = random_sky_position (sky.seed_from_u64 ((base_seed + i) % 2 ^ 64)) in
      le_f observed (intersection_area_deg2 gw_moc (cone_moc p.0 p.1 grb_radius_deg))

  unfoldable pub estimate : sky.Moc → F → F → F → ℕ → Option ℕ → PvalueResult F
  unfolding is_above n_above_of
  estimate gw_moc grb_ra grb_dec grb_radius_deg n_trials seed =
      let observed = cone_moc grb_ra grb_dec grb_radius_deg in
      let area = intersection_area_deg2 gw_moc observed in
      let n = n_above_of (is_above gw_moc grb_radius_deg area (seed_of seed)) n_trials in
      record {
        observed_area_deg2 = area;
        gw_area_deg2 = moc_area_deg2 gw_moc;
        grb_area_deg2 = moc_area_deg2 observed;
        p_value = (fl.decimal n 0 +F fl.decimal 1 0) /F (fl.decimal n_trials 0 +F fl.decimal 1 0);
        n_trials = n_trials;
        n_above = n;
      }

  unfoldable pub empirical_pvalue :
      sky.Moc → F → F → F → ℕ → Option ℕ → Result (PvalueResult F) PvalueError
  unfolding estimate
  empirical_pvalue gw_moc grb_ra grb_dec grb_radius_deg n_trials seed =
      if is_usable grb_radius_deg
      then ok (estimate gw_moc grb_ra grb_dec grb_radius_deg n_trials seed)
      else err invalid_range
