-- ===== src/Crossmatch.antt =====
-- src/crossmatch.rs and src/pvalue.rs: a superevent and a trigger of a gamma-ray burst.
-- Sky regions, spherical geometry and random numbers are parameters; the texts of errors are left
-- out.
pub mod Pvalue
pub mod Matching
pub mod Counted
pub mod Answers
mod Examples
use boom_gw.Base.{
  List, [], ◌∷◌, ◌==◌, ◌==◌, ◌∷◌, ℕ, zero, suc, ◌+◌, ◌%◌, ◌^◌, Bool, true, false, not, ◌&&◌, ◌||◌,
  Option, none, some, Bytes, codes, bytes_eq, ltb, if◌then◌else◌,
}
use boom_gw.Base.Floats.{Float, ◌+F◌, ◌-F◌, ◌*F◌, ◌/F◌, lt_f, le_f}

pub data Result (A E : Type 0) : Type 0 where
  ok : A → Result A E
  err : E → Result A E

pub data CrossMatchError : Type 0 where
  grb_without_position invalid_error_radius cone fits contour_fits : CrossMatchError

pub data PvalueError : Type 0 where
  invalid_range : PvalueError

pub record SkyPosition (F : Type 0) : Type 0 where
  pub ra : F
  pub dec : F
  pub uncertainty_arcsec : F

pub record GrbTrigger (F : Type 0) : Type 0 where
  pub trigger_id : Bytes
  pub instrument : Bytes
  pub trigger_time : F
  pub position : Option (SkyPosition F)
  pub significance : F
  pub skymap_url : Option Bytes
  pub error_radius_deg : Option F
  pub far_hz : Option F

pub record CrossMatchResult (F : Type 0) : Type 0 where
  pub time_offset_sec : F
  pub spatial_overlap : F
  pub in_50cr : Bool
  pub in_90cr : Bool
  pub joint_far_per_year : Option F
  pub p_value : Option F
  pub p_value_trials : Option ℕ
  pub joint_far_remapped_per_year : Option F
  pub targeted_joint_far_per_year : Option F
  pub associated : Bool

pub record PvalueOpts (F : Type 0) : Type 0 where
  pub n_trials : ℕ
  pub far_gw_max_hz : F
  pub seed : Option ℕ

pub record PvalueResult (F : Type 0) : Type 0 where
  pub observed_area_deg2 : F
  pub gw_area_deg2 : F
  pub grb_area_deg2 : F
  pub p_value : F
  pub n_trials : ℕ
  pub n_above : ℕ

pub record TargetedJointFarOpts (F : Type 0) : Type 0 where
  pub far_ext_hz : F
  pub far_gw_thresh_hz : F
  pub far_ext_thresh_hz : F

-- The libraries: a region that is read (none for an error or another kind of region), the integral
-- of a map over it, whether it contains the pixel of a point, a cone, the intersection, the part of
-- the sphere; a seeded generator and its next number; and the functions on angles.
pub record Sky (F : Type 0) : Type 1 where
  pub Moc : Type 0
  pub Rng : Type 0
  pub from_fits_ivoa : Bytes → Option Moc
  pub sum_from_fits_multiordermap : Bytes → Moc → Option F
  pub contains_point : Moc → F → F → Bool
  pub from_cone : F → F → F → Moc
  pub and_moc : Moc → Moc → Moc
  pub coverage_percentage : Moc → F
  pub seed_from_u64 : ℕ → Rng
  pub gen : Rng → F × Rng
  pub pi : F
  pub to_radians : F → F
  pub to_degrees : F → F
  pub asin : F → F

-- Whether a text starts with another.
abbrev pub starts_with : Bytes → Bytes → Bool
starts_with s [] = true
starts_with [] (c ∷ prefix) = false
starts_with (d ∷ s) (c ∷ prefix) = d == c && starts_with s prefix

module _ {F : Type 0} ⦃fl : Float F⦄ where
  abbrev pub zero_f : F
  zero_f = fl.decimal 0 0

  abbrev pub per_year : F → F
  per_year hz = hz *F fl.decimal 36525 2 *F fl.decimal 24 0 *F fl.decimal 3600 0

  -- What both joint rates ask of the overlap.
  abbrev pub no_overlap : F → Bool
  no_overlap overlap = le_f overlap zero_f || not (fl.is_finite overlap)

  unfoldable pub raven_joint_far_per_year : F → F → F → F → Option F
  raven_joint_far_per_year time_window_sec ext_rate_hz gw_far_hz spatial_overlap =
      if no_overlap spatial_overlap
      then none
      else some (per_year (time_window_sec *F ext_rate_hz *F gw_far_hz /F spatial_overlap))

  abbrev pub fermi_subgrb_default : F → TargetedJointFarOpts F
  fermi_subgrb_default far_ext_hz = record {
    far_ext_hz = far_ext_hz;
    far_gw_thresh_hz = fl.decimal 2 0 /F fl.decimal 86400 0;
    far_ext_thresh_hz = fl.decimal 1 0 /F fl.decimal 10000 0;
  }

  abbrev pub swift_subgrb_default : F → TargetedJointFarOpts F
  swift_subgrb_default far_ext_hz = record {
    far_ext_hz = far_ext_hz;
    far_gw_thresh_hz = fl.decimal 2 0 /F fl.decimal 86400 0;
    far_ext_thresh_hz = fl.decimal 1 0 /F fl.decimal 1000 0;
  }

  unfoldable pub targeted_opts_for : GrbTrigger F → Option (TargetedJointFarOpts F)
  targeted_opts_for trigger = elim trigger.far_hz [
    | none ↦ none
    | some far ↦
        if starts_with trigger.instrument (codes "Fermi-GBM")
        then some (fermi_subgrb_default far)
        else if bytes_eq trigger.instrument (codes "Swift-BAT")
        then some (swift_subgrb_default far)
        else none
  ]

  -- `z` and `z_max`.
  abbrev pub outside_search : F → F → Bool
  outside_search z z_max =
      not (fl.is_finite z) || le_f z zero_f || le_f z_max zero_f || le_f z_max z

  unfoldable pub raven_targeted_joint_far_per_year : F → TargetedJointFarOpts F → F → F → Option F
  raven_targeted_joint_far_per_year time_window_sec opts gw_far_hz spatial_overlap =
      let z = time_window_sec *F opts.far_ext_hz *F gw_far_hz in
      let z_max = time_window_sec *F opts.far_ext_thresh_hz *F opts.far_gw_thresh_hz in
      if no_overlap spatial_overlap
      then none
      else if outside_search z z_max
      then none
      else some (per_year (z *F (fl.decimal 1 0 -F fl.ln (z /F z_max)) /F spatial_overlap))

  unfoldable pub far_remapped : F → F → F → F → F → Option F
  far_remapped far_gw_hz grb_rate_hz time_window_sec p_value far_gw_max_hz =
      let far_temporal = far_gw_hz *F grb_rate_hz *F time_window_sec in
      let ratio = far_gw_hz *F p_value /F far_gw_max_hz in
      if le_f p_value zero_f || le_f far_gw_max_hz zero_f || not (fl.is_finite p_value)
      then none
      else if le_f ratio zero_f
      then none
      else some (far_temporal *F p_value *F (fl.decimal 1 0 -F fl.ln ratio))

  abbrev pub is_usable : F → Bool
  is_usable radius = fl.is_finite radius && lt_f zero_f radius

  abbrev pub radius_of : GrbTrigger F → SkyPosition F → F
  radius_of trigger position = elim trigger.error_radius_deg [
    | none ↦ position.uncertainty_arcsec /F fl.decimal 3600 0
    | some r ↦ r
  ]

  -- The radius of the trigger, else that of its position, if it is usable.
  unfoldable pub usable_radius : GrbTrigger F → SkyPosition F → Option F
  usable_radius trigger position =
      if is_usable (radius_of trigger position) then some (radius_of trigger position) else none
