-- ===== src/Crossmatch/Matching.antt =====
-- `cross_match` of src/crossmatch.rs.
use boom_gw.Base.{ℕ, Bool, false, Option, none, some, Bytes, ltb, if◌then◌else◌}
use boom_gw.Base.Floats.{Float, ◌-F◌}
use boom_gw.Crossmatch.{
  Sky, Result, ok, err, CrossMatchError, grb_without_position, invalid_error_radius, fits,
  contour_fits, PvalueError, PvalueResult, PvalueOpts, GrbTrigger, SkyPosition, CrossMatchResult,
  usable_radius, raven_joint_far_per_year, raven_targeted_joint_far_per_year, targeted_opts_for,
  far_remapped,
}
use boom_gw.Crossmatch.Pvalue.{empirical_pvalue}

-- The p-value, its trials and the remapped rate.
pub record Simulated (F : Type 0) : Type 0 where
  pub p_value : Option F
  pub trials : Option ℕ
  pub remapped : Option F

abbrev pub unsimulated : {F : Type 0} → Simulated F
unsimulated = record { p_value = none; trials = none; remapped = none }

-- What does not depend on the region or the trigger.
pub record Search (F : Type 0) : Type 0 where
  pub superevent_t0 : F
  pub gw_far_hz : F
  pub time_window_sec : F
  pub grb_rate_hz : F

module _ {F : Type 0} ⦃fl : Float F⦄ where
  abbrev pub targeted : Search F → GrbTrigger F → F → Option F
  targeted search trigger overlap = elim (targeted_opts_for trigger) [
    | none ↦ none
    | some opts ↦
        raven_targeted_joint_far_per_year search.time_window_sec opts search.gw_far_hz overlap
  ]

module _ {F : Type 0} ⦃fl : Float F⦄ (sky : Sky F) where
  unfoldable pub spatial_overlap : Bytes → Bytes → Result F CrossMatchError
  spatial_overlap gw_skymap_fits grb_moc_fits = elim (sky.from_fits_ivoa grb_moc_fits) [
    | none ↦ err contour_fits
    | some grb_moc ↦ elim (sky.sum_from_fits_multiordermap gw_skymap_fits grb_moc) [
      | none ↦ err fits
      | some sum ↦ ok sum
    ]
  ]

  -- The pixel of the position at the depth of the region.
  abbrev pub position_in_parsed_contour : sky.Moc → SkyPosition F → Bool
  position_in_parsed_contour m position =
      sky.contains_point m (sky.to_radians position.ra) (sky.to_radians position.dec)

  abbrev pub in_contour : Option sky.Moc → SkyPosition F → Bool
  in_contour none position = false
  in_contour (some m) position = position_in_parsed_contour m position

  abbrev pub remap :
      Search F
      → PvalueOpts F
      → Result (PvalueResult F) PvalueError
      → Result (Simulated F) CrossMatchError
  remap search opts (err e) = err fits
  remap search opts (ok res) = ok (record {
    p_value = some res.p_value;
    trials = some res.n_trials;
    remapped =
        far_remapped search.gw_far_hz search.grb_rate_hz search.time_window_sec res.p_value
          opts.far_gw_max_hz;
  })

  abbrev pub simulated :
      Search F
      → Option (PvalueOpts F)
      → Option sky.Moc
      → SkyPosition F
      → F
      → Result (Simulated F) CrossMatchError
  simulated search none contour_90 position radius = ok unsimulated
  simulated search (some opts) none position radius = ok unsimulated
  simulated search (some opts) (some gw_moc) position radius =
      if ltb 0 opts.n_trials
      then remap search opts
          (empirical_pvalue sky gw_moc position.ra position.dec radius opts.n_trials opts.seed)
      else ok unsimulated

  abbrev pub result_of :
      Search F
      → GrbTrigger F
      → Option sky.Moc
      → Option sky.Moc
      → SkyPosition F
      → F
      → Result (Simulated F) CrossMatchError
      → Result (CrossMatchResult F) CrossMatchError
  result_of search trigger contour_50 contour_90 position overlap (err e) = err e
  result_of search trigger contour_50 contour_90 position overlap (ok s) = ok (record {
    time_offset_sec = trigger.trigger_time -F search.superevent_t0;
    spatial_overlap = overlap;
    in_50cr = in_contour contour_50 position;
    in_90cr = in_contour contour_90 position;
    joint_far_per_year =
        raven_joint_far_per_year search.time_window_sec search.grb_rate_hz search.gw_far_hz overlap;
    p_value = s.p_value;
    p_value_trials = s.trials;
    joint_far_remapped_per_year = s.remapped;
    targeted_joint_far_per_year = targeted search trigger overlap;
    associated = false;
  })

  unfoldable pub cross_match_with_contours :
      Search F
      → GrbTrigger F
      → Bytes
      → Bytes
      → Option sky.Moc
      → Option sky.Moc
      → Option (PvalueOpts F)
      → Result (CrossMatchResult F) CrossMatchError
  unfolding spatial_overlap empirical_pvalue far_remapped targeted_opts_for
      raven_targeted_joint_far_per_year raven_joint_far_per_year usable_radius
  cross_match_with_contours search trigger gw_skymap_fits grb_moc_fits contour_50 contour_90
        pvalue =
      elim trigger.position [
        | none ↦ err grb_without_position
        | some position ↦ elim (usable_radius trigger position) [
          | none ↦ err invalid_error_radius
          | some radius ↦ elim (spatial_overlap gw_skymap_fits grb_moc_fits) [
            | err e ↦ err e
            | ok overlap ↦
                result_of search trigger contour_50 contour_90 position overlap
                  (simulated search pvalue contour_90 position radius)
          ]
        ]
      ]

  -- `transpose`: no contour is no error.
  abbrev pub parsed : Option Bytes → Result (Option sky.Moc) CrossMatchError
  parsed none = ok none
  parsed (some contour) = elim (sky.from_fits_ivoa contour) [
    | none ↦ err contour_fits
    | some m ↦ ok (some m)
  ]

  unfoldable pub cross_match :
      Search F
      → GrbTrigger F
      → Bytes
      → Bytes
      → Option Bytes
      → Option Bytes
      → Option (PvalueOpts F)
      → Result (CrossMatchResult F) CrossMatchError
  unfolding cross_match_with_contours
  cross_match search trigger gw_skymap_fits grb_moc_fits contour_50 contour_90 pvalue =
      elim (parsed contour_50) [
        | err e ↦ err e
        | ok c50_parsed ↦ elim (parsed contour_90) [
          | err e ↦ err e
          | ok c90_parsed ↦
              cross_match_with_contours search trigger gw_skymap_fits grb_moc_fits c50_parsed
                c90_parsed pvalue
        ]
      ]
