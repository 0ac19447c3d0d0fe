-- ===== src/Crossmatch/Examples.antt =====
-- A trigger and a superevent, on a sky of one dimension.
use boom_gw.Base.{ℕ, ◌≤◌, ◌≡◌, refl, true, Option, none, some, codes}
use boom_gw.Base.Floats.{fixed, fixed_laws}
use boom_gw.Clustering.Examples.{seconds}
use boom_gw.Crossmatch.{Sky, GrbTrigger, PvalueOpts, targeted_opts_for, fermi_subgrb_default}
use boom_gw.Crossmatch.Pvalue.{empirical_pvalue, estimate}
use boom_gw.Crossmatch.Matching.{Search, cross_match_with_contours}
use boom_gw.Crossmatch.Counted.{Estimates, empirical_pvalue-Estimates, n_above-antitone}
use boom_gw.Crossmatch.Answers.{Answers, cross_match_with_contours-Answers}

-- A region is its size, and a cone has the size of its longitude.
abbrev sky : Sky ℕ
sky = record {
  Moc = ℕ;
  Rng = ℕ;
  from_fits_ivoa = λ b. some (seconds 5);
  sum_from_fits_multiordermap = λ b. λ m. some (seconds 1);
  contains_point = λ m. λ lon. λ lat. true;
  from_cone = λ lon. λ lat. λ r. lon;
  and_moc = λ a. λ b. b;
  coverage_percentage = λ m. m;
  seed_from_u64 = λ n. n;
  gen = λ n. (seconds 1, n);
  pi = fixed.decimal 314 2;
  to_radians = λ x. x;
  to_degrees = λ x. x;
  asin = λ x. x;
}

abbrev trigger : GrbTrigger ℕ
trigger = record {
  trigger_id = codes "bn25";
  instrument = codes "Fermi-GBM-FIN";
  trigger_time = seconds 1001;
  position = some (record { ra = seconds 10; dec = seconds 20; uncertainty_arcsec = seconds 3600 });
  significance = seconds 9;
  skymap_url = none;
  error_radius_deg = none;
  far_hz = some (seconds 1);
}

abbrev search : Search ℕ
search = record {
  superevent_t0 = seconds 1000;
  gw_far_hz = seconds 1;
  time_window_sec = seconds 10;
  grb_rate_hz = seconds 1;
}

abbrev options : Option (PvalueOpts ℕ)
options = some (record { n_trials = 3; far_gw_max_hz = seconds 2; seed = none })

by_prefix : targeted_opts_for trigger ≡ some (fermi_subgrb_default (seconds 1))
unfolding targeted_opts_for
by_prefix = refl

cross_match_with_contours-Answers_example :
    Answers sky search trigger (codes "GW") (codes "GRB") none (some (seconds 5)) options (
      cross_match_with_contours sky search trigger
        (codes "GW")
        (codes "GRB")
        none
        (some (seconds 5))
        options)
cross_match_with_contours-Answers_example =
    cross_match_with_contours-Answers sky search trigger (codes "GW") (codes "GRB") none
      (some (seconds 5)) options

empirical_pvalue-Estimates_example :
    Estimates sky
      (seconds 5)
      (seconds 10)
      (seconds 20)
      (seconds 1)
      3
      42
      (empirical_pvalue sky (seconds 5) (seconds 10) (seconds 20) (seconds 1) 3 none)
empirical_pvalue-Estimates_example =
    empirical_pvalue-Estimates sky (seconds 5) (seconds 10) (seconds 20) (seconds 1) 3 none

n_above-antitone_example :
    (estimate sky (seconds 5) (seconds 400) (seconds 20) (seconds 1) 3 none).n_above
    ≤ (estimate sky (seconds 5) (seconds 10) (seconds 20) (seconds 1) 3 none).n_above
unfolding empirical_pvalue estimate
n_above-antitone_example =
    n_above-antitone sky (seconds 5) fixed_laws (seconds 10) (seconds 20) (seconds 400) (seconds 20)
      (seconds 1) 3 none (estimate sky (seconds 5) (seconds 10) (seconds 20) (seconds 1) 3 none)
      (estimate sky (seconds 5) (seconds 400) (seconds 20) (seconds 1) 3 none) refl refl refl
