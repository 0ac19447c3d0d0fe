-- ===== src/Clustering/Examples.antt =====
-- Runs of the clustering engine on a few events, with times in thousandths (Base/Floats).
use mathlib.Core.List.{Perm}
use boom_gw.Base.{◌≤◌, ◌⊎◌, ℕ, ◌+◌, ◌≡◌, refl, [], ◌∷◌, none, some, arith, Bytes, codes}
use boom_gw.Base.Floats.{fixed, fixed_laws}
use boom_gw.Clustering.Ids.{format_id, id_seq, id_seq-format_id}
use boom_gw.Clustering.Defs.{
  SupereventUpdate, GwEvent, SupereventCreator, new, half_of, process, open_window, find_closest_t0,
  cleanup_before, attach_skymap,
}
use boom_gw.Clustering.Nearest.{
  IsNearest, IsFarFrom, find_closest_t0-IsNearest, find_closest_t0-IsFarFrom,
}
use boom_gw.Clustering.Invariant.{WellFormed}
use boom_gw.Clustering.Process.{open_window-WellFormed, process-WellFormed}
use boom_gw.Clustering.Recorded.{recorded, recorded-process}
use boom_gw.Clustering.Cleanup.{cleanup_before-ended, still_open, ended}
use boom_gw.Clustering.Attach.{HasId, Attached, attach_skymap-HasId}
use boom_gw.Clustering.Run.{cleans, attaches, processes, run, run_new-WellFormed, new-WellFormed}

-- n seconds.
abbrev pub seconds : ℕ → ℕ
seconds n = fixed.decimal n 0

abbrev pub event : Bytes → ℕ → ℕ → GwEvent ℕ (Unit {0})
event graceid end_time snr = record {
  pipeline = codes "test";
  graceid = graceid;
  producer_timestamp = seconds 0;
  message_type = codes "new";
  submitter = codes "ci";
  end_time = seconds end_time;
  ifos = codes "H1,L1";
  snr = seconds snr;
  far = seconds 0;
  mchirp = none;
  total_mass = none;
  coinc = tt;
}

abbrev pub empty : SupereventCreator ℕ (Unit {0})
empty = record { window_duration = seconds 5; superevents = []; times = []; next_seq = 0 }

pub empty-WellFormed : WellFormed fixed_laws empty
unfolding new
empty-WellFormed = new-WellFormed fixed_laws (seconds 5) (omega arith)

-- One superevent at 1000 s, as `process` opens it.
unfoldable pub one : SupereventCreator ℕ (Unit {0})
unfolding open_window
one = (open_window empty (event (codes "G1") 1000 8)).0

pub one-WellFormed : WellFormed fixed_laws one
unfolding one find_closest_t0
one-WellFormed =
    open_window-WellFormed fixed_laws empty (event (codes "G1") 1000 8) empty-WellFormed
      (omega arith) refl

run_new-WellFormed_example :
    (c : SupereventCreator ℕ (Unit {0})) × (run (new (seconds 5)) (
        processes (event (codes "G1") 1000 8)
        ∷ attaches (format_id 0) [] 7
        ∷ cleans (seconds 1100)
        ∷ [])
      ≡ some c)
    × WellFormed fixed_laws c
run_new-WellFormed_example = run_new-WellFormed fixed_laws (seconds 5) _ (omega arith) (omega arith)

process-WellFormed_example :
    (r : SupereventCreator ℕ (Unit {0}) × SupereventUpdate ℕ (Unit {0})) × (process one
        (event (codes "G2") 1001 10)
      ≡ some r)
    × WellFormed fixed_laws r.0
    × (r.0.next_seq ≤ one.next_seq + 1)
unfolding one
process-WellFormed_example =
    process-WellFormed fixed_laws one (event (codes "G2") 1001 10) one-WellFormed (omega arith)

find_closest_t0-IsNearest_example :
    IsNearest fixed_laws
      (half_of (seconds 5))
      (seconds 1001)
      ((seconds 1000, format_id 0) ∷ [])
      (seconds 1000)
unfolding one find_closest_t0
find_closest_t0-IsNearest_example =
    find_closest_t0-IsNearest fixed_laws one (seconds 1001) (seconds 1000) (omega arith) refl

find_closest_t0-IsFarFrom_example :
    IsFarFrom fixed_laws (half_of (seconds 5)) (seconds 1003) ((seconds 1000, format_id 0) ∷ [])
unfolding one find_closest_t0
find_closest_t0-IsFarFrom_example =
    find_closest_t0-IsFarFrom fixed_laws one (seconds 1003) (omega arith) refl

recorded-process_example :
    Perm
      (recorded (open_window one (event (codes "G2") 1003 10)).0.superevents)
      (event (codes "G2") 1003 10 ∷ recorded one.superevents)
unfolding one process
recorded-process_example =
    recorded-process fixed_laws one (event (codes "G2") 1003 10)
      (open_window one (event (codes "G2") 1003 10)) one-WellFormed refl

cleanup_before-ended_example :
    ((cleanup_before one (seconds 1100)).0.superevents ≡ still_open (seconds 1100) one.superevents)
    × ((cleanup_before one (seconds 1100)).1 ≡ ended (seconds 1100) one.superevents)
    × ((cleanup_before one (seconds 1100)).0.next_seq ≡ one.next_seq)
cleanup_before-ended_example = cleanup_before-ended fixed_laws one (seconds 1100) one-WellFormed

attach_skymap-HasId_example :
    (HasId (format_id 0) one.superevents × Attached fixed_laws one (format_id 0) [] 137)
    ⊎ ((¬ HasId (format_id 0) one.superevents)
        × (attach_skymap one (format_id 0) [] 137 ≡ (one, none)))
attach_skymap-HasId_example = attach_skymap-HasId fixed_laws one (format_id 0) [] 137 one-WellFormed

id_seq-format_id_example : id_seq (format_id 1234567) ≡ some 1234567
id_seq-format_id_example = id_seq-format_id 1234567 (omega arith)

-- The window of 5 s around 1000 s ends at 1002.5 s.
cleanup_drops_one : (cleanup_before one (seconds 1100)).0.superevents ≡ []
unfolding one cleanup_before
cleanup_drops_one = refl
