-- ===== src/Clusterer/Examples.antt =====
-- The clusterer on a few inputs.
use mathlib.Core.List.{Perm}
use boom_gw.Base.{
  ◌≤◌, ◌≡◌, refl, List, [], ◌∷◌, ◌++◌, arith, ℕ, ◌*◌, Option, none, some, true, false, Bytes,
  bytes_eq, codes,
}
use boom_gw.Base.Floats.{fixed, fixed_laws}
use boom_gw.Clustering.Defs.{SupereventCreator, SupereventUpdate, open_window, attach_skymap}
use boom_gw.Clustering.Examples.{seconds, event, empty, empty-WellFormed, one}
use boom_gw.Clustering.Invariant.{WellFormed}
use boom_gw.Clustering.Recorded.{recorded}
use boom_gw.Clustering.Ids.{format_id}
use boom_gw.State.{save_to_redis}
use boom_gw.Clusterer.Archiving.{localize, archive_superevent_from, archive_event}
use boom_gw.State.Restart.{Recovers}
use boom_gw.State.Examples.{json, prefix, littered}
use boom_gw.State.{RedisCommand}
use boom_gw.State.Server.{in_memory, in_memory_laws, execute, answers_of}
use boom_gw.Localizer.{Base64, LocalizeResult, LocalizeStatus}
use boom_gw.Clusterer.World.{World, Setup, Outside, Returned}
use boom_gw.Clusterer.Handler.{take_all, Pipeline, process_event}
use boom_gw.Clusterer.Documents.{from_superevent}
use boom_gw.Clusterer.Centres.{Archives, archive_superevent_from-Archives}
use boom_gw.Clustering.Defs.{Superevent, skymap_attached, preferred_updated}
use boom_gw.State.Examples.{held_one}
use boom_gw.Clusterer.Main.{received, undecodable, arrived, live, drain_until_quiet, start}
use boom_gw.Clusterer.Runs.{live-recorded}
use boom_gw.Clusterer.Trace.{submitted}
use boom_gw.Clusterer.Settled.{settled}
use boom_gw.Clusterer.Requests.{process_event-settled, submitted-process_event, wanted}
use boom_gw.Clusterer.Recovery.{start-process_event, last_saved}
use boom_gw.Clusterer.Waiting.{drain_until_quiet-Ends, Rounds, Stops}
use boom_gw.Clusterer.Replay.{ReplayFile, Replayed, load_replay, gather}
use boom_gw.Clusterer.Earliest.{load_replay-IsReplay, IsReplay}

-- Every service is connected; every event is worth a localization.
abbrev pub connected : Setup ℕ
connected = record {
  publisher = true;
  writer = true;
  redis_conn = true;
  redis_prefix = prefix;
  localizer_client = true;
  localizer_results = true;
  archive = true;
  skymap_storage = true;
  localize_min_snr = seconds 4;
  localize_max_far_hz = seconds 1;
}

-- A base64 that leaves the bytes as they are.
abbrev plain : Base64
plain = record { encode = λ b. b; decode = λ b. some b }

-- No call fails, and a round of the wait takes half a second.
abbrev pub calm : Outside ℕ (Unit {0})
calm = record {
  fails = λ n. false;
  clock = λ i. i * 500;
  arrives = λ i. none;
  json = json;
  base64 = plain;
  compute_skymap_centroid = λ fits level. some (seconds 10, seconds 20);
  compute_contour_moc = λ fits level. some (codes "MOC");
}

-- The same, but every call of a service fails.
abbrev stormy : Outside ℕ (Unit {0})
stormy = record calm { fails = λ n. true }

abbrev idle : List LocalizeResult → SupereventCreator ℕ (Unit {0}) → Pipeline ℕ (Unit {0})
idle buffered c = record {
  creator = c;
  world = record { turn = 0; trace = []; buffered = buffered };
}

abbrev result_one : LocalizeResult
result_one = record {
  request_id = codes "S000000-G1";
  superevent_id = format_id 0;
  graceid = codes "G1";
  status = LocalizeStatus.ok;
  skymap_fits = some (codes "FITS");
  error_message = none;
  elapsed_ms = 50;
}

-- What a handler leaves.
abbrev left_by : Option (Pipeline ℕ (Unit {0}) × Returned) → Pipeline ℕ (Unit {0})
left_by none = idle [] empty
left_by (some r) = r.0

abbrev first : Pipeline ℕ (Unit {0})
first = left_by (process_event connected calm (idle [] empty) (event (codes "G1") 1000 8) [])

abbrev pub opened : SupereventCreator ℕ (Unit {0}) × SupereventUpdate ℕ (Unit {0})
opened = open_window empty (event (codes "G1") 1000 8)

live-recorded_example :
    (p : Pipeline ℕ (Unit {0})) × (live connected stormy 2 0 (idle [] empty) (
        received (event (codes "G1") 1000 8) []
        ∷ undecodable
        ∷ arrived result_one
        ∷ received (event (codes "G2") 1001 9) []
        ∷ received (event (codes "G3") 2000 9) []
        ∷ [])
      ≡ some p)
    × WellFormed fixed_laws p.creator
    × Perm
        (recorded p.creator.superevents)
        (event (codes "G1") 1000 8 ∷ event (codes "G2") 1001 9 ∷ recorded empty.superevents)
live-recorded_example =
    live-recorded fixed_laws connected stormy 2 (idle [] empty) _ empty-WellFormed (omega arith)

-- The result for the superevent that the event opens is already waiting.
abbrev mapped : Pipeline ℕ (Unit {0})
mapped =
    left_by
      (process_event connected calm (idle (result_one ∷ []) empty) (event (codes "G1") 1000 8) [])

process_event-settled_example : mapped.creator ≡ settled connected calm opened.0 (result_one ∷ [])
unfolding process_event save_to_redis localize archive_superevent_from archive_event take_all
    attach_skymap bytes_eq format_id
process_event-settled_example =
    process_event-settled connected calm (idle (result_one ∷ []) empty) mapped
      (event (codes "G1") 1000 8) [] opened refl refl

submitted-process_event_example :
    submitted first.world.trace
    ≡ wanted connected calm (event (codes "G1") 1000 8) [] opened.1 ++ []
unfolding process_event save_to_redis localize archive_superevent_from archive_event
submitted-process_event_example =
    submitted-process_event connected calm (idle [] empty) first (event (codes "G1") 1000 8) []
      opened refl refl

start-process_event_example :
    (commands : List (RedisCommand ℕ)) × (c : SupereventCreator ℕ (Unit {0})) × (last_saved
        first.world.trace
      ≡ some commands)
    × (start connected calm
          (answers_of in_memory (execute in_memory commands littered))
          first.creator.window_duration
        ≡ some c)
    × Recovers fixed_laws first.creator c
unfolding process_event save_to_redis localize archive_superevent_from archive_event
start-process_event_example =
    start-process_event connected calm fixed_laws in_memory_laws littered (idle [] empty) first
      (event (codes "G1") 1000 8) [] empty-WellFormed (omega arith) refl refl ((λ b e. refl), tt)

drain_until_quiet-Ends_example :
    (r : Pipeline ℕ (Unit {0}) × Returned) × (j : ℕ) × (q : Pipeline ℕ (Unit {0}))
    × (drain_until_quiet connected calm 5 1800 (idle [] one) ≡ some r)
    × (j ≤ 4)
    × Rounds connected calm 1800 0 (idle [] one) j q
    × Stops connected calm 1800 j q r
drain_until_quiet-Ends_example =
    drain_until_quiet-Ends connected calm 5 1800 4 (idle [] one) refl (omega arith) (omega arith)

-- Two files with one graceid, the later first; a text; and an envelope that does not parse.
abbrev extract : Bytes → Option (Replayed ℕ (Unit {0}))
extract (n ∷ []) = some (record (event (codes "G1") 1000 8) { producer_timestamp = seconds n }, [])
extract _ = none

abbrev envelope : Bytes → Option ReplayFile
envelope b = some (record { extension = some (codes "json"); bytes = some b })

abbrev files : List (Option ReplayFile)
files =
    envelope (7 ∷ [])
    ∷ some (record { extension = some (codes "txt"); bytes = none })
    ∷ envelope []
    ∷ envelope (3 ∷ [])
    ∷ []

abbrev replayed_at : ℕ → Replayed ℕ (Unit {0})
replayed_at n = (record (event (codes "G1") 1000 8) { producer_timestamp = seconds n }, [])

load_replay-IsReplay_example :
    (all : List (Replayed ℕ (Unit {0}))) × (gather extract files ≡ some all)
    × IsReplay fixed_laws all (replayed_at 3 ∷ [])
unfolding load_replay bytes_eq
load_replay-IsReplay_example =
    load_replay-IsReplay fixed_laws extract files (replayed_at 3 ∷ []) refl

-- The archive holds `one` with a sky map that has a centre, and a second event is recorded.
abbrev placed : Superevent ℕ (Unit {0})
placed = record held_one { skymap = some (record { bytes = codes "FITS"; elapsed_ms = 50 }) }

abbrev centred : World ℕ (Unit {0})
centred =
    archive_superevent_from connected calm one (skymap_attached placed)
      (record { turn = 0; trace = []; buffered = [] })

archive_superevent_from-Archives_example :
    Archives connected calm placed.id one
      (preferred_updated placed (codes "G1"))
      centred
      (archive_superevent_from connected calm one (preferred_updated placed (codes "G1")) centred)
archive_superevent_from-Archives_example =
    archive_superevent_from-Archives connected calm placed.id one
      (preferred_updated placed (codes "G1")) centred refl tt refl

-- The centre is lost: the document that the second event leaves has none.
lost :
    (from_superevent placed).skymap_summary
    ≡ some (record { bytes_size = 4; elapsed_ms = 50; center_ra = none; center_dec = none })
unfolding from_superevent
lost = refl
