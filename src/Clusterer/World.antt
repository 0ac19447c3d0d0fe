-- ===== src/Clusterer/World.antt =====
-- What the clusterer (src/bin/gw_clusterer.rs) is connected to, and what it attempts there.
-- A connection is present or not. Every call of a service is an attempt that takes a turn and is
-- written to a trace, newest first; `fails` says which turns fail. Logging, metrics and printing
-- are left out.
use boom_gw.Base.{ℕ, ◌+◌, Bool, not, List, ◌∷◌, Option, Bytes}
use boom_gw.Clustering.Defs.{GwEvent, Superevent, SupereventUpdate}
use boom_gw.State.{RedisCommand, Json}
use boom_gw.Localizer.{Base64, LocalizeRequest, LocalizeResult}

-- The configured fields of `Pipeline`.
pub record Setup (F : Type 0) : Type 0 where
  pub publisher : Bool
  pub writer : Bool
  pub redis_conn : Bool
  pub redis_prefix : Bytes
  pub localizer_client : Bool
  pub localizer_results : Bool
  pub archive : Bool
  pub skymap_storage : Bool
  pub localize_min_snr : F
  pub localize_max_far_hz : F

-- The services and libraries. `arrives` is what `recv_timeout` brings at a turn, and `clock` what
-- `Instant::now` reads. The sky-map functions are those of src/contour.rs, on the FITS library.
pub record Outside (F C : Type 0) : Type 0 where
  pub fails : ℕ → Bool
  pub clock : ℕ → ℕ
  pub arrives : ℕ → Option LocalizeResult
  pub json : Json F C
  pub base64 : Base64
  pub compute_skymap_centroid : Bytes → F → Option (F × F)
  pub compute_contour_moc : Bytes → F → Option Bytes

-- One line of the jsonl log.
pub record UpdateLine (F : Type 0) : Type 0 where
  pub action : Bytes
  pub graceid : Bytes
  pub pipeline : Bytes
  pub end_time : F
  pub snr : F
  pub far : F
  pub superevent_id : Bytes
  pub t_0 : F

-- `SkymapBlob` of src/storage/skymap.rs
pub record SkymapBlob : Type 0 where
  pub superevent_id : Bytes
  pub bytes : Bytes
  pub elapsed_ms : ℕ

-- `LocalizeSkipDoc` of src/archive.rs, without the time of its creation.
pub record LocalizeSkipDoc (F : Type 0) : Type 0 where
  pub request_id : Bytes
  pub superevent_id : Bytes
  pub graceid : Bytes
  pub pipeline : Bytes
  pub snr : F
  pub far : F
  pub min_snr : F
  pub max_far_hz : F

pub data Effect (F C : Type 0) : Type 0 where
  record_event : GwEvent F C → Effect F C
  write_line : UpdateLine F → Effect F C
  publish : SupereventUpdate F C → Effect F C
  upsert_superevent : Superevent F C → Effect F C
  set_center : Bytes → F → F → Effect F C
  upsert_skymap : SkymapBlob → Effect F C
  upsert_contour : Bytes → ℕ → Bytes → Effect F C
  rescan_cross_matches : Bytes → Effect F C
  submit record_localize_request : LocalizeRequest → Effect F C
  record_localize_skip : LocalizeSkipDoc F → Effect F C
  record_localize_result : LocalizeResult → Effect F C
  run_pipeline : List (RedisCommand F) → Effect F C

pub record Attempt (F C : Type 0) : Type 0 where
  pub effect : Effect F C
  pub succeeded : Bool

-- `buffered` are the results on the channel of the background consumer, oldest first.
pub record World (F C : Type 0) : Type 0 where
  pub turn : ℕ
  pub trace : List (Attempt F C)
  pub buffered : List LocalizeResult

-- `anyhow::Result<()>`
pub data Returned : Type 0 where
  done broken : Returned

module _ {F C : Type 0} (out : Outside F C) where
  abbrev pub perform : Effect F C → World F C → World F C
  perform effect w = record w {
    turn = w.turn + 1;
    trace = record { effect = effect; succeeded = not (out.fails w.turn) } ∷ w.trace;
  }
