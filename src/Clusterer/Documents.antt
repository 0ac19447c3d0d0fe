-- ===== src/Clusterer/Documents.antt =====
-- The documents of superevents in MongoDB, as the calls of the clusterer leave them
-- (src/archive.rs, with `archive_superevent_from` of src/bin/gw_clusterer.rs).
use boom_gw.Base.{ℕ, true, false, List, [], ◌∷◌, map, Option, none, some, Bytes, length}
use boom_gw.Base.HashMap.{HashMap, lookup, put}
use boom_gw.Clustering.Defs.{SkyMapFits, Superevent}
use boom_gw.Clusterer.World.{Attempt, Effect, upsert_superevent, set_center}

pub record SkymapSummary (F : Type 0) : Type 0 where
  pub bytes_size : ℕ
  pub elapsed_ms : ℕ
  pub center_ra : Option F
  pub center_dec : Option F

pub record SupereventDoc (F : Type 0) : Type 0 where
  pub id : Bytes
  pub t_0 : F
  pub t_start : F
  pub t_end : F
  pub preferred_graceid : Bytes
  pub preferred_snr : F
  pub g_event_graceids : List Bytes
  pub skymap_summary : Option (SkymapSummary F)

module _ {F : Type 0} where
  abbrev pub summary_of : Option SkyMapFits → Option (SkymapSummary F)
  summary_of none = none
  summary_of (some sky) = some (record {
    bytes_size = length sky.bytes;
    elapsed_ms = sky.elapsed_ms;
    center_ra = none;
    center_dec = none;
  })

  -- `$set` of both coordinates. The clusterer sets them where there is a summary.
  abbrev pub centred_at : F → F → SupereventDoc F → SupereventDoc F
  centred_at ra dec d = elim d.skymap_summary [
    | none ↦ d
    | some summary ↦ record d {
      skymap_summary = some (record summary { center_ra = some ra; center_dec = some dec });
    }
  ]

module _ {F C : Type 0} where
  unfoldable pub from_superevent : Superevent F C → SupereventDoc F
  from_superevent s = record {
    id = s.id;
    t_0 = s.t_0;
    t_start = s.t_start;
    t_end = s.t_end;
    preferred_graceid = s.preferred_event.graceid;
    preferred_snr = s.preferred_event.snr;
    g_event_graceids = map (λ e. e.graceid) s.g_events;
    skymap_summary = summary_of s.skymap;
  }

  -- `replace_one` with upsert, and `update_one` at the identifier.
  unfoldable pub written : Effect F C → HashMap (SupereventDoc F) → HashMap (SupereventDoc F)
  unfolding put lookup from_superevent
  written (upsert_superevent s) docs = put s.id (from_superevent s) docs
  written (set_center id ra dec) docs = elim (lookup id docs) [
    | none ↦ docs
    | some d ↦ put id (centred_at ra dec d) docs
  ]
  written _ docs = docs

  -- The collection after the attempts of a trace, of which those that failed wrote nothing.
  unfoldable pub stored : List (Attempt F C) → HashMap (SupereventDoc F)
  unfolding written
  stored [] = []
  stored (a ∷ trace) =
      let docs = stored trace in elim a.succeeded [ true ↦ written a.effect docs | false ↦ docs ]
