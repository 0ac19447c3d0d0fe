-- ===== src/Clusterer/Handler.antt =====
-- The handlers of the clusterer (src/bin/gw_clusterer.rs): one event, and the localization results
-- that are waiting. Only a failure of the jsonl log or of Redis ends a handler early.
use boom_gw.Base.{List, [], ◌∷◌, Option, none, some, if◌then◌else◌, Bytes, codes}
use boom_gw.Base.Floats.{Float}
use boom_gw.Clustering.Defs.{
  GwEvent, SupereventUpdate, SupereventCreator, created, preferred_updated, skipped,
  skymap_attached, process, attach_skymap,
}
use boom_gw.State.{save_to_redis}
use boom_gw.Localizer.{LocalizeResult, LocalizeStatus, skymap_fits_bytes}
use boom_gw.Clusterer.World.{
  Setup, Outside, World, Effect, UpdateLine, write_line, run_pipeline, Returned, done, broken,
  perform,
}
use boom_gw.Clusterer.Archiving.{
  archive_event, archive_superevent_from, archive_localize_result, publish_update, localize,
}

-- The changing part of `Pipeline`.
pub record Pipeline (F C : Type 0) : Type 0 where
  pub creator : SupereventCreator F C
  pub world : World F C

-- The operator `?` on what a call returned: `a` is the state in either case.
abbrev pub and_then : {A B : Type 0} → A × Returned → (A → B) → (A → B × Returned) → B × Returned
and_then (a, broken) left next = (left a, broken)
and_then (a, done) left next = next a

module _ {F C : Type 0} where
  abbrev pub with_world : Pipeline F C → World F C → Pipeline F C
  with_world p w = record p { world = w }

  -- The line for an update, unless the update is an attached sky map.
  unfoldable pub update_line : F → GwEvent F C → SupereventUpdate F C → Option (UpdateLine F)
  update_line zero event update =
      let line : Bytes → Bytes → F → UpdateLine F = λ action superevent_id t_0. record {
        action = action;
        graceid = event.graceid;
        pipeline = event.pipeline;
        end_time = event.end_time;
        snr = event.snr;
        far = event.far;
        superevent_id = superevent_id;
        t_0 = t_0;
      } in
      elim update [
        | created s ↦ some (line (codes "create") s.id s.t_0)
        | preferred_updated s _ ↦ some (line (codes "prefer") s.id s.t_0)
        | skipped superevent_id _ _ ↦ some (line (codes "skip_lower_snr") superevent_id zero)
        | skymap_attached _ ↦ none
      ]

module _ {F C : Type 0} ⦃fl : Float F⦄ (setup : Setup F) (out : Outside F C) where
  -- A call whose failure is returned.
  abbrev pub attempt : Effect F C → World F C → World F C × Returned
  attempt effect w = (perform out effect w, if out.fails w.turn then broken else done)

  unfoldable pub write_update_jsonl :
      GwEvent F C → SupereventUpdate F C → World F C → World F C × Returned
  unfolding update_line
  write_update_jsonl event update w = elim (update_line (fl.decimal 0 0) event update) [
    | none ↦ (w, done)
    | some line ↦ attempt (write_line line) w
  ]

  abbrev pub log_update :
      Option (GwEvent F C) → SupereventUpdate F C → World F C → World F C × Returned
  log_update none update w = (w, done)
  log_update (some event) update w =
      if setup.writer then write_update_jsonl event update w else (w, done)

  unfoldable pub emit :
      SupereventUpdate F C → Option (GwEvent F C) → World F C → World F C × Returned
  unfolding write_update_jsonl publish_update
  emit update event w =
      and_then (log_update event update w) (λ w'. w')
        (λ w'. (publish_update setup out update w', done))

  unfoldable pub persist_state : SupereventCreator F C → World F C → World F C × Returned
  persist_state creator w =
      if setup.redis_conn
      then elim (save_to_redis out.json setup.redis_prefix creator) [
        | none ↦ (w, broken)
        | some commands ↦ attempt (run_pipeline commands) w
      ]
      else (w, done)

  abbrev pub persisted : Pipeline F C → Pipeline F C × Returned
  persisted p = let (w, r) = persist_state p.creator p.world in (with_world p w, r)

  -- The payload of a successful result; the outer `none` is an error of the decoder.
  abbrev pub attach_fits :
      SupereventCreator F C
      → LocalizeResult
      → Option (Option Bytes)
      → SupereventCreator F C × Option (SupereventUpdate F C)
  attach_fits creator result none = (creator, none)
  attach_fits creator result (some none) = (creator, none)
  attach_fits creator result (some (some fits)) =
      attach_skymap creator result.superevent_id fits result.elapsed_ms

  abbrev pub apply_status :
      SupereventCreator F C
      → LocalizeResult
      → LocalizeStatus
      → SupereventCreator F C × Option (SupereventUpdate F C)
  apply_status creator result LocalizeStatus.error = (creator, none)
  apply_status creator result LocalizeStatus.ok =
      attach_fits creator result (skymap_fits_bytes out.base64 result)

  unfoldable pub apply_localize_result :
      SupereventCreator F C → LocalizeResult → SupereventCreator F C × Option (SupereventUpdate F C)
  unfolding skymap_fits_bytes
  apply_localize_result creator result = apply_status creator result result.status

  -- The update of a result, if it has one, is emitted and archived.
  abbrev pub announce :
      SupereventCreator F C → Option (SupereventUpdate F C) → World F C → Pipeline F C × Returned
  announce creator none w = (record { creator = creator; world = w }, done)
  announce creator (some update) w =
      and_then (emit update none w) (λ w'. record { creator = creator; world = w' })
        (λ w'. (
          record { creator = creator; world = archive_superevent_from setup out creator update w' },
          done,
        ))

  -- What both drains do with a result.
  unfoldable pub take_result : LocalizeResult → Pipeline F C → Pipeline F C × Returned
  unfolding apply_localize_result emit
  take_result result p =
      let archived = archive_localize_result setup out result p.world in
      let (creator, update) = apply_localize_result p.creator result in
      announce creator update archived

  unfoldable pub take_all : List LocalizeResult → Pipeline F C → Pipeline F C × Returned
  unfolding take_result
  take_all [] p = (p, done)
  take_all (result ∷ pending) p = and_then (take_result result p) (λ p'. p') (take_all pending)

  -- The channel is emptied before the first result is applied.
  abbrev pub drained : List LocalizeResult → Pipeline F C → Pipeline F C × Returned
  drained [] p = (p, done)
  drained (result ∷ pending) p =
      and_then (take_all (result ∷ pending) (with_world p (record p.world { buffered = [] })))
        (λ p'. p') persisted

  unfoldable pub drain_localize_results : Pipeline F C → Pipeline F C × Returned
  unfolding take_all persist_state
  drain_localize_results p =
      if setup.localizer_results then drained p.world.buffered p else (p, done)

  -- `process_event` from the save of the state on.
  abbrev pub save_and_drain : Pipeline F C → Pipeline F C × Returned
  save_and_drain p = and_then (persisted p) (λ p'. p') drain_localize_results

  -- `process_event` after the creator has taken the event.
  abbrev pub after_process :
      GwEvent F C
      → Bytes
      → SupereventCreator F C × SupereventUpdate F C
      → World F C
      → Pipeline F C × Returned
  after_process event coinc_xml (creator, update) w =
      and_then (emit update (some event) w) (λ w'. record { creator = creator; world = w' })
        (λ w'. save_and_drain (record {
          creator = creator;
          world =
              localize setup out event coinc_xml update
                (archive_superevent_from setup out creator update w');
        }))

  -- `none` is a panic of the creator.
  unfoldable pub process_event :
      Pipeline F C → GwEvent F C → Bytes → Option (Pipeline F C × Returned)
  unfolding process emit persist_state drain_localize_results
  process_event p event coinc_xml = elim (process p.creator event) [
    | none ↦ none
    | some r ↦ some (after_process event coinc_xml r (archive_event setup out event p.world))
  ]
