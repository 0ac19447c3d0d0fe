-- ===== src/Clusterer/Requests.antt =====
-- Which localize requests `process_event` of src/bin/gw_clusterer.rs submits, and which creator it
-- leaves.
use boom_gw.Base.{
  ap₂, subst, ◌≡◌, refl, ◌∙◌, ap, sym, List, [], ◌∷◌, ◌++◌, arith, Bytes, Option, none, some, Bool,
  if◌then◌else◌, not, ◌&&◌, codes,
}
use boom_gw.Base.Floats.{Float, lt_f}
use boom_gw.Clustering.Defs.{
  GwEvent, Superevent, SupereventCreator, SupereventUpdate, created, preferred_updated, skipped,
  skymap_attached, process,
}
use boom_gw.Localizer.{LocalizeRequest, from_coinc_xml}
use boom_gw.Clusterer.World.{Setup, Outside, World, Returned, done}
use boom_gw.Clusterer.Archiving.{
  localize, localize_request_for, below_threshold, archive_localize_request, archive_localize_skip,
  submit_localize_request,
}
use boom_gw.Clusterer.Handler.{
  Pipeline, process_event, save_and_drain, persisted, drain_localize_results,
}
use boom_gw.Clusterer.Trace.{submitted, Quiet, Quiet-refl, Quiet-persist_state}
use boom_gw.Clusterer.Settled.{
  and_then-done, settled, waiting, drain-settled, drain-submitted, localized, process_event-done,
}

module _ {F C : Type 0} ⦃fl : Float F⦄ (setup : Setup F) (out : Outside F C) where
  -- The superevent whose preferred event has changed.
  abbrev pub promoted : SupereventUpdate F C → Option (Superevent F C)
  promoted (created s) = some s
  promoted (preferred_updated s _) = some s
  promoted (skipped _ _ _) = none
  promoted (skymap_attached _) = none

  abbrev pub is_worthwhile : GwEvent F C → Bool
  is_worthwhile event =
      setup.localizer_client
      && not (lt_f event.snr setup.localize_min_snr)
      && not (lt_f setup.localize_max_far_hz event.far)

  -- The request for a superevent.
  abbrev pub request : GwEvent F C → Bytes → Superevent F C → LocalizeRequest
  request event xml s = record {
    request_id = s.id ++ codes "-" ++ event.graceid;
    superevent_id = s.id;
    graceid = event.graceid;
    pipeline = event.pipeline;
    coinc_xml = out.base64.encode xml;
  }

  abbrev pub wanted : GwEvent F C → Bytes → SupereventUpdate F C → List LocalizeRequest
  wanted event xml update = elim (promoted update) [
    | none ↦ []
    | some s ↦ if is_worthwhile event then request event xml s ∷ [] else []
  ]

  buffered-localize :
      (event : GwEvent F C) (xml : Bytes) (update : SupereventUpdate F C) (w : World F C)
      → (localize setup out event xml update w).buffered ≡ w.buffered
  unfolding localize archive_localize_skip archive_localize_request submit_localize_request
  buffered-localize event xml update w = ground arith

  submitted-localize :
      (event : GwEvent F C) (xml : Bytes) (update : SupereventUpdate F C) (w : World F C)
      → submitted (localize setup out event xml update w).trace
        ≡ wanted event xml update ++ submitted w.trace
  unfolding localize localize_request_for below_threshold from_coinc_xml archive_localize_skip
      archive_localize_request submit_localize_request
  submitted-localize event xml (created s) w = ground arith
  submitted-localize event xml (preferred_updated s _) w = ground arith
  submitted-localize event xml (skipped _ _ _) w = refl
  submitted-localize event xml (skymap_attached _) w = refl

  save_and_drain-done :
      (p p' : Pipeline F C)
      → save_and_drain setup out p ≡ (p', done)
      → (p'.creator ≡ settled setup out p.creator (waiting setup out p.world))
        × (submitted p'.world.trace ≡ submitted p.world.trace)
  save_and_drain-done p p' e =
      let (q, e1, e2) =
        and_then-done (persisted setup out p) _ (drain_localize_results setup out) p' e in
      let kept : q.creator ≡ p.creator = ap (λ x. x.0.creator) (sym e1) in
      let quiet : Quiet p.world q.world =
        subst (λ (x : Pipeline F C × Returned). Quiet p.world x.0.world) e1
          (Quiet-persist_state setup out p.creator p.world p.world (Quiet-refl p.world)) in
      let same : waiting setup out q.world ≡ waiting setup out p.world =
        ap (λ rs. if setup.localizer_results then rs else []) quiet.buffered in
      (
        drain-settled setup out q p' e2 ∙ ap₂ (settled setup out) kept same,
        ap (λ x. submitted x.0.world.trace) (sym e2) ∙ drain-submitted setup out q ∙ quiet.requests,
      )

  -- If `process_event` returns without an error, the creator that it leaves is the one that the
  -- engine makes from the event followed by the waiting results in their order, or by none if no
  -- consumer runs, whichever best-effort calls failed.
  pub process_event-settled :
      (p p' : Pipeline F C) (event : GwEvent F C) (xml : Bytes)
      (r : SupereventCreator F C × SupereventUpdate F C)
      → process p.creator event ≡ some r
      → process_event setup out p event xml ≡ some (p', done)
      → p'.creator ≡ settled setup out r.0 (waiting setup out p.world)
  process_event-settled p p' event xml (c, update) e h =
      let (w, q, s) = process_event-done setup out p p' event xml (c, update) e h in
      (save_and_drain-done (localized setup out event xml (c, update) w) p' s).0
      ∙ ap (λ rs. settled setup out c (if setup.localizer_results then rs else []))
          (buffered-localize event xml update w ∙ q.buffered)

  -- If `process_event` returns without an error, it has submitted one localize request, for the
  -- superevent whose preferred event the event has become, if there is one, a client is
  -- connected, the SNR is not below its threshold and the rate is not above its own; in every
  -- other case it has submitted none, whichever best-effort calls failed.
  pub submitted-process_event :
      (p p' : Pipeline F C) (event : GwEvent F C) (xml : Bytes)
      (r : SupereventCreator F C × SupereventUpdate F C)
      → process p.creator event ≡ some r
      → process_event setup out p event xml ≡ some (p', done)
      → submitted p'.world.trace ≡ wanted event xml r.1 ++ submitted p.world.trace
  submitted-process_event p p' event xml (c, update) e h =
      let (w, q, s) = process_event-done setup out p p' event xml (c, update) e h in
      (save_and_drain-done (localized setup out event xml (c, update) w) p' s).1
      ∙ submitted-localize event xml update w
      ∙ ap (λ rs. wanted event xml update ++ rs) q.requests
