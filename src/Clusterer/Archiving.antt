-- ===== src/Clusterer/Archiving.antt =====
-- The best-effort calls of the clusterer (src/bin/gw_clusterer.rs): a failure is logged, and the
-- handler goes on. None of them changes the creator.
use boom_gw.Base.{
  Bool, List, [], ◌∷◌, ◌++◌, Option, none, some, if◌then◌else◌, Bytes, bytes_eq, ℕ, ◌||◌, codes,
}
use boom_gw.Base.Floats.{Float, ◌/F◌, lt_f}
use boom_gw.Base.BTree.{values}
use boom_gw.Clustering.Defs.{
  GwEvent, Superevent, SupereventUpdate, SupereventCreator, SkyMapFits, created, preferred_updated,
  skipped, skymap_attached,
}
use boom_gw.Localizer.{LocalizeRequest, LocalizeResult, from_coinc_xml}
use boom_gw.Clusterer.World.{
  Setup, Outside, World, LocalizeSkipDoc, record_event, upsert_superevent, set_center,
  upsert_skymap, upsert_contour, rescan_cross_matches, submit, record_localize_request,
  record_localize_skip, record_localize_result, publish, perform,
}

-- `superevents().find(|s| &s.id == superevent_id)`
unfoldable pub find_id : {F C : Type 0} → Bytes → List (Superevent F C) → Option (Superevent F C)
find_id superevent_id [] = none
find_id superevent_id (s ∷ ss) =
    if bytes_eq s.id superevent_id then some s else find_id superevent_id ss

-- The superevent that an update is about.
unfoldable pub superevent_of :
    {F C : Type 0} → SupereventCreator F C → SupereventUpdate F C → Option (Superevent F C)
unfolding find_id
superevent_of creator (created s) = some s
superevent_of creator (preferred_updated s _) = some s
superevent_of creator (skymap_attached s) = some s
superevent_of creator (skipped superevent_id _ _) =
    find_id superevent_id (values creator.superevents)

module _ {F C : Type 0} ⦃fl : Float F⦄ (setup : Setup F) (out : Outside F C) where
  unfoldable pub archive_event : GwEvent F C → World F C → World F C
  archive_event event w = if setup.archive then perform out (record_event event) w else w

  unfoldable pub submit_localize_request : LocalizeRequest → World F C → World F C
  submit_localize_request req w = if setup.localizer_client then perform out (submit req) w else w

  unfoldable pub archive_localize_request : LocalizeRequest → World F C → World F C
  archive_localize_request req w =
      if setup.archive then perform out (record_localize_request req) w else w

  unfoldable pub archive_localize_skip : LocalizeRequest → F → F → World F C → World F C
  archive_localize_skip req snr far w =
      let doc : LocalizeSkipDoc F = record {
        request_id = req.request_id;
        superevent_id = req.superevent_id;
        graceid = req.graceid;
        pipeline = req.pipeline;
        snr = snr;
        far = far;
        min_snr = setup.localize_min_snr;
        max_far_hz = setup.localize_max_far_hz;
      } in
      if setup.archive then perform out (record_localize_skip doc) w else w

  unfoldable pub archive_localize_result : LocalizeResult → World F C → World F C
  archive_localize_result result w =
      if setup.archive then perform out (record_localize_result result) w else w

  unfoldable pub publish_update : SupereventUpdate F C → World F C → World F C
  publish_update update w = if setup.publisher then perform out (publish update) w else w

  -- The centroid of the 50% region, if there is one.
  unfoldable pub patch_center : Superevent F C → SkyMapFits → World F C → World F C
  patch_center s sky w = elim (out.compute_skymap_centroid sky.bytes (fl.decimal 5 1)) [
    | none ↦ w
    | some (ra, dec) ↦ perform out (set_center s.id ra dec) w
  ]

  unfoldable pub store_contour : Superevent F C → SkyMapFits → ℕ → World F C → World F C
  store_contour s sky level_pct w =
      elim (out.compute_contour_moc sky.bytes (fl.decimal level_pct 0 /F fl.decimal 100 0)) [
        | none ↦ w
        | some moc_bytes ↦ perform out (upsert_contour s.id level_pct moc_bytes) w
      ]

  -- What follows the upsert of a superevent whose sky map was just attached.
  unfoldable pub store_skymap : Superevent F C → SkyMapFits → World F C → World F C
  unfolding patch_center store_contour
  store_skymap s sky w =
      let blob =
        upsert_skymap
          (record { superevent_id = s.id; bytes = sky.bytes; elapsed_ms = sky.elapsed_ms }) in
      let stored = perform out blob (patch_center s sky w) in
      perform out (rescan_cross_matches s.id)
        (store_contour s sky 90 (store_contour s sky 50 stored))

  unfoldable pub after_upsert : SupereventUpdate F C → Superevent F C → World F C → World F C
  unfolding store_skymap
  after_upsert (skymap_attached _) s w = elim s.skymap [
    | none ↦ w
    | some sky ↦ if setup.skymap_storage then store_skymap s sky w else w
  ]
  after_upsert _ s w = w

  unfoldable pub archive_superevent_from :
      SupereventCreator F C → SupereventUpdate F C → World F C → World F C
  unfolding after_upsert superevent_of
  archive_superevent_from creator update w = elim (superevent_of creator update) [
    | none ↦ w
    | some superevent ↦
        if setup.archive
        then after_upsert update superevent (perform out (upsert_superevent superevent) w)
        else w
  ]

  unfoldable pub localize_request_for :
      GwEvent F C → Bytes → SupereventUpdate F C → Option LocalizeRequest
  unfolding from_coinc_xml
  localize_request_for event coinc_xml (created s) = some (
      from_coinc_xml out.base64 (s.id ++ codes "-" ++ event.graceid) s.id event.graceid
        event.pipeline coinc_xml)
  localize_request_for event coinc_xml (preferred_updated s _) = some (
      from_coinc_xml out.base64 (s.id ++ codes "-" ++ event.graceid) s.id event.graceid
        event.pipeline coinc_xml)
  localize_request_for event coinc_xml _ = none

  unfoldable pub below_threshold : GwEvent F C → Bool
  below_threshold event =
      lt_f event.snr setup.localize_min_snr || lt_f setup.localize_max_far_hz event.far

  -- The localization step of `process_event`.
  unfoldable pub localize : GwEvent F C → Bytes → SupereventUpdate F C → World F C → World F C
  unfolding localize_request_for below_threshold archive_localize_skip archive_localize_request
      submit_localize_request
  localize event coinc_xml update w = elim (localize_request_for event coinc_xml update) [
    | none ↦ w
    | some req ↦
        if below_threshold event
        then archive_localize_skip req event.snr event.far w
        else archive_localize_request req (submit_localize_request req w)
  ]
