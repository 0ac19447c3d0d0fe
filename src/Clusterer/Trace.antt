-- ===== src/Clusterer/Trace.antt =====
-- The traces of the handlers of src/bin/gw_clusterer.rs: which calls leave the channel of results
-- and the localize requests alone, and what was saved last.
use boom_gw.Base.{
  both_branches, both_options, ◌≡◌, refl, ◌∙◌, List, [], ◌∷◌, ◌++◌, ℕ, Option, none, some,
}
use boom_gw.Base.Floats.{Float}
use boom_gw.Clustering.Defs.{
  GwEvent, Superevent, SupereventCreator, SupereventUpdate, SkyMapFits, created, preferred_updated,
  skipped, skymap_attached,
}
use boom_gw.State.{save_to_redis}
use boom_gw.Localizer.{LocalizeRequest, LocalizeResult}
use boom_gw.Clusterer.World.{
  Setup, Outside, World, Attempt, Effect, submit, Returned, done, broken, perform,
}
use boom_gw.Clusterer.Archiving.{
  archive_event, archive_superevent_from, archive_localize_result, publish_update, store_skymap,
  patch_center, store_contour, after_upsert, superevent_of,
}
use boom_gw.Clusterer.Handler.{
  Pipeline, update_line, emit, log_update, write_update_jsonl, persist_state, take_result, take_all,
  announce, apply_localize_result,
}
use boom_gw.Clusterer.Keeps.{and_then_lem}

module _ {F C : Type 0} where
  -- The request of an attempt to submit one.
  abbrev pub request_of : Effect F C → List LocalizeRequest
  request_of (submit req) = req ∷ []
  request_of _ = []

  -- The localize requests that were handed to the client, newest first.
  abbrev pub submitted : List (Attempt F C) → List LocalizeRequest
  submitted [] = []
  submitted (a ∷ trace) = request_of a.effect ++ submitted trace

  -- Results wait as before, and no request was submitted.
  pub record Quiet (w w' : World F C) : Type 0 where
    pub buffered : w'.buffered ≡ w.buffered
    pub requests : submitted w'.trace ≡ submitted w.trace

  pub Quiet-refl : (w : World F C) → Quiet w w
  Quiet-refl w = record { buffered = refl; requests = refl }

  pub Quiet-trans : (a b c : World F C) → Quiet a b → Quiet b c → Quiet a c
  Quiet-trans a b c h k = record {
    buffered = k.buffered ∙ h.buffered;
    requests = k.requests ∙ h.requests;
  }

module _ {F C : Type 0} ⦃fl : Float F⦄ (setup : Setup F) (out : Outside F C) where
  pub Quiet-perform :
      (effect : Effect F C) (a w : World F C)
      → request_of effect ≡ []
      → Quiet a w
      → Quiet a (perform out effect w)
  Quiet-perform effect a w e q = record { buffered = q.buffered; requests = rw (e) (q.requests) }

  pub Quiet-archive_event :
      (event : GwEvent F C) (w : World F C) → Quiet w (archive_event setup out event w)
  unfolding archive_event
  Quiet-archive_event event w =
      both_branches (Quiet w) setup.archive _ _ (Quiet-perform _ w w refl (Quiet-refl w))
        (Quiet-refl w)

  Quiet-patch_center :
      (s : Superevent F C) (sky : SkyMapFits) (a w : World F C)
      → Quiet a w
      → Quiet a (patch_center setup out s sky w)
  unfolding patch_center
  Quiet-patch_center s sky a w q =
      both_options (Quiet a) (out.compute_skymap_centroid sky.bytes (fl.decimal 5 1)) w _ q
        (λ c. Quiet-perform _ a w refl q)

  Quiet-store_contour :
      (s : Superevent F C) (sky : SkyMapFits) (level_pct : ℕ) (a w : World F C)
      → Quiet a w
      → Quiet a (store_contour setup out s sky level_pct w)
  unfolding store_contour
  Quiet-store_contour s sky level_pct a w q =
      both_options (Quiet a) _ w _ q (λ moc. Quiet-perform _ a w refl q)

  Quiet-store_skymap :
      (s : Superevent F C) (sky : SkyMapFits) (a w : World F C)
      → Quiet a w
      → Quiet a (store_skymap setup out s sky w)
  unfolding store_skymap
  Quiet-store_skymap s sky a w q = Quiet-perform _ a _ refl (
      Quiet-store_contour s sky 90 a _ (
        Quiet-store_contour s sky 50 a _
          (Quiet-perform _ a _ refl (Quiet-patch_center s sky a w q))))

  Quiet-after_upsert :
      (update : SupereventUpdate F C) (s : Superevent F C) (a w : World F C)
      → Quiet a w
      → Quiet a (after_upsert setup out update s w)
  unfolding after_upsert
  Quiet-after_upsert (created _) s a w q = q
  Quiet-after_upsert (preferred_updated _ _) s a w q = q
  Quiet-after_upsert (skipped _ _ _) s a w q = q
  Quiet-after_upsert (skymap_attached _) s a w q =
      both_options (Quiet a) s.skymap w _ q
        (λ sky. both_branches (Quiet a) setup.skymap_storage _ w (Quiet-store_skymap s sky a w q) q)

  pub Quiet-archive_superevent_from :
      (c : SupereventCreator F C) (update : SupereventUpdate F C) (a w : World F C)
      → Quiet a w
      → Quiet a (archive_superevent_from setup out c update w)
  unfolding archive_superevent_from
  Quiet-archive_superevent_from c update a w q =
      both_options (Quiet a) (superevent_of c update) w _ q (λ s.
        both_branches (Quiet a) setup.archive _ w
          (Quiet-after_upsert update s a _ (Quiet-perform _ a w refl q)) q)

  Quiet-archive_localize_result :
      (r : LocalizeResult) (a w : World F C)
      → Quiet a w
      → Quiet a (archive_localize_result setup out r w)
  unfolding archive_localize_result
  Quiet-archive_localize_result r a w q =
      both_branches (Quiet a) setup.archive _ w (Quiet-perform _ a w refl q) q

  Quiet-log_update :
      (event : Option (GwEvent F C)) (update : SupereventUpdate F C) (w : World F C)
      → Quiet w (log_update setup out event update w).0
  unfolding write_update_jsonl
  Quiet-log_update none update w = Quiet-refl w
  Quiet-log_update (some event) update w =
      both_branches (λ (r : World F C × Returned). Quiet w r.0) setup.writer _ (w, done)
        (both_options (λ (r : World F C × Returned). Quiet w r.0)
          (update_line (fl.decimal 0 0) event update) (w, done) _ (Quiet-refl w)
          (λ line. Quiet-perform _ w w refl (Quiet-refl w)))
        (Quiet-refl w)

  pub Quiet-emit :
      (update : SupereventUpdate F C) (event : Option (GwEvent F C)) (w : World F C)
      → Quiet w (emit setup out update event w).0
  unfolding emit publish_update
  Quiet-emit update event w =
      and_then_lem (Quiet w) (Quiet w) (log_update setup out event update w) _ _
        (Quiet-log_update event update w) (λ w1 q. q)
        (λ w1 q. both_branches (Quiet w) setup.publisher _ w1 (Quiet-perform _ w w1 refl q) q)

  pub Quiet-persist_state :
      (c : SupereventCreator F C) (a w : World F C)
      → Quiet a w
      → Quiet a (persist_state setup out c w).0
  unfolding persist_state
  Quiet-persist_state c a w q =
      both_branches (λ (r : World F C × Returned). Quiet a r.0) setup.redis_conn _ (w, done)
        (both_options (λ (r : World F C × Returned). Quiet a r.0)
          (save_to_redis out.json setup.redis_prefix c) (w, broken) _ q
          (λ commands. Quiet-perform _ a w refl q))
        q

  pub Quiet-announce :
      (c : SupereventCreator F C) (update : Option (SupereventUpdate F C)) (a w : World F C)
      → Quiet a w
      → Quiet a (announce setup out c update w).0.world
  Quiet-announce c none a w q = q
  Quiet-announce c (some update) a w q =
      and_then_lem (Quiet a) (λ (p : Pipeline F C). Quiet a p.world) (emit setup out update none w)
        _ _ (Quiet-trans a w _ q (Quiet-emit update none w)) (λ w1 k. k)
        (λ w1 k. Quiet-archive_superevent_from c update a w1 k)

  pub Quiet-take_result :
      (r : LocalizeResult) (p : Pipeline F C) → Quiet p.world (take_result setup out r p).0.world
  unfolding take_result
  Quiet-take_result r p =
      let (c, update) = apply_localize_result setup out p.creator r in
      Quiet-announce c update p.world _
        (Quiet-archive_localize_result r p.world p.world (Quiet-refl p.world))

  pub Quiet-take_all :
      (rs : List LocalizeResult) (p : Pipeline F C)
      → Quiet p.world (take_all setup out rs p).0.world
  unfolding take_all
  Quiet-take_all [] p = Quiet-refl p.world
  Quiet-take_all (r ∷ rs) p =
      and_then_lem (λ (q : Pipeline F C). Quiet p.world q.world)
        (λ (q : Pipeline F C). Quiet p.world q.world) (take_result setup out r p) _
        (take_all setup out rs) (Quiet-take_result r p) (λ q k. k)
        (λ q k. Quiet-trans p.world q.world _ k (Quiet-take_all rs q))
