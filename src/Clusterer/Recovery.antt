-- ===== src/Clusterer/Recovery.antt =====
-- What a restart of the clusterer recovers after a handler has returned (src/bin/gw_clusterer.rs
-- with src/state.rs).
use boom_gw.Base.{
  ◌≡◌, refl, ◌∙◌, ap, sym, subst, List, [], ◌∷◌, ◌+◌, ◌<◌, ◌^◌, Bytes, Option, none, some, Bool,
  true, false, if◌then◌else◌, Bool-cases, some_inj, Option-cases, inl, inr,
}
use boom_gw.Base.Floats.{Float, FloatLaws}
use boom_gw.Base.BTree.{values}
use boom_gw.Clustering.Defs.{SupereventUpdate, GwEvent, SupereventCreator, process}
use boom_gw.Clustering.Invariant.{WellFormed}
use boom_gw.Clustering.Process.{process-WellFormed}
use boom_gw.State.{RedisCommand, Answers, save_to_redis, load_from_redis}
use boom_gw.State.Server.{Server, ServerLaws, execute, answers_of}
use boom_gw.State.Restart.{RoundTrips, Recovers, load-save}
use boom_gw.Localizer.{LocalizeResult}
use boom_gw.Clusterer.World.{Setup, Outside, World, Attempt, run_pipeline, Returned, done}
use boom_gw.Clusterer.Handler.{
  attempt, Pipeline, process_event, persisted, drain_localize_results, persist_state, drained,
  take_all, with_world,
}
use boom_gw.Clusterer.Main.{start}
use boom_gw.Clusterer.Settled.{and_then-done, localized, process_event-done}
use boom_gw.Clusterer.Runs.{process_event-grows}

module _ {F C : Type 0} where
  -- The pipeline of commands that an attempt has run.
  abbrev pub saved_by : Attempt F C → Option (List (RedisCommand F))
  saved_by a = elim a.effect [
    | run_pipeline commands ↦ if a.succeeded then some commands else none
    | _ ↦ none
  ]

  -- The last pipeline that Redis has run.
  abbrev pub last_saved : List (Attempt F C) → Option (List (RedisCommand F))
  last_saved [] = none
  last_saved (a ∷ trace) = elim (saved_by a) [
    | none ↦ last_saved trace
    | some commands ↦ some commands
  ]

module _ {F C : Type 0} ⦃fl : Float F⦄ (setup : Setup F) (out : Outside F C) where
  -- What Redis has run last is the save of the present creator.
  abbrev pub Saved : Pipeline F C → Type 0
  Saved p =
      (commands : List (RedisCommand F)) × (save_to_redis out.json setup.redis_prefix p.creator
        ≡ some commands)
      × (last_saved p.world.trace ≡ some commands)

  attempt-saved :
      (w w' : World F C) (commands : List (RedisCommand F))
      → attempt setup out (run_pipeline commands) w ≡ (w', done)
      → last_saved w'.trace ≡ some commands
  attempt-saved w w' commands e = elim (Bool-cases (out.fails w.turn)) [
    | inl f ↦ absurd (cc (ap (λ r. r.1) (rw f at e)))
    | inr f ↦ ap (λ r. last_saved r.0.trace) (sym e) ∙ rw f refl
  ]

  persist_state-Saved :
      (c : SupereventCreator F C) (w w' : World F C)
      → setup.redis_conn ≡ true
      → persist_state setup out c w ≡ (w', done)
      → Saved (record { creator = c; world = w' })
  unfolding persist_state
  persist_state-Saved c w w' h e =
      elim (Option-cases (save_to_redis out.json setup.redis_prefix c)) [
        | inl s ↦ absurd (cc (ap (λ r. r.1) (rw (h, persist_state, s) at e)))
        | inr (commands, s) ↦
            (commands, s, attempt-saved w w' commands (rw (h, persist_state, s) at e))
      ]

  persisted-Saved :
      (p p' : Pipeline F C)
      → setup.redis_conn ≡ true
      → persisted setup out p ≡ (p', done)
      → Saved p'
  persisted-Saved p p' h e =
      let r = persist_state setup out p.creator p.world in
      subst (λ (q : Pipeline F C × Returned). Saved q.0) e
        (persist_state-Saved p.creator p.world r.0 h (ap (λ d. (r.0, d)) (ap (λ q. q.1) e)))

  drained-Saved :
      (rs : List LocalizeResult) (p p' : Pipeline F C)
      → setup.redis_conn ≡ true
      → Saved p
      → drained setup out rs p ≡ (p', done)
      → Saved p'
  drained-Saved [] p p' h s e = subst (λ (q : Pipeline F C × Returned). Saved q.0) e s
  drained-Saved (r ∷ rs) p p' h s e =
      let (q, e1, e2) =
        and_then-done
          (take_all setup out (r ∷ rs) (with_world p (record p.world { buffered = [] }))) _
          (persisted setup out) p' e in
      persisted-Saved q p' h e2

  drained_saves :
      (b : Bool) (p p' : Pipeline F C)
      → setup.redis_conn ≡ true
      → Saved p
      → (if b then drained setup out p.world.buffered p else (p, done)) ≡ (p', done)
      → Saved p'
  drained_saves true p p' h s e = drained-Saved p.world.buffered p p' h s e
  drained_saves false p p' h s e = subst (λ (q : Pipeline F C × Returned). Saved q.0) e s

  drain-Saved :
      (p p' : Pipeline F C)
      → setup.redis_conn ≡ true
      → Saved p
      → drain_localize_results setup out p ≡ (p', done)
      → Saved p'
  unfolding drain_localize_results
  drain-Saved p p' h s e = drained_saves setup.localizer_results p p' h s e

  pub process_event-Saved :
      (p p' : Pipeline F C) (event : GwEvent F C) (xml : Bytes)
      (r : SupereventCreator F C × SupereventUpdate F C)
      → setup.redis_conn ≡ true
      → process p.creator event ≡ some r
      → process_event setup out p event xml ≡ some (p', done)
      → Saved p'
  process_event-Saved p p' event xml r h e k =
      let (w, q, s) = process_event-done setup out p p' event xml r e k in
      let (p1, e1, e2) =
        and_then-done (persisted setup out (localized setup out event xml r w)) _
          (drain_localize_results setup out) p' s in
      drain-Saved p1 p' h (persisted-Saved (localized setup out event xml r w) p1 h e1) e2

  start_connected :
      (redis : Answers F) (window : F)
      → setup.redis_conn ≡ true
      → start setup out redis window
        ≡ load_from_redis out.json redis setup.redis_prefix (some window)
  unfolding start
  start_connected redis window h = rw h refl

  module _ (L : FloatLaws fl) where
    -- For floats that meet FloatLaws: if `process_event` returns without an error from a
    -- well-formed creator with a sequence number left, Redis is connected and meets ServerLaws,
    -- and every superevent survives its encoding, then the handler has had some last pipeline run
    -- with success, and after a server has executed it, whatever it held before under any key, a
    -- start with the same window recovers the superevents and the index that the handler left, in
    -- a well-formed state.
    pub start-process_event :
        {server : Server F} (S : ServerLaws server) (db : server.Db) (p p' : Pipeline F C)
        (event : GwEvent F C) (xml : Bytes)
        → WellFormed L p.creator
        → p.creator.next_seq + 1 < 2 ^ 64
        → setup.redis_conn ≡ true
        → process_event setup out p event xml ≡ some (p', done)
        → RoundTrips out.json (values p'.creator.superevents)
        → (commands : List (RedisCommand F)) × (c : SupereventCreator F C) × (last_saved
              p'.world.trace
            ≡ some commands)
          × (start setup out
                (answers_of server (execute server commands db))
                p'.creator.window_duration
              ≡ some c)
          × Recovers L p'.creator c
    start-process_event {server} S db p p' event xml w room h e good =
        let (r, k, wf, n, perm) = process_event-grows L setup out p event xml w room in
        let same : r ≡ (p', done) = some_inj r (p', done) (sym k ∙ e) in
        let wf' : WellFormed L p'.creator =
          subst (λ (q : Pipeline F C × Returned). WellFormed L q.0.creator) same wf in
        let (u, d, wfu, nu) = process-WellFormed L p.creator event w room in
        let (commands, saved, last) = process_event-Saved p p' event xml u h d e in
        let (c, loaded, rec) =
          load-save L out.json S setup.redis_prefix p'.creator commands db wf' good saved in
        let redis = answers_of server (execute server commands db) in
        (commands, c, last, start_connected redis p'.creator.window_duration h ∙ loaded, rec)
