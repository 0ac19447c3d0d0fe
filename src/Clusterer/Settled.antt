-- ===== src/Clusterer/Settled.antt =====
-- What a handler of src/bin/gw_clusterer.rs has done when it returns without an error.
use boom_gw.Base.{
  subst, ◌≡◌, refl, ◌∙◌, ap, sym, List, [], ◌∷◌, Bytes, some, Bool, true, false, if◌then◌else◌,
  some_inj, both_branches,
}
use boom_gw.Base.Floats.{Float}
use boom_gw.Clustering.Defs.{GwEvent, SupereventCreator, SupereventUpdate, process}
use boom_gw.Localizer.{LocalizeResult}
use boom_gw.Clusterer.World.{Setup, Outside, World, Returned, done, broken}
use boom_gw.Clusterer.Archiving.{
  archive_event, archive_superevent_from, archive_localize_result, localize,
}
use boom_gw.Clusterer.Handler.{
  Pipeline, and_then, with_world, emit, persisted, take_result, take_all, apply_localize_result,
  drained, drain_localize_results, save_and_drain, after_process, process_event,
}
use boom_gw.Clusterer.Keeps.{and_then_lem, creator-announce}
use boom_gw.Clusterer.Trace.{
  submitted, Quiet, Quiet-refl, Quiet-trans, Quiet-take_all, Quiet-persist_state, Quiet-emit,
  Quiet-archive_event, Quiet-archive_superevent_from,
}

pub and_then-done :
    {A B : Type 0} (r : A × Returned) (left : A → B) (next : A → B × Returned) (b : B)
    → and_then r left next ≡ (b, done)
    → (a : A) × (r ≡ (a, done)) × (next a ≡ (b, done))
and_then-done (a, broken) left next b e = absurd (cc (ap (λ r. r.1) e))
and_then-done (a, done) left next b e = (a, refl, e)

module _ {F C : Type 0} ⦃fl : Float F⦄ (setup : Setup F) (out : Outside F C) where
  -- The creator after some results.
  abbrev pub settled : SupereventCreator F C → List LocalizeResult → SupereventCreator F C
  settled c [] = c
  settled c (r ∷ rs) = settled (apply_localize_result setup out c r).0 rs

  -- The results that a drain takes.
  abbrev pub waiting : World F C → List LocalizeResult
  waiting w = if setup.localizer_results then w.buffered else []

  creator-take_result :
      (r : LocalizeResult) (p : Pipeline F C)
      → (take_result setup out r p).0.creator ≡ (apply_localize_result setup out p.creator r).0
  unfolding take_result
  creator-take_result r p =
      let (c, update) = apply_localize_result setup out p.creator r in
      creator-announce setup out c update (archive_localize_result setup out r p.world)

  take_all-settled :
      (rs : List LocalizeResult) (p p' : Pipeline F C)
      → take_all setup out rs p ≡ (p', done)
      → p'.creator ≡ settled p.creator rs
  unfolding take_all
  take_all-settled [] p p' e = ap (λ q. q.0.creator) (sym e)
  take_all-settled (r ∷ rs) p p' e =
      let (q, e1, e2) = and_then-done (take_result setup out r p) _ (take_all setup out rs) p' e in
      take_all-settled rs q p' e2
      ∙ ap (λ c. settled c rs) (ap (λ q. q.0.creator) (sym e1) ∙ creator-take_result r p)

  drained-settled :
      (rs : List LocalizeResult) (p p' : Pipeline F C)
      → drained setup out rs p ≡ (p', done)
      → p'.creator ≡ settled p.creator rs
  drained-settled [] p p' e = ap (λ q. q.0.creator) (sym e)
  drained-settled (r ∷ rs) p p' e =
      let (q, e1, e2) =
        and_then-done
          (take_all setup out (r ∷ rs) (with_world p (record p.world { buffered = [] }))) _
          (persisted setup out) p' e in
      ap (λ q. q.0.creator) (sym e2) ∙ take_all-settled (r ∷ rs) _ q e1

  settled_if :
      (b : Bool) (p p' : Pipeline F C)
      → (if b then drained setup out p.world.buffered p else (p, done)) ≡ (p', done)
      → p'.creator ≡ settled p.creator (if b then p.world.buffered else [])
  settled_if true p p' e = drained-settled p.world.buffered p p' e
  settled_if false p p' e = ap (λ q. q.0.creator) (sym e)

  pub drain-settled :
      (p p' : Pipeline F C)
      → drain_localize_results setup out p ≡ (p', done)
      → p'.creator ≡ settled p.creator (waiting p.world)
  unfolding drain_localize_results
  drain-settled p p' e = settled_if setup.localizer_results p p' e

  drained-submitted :
      (rs : List LocalizeResult) (p : Pipeline F C)
      → submitted (drained setup out rs p).0.world.trace ≡ submitted p.world.trace
  drained-submitted [] p = refl
  drained-submitted (r ∷ rs) p =
      let start = with_world p (record p.world { buffered = [] }) in
      and_then_lem (λ (q : Pipeline F C). submitted q.world.trace ≡ submitted p.world.trace)
        (λ (q : Pipeline F C). submitted q.world.trace ≡ submitted p.world.trace)
        (take_all setup out (r ∷ rs) start) _ (persisted setup out)
        ((Quiet-take_all setup out (r ∷ rs) start).requests) (λ q k. k)
        (λ q k.
          (Quiet-persist_state setup out q.creator q.world q.world (Quiet-refl q.world)).requests
          ∙ k)

  pub drain-submitted :
      (p : Pipeline F C)
      → submitted (drain_localize_results setup out p).0.world.trace ≡ submitted p.world.trace
  unfolding drain_localize_results
  drain-submitted p =
      both_branches
        (λ (q : Pipeline F C × Returned). submitted q.0.world.trace ≡ submitted p.world.trace)
        setup.localizer_results _ (p, done) (drained-submitted p.world.buffered p) refl

  -- The state before the final save of `process_event`.
  abbrev pub localized :
      GwEvent F C → Bytes → SupereventCreator F C × SupereventUpdate F C → World F C → Pipeline F C
  localized event xml (c, update) w = record {
    creator = c;
    world = localize setup out event xml update w;
  }

  after_process-done :
      (event : GwEvent F C) (xml : Bytes) (r : SupereventCreator F C × SupereventUpdate F C)
      (w : World F C) (p' : Pipeline F C)
      → after_process setup out event xml r w ≡ (p', done)
      → (w' : World F C) × Quiet w w'
        × (save_and_drain setup out (localized event xml r w') ≡ (p', done))
  after_process-done event xml (c, update) w p' e =
      let (w1, e1, e2) = and_then-done (emit setup out update (some event) w) _ _ p' e in
      (
        archive_superevent_from setup out c update w1,
        Quiet-archive_superevent_from setup out c update w w1 (
            subst (λ (x : World F C × Returned). Quiet w x.0) e1
              (Quiet-emit setup out update (some event) w)),
        e2,
      )

  pub process_event-done :
      (p p' : Pipeline F C) (event : GwEvent F C) (xml : Bytes)
      (r : SupereventCreator F C × SupereventUpdate F C)
      → process p.creator event ≡ some r
      → process_event setup out p event xml ≡ some (p', done)
      → (w : World F C) × Quiet p.world w
        × (save_and_drain setup out (localized event xml r w) ≡ (p', done))
  unfolding process_event
  process_event-done p p' event xml r e h =
      let w1 = archive_event setup out event p.world in
      let (w, q, s) =
        after_process-done event xml r w1 p' (some_inj _ _ (rw (e, process_event) at h)) in
      (w, Quiet-trans p.world w1 w (Quiet-archive_event setup out event p.world) q, s)
