-- ===== src/Clustering/Run.antt =====
-- Whole histories of a `SupereventCreator` (src/clustering.rs).
use boom_gw.Base.{
  ℕ, ◌+◌, ◌^◌, ◌≤◌, ◌<◌, ◌≡◌, refl, List, [], ◌∷◌, Option, none, some, arith, Bytes, length,
}
use boom_gw.Base.Floats.{Float, FloatLaws}
use boom_gw.Clustering.Defs.{
  GwEvent, SupereventCreator, new, half_of, process, cleanup_before, attach_skymap,
}
use boom_gw.Clustering.Invariant.{WellFormed}
use boom_gw.Clustering.Process.{process-WellFormed}
use boom_gw.Clustering.Cleanup.{cleanup_before-WellFormed, cleanup_before-ended}
use boom_gw.Clustering.Attach.{attach_skymap-WellFormed, next_seq-attach_skymap}

-- One call on the creator.
pub data Call (F C : Type 0) : Type 0 where
  processes : GwEvent F C → Call F C
  cleans : F → Call F C
  attaches : Bytes → Bytes → ℕ → Call F C

-- The calls one after another; `none` if one panics.
module _ {F C : Type 0} ⦃fl : Float F⦄ where
  pub run : SupereventCreator F C → List (Call F C) → Option (SupereventCreator F C)
  run c [] = some c
  run c (processes event ∷ calls) = elim (process c event) [
    | none ↦ none
    | some (c', update) ↦ run c' calls
  ]
  run c (cleans cutoff ∷ calls) = run (cleanup_before c cutoff).0 calls
  run c (attaches id fits elapsed ∷ calls) = run (attach_skymap c id fits elapsed).0 calls

module _ {F C : Type 0} ⦃fl : Float F⦄ (L : FloatLaws fl) where
  pub new-WellFormed :
      (window : F)
      → L.rank (fl.decimal 0 0) ≤ L.rank (half_of window)
      → WellFormed {C = C} L (new window)
  unfolding new
  new-WellFormed window h = record {
    index = refl;
    ascending = tt;
    centred = tt;
    apart = tt;
    best = tt;
    issued = tt;
    distinct = tt;
    room = omega arith;
    wide = h;
  }

  run-WellFormed :
      (c : SupereventCreator F C) (calls : List (Call F C))
      → WellFormed L c
      → c.next_seq + length calls < 2 ^ 64
      → (c' : SupereventCreator F C) × (run c calls ≡ some c') × WellFormed L c'
  unfolding run
  run-WellFormed c [] w h = (c, refl, w)
  run-WellFormed c (processes event ∷ calls) w h =
      let ((c', u), p, w', n) = process-WellFormed L c event w (omega arith) in
      let (d, q, v) = run-WellFormed c' calls w' (omega arith) in (d, rw (p, run) q, v)
  run-WellFormed c (cleans cutoff ∷ calls) w h =
      run-WellFormed (cleanup_before c cutoff).0 calls (cleanup_before-WellFormed L c cutoff w)
        (omega (arith, (cleanup_before-ended L c cutoff w).2))
  run-WellFormed c (attaches id fits elapsed ∷ calls) w h =
      run-WellFormed (attach_skymap c id fits elapsed).0 calls
        (attach_skymap-WellFormed L c id fits elapsed w)
        (omega (arith, next_seq-attach_skymap L c id fits elapsed w))

  -- For floats that meet FloatLaws: if half of the window is not negative, then from a new
  -- creator fewer than 2^64 calls of `process`, `cleanup_before` and `attach_skymap`, in any
  -- order and on any arguments, never panic and end in a well-formed state: the index of times
  -- agrees with the superevents, the windows are centred on their keys and pairwise further apart
  -- than half a window, each preferred event is a recorded one of the highest SNR, and the
  -- identifiers are distinct.
  pub run_new-WellFormed :
      (window : F) (calls : List (Call F C))
      → L.rank (fl.decimal 0 0) ≤ L.rank (half_of window)
      → length calls < 2 ^ 64
      → (c : SupereventCreator F C) × (run (new window) calls ≡ some c) × WellFormed L c
  unfolding new
  run_new-WellFormed window calls h n =
      run-WellFormed (new window) calls (new-WellFormed window h) (omega arith)
