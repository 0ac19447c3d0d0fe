-- ===== src/Clusterer/Waiting.antt =====
-- The wait for outstanding sky maps at the end of src/bin/gw_clusterer.rs: its rounds, and its end.
use boom_gw.Base.{
  ◌≡◌, ◌≢◌, refl, ap, sym, arith, ℕ, zero, suc, ◌+◌, ◌<◌, ◌≤◌, ◌⊎◌, Option, none, some, true, false,
  Bool-cases, inl, inr, ltb, ◌==◌, subst,
}
use boom_gw.Base.Floats.{Float}
use boom_gw.Localizer.{LocalizeResult}
use boom_gw.Clusterer.World.{Setup, Outside, Returned, done, broken}
use boom_gw.Clusterer.Handler.{Pipeline, and_then, persisted, take_result}
use boom_gw.Clusterer.Main.{outstanding_skymaps, recv_timeout, resume, wait, drain_until_quiet}

le_cases : (i last : ℕ) → i ≤ last → (i < last) ⊎ (i ≡ last)
le_cases i last h = ground arith

module _ {F C : Type 0} ⦃fl : Float F⦄ (setup : Setup F) (out : Outside F C) where
  -- Before the deadline a superevent has no sky map.
  abbrev pub GoesOn : ℕ → ℕ → Pipeline F C → Type 0
  GoesOn deadline i p = (out.clock i < deadline) × (outstanding_skymaps p ≢ 0)

  -- A result is attached and the state saved.
  abbrev pub handled : LocalizeResult → Pipeline F C → Pipeline F C × Returned
  handled r p = and_then (take_result setup out r p) (λ q. q) (persisted setup out)

  -- The rounds from i to j: each goes on, and receives nothing, or a result that is handled
  -- without an error.
  pub data Rounds (deadline : ℕ) : ℕ → Pipeline F C → ℕ → Pipeline F C → Type 0 where
    no_round : (i : ℕ) (p : Pipeline F C) → Rounds deadline i p i p
    in_vain :
        (i j : ℕ) (p q : Pipeline F C)
        → GoesOn deadline i p
        → (recv_timeout (out.arrives i) p).0 ≡ none
        → Rounds deadline (suc i) (recv_timeout (out.arrives i) p).1 j q
        → Rounds deadline i p j q
    with_result :
        (i j : ℕ) (p p' q : Pipeline F C) (r : LocalizeResult)
        → GoesOn deadline i p
        → (recv_timeout (out.arrives i) p).0 ≡ some r
        → handled r (recv_timeout (out.arrives i) p).1 ≡ (p', done)
        → Rounds deadline (suc i) p' j q
        → Rounds deadline i p j q

  -- How round i is the last.
  pub data Stops (deadline i : ℕ) (p : Pipeline F C) : Pipeline F C × Returned → Type 0 where
    too_late : deadline ≤ out.clock i → Stops deadline i p (p, done)
    quiet : outstanding_skymaps p ≡ 0 → Stops deadline i p (p, done)
    failed :
        (q : Pipeline F C) (r : LocalizeResult)
        → GoesOn deadline i p
        → (recv_timeout (out.arrives i) p).0 ≡ some r
        → handled r (recv_timeout (out.arrives i) p).1 ≡ (q, broken)
        → Stops deadline i p (q, broken)

  -- A run from round i ends in round j.
  abbrev Ends : ℕ → ℕ → ℕ → Pipeline F C → Option (Pipeline F C × Returned) → Type 0
  Ends deadline last i p o =
      (r : Pipeline F C × Returned) × (j : ℕ) × (q : Pipeline F C) × (o ≡ some r)
      × (j ≤ last)
      × Rounds deadline i p j q
      × Stops deadline j q r

  handled-Ends :
      (deadline last i : ℕ) (p : Pipeline F C) (r : LocalizeResult)
      (next : Pipeline F C → Option (Pipeline F C × Returned))
      → i ≤ last
      → GoesOn deadline i p
      → (recv_timeout (out.arrives i) p).0 ≡ some r
      → ((q : Pipeline F C) → Ends deadline last (suc i) q (next q))
      → (h : Pipeline F C × Returned) → handled r (recv_timeout (out.arrives i) p).1 ≡ h
      → Ends deadline last i p (resume setup out h next)
  handled-Ends deadline last i p r next m g e f (p', broken) k =
      ((p', broken), i, p, refl, m, no_round i p, failed p' r g e k)
  handled-Ends deadline last i p r next m g e f (p', done) k =
      let (s, j, q, o, l, rounds, stops) = f p' in
      (s, j, q, o, l, with_result i j p p' q r g e k rounds, stops)

  received-Ends :
      (deadline last i : ℕ) (p : Pipeline F C)
      (next : Pipeline F C → Option (Pipeline F C × Returned))
      → i ≤ last
      → GoesOn deadline i p
      → ((q : Pipeline F C) → Ends deadline last (suc i) q (next q))
      → (o : Option LocalizeResult) → (recv_timeout (out.arrives i) p).0 ≡ o
      → Ends deadline last i p (elim o [
        | none ↦ next (recv_timeout (out.arrives i) p).1
        | some r ↦ resume setup out (handled r (recv_timeout (out.arrives i) p).1) next
      ])
  received-Ends deadline last i p next m g f none e =
      let (s, j, q, o, l, rounds, stops) = f (recv_timeout (out.arrives i) p).1 in
      (s, j, q, o, l, in_vain i j p q g e rounds, stops)
  received-Ends deadline last i p next m g f (some r) e =
      handled-Ends deadline last i p r next m g e f _ refl

  wait-Ends :
      (fuel i deadline last : ℕ) (p : Pipeline F C)
      → deadline ≤ out.clock last
      → last < i + fuel
      → i ≤ last
      → Ends deadline last i p (wait setup out fuel i deadline p)
  unfolding wait
  wait-Ends zero i deadline last p h n m = absurd (omega arith)
  wait-Ends (suc fuel) i deadline last p h n m = elim (Bool-cases (ltb (out.clock i) deadline)) [
    | inr late ↦
        ((p, done), i, p, rw (late, wait) refl, m, no_round i p, too_late (ground (arith, late)))
    | inl early ↦ elim (Bool-cases (outstanding_skymaps p == 0)) [
      | inl over ↦ (
        (p, done),
        i,
        p,
        rw (early, wait) (rw (over, wait) refl),
        m,
        no_round i p,
        quiet (ground (arith, over)),
      )
      | inr open_maps ↦
          let goes_on : GoesOn deadline i p =
            (ground (arith, early), λ z. ground (arith, open_maps, z)) in
          let before : i < last = elim (le_cases i last m) [
            | inl l ↦ l
            | inr same ↦ absurd (omega (arith, goes_on.0, h, ap out.clock same))
          ] in
          let (r, j, q, e, l, rounds, stops) =
            received-Ends deadline last i p (wait setup out fuel (suc i) deadline) m goes_on
              (λ q. wait-Ends fuel (suc i) deadline last q h (omega arith) (omega arith))
              (recv_timeout (out.arrives i) p).0 refl in
          (r, j, q, rw (early, wait) (rw (open_maps, wait) e), l, rounds, stops)
    ]
  ]

  -- If a consumer of results runs and the clock has reached the deadline by round n, then with
  -- fuel for n + 1 rounds `drain_until_quiet` returns in some round of number at most n. Before
  -- each earlier round, and before a round that fails, the deadline was ahead and a superevent
  -- was without a sky map; each round received nothing or a result that was handled without an
  -- error; and the last one found the deadline reached, found no superevent without a sky map, or
  -- failed in handling a result, which alone is reported as an error.
  pub drain_until_quiet-Ends :
      (fuel deadline last : ℕ) (p : Pipeline F C)
      → setup.localizer_results ≡ true
      → deadline ≤ out.clock last
      → last < fuel
      → (r : Pipeline F C × Returned) × (j : ℕ) × (q : Pipeline F C) × (drain_until_quiet setup out
            fuel deadline p
          ≡ some r)
        × (j ≤ last)
        × Rounds deadline 0 p j q
        × Stops deadline j q r
  unfolding drain_until_quiet
  drain_until_quiet-Ends fuel deadline last p b h n =
      subst
        (λ c.
          Ends deadline last 0 p
            (elim c [ true ↦ wait setup out fuel 0 deadline p | false ↦ some (p, done) ]))
        (sym b) (wait-Ends fuel 0 deadline last p h (omega arith) (omega arith))
