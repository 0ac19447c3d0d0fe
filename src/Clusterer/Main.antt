-- ===== src/Clusterer/Main.antt =====
-- `main` of src/bin/gw_clusterer.rs after the command line is read: the start from Redis, the replay
-- of a directory, the live loop, and the wait for outstanding sky maps.
use boom_gw.Base.{
  true, false, List, [], ◌∷◌, Option, none, some, if◌then◌else◌, Bytes, ℕ, zero, suc, ◌+◌, ◌%◌, ◌^◌,
  ◌&&◌, ltb, leb, ◌==◌, ◌++◌,
}
use boom_gw.Base.Floats.{Float}
use boom_gw.Base.BTree.{values}
use boom_gw.Clustering.Defs.{GwEvent, Superevent, SupereventCreator, new}
use boom_gw.State.{Answers, load_from_redis}
use boom_gw.Localizer.{LocalizeResult}
use boom_gw.Clusterer.World.{Setup, Outside, Returned, done, broken}
use boom_gw.Clusterer.Handler.{
  Pipeline, with_world, and_then, persisted, take_result, process_event,
}

-- The superevents without a sky map.
unfoldable pub missing_maps : {F C : Type 0} → List (Superevent F C) → ℕ
missing_maps [] = 0
missing_maps (s ∷ ss) = elim s.skymap [ none ↦ suc (missing_maps ss) | some _ ↦ missing_maps ss ]

unfoldable pub outstanding_skymaps : {F C : Type 0} → Pipeline F C → ℕ
unfolding missing_maps
outstanding_skymaps p = missing_maps (values p.creator.superevents)

-- What reaches the live loop: a decoded message, a message that does not decode, and a result that
-- the background consumer puts on its channel.
pub data Inbound (F C : Type 0) : Type 0 where
  received : GwEvent F C → Bytes → Inbound F C
  undecodable : Inbound F C
  arrived : LocalizeResult → Inbound F C

-- The oldest buffered result, or else what arrives in time.
unfoldable pub recv_timeout :
    {F C : Type 0} → Option LocalizeResult → Pipeline F C → Option LocalizeResult × Pipeline F C
recv_timeout arriving p = elim p.world.buffered [
  | [] ↦ (arriving, p)
  | result ∷ rest ↦ (some result, with_world p (record p.world { buffered = rest }))
]

unfoldable pub buffer : {F C : Type 0} → LocalizeResult → Pipeline F C → Pipeline F C
buffer result p = with_world p (record p.world { buffered = p.world.buffered ++ result ∷ [] })

module _ {F C : Type 0} ⦃fl : Float F⦄ (setup : Setup F) (out : Outside F C) where
  unfoldable pub start : Answers F → F → Option (SupereventCreator F C)
  unfolding load_from_redis new
  start redis window_secs =
      if setup.redis_conn
      then load_from_redis out.json redis setup.redis_prefix (some window_secs)
      else some (new window_secs)

  -- A loop goes on unless the state came with an error.
  abbrev pub resume :
      Pipeline F C × Returned
      → (Pipeline F C → Option (Pipeline F C × Returned))
      → Option (Pipeline F C × Returned)
  resume (p, broken) next = some (p, broken)
  resume (p, done) next = next p

  -- Round i of the wait reads the clock and waits for a result; `none` is a loop out of fuel.
  unfoldable pub wait : ℕ → ℕ → ℕ → Pipeline F C → Option (Pipeline F C × Returned)
  unfolding outstanding_skymaps recv_timeout take_result
  wait zero i deadline p = none
  wait (suc fuel) i deadline p = elim (ltb (out.clock i) deadline) [
    | false ↦ some (p, done)
    | true ↦ elim (outstanding_skymaps p == 0) [
      | true ↦ some (p, done)
      | false ↦
          let (result, p') = recv_timeout (out.arrives i) p in
          elim result [
            | none ↦ wait fuel (suc i) deadline p'
            | some r ↦
                resume (and_then (take_result setup out r p') (λ q. q) (persisted setup out))
                  (wait fuel (suc i) deadline)
          ]
    ]
  ]

  unfoldable pub drain_until_quiet : ℕ → ℕ → Pipeline F C → Option (Pipeline F C × Returned)
  unfolding wait
  drain_until_quiet fuel deadline p = elim setup.localizer_results [
    | true ↦ wait fuel 0 deadline p
    | false ↦ some (p, done)
  ]

  -- The replay ends at the first error.
  unfoldable pub replay :
      Pipeline F C → List (GwEvent F C × Bytes) → Option (Pipeline F C × Returned)
  unfolding process_event
  replay p [] = some (p, done)
  replay p ((event, xml) ∷ events) = elim (process_event setup out p event xml) [
    | none ↦ none
    | some r ↦ resume r (λ p'. replay p' events)
  ]

  -- `count` is a `u64`; an error of a handler is logged. `none` is a panic.
  unfoldable pub live : ℕ → ℕ → Pipeline F C → List (Inbound F C) → Option (Pipeline F C)
  unfolding process_event buffer
  live max count p [] = some p
  live max count p (undecodable ∷ rest) = live max count p rest
  live max count p (arrived result ∷ rest) = live max count (buffer result p) rest
  live max count p (received event xml ∷ rest) = elim (process_event setup out p event xml) [
    | none ↦ none
    | some (p', r) ↦ elim (ltb 0 max && leb max ((count + 1) % 2 ^ 64)) [
      | true ↦ some p'
      | false ↦ live max ((count + 1) % 2 ^ 64) p' rest
    ]
  ]
