-- ===== src/State.antt =====
-- src/state.rs: the open superevents in Redis, and their recovery at a restart.
-- Redis and the JSON encoding are parameters: what a pipeline sends is a list of commands, and what
-- the server answers to the reads of a recovery is a record of functions.
pub mod Sequence
pub mod Restart
pub mod Server
pub mod Examples
use boom_gw.Base.{ℕ, List, [], ◌∷◌, ◌++◌, map, Option, none, some, Bytes, codes}
use boom_gw.Base.Floats.{Float}
use boom_gw.Base.BTree.{BTreeMap, values}
use boom_gw.Clustering.Defs.{Superevent, SupereventCreator, from_persisted}
use Sequence.{next_seq_from_ids}

pub data RedisCommand (F : Type 0) : Type 0 where
  del : Bytes → RedisCommand F
  hset : Bytes → Bytes → Bytes → RedisCommand F
  zadd : Bytes → Bytes → F → RedisCommand F

-- The answers to `zrange_withscores(key, 0, -1)` and `hget(key, field)`; the outer `none` is an
-- error of the connection.
pub record Answers (F : Type 0) : Type 0 where
  pub zrange_withscores : Bytes → Option (List (Bytes × F))
  pub hget : Bytes → Bytes → Option (Option Bytes)

-- `serde_json::to_vec` and `serde_json::from_slice` at `Superevent`; `none` is an error.
pub record Json (F C : Type 0) : Type 0 where
  pub to_vec : Superevent F C → Option Bytes
  pub from_slice : Bytes → Option (Superevent F C)

abbrev pub open_key : Bytes → Bytes
open_key prefix = prefix ++ codes ":open"

abbrev pub index_key : Bytes → Bytes
index_key prefix = prefix ++ codes ":t0_index"

abbrev pub ids : {F C : Type 0} → List (Superevent F C) → List Bytes
ids = map (λ s. s.id)

module _ {F C : Type 0} (json : Json F C) where
  -- The commands for the superevents, two for each; `none` where one has no encoding.
  unfoldable pub store_all : Bytes → List (Superevent F C) → Option (List (RedisCommand F))
  store_all prefix [] = some []
  store_all prefix (s ∷ ss) =
      let rest = store_all prefix ss in
      elim (json.to_vec s) [
        | none ↦ none
        | some payload ↦ elim rest [
          | none ↦ none
          | some commands ↦
              some (
                hset (open_key prefix) s.id payload ∷ zadd (index_key prefix) s.id s.t_0 ∷ commands)
        ]
      ]

  -- The atomic pipeline of `save_to_redis`.
  unfoldable pub save_to_redis : Bytes → SupereventCreator F C → Option (List (RedisCommand F))
  unfolding store_all
  save_to_redis prefix creator = elim (store_all prefix (values creator.superevents)) [
    | none ↦ none
    | some commands ↦ some (del (open_key prefix) ∷ del (index_key prefix) ∷ commands)
  ]

  module _ (redis : Answers F) where
    -- The loop of `load_from_redis`: an identifier without a payload is passed over, an error
    -- ends the recovery.
    unfoldable pub load_all : Bytes → List (Bytes × F) → Option (List (Superevent F C))
    load_all prefix [] = some []
    load_all prefix ((id, t_0) ∷ rest) =
        let others = load_all prefix rest in
        elim (redis.hget (open_key prefix) id) [
          | none ↦ none
          | some none ↦ others
          | some (some bytes) ↦ elim (json.from_slice bytes) [
            | none ↦ none
            | some s ↦ elim others [ none ↦ none | some ss ↦ some (s ∷ ss) ]
          ]
        ]

    -- `unwrap_or_default` on the index.
    abbrev pub or_empty : Option (List (Bytes × F)) → List (Bytes × F)
    or_empty none = []
    or_empty (some entries) = entries

    module _ ⦃fl : Float F⦄ where
      abbrev window_or : Option F → F
      window_or none = fl.decimal 5 0
      window_or (some w) = w

      unfoldable pub load_from_redis : Bytes → Option F → Option (SupereventCreator F C)
      unfolding load_all from_persisted next_seq_from_ids
      load_from_redis prefix window_duration =
          elim (load_all prefix (or_empty (redis.zrange_withscores (index_key prefix)))) [
            | none ↦ none
            | some superevents ↦ some (
                from_persisted (window_or window_duration) superevents
                  (next_seq_from_ids (ids superevents)))
          ]

-- `clear_in_redis` sends one `DEL` of both keys.
unfoldable pub clear_in_redis : {F : Type 0} → Bytes → List (RedisCommand F)
clear_in_redis prefix = del (open_key prefix) ∷ del (index_key prefix) ∷ []
