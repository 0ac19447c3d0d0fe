-- ===== src/State/Examples.antt =====
-- A restart with one open superevent.
use boom_gw.Base.{All, ◌≢◌, ◌≤◌, ℕ, ◌≡◌, refl, List, [], ◌∷◌, none, some, arith, Bytes, codes}
use boom_gw.Base.Floats.{fixed, fixed_laws}
use boom_gw.Clustering.Defs.{Superevent, SupereventCreator, half_of}
use boom_gw.Clustering.Ids.{format_id}
use boom_gw.Clustering.Examples.{seconds, event, one, one-WellFormed}
use boom_gw.State.{
  RedisCommand, del, hset, zadd, Json, open_key, index_key, save_to_redis, load_from_redis,
}
use boom_gw.State.Sequence.{next_seq_from_ids, next_seq_from_ids-Formatted, Formatted}
use boom_gw.State.Server.{Slot, zset, in_memory, in_memory_laws, execute, answers_of}
use boom_gw.State.Restart.{Recovers, load-save}

-- The superevent that `one` holds.
abbrev pub held_one : Superevent ℕ (Unit {0})
held_one = record {
  id = format_id 0;
  t_0 = seconds 1000;
  t_start = fixed.sub (seconds 1000) (half_of (seconds 5));
  t_end = fixed.add (seconds 1000) (half_of (seconds 5));
  preferred_event = event (codes "G1") 1000 8;
  g_events = event (codes "G1") 1000 8 ∷ [];
  skymap = none;
}

-- An encoding that serves for this superevent.
abbrev pub json : Json ℕ (Unit {0})
json = record { to_vec = λ s. some (codes "S"); from_slice = λ b. some held_one }

abbrev pub prefix : Bytes
prefix = codes "gw"

abbrev pub pipeline_one : List (RedisCommand ℕ)
pipeline_one =
    del (open_key prefix)
    ∷ del (index_key prefix)
    ∷ hset (open_key prefix) (format_id 0) (codes "S")
    ∷ zadd (index_key prefix) (format_id 0) (seconds 1000)
    ∷ []

-- A server with other things under both keys.
abbrev pub littered : Bytes → Slot ℕ
littered key = zset ((codes "x", seconds 3) ∷ [])

load-save_example :
    (c' : SupereventCreator ℕ (Unit {0})) × (load_from_redis json
        (answers_of in_memory (execute in_memory pipeline_one littered))
        prefix
        (some (seconds 5))
      ≡ some c')
    × Recovers fixed_laws one c'
unfolding one save_to_redis
load-save_example =
    load-save fixed_laws json in_memory_laws prefix one pipeline_one littered one-WellFormed
      ((λ b e. refl), tt) refl

next_seq_from_ids-Formatted_example :
    All (Formatted (next_seq_from_ids (format_id 3 ∷ []))) (format_id 3 ∷ [])
    × All (λ id. id ≢ format_id (next_seq_from_ids (format_id 3 ∷ []))) (format_id 3 ∷ [])
    × (next_seq_from_ids (format_id 3 ∷ []) ≤ 10)
next_seq_from_ids-Formatted_example =
    next_seq_from_ids-Formatted 10 (format_id 3 ∷ []) (omega arith) ((3, refl, omega arith), tt)
