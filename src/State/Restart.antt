-- ===== src/State/Restart.antt =====
-- A restart of the clusterer: what `load_from_redis` rebuilds from what `save_to_redis` stored
-- (src/state.rs).
use mathlib.Core.List.{append_assoc, append-nil}
use boom_gw.Base.{
  bytes_eq_refl, eq_of_bytes_eq, Bool-cases, ◌≢◌, All-zip, codes, subst, false, true, bytes_eq,
  some_inj, ap₂, inr, inl, Option-cases, ℕ, suc, ◌^◌, ◌≤◌, ◌<◌, ◌≡◌, refl, sym, ◌∙◌, ap, List, [],
  ◌∷◌, ◌++◌, some, arith, All, All-map, All-append, Bytes,
}
use boom_gw.Base.Floats.{lt_f, Float, FloatLaws}
use boom_gw.Base.BTree.{BTreeMap, values, insert}
use boom_gw.Base.BTree.Laws.{Pairs, map_values}
use boom_gw.Clustering.Ids.{id_seq, id_seq-format_id}
use boom_gw.Clustering.Defs.{
  Superevent, SupereventCreator, time_cmp, restore, from_persisted, half_of, new,
}
use boom_gw.Clustering.Neighbours.{Ascending-mono, Ascending}
use boom_gw.Clustering.Invariant.{DistinctIds, WellFormed, Issued, IsCentred}
use boom_gw.State.Server.{Server, ServerLaws, execute, answers_of}
use boom_gw.State.{
  RedisCommand, del, hset, zadd, Answers, Json, ids, open_key, index_key, store_all, save_to_redis,
  load_all, load_from_redis,
}
use boom_gw.State.Sequence.{
  next_seq_from_ids, Numbered, next_seq_from_ids-Numbered, next_seq_from_ids-le,
}

-- Each of the superevents decodes from its encoding.
abbrev pub RoundTrips : {F C : Type 0} → Json F C → List (Superevent F C) → Type 0
RoundTrips json ss = All (λ s. (b : Bytes) → json.to_vec s ≡ some b → json.from_slice b ≡ some s) ss

-- The index entries of a list of superevents.
abbrev entries : {F C : Type 0} → List (Superevent F C) → List (Bytes × F)
entries [] = []
entries (s ∷ ss) = (s.id, s.t_0) ∷ entries ss

module _ {F C : Type 0} (json : Json F C) (redis : Answers F) (prefix : Bytes) where
  -- A superevent whose field holds its encoding.
  abbrev Holds : Superevent F C → Type 0
  Holds s =
      (b : Bytes) × (json.to_vec s ≡ some b) × (redis.hget (open_key prefix) s.id ≡ some (some b))

  load_all_stored :
      (ss : List (Superevent F C))
      → RoundTrips json ss
      → All Holds ss
      → load_all json redis prefix (entries ss) ≡ some ss
  unfolding load_all
  load_all_stored [] good h = refl
  load_all_stored (s ∷ ss) good h =
      let (b, e, here) = h.0 in
      rw (here, load_all) (rw (good.0 b e) (rw (load_all_stored ss good.1 h.1)))

bytes_eq_swap : (a b : Bytes) → bytes_eq a b ≡ false → bytes_eq b a ≡ false
bytes_eq_swap a b h = elim (Bool-cases (bytes_eq b a)) [
  | inl e ↦
      let back : false ≡ true = sym h ∙ ap (bytes_eq a) (eq_of_bytes_eq b a e) ∙ bytes_eq_refl a in
      absurd (cc back)
  | inr n ↦ n
]

distinct_bytes : (a b : Bytes) → a ≢ b → bytes_eq a b ≡ false
distinct_bytes a b n = elim (Bool-cases (bytes_eq a b)) [
  | inl e ↦ absurd (n (eq_of_bytes_eq a b e))
  | inr f ↦ f
]

-- The two keys differ.
differ : (prefix s t : Bytes) → bytes_eq s t ≡ false → bytes_eq (prefix ++ s) (prefix ++ t) ≡ false
unfolding bytes_eq
differ [] s t h = h
differ (c ∷ prefix) s t h = ground (arith, differ prefix s t h)

open_index : (prefix : Bytes) → bytes_eq (open_key prefix) (index_key prefix) ≡ false
unfolding bytes_eq
open_index prefix = differ prefix (codes ":open") (codes ":t0_index") refl

index_open : (prefix : Bytes) → bytes_eq (index_key prefix) (open_key prefix) ≡ false
unfolding bytes_eq
index_open prefix = differ prefix (codes ":t0_index") (codes ":open") refl

-- What one command leaves of another key, and what the commands of a save leave.
module _ {F C : Type 0} ⦃fl : Float F⦄ (json : Json F C) {server : Server F} (S : ServerLaws server)
    (prefix : Bytes) where
  -- Later superevents have other identifiers and greater times.
  abbrev Later : Superevent F C → Superevent F C → Type 0
  Later a b = (bytes_eq a.id b.id ≡ false) × (lt_f a.t_0 b.t_0 ≡ true)

  -- Those of a list come after the entries of the index.
  abbrev After : List (Bytes × F) → List (Superevent F C) → Type 0
  After es ss = All (λ s. All (λ e. (bytes_eq e.0 s.id ≡ false) × (lt_f e.1 s.t_0 ≡ true)) es) ss

  record Ready (es : List (Bytes × F)) (db : server.Db) : Type 0 where
    hash : server.takes_hash (open_key prefix) db ≡ true
    zset : server.takes_zset (index_key prefix) db ≡ true
    index : server.zrange (index_key prefix) db ≡ es

  abbrev put_in : Bytes → Superevent F C → server.Db → server.Db
  put_in b s db =
      server.run (zadd (index_key prefix) s.id s.t_0)
        (server.run (hset (open_key prefix) s.id b) db)

  put_in-Ready :
      (es : List (Bytes × F)) (b : Bytes) (s : Superevent F C) (db : server.Db)
      → Ready es db
      → All (λ e. (bytes_eq e.0 s.id ≡ false) × (lt_f e.1 s.t_0 ≡ true)) es
      → Ready (es ++ (s.id, s.t_0) ∷ []) (put_in b s db)
  put_in-Ready es b s db r a =
      let set = server.run (hset (open_key prefix) s.id b) db in
      let kept =
        S.elsewhere (hset (open_key prefix) s.id b) (index_key prefix) db (open_index prefix) in
      let added =
        S.elsewhere (zadd (index_key prefix) s.id s.t_0) (open_key prefix) set
          (index_open prefix) in
      let same : server.zrange (index_key prefix) set ≡ es = kept.zrange ∙ r.index in
      record {
        hash = added.takes_hash ∙ S.hset_hash (open_key prefix) s.id b db r.hash;
        zset = S.zadd_zset (index_key prefix) s.id s.t_0 set (kept.takes_zset ∙ r.zset);
        index =
            S.zadd_last (index_key prefix) s.id s.t_0 set (kept.takes_zset ∙ r.zset) (
              subst (All (λ e. (bytes_eq e.0 s.id ≡ false) × (lt_f e.1 s.t_0 ≡ true))) (sym same) a)
            ∙ ap (λ x. x ++ (s.id, s.t_0) ∷ []) same;
      }

  put_in-hget :
      (es : List (Bytes × F)) (b : Bytes) (s : Superevent F C) (db : server.Db)
      → Ready es db
      → server.hget (open_key prefix) s.id (put_in b s db) ≡ some b
  put_in-hget es b s db r =
      let set = server.run (hset (open_key prefix) s.id b) db in
      let added =
        S.elsewhere (zadd (index_key prefix) s.id s.t_0) (open_key prefix) set
          (index_open prefix) in
      added.hget s.id ∙ S.hset_hget (open_key prefix) s.id b db r.hash

  put_in-other :
      (b : Bytes) (s : Superevent F C) (db : server.Db) (field : Bytes)
      → bytes_eq s.id field ≡ false
      → server.hget (open_key prefix) field (put_in b s db) ≡ server.hget (open_key prefix) field db
  put_in-other b s db field h =
      let set = server.run (hset (open_key prefix) s.id b) db in
      let added =
        S.elsewhere (zadd (index_key prefix) s.id s.t_0) (open_key prefix) set
          (index_open prefix) in
      added.hget field ∙ S.hset_other (open_key prefix) s.id b field db h

  store_all-cons :
      (s : Superevent F C) (ss : List (Superevent F C)) (commands : List (RedisCommand F))
      → store_all json prefix (s ∷ ss) ≡ some commands
      → (b : Bytes) × (rest : List (RedisCommand F)) × (json.to_vec s ≡ some b)
        × (store_all json prefix ss ≡ some rest)
        × (commands ≡ hset (open_key prefix) s.id b ∷ zadd (index_key prefix) s.id s.t_0 ∷ rest)
  unfolding store_all
  store_all-cons s ss commands h = elim (Option-cases (json.to_vec s)) [
    | inl e ↦ ground arith
    | inr (b, e) ↦ elim (Option-cases (store_all json prefix ss)) [
      | inl q ↦ ground arith
      | inr (rest, q) ↦ (b, rest, e, q, ground arith)
    ]
  ]

  stored_other :
      (ss : List (Superevent F C)) (commands : List (RedisCommand F)) (db : server.Db)
      (field : Bytes)
      → store_all json prefix ss ≡ some commands
      → All (λ s. bytes_eq s.id field ≡ false) ss
      → server.hget (open_key prefix) field (execute server commands db)
        ≡ server.hget (open_key prefix) field db
  unfolding store_all
  stored_other [] commands db field h a =
      ap (λ c. server.hget (open_key prefix) field (execute server c db)) (sym (some_inj _ _ h))
  stored_other (s ∷ ss) commands db field h a =
      let (b, rest, e, q, shape) = store_all-cons s ss commands h in
      ap (λ c. server.hget (open_key prefix) field (execute server c db)) shape
      ∙ stored_other ss rest (put_in b s db) field q a.1
      ∙ put_in-other b s db field a.0

  -- The field of a superevent holds its encoding.
  abbrev Encoded : server.Db → Superevent F C → Type 0
  Encoded db s =
      (b : Bytes) × (json.to_vec s ≡ some b) × (server.hget (open_key prefix) s.id db ≡ some b)

  execute-Ready :
      (es : List (Bytes × F)) (ss : List (Superevent F C)) (commands : List (RedisCommand F))
      (db : server.Db)
      → store_all json prefix ss ≡ some commands
      → Ready es db
      → After es ss
      → Pairs Later ss
      → Ready (es ++ entries ss) (execute server commands db)
        × All (Encoded (execute server commands db)) ss
  unfolding store_all
  execute-Ready es [] commands db h r a p = (
    subst (λ c. Ready (es ++ []) (execute server c db)) (some_inj _ _ h)
        (subst (λ x. Ready x db) (sym (append-nil es)) r),
    tt,
  )
  execute-Ready es (s ∷ ss) commands db h r a p =
      let (b, rest, e, q, shape) = store_all-cons s ss commands h in
      let after : After (es ++ (s.id, s.t_0) ∷ []) ss =
        All-zip _ (Later s) _ (λ x f l. All-append _ es ((s.id, s.t_0) ∷ []) f (l, tt)) ss a.1
          p.0 in
      let next =
        execute-Ready (es ++ (s.id, s.t_0) ∷ []) ss rest (put_in b s db) q
          (put_in-Ready es b s db r a.0) after p.1 in
      let here =
        stored_other ss rest (put_in b s db) s.id q (
          All-map (Later s) (λ x. bytes_eq x.id s.id ≡ false) (λ x l. bytes_eq_swap s.id x.id l.0)
            ss p.0)
        ∙ put_in-hget es b s db r in
      subst
        (λ c.
          Ready (es ++ entries (s ∷ ss)) (execute server c db)
          × All (Encoded (execute server c db)) (s ∷ ss))
        (sym shape)
        (
          subst (λ x. Ready x (execute server rest (put_in b s db)))
              (append_assoc es ((s.id, s.t_0) ∷ []) (entries ss)) next.0,
          ((b, e, here), next.1),
        )

  -- Both keys are deleted first.
  deleted :
      (db : server.Db)
      → Ready [] (server.run (del (index_key prefix)) (server.run (del (open_key prefix)) db))
  deleted db =
      let first = server.run (del (open_key prefix)) db in
      let kept = S.elsewhere (del (index_key prefix)) (open_key prefix) first (index_open prefix) in
      record {
        hash = kept.takes_hash ∙ S.del_hash (open_key prefix) db;
        zset = S.del_zset (index_key prefix) first;
        index = S.del_zrange (index_key prefix) first;
      }

  After-none : (ss : List (Superevent F C)) → After [] ss
  After-none [] = tt
  After-none (s ∷ ss) = (tt, After-none ss)

module _ {F : Type 0} ⦃fl : Float F⦄ (L : FloatLaws fl) where
  open L use {rank, cmp_rank}

  lt_of_rank : (a b : F) → rank a < rank b → lt_f a b ≡ true
  lt_of_rank a b h = ground (arith, cmp_rank a b)

  -- A key above all others goes to the end.
  insert_last :
      {V : Type 0} (k : F) (v : V) (m : BTreeMap F V)
      → All (λ e. suc (rank e.0) ≤ rank k) m
      → insert time_cmp k v m ≡ m ++ (k, v) ∷ []
  unfolding insert
  insert_last k v [] h = refl
  insert_last k v ((j, w) ∷ m) h = ground (arith, cmp_rank k j, insert_last k v m h.1)

  below_snoc :
      {V : Type 0} (n : ℕ) (k : F) (v : V) (m : BTreeMap F V)
      → n ≤ rank k
      → All (λ e. suc (rank e.0) ≤ n) m
      → All (λ e. suc (rank e.0) ≤ suc (rank k)) (m ++ (k, v) ∷ [])
  below_snoc n k v m h b =
      All-append (λ e. suc (rank e.0) ≤ suc (rank k)) m ((k, v) ∷ [])
        (All-map (λ e. suc (rank e.0) ≤ n) (λ e. suc (rank e.0) ≤ suc (rank k)) (λ e p. omega arith)
          m b)
        (omega arith, tt)

  -- The same where the key is known by an equation.
  insert_last_at :
      {V : Type 0} (n : ℕ) (t k : F) (v : V) (m : BTreeMap F V)
      → t ≡ k
      → n ≤ rank k
      → All (λ e. suc (rank e.0) ≤ n) m
      → insert time_cmp t v m ≡ m ++ (k, v) ∷ []
  insert_last_at n t k v m e h b =
      ap (λ x. insert time_cmp x v m) e
      ∙ insert_last k v m (
          All-map (λ e. suc (rank e.0) ≤ n) (λ e. suc (rank e.0) ≤ rank k) (λ e p. omega arith) m b)

module _ {F C : Type 0} ⦃fl : Float F⦄ (L : FloatLaws fl) where
  open L use {rank}

  -- Ascending superevents are put behind those that are there.
  restore-Ascending :
      (n : ℕ) (m : BTreeMap F (Superevent F C)) (c : SupereventCreator F C)
      → All (λ e. suc (rank e.0) ≤ n) c.superevents
      → All (λ e. suc (rank e.0) ≤ n) c.times
      → Ascending L n m
      → All (λ e. e.1.t_0 ≡ e.0) m
      → restore (values m) c
        ≡ record c { superevents = c.superevents ++ m; times = c.times ++ map_values (λ s. s.id) m }
  unfolding restore
  restore-Ascending n [] c b d a t =
      ap₂ (λ x y. record c { superevents = x; times = y }) (sym (append-nil c.superevents))
        (sym (append-nil c.times))
  restore-Ascending n ((k, s) ∷ m) c b d a t =
      let mk = λ (x : BTreeMap F (Superevent F C)) (y : BTreeMap F Bytes). record c {
        superevents = x;
        times = y;
      } in
      ap (restore (values m)) (
        ap₂ mk (insert_last_at L n s.t_0 k s c.superevents t.0 a.0 b)
          (insert_last_at L n s.t_0 k s.id c.times t.0 a.0 d))
      ∙ restore-Ascending (suc (rank k)) m
          (mk (c.superevents ++ (k, s) ∷ []) (c.times ++ (k, s.id) ∷ []))
          (below_snoc L n k s c.superevents a.0 b) (below_snoc L n k s.id c.times a.0 d) a.1 t.1
      ∙ ap₂ mk (append_assoc c.superevents ((k, s) ∷ []) m)
          (append_assoc c.times ((k, s.id) ∷ []) (map_values (λ s. s.id) m))

  from_persisted-values :
      (window : F) (next_seq : ℕ) (m : BTreeMap F (Superevent F C))
      → Ascending L 0 m
      → All (λ e. e.1.t_0 ≡ e.0) m
      → from_persisted window (values m) next_seq ≡ record {
        window_duration = window;
        superevents = m;
        times = map_values (λ s. s.id) m;
        next_seq = next_seq;
      }
  unfolding from_persisted new
  from_persisted-values window next_seq m a t =
      ap (λ (c : SupereventCreator F C). record c { next_seq = next_seq })
        (restore-Ascending 0 m (new window) tt tt a t)

  -- The identifiers that a well-formed creator holds carry numbers below the next one.
  Issued-Numbered :
      (n : ℕ) (m : BTreeMap F (Superevent F C))
      → n < 2 ^ 64
      → All (λ e. Issued n e.1) m
      → All (Numbered n) (ids (values m))
  Issued-Numbered n [] room h = tt
  Issued-Numbered n ((k, s) ∷ m) room h =
      let (j, e, p) = h.0 in
      ((j, ap id_seq e ∙ id_seq-format_id j (omega arith), p), Issued-Numbered n m room h.1)

  -- What a recovered creator has of the one that was stored.
  pub record Recovers (c c' : SupereventCreator F C) : Type 0 where
    pub superevents : c'.superevents ≡ c.superevents
    pub times : c'.times ≡ c.times
    pub window : c'.window_duration ≡ c.window_duration
    pub next_seq : c'.next_seq ≡ next_seq_from_ids (ids (values c.superevents))
    pub no_later : c'.next_seq ≤ c.next_seq
    pub well_formed : WellFormed L c'

  rebuilt : SupereventCreator F C → SupereventCreator F C
  rebuilt c = record c {
    times = map_values (λ s. s.id) c.superevents;
    next_seq = next_seq_from_ids (ids (values c.superevents));
  }

  Issued-again :
      (n k : ℕ) (m : BTreeMap F (Superevent F C))
      → All (λ e. Issued n e.1) m
      → All (Numbered k) (ids (values m))
      → n < 2 ^ 64
      → All (λ e. Issued k e.1) m
  Issued-again n k [] h p room = tt
  Issued-again n k ((t, s) ∷ m) h p room =
      let (i, e, q) = h.0 in
      let (j, f, r) = p.0 in
      let same : i ≡ j = some_inj i j (sym (ap id_seq e ∙ id_seq-format_id i (omega arith)) ∙ f) in
      ((i, e, omega arith), Issued-again n k m h.1 p.1 room)

  rebuilt-Recovers : (c : SupereventCreator F C) → WellFormed L c → Recovers c (rebuilt c)
  unfolding rebuilt
  rebuilt-Recovers c w =
      let numbered = Issued-Numbered c.next_seq c.superevents w.room w.issued in
      let le = next_seq_from_ids-le c.next_seq (ids (values c.superevents)) w.room numbered in
      record {
        superevents = refl;
        times = sym w.index;
        window = refl;
        next_seq = refl;
        no_later = le;
        well_formed = record {
          index = refl;
          ascending = w.ascending;
          centred = w.centred;
          apart = w.apart;
          best = w.best;
          issued =
              Issued-again c.next_seq (next_seq_from_ids (ids (values c.superevents))) c.superevents
                w.issued
                (next_seq_from_ids-Numbered c.next_seq (ids (values c.superevents)) w.room numbered)
                w.room;
          distinct = w.distinct;
          room = omega arith;
          wide = w.wide;
        };
      }

  above_head :
      (json : Json F C) {server : Server F} (S : ServerLaws server) (prefix : Bytes) (k : F)
      (s : Superevent F C) (m : BTreeMap F (Superevent F C))
      → s.t_0 ≡ k
      → Ascending L (suc (rank k)) m
      → All (λ e. e.1.t_0 ≡ e.0) m
      → All (DistinctIds (k, s)) m
      → All (Later json S prefix s) (values m)
  above_head json S prefix k s [] e a t d = tt
  above_head json S prefix k s ((j, u) ∷ m) e a t d = (
    (
      distinct_bytes s.id u.id d.0,
      lt_of_rank L s.t_0 u.t_0 (omega (arith, a.0, ap rank e, ap rank t.0)),
    ),
    above_head json S prefix k s m e
        (Ascending-mono L (suc (rank k)) (suc (rank j)) m (omega (arith, a.0)) a.1) t.1 d.1,
  )

  -- The superevents of a well-formed creator, in the order of their keys.
  Later-values :
      (json : Json F C) {server : Server F} (S : ServerLaws server) (prefix : Bytes) (n : ℕ)
      (m : BTreeMap F (Superevent F C))
      → Ascending L n m
      → All (λ e. e.1.t_0 ≡ e.0) m
      → Pairs DistinctIds m
      → Pairs (Later json S prefix) (values m)
  Later-values json S prefix n [] a t d = tt
  Later-values json S prefix n ((k, s) ∷ m) a t d = (
    above_head json S prefix k s m t.0 a.1 t.1 d.0,
    Later-values json S prefix (suc (rank k)) m a.1 t.1 d.1,
  )

  recovered :
      (json : Json F C) (redis : Answers F) (prefix : Bytes) (window : F)
      (ss : List (Superevent F C))
      → redis.zrange_withscores (index_key prefix) ≡ some (entries ss)
      → load_all json redis prefix (entries ss) ≡ some ss
      → load_from_redis json redis prefix (some window)
        ≡ some (from_persisted window ss (next_seq_from_ids (ids ss)))
  unfolding load_from_redis
  recovered json redis prefix window ss index loaded =
      rw (index, load_from_redis) (rw (loaded, load_from_redis) refl)

  module _ (json : Json F C) {server : Server F} (S : ServerLaws server) (prefix : Bytes) where
    pipeline_shape :
        (c : SupereventCreator F C) (pipeline : List (RedisCommand F))
        → save_to_redis json prefix c ≡ some pipeline
        → (commands : List (RedisCommand F)) × (store_all json prefix (values c.superevents)
            ≡ some commands)
          × (pipeline ≡ del (open_key prefix) ∷ del (index_key prefix) ∷ commands)
    unfolding save_to_redis
    pipeline_shape c pipeline h =
        elim (Option-cases (store_all json prefix (values c.superevents))) [
          | inl e ↦ ground arith
          | inr (commands, e) ↦ (commands, e, ground arith)
        ]

    centres :
        (half : F) (m : BTreeMap F (Superevent F C))
        → All (IsCentred L half) m
        → All (λ e. e.1.t_0 ≡ e.0) m
    centres half m h = All-map (IsCentred L half) (λ e. e.1.t_0 ≡ e.0) (λ e p. p.0) m h

    -- For floats that meet FloatLaws: if a well-formed creator is saved, every superevent
    -- survives its encoding, and Redis meets ServerLaws, then after a server has executed the
    -- pipeline, whatever it held before under any key, a restart with the same window returns a
    -- creator with the same superevents and the same index, whose sequence number is the one
    -- recovered from their identifiers and no later than the old one, and which is well formed.
    pub load-save :
        (c : SupereventCreator F C) (pipeline : List (RedisCommand F)) (db : server.Db)
        → WellFormed L c
        → RoundTrips json (values c.superevents)
        → save_to_redis json prefix c ≡ some pipeline
        → (c' : SupereventCreator F C) × (load_from_redis json
              (answers_of server (execute server pipeline db))
              prefix
              (some c.window_duration)
            ≡ some c')
          × Recovers c c'
    unfolding load_from_redis rebuilt
    load-save c pipeline db w good saved =
        let (commands, stored, shape) = pipeline_shape c pipeline saved in
        let all = values c.superevents in
        let centred = centres (half_of c.window_duration) c.superevents w.centred in
        let full = execute server pipeline db in
        let redis = answers_of server full in
        let ready =
          subst
            (λ p.
              Ready json S prefix (entries all) (execute server p db)
              × All (Encoded json S prefix (execute server p db)) all)
            (sym shape)
            (execute-Ready json S prefix [] all commands _ stored (deleted json S prefix db)
              (After-none json S prefix all)
              (Later-values json S prefix 0 c.superevents w.ascending centred w.distinct)) in
        let index : redis.zrange_withscores (index_key prefix) ≡ some (entries all) =
          ap some ready.0.index in
        let loaded = load_all_stored json redis prefix all good (
          All-map (Encoded json S prefix full) (Holds json redis prefix)
            (λ s x. (x.0, x.1, ap some x.2)) all ready.1) in
        (
          rebuilt c,
          recovered json redis prefix c.window_duration all index loaded
              ∙ ap some (
                  from_persisted-values c.window_duration (next_seq_from_ids (ids all))
                    c.superevents w.ascending centred),
          rebuilt-Recovers c w,
        )
