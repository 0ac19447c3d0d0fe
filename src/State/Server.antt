-- ===== src/State/Server.antt =====
-- A Redis server, as the clusterer uses it: what the commands of src/state.rs do to its keys.
use boom_gw.Base.{
  ◌≡◌, refl, ◌∙◌, ap, Bool, true, false, List, [], ◌∷◌, ◌++◌, Option, none, some, Bytes, bytes_eq,
  bytes_eq_refl, All, if◌then◌else◌,
}
use boom_gw.Base.Floats.{Float, lt_f}
use boom_gw.Base.HashMap.{HashMap, lookup, put, lookup-put, lookup-put_other}
use boom_gw.State.{RedisCommand, del, hset, zadd, Answers}

abbrev pub key_of : {F : Type 0} → RedisCommand F → Bytes
key_of (del key) = key
key_of (hset key field value) = key
key_of (zadd key member score) = key

-- The state, what a command makes of it, and what it answers: a field of a hash, the members of a
-- sorted set, and whether the type of a key lets it be used as a hash or as a sorted set.
pub record Server (F : Type 0) : Type 1 where
  pub Db : Type 0
  pub run : RedisCommand F → Db → Db
  pub hget : Bytes → Bytes → Db → Option Bytes
  pub zrange : Bytes → Db → List (Bytes × F)
  pub takes_hash : Bytes → Db → Bool
  pub takes_zset : Bytes → Db → Bool

module _ {F : Type 0} (server : Server F) where
  -- Two states that answer alike at a key.
  pub record SameAt (key : Bytes) (a b : server.Db) : Type 0 where
    pub hget : (field : Bytes) → server.hget key field a ≡ server.hget key field b
    pub zrange : server.zrange key a ≡ server.zrange key b
    pub takes_hash : server.takes_hash key a ≡ server.takes_hash key b
    pub takes_zset : server.takes_zset key a ≡ server.takes_zset key b

  -- The commands run one after another.
  abbrev pub execute : List (RedisCommand F) → server.Db → server.Db
  execute [] db = db
  execute (c ∷ commands) db = execute commands (server.run c db)

  -- The answers of a server that can be reached.
  abbrev pub answers_of : server.Db → Answers F
  answers_of db = record {
    zrange_withscores = λ key. some (server.zrange key db);
    hget = λ key field. some (server.hget key field db);
  }

-- What the documentation of Redis says of the commands. A command concerns its key alone; DEL
-- leaves no key; HSET sets its field alone; and ZADD puts a new member of the highest score last.
pub record ServerLaws {F : Type 0} ⦃fl : Float F⦄ (server : Server F) : Type 0 where
  pub elsewhere :
      (c : RedisCommand F) (key : Bytes) (db : server.Db)
      → bytes_eq (key_of c) key ≡ false
      → SameAt server key (server.run c db) db
  pub del_hash :
      (key : Bytes) (db : server.Db) → server.takes_hash key (server.run (del key) db) ≡ true
  pub del_zset :
      (key : Bytes) (db : server.Db) → server.takes_zset key (server.run (del key) db) ≡ true
  pub del_zrange : (key : Bytes) (db : server.Db) → server.zrange key (server.run (del key) db) ≡ []
  pub del_hget :
      (key field : Bytes) (db : server.Db) → server.hget key field (server.run (del key) db) ≡ none
  pub hset_hash :
      (key field value : Bytes) (db : server.Db)
      → server.takes_hash key db ≡ true
      → server.takes_hash key (server.run (hset key field value) db) ≡ true
  pub hset_hget :
      (key field value : Bytes) (db : server.Db)
      → server.takes_hash key db ≡ true
      → server.hget key field (server.run (hset key field value) db) ≡ some value
  pub hset_other :
      (key field value other : Bytes) (db : server.Db)
      → bytes_eq field other ≡ false
      → server.hget key other (server.run (hset key field value) db) ≡ server.hget key other db
  pub zadd_zset :
      (key member : Bytes) (score : F) (db : server.Db)
      → server.takes_zset key db ≡ true
      → server.takes_zset key (server.run (zadd key member score) db) ≡ true
  pub zadd_last :
      (key member : Bytes) (score : F) (db : server.Db)
      → server.takes_zset key db ≡ true
      → All (λ e. (bytes_eq e.0 member ≡ false) × (lt_f e.1 score ≡ true)) (server.zrange key db)
      → server.zrange key (server.run (zadd key member score) db)
        ≡ server.zrange key db ++ (member, score) ∷ []

-- A server in memory.
pub data Slot (F : Type 0) : Type 0 where
  vacant : Slot F
  hash : HashMap Bytes → Slot F
  zset : List (Bytes × F) → Slot F

abbrev pub zput : {F : Type 0} ⦃fl : Float F⦄ → Bytes → F → List (Bytes × F) → List (Bytes × F)
zput member score [] = (member, score) ∷ []
zput member score ((m, s) ∷ es) =
    if lt_f s score then (m, s) ∷ zput member score es else (member, score) ∷ (m, s) ∷ es

-- A command on a key of another type is an error and changes nothing.
abbrev pub change : {F : Type 0} ⦃fl : Float F⦄ → RedisCommand F → Slot F → Slot F
change (del key) s = vacant
change (hset key field value) vacant = hash (put field value [])
change (hset key field value) (hash m) = hash (put field value m)
change (hset key field value) (zset es) = zset es
change (zadd key member score) vacant = zset (zput member score [])
change (zadd key member score) (zset es) = zset (zput member score es)
change (zadd key member score) (hash m) = hash m

abbrev pub field_of : {F : Type 0} → Bytes → Slot F → Option Bytes
field_of field (hash m) = lookup field m
field_of field _ = none

abbrev pub members_of : {F : Type 0} → Slot F → List (Bytes × F)
members_of (zset es) = es
members_of _ = []

abbrev pub may_hash : {F : Type 0} → Slot F → Bool
may_hash (zset es) = false
may_hash _ = true

abbrev pub may_zset : {F : Type 0} → Slot F → Bool
may_zset (hash m) = false
may_zset _ = true

abbrev pub run_at : {F : Type 0} ⦃fl : Float F⦄ → RedisCommand F → (Bytes → Slot F) → Bytes → Slot F
run_at c db key = if bytes_eq (key_of c) key then change c (db key) else db key

abbrev pub in_memory : {F : Type 0} ⦃fl : Float F⦄ → Server F
in_memory {F} = record {
  Db = Bytes → Slot F;
  run = run_at;
  hget = λ key field db. field_of field (db key);
  zrange = λ key db. members_of (db key);
  takes_hash = λ key db. may_hash (db key);
  takes_zset = λ key db. may_zset (db key);
}

module _ {F : Type 0} ⦃fl : Float F⦄ where
  zput_last :
      (member : Bytes) (score : F) (es : List (Bytes × F))
      → All (λ e. (bytes_eq e.0 member ≡ false) × (lt_f e.1 score ≡ true)) es
      → zput member score es ≡ es ++ (member, score) ∷ []
  zput_last member score [] h = refl
  zput_last member score ((m, s) ∷ es) h =
      rw (h.0.1, zput) (ap (λ r. (m, s) ∷ r) (zput_last member score es h.1))

  -- At its own key.
  at_key :
      (c : RedisCommand F) (db : Bytes → Slot F) → run_at c db (key_of c) ≡ change c (db (key_of c))
  at_key c db = rw (bytes_eq_refl (key_of c), run_at) refl

  off_key :
      (c : RedisCommand F) (key : Bytes) (db : Bytes → Slot F)
      → bytes_eq (key_of c) key ≡ false
      → run_at c db key ≡ db key
  off_key c key db h = rw (h, run_at) refl

  hash_lem :
      (field value : Bytes) (s : Slot F)
      → may_hash s ≡ true
      → (field_of field (change (hset [] field value) s) ≡ some value)
        × (may_hash (change (hset [] field value) s) ≡ true)
  hash_lem field value vacant h = (lookup-put field value [], refl)
  hash_lem field value (hash m) h = (lookup-put field value m, refl)
  hash_lem field value (zset es) h = absurd (cc h)

  hash_other :
      (field value other : Bytes) (s : Slot F)
      → bytes_eq field other ≡ false
      → field_of other (change (hset [] field value) s) ≡ field_of other s
  unfolding lookup
  hash_other field value other vacant h = lookup-put_other other field value [] h
  hash_other field value other (hash m) h = lookup-put_other other field value m h
  hash_other field value other (zset es) h = refl

  zset_lem :
      (member : Bytes) (score : F) (s : Slot F)
      → may_zset s ≡ true
      → may_zset (change (zadd [] member score) s) ≡ true
  zset_lem member score vacant h = refl
  zset_lem member score (zset es) h = refl
  zset_lem member score (hash m) h = absurd (cc h)

  zset_last :
      (member : Bytes) (score : F) (s : Slot F)
      → may_zset s ≡ true
      → All (λ e. (bytes_eq e.0 member ≡ false) × (lt_f e.1 score ≡ true)) (members_of s)
      → members_of (change (zadd [] member score) s) ≡ members_of s ++ (member, score) ∷ []
  zset_last member score vacant h a = refl
  zset_last member score (zset es) h a = zput_last member score es a
  zset_last member score (hash m) h a = absurd (cc h)

  pub in_memory_laws : ServerLaws (in_memory {F = F})
  in_memory_laws = record {
    elsewhere = λ c key db h. record {
      hget = λ field. ap (field_of field) (off_key c key db h);
      zrange = ap members_of (off_key c key db h);
      takes_hash = ap may_hash (off_key c key db h);
      takes_zset = ap may_zset (off_key c key db h);
    };
    del_hash = λ key db. ap may_hash (at_key (del key) db);
    del_zset = λ key db. ap may_zset (at_key (del key) db);
    del_zrange = λ key db. ap members_of (at_key (del key) db);
    del_hget = λ key field db. ap (field_of field) (at_key (del key) db);
    hset_hash = λ key field value db h.
        ap may_hash (at_key (hset key field value) db) ∙ (hash_lem field value (db key) h).1;
    hset_hget = λ key field value db h.
        ap (field_of field) (at_key (hset key field value) db)
        ∙ (hash_lem field value (db key) h).0;
    hset_other = λ key field value other db h.
        ap (field_of other) (at_key (hset key field value) db)
        ∙ hash_other field value other (db key) h;
    zadd_zset = λ key member score db h.
        ap may_zset (at_key (zadd key member score) db) ∙ zset_lem member score (db key) h;
    zadd_last = λ key member score db h a.
        ap members_of (at_key (zadd key member score) db) ∙ zset_last member score (db key) h a;
  }
