-- ===== src/Auth/Keys.antt =====
-- `JwksCache` of src/auth.rs: the signing keys of the issuers, fetched over the network.
use boom_gw.Base.{
  ℕ, ◌+◌, ◌-◌, ◌*◌, Bool, true, false, List, [], ◌∷◌, Option, none, some, Bytes, ltb, if◌then◌else◌,
}
use boom_gw.Base.HashMap.{HashMap, lookup, put}
use boom_gw.Auth.Config.{Jsonwebtoken}

pub record Jwk : Type 0 where
  pub kid : Option Bytes
  pub n : Option Bytes
  pub e : Option Bytes

-- What the code reads from outside at a turn: the clock, in nanoseconds since the epoch, and the
-- key set of an issuer, found through its discovery document; `none` is any of the errors.
pub record Net : Type 0 where
  pub clock : ℕ → ℕ
  pub fetch : ℕ → Bytes → Option (List Jwk)

module _ (lib : Jsonwebtoken) where
  pub record JwksEntry : Type 0 where
    pub keys : HashMap lib.Key
    pub fetched_at : ℕ

  -- The cache, the turn, and the issuers whose keys were asked for, newest first.
  pub record Jwks : Type 0 where
    pub cache : HashMap JwksEntry
    pub turn : ℕ
    pub asked : List Bytes

  -- The key of one member of a set, if it is complete and well formed.
  abbrev pub key_of_jwk : Jwk → Option (Bytes × lib.Key)
  key_of_jwk jwk = elim jwk.kid [
    | none ↦ none
    | some kid ↦ elim jwk.n [
      | none ↦ none
      | some n ↦ elim jwk.e [
        | none ↦ none
        | some e ↦ elim (lib.from_rsa_components n e) [ none ↦ none | some key ↦ some (kid, key) ]
      ]
    ]
  ]

  unfoldable pub keys_of : HashMap lib.Key → List Jwk → HashMap lib.Key
  unfolding put
  keys_of keys [] = keys
  keys_of keys (jwk ∷ jwks) = elim (key_of_jwk jwk) [
    | none ↦ keys_of keys jwks
    | some (kid, key) ↦ keys_of (put kid key keys) jwks
  ]

  -- The only key of a set of one.
  abbrev pub single : HashMap lib.Key → Option lib.Key
  single ((kid, key) ∷ []) = some key
  single _ = none

  unfoldable pub get : Bytes → Option Bytes → HashMap JwksEntry → Option lib.Key
  unfolding lookup
  get issuer kid cache = elim (lookup issuer cache) [
    | none ↦ none
    | some entry ↦ elim kid [ none ↦ single entry.keys | some k ↦ lookup k entry.keys ]
  ]

  -- Older than an hour, or from the future.
  abbrev pub is_old : ℕ → ℕ → Bool
  is_old now fetched_at =
      if ltb now fetched_at then true else ltb (3600 * 1000000000) (now - fetched_at)

  module _ (net : Net) where
    unfoldable pub is_stale : Bytes → Jwks → Bool
    unfolding lookup
    is_stale issuer s = elim (lookup issuer s.cache) [
      | none ↦ true
      | some entry ↦ is_old (net.clock s.turn) entry.fetched_at
    ]

    -- `false` is an error, which leaves the cache.
    unfoldable pub refresh : Bytes → Jwks → Jwks × Bool
    unfolding put keys_of
    refresh issuer s =
        let s' : Jwks = record s { turn = s.turn + 1; asked = issuer ∷ s.asked } in
        elim (net.fetch s.turn issuer) [
          | none ↦ (s', false)
          | some jwks ↦
              let entry : JwksEntry = record {
                keys = keys_of [] jwks;
                fetched_at = net.clock (s.turn + 1);
              } in
              (record s' { cache = put issuer entry s.cache }, true)
        ]

    -- The first error ends it.
    unfoldable pub warm : List Bytes → Jwks → Jwks × Bool
    unfolding refresh
    warm [] s = (s, true)
    warm (iss ∷ issuers) s =
        let (s', fetched) = refresh iss s in
        elim fetched [ false ↦ (s', false) | true ↦ warm issuers s' ]

    -- The key is added to the entry of the issuer, which is made if there is none.
    unfoldable pub insert_test_key : Bytes → Bytes → lib.Key → Jwks → Jwks
    unfolding put lookup
    insert_test_key issuer kid key s = elim (lookup issuer s.cache) [
      | none ↦ record s {
        cache =
            put issuer (record { keys = put kid key []; fetched_at = net.clock s.turn }) s.cache;
      }
      | some entry ↦ record s {
        cache = put issuer (record entry { keys = put kid key entry.keys }) s.cache;
      }
    ]
