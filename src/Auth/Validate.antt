-- ===== src/Auth/Validate.antt =====
-- `validate_token` of src/auth.rs.
use boom_gw.Base.{◌/◌, Bool, true, false, not, List, [], Option, none, some, Bytes, codes}
use boom_gw.Session.{Principal}
use boom_gw.Session.Text.{split_ascii_whitespace}
use boom_gw.Auth.Config.{
  Jsonwebtoken, AuthConfig, AuthError, Claims, ℤ, as_i64, lt_z, into_vec, contains, overlaps,
  decode, unknown_issuer, audience_mismatch, missing_scope, expired, not_yet_valid, no_key, jwks,
}
use boom_gw.Auth.Keys.{Net, Jwks, get, is_stale, refresh}

-- `Result<A, AuthError>`
pub data Checked (A : Type 0) : Type 0 where
  accepted : A → Checked A
  rejected : AuthError → Checked A

-- An early return of the error unless the test holds.
abbrev pub require : {A : Type 0} → Bool → AuthError → Checked A → Checked A
require true e rest = rest
require false e rest = rejected e

unfoldable pub has_scope : Principal → Bytes → Bool
unfolding contains
has_scope p scope = contains p.scopes scope

unfoldable pub aud_of : Claims → List Bytes
unfolding into_vec
aud_of c = elim c.aud [ none ↦ [] | some a ↦ into_vec a ]

unfoldable pub scopes_of : Claims → List Bytes
unfolding split_ascii_whitespace
scopes_of c = split_ascii_whitespace (elim c.scope [ none ↦ [] | some s ↦ s ])

abbrev pub starts_later : Option ℤ → ℤ → Bool
starts_later none now = false
starts_later (some nbf) now = lt_z now nbf

-- The checks of the claims, in their order; the result is the scopes.
unfoldable pub check_claims : ℤ → AuthConfig → Claims → Checked (List Bytes)
unfolding contains overlaps aud_of scopes_of
check_claims now config c = require (contains config.issuers c.iss) (unknown_issuer c.iss) (
    require (overlaps (aud_of c) config.audiences) (audience_mismatch (aud_of c) config.audiences) (
      require (not (lt_z c.exp now)) expired (
        require (not (starts_later c.nbf now)) not_yet_valid (
          require (contains (scopes_of c) config.required_scope)
            (missing_scope config.required_scope (scopes_of c)) (accepted (scopes_of c))))))

unfoldable pub principal_for : Claims → List Bytes → Principal
principal_for c scopes = record {
  sub = elim c.sub [ none ↦ codes "anonymous" | some sub ↦ sub ];
  iss = c.iss;
  scopes = scopes;
}

module _ (lib : Jsonwebtoken) (net : Net) where
  -- A stale entry is refreshed; whether that succeeds is ignored.
  abbrev pub freshen : Bytes → Jwks lib → Jwks lib
  freshen issuer s = elim (is_stale lib net issuer s) [
    | false ↦ s
    | true ↦ (refresh lib net issuer s).0
  ]

  -- A key that is missing is looked up again after one refresh.
  abbrev pub retry : Bytes → Option Bytes → Jwks lib × Bool → Checked lib.Key × Jwks lib
  retry issuer kid (s, false) = (rejected (jwks issuer), s)
  retry issuer kid (s, true) = elim (get lib issuer kid s.cache) [
    | none ↦ (rejected (no_key kid), s)
    | some key ↦ (accepted key, s)
  ]

  unfoldable pub signing_key : Bytes → Option Bytes → Jwks lib → Checked lib.Key × Jwks lib
  unfolding is_stale refresh get
  signing_key issuer kid s =
      let s' = freshen issuer s in
      elim (get lib issuer kid s'.cache) [
        | some key ↦ (accepted key, s')
        | none ↦ retry issuer kid (refresh lib net issuer s')
      ]

  abbrev pub check_signature :
      lib.Alg → Bytes → Principal → Checked lib.Key × Jwks lib → Checked Principal × Jwks lib
  check_signature alg token p (rejected e, s) = (rejected e, s)
  check_signature alg token p (accepted key, s) =
      (require (lib.verify alg key token) decode (accepted p), s)

  -- The claims were accepted with these scopes.
  abbrev pub authenticate :
      Bool
      → lib.Alg × Option Bytes
      → Bytes
      → Claims
      → Checked (List Bytes)
      → Jwks lib
      → Checked Principal × Jwks lib
  authenticate dev_mode header token c (rejected e) s = (rejected e, s)
  authenticate true header token c (accepted scopes) s = (accepted (principal_for c scopes), s)
  authenticate false (alg, kid) token c (accepted scopes) s =
      check_signature alg token (principal_for c scopes) (signing_key c.iss kid s)

  unfoldable pub validate_token : Bytes → AuthConfig → Jwks lib → Checked Principal × Jwks lib
  unfolding check_claims signing_key
  validate_token token config s = elim (lib.decode_header token) [
    | none ↦ (rejected decode, s)
    | some (alg, kid) ↦ elim (lib.decode_claims alg token) [
      | none ↦ (rejected decode, s)
      | some c ↦
          let now = as_i64 (net.clock s.turn / 1000000000) in
          authenticate config.dev_mode (alg, kid) token c (check_claims now config c) s
    ]
  ]
