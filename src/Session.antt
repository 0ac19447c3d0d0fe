-- ===== src/Session.antt =====
-- src/session.rs: the session cookie, and `Principal` of src/auth.rs.
-- The JWT library is a parameter (Session/Claims); a time is a number of seconds, and an `i64` is its
-- pattern of 64 bits.
pub mod Text
pub mod Claims
pub mod Cookies
pub mod RoundTrip
mod Examples
use boom_gw.Base.{
  ℕ, ◌+◌, ◌%◌, ◌^◌, Bool, true, List, Option, none, some, Bytes, codes, bytes_eq, if◌then◌else◌,
}
use Text.{join, split_ascii_whitespace}
use Claims.{Jwt, SessionClaims, Decoded}

-- `Principal` of src/auth.rs
pub record Principal : Type 0 where
  pub sub : Bytes
  pub iss : Bytes
  pub scopes : List Bytes

pub record SessionConfig : Type 0 where
  pub secret : Bytes
  pub max_age : ℕ
  pub secure : Bool

pub data SessionError : Type 0 where
  jwt expired : SessionError
  bad_issuer : Bytes → SessionError

pub data Verified (A : Type 0) : Type 0 where
  ok : A → Verified A
  err : SessionError → Verified A

abbrev pub session_issuer : Bytes
session_issuer = codes "boom-gw/session"

unfoldable pub claims_of : ℕ → SessionConfig → Principal → SessionClaims
claims_of now config principal = record {
  iss = session_issuer;
  sub = principal.sub;
  scope = join principal.scopes;
  exp = (now + config.max_age) % 2 ^ 64;
  iat = now;
  upstream_iss = principal.iss;
}

unfoldable pub principal_of : SessionClaims → Principal
principal_of claims = record {
  sub = claims.sub;
  iss = claims.upstream_iss;
  scopes = split_ascii_whitespace claims.scope;
}

module _ (lib : Jwt) where
  -- `now` is the system clock.
  unfoldable pub mint_session : ℕ → SessionConfig → Principal → Verified lib.Token
  unfolding claims_of
  mint_session now config principal =
      elim (lib.encode config.secret (claims_of now config principal)) [
        | none ↦ err jwt
        | some token ↦ ok token
      ]

  unfoldable pub verify_session : ℕ → SessionConfig → lib.Token → Verified Principal
  unfolding principal_of
  verify_session now config token = elim (lib.decode session_issuer config.secret now token) [
    | Decoded.expired_signature ↦ err expired
    | Decoded.other_error ↦ err jwt
    | Decoded.claims c ↦
        if bytes_eq c.iss session_issuer then ok (principal_of c) else err (bad_issuer c.iss)
  ]
