-- ===== src/Session/Claims.antt =====
-- The claims of a session token, and the JWT library (jsonwebtoken, HS256) as a parameter.
use boom_gw.Base.{ℕ, ◌≡◌, ◌≤◌, ◌<◌, ◌^◌, Option, some, Bytes}

pub record SessionClaims : Type 0 where
  pub iss : Bytes
  pub sub : Bytes
  pub scope : Bytes
  pub exp : ℕ
  pub iat : ℕ
  pub upstream_iss : Bytes

pub data Decoded : Type 0 where
  claims : SessionClaims → Decoded
  expired_signature other_error : Decoded

-- `decode` is told the issuer that it requires, the secret and the clock.
pub record Jwt : Type 1 where
  pub Token : Type 0
  pub encode : Bytes → SessionClaims → Option Token
  pub decode : Bytes → Bytes → ℕ → Token → Decoded

-- A token that was signed with the same secret for the required issuer is accepted until it
-- expires.
pub record JwtLaws (lib : Jwt) : Type 0 where
  pub decode-encode :
      (issuer secret : Bytes) (now : ℕ) (c : SessionClaims) (token : lib.Token)
      → lib.encode secret c ≡ some token
      → c.iss ≡ issuer
      → now ≤ c.exp
      → c.exp < 2 ^ 63
      → lib.decode issuer secret now token ≡ Decoded.claims c
