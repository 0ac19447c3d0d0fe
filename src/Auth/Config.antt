-- ===== src/Auth/Config.antt =====
-- The policy, the claims and the errors of src/auth.rs, and the JWT library (jsonwebtoken) as a
-- parameter.
use boom_gw.Base.{
  ℕ, ◌%◌, ◌^◌, ◌-◌, Bool, true, false, ◌||◌, List, [], ◌∷◌, Option, Bytes, codes, bytes_eq, ltb,
  if◌then◌else◌,
}

-- An `i64`; `negsuc n` is -(n + 1).
pub data ℤ : Type 0 where
  pos negsuc : ℕ → ℤ

abbrev pub lt_z : ℤ → ℤ → Bool
lt_z (pos a) (pos b) = ltb a b
lt_z (pos a) (negsuc b) = false
lt_z (negsuc a) (pos b) = true
lt_z (negsuc a) (negsuc b) = ltb b a

-- `n as i64` for a `u64`.
abbrev pub as_i64 : ℕ → ℤ
as_i64 n = if ltb (n % 2 ^ 64) (2 ^ 63) then pos (n % 2 ^ 64) else negsuc (2 ^ 64 - 1 - n % 2 ^ 64)

pub record AuthConfig : Type 0 where
  pub issuers : List Bytes
  pub audiences : List Bytes
  pub required_scope : Bytes
  pub alert_publishers : List Bytes
  pub site_admins : List Bytes
  pub dev_mode : Bool

unfoldable pub defaults : AuthConfig
defaults = record {
  issuers =
      codes "https://cilogon.org/igwn"
      ∷ codes "https://test.cilogon.org/igwn"
      ∷ codes "https://osdf.igwn.org/cit"
      ∷ [];
  audiences = codes "ANY" ∷ codes "boom-gw" ∷ [];
  required_scope = codes "gracedb.read";
  alert_publishers = [];
  site_admins = [];
  dev_mode = false;
}

-- The texts of the library's errors are left out.
pub data AuthError : Type 0 where
  missing decode expired not_yet_valid : AuthError
  malformed unknown_issuer jwks : Bytes → AuthError
  audience_mismatch : List Bytes → List Bytes → AuthError
  missing_scope : Bytes → List Bytes → AuthError
  no_key : Option Bytes → AuthError

pub data StringOrVec : Type 0 where
  one : Bytes → StringOrVec
  many : List Bytes → StringOrVec

unfoldable pub into_vec : StringOrVec → List Bytes
into_vec (one s) = s ∷ []
into_vec (many v) = v

pub record Claims : Type 0 where
  pub iss : Bytes
  pub sub : Option Bytes
  pub aud : Option StringOrVec
  pub scope : Option Bytes
  pub exp : ℤ
  pub nbf : Option ℤ

-- `decode_claims` is `decode` without the signature check; `verify` is `decode` with it, and with
-- the checks of times and audiences turned off. `none` and `false` are errors.
pub record Jsonwebtoken : Type 1 where
  pub Key : Type 0
  pub Alg : Type 0
  pub decode_header : Bytes → Option (Alg × Option Bytes)
  pub decode_claims : Alg → Bytes → Option Claims
  pub verify : Alg → Key → Bytes → Bool
  pub from_rsa_components : Bytes → Bytes → Option Key

-- `xs.iter().any(|x| x == y)`
unfoldable pub contains : List Bytes → Bytes → Bool
contains [] y = false
contains (x ∷ xs) y = bytes_eq x y || contains xs y

-- `ts.iter().any(|t| allowed.iter().any(|a| a == t))`
unfoldable pub overlaps : List Bytes → List Bytes → Bool
unfolding contains
overlaps [] allowed = false
overlaps (t ∷ ts) allowed = contains allowed t || overlaps ts allowed
