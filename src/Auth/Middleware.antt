-- ===== src/Auth/Middleware.antt =====
-- `auth_middleware` and the gates of the handlers (src/auth.rs).
use boom_gw.Base.{
  ℕ, ◌==◌, Bool, true, false, ◌||◌, List, [], ◌∷◌, Option, none, some, Bytes, codes, if◌then◌else◌,
}
use boom_gw.Session.{Principal, SessionConfig, SessionError, Verified, ok, err, verify_session}
use boom_gw.Session.Claims.{Jwt}
use boom_gw.Session.Text.{is_ascii_whitespace}
use boom_gw.Auth.Config.{Jsonwebtoken, AuthConfig, AuthError, contains}
use boom_gw.Auth.Keys.{Net, Jwks}
use boom_gw.Auth.Validate.{Checked, accepted, rejected, validate_token}

-- `s.strip_prefix(prefix)`
unfoldable pub strip_prefix : Bytes → Bytes → Option Bytes
strip_prefix [] s = some s
strip_prefix (p ∷ ps) [] = none
strip_prefix (p ∷ ps) (c ∷ s) = if p == c then strip_prefix ps s else none

unfoldable pub trim_start : Bytes → Bytes
trim_start [] = []
trim_start (c ∷ s) = let rest = trim_start s in if is_ascii_whitespace c then rest else c ∷ s

-- White space at the end goes: a character is kept if something is kept after it.
unfoldable pub trim_end : Bytes → Bytes
trim_end [] = []
trim_end (c ∷ s) = elim (trim_end s) [
  | [] ↦ if is_ascii_whitespace c then [] else c ∷ []
  | d ∷ rest ↦ c ∷ d ∷ rest
]

-- `trim`; a header that is a text has visible ASCII, blanks and tabs only.
unfoldable pub trim : Bytes → Bytes
unfolding trim_start trim_end
trim s = trim_end (trim_start s)

unfoldable pub bearer_of : Option Bytes → Option Bytes
unfolding strip_prefix trim
bearer_of none = none
bearer_of (some header) = elim (strip_prefix (codes "Bearer ") header) [
  | none ↦ none
  | some token ↦ some (trim token)
]

-- The request goes on, with or without a principal, or is answered with 401.
pub data Passage : Type 0 where
  next : Option Principal → Passage
  unauthorized_token : AuthError → Passage
  unauthorized_session : SessionError → Passage

-- `header` is the Authorization header, if it is a text; `cookie` the session cookie.
pub record Request (lib : Jwt) : Type 0 where
  pub header : Option Bytes
  pub cookie : Option lib.Token

-- The application data: `none` is data that was not registered.
pub record AppData : Type 0 where
  pub auth : Option AuthConfig
  pub session : Option SessionConfig

module _ (lib : Jsonwebtoken) (net : Net) (sessions : Jwt) where
  abbrev pub by_bearer : Checked Principal × Jwks lib → Passage × Jwks lib
  by_bearer (accepted p, s) = (next (some p), s)
  by_bearer (rejected e, s) = (unauthorized_token e, s)

  abbrev pub by_session : Verified Principal → Passage
  by_session (ok p) = next (some p)
  by_session (err e) = unauthorized_session e

  -- Without a bearer token.
  abbrev pub by_cookie : ℕ → Option SessionConfig → Option sessions.Token → Passage
  by_cookie now (some config) (some token) = by_session (verify_session sessions now config token)
  by_cookie now _ _ = next none

  -- `now` is the clock that the session is checked at.
  unfoldable pub auth_middleware : ℕ → AppData → Request sessions → Jwks lib → Passage × Jwks lib
  unfolding validate_token verify_session bearer_of
  auth_middleware now app request s = elim app.auth [
    | none ↦ (next none, s)
    | some config ↦ elim (bearer_of request.header) [
      | some token ↦ by_bearer (validate_token lib net token config s)
      | none ↦ (by_cookie now app.session request.cookie, s)
    ]
  ]

-- `true` is the answer 401.
unfoldable pub require_principal : Option Principal → Bool
require_principal none = true
require_principal (some p) = false

unfoldable pub stub_principal_middleware : Passage
stub_principal_middleware = next (
    some (record {
      sub = codes "integration-test@boom-gw";
      iss = codes "integration-test";
      scopes = codes "gracedb.read" ∷ [];
    }))

abbrev is_empty : List Bytes → Bool
is_empty [] = true
is_empty (x ∷ xs) = false

-- `true` is the answer 403.
unfoldable pub require_alert_publisher : Option Principal → AuthConfig → Bool
unfolding contains
require_alert_publisher principal config =
    let sub : Bytes = elim principal [ none ↦ [] | some p ↦ p.sub ] in
    if is_empty config.alert_publishers || contains config.alert_publishers sub then false else true
