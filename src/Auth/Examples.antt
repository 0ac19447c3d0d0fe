-- ===== src/Auth/Examples.antt =====
-- Tokens and requests for src/auth.rs.
use boom_gw.Base.{
  ℕ, ◌*◌, ◌==◌, ◌≡◌, refl, ◌⊎◌, inl, true, false, [], ◌∷◌, Option, none, some, Bytes, codes,
  bytes_eq,
}
use boom_gw.Base.HashMap.{lookup}
use boom_gw.Session.{Principal}
use boom_gw.Session.Claims.{Jwt, Decoded}
use boom_gw.Session.Text.{split_ascii_whitespace, words, is_ascii_whitespace}
use boom_gw.Auth.Config.{Jsonwebtoken, AuthConfig, Claims, pos, one, contains, overlaps}
use boom_gw.Auth.Keys.{Net, Jwks, get, keys_of}
use boom_gw.Auth.Validate.{accepted, aud_of, scopes_of, principal_for, validate_token}
use boom_gw.Auth.Accepted.{AreCurrent, IsTrusted, validate_token-IsTrusted}
use boom_gw.Auth.Refreshes.{Asked, Asked-validate_token}
use boom_gw.Auth.Rotation.{Publishes, validate_token-Publishes}
use boom_gw.Auth.Middleware.{auth_middleware, Request, AppData}
use boom_gw.Auth.Passing.{
  auth_middleware-next, HasBearer, HasSession, auth_middleware-HasNothing, HasNothing,
}

abbrev issuer : Bytes
issuer = codes "https://cilogon.org/igwn"

abbrev config : AuthConfig
config = record {
  issuers = issuer ∷ [];
  audiences = codes "ANY" ∷ [];
  required_scope = codes "r";
  alert_publishers = [];
  site_admins = [];
  dev_mode = false;
}

abbrev claims : Claims
claims = record {
  iss = issuer;
  sub = some (codes "m");
  aud = some (one (codes "ANY"));
  scope = some (codes "r");
  exp = pos 2000;
  nbf = none;
}

-- Every token carries these claims, and key 7 verifies it.
abbrev lib : Jsonwebtoken
lib = record {
  Key = ℕ;
  Alg = Unit {0};
  decode_header = λ token. some (tt, some (codes "k"));
  decode_claims = λ alg token. some claims;
  verify = λ alg key token. key == 7;
  from_rsa_components = λ n e. some 7;
}

-- The issuer publishes one key; 1000 seconds have passed since the epoch.
abbrev net : Net
net = record {
  clock = λ turn. 1000 * 1000000000;
  fetch = λ turn iss. some (record { kid = some (codes "k"); n = some []; e = some [] } ∷ []);
}

abbrev cold : Jwks lib
cold = record { cache = []; turn = 0; asked = [] }

abbrev principal : Principal
principal = record { sub = codes "m"; iss = issuer; scopes = codes "r" ∷ [] }

abbrev warmed : Jwks lib
warmed = (validate_token lib net (codes "T") config cold).1

AreCurrent-claims : AreCurrent (pos 1000) config claims
unfolding contains overlaps aud_of scopes_of split_ascii_whitespace words is_ascii_whitespace
    principal_for bytes_eq
AreCurrent-claims = record {
  issuer = refl;
  audience = refl;
  unexpired = refl;
  started = refl;
  scope = refl;
}

Publishes-net : Publishes lib net issuer (codes "k") 7
unfolding keys_of lookup bytes_eq
Publishes-net turn = (_, refl, refl)

validate_token-IsTrusted_example : IsTrusted lib net (codes "T") config (pos 1000) warmed principal
unfolding validate_token bytes_eq words is_ascii_whitespace principal_for
validate_token-IsTrusted_example =
    validate_token-IsTrusted lib net (codes "T") config cold warmed principal refl

Asked-validate_token_example :
    Asked lib net (λ iss. contains config.issuers iss ≡ true) 2 cold warmed
Asked-validate_token_example = Asked-validate_token lib net (codes "T") config cold

validate_token-Publishes_example :
    (validate_token lib net (codes "T") config cold).0
    ≡ accepted (principal_for claims (scopes_of claims))
unfolding get
validate_token-Publishes_example =
    validate_token-Publishes lib net (codes "T") config cold tt (codes "k") claims 7 refl refl
      AreCurrent-claims Publishes-net (inl refl) refl

-- A session library that accepts nothing.
abbrev sessions : Jwt
sessions = record {
  Token = Bytes;
  encode = λ secret c. none;
  decode = λ iss secret now token. Decoded.other_error;
}

abbrev request : Option Bytes → Request sessions
request header = record { header = header; cookie = none }

abbrev app : AppData
app = record { auth = some config; session = none }

auth_middleware-next_example :
    HasBearer lib net sessions app (request (some (codes "Bearer T "))) cold warmed principal
    ⊎ HasSession lib net sessions 0 app (request (some (codes "Bearer T "))) principal
unfolding auth_middleware bytes_eq words is_ascii_whitespace principal_for
auth_middleware-next_example =
    auth_middleware-next lib net sessions 0 app (request (some (codes "Bearer T "))) cold warmed
      principal refl

auth_middleware-HasNothing_example : HasNothing lib net sessions app (request none)
unfolding auth_middleware
auth_middleware-HasNothing_example =
    auth_middleware-HasNothing lib net sessions 0 app (request none) cold cold refl
