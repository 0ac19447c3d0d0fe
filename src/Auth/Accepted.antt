-- ===== src/Auth/Accepted.antt =====
-- What an accepted token has passed (`validate_token` of src/auth.rs).
use boom_gw.Base.{
  ◌/◌, ◌≡◌, refl, ◌∙◌, ap, sym, subst, ◌⊎◌, inl, inr, Bool, true, false, not, List, Option, some,
  Bytes, Option-cases,
}
use boom_gw.Session.{Principal}
use boom_gw.Auth.Config.{
  Jsonwebtoken, AuthConfig, AuthError, decode, Claims, ℤ, as_i64, lt_z, contains, overlaps,
}
use boom_gw.Auth.Keys.{Net, Jwks, get, refresh}
use boom_gw.Auth.Validate.{
  Checked, accepted, rejected, require, aud_of, scopes_of, starts_later, check_claims,
  principal_for, freshen, retry, signing_key, check_signature, authenticate, validate_token,
}

require-accepted :
    {A : Type 0} (b : Bool) (e : AuthError) (rest : Checked A) (a : A)
    → require b e rest ≡ accepted a
    → (b ≡ true) × (rest ≡ accepted a)
require-accepted true e rest a h = (refl, h)
require-accepted false e rest a h = cc

pub accepted_inj : {A : Type 0} (a b : A) → accepted a ≡ accepted b → a ≡ b
accepted_inj a b h = cc

not-true : (b : Bool) → not b ≡ true → b ≡ false
not-true true h = cc
not-true false h = refl

-- Claims that pass every check at a time.
pub record AreCurrent (now : ℤ) (config : AuthConfig) (c : Claims) : Type 0 where
  pub issuer : contains config.issuers c.iss ≡ true
  pub audience : overlaps (aud_of c) config.audiences ≡ true
  pub unexpired : lt_z c.exp now ≡ false
  pub started : starts_later c.nbf now ≡ false
  pub scope : contains (scopes_of c) config.required_scope ≡ true

pub check_claims-accepted :
    (now : ℤ) (config : AuthConfig) (c : Claims) (scopes : List Bytes)
    → check_claims now config c ≡ accepted scopes
    → AreCurrent now config c × (scopes_of c ≡ scopes)
unfolding check_claims
check_claims-accepted now config c scopes h =
    let (issuer, h1) = require-accepted (contains config.issuers c.iss) _ _ scopes h in
    let (audience, h2) = require-accepted (overlaps (aud_of c) config.audiences) _ _ scopes h1 in
    let (unexpired, h3) = require-accepted (not (lt_z c.exp now)) _ _ scopes h2 in
    let (started, h4) = require-accepted (not (starts_later c.nbf now)) _ _ scopes h3 in
    let (scope, h5) =
      require-accepted (contains (scopes_of c) config.required_scope) _ _ scopes h4 in
    (
      record {
        issuer = issuer;
        audience = audience;
        unexpired = not-true (lt_z c.exp now) unexpired;
        started = not-true (starts_later c.nbf now) started;
        scope = scope;
      },
      accepted_inj (scopes_of c) scopes h5,
    )

module _ (lib : Jsonwebtoken) (net : Net) where
  -- A key of the issuer in the cache has verified the token.
  abbrev pub IsSigned : lib.Alg → Bytes → Bytes → Option Bytes → Jwks lib → Type 0
  IsSigned alg token issuer kid s =
      (key : lib.Key) × (get lib issuer kid s.cache ≡ some key) × (lib.verify alg key token ≡ true)

  -- The token was accepted for the principal, and the cache is `s` afterwards.
  pub record IsTrusted (token : Bytes) (config : AuthConfig) (now : ℤ) (s : Jwks lib)
      (p : Principal) : Type 0 where
    pub alg : lib.Alg
    pub kid : Option Bytes
    pub claims : Claims
    pub header : lib.decode_header token ≡ some (alg, kid)
    pub body : lib.decode_claims alg token ≡ some claims
    pub current : AreCurrent now config claims
    pub identity : p ≡ principal_for claims (scopes_of claims)
    pub signed : (config.dev_mode ≡ true) ⊎ IsSigned alg token claims.iss kid s

  -- A key that the cache has.
  found-accepted :
      (issuer : Bytes) (kid : Option Bytes) (s s' : Jwks lib) (k key : lib.Key)
      → get lib issuer kid s.cache ≡ some k
      → ◌≡◌ {A = Checked lib.Key × Jwks lib} (accepted k, s) (accepted key, s')
      → get lib issuer kid s'.cache ≡ some key
  found-accepted issuer kid s s' k key g h =
      subst (λ (t : Jwks lib). get lib issuer kid t.cache ≡ some key)
        (ap (λ (r : Checked lib.Key × Jwks lib). r.1) h)
        (g ∙ ap some (accepted_inj k key (ap (λ (r : Checked lib.Key × Jwks lib). r.0) h)))

  retry-accepted :
      (issuer : Bytes) (kid : Option Bytes) (r : Jwks lib × Bool) (key : lib.Key) (s' : Jwks lib)
      → retry lib net issuer kid r ≡ (accepted key, s')
      → get lib issuer kid s'.cache ≡ some key
  retry-accepted issuer kid (s, false) key s' h = absurd (cc (ap (λ r. r.0) h))
  retry-accepted issuer kid (s, true) key s' h = elim (Option-cases (get lib issuer kid s.cache)) [
    | inl g ↦ absurd (cc (ap (λ r. r.0) (rw (g, retry) at h)))
    | inr (k, g) ↦ found-accepted issuer kid s s' k key g (rw (g, retry) at h)
  ]

  signing_key-accepted :
      (issuer : Bytes) (kid : Option Bytes) (s s' : Jwks lib) (key : lib.Key)
      → signing_key lib net issuer kid s ≡ (accepted key, s')
      → get lib issuer kid s'.cache ≡ some key
  unfolding signing_key
  signing_key-accepted issuer kid s s' key h =
      let fresh = freshen lib net issuer s in
      elim (Option-cases (get lib issuer kid fresh.cache)) [
        | inl g ↦
            retry-accepted issuer kid (refresh lib net issuer fresh) key s'
              (rw (g, signing_key) at h)
        | inr (k, g) ↦ found-accepted issuer kid fresh s' k key g (rw (g, signing_key) at h)
      ]

  check_signature-accepted :
      (alg : lib.Alg) (token : Bytes) (p p' : Principal) (r : Checked lib.Key × Jwks lib)
      (s' : Jwks lib)
      → check_signature lib net alg token p r ≡ (accepted p', s')
      → (key : lib.Key) × (r ≡ (accepted key, s')) × (lib.verify alg key token ≡ true) × (p ≡ p')
  check_signature-accepted alg token p p' (rejected e, s) s' h = absurd (cc (ap (λ r. r.0) h))
  check_signature-accepted alg token p p' (accepted key, s) s' h =
      let (v, a) =
        require-accepted (lib.verify alg key token) decode (accepted p) p' (ap (λ r. r.0) h) in
      (key, ap (λ t. (accepted key, t)) (ap (λ r. r.1) h), v, accepted_inj p p' a)

  authenticate-accepted :
      (dev_mode : Bool) (alg : lib.Alg) (kid : Option Bytes) (token : Bytes) (c : Claims)
      (checked : Checked (List Bytes)) (s s' : Jwks lib) (p : Principal)
      → authenticate lib net dev_mode (alg, kid) token c checked s ≡ (accepted p, s')
      → (scopes : List Bytes) × (checked ≡ accepted scopes)
        × (p ≡ principal_for c scopes)
        × ((dev_mode ≡ true) ⊎ IsSigned alg token c.iss kid s')
  authenticate-accepted dev_mode alg kid token c (rejected e) s s' p h =
      absurd (cc (ap (λ r. r.0) h))
  authenticate-accepted true alg kid token c (accepted scopes) s s' p h =
      (scopes, refl, sym (accepted_inj (principal_for c scopes) p (ap (λ r. r.0) h)), inl refl)
  authenticate-accepted false alg kid token c (accepted scopes) s s' p h =
      let (key, k, v, q) =
        check_signature-accepted alg token (principal_for c scopes) p
          (signing_key lib net c.iss kid s) s' h in
      (scopes, refl, sym q, inr (key, signing_key-accepted c.iss kid s s' key k, v))

  -- If `validate_token` accepts a token, its issuer and one of its audiences are allowed, it has
  -- not expired and has started at the time of the call, it carries the required scope, the
  -- principal is the one of its claims, and, unless the development mode is on, a key of its
  -- issuer that the cache holds has verified its signature.
  pub validate_token-IsTrusted :
      (token : Bytes) (config : AuthConfig) (s s' : Jwks lib) (p : Principal)
      → validate_token lib net token config s ≡ (accepted p, s')
      → IsTrusted token config (as_i64 (net.clock s.turn / 1000000000)) s' p
  unfolding validate_token
  validate_token-IsTrusted token config s s' p h = elim (Option-cases (lib.decode_header token)) [
    | inl e ↦ absurd (cc (ap (λ r. r.0) (rw (e, validate_token) at h)))
    | inr ((alg, kid), e) ↦ elim (Option-cases (lib.decode_claims alg token)) [
      | inl d ↦ absurd (cc (ap (λ r. r.0) (rw (e, validate_token, d) at h)))
      | inr (c, d) ↦
          let now = as_i64 (net.clock s.turn / 1000000000) in
          let (scopes, k, q, signed) =
            authenticate-accepted config.dev_mode alg kid token c (check_claims now config c) s s' p
              (rw (e, validate_token, d) at h) in
          let (current, same) = check_claims-accepted now config c scopes k in
          record {
            alg = alg;
            kid = kid;
            claims = c;
            header = e;
            body = d;
            current = current;
            identity = q ∙ ap (principal_for c) (sym same);
            signed = signed;
          }
    ]
  ]
