-- ===== src/Auth/Passing.antt =====
-- Who passes `auth_middleware` of src/auth.rs.
use boom_gw.Base.{
  ap₂, ℕ, ◌/◌, ◌≡◌, refl, ap, ◌⊎◌, inl, inr, Option, none, some, Bytes, Option-cases,
}
use boom_gw.Session.{Principal, SessionConfig, Verified, ok, err, verify_session}
use boom_gw.Session.Claims.{Jwt}
use boom_gw.Auth.Config.{Jsonwebtoken, AuthConfig, as_i64}
use boom_gw.Auth.Keys.{Net, Jwks}
use boom_gw.Auth.Validate.{Checked, accepted, rejected, validate_token}
use boom_gw.Auth.Accepted.{IsTrusted, validate_token-IsTrusted}
use boom_gw.Auth.Middleware.{
  bearer_of, Passage, next, Request, AppData, by_bearer, by_session, by_cookie, auth_middleware,
}

next_inj : (a b : Principal) → next (some a) ≡ next (some b) → a ≡ b
next_inj a b h = cc

module _ (lib : Jsonwebtoken) (net : Net) (sessions : Jwt) where
  -- A bearer token was trusted.
  abbrev pub HasBearer : AppData → Request sessions → Jwks lib → Jwks lib → Principal → Type 0
  HasBearer app request s s' p =
      (config : AuthConfig) × (token : Bytes) × (app.auth ≡ some config)
      × (bearer_of request.header ≡ some token)
      × IsTrusted lib net token config (as_i64 (net.clock s.turn / 1000000000)) s' p

  -- There is no bearer token, and the session was verified.
  abbrev pub HasSession : ℕ → AppData → Request sessions → Principal → Type 0
  HasSession now app request p =
      (config : SessionConfig) × (token : sessions.Token) × (bearer_of request.header ≡ none)
      × (app.session ≡ some config)
      × (request.cookie ≡ some token)
      × (verify_session sessions now config token ≡ ok p)

  by_bearer-next :
      (r : Checked Principal × Jwks lib) (p : Principal) (s' : Jwks lib)
      → by_bearer lib net sessions r ≡ (next (some p), s')
      → r ≡ (accepted p, s')
  by_bearer-next (accepted q, s) p s' h =
      ap₂ (λ x t. (accepted x, t)) (next_inj q p (ap (λ (r : Passage × Jwks lib). r.0) h))
        (ap (λ (r : Passage × Jwks lib). r.1) h)
  by_bearer-next (rejected e, s) p s' h = absurd (cc (ap (λ (r : Passage × Jwks lib). r.0) h))

  by_session-next :
      (v : Verified Principal) (p : Principal)
      → by_session lib net sessions v ≡ next (some p)
      → v ≡ ok p
  by_session-next (ok q) p h = ap ok (next_inj q p h)
  by_session-next (err e) p h = absurd (cc h)

  by_cookie-next :
      (now : ℕ) (session : Option SessionConfig) (cookie : Option sessions.Token) (p : Principal)
      → by_cookie lib net sessions now session cookie ≡ next (some p)
      → (config : SessionConfig) × (token : sessions.Token) × (session ≡ some config)
        × (cookie ≡ some token)
        × (verify_session sessions now config token ≡ ok p)
  by_cookie-next now none cookie p h = absurd (cc h)
  by_cookie-next now (some config) none p h = absurd (cc h)
  by_cookie-next now (some config) (some token) p h =
      (config, token, refl, refl, by_session-next (verify_session sessions now config token) p h)

  -- If `auth_middleware` passes a request on with a principal, then either its bearer token has
  -- passed every check of `validate_token` and names this principal, or there is no bearer token
  -- and the session cookie was verified for this principal.
  pub auth_middleware-next :
      (now : ℕ) (app : AppData) (request : Request sessions) (s s' : Jwks lib) (p : Principal)
      → auth_middleware lib net sessions now app request s ≡ (next (some p), s')
      → HasBearer app request s s' p ⊎ HasSession now app request p
  unfolding auth_middleware
  auth_middleware-next now app request s s' p h = elim (Option-cases app.auth) [
    | inl a ↦ absurd (cc (ap (λ (r : Passage × Jwks lib). r.0) (rw (a, auth_middleware) at h)))
    | inr (config, a) ↦ elim (Option-cases (bearer_of request.header)) [
      | inr (token, b) ↦ inl (
        config,
        token,
        a,
        b,
        validate_token-IsTrusted lib net token config s s' p (
            by_bearer-next (validate_token lib net token config s) p s'
              (rw (a, auth_middleware, b) at h)),
      )
      | inl b ↦
          let (c, t, e1, e2, e3) =
            by_cookie-next now app.session request.cookie p
              (ap (λ (r : Passage × Jwks lib). r.0) (rw (a, auth_middleware, b) at h)) in
          inr (c, t, b, e1, e2, e3)
    ]
  ]

  -- Nothing to check: the data is not registered, or no credential is there.
  abbrev pub HasNothing : AppData → Request sessions → Type 0
  HasNothing app request =
      (app.auth ≡ none)
      ⊎ ((bearer_of request.header ≡ none) × ((app.session ≡ none) ⊎ (request.cookie ≡ none)))

  by_bearer-refuses :
      (r : Checked Principal × Jwks lib) (s' : Jwks lib)
      → ¬ (by_bearer lib net sessions r ≡ (next none, s'))
  by_bearer-refuses (accepted p, s) s' h = cc (ap (λ (r : Passage × Jwks lib). r.0) h)
  by_bearer-refuses (rejected e, s) s' h = cc (ap (λ (r : Passage × Jwks lib). r.0) h)

  by_session-refuses : (v : Verified Principal) → ¬ (by_session lib net sessions v ≡ next none)
  by_session-refuses (ok p) h = cc h
  by_session-refuses (err e) h = cc h

  by_cookie-anonymous :
      (now : ℕ) (session : Option SessionConfig) (cookie : Option sessions.Token)
      → by_cookie lib net sessions now session cookie ≡ next none
      → (session ≡ none) ⊎ (cookie ≡ none)
  by_cookie-anonymous now none cookie h = inl refl
  by_cookie-anonymous now (some config) none h = inr refl
  by_cookie-anonymous now (some config) (some token) h =
      absurd (by_session-refuses (verify_session sessions now config token) h)

  -- If `auth_middleware` passes a request on without a principal, then the policy is not
  -- registered, or the request has no bearer token and has no cookie or sessions are not
  -- configured: a credential that fails never looks like an anonymous request.
  pub auth_middleware-HasNothing :
      (now : ℕ) (app : AppData) (request : Request sessions) (s s' : Jwks lib)
      → auth_middleware lib net sessions now app request s ≡ (next none, s')
      → HasNothing app request
  unfolding auth_middleware
  auth_middleware-HasNothing now app request s s' h = elim (Option-cases app.auth) [
    | inl a ↦ inl a
    | inr (config, a) ↦ elim (Option-cases (bearer_of request.header)) [
      | inr (token, b) ↦ absurd (
          by_bearer-refuses (validate_token lib net token config s) s'
            (rw (a, auth_middleware, b) at h))
      | inl b ↦ inr (
        b,
        by_cookie-anonymous now app.session request.cookie
            (ap (λ (r : Passage × Jwks lib). r.0) (rw (a, auth_middleware, b) at h)),
      )
    ]
  ]
