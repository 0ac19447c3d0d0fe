-- ===== src/Session/RoundTrip.antt =====
-- A session that src/session.rs mints and verifies.
use boom_gw.Base.{ℕ, ◌+◌, ◌≡◌, ◌≤◌, ◌<◌, ◌^◌, refl, ap, ◌∙◌, some, All, bytes_eq_refl, arith}
use boom_gw.Session.{
  Principal, SessionConfig, ok, mint_session, verify_session, claims_of, principal_of,
  session_issuer,
}
use boom_gw.Session.Claims.{Jwt, JwtLaws, SessionClaims, Decoded}
use boom_gw.Session.Text.{IsWord, split_ascii_whitespace-join}

-- A token that was minted is the encoding of its claims.
encoded :
    (lib : Jwt) (now : ℕ) (config : SessionConfig) (principal : Principal) (token : lib.Token)
    → mint_session lib now config principal ≡ ok token
    → lib.encode config.secret (claims_of now config principal) ≡ some token
unfolding mint_session
encoded lib now config principal token e = ground arith

principal_of-claims_of :
    (now : ℕ) (config : SessionConfig) (principal : Principal)
    → All IsWord principal.scopes
    → principal_of (claims_of now config principal) ≡ principal
unfolding principal_of claims_of
principal_of-claims_of now config principal words =
    ap (λ scopes. record principal { scopes = scopes })
      (split_ascii_whitespace-join principal.scopes words)

-- A token that the library decodes to claims of the right issuer is verified.
verified :
    (lib : Jwt) (now : ℕ) (config : SessionConfig) (token : lib.Token) (c : SessionClaims)
    → c.iss ≡ session_issuer
    → lib.decode session_issuer config.secret now token ≡ Decoded.claims c
    → verify_session lib now config token ≡ ok (principal_of c)
unfolding verify_session principal_of
verified lib now config token c e d =
    rw (d, verify_session) (rw (e, bytes_eq_refl session_issuer) refl)

-- If no scope of the principal is empty or holds ASCII white space, the expiry fits an i64, and
-- the clock has not passed it, then `verify_session` with the same configuration gives the
-- principal for whom `mint_session` made the token, provided that the library decodes what it
-- encoded.
pub verify_session-mint_session :
    (lib : Jwt) (L : JwtLaws lib) (minted now : ℕ) (config : SessionConfig) (principal : Principal)
    (token : lib.Token)
    → All IsWord principal.scopes
    → minted + config.max_age < 2 ^ 63
    → now ≤ minted + config.max_age
    → mint_session lib minted config principal ≡ ok token
    → verify_session lib now config token ≡ ok principal
unfolding verify_session claims_of
verify_session-mint_session lib L minted now config principal token words room valid made =
    let c = claims_of minted config principal in
    let decoded =
      L.decode-encode session_issuer config.secret now c token
        (encoded lib minted config principal token made) refl (omega arith) (omega arith) in
    verified lib now config token c refl decoded
    ∙ ap ok (principal_of-claims_of minted config principal words)
