-- ===== src/Session/Examples.antt =====
-- A session of a principal with two scopes, under a library whose tokens show their contents.
use boom_gw.Base.{
  subst, ℕ, ◌≡◌, ◌≤◌, refl, true, ◌&&◌, [], ◌∷◌, some, Bytes, codes, bytes_eq, bytes_eq_refl, leb,
  if◌then◌else◌, some_inj, arith,
}
use boom_gw.Session.{Principal, SessionConfig, ok, mint_session, verify_session, session_issuer}
use boom_gw.Session.Claims.{Jwt, JwtLaws, SessionClaims, Decoded}
use boom_gw.Session.Text.{join, is_ascii_whitespace}
use boom_gw.Session.RoundTrip.{verify_session-mint_session}

-- A token is the secret and the claims; there is no leeway for expired ones.
abbrev shown : Jwt
shown = record {
  Token = Bytes × SessionClaims;
  encode = λ secret c. some (secret, c);
  decode = λ issuer secret now token.
      if bytes_eq token.0 secret && bytes_eq token.1.iss issuer
      then (if leb now token.1.exp then Decoded.claims token.1 else Decoded.expired_signature)
      else Decoded.other_error;
}

decode_lem :
    (issuer secret : Bytes) (now : ℕ) (c : SessionClaims)
    → c.iss ≡ issuer
    → now ≤ c.exp
    → shown.decode issuer secret now (secret, c) ≡ Decoded.claims c
decode_lem issuer secret now c e n =
    rw (e, bytes_eq_refl secret, bytes_eq_refl issuer) (ground arith)

shown_laws : JwtLaws shown
shown_laws = record {
  decode-encode = λ issuer secret now c token made e n _.
      subst (λ t. shown.decode issuer secret now t ≡ Decoded.claims c)
        (some_inj (secret, c) token made) (decode_lem issuer secret now c e n);
}

abbrev config : SessionConfig
config = record { secret = codes "0123456789abcdef0123456789abcdef"; max_age = 3600; secure = true }

abbrev someone : Principal
someone = record {
  sub = codes "ann@ligo.org";
  iss = codes "dev-login";
  scopes = codes "read" ∷ codes "write" ∷ [];
}

abbrev token : shown.Token
token = (
  config.secret,
  record {
    iss = session_issuer;
    sub = someone.sub;
    scope = codes "read write";
    exp = 4600;
    iat = 1000;
    upstream_iss = someone.iss;
  },
)

minted : mint_session shown 1000 config someone ≡ ok token
unfolding mint_session join
minted = refl

verify_session-mint_session_example : verify_session shown 2000 config token ≡ ok someone
unfolding is_ascii_whitespace
verify_session-mint_session_example =
    verify_session-mint_session shown shown_laws 1000 2000 config someone token
      ((refl, (refl, (refl, (refl, tt)))), ((refl, (refl, (refl, (refl, (refl, tt))))), tt))
      (omega arith) (omega arith) minted
