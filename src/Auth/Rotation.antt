-- ===== src/Auth/Rotation.antt =====
-- A token whose key its issuer publishes is accepted, whatever the cache held (src/auth.rs).
use boom_gw.Base.{
  ℕ, ◌/◌, ◌≡◌, refl, ◌∙◌, ◌⊎◌, inl, inr, Bool, true, false, List, [], none, some, Bytes,
}
use boom_gw.Base.HashMap.{HashMap, lookup, put, lookup-put}
use boom_gw.Session.{Principal}
use boom_gw.Auth.Config.{Jsonwebtoken, AuthConfig, Claims, ℤ, as_i64}
use boom_gw.Auth.Keys.{Net, Jwk, Jwks, JwksEntry, get, refresh, is_stale, keys_of}
use boom_gw.Auth.Validate.{
  Checked, accepted, rejected, scopes_of, check_claims, principal_for, freshen, retry, signing_key,
  check_signature, authenticate, validate_token,
}
use boom_gw.Auth.Accepted.{AreCurrent, accepted_inj}

check_claims-AreCurrent :
    (now : ℤ) (config : AuthConfig) (c : Claims)
    → AreCurrent now config c
    → check_claims now config c ≡ accepted (scopes_of c)
unfolding check_claims
check_claims-AreCurrent now config c a =
    rw (a.issuer, a.audience, a.unexpired, a.started, a.scope, check_claims) refl

module _ (lib : Jsonwebtoken) (net : Net) where
  -- Whenever it is asked, the issuer publishes the key under this name.
  abbrev pub Publishes : Bytes → Bytes → lib.Key → Type 0
  Publishes issuer kid key =
      (turn : ℕ)
      → (set : List Jwk) × (net.fetch turn issuer ≡ some set)
        × (lookup kid (keys_of lib [] set) ≡ some key)

  get-put :
      (issuer kid : Bytes) (entry : JwksEntry lib) (cache : HashMap (JwksEntry lib))
      → get lib issuer (some kid) (put issuer entry cache) ≡ lookup kid entry.keys
  unfolding get
  get-put issuer kid entry cache = rw (lookup-put issuer entry cache, get) refl

  refreshed_with :
      (issuer kid : Bytes) (key : lib.Key) (s : Jwks lib)
      → Publishes issuer kid key
      → ((refresh lib net issuer s).1 ≡ true)
        × (get lib issuer (some kid) (refresh lib net issuer s).0.cache ≡ some key)
  unfolding refresh
  refreshed_with issuer kid key s h =
      let (set, f, k) = h s.turn in rw (f, refresh) (refl, get-put issuer kid _ s.cache ∙ k)

  -- The cache has no key of this name, or the right one.
  abbrev pub IsHarmless : Bytes → Bytes → lib.Key → Jwks lib → Type 0
  IsHarmless issuer kid key s =
      (get lib issuer (some kid) s.cache ≡ none) ⊎ (get lib issuer (some kid) s.cache ≡ some key)

  freshen-IsHarmless :
      (issuer kid : Bytes) (key : lib.Key) (s : Jwks lib)
      → Publishes issuer kid key
      → IsHarmless issuer kid key s
      → IsHarmless issuer kid key (freshen lib net issuer s)
  freshen-IsHarmless issuer kid key s h k =
      elim (is_stale lib net issuer s)
        as (λ b.
          IsHarmless issuer kid key (elim b [ false ↦ s | true ↦ (refresh lib net issuer s).0 ])) [
            | false ↦ k
            | true ↦ inr (refreshed_with issuer kid key s h).1
          ]

  retry_found :
      (issuer kid : Bytes) (key : lib.Key) (r : Jwks lib × Bool)
      → r.1 ≡ true
      → get lib issuer (some kid) r.0.cache ≡ some key
      → (retry lib net issuer (some kid) r).0 ≡ accepted key
  retry_found issuer kid key (s, false) h g = cc
  retry_found issuer kid key (s, true) h g = rw (g, retry) refl

  signing_key_found :
      (issuer kid : Bytes) (key : lib.Key) (s : Jwks lib)
      → Publishes issuer kid key
      → IsHarmless issuer kid key s
      → (signing_key lib net issuer (some kid) s).0 ≡ accepted key
  unfolding signing_key
  signing_key_found issuer kid key s h k =
      let fresh = freshen lib net issuer s in
      elim (freshen-IsHarmless issuer kid key s h k) [
        | inl g ↦
            let (t, found) = refreshed_with issuer kid key fresh h in
            rw (g, signing_key) (retry_found issuer kid key (refresh lib net issuer fresh) t found)
        | inr g ↦ rw (g, signing_key) refl
      ]

  check_signature_found :
      (alg : lib.Alg) (token : Bytes) (p : Principal) (key : lib.Key)
      (r : Checked lib.Key × Jwks lib)
      → r.0 ≡ accepted key
      → lib.verify alg key token ≡ true
      → (check_signature lib net alg token p r).0 ≡ accepted p
  check_signature_found alg token p key (rejected e, s) h v = cc
  check_signature_found alg token p key (accepted k, s) h v = rw (accepted_inj k key h) (rw v refl)

  authenticated :
      (dev_mode : Bool) (alg : lib.Alg) (kid token : Bytes) (c : Claims) (key : lib.Key)
      (s : Jwks lib) (scopes : List Bytes)
      → Publishes c.iss kid key
      → IsHarmless c.iss kid key s
      → lib.verify alg key token ≡ true
      → (authenticate lib net dev_mode (alg, some kid) token c (accepted scopes) s).0
        ≡ accepted (principal_for c scopes)
  authenticated true alg kid token c key s scopes h k v = refl
  authenticated false alg kid token c key s scopes h k v =
      check_signature_found alg token (principal_for c scopes) key
        (signing_key lib net c.iss (some kid) s) (signing_key_found c.iss kid key s h k) v

  -- If the claims of a token pass every check at the time of the call, its issuer publishes a key
  -- of its name whenever asked, this key verifies it, and the cache holds no other key of this
  -- name, then `validate_token` accepts the token, however old or empty the cache is.
  pub validate_token-Publishes :
      (token : Bytes) (config : AuthConfig) (s : Jwks lib) (alg : lib.Alg) (kid : Bytes)
      (c : Claims) (key : lib.Key)
      → lib.decode_header token ≡ some (alg, some kid)
      → lib.decode_claims alg token ≡ some c
      → AreCurrent (as_i64 (net.clock s.turn / 1000000000)) config c
      → Publishes c.iss kid key
      → IsHarmless c.iss kid key s
      → lib.verify alg key token ≡ true
      → (validate_token lib net token config s).0 ≡ accepted (principal_for c (scopes_of c))
  unfolding validate_token
  validate_token-Publishes token config s alg kid c key h d a p k v =
      rw (h, validate_token)
        (rw (d, validate_token)
          (rw
            (
              check_claims-AreCurrent (as_i64 (net.clock s.turn / 1000000000)) config c a,
              validate_token,
            )
            (authenticated config.dev_mode alg kid token c key s (scopes_of c) p k v)))
