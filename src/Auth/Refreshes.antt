-- ===== src/Auth/Refreshes.antt =====
-- Which key sets the validation of a token asks for (src/auth.rs).
use boom_gw.Base.{
  ◌+◌, ◌/◌, ℕ, ◌≤◌, ◌≡◌, refl, ◌∙◌, ap, sym, subst, Bool, true, false, List, [], ◌∷◌, ◌++◌, Option,
  Bytes, arith, All, length, both_options,
}
use boom_gw.Session.{Principal}
use boom_gw.Auth.Config.{Jsonwebtoken, AuthConfig, Claims, as_i64, contains}
use boom_gw.Auth.Keys.{Net, Jwks, get, refresh, is_stale}
use boom_gw.Auth.Validate.{
  Checked, accepted, rejected, check_claims, principal_for, freshen, retry, signing_key,
  check_signature, authenticate, validate_token,
}
use boom_gw.Auth.Accepted.{check_claims-accepted}

module _ (lib : Jsonwebtoken) (net : Net) where
  -- At most n key sets were asked for, of issuers with the property.
  pub record Asked (P : Bytes → Type 0) (n : ℕ) (s s' : Jwks lib) : Type 0 where
    pub news : List Bytes
    pub asked : s'.asked ≡ news ++ s.asked
    pub few : length news ≤ n
    pub all_good : All P news

  asked-refresh :
      (issuer : Bytes) (s : Jwks lib) → (refresh lib net issuer s).0.asked ≡ issuer ∷ s.asked
  unfolding refresh
  asked-refresh issuer s =
      both_options (λ (r : Jwks lib × Bool). r.0.asked ≡ issuer ∷ s.asked) (net.fetch s.turn issuer)
        _ _ refl (λ jwks. refl)

  -- One more refresh, of an issuer with the property.
  Asked-refresh :
      (P : Bytes → Type 0) (n : ℕ) (issuer : Bytes) (s s' : Jwks lib)
      → P issuer
      → Asked P n s s'
      → Asked P (n + 1) s (refresh lib net issuer s').0
  Asked-refresh P n issuer s s' p a = record {
    news = issuer ∷ a.news;
    asked = asked-refresh issuer s' ∙ ap (λ l. issuer ∷ l) a.asked;
    few = omega (arith, a.few);
    all_good = (p, a.all_good);
  }

  Asked-refl : (P : Bytes → Type 0) (n : ℕ) (s : Jwks lib) → Asked P n s s
  Asked-refl P n s = record { news = []; asked = refl; few = omega arith; all_good = tt }

  Asked-more :
      (P : Bytes → Type 0) (m n : ℕ) (s s' : Jwks lib) → m ≤ n → Asked P m s s' → Asked P n s s'
  Asked-more P m n s s' h a = record {
    news = a.news;
    asked = a.asked;
    few = omega (arith, a.few);
    all_good = a.all_good;
  }

  Asked-freshen :
      (P : Bytes → Type 0) (issuer : Bytes) (s : Jwks lib)
      → P issuer
      → Asked P 1 s (freshen lib net issuer s)
  Asked-freshen P issuer s p =
      elim (is_stale lib net issuer s)
        as (λ b. Asked P 1 s (elim b [ false ↦ s | true ↦ (refresh lib net issuer s).0 ])) [
          | false ↦ Asked-refl P 1 s
          | true ↦
              Asked-more P (0 + 1) 1 s _ (omega arith)
                (Asked-refresh P 0 issuer s s p (Asked-refl P 0 s))
        ]

  state-retry :
      (issuer : Bytes) (kid : Option Bytes) (r : Jwks lib × Bool)
      → (retry lib net issuer kid r).1 ≡ r.0
  state-retry issuer kid (s, false) = refl
  state-retry issuer kid (s, true) =
      both_options (λ (r : Checked lib.Key × Jwks lib). r.1 ≡ s) (get lib issuer kid s.cache) _ _
        refl (λ key. refl)

  Asked-signing_key :
      (P : Bytes → Type 0) (issuer : Bytes) (kid : Option Bytes) (s : Jwks lib)
      → P issuer
      → Asked P 2 s (signing_key lib net issuer kid s).1
  unfolding signing_key
  Asked-signing_key P issuer kid s p =
      let fresh = freshen lib net issuer s in
      let once = Asked-freshen P issuer s p in
      both_options (λ (r : Checked lib.Key × Jwks lib). Asked P 2 s r.1)
        (get lib issuer kid fresh.cache) (retry lib net issuer kid (refresh lib net issuer fresh)) _
        (subst (Asked P 2 s) (sym (state-retry issuer kid (refresh lib net issuer fresh)))
          (Asked-more P (1 + 1) 2 s _ (omega arith) (Asked-refresh P 1 issuer s fresh p once)))
        (λ key. Asked-more P 1 2 s fresh (omega arith) once)

  state-check_signature :
      (alg : lib.Alg) (token : Bytes) (p : Principal) (r : Checked lib.Key × Jwks lib)
      → (check_signature lib net alg token p r).1 ≡ r.1
  state-check_signature alg token p (rejected e, s) = refl
  state-check_signature alg token p (accepted key, s) = refl

  Asked-authenticate :
      (P : Bytes → Type 0) (dev_mode : Bool) (header : lib.Alg × Option Bytes) (token : Bytes)
      (c : Claims) (checked : Checked (List Bytes)) (s : Jwks lib)
      → ((scopes : List Bytes) → checked ≡ accepted scopes → P c.iss)
      → Asked P 2 s (authenticate lib net dev_mode header token c checked s).1
  Asked-authenticate P dev_mode header token c (rejected e) s f = Asked-refl P 2 s
  Asked-authenticate P true header token c (accepted scopes) s f = Asked-refl P 2 s
  Asked-authenticate P false (alg, kid) token c (accepted scopes) s f =
      subst (Asked P 2 s)
        (sym (
          state-check_signature alg token (principal_for c scopes)
            (signing_key lib net c.iss kid s)))
        (Asked-signing_key P c.iss kid s (f scopes refl))

  -- `validate_token` fetches at most two key sets for any token, and only of issuers that are
  -- allowed.
  pub Asked-validate_token :
      (token : Bytes) (config : AuthConfig) (s : Jwks lib)
      → Asked
          (λ issuer. contains config.issuers issuer ≡ true)
          2
          s
          (validate_token lib net token config s).1
  unfolding validate_token
  Asked-validate_token token config s =
      let Listed : Bytes → Type 0 = λ issuer. contains config.issuers issuer ≡ true in
      let now = as_i64 (net.clock s.turn / 1000000000) in
      both_options (λ (r : Checked Principal × Jwks lib). Asked Listed 2 s r.1)
        (lib.decode_header token) _ _ (Asked-refl Listed 2 s)
        (λ h.
          both_options (λ (r : Checked Principal × Jwks lib). Asked Listed 2 s r.1)
            (lib.decode_claims h.0 token) _ _ (Asked-refl Listed 2 s)
            (λ c.
              Asked-authenticate Listed config.dev_mode h token c (check_claims now config c) s
                (λ scopes e. (check_claims-accepted now config c scopes e).0.issuer)))
