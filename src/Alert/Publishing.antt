-- ===== src/Alert/Publishing.antt =====
-- Who may publish an alert, and what is recorded of it (`create_alert` of src/api.rs).
use boom_gw.Base.{◌++◌, ◌≡◌, ◌≢◌, ◌⊎◌, Bool, true, false, List, [], ◌∷◌, Option, none, some}
use boom_gw.Base.Floats.{Float}
use boom_gw.Localizer.{Base64}
use boom_gw.Session.{Principal}
use boom_gw.Auth.Config.{AuthConfig}
use boom_gw.Auth.Middleware.{require_alert_publisher}
use boom_gw.Alert.{PublicAlert, Times}
use boom_gw.Alert.Handler.{
  opening, Response, internal_error, service_unavailable, created, Step, publish, insert_alert,
  Inputs, OrResponse, value, answer, read_superevent,
}

-- The answer once the last audit row was tried.
abbrev pub replied : Bool → Response
replied true = created
replied false = internal_error

-- The ways that a call can go once the alert is built, by whether it is a dry run, whether a
-- publish succeeds, if a publisher is configured, and whether the insertion of a row succeeds: no
-- publisher is configured, and nothing is tried; a dry run tries to insert a row; an alert that was
-- published, and one that was not, are followed by the insertion of a row that says so.
pub data Course {F J : Type 0} (alert : PublicAlert F J)
    : Bool → Option Bool → Bool → Response → List (Step F J) → Type 0 where
  unserved : (inserts : Bool) → Course alert false none inserts service_unavailable []
  rehearsed :
      (publisher : Option Bool) (inserts : Bool)
      → Course alert true publisher inserts
          (replied inserts)
          (insert_alert alert false inserts ∷ [])
  sent :
      (inserts : Bool)
      → Course alert false
          (some true)
          inserts
          (replied inserts)
          (publish alert true ∷ insert_alert alert true inserts ∷ [])
  unsent :
      (inserts : Bool)
      → Course alert false
          (some false)
          inserts
          internal_error
          (publish alert false ∷ insert_alert alert false inserts ∷ [])

-- The caller is signed in, and, where a policy is registered, holds the ACL or passes the
-- allowlist.
pub record MayPublish (principal : Option Principal) (auth : Option AuthConfig)
    (access : Option Bool) : Type 0 where
  pub signed_in : (p : Principal) × (principal ≡ some p)
  pub admitted :
      (auth ≡ none)
      ⊎ ((config : AuthConfig) × (auth ≡ some config)
          × ((acl : Bool) × (access ≡ some acl)
              × ((acl ≡ true) ⊎ (require_alert_publisher principal config ≡ false))))

-- An early return is no success.
abbrev pub Fails : {A : Type 0} → OrResponse A → Type 0
Fails (value a) = Unit
Fails (answer r) = r ≢ created

abbrev pub Refuses : Option Response → Type 0
Refuses none = Unit
Refuses (some r) = r ≢ created

module _ {F C J : Type 0} ⦃fl : Float F⦄ (times : Times F) (base64 : Base64) where
  -- What a call of the handler has done: nothing but to ask for the context, since the caller may
  -- not publish, or since a read or the assembly ended the call; or one of the courses.
  abbrev pub Outcome : Inputs F C J → Response × List (Step F J) → Type 0
  Outcome i r =
      ((r.1 ≡ opening i.principal i.auth)
        × (r.0 ≢ created)
        × ((¬ MayPublish i.principal i.auth i.access)
            ⊎ (read_superevent times base64 i i.superevent ≡ answer r.0)))
      ⊎ (MayPublish i.principal i.auth i.access
          × ((alert : PublicAlert F J) × (steps : List (Step F J)) × (read_superevent times base64 i
                  i.superevent
                ≡ value alert)
              × Course alert i.dry_run i.publisher i.inserts r.0 steps
              × (r.1 ≡ opening i.principal i.auth ++ steps)))

  abbrev opened : Inputs F C J → Response × List (Step F J) → Response × List (Step F J)
  opened i r = (r.0, opening i.principal i.auth ++ r.1)
