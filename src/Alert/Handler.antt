-- ===== src/Alert/Handler.antt =====
-- `create_alert` of src/api.rs.
-- What the handler reads is given by a record; what it does is a list of steps, in their order.
use boom_gw.Base.{
  ◌++◌, if◌then◌else◌, Bool, true, false, not, ◌||◌, List, [], ◌∷◌, Option, none, some,
}
use boom_gw.Base.Floats.{Float}
use boom_gw.Clustering.Defs.{GwEvent, Superevent, SkyMapFits}
use boom_gw.Localizer.{Base64}
use boom_gw.Session.{Principal}
use boom_gw.Auth.Config.{AuthConfig}
use boom_gw.Auth.Middleware.{require_principal, require_alert_publisher}
use boom_gw.Clusterer.World.{SkymapBlob}
use boom_gw.Clusterer.Documents.{SupereventDoc}
use boom_gw.Alert.{AlertType, Annotation, PublicAlert, Times, build_alert}

pub data Response : Type 0 where
  unauthorized refused forbidden not_found conflict internal_error service_unavailable created :
      Response

-- A read of one document.
pub data Read (A : Type 0) : Type 0 where
  found : A → Read A
  absent failed : Read A

-- `access_ctx` provisions the caller and reads what the caller may do, as Access.Context has it; it
-- is one step here. The audit row says whether the alert was published; the last argument of the
-- two other steps is whether the step succeeded.
pub data Step (F J : Type 0) : Type 0 where
  access_ctx : Step F J
  publish : PublicAlert F J → Bool → Step F J
  insert_alert : PublicAlert F J → Bool → Bool → Step F J

-- `access` is what `access_ctx` gives: whether the caller holds the ACL `Publish alerts`, or none
-- for its error response. `preferred` is the event that its document becomes. `storage` is the sky
-- map, if a storage is configured; `publisher` tells whether a publish succeeds, if one is
-- configured; `to_bson` and `inserts` are whether the two calls of these names succeed.
pub record Inputs (F C J : Type 0) : Type 0 where
  pub principal : Option Principal
  pub auth : Option AuthConfig
  pub access : Option Bool
  pub superevent : Read (SupereventDoc F)
  pub annotations : Option (List (Annotation J))
  pub preferred : Read (GwEvent F C)
  pub storage : Option (Read SkymapBlob)
  pub alert_type : AlertType
  pub dry_run : Bool
  pub publisher : Option Bool
  pub to_bson : PublicAlert F J → Bool
  pub inserts : Bool

abbrev pub fits_of : Option SkymapBlob → Option SkyMapFits
fits_of none = none
fits_of (some b) = some (record { bytes = b.bytes; elapsed_ms = b.elapsed_ms })

module _ {F C : Type 0} where
  unfoldable pub superevent_from_docs :
      SupereventDoc F → GwEvent F C → Option SkymapBlob → Superevent F C
  superevent_from_docs se preferred blob = record {
    id = se.id;
    t_0 = se.t_0;
    t_start = se.t_start;
    t_end = se.t_end;
    preferred_event = preferred;
    g_events = preferred ∷ [];
    skymap = fits_of blob;
  }

-- A result, or the response of an early return.
pub data OrResponse (A : Type 0) : Type 0 where
  value : A → OrResponse A
  answer : Response → OrResponse A

-- The sky map, which is only looked for if the document has a summary of it.
abbrev pub blob_of :
    {A : Type 0} → Option A → Option (Read SkymapBlob) → OrResponse (Option SkymapBlob)
blob_of none storage = value none
blob_of (some summary) none = value none
blob_of (some summary) (some (found blob)) = value (some blob)
blob_of (some summary) (some absent) = value none
blob_of (some summary) (some failed) = answer internal_error

-- The gate of the ACL and the allowlist.
abbrev pub publish_gate : Option Principal → Option AuthConfig → Option Bool → Option Response
publish_gate principal none access = none
publish_gate principal (some config) none = some refused
publish_gate principal (some config) (some acl) =
    elim (acl || not (require_alert_publisher principal config)) [
      | true ↦ none
      | false ↦ some forbidden
    ]

unfoldable pub gate : Option Principal → Option AuthConfig → Option Bool → Option Response
unfolding require_principal require_alert_publisher
gate principal auth access = elim (require_principal principal) [
  | true ↦ some unauthorized
  | false ↦ publish_gate principal auth access
]

-- The context is asked for where the caller is signed in and a policy is registered.
abbrev pub opening : {F J : Type 0} → Option Principal → Option AuthConfig → List (Step F J)
opening none auth = []
opening (some p) none = []
opening (some p) (some config) = access_ctx ∷ []

module _ {F C J : Type 0} ⦃fl : Float F⦄ (times : Times F) (base64 : Base64) where
  abbrev pub assemble :
      Inputs F C J
      → SupereventDoc F
      → List (Annotation J)
      → GwEvent F C
      → OrResponse (Option SkymapBlob)
      → OrResponse (PublicAlert F J)
  assemble i doc annotations event (answer r) = answer r
  assemble i doc annotations event (value blob) =
      elim (build_alert times base64 (superevent_from_docs doc event blob) annotations
        i.alert_type) [
          | none ↦ answer internal_error
          | some alert ↦ if i.to_bson alert then value alert else answer internal_error
        ]

  -- The reads, in their order.
  abbrev pub read_event :
      Inputs F C J
      → SupereventDoc F
      → List (Annotation J)
      → Read (GwEvent F C)
      → OrResponse (PublicAlert F J)
  read_event i doc annotations absent = answer conflict
  read_event i doc annotations failed = answer internal_error
  read_event i doc annotations (found event) =
      assemble i doc annotations event (blob_of doc.skymap_summary i.storage)

  abbrev pub read_annotations :
      Inputs F C J → SupereventDoc F → Option (List (Annotation J)) → OrResponse (PublicAlert F J)
  read_annotations i doc none = answer internal_error
  read_annotations i doc (some annotations) = read_event i doc annotations i.preferred

  abbrev pub read_superevent : Inputs F C J → Read (SupereventDoc F) → OrResponse (PublicAlert F J)
  read_superevent i absent = answer not_found
  read_superevent i failed = answer internal_error
  read_superevent i (found doc) = read_annotations i doc i.annotations

-- The last audit row, and the response.
abbrev pub audited :
    {F J : Type 0} → PublicAlert F J → Bool → Bool → List (Step F J) → Response × List (Step F J)
audited alert published true steps = (created, steps)
audited alert published false steps = (internal_error, steps)

module _ {F J : Type 0} where
  -- What follows the assembly: whether it is a dry run, the publisher, whether a row is inserted.
  abbrev pub send : Bool → Option Bool → Bool → PublicAlert F J → Response × List (Step F J)
  send true publisher inserts alert =
      audited alert false inserts (insert_alert alert false inserts ∷ [])
  send false none inserts alert = (service_unavailable, [])
  send false (some true) inserts alert =
      audited alert true inserts (publish alert true ∷ insert_alert alert true inserts ∷ [])
  send false (some false) inserts alert =
      (internal_error, publish alert false ∷ insert_alert alert false inserts ∷ [])

module _ {F C J : Type 0} ⦃fl : Float F⦄ (times : Times F) (base64 : Base64) where
  -- What follows the step of the gate.
  abbrev pub attempted : Inputs F C J → Response × List (Step F J)
  attempted i = elim (gate i.principal i.auth i.access) [
    | some response ↦ (response, [])
    | none ↦ elim (read_superevent times base64 i i.superevent) [
      | answer response ↦ (response, [])
      | value alert ↦ send i.dry_run i.publisher i.inserts alert
    ]
  ]

  unfoldable pub create_alert : Inputs F C J → Response × List (Step F J)
  unfolding gate build_alert superevent_from_docs
  create_alert i = ((attempted i).0, opening i.principal i.auth ++ (attempted i).1)
