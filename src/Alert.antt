-- ===== src/Alert.antt =====
-- src/alert.rs and `create_alert` of src/api.rs: the public alert of a superevent.
-- The conversion of times and base64 are parameters. Only alerts of one superevent are in view.
pub mod Handler
pub mod Latest
pub mod Publishing
mod Examples
use boom_gw.Base.{
  ℕ, Bool, true, false, List, [], ◌∷◌, ◌++◌, map, Option, none, some, Bytes, codes, bytes_eq, ◌==◌,
  leb, if◌then◌else◌,
}
use boom_gw.Base.Floats.{Float, ◌+F◌, ◌*F◌, ◌/F◌, lt_f}
use boom_gw.Clustering.Defs.{GwEvent, Superevent}
use boom_gw.Localizer.{Base64}
use boom_gw.Auth.Middleware.{trim}

pub data AlertType : Type 0 where
  preliminary initial update retraction : AlertType

unfoldable pub as_str : AlertType → Bytes
as_str preliminary = codes "PRELIMINARY"
as_str initial = codes "INITIAL"
as_str update = codes "UPDATE"
as_str retraction = codes "RETRACTION"

-- `AnnotationDoc` of src/archive.rs; the payload is the JSON `J` that it converts to, the
-- time is in milliseconds, and `superevent_id` is left out.
pub record Annotation (J : Type 0) : Type 0 where
  pub id : Bytes
  pub kind : Bytes
  pub author : Bytes
  pub payload : J
  pub created_at : ℕ

pub record AlertEvent (F J : Type 0) : Type 0 where
  pub time : Bytes
  pub far : F
  pub significant : Bool
  pub instruments : List Bytes
  pub group : Bytes
  pub pipeline : Bytes
  pub search : Bytes
  pub classification : Option J
  pub skymap : Option Bytes

-- `external_coinc` is always `None`, and the URL is empty.
pub record PublicAlert (F J : Type 0) : Type 0 where
  pub alert_type : AlertType
  pub time_created : Bytes
  pub superevent_id : Bytes
  pub gracedb : Bytes
  pub event : AlertEvent F J

-- The pieces between the commas.
unfoldable pub split_commas : Bytes → Bytes → List Bytes
split_commas word [] = word ∷ []
split_commas word (c ∷ s) =
    if c == 44 then word ∷ split_commas [] s else split_commas (word ++ c ∷ []) s

abbrev pub without_empty : List Bytes → List Bytes
without_empty [] = []
without_empty ([] ∷ ws) = without_empty ws
without_empty ((c ∷ w) ∷ ws) = (c ∷ w) ∷ without_empty ws

-- The names of detectors are in ASCII.
unfoldable pub instruments_of : Bytes → List Bytes
unfolding split_commas trim
instruments_of ifos = without_empty (map trim (split_commas [] ifos))

module _ {J : Type 0} where
  -- `max_by_key`: of several maxima the last.
  unfoldable pub latest :
      Option (Annotation J) → Bytes → List (Annotation J) → Option (Annotation J)
  latest best kind [] = best
  latest best kind (a ∷ annotations) =
      if bytes_eq a.kind kind
      then latest
          (elim best [
            | none ↦ some a
            | some b ↦ if leb b.created_at a.created_at then some a else some b
          ])
          kind annotations
      else latest best kind annotations

  unfoldable pub latest_payload_for : List (Annotation J) → Bytes → Option J
  unfolding latest
  latest_payload_for annotations kind = elim (latest none kind annotations) [
    | none ↦ none
    | some a ↦ some a.payload
  ]

-- `rfc3339` is the cast to whole milliseconds and their text, and `now` the text of the clock;
-- `none` is an error.
pub record Times (F : Type 0) : Type 0 where
  pub rfc3339 : F → Option Bytes
  pub now : Option Bytes

module _ {F : Type 0} ⦃fl : Float F⦄ where
  -- One in thirty days.
  abbrev pub significant_far_hz : F
  significant_far_hz = fl.decimal 1 0 /F (fl.decimal 30 0 *F fl.decimal 86400 0)

  -- The GPS epoch less the leap seconds is added.
  abbrev pub gps_to_utc_iso : Times F → F → Option Bytes
  gps_to_utc_iso times gps_seconds =
      times.rfc3339 ((gps_seconds +F fl.decimal 315964782 0) *F fl.decimal 1000 0)

module _ {F C J : Type 0} ⦃fl : Float F⦄ (times : Times F) (base64 : Base64) where
  unfoldable pub build_alert :
      Superevent F C → List (Annotation J) → AlertType → Option (PublicAlert F J)
  unfolding instruments_of latest_payload_for
  build_alert s annotations alert_type = elim (gps_to_utc_iso times s.preferred_event.end_time) [
    | none ↦ none
    | some event_time ↦ elim times.now [
      | none ↦ none
      | some time_created ↦ some (record {
        alert_type = alert_type;
        time_created = time_created;
        superevent_id = s.id;
        gracedb = [];
        event = record {
          time = event_time;
          far = s.preferred_event.far;
          significant = lt_f s.preferred_event.far significant_far_hz;
          instruments = instruments_of s.preferred_event.ifos;
          group = codes "CBC";
          pipeline = s.preferred_event.pipeline;
          search = codes "AllSky";
          classification = latest_payload_for annotations (codes "p_astro");
          skymap = elim s.skymap [ none ↦ none | some sky ↦ some (base64.encode sky.bytes) ];
        };
      })
    ]
  ]
