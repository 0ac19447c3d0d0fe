-- ===== src/Localizer.antt =====
-- src/localizer.rs: the messages to and from the BAYESTAR service. Base64 is a parameter; the
-- producer and the consumer are calls of a Kafka client.
use boom_gw.Base.{ℕ, Option, none, some, Bytes}

-- `none` is an error of the decoder.
pub record Base64 : Type 0 where
  pub encode : Bytes → Bytes
  pub decode : Bytes → Option Bytes

pub record LocalizeRequest : Type 0 where
  pub request_id : Bytes
  pub superevent_id : Bytes
  pub graceid : Bytes
  pub pipeline : Bytes
  pub coinc_xml : Bytes

pub data LocalizeStatus : Type 0 where
  ok error : LocalizeStatus

pub record LocalizeResult : Type 0 where
  pub request_id : Bytes
  pub superevent_id : Bytes
  pub graceid : Bytes
  pub status : LocalizeStatus
  pub skymap_fits : Option Bytes
  pub error_message : Option Bytes
  pub elapsed_ms : ℕ

module _ (base64 : Base64) where
  unfoldable pub from_coinc_xml : Bytes → Bytes → Bytes → Bytes → Bytes → LocalizeRequest
  from_coinc_xml request_id superevent_id graceid pipeline coinc_xml_bytes = record {
    request_id = request_id;
    superevent_id = superevent_id;
    graceid = graceid;
    pipeline = pipeline;
    coinc_xml = base64.encode coinc_xml_bytes;
  }

  unfoldable pub coinc_xml_bytes : LocalizeRequest → Option Bytes
  coinc_xml_bytes req = base64.decode req.coinc_xml

  -- The outer `none` is an error of the decoder.
  unfoldable pub skymap_fits_bytes : LocalizeResult → Option (Option Bytes)
  skymap_fits_bytes result = elim result.skymap_fits [
    | none ↦ some none
    | some s ↦ elim (base64.decode s) [ none ↦ none | some b ↦ some (some b) ]
  ]
