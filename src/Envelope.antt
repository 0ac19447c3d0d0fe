-- ===== src/Envelope.antt =====
-- src/envelope.rs and src/event.rs: from a message of the event stream to a `GwEvent` and its
-- document. JSON, base64 and the LIGO-LW parser are parameters.
pub mod Document
mod Examples
use boom_gw.Base.{
  ℕ, zero, suc, ◌-◌, Bool, true, false, ◌&&◌, ◌||◌, List, [], ◌∷◌, Option, none, some, Bytes, ◌==◌,
  ltb, leb, if◌then◌else◌,
}
use boom_gw.Clustering.Defs.{GwEvent}
use boom_gw.Localizer.{Base64}

pub record EventFile : Type 0 where
  pub filename : Bytes
  pub payload_b64 : Bytes

pub record EventEnvelope (F : Type 0) : Type 0 where
  pub message_type : Bytes
  pub producer_timestamp : F
  pub graceid : Bytes
  pub pipeline : Bytes
  pub submitter : Bytes
  pub event_file : EventFile

pub data GwEventError : Type 0 where
  envelope ligo_lw : GwEventError
  no_coinc_inspiral_row : Bytes → GwEventError

pub data Extracted (A : Type 0) : Type 0 where
  ok : A → Extracted A
  err : GwEventError → Extracted A

-- The parser, and the columns of a `coinc_inspiral` row; `none` is an error.
pub record LigoLw (F C : Type 0) : Type 1 where
  pub Doc : Type 0
  pub parse_bytes : Bytes → Option Doc
  pub coinc_inspirals : Doc → Option (List C)
  pub end_time : C → F
  pub ifos : C → Bytes
  pub snr : C → F
  pub combined_far : C → F
  pub mchirp : C → Option F
  pub mass : C → Option F

abbrev is_between : ℕ → ℕ → ℕ → Bool
is_between lo hi c = leb lo c && leb c hi

-- Unicode white space of one byte, and the last byte of that of three bytes.
abbrev is_blank : ℕ → Bool
is_blank c = is_between 9 13 c || c == 32

abbrev is_wide : ℕ → ℕ → ℕ → Bool
is_wide a b c =
    a == 225 && b == 154 && c == 128
    || a == 226
      && (b == 128 && (is_between 128 138 c || c == 168 || c == 169 || c == 175)
          || b == 129 && c == 159)
    || a == 227 && b == 128 && c == 128

-- The bytes of the white space that starts a text in UTF-8, or 0.
unfoldable pub blank_bytes : Bytes → ℕ
blank_bytes [] = 0
blank_bytes (a ∷ []) = if is_blank a then 1 else 0
blank_bytes (a ∷ b ∷ []) =
    if is_blank a then 1 else (if a == 194 && (b == 133 || b == 160) then 2 else 0)
blank_bytes (a ∷ b ∷ c ∷ s) =
    if is_blank a
    then 1
    else (if a == 194 && (b == 133 || b == 160) then 2 else (if is_wide a b c then 3 else 0))

-- `trim_start`, with n bytes left of a white space.
unfoldable pub trim_start : ℕ → Bytes → Bytes
unfolding blank_bytes
trim_start n [] = []
trim_start (suc n) (c ∷ s) = trim_start n s
trim_start zero (c ∷ s) = elim (blank_bytes (c ∷ s)) [ zero ↦ c ∷ s | suc n ↦ trim_start n s ]

-- `starts_with('<')`
abbrev pub starts_with_angle : Bytes → Bool
starts_with_angle [] = false
starts_with_angle (c ∷ s) = c == 60

module _ (base64 : Base64) where
  unfoldable pub decode_event_file : EventFile → Extracted Bytes
  unfolding trim_start
  decode_event_file file =
      if starts_with_angle (trim_start 0 file.payload_b64)
      then ok file.payload_b64
      else elim (base64.decode file.payload_b64) [ none ↦ err envelope | some b ↦ ok b ]

  module _ {F C : Type 0} (lib : LigoLw F C) where
    -- The event of the first row.
    abbrev pub event_of : EventEnvelope F → C → GwEvent F C
    event_of env coinc = record {
      pipeline = env.pipeline;
      graceid = env.graceid;
      producer_timestamp = env.producer_timestamp;
      message_type = env.message_type;
      submitter = env.submitter;
      end_time = lib.end_time coinc;
      ifos = lib.ifos coinc;
      snr = lib.snr coinc;
      far = lib.combined_far coinc;
      mchirp = lib.mchirp coinc;
      total_mass = lib.mass coinc;
      coinc = coinc;
    }

    abbrev pub first_row :
        EventEnvelope F → Bytes → Option (List C) → Extracted (GwEvent F C × Bytes)
    first_row env xml none = err ligo_lw
    first_row env xml (some []) = err (no_coinc_inspiral_row env.graceid)
    first_row env xml (some (coinc ∷ _)) = ok (event_of env coinc, xml)

    abbrev pub parse_document : EventEnvelope F → Bytes → Extracted (GwEvent F C × Bytes)
    parse_document env xml = elim (lib.parse_bytes xml) [
      | none ↦ err ligo_lw
      | some doc ↦ first_row env xml (lib.coinc_inspirals doc)
    ]

    unfoldable pub extract_gw_event_with_xml : EventEnvelope F → Extracted (GwEvent F C × Bytes)
    unfolding decode_event_file
    extract_gw_event_with_xml env = elim (decode_event_file env.event_file) [
      | err e ↦ err e
      | ok xml ↦ parse_document env xml
    ]

    unfoldable pub extract_gw_event : EventEnvelope F → Extracted (GwEvent F C)
    unfolding extract_gw_event_with_xml
    extract_gw_event env = elim (extract_gw_event_with_xml env) [ err e ↦ err e | ok r ↦ ok r.0 ]
