-- ===== src/Envelope/Document.antt =====
-- The document of an event on its way from the producer to the localization service
-- (src/envelope.rs, src/event.rs, src/localizer.rs, src/bin/gw_clusterer.rs).
use boom_gw.Base.{
  ℕ, ◌≡◌, refl, ◌∙◌, ap, subst, ◌⊎◌, inl, inr, Bool, true, false, ◌&&◌, ◌||◌, List, [], ◌∷◌, Option,
  none, some, Bytes, ◌==◌, leb, if◌then◌else◌, All, arith, Option-cases, some_inj,
}
use boom_gw.Base.Floats.{Float}
use boom_gw.Clustering.Defs.{
  GwEvent, SupereventUpdate, created, preferred_updated, skipped, skymap_attached,
}
use boom_gw.Localizer.{Base64, LocalizeRequest, from_coinc_xml, coinc_xml_bytes}
use boom_gw.Clusterer.World.{Setup, Outside}
use boom_gw.Clusterer.Archiving.{localize_request_for}
use boom_gw.Envelope.{
  envelope, event_of, EventFile, EventEnvelope, Extracted, ok, err, LigoLw, blank_bytes, trim_start,
  starts_with_angle, decode_event_file, first_row, parse_document, extract_gw_event_with_xml,
}

-- A character of base64 with padding.
abbrev pub is_base64 : ℕ → Bool
is_base64 c =
    leb 65 c && leb c 90
    || leb 97 c && leb c 122
    || leb 48 c && leb c 57
    || c == 43
    || c == 47
    || c == 61

-- An encoding is a text in the alphabet that decodes to what was encoded.
pub record Base64Laws (base64 : Base64) : Type 0 where
  pub decode-encode : (b : Bytes) → base64.decode (base64.encode b) ≡ some b
  pub alphabet : (b : Bytes) → All (λ c. is_base64 c ≡ true) (base64.encode b)

unblank : (c : ℕ) (s : Bytes) → is_base64 c ≡ true → blank_bytes (c ∷ s) ≡ 0
unfolding blank_bytes
unblank c [] h = ground arith
unblank c (b ∷ []) h = ground arith
unblank c (b ∷ d ∷ s) h = ground arith

ok_inj : {A : Type 0} (a b : A) → ok a ≡ ok b → a ≡ b
ok_inj a b h = cc

not_angle :
    (s : Bytes) → All (λ c. is_base64 c ≡ true) s → starts_with_angle (trim_start 0 s) ≡ false
unfolding trim_start
not_angle [] h = refl
not_angle (c ∷ s) h = rw (unblank c s h.0, trim_start) (ground (arith, h.0))

-- How a producer may send a document.
abbrev pub Sends : Base64 → Bytes → Bytes → Type 0
Sends base64 payload xml =
    (payload ≡ base64.encode xml)
    ⊎ ((payload ≡ xml) × (starts_with_angle (trim_start 0 xml) ≡ true))

module _ (base64 : Base64) (laws : Base64Laws base64) where
  decode_event_file-Sends :
      (file : EventFile) (xml : Bytes)
      → Sends base64 file.payload_b64 xml
      → decode_event_file base64 file ≡ ok xml
  unfolding decode_event_file
  decode_event_file-Sends file xml (inl e) =
      ap
        (λ p.
          if starts_with_angle (trim_start 0 p)
          then ok p
          else (elim (base64.decode p) as (λ _. Extracted Bytes) [
            | none ↦ err envelope
            | some b ↦ ok b
          ]))
        e
      ∙ rw (not_angle (base64.encode xml) (laws.alphabet xml)) (rw (laws.decode-encode xml) refl)
  decode_event_file-Sends file xml (inr (e, a)) =
      ap
        (λ p.
          if starts_with_angle (trim_start 0 p)
          then ok p
          else (elim (base64.decode p) as (λ _. Extracted Bytes) [
            | none ↦ err envelope
            | some b ↦ ok b
          ]))
        e
      ∙ rw a refl

  module _ {F C : Type 0} (lib : LigoLw F C) where
    -- What every extracted event takes over.
    abbrev Takes : EventEnvelope F → Bytes → GwEvent F C × Bytes → Type 0
    Takes env xml r = (r.1 ≡ xml) × (r.0.graceid ≡ env.graceid) × (r.0.pipeline ≡ env.pipeline)

    first_row-Takes :
        (env : EventEnvelope F) (xml : Bytes) (rows : Option (List C)) (r : GwEvent F C × Bytes)
        → first_row base64 lib env xml rows ≡ ok r
        → Takes env xml r
    first_row-Takes env xml none r h = absurd (cc h)
    first_row-Takes env xml (some []) r h = absurd (cc h)
    first_row-Takes env xml (some (coinc ∷ _)) r h =
        subst (Takes env xml) (ok_inj (event_of base64 lib env coinc, xml) r h) (refl, refl, refl)

    parse_document-Takes :
        (env : EventEnvelope F) (xml : Bytes) (r : GwEvent F C × Bytes)
        → parse_document base64 lib env xml ≡ ok r
        → Takes env xml r
    parse_document-Takes env xml r h = elim (Option-cases (lib.parse_bytes xml)) [
      | inl p ↦ absurd (cc (rw (p, parse_document) at h))
      | inr (doc, p) ↦
          first_row-Takes env xml (lib.coinc_inspirals doc) r (rw (p, parse_document) at h)
    ]

    extract-Takes :
        (env : EventEnvelope F) (xml : Bytes) (r : GwEvent F C × Bytes)
        → Sends base64 env.event_file.payload_b64 xml
        → extract_gw_event_with_xml base64 lib env ≡ ok r
        → Takes env xml r
    unfolding extract_gw_event_with_xml
    extract-Takes env xml r s h =
        parse_document-Takes env xml r
          (rw (decode_event_file-Sends env.event_file xml s, extract_gw_event_with_xml) at h)

    -- What a request carries.
    abbrev pub Carries : EventEnvelope F → Bytes → LocalizeRequest → Type 0
    Carries env xml req =
        (coinc_xml_bytes base64 req ≡ some xml)
        × (req.graceid ≡ env.graceid)
        × (req.pipeline ≡ env.pipeline)

    request-Carries :
        (env : EventEnvelope F) (xml : Bytes) (event : GwEvent F C)
        (bytes request_id superevent_id : Bytes)
        → Takes env xml (event, bytes)
        → Carries env xml
            (from_coinc_xml base64 request_id superevent_id event.graceid event.pipeline bytes)
    unfolding from_coinc_xml coinc_xml_bytes
    request-Carries env xml event bytes request_id superevent_id (b, g, p) =
        (laws.decode-encode bytes ∙ ap some b, g, p)

module _ {F C : Type 0} ⦃fl : Float F⦄ (setup : Setup F) (out : Outside F C) where
  request_of_update :
      (event : GwEvent F C) (bytes : Bytes) (update : SupereventUpdate F C) (req : LocalizeRequest)
      → localize_request_for setup out event bytes update ≡ some req
      → (request_id : Bytes) × (superevent_id : Bytes) × (from_coinc_xml out.base64 request_id
            superevent_id event.graceid event.pipeline bytes
          ≡ req)
  unfolding localize_request_for
  request_of_update event bytes (created s) req h = (_, _, some_inj _ req h)
  request_of_update event bytes (preferred_updated s _) req h = (_, _, some_inj _ req h)
  request_of_update event bytes (skipped _ _ _) req h = absurd (cc h)
  request_of_update event bytes (skymap_attached _) req h = absurd (cc h)

  -- If a base64 encoding is a text of its alphabet that decodes to what was encoded, a message
  -- carries a document encoded or as plain XML, and an event is extracted from it, then the
  -- localize request that an update of this event causes decodes to this very document, and has
  -- the graceid and the pipeline of the message.
  pub localize_request_for-Carries :
      (laws : Base64Laws out.base64) (lib : LigoLw F C) (env : EventEnvelope F) (xml : Bytes)
      (event : GwEvent F C) (bytes : Bytes) (update : SupereventUpdate F C) (req : LocalizeRequest)
      → Sends out.base64 env.event_file.payload_b64 xml
      → extract_gw_event_with_xml out.base64 lib env ≡ ok (event, bytes)
      → localize_request_for setup out event bytes update ≡ some req
      → Carries out.base64 laws lib env xml req
  localize_request_for-Carries laws lib env xml event bytes update req s e h =
      let (i, j, q) = request_of_update event bytes update req h in
      subst (Carries out.base64 laws lib env xml) q (
        request-Carries out.base64 laws lib env xml event bytes i j
          (extract-Takes out.base64 laws lib env xml (event, bytes) s e))
