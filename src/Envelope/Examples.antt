-- ===== src/Envelope/Examples.antt =====
-- A document on its way through src/event.rs, under a base64 that writes numbers in unary.
use boom_gw.Base.{
  ℕ, zero, suc, ◌+◌, ◌≡◌, refl, ap, inl, true, [], ◌∷◌, none, some, Bytes, codes, ◌==◌,
  if◌then◌else◌, All, arith,
}
use boom_gw.Base.Floats.{fixed}
use boom_gw.Clustering.Defs.{open_window}
use boom_gw.Clustering.Ids.{format_id}
use boom_gw.Clustering.Examples.{seconds}
use boom_gw.Clusterer.World.{Outside}
use boom_gw.Clusterer.Examples.{connected, calm, opened}
use boom_gw.Clusterer.Archiving.{localize_request_for}
use boom_gw.Localizer.{Base64, LocalizeRequest}
use boom_gw.Envelope.{EventEnvelope, LigoLw, event_of, extract_gw_event_with_xml}
use boom_gw.Envelope.Document.{is_base64, Base64Laws, Carries, localize_request_for-Carries}

-- n times A, then B.
unfoldable unary : ℕ → Bytes → Bytes
unary zero s = 66 ∷ s
unary (suc n) s = 65 ∷ unary n s

unfoldable encode : Bytes → Bytes
unfolding unary
encode [] = []
encode (n ∷ s) = unary n (encode s)

unfoldable decode : ℕ → Bytes → Bytes
decode n [] = []
decode n (c ∷ s) =
    let next = decode (n + 1) s in let here = n ∷ decode 0 s in if c == 66 then here else next

decode-unary : (m n : ℕ) (s : Bytes) → decode m (unary n s) ≡ (m + n) ∷ decode 0 s
unfolding decode unary
decode-unary m zero s = ground arith
decode-unary m (suc n) s = ground (arith, decode-unary (m + 1) n s)

decode-encode : (b : Bytes) → decode 0 (encode b) ≡ b
unfolding decode encode
decode-encode [] = refl
decode-encode (n ∷ s) = ground (arith, decode-unary 0 n (encode s), decode-encode s)

All-unary :
    (n : ℕ) (s : Bytes)
    → All (λ c. is_base64 c ≡ true) s
    → All (λ c. is_base64 c ≡ true) (unary n s)
unfolding unary
All-unary zero s h = (refl, h)
All-unary (suc n) s h = (refl, All-unary n s h)

All-encode : (b : Bytes) → All (λ c. is_base64 c ≡ true) (encode b)
unfolding encode
All-encode [] = tt
All-encode (n ∷ s) = All-unary n (encode s) (All-encode s)

abbrev in_unary : Base64
in_unary = record { encode = encode; decode = λ s. some (decode 0 s) }

in_unary_laws : Base64Laws in_unary
in_unary_laws = record { decode-encode = λ b. ap some (decode-encode b); alphabet = All-encode }

abbrev outside : Outside ℕ (Unit {0})
outside = record calm { base64 = in_unary }

-- Every document has one row.
abbrev lib : LigoLw ℕ (Unit {0})
lib = record {
  Doc = Bytes;
  parse_bytes = λ b. some b;
  coinc_inspirals = λ doc. some (tt ∷ []);
  end_time = λ c. seconds 1000;
  ifos = λ c. codes "H1,L1";
  snr = λ c. seconds 8;
  combined_far = λ c. seconds 0;
  mchirp = λ c. none;
  mass = λ c. none;
}

abbrev document : Bytes
document = codes "<x>"

abbrev env : EventEnvelope ℕ
env = record {
  message_type = codes "new";
  producer_timestamp = seconds 0;
  graceid = codes "G1";
  pipeline = codes "test";
  submitter = codes "ci";
  event_file = record { filename = codes "coinc.xml"; payload_b64 = encode document };
}

abbrev sent : LocalizeRequest
sent = record {
  request_id = codes "S000000-G1";
  superevent_id = codes "S000000";
  graceid = codes "G1";
  pipeline = codes "test";
  coinc_xml = encode document;
}

localize_request_for-Carries_example : Carries in_unary in_unary_laws lib env document sent
unfolding extract_gw_event_with_xml localize_request_for encode decode open_window format_id
localize_request_for-Carries_example =
    localize_request_for-Carries connected outside in_unary_laws lib env document
      (event_of in_unary lib env tt) document opened.1 sent (inl refl) refl refl
