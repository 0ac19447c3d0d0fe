-- ===== src/Alert/Examples.antt =====
-- An alert of a superevent with two annotations of its kind.
use boom_gw.Base.{◌≡◌, refl, true, false, [], ◌∷◌, ℕ, none, some, codes, bytes_eq}
use boom_gw.Base.Floats.{fixed}
use boom_gw.Localizer.{Base64}
use boom_gw.Clustering.Examples.{seconds, event}
use boom_gw.Alert.{Annotation, Times, initial, latest_payload_for}
use boom_gw.Alert.Handler.{Inputs, created, create_alert, found}
use boom_gw.Alert.Latest.{IsLatest, latest_payload_for-IsLatest}

abbrev annotation : ℕ → ℕ → Annotation ℕ
annotation created_at payload = record {
  id = codes "a";
  kind = codes "p_astro";
  author = codes "pipeline";
  payload = payload;
  created_at = created_at;
}

abbrev times : Times ℕ
times = record { rfc3339 = λ t. some (codes "2020"); now = some (codes "2021") }

abbrev plain : Base64
plain = record { encode = λ b. b; decode = λ b. some b }

abbrev inputs : Inputs ℕ (Unit {0}) ℕ
inputs = record {
  principal = some (record { sub = codes "m"; iss = codes "iss"; scopes = [] });
  auth = some (record {
    issuers = [];
    audiences = [];
    required_scope = codes "r";
    alert_publishers = codes "x" ∷ [];
    site_admins = [];
    dev_mode = false;
  });
  access = some true;
  superevent = found (record {
    id = codes "S000000";
    t_0 = seconds 1000;
    t_start = seconds 995;
    t_end = seconds 1005;
    preferred_graceid = codes "G1";
    preferred_snr = seconds 8;
    g_event_graceids = codes "G1" ∷ [];
    skymap_summary = none;
  });
  annotations = some (annotation 5 7 ∷ annotation 5 8 ∷ annotation 4 9 ∷ []);
  preferred = found (event (codes "G1") 1000 8);
  storage = none;
  alert_type = initial;
  dry_run = false;
  publisher = some true;
  to_bson = λ a. true;
  inserts = true;
}

-- The second of two annotations of one time counts.
second :
    latest_payload_for (annotation 5 7 ∷ annotation 5 8 ∷ annotation 4 9 ∷ []) (codes "p_astro")
    ≡ some 8
unfolding latest_payload_for bytes_eq
second = refl

answers : (create_alert times plain inputs).0 ≡ created
unfolding create_alert
answers = refl

latest_payload_for-IsLatest_example :
    IsLatest
      (codes "p_astro")
      (annotation 5 7 ∷ annotation 5 8 ∷ [])
      (latest_payload_for (annotation 5 7 ∷ annotation 5 8 ∷ []) (codes "p_astro"))
latest_payload_for-IsLatest_example =
    latest_payload_for-IsLatest (annotation 5 7 ∷ annotation 5 8 ∷ []) (codes "p_astro")
