-- ===== src/Clusterer/Replay.antt =====
-- `load_replay` of src/bin/gw_clusterer.rs: the events of a directory of envelopes, in the order of
-- their timestamps, each event once.
use boom_gw.Base.{
  List, [], ◌∷◌, Option, none, some, Bool, false, ◌||◌, if◌then◌else◌, Bytes, bytes_eq, codes,
  Ordering,
}
use boom_gw.Base.Floats.{Float, cmp_f}
use boom_gw.Clustering.Defs.{GwEvent}

-- A file of the directory; `none` is an error of reading it.
pub record ReplayFile : Type 0 where
  pub extension : Option Bytes
  pub bytes : Option Bytes

-- An event with its document.
abbrev pub Replayed : Type 0 → Type 0 → Type 0
Replayed F C = GwEvent F C × Bytes

abbrev is_json : Option Bytes → Bool
is_json none = false
is_json (some e) = bytes_eq e (codes "json")

-- `extract` is `EventEnvelope::from_json` with `extract_gw_event_with_xml`; `none` is an error,
-- which is logged.
module _ {F C : Type 0} (extract : Bytes → Option (Replayed F C)) where
  -- `none` in the listing, and the result `none`, are errors of the file system.
  unfoldable pub gather : List (Option ReplayFile) → Option (List (Replayed F C))
  gather [] = some []
  gather (none ∷ files) = none
  gather (some file ∷ files) =
      let rest = gather files in
      if is_json file.extension
      then elim file.bytes [
        | none ↦ none
        | some bytes ↦ elim (extract bytes) [
          | none ↦ rest
          | some event ↦ elim rest [ none ↦ none | some events ↦ some (event ∷ events) ]
        ]
      ]
      else rest

-- `seen.insert(graceid).is_none()` is false for these.
unfoldable pub is_seen : Bytes → List Bytes → Bool
is_seen graceid [] = false
is_seen graceid (g ∷ seen) = bytes_eq graceid g || is_seen graceid seen

unfoldable pub deduped : {F C : Type 0} → List Bytes → List (Replayed F C) → List (Replayed F C)
unfolding is_seen
deduped seen [] = []
deduped seen (e ∷ es) =
    let rest = deduped (e.0.graceid ∷ seen) es in
    if is_seen e.0.graceid seen then deduped seen es else e ∷ rest

module _ {F C : Type 0} ⦃fl : Float F⦄ where
  -- `sort_by` is stable: an event goes before the later ones of the same timestamp.
  unfoldable pub sorted_in : Replayed F C → List (Replayed F C) → List (Replayed F C)
  sorted_in e [] = e ∷ []
  sorted_in e (x ∷ xs) =
      let rest = sorted_in e xs in
      elim (cmp_f e.0.producer_timestamp x.0.producer_timestamp) [
        | Ordering.gt ↦ x ∷ rest
        | _ ↦ e ∷ x ∷ xs
      ]

  unfoldable pub sort_events : List (Replayed F C) → List (Replayed F C)
  unfolding sorted_in
  sort_events [] = []
  sort_events (e ∷ es) = sorted_in e (sort_events es)

  unfoldable pub load_replay :
      (Bytes → Option (Replayed F C))
      → Option (List (Option ReplayFile))
      → Option (List (Replayed F C))
  unfolding gather sort_events deduped
  load_replay extract none = none
  load_replay extract (some files) = elim (gather extract files) [
    | none ↦ none
    | some events ↦ some (deduped [] (sort_events events))
  ]
