-- ===== src/Alert/Latest.antt =====
-- Which annotation an alert carries (`latest_payload_for` of src/alert.rs).
use boom_gw.Base.{
  ◌≤◌, ◌<◌, ◌≡◌, inl, inr, Bool, true, false, List, [], ◌∷◌, ◌++◌, Option, none, some, Bytes,
  bytes_eq, leb, All, Bool-cases, arith,
}
use boom_gw.Alert.{Annotation, latest, latest_payload_for}

module _ {J : Type 0} (kind : Bytes) where
  abbrev pub of_kind : Annotation J → Bool
  of_kind a = bytes_eq a.kind kind

  -- Of the kind it is no newer, or older.
  abbrev pub NoNewer : Annotation J → Annotation J → Type 0
  NoNewer n a = of_kind a ≡ true → a.created_at ≤ n.created_at

  abbrev pub Older : Annotation J → Annotation J → Type 0
  Older n a = of_kind a ≡ true → a.created_at < n.created_at

  -- The payload of a list of annotations: none is of the kind; or it is that of one of the kind,
  -- where those before it are no newer and those after it are older.
  pub data IsLatest : List (Annotation J) → Option J → Type 0 where
    nothing :
        (annotations : List (Annotation J))
        → All (λ a. of_kind a ≡ false) annotations
        → IsLatest annotations none
    newest :
        (before : List (Annotation J)) (n : Annotation J) (after : List (Annotation J))
        → of_kind n ≡ true
        → All (NoNewer n) before
        → All (Older n) after
        → IsLatest (before ++ n ∷ after) (some n.payload)

  -- With a best annotation so far, an annotation of the list leaves it the best.
  abbrev Leaves : Option (Annotation J) → Annotation J → Type 0
  Leaves none a = of_kind a ≡ false
  Leaves (some b) a = Older b a

  abbrev Floor : Option (Annotation J) → Annotation J → Type 0
  Floor none n = Unit
  Floor (some b) n = b.created_at ≤ n.created_at

  data Scan (best : Option (Annotation J))
      : List (Annotation J) → Option (Annotation J) → Type 0 where
    stays : (rest : List (Annotation J)) → All (Leaves best) rest → Scan best rest best
    picks :
        (before : List (Annotation J)) (n : Annotation J) (after : List (Annotation J))
        → of_kind n ≡ true
        → Floor best n
        → All (NoNewer n) before
        → All (Older n) after
        → Scan best (before ++ n ∷ after) (some n)

  -- An annotation of another kind.
  pass :
      (best : Option (Annotation J)) (a : Annotation J) (rest : List (Annotation J))
      (r : Option (Annotation J))
      → of_kind a ≡ false
      → Scan best rest r
      → Scan best (a ∷ rest) r
  pass none a _ _ k (stays rest h) = stays (a ∷ rest) (k, h)
  pass (some b) a _ _ k (stays rest h) = stays (a ∷ rest) ((λ e. cc), h)
  pass best a _ _ k (picks before n after o f l s) = picks (a ∷ before) n after o f ((λ e. cc), l) s

  -- One that becomes the best.
  take_it :
      (best : Option (Annotation J)) (a : Annotation J) (rest : List (Annotation J))
      (r : Option (Annotation J))
      → of_kind a ≡ true
      → Floor best a
      → Scan (some a) rest r
      → Scan best (a ∷ rest) r
  take_it best a _ _ k f (stays rest h) = picks [] a rest k f tt h
  take_it none a _ _ k f (picks before n after o g l s) =
      picks (a ∷ before) n after o tt ((λ e. g), l) s
  take_it (some b) a _ _ k f (picks before n after o g l s) =
      picks (a ∷ before) n after o (omega arith) ((λ e. g), l) s

  -- One of the kind that is older than the best.
  leave_it :
      (b a : Annotation J) (rest : List (Annotation J)) (r : Option (Annotation J))
      → a.created_at < b.created_at
      → Scan (some b) rest r
      → Scan (some b) (a ∷ rest) r
  leave_it b a _ _ k (stays rest h) = stays (a ∷ rest) ((λ e. k), h)
  leave_it b a _ _ k (picks before n after o f l s) =
      picks (a ∷ before) n after o f ((λ e. omega arith), l) s

  of_its_kind :
      (best : Option (Annotation J)) (a : Annotation J) (rest : List (Annotation J))
      → of_kind a ≡ true
      → ((b : Option (Annotation J)) → Scan b rest (latest b kind rest))
      → Scan best (a ∷ rest) (latest best kind (a ∷ rest))
  unfolding latest
  of_its_kind none a rest k scan =
      rw (k) (take_it none a rest (latest (some a) kind rest) k tt (scan (some a)))
  of_its_kind (some b) a rest k scan = elim (Bool-cases (leb b.created_at a.created_at)) [
    | inl l ↦
        rw (k, l)
          (take_it (some b) a rest (latest (some a) kind rest) k (ground (arith, l))
            (scan (some a)))
    | inr l ↦
        rw (k, l)
          (leave_it b a rest (latest (some b) kind rest) (ground (arith, l)) (scan (some b)))
  ]

  Scan-latest :
      (best : Option (Annotation J)) (rest : List (Annotation J))
      → Scan best rest (latest best kind rest)
  unfolding latest
  Scan-latest best [] = stays [] tt
  Scan-latest best (a ∷ rest) = elim (Bool-cases (of_kind a)) [
    | inr k ↦ rw (k) (pass best a rest (latest best kind rest) k (Scan-latest best rest))
    | inl k ↦ of_its_kind best a rest k (λ b. Scan-latest b rest)
  ]

  IsLatest-Scan :
      (annotations : List (Annotation J)) (r : Option (Annotation J))
      → Scan none annotations r
      → IsLatest annotations (elim r [ none ↦ none | some a ↦ some a.payload ])
  IsLatest-Scan _ _ (stays annotations h) = nothing annotations h
  IsLatest-Scan _ _ (picks before n after o f l s) = newest before n after o l s

-- `latest_payload_for` gives no payload exactly where no annotation is of the kind; otherwise it
-- gives the payload of an annotation of the kind such that those of the kind before it in the
-- list are no newer and those after it are older.
pub latest_payload_for-IsLatest :
    {J : Type 0} (annotations : List (Annotation J)) (kind : Bytes)
    → IsLatest kind annotations (latest_payload_for annotations kind)
unfolding latest_payload_for
latest_payload_for-IsLatest annotations kind =
    IsLatest-Scan kind annotations _ (Scan-latest kind none annotations)
