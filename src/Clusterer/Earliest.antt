-- ===== src/Clusterer/Earliest.antt =====
-- The order of what `load_replay` of src/bin/gw_clusterer.rs returns, and which of several events
-- with one graceid it keeps.
use boom_gw.Base.{
  ◌≡◌, refl, ap, sym, subst, List, [], ◌∷◌, arith, ℕ, ◌≤◌, ◌⊎◌, Option, some, Bool-cases,
  Option-cases, inl, inr, Bytes, All, All-map, some_inj,
}
use boom_gw.Base.Floats.{Float, FloatLaws}
use boom_gw.Base.BTree.Laws.{Pairs}
use boom_gw.Clustering.Invariant.{Occurs}
use boom_gw.Clusterer.Replay.{
  ReplayFile, Replayed as Entry, gather, is_seen, deduped, sorted_in, sort_events, load_replay,
}
use boom_gw.Clusterer.Replayed.{is_seen-hit, All-deduped, Pairs-deduped, deduped-Differ, Differ}

pub All-Occurs :
    {A : Type 0} (P : A → Type 0) (xs : List A) → ((x : A) → Occurs x xs → P x) → All P xs
All-Occurs P [] f = tt
All-Occurs P (x ∷ xs) f = (f x (inl refl), All-Occurs P xs (λ y o. f y (inr o)))

Occurs-All : {A : Type 0} (P : A → Type 0) (xs : List A) (x : A) → All P xs → Occurs x xs → P x
Occurs-All P [] x a o = absurd o
Occurs-All P (y ∷ xs) x a (inl e) = subst P (sym e) a.0
Occurs-All P (y ∷ xs) x a (inr o) = Occurs-All P xs x a.1 o

module _ {F C : Type 0} ⦃fl : Float F⦄ (L : FloatLaws fl) where
  abbrev pub stamp : Entry F C → ℕ
  stamp e = L.rank e.0.producer_timestamp

  abbrev pub NotLater : Entry F C → Entry F C → Type 0
  NotLater a b = stamp a ≤ stamp b

  -- Where an event goes.
  sorted_in-cases :
      (e x : Entry F C) (xs : List (Entry F C))
      → ((stamp e ≤ stamp x) × (sorted_in e (x ∷ xs) ≡ e ∷ x ∷ xs))
        ⊎ ((stamp x ≤ stamp e) × (sorted_in e (x ∷ xs) ≡ x ∷ sorted_in e xs))
  unfolding sorted_in
  sorted_in-cases e x xs = ground (arith, L.cmp_rank e.0.producer_timestamp x.0.producer_timestamp)

  All-sorted_in :
      (P : Entry F C → Type 0) (e : Entry F C) (xs : List (Entry F C))
      → P e
      → All P xs
      → All P (sorted_in e xs)
  unfolding sorted_in
  All-sorted_in P e [] h a = (h, tt)
  All-sorted_in P e (x ∷ xs) h a = elim (sorted_in-cases e x xs) [
    | inl (l, q) ↦ rw q (h, a)
    | inr (l, q) ↦ rw q (a.0, All-sorted_in P e xs h a.1)
  ]

  Pairs-sorted_in :
      (e : Entry F C) (xs : List (Entry F C)) → Pairs NotLater xs → Pairs NotLater (sorted_in e xs)
  unfolding sorted_in
  Pairs-sorted_in e [] a = (tt, tt)
  Pairs-sorted_in e (x ∷ xs) a = elim (sorted_in-cases e x xs) [
    | inl (l, q) ↦ rw q ((l, All-map (NotLater x) (NotLater e) (λ y m. omega arith) xs a.0), a)
    | inr (l, q) ↦ rw q (All-sorted_in (NotLater x) e xs l a.0, Pairs-sorted_in e xs a.1)
  ]

  Pairs-sort_events : (es : List (Entry F C)) → Pairs NotLater (sort_events es)
  unfolding sort_events
  Pairs-sort_events [] = tt
  Pairs-sort_events (e ∷ es) = Pairs-sorted_in e (sort_events es) (Pairs-sort_events es)

  All-sort_events :
      (P : Entry F C → Type 0) (es : List (Entry F C)) → All P es → All P (sort_events es)
  unfolding sort_events
  All-sort_events P [] a = tt
  All-sort_events P (e ∷ es) a = All-sorted_in P e (sort_events es) a.0 (All-sort_events P es a.1)

  Occurs-sorted_in :
      (e y : Entry F C) (xs : List (Entry F C)) → Occurs y (e ∷ xs) → Occurs y (sorted_in e xs)
  unfolding sorted_in
  Occurs-sorted_in e y [] o = o
  Occurs-sorted_in e y (x ∷ xs) o = elim (sorted_in-cases e x xs) [
    | inl (l, q) ↦ rw q o
    | inr (l, q) ↦ rw q (elim o [
      | inl s ↦ inr (Occurs-sorted_in e y xs (inl s))
      | inr (inl s) ↦ inl s
      | inr (inr s) ↦ inr (Occurs-sorted_in e y xs (inr s))
    ])
  ]

  Occurs-sort_events :
      (y : Entry F C) (es : List (Entry F C)) → Occurs y es → Occurs y (sort_events es)
  unfolding sort_events
  Occurs-sort_events y [] o = o
  Occurs-sort_events y (e ∷ es) (inl s) = Occurs-sorted_in e y (sort_events es) (inl s)
  Occurs-sort_events y (e ∷ es) (inr o) =
      Occurs-sorted_in e y (sort_events es) (inr (Occurs-sort_events y es o))

  -- An event of the same graceid, no later, is in the list.
  abbrev pub Represents : List (Entry F C) → Entry F C → Type 0
  Represents es e =
      (x : Entry F C) × Occurs x es × (x.0.graceid ≡ e.0.graceid) × (stamp x ≤ stamp e)

  deduped-Represents :
      (seen : List Bytes) (es : List (Entry F C)) (y : Entry F C)
      → Pairs NotLater es
      → Occurs y es
      → Occurs y.0.graceid seen ⊎ Represents (deduped seen es) y
  unfolding deduped
  deduped-Represents seen [] y a o = absurd o
  deduped-Represents seen (e ∷ es) y a o = elim (Bool-cases (is_seen e.0.graceid seen)) [
    | inl h ↦
        rw (h, deduped)
          (elim o [
            | inl s ↦ inl (
                subst (λ (x : Entry F C). Occurs x.0.graceid seen) (sym s)
                  (is_seen-hit e.0.graceid seen h))
            | inr o' ↦ deduped-Represents seen es y a.1 o'
          ])
    | inr h ↦
        rw (h, deduped)
          (elim o [
            | inl s ↦ inr (
              e,
              inl refl,
              ap (λ (x : Entry F C). x.0.graceid) (sym s),
              subst (λ (x : Entry F C). stamp e ≤ stamp x) (sym s) (omega arith),
            )
            | inr o' ↦ elim (deduped-Represents (e.0.graceid ∷ seen) es y a.1 o') [
              | inl (inl q) ↦ inr (e, inl refl, sym q, Occurs-All (NotLater e) es y a.0 o')
              | inl (inr q) ↦ inl q
              | inr (x, ox, g, l) ↦ inr (x, inr ox, g, l)
            ]
          ])
  ]

  -- The events are in order and of distinct graceids, all of them were read, and for each event
  -- that was read there is one that is no later.
  pub record IsReplay (all events : List (Entry F C)) : Type 0 where
    pub in_order : Pairs NotLater events
    pub distinct : Pairs Differ events
    pub read : All (λ e. Occurs e all) events
    pub earliest : All (Represents events) all

  deduped-IsReplay : (all : List (Entry F C)) → IsReplay all (deduped [] (sort_events all))
  deduped-IsReplay all =
      let sorted = sort_events all in
      let order = Pairs-sort_events all in
      record {
        in_order = Pairs-deduped NotLater [] sorted order;
        distinct = deduped-Differ [] sorted;
        read =
            All-deduped (λ e. Occurs e all) [] sorted
              (All-sort_events (λ e. Occurs e all) all
                (All-Occurs (λ e. Occurs e all) all (λ x o. o)));
        earliest = All-Occurs (Represents (deduped [] sorted)) all (λ y o.
            elim (deduped-Represents [] sorted y order (Occurs-sort_events y all o)) [
              | inl n ↦ absurd n
              | inr r ↦ r
            ]);
      }

  -- For floats that meet FloatLaws: when `load_replay` returns events, they are in the order of
  -- their timestamps and of pairwise distinct graceids, every one of them was read from the
  -- directory, and for every event that was read one of the same graceid and of no later
  -- timestamp is among them.
  pub load_replay-IsReplay :
      (extract : Bytes → Option (Entry F C)) (files : List (Option ReplayFile))
      (events : List (Entry F C))
      → load_replay extract (some files) ≡ some events
      → (all : List (Entry F C)) × (gather extract files ≡ some all) × IsReplay all events
  unfolding load_replay
  load_replay-IsReplay extract files events h = elim (Option-cases (gather extract files)) [
    | inl g ↦ absurd (cc (rw (g, load_replay) at h))
    | inr (all, g) ↦
        let same = some_inj (deduped [] (sort_events all)) events (rw (g, load_replay) at h) in
        (all, g, subst (IsReplay all) same (deduped-IsReplay all))
  ]
