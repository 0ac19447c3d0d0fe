-- ===== src/Clusterer/Replayed.antt =====
-- What `load_replay` of src/bin/gw_clusterer.rs returns.
use boom_gw.Base.{
  ◌≡◌, ◌≢◌, subst, List, [], ◌∷◌, arith, true, false, Bool-cases, inl, inr, Bytes, bytes_eq,
  bytes_eq_refl, eq_of_bytes_eq, All, All-map,
}
use boom_gw.Base.BTree.Laws.{Pairs}
use boom_gw.Clustering.Invariant.{Occurs}
use boom_gw.Clusterer.Replay.{Replayed as Entry, is_seen, deduped}

pub is_seen-hit : (g : Bytes) (seen : List Bytes) → is_seen g seen ≡ true → Occurs g seen
unfolding is_seen
is_seen-hit g [] h = cc
is_seen-hit g (x ∷ seen) h = elim (Bool-cases (bytes_eq g x)) [
  | inl e ↦ inl (eq_of_bytes_eq g x e)
  | inr e ↦ inr (is_seen-hit g seen (ground arith))
]

is_seen-miss : (g : Bytes) (seen : List Bytes) → is_seen g seen ≡ false → ¬ Occurs g seen
unfolding is_seen
is_seen-miss g [] h o = o
is_seen-miss g (x ∷ seen) h (inl e) =
    let same : bytes_eq g x ≡ true = subst (λ y. bytes_eq g y ≡ true) e (bytes_eq_refl g) in
    absurd (ground arith)
is_seen-miss g (x ∷ seen) h (inr o) = is_seen-miss g seen (ground arith) o

module _ {F C : Type 0} where
  pub All-deduped :
      (P : Entry F C → Type 0) (seen : List Bytes) (es : List (Entry F C))
      → All P es
      → All P (deduped seen es)
  unfolding deduped
  All-deduped P seen [] a = tt
  All-deduped P seen (e ∷ es) a = elim (Bool-cases (is_seen e.0.graceid seen)) [
    | inl h ↦ rw (h, deduped) (All-deduped P seen es a.1)
    | inr h ↦ rw (h, deduped) (a.0, All-deduped P (e.0.graceid ∷ seen) es a.1)
  ]

  pub Pairs-deduped :
      (R : Entry F C → Entry F C → Type 0) (seen : List Bytes) (es : List (Entry F C))
      → Pairs R es
      → Pairs R (deduped seen es)
  unfolding deduped
  Pairs-deduped R seen [] a = tt
  Pairs-deduped R seen (e ∷ es) a = elim (Bool-cases (is_seen e.0.graceid seen)) [
    | inl h ↦ rw (h, deduped) (Pairs-deduped R seen es a.1)
    | inr h ↦
        rw (h, deduped)
          (
            All-deduped (R e) (e.0.graceid ∷ seen) es a.0,
            Pairs-deduped R (e.0.graceid ∷ seen) es a.1,
          )
  ]

  -- No event of the list has one of these identifiers.
  deduped-unseen :
      (seen : List Bytes) (es : List (Entry F C))
      → All (λ e. ¬ Occurs e.0.graceid seen) (deduped seen es)
  unfolding deduped
  deduped-unseen seen [] = tt
  deduped-unseen seen (e ∷ es) = elim (Bool-cases (is_seen e.0.graceid seen)) [
    | inl h ↦ rw (h, deduped) (deduped-unseen seen es)
    | inr h ↦
        rw (h, deduped)
          (
            is_seen-miss e.0.graceid seen h,
            All-map (λ (x : Entry F C). ¬ Occurs x.0.graceid (e.0.graceid ∷ seen))
                (λ (x : Entry F C). ¬ Occurs x.0.graceid seen) (λ x n o. n (inr o))
                (deduped (e.0.graceid ∷ seen) es) (deduped-unseen (e.0.graceid ∷ seen) es),
          )
  ]

  abbrev pub Differ : Entry F C → Entry F C → Type 0
  Differ a b = b.0.graceid ≢ a.0.graceid

  pub deduped-Differ : (seen : List Bytes) (es : List (Entry F C)) → Pairs Differ (deduped seen es)
  unfolding deduped
  deduped-Differ seen [] = tt
  deduped-Differ seen (e ∷ es) = elim (Bool-cases (is_seen e.0.graceid seen)) [
    | inl h ↦ rw (h, deduped) (deduped-Differ seen es)
    | inr h ↦
        rw (h, deduped)
          (
            All-map (λ (x : Entry F C). ¬ Occurs x.0.graceid (e.0.graceid ∷ seen)) (Differ e)
                (λ x n o. n (inl o)) (deduped (e.0.graceid ∷ seen) es)
                (deduped-unseen (e.0.graceid ∷ seen) es),
            deduped-Differ (e.0.graceid ∷ seen) es,
          )
  ]
