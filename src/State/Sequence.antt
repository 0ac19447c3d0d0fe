-- ===== src/State/Sequence.antt =====
-- `next_seq_from_ids` of src/state.rs.
use boom_gw.Base.{
  some_inj, ◌∙◌, sym, ap, ◌≢◌, All-map, if◌then◌else◌, ℕ, ◌+◌, ◌%◌, ◌^◌, ◌≤◌, ◌<◌, ◌≡◌, refl, List,
  [], ◌∷◌, Option, none, some, arith, All, Bytes, leb,
}
use boom_gw.Clustering.Ids.{id_seq, format_id, id_seq-format_id}

-- One past the largest number read, or the count of identifiers.
abbrev max_seen : Option ℕ → Option ℕ → Option ℕ
max_seen seen none = seen
max_seen none (some n) = some n
max_seen (some m) (some n) = some (if leb m n then n else m)

unfoldable pub scan_ids : Option ℕ → ℕ → List Bytes → Option ℕ × ℕ
scan_ids seen count [] = (seen, count)
scan_ids seen count (id ∷ ids) = scan_ids (max_seen seen (id_seq id)) (count + 1) ids

abbrev or_count : Option ℕ × ℕ → ℕ
or_count (none, count) = count
or_count (some m, count) = (m + 1) % 2 ^ 64

unfoldable pub next_seq_from_ids : List Bytes → ℕ
unfolding scan_ids
next_seq_from_ids ids = or_count (scan_ids none 0 ids)

-- One past the largest number seen.
abbrev upper : Option ℕ → ℕ
upper none = 0
upper (some m) = m + 1

-- The identifier carries a number below n.
abbrev pub Numbered : ℕ → Bytes → Type 0
Numbered n id = (k : ℕ) × (id_seq id ≡ some k) × (k < n)

upper-max_seen :
    (seen new : Option ℕ)
    → (upper seen ≤ upper (max_seen seen new)) × (upper new ≤ upper (max_seen seen new))
upper-max_seen seen none = (omega arith, omega arith)
upper-max_seen none (some n) = (omega arith, omega arith)
upper-max_seen (some m) (some n) = ground arith

upper-max_seen-le :
    (seen new : Option ℕ) (n : ℕ) → upper seen ≤ n → upper new ≤ n → upper (max_seen seen new) ≤ n
upper-max_seen-le seen none n h k = h
upper-max_seen-le none (some m) n h k = k
upper-max_seen-le (some m) (some l) n h k = ground arith

scan_grows :
    (seen : Option ℕ) (count : ℕ) (ids : List Bytes)
    → upper seen ≤ upper (scan_ids seen count ids).0
unfolding scan_ids
scan_grows seen count [] = omega arith
scan_grows seen count (id ∷ ids) = omega (
  arith,
  (upper-max_seen seen (id_seq id)).0,
  scan_grows (max_seen seen (id_seq id)) (count + 1) ids,
)

-- Every number that is read lies below the result.
scan_covers :
    (n : ℕ) (seen : Option ℕ) (count : ℕ) (ids : List Bytes)
    → All (Numbered n) ids
    → All (Numbered (upper (scan_ids seen count ids).0)) ids
unfolding scan_ids
scan_covers n seen count [] h = tt
scan_covers n seen count (id ∷ ids) h =
    let (k, e, p) = h.0 in
    let next = max_seen seen (id_seq id) in
    (
      (k, e, ground (arith, upper-max_seen seen (id_seq id), scan_grows next (count + 1) ids)),
      scan_covers n next (count + 1) ids h.1,
    )

scan_bounded :
    (n : ℕ) (seen : Option ℕ) (count : ℕ) (ids : List Bytes)
    → upper seen ≤ n
    → All (Numbered n) ids
    → upper (scan_ids seen count ids).0 ≤ n
unfolding scan_ids
scan_bounded n seen count [] s h = s
scan_bounded n seen count (id ∷ ids) s h =
    let (k, e, p) = h.0 in
    scan_bounded n (max_seen seen (id_seq id)) (count + 1) ids
      (upper-max_seen-le seen (id_seq id) n s (ground arith)) h.1

next_seq_of_scan : (r : Option ℕ × ℕ) → upper r.0 < 2 ^ 64 → upper r.0 ≤ or_count r
next_seq_of_scan (none, count) h = omega arith
next_seq_of_scan (some m, count) h = omega arith

next_seq_of_scan_le :
    (n : ℕ) (r : Option ℕ × ℕ) → upper r.0 ≤ n → n < 2 ^ 64 → r.0 ≢ none → or_count r ≤ n
next_seq_of_scan_le n (none, count) h k ne = absurd (ne refl)
next_seq_of_scan_le n (some m, count) h k ne = omega arith

pub next_seq_from_ids-Numbered :
    (n : ℕ) (ids : List Bytes)
    → n < 2 ^ 64
    → All (Numbered n) ids
    → All (Numbered (next_seq_from_ids ids)) ids
unfolding next_seq_from_ids
next_seq_from_ids-Numbered n ids room h =
    All-map (Numbered (upper (scan_ids none 0 ids).0)) (Numbered (or_count (scan_ids none 0 ids)))
      (λ id p. (
        p.0,
        p.1,
        omega (
          arith,
          next_seq_of_scan (scan_ids none 0 ids)
              (omega (arith, scan_bounded n none 0 ids (omega arith) h)),
        ),
      ))
      ids (scan_covers n none 0 ids h)

not_none :
    (n : ℕ) (id : Bytes) (ids : List Bytes)
    → All (Numbered n) (id ∷ ids)
    → (scan_ids none 0 (id ∷ ids)).0 ≢ none
not_none n id ids h e =
    let (k, q, p) = (scan_covers n none 0 (id ∷ ids) h).0 in absurd (omega (arith, ap upper e))

-- It is no larger than the number that was next before, if anything was recovered at all.
pub next_seq_from_ids-le :
    (n : ℕ) (ids : List Bytes) → n < 2 ^ 64 → All (Numbered n) ids → next_seq_from_ids ids ≤ n
unfolding next_seq_from_ids scan_ids
next_seq_from_ids-le n [] room h = omega arith
next_seq_from_ids-le n (id ∷ ids) room h =
    next_seq_of_scan_le n (scan_ids none 0 (id ∷ ids))
      (scan_bounded n none 0 (id ∷ ids) (omega arith) h) room (not_none n id ids h)

-- The identifier was formatted from a number below n.
abbrev pub Formatted : ℕ → Bytes → Type 0
Formatted n id = (k : ℕ) × (id ≡ format_id k) × (k < n)

Formatted-Numbered : (n : ℕ) (id : Bytes) → n < 2 ^ 64 → Formatted n id → Numbered n id
Formatted-Numbered n id room (k, e, p) = (k, ap id_seq e ∙ id_seq-format_id k (omega arith), p)

-- One that was formatted from a number and carries a smaller one was formatted from a smaller one.
Numbered-Formatted :
    (n m : ℕ) (id : Bytes) → n < 2 ^ 64 → Formatted n id → Numbered m id → Formatted m id
Numbered-Formatted n m id room (k, e, p) (j, f, q) =
    let same : k ≡ j = some_inj k j (sym (ap id_seq e ∙ id_seq-format_id k (omega arith)) ∙ f) in
    (k, e, omega arith)

All-Formatted :
    (n m : ℕ) (ids : List Bytes)
    → n < 2 ^ 64
    → All (Formatted n) ids
    → All (Numbered m) ids
    → All (Formatted m) ids
All-Formatted n m [] room f h = tt
All-Formatted n m (id ∷ ids) room f h =
    (Numbered-Formatted n m id room f.0 h.0, All-Formatted n m ids room f.1 h.1)

Formatted-fresh : (m : ℕ) (id : Bytes) → m < 2 ^ 64 → Formatted m id → id ≢ format_id m
Formatted-fresh m id room (k, e, p) same =
    let read : some k ≡ some m =
      sym (id_seq-format_id k (omega arith)) ∙ ap id_seq (sym e ∙ same) ∙ id_seq-format_id m room in
    absurd (omega (arith, some_inj k m read))

-- If n is below 2^64 and all recovered identifiers were formatted by `format_id` from numbers
-- below n, then all of them were formatted from numbers below the sequence number that
-- `next_seq_from_ids` returns, none of them is the identifier of this number, and it is at most
-- n.
pub next_seq_from_ids-Formatted :
    (n : ℕ) (ids : List Bytes)
    → n < 2 ^ 64
    → All (Formatted n) ids
    → All (Formatted (next_seq_from_ids ids)) ids
      × All (λ id. id ≢ format_id (next_seq_from_ids ids)) ids
      × (next_seq_from_ids ids ≤ n)
next_seq_from_ids-Formatted n ids room f =
    let numbered = All-map (Formatted n) (Numbered n) (λ id. Formatted-Numbered n id room) ids f in
    let le = next_seq_from_ids-le n ids room numbered in
    let formatted =
      All-Formatted n (next_seq_from_ids ids) ids room f
        (next_seq_from_ids-Numbered n ids room numbered) in
    (
      formatted,
      All-map (Formatted (next_seq_from_ids ids)) (λ id. id ≢ format_id (next_seq_from_ids ids))
          (λ id. Formatted-fresh (next_seq_from_ids ids) id (omega arith)) ids formatted,
      le,
    )
