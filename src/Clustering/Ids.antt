-- ===== src/Clustering/Ids.antt =====
-- Superevent identifiers: `format!("S{:06}", n)` of src/clustering.rs and its reading in
-- src/state.rs.
use boom_gw.Base.{
  ℕ, zero, suc, ◌+◌, ◌-◌, ◌*◌, ◌/◌, ◌%◌, ◌^◌, ◌<◌, ◌≡◌, refl, ◌∙◌, Bool, true, false, ◌&&◌, [], ◌∷◌,
  Option, none, some, arith, ltb, leb, ◌==◌, if◌then◌else◌, Bool-cases, inl, inr, length, Bytes,
}

-- The decimal digits of n in front of `rest`.
emit : ℕ → ℕ → Bytes → Bytes
emit zero n rest = rest
emit (suc f) n rest =
    let more = emit f (n / 10) ((48 + n % 10) ∷ rest) in if ltb n 10 then (48 + n) ∷ rest else more

zeros : ℕ → Bytes → Bytes
zeros zero rest = rest
zeros (suc k) rest = b'0' ∷ zeros k rest

-- `format!("S{:06}", n)`
unfoldable pub format_id : ℕ → Bytes
unfolding emit zeros
format_id n = let digits = emit (suc n) n [] in b'S' ∷ zeros (6 - length digits) digits

-- The loop of `str::parse::<u64>`: a digit at a time, with overflow checked.
parse_digits : ℕ → Bytes → Option ℕ
parse_digits acc [] = some acc
parse_digits acc (c ∷ cs) =
    let value = acc * 10 + (c - 48) in
    let rest = parse_digits value cs in
    if leb 48 c && leb c 57 then (if ltb value (2 ^ 64) then rest else none) else none

-- `str::parse::<u64>`: a sign `+` is allowed, no digit at all is an error.
unfoldable pub parse_u64 : Bytes → Option ℕ
unfolding parse_digits
parse_u64 [] = none
parse_u64 (c ∷ []) = parse_digits 0 (c ∷ [])
parse_u64 (c ∷ d ∷ cs) = if c == b'+' then parse_digits 0 (d ∷ cs) else parse_digits 0 (c ∷ d ∷ cs)

-- `id.strip_prefix('S').and_then(|s| s.parse::<u64>().ok())`
unfoldable pub id_seq : Bytes → Option ℕ
unfolding parse_u64
id_seq [] = none
id_seq (c ∷ rest) = if c == b'S' then parse_u64 rest else none

parse_digits-emit :
    (f n : ℕ) (rest : Bytes)
    → n < f
    → n < 2 ^ 64
    → parse_digits 0 (emit f n rest) ≡ parse_digits n rest
unfolding emit parse_digits
parse_digits-emit zero n rest h k = elim h [ ]
parse_digits-emit (suc f) n rest h k = elim (Bool-cases (ltb n 10)) [
  | inl small ↦ ground arith
  | inr big ↦ rw big (
      parse_digits-emit f (n / 10) ((48 + n % 10) ∷ rest) (ground arith) (ground arith)
      ∙ ground arith)
]

parse_digits-zeros : (k : ℕ) (rest : Bytes) → parse_digits 0 (zeros k rest) ≡ parse_digits 0 rest
unfolding zeros parse_digits
parse_digits-zeros zero rest = refl
parse_digits-zeros (suc k) rest = parse_digits-zeros k rest

-- A text of digits only, which has no sign.
abbrev first_is_digit : Bytes → Bool
first_is_digit [] = false
first_is_digit (c ∷ cs) = leb 48 c && leb c 57

first_is_digit-emit : (f n : ℕ) (rest : Bytes) → n < f → first_is_digit (emit f n rest) ≡ true
unfolding emit
first_is_digit-emit zero n rest h = elim h [ ]
first_is_digit-emit (suc f) n rest h = elim (Bool-cases (ltb n 10)) [
  | inl small ↦ ground arith
  | inr big ↦ rw big (first_is_digit-emit f (n / 10) ((48 + n % 10) ∷ rest) (ground arith))
]

first_is_digit-zeros :
    (k : ℕ) (rest : Bytes) → first_is_digit rest ≡ true → first_is_digit (zeros k rest) ≡ true
unfolding zeros
first_is_digit-zeros zero rest h = h
first_is_digit-zeros (suc k) rest h = refl

parse_u64-unsigned :
    (text : Bytes) → first_is_digit text ≡ true → parse_u64 text ≡ parse_digits 0 text
unfolding parse_u64
parse_u64-unsigned [] h = ground arith
parse_u64-unsigned (c ∷ []) h = refl
parse_u64-unsigned (c ∷ d ∷ cs) h = ground arith

-- For every number below 2^64, reading the sequence number of its formatted identifier gives the
-- number back.
pub id_seq-format_id : (n : ℕ) → n < 2 ^ 64 → id_seq (format_id n) ≡ some n
unfolding id_seq format_id
id_seq-format_id n h =
    let digits : Bytes = emit (suc n) n [] in
    parse_u64-unsigned (zeros (6 - length digits) digits) (
      first_is_digit-zeros (6 - length digits) digits
        (first_is_digit-emit (suc n) n [] (omega arith)))
    ∙ parse_digits-zeros (6 - length digits) digits
    ∙ parse_digits-emit (suc n) n [] (omega arith) h

format_7 : format_id 7 ≡ b'S' ∷ b'0' ∷ b'0' ∷ b'0' ∷ b'0' ∷ b'0' ∷ b'7' ∷ []
unfolding format_id
format_7 = refl
