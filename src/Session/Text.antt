-- ===== src/Session/Text.antt =====
-- `join(" ")` and `split_ascii_whitespace`, on the bytes of a text.
use boom_gw.Base.{
  ℕ, ◌≡◌, refl, sym, ap, ◌∙◌, Bool, false, ◌||◌, List, [], ◌∷◌, ◌++◌, Bytes, ◌==◌, All,
  if◌then◌else◌,
}
use mathlib.Core.List.{append-nil}

unfoldable pub join : List Bytes → Bytes
join [] = []
join (w ∷ []) = w
join (w ∷ v ∷ ws) = w ++ 32 ∷ join (v ∷ ws)

-- Space, tab, line feed, form feed and carriage return.
unfoldable pub is_ascii_whitespace : ℕ → Bool
is_ascii_whitespace c = c == 32 || c == 9 || c == 10 || c == 12 || c == 13

-- A word that has ended, unless it is empty.
abbrev flush : Bytes → List Bytes → List Bytes
flush [] ws = ws
flush (c ∷ w) ws = (c ∷ w) ∷ ws

-- The word at the front, and the words after it.
unfoldable pub words : Bytes → Bytes × List Bytes
words [] = ([], [])
words (c ∷ cs) =
    let (w, ws) = words cs in if is_ascii_whitespace c then ([], flush w ws) else (c ∷ w, ws)

unfoldable pub split_ascii_whitespace : Bytes → List Bytes
unfolding words
split_ascii_whitespace s = let (w, ws) = words s in flush w ws

-- A word without white space that is not empty.
abbrev pub IsWord : Bytes → Type 0
IsWord [] = ⊥
IsWord (c ∷ w) = All (λ c. is_ascii_whitespace c ≡ false) (c ∷ w)

words-append :
    (w s : Bytes)
    → All (λ c. is_ascii_whitespace c ≡ false) w
    → words (w ++ s) ≡ (w ++ (words s).0, (words s).1)
unfolding words
words-append [] s h = refl
words-append (c ∷ w) s h = rw (h.0, words-append w s h.1)

All-IsWord : (w : Bytes) → IsWord w → All (λ c. is_ascii_whitespace c ≡ false) w
All-IsWord [] h = absurd h
All-IsWord (c ∷ w) h = h

flush-IsWord : (w : Bytes) (ws : List Bytes) → IsWord w → flush w ws ≡ w ∷ ws
flush-IsWord [] ws h = absurd h
flush-IsWord (c ∷ w) ws h = refl

-- A word that the end of the text or white space follows.
split_word :
    (w s : Bytes) → IsWord w → (words s).0 ≡ [] → split_ascii_whitespace (w ++ s) ≡ w ∷ (words s).1
unfolding split_ascii_whitespace
split_word w s h e =
    ap (λ r. flush r.0 r.1) (words-append w s (All-IsWord w h))
    ∙ ap (λ r. flush (w ++ r) (words s).1) e
    ∙ ap (λ r. flush r (words s).1) (append-nil w)
    ∙ flush-IsWord w (words s).1 h

pub split_ascii_whitespace-join :
    (ws : List Bytes) → All IsWord ws → split_ascii_whitespace (join ws) ≡ ws
unfolding join split_ascii_whitespace words is_ascii_whitespace
split_ascii_whitespace-join [] h = refl
split_ascii_whitespace-join (w ∷ []) h =
    ap split_ascii_whitespace (sym (append-nil w)) ∙ split_word w [] h.0 refl
split_ascii_whitespace-join (w ∷ v ∷ ws) h =
    split_word w (32 ∷ join (v ∷ ws)) h.0 refl
    ∙ ap (λ r. w ∷ r) (split_ascii_whitespace-join (v ∷ ws) h.1)
