-- ===== src/Access/Text.antt =====
-- `str::trim`, and sorting by a name, of the standard library.
use Prim.Native.Char.{code}
use Prim.Native.String.{compare}
use text.Mathlib.Text.{is_le}
use boom_gw.Base.{ℕ, String, Bool, ◌&&◌, ◌||◌, List, [], ◌∷◌, str_eq, leb, ◌==◌, if◌then◌else◌}

-- The property White_Space of Unicode.
is_whitespace : ℕ → Bool
is_whitespace c =
    leb 9 c && leb c 13
    || c == 32
    || c == 0x85
    || c == 0xa0
    || c == 0x1680
    || leb 0x2000 c && leb c 0x200a
    || c == 0x2028
    || c == 0x2029
    || c == 0x202f
    || c == 0x205f
    || c == 0x3000

trim_start : String → String
trim_start String.[] = ""
trim_start (String.◌∷◌ c s) =
    let rest = trim_start s in if is_whitespace (code c) then rest else String.◌∷◌ c s

trim_end : String → String
trim_end String.[] = ""
trim_end (String.◌∷◌ c s) =
    let rest = trim_end s in
    if str_eq rest "" && is_whitespace (code c) then "" else String.◌∷◌ c rest

unfoldable pub trim : String → String
unfolding trim_start trim_end is_whitespace
trim s = trim_end (trim_start s)

module _ {D : Type 0} (name : D → String) where
  insert_by : D → List D → List D
  insert_by d [] = d ∷ []
  insert_by d (e ∷ es) =
      if is_le (compare (name d) (name e)) then d ∷ e ∷ es else e ∷ insert_by d es

  -- `sort_by` is stable.
  unfoldable pub sort_by : List D → List D
  unfolding insert_by
  sort_by [] = []
  sort_by (d ∷ ds) = insert_by d (sort_by ds)
