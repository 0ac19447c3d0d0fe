-- ===== src/Base/HashMap.antt =====
-- `std::collections::HashMap` with text keys, as a list of entries without repeated keys. Nothing
-- here depends on the order of the entries.

use mathlib.Core.Bool.{false}
use mathlib.Core.Path.{◌≡◌}
use mathlib.Core.Option.{Option, none, some}
use mathlib.Core.List.{List, [], ◌∷◌}
use native.Mathlib.Omega.{arith}
use mathlib.Core.Path.{ap, refl, ◌∙◌}
use mathlib.Core.Logic.{inl, inr}
use boom_gw.Base.Tests.{if◌then◌else◌, Bool-cases}
use boom_gw.Base.Lists.{Bytes, bytes_eq, bytes_eq_refl, eq_of_bytes_eq}

abbrev pub HashMap : Type 0 → Type 0
HashMap V = List (Bytes × V)

module _ {V : Type 0} where
  unfoldable pub lookup : Bytes → HashMap V → Option V
  lookup k [] = none
  lookup k ((j, v) ∷ m) = if bytes_eq j k then some v else lookup k m

  -- An entry of the same key is replaced.
  unfoldable pub put : Bytes → V → HashMap V → HashMap V
  put k v [] = (k, v) ∷ []
  put k v ((j, w) ∷ m) = let rest = put k v m in if bytes_eq j k then (j, v) ∷ m else (j, w) ∷ rest

  pub lookup-put : (k : Bytes) (v : V) (m : HashMap V) → lookup k (put k v m) ≡ some v
  unfolding lookup put
  lookup-put k v [] = ground (arith, bytes_eq_refl k)
  lookup-put k v ((j, w) ∷ m) = ground (arith, lookup-put k v m)

  pub lookup-put_other :
      (k j : Bytes) (v : V) (m : HashMap V)
      → bytes_eq j k ≡ false
      → lookup k (put j v m) ≡ lookup k m
  unfolding lookup put
  lookup-put_other k j v [] h = rw h refl
  lookup-put_other k j v ((i, w) ∷ m) h = elim (Bool-cases (bytes_eq i j)) [
    | inl e ↦
        let same : bytes_eq i k ≡ false = ap (λ x. bytes_eq x k) (eq_of_bytes_eq i j e) ∙ h in
        rw (e) (rw (same) refl)
    | inr n ↦ rw (n) (ap (λ r. if bytes_eq i k then some w else r) (lookup-put_other k j v m h))
  ]
