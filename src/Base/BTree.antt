-- ===== src/Base/BTree.antt =====
-- `std::collections::BTreeMap` as the list of its entries in key order.
pub mod Laws
use Prim.Native.Nat.{Ordering}
use mathlib.Core.Option.{Option, none, some}
use mathlib.Core.List.{List, [], ◌∷◌, map}

abbrev pub BTreeMap : Type 0 → Type 0 → Type 0
BTreeMap K V = List (K × V)

module _ {K : Type 0} (cmp : K → K → Ordering) {V : Type 0} where
  -- An equal key keeps its place and its spelling: only the value is replaced.
  unfoldable pub insert : K → V → BTreeMap K V → BTreeMap K V
  insert k v [] = (k, v) ∷ []
  insert k v ((j, w) ∷ m) = elim (cmp k j) [
    | Ordering.lt ↦ (k, v) ∷ (j, w) ∷ m
    | Ordering.eq ↦ (j, v) ∷ m
    | Ordering.gt ↦ (j, w) ∷ insert k v m
  ]

  unfoldable pub get : K → BTreeMap K V → Option V
  get k [] = none
  get k ((j, w) ∷ m) = elim (cmp k j) [ Ordering.eq ↦ some w | _ ↦ get k m ]

  unfoldable pub remove : K → BTreeMap K V → BTreeMap K V
  remove k [] = []
  remove k ((j, w) ∷ m) = elim (cmp k j) [ Ordering.eq ↦ m | _ ↦ (j, w) ∷ remove k m ]

  -- `if let Some(v) = m.get_mut(k) { *v = f(*v) }`
  unfoldable pub modify : K → (V → V) → BTreeMap K V → BTreeMap K V
  modify k f [] = []
  modify k f ((j, w) ∷ m) = elim (cmp k j) [
    | Ordering.eq ↦ (j, f w) ∷ m
    | _ ↦ (j, w) ∷ modify k f m
  ]

  -- `m.range(..k).next_back()`
  unfoldable pub last_below : K → BTreeMap K V → Option (K × V)
  last_below k [] = none
  last_below k ((j, w) ∷ m) = elim (cmp j k) [
    | Ordering.lt ↦ elim (last_below k m) [ none ↦ some (j, w) | some e ↦ some e ]
    | _ ↦ none
  ]

  -- `m.range(k..).next()`
  unfoldable pub first_from : K → BTreeMap K V → Option (K × V)
  first_from k [] = none
  first_from k ((j, w) ∷ m) = elim (cmp j k) [ Ordering.lt ↦ first_from k m | _ ↦ some (j, w) ]

module _ {K V : Type 0} where
  abbrev pub keys : BTreeMap K V → List K
  keys = map (λ e. e.0)

  abbrev pub values : BTreeMap K V → List V
  values = map (λ e. e.1)
