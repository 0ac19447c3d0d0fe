-- ===== src/Base/BTree/Laws.antt =====
-- Predicates carried through the operations of a map, whatever the order of its keys.
use Prim.Native.Nat.{Ordering}
use mathlib.Core.Path.{◌≡◌, refl, subst}
use mathlib.Core.Logic.{◌⊎◌, inl, inr}
use mathlib.Core.List.{List, [], ◌∷◌}
use mathlib.Core.Option.{none, some}
use native.Mathlib.Omega.{arith}
use boom_gw.Base.Lists.{All, All-map}
use boom_gw.Base.BTree.{BTreeMap, insert, get, modify, remove}

-- `R` holds of any two entries, the earlier one first.
abbrev pub Pairs {ℓ κ} : {A : Type ℓ} → (A → A → Type κ) → List A → Type κ
Pairs R [] = Unit
Pairs R (x ∷ xs) = All (R x) xs × Pairs R xs

-- The values of a map under a function.
abbrev pub map_values : {K V W : Type 0} → (V → W) → BTreeMap K V → BTreeMap K W
map_values f [] = []
map_values f ((k, v) ∷ m) = (k, f v) ∷ map_values f m

pub Ordering-cases : (o : Ordering) → (o ≡ Ordering.lt) ⊎ (o ≡ Ordering.eq) ⊎ (o ≡ Ordering.gt)
Ordering-cases Ordering.lt = inl refl
Ordering-cases Ordering.eq = inr (inl refl)
Ordering-cases Ordering.gt = inr (inr refl)

module _ {K V : Type 0} (cmp : K → K → Ordering) where
  pub get-hit :
      (k j : K) (w s : V) (m : BTreeMap K V)
      → cmp k j ≡ Ordering.eq
      → get cmp k ((j, w) ∷ m) ≡ some s
      → w ≡ s
  unfolding get
  get-hit k j w s m e h = ground arith

  module _ (P : K × V → Type 0) where
    pub All-insert :
        (k : K) (v : V) (m : BTreeMap K V)
        → get cmp k m ≡ none
        → P (k, v)
        → All P m
        → All P (insert cmp k v m)
    unfolding insert get
    All-insert k v [] h p a = (p, tt)
    All-insert k v ((j, w) ∷ m) h p a = ground (arith, All-insert k v m)

    pub All-modify :
        (k : K) (s s' : V) (m : BTreeMap K V)
        → get cmp k m ≡ some s
        → ((j : K) → P (j, s) → P (j, s'))
        → All P m
        → All P (modify cmp k (λ _. s') m)
    unfolding modify get
    All-modify k s s' [] h f a = tt
    All-modify k s s' ((j, w) ∷ m) h f a = elim (Ordering-cases (cmp k j)) [
      | inl e ↦ rw (e, modify) (a.0, All-modify k s s' m (ground arith) f a.1)
      | inr (inl e) ↦ rw (e, modify) (f j (subst (λ u. P (j, u)) (get-hit k j w s m e h) a.0), a.1)
      | inr (inr e) ↦ rw (e, modify) (a.0, All-modify k s s' m (ground arith) f a.1)
    ]

    pub All-get :
        (k : K) (s : V) (m : BTreeMap K V) → get cmp k m ≡ some s → All P m → (j : K) × P (j, s)
    unfolding get
    All-get k s [] h a = ground arith
    All-get k s ((j, w) ∷ m) h a = elim (Ordering-cases (cmp k j)) [
      | inl e ↦ All-get k s m (ground arith) a.1
      | inr (inl e) ↦ (j, subst (λ u. P (j, u)) (get-hit k j w s m e h) a.0)
      | inr (inr e) ↦ All-get k s m (ground arith) a.1
    ]

    pub All-remove : (k : K) (m : BTreeMap K V) → All P m → All P (remove cmp k m)
    unfolding remove
    All-remove k [] a = tt
    All-remove k ((j, w) ∷ m) a = ground (arith, All-remove k m)

  -- A symmetric relation between the entries, kept by an insertion under a new key.
  module _ (R : K × V → K × V → Type 0) where
    pub Pairs-insert :
        (k : K) (v : V) (m : BTreeMap K V)
        → ((a b : K × V) → R a b → R b a)
        → get cmp k m ≡ none
        → All (R (k, v)) m
        → Pairs R m
        → Pairs R (insert cmp k v m)
    unfolding insert get
    Pairs-insert k v [] symm h r a = (tt, tt)
    Pairs-insert k v ((j, w) ∷ m) symm h r a =
        ground (arith, Pairs-insert k v m symm, All-insert (R (j, w)) k v m, symm (k, v) (j, w))

    pub Pairs-modify :
        (k : K) (s s' : V) (m : BTreeMap K V)
        → get cmp k m ≡ some s
        → ((j : K) (b : K × V) → R (j, s) b → R (j, s') b)
        → ((j : K) (b : K × V) → R b (j, s) → R b (j, s'))
        → Pairs R m
        → Pairs R (modify cmp k (λ _. s') m)
    unfolding modify get
    Pairs-modify k s s' [] h f g a = tt
    Pairs-modify k s s' ((j, w) ∷ m) h f g a = elim (Ordering-cases (cmp k j)) [
      | inl e ↦
          rw (e, modify)
            (
              All-modify (R (j, w)) k s s' m (ground arith) (λ i. g i (j, w)) a.0,
              Pairs-modify k s s' m (ground arith) f g a.1,
            )
      | inr (inl e) ↦
          rw (e, modify)
            (
              All-map (R (j, s)) (R (j, s')) (f j) m
                  (subst (λ u. All (R (j, u)) m) (get-hit k j w s m e h) a.0),
              a.1,
            )
      | inr (inr e) ↦
          rw (e, modify)
            (
              All-modify (R (j, w)) k s s' m (ground arith) (λ i. g i (j, w)) a.0,
              Pairs-modify k s s' m (ground arith) f g a.1,
            )
    ]

    pub Pairs-remove : (k : K) (m : BTreeMap K V) → Pairs R m → Pairs R (remove cmp k m)
    unfolding remove
    Pairs-remove k [] a = tt
    Pairs-remove k ((j, w) ∷ m) a = ground (arith, Pairs-remove k m, All-remove (R (j, w)) k m)

module _ {K V W : Type 0} (cmp : K → K → Ordering) (f : V → W) where
  pub map_values-insert :
      (k : K) (v : V) (m : BTreeMap K V)
      → map_values f (insert cmp k v m) ≡ insert cmp k (f v) (map_values f m)
  unfolding insert
  map_values-insert k v [] = refl
  map_values-insert k v ((j, w) ∷ m) = ground (arith, map_values-insert k v m)

  pub map_values-remove :
      (k : K) (m : BTreeMap K V) → map_values f (remove cmp k m) ≡ remove cmp k (map_values f m)
  unfolding remove
  map_values-remove k [] = refl
  map_values-remove k ((j, w) ∷ m) = ground (arith, map_values-remove k m)

  -- A change that the function does not see.
  pub map_values-modify :
      (k : K) (s s' : V) (m : BTreeMap K V)
      → get cmp k m ≡ some s
      → f s' ≡ f s
      → map_values f (modify cmp k (λ _. s') m) ≡ map_values f m
  unfolding modify get
  map_values-modify k s s' [] h e = refl
  map_values-modify k s s' ((j, w) ∷ m) h e = ground (arith, map_values-modify k s s' m)

  pub get-map_values :
      (k : K) (m : BTreeMap K V) (w : W)
      → get cmp k (map_values f m) ≡ some w
      → (s : V) × (get cmp k m ≡ some s) × (f s ≡ w)
  unfolding get
  get-map_values k [] w h = ground arith
  get-map_values k ((j, v) ∷ m) w h = elim (Ordering-cases (cmp k j)) [
    | inl e ↦ let (s, p, q) = get-map_values k m w (ground arith) in (s, ground arith, q)
    | inr (inl e) ↦ (v, ground arith, ground arith)
    | inr (inr e) ↦ let (s, p, q) = get-map_values k m w (ground arith) in (s, ground arith, q)
  ]

  pub get-map_values-none :
      (k : K) (m : BTreeMap K V) → get cmp k (map_values f m) ≡ none → get cmp k m ≡ none
  unfolding get
  get-map_values-none k [] h = refl
  get-map_values-none k ((j, v) ∷ m) h = ground (arith, get-map_values-none k m)
