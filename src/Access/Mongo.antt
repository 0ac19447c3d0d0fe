-- ===== src/Access/Mongo.antt =====
-- The MongoDB driver, as far as the access layer of src/archive.rs uses it. It is no code of the
-- repository, so the collections and their operations are a parameter, and what the code relies
-- on is a record of laws about the documents that a collection holds.
use native.Mathlib.Omega.{arith}
use boom_gw.Base.{
  ℕ, ◌+◌, ◌≡◌, refl, Bool, true, false, not, ◌&&◌, List, [], ◌∷◌, ◌++◌, Option, none, some,
  if◌then◌else◌, sym, some_inj,
}

-- The elements that pass a test.
unfoldable pub select : {D : Type 0} → (D → Bool) → List D → List D
select p [] = []
select p (d ∷ ds) = let rest = select p ds in if p d then d ∷ rest else rest

-- The elements with those that pass a test changed.
unfoldable pub change : {D : Type 0} → (D → Bool) → (D → D) → List D → List D
change p f [] = []
change p f (d ∷ ds) = (if p d then f d else d) ∷ change p f ds

unfoldable pub any : {D : Type 0} → (D → Bool) → List D → Bool
any p [] = false
any p (d ∷ ds) = if p d then true else any p ds

unfoldable pub count : {D : Type 0} → (D → Bool) → List D → ℕ
count p [] = 0
count p (d ∷ ds) = (if p d then 1 else 0) + count p ds

abbrev pub head? : {D : Type 0} → List D → Option D
head? [] = none
head? (d ∷ ds) = some d

-- A filter is a test on documents; the filters of updates and upserts name one `_id`. An insertion
-- is refused, with `none`, when it breaks a unique index, which `clashes` tests, and so is an
-- update of an indexed field, `update_unique`, when a document that it does not match has the value.
pub record Mongo : Type 1 where
  pub Coll : Type 0 → Type 0
  pub find : (D : Type 0) → (D → Bool) → Coll D → List D
  pub count_documents : (D : Type 0) → (D → Bool) → Coll D → ℕ
  pub insert_one : (D : Type 0) → (D → Bool) → D → Coll D → Option (Coll D)
  pub update_one : (D : Type 0) → (D → Bool) → (D → D) → Coll D → Coll D
  pub update_unique : (D : Type 0) → (D → Bool) → (D → Bool) → (D → D) → Coll D → Option (Coll D)
  pub upsert : (D : Type 0) → (D → Bool) → (D → D) → D → Coll D → Coll D
  pub delete : (D : Type 0) → (D → Bool) → Coll D → Coll D

-- What the operations do to the documents of a collection, listed in some order.
pub record MongoLaws (M : Mongo) : Type 1 where
  pub rows : (D : Type 0) → M.Coll D → List D
  pub find_rows : (D : Type 0) (p : D → Bool) (c : M.Coll D) → M.find D p c ≡ select p (rows D c)
  pub count_rows :
      (D : Type 0) (p : D → Bool) (c : M.Coll D) → M.count_documents D p c ≡ count p (rows D c)
  pub insert_rows :
      (D : Type 0) (clashes : D → Bool) (d : D) (c c' : M.Coll D)
      → M.insert_one D clashes d c ≡ some c'
      → rows D c' ≡ rows D c ++ d ∷ []
  pub update_rows :
      (D : Type 0) (p : D → Bool) (f : D → D) (c : M.Coll D)
      → rows D (M.update_one D p f c) ≡ change p f (rows D c)
  pub update_unique_rows :
      (D : Type 0) (clashes p : D → Bool) (f : D → D) (c c' : M.Coll D)
      → M.update_unique D clashes p f c ≡ some c'
      → rows D c' ≡ change p f (rows D c)
  pub upsert_rows :
      (D : Type 0) (p : D → Bool) (f : D → D) (d : D) (c : M.Coll D)
      → rows D (M.upsert D p f d c)
        ≡ (if any p (rows D c) then change p f (rows D c) else (rows D c ++ d ∷ []))
  pub delete_rows :
      (D : Type 0) (p : D → Bool) (c : M.Coll D)
      → rows D (M.delete D p c) ≡ select (λ d. not (p d)) (rows D c)

-- Collections as lists meet the laws.
abbrev pub listed : Mongo
listed = record {
  Coll = List;
  find = λ D p c. select p c;
  count_documents = λ D p c. count p c;
  insert_one = λ D clashes d c. if any clashes c then none else some (c ++ d ∷ []);
  update_one = λ D p f c. change p f c;
  update_unique =
      λ D clashes p f c. if any (λ d. clashes d && not (p d)) c then none else some (change p f c);
  upsert = λ D p f d c. if any p c then change p f c else (c ++ d ∷ []);
  delete = λ D p c. select (λ d. not (p d)) c;
}

pub inserted : {C : Type 0} {x y : C} (b : Bool) → (if b then none else some x) ≡ some y → y ≡ x
inserted true e = ground arith
inserted {x = x} {y} false e = sym (some_inj x y e)

unfoldable pub listed_laws : MongoLaws listed
listed_laws = record {
  rows = λ D c. c;
  find_rows = λ D p c. refl;
  count_rows = λ D p c. refl;
  insert_rows = λ D clashes d c c' e. inserted (any clashes c) e;
  update_rows = λ D p f c. refl;
  update_unique_rows = λ D clashes p f c c' e. inserted (any (λ d. clashes d && not (p d)) c) e;
  upsert_rows = λ D p f d c. refl;
  delete_rows = λ D p c. refl;
}
