-- ===== src/Access/Upserts.antt =====
-- What `update_one` with `upsert` leaves among the rows of a collection (src/access_api.rs).
use native.Mathlib.Omega.{arith}
use boom_gw.Base.{
  inr, inl, ◌≡◌, refl, String, Bool, true, ◌&&◌, List, [], ◌∷◌, ◌++◌, if◌then◌else◌, Bool-cases,
  str_eq, eq_iff,
}
use boom_gw.Access.Mongo.{any, change}

any-change_hit :
    {D : Type 0} (p q : D → Bool) (d : D) (ds : List D)
    → p d ≡ true
    → any q ds ≡ true
    → any p (change q (λ _. d) ds) ≡ true
unfolding any change
any-change_hit p q d [] h a = a
any-change_hit p q d (e ∷ ds) h a =
    ground (arith, any-change_hit p q d ds, Bool-cases (q e), Bool-cases (p e))

change_same : {D : Type 0} (q : D → Bool) (ds : List D) → change q (λ d. d) ds ≡ ds
unfolding change
change_same q [] = refl
change_same q (d ∷ ds) = elim (Bool-cases (q d)) [
  | inl t ↦ rw (t, change_same q ds) refl
  | inr f ↦ rw (f, change_same q ds) refl
]

any-last :
    {D : Type 0} (p : D → Bool) (ds : List D) (d : D) → p d ≡ true → any p (ds ++ d ∷ []) ≡ true
unfolding any
any-last p [] d h = ground arith
any-last p (e ∷ ds) d h = ground (arith, any-last p ds d h, Bool-cases (p e))

any-before :
    {D : Type 0} (p : D → Bool) (ds : List D) (d : D)
    → any p ds ≡ true
    → any p (ds ++ d ∷ []) ≡ true
unfolding any
any-before p [] d h = ground arith
any-before p (e ∷ ds) d h = ground (arith, any-before p ds d, Bool-cases (p e))

-- An upsert leaves a document that passes every test of the new one,
pub upsert_hit :
    {D : Type 0} (p q : D → Bool) (d : D) (ds : List D)
    → p d ≡ true
    → any p (if any q ds then change q (λ _. d) ds else (ds ++ d ∷ [])) ≡ true
upsert_hit p q d ds h = elim (Bool-cases (any q ds)) [
  | inl t ↦ ground (arith, any-change_hit p q d ds h)
  | inr f ↦ ground (arith, any-last p ds d h)
]

-- and one that sets nothing leaves every document and one that the filter finds.
pub insert_if_missing :
    {D : Type 0} (p q : D → Bool) (d : D) (ds : List D)
    → any p ds ≡ true
    → any p (if any q ds then change q (λ d. d) ds else (ds ++ d ∷ [])) ≡ true
insert_if_missing p q d ds h = elim (Bool-cases (any q ds)) [
  | inl t ↦ ground (arith, change_same q ds)
  | inr f ↦ ground (arith, any-before p ds d h)
]

pub insert_if_missing_hit :
    {D : Type 0} (q : D → Bool) (d : D) (ds : List D)
    → q d ≡ true
    → any q (if any q ds then change q (λ d. d) ds else (ds ++ d ∷ [])) ≡ true
insert_if_missing_hit q d ds h = elim (Bool-cases (any q ds)) [
  | inl t ↦ ground (arith, change_same q ds)
  | inr f ↦ ground (arith, any-last q ds d h)
]

pub is_pair_refl : (s t : String) → (str_eq s s && str_eq t t) ≡ true
is_pair_refl s t = rw ((eq_iff s s).1 refl, (eq_iff t t).1 refl) refl
