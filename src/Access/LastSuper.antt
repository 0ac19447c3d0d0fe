-- ===== src/Access/LastSuper.antt =====
-- patch_user of src/access_api.rs and the last super admin.
use native.Mathlib.Omega.{arith}
use boom_gw.Base.{
  inr, inl, ◌+◌, ◌≡◌, refl, subst, sym, ap, ◌∙◌, String, Bool, true, false, List, [], ◌∷◌, ◌++◌,
  some, if◌then◌else◌, leb, Bool-cases, str_eq, eq_iff,
}
use boom_gw.Access.Mongo.{any, change, count, select, head?}
use boom_gw.Access.Docs.{UserDoc, contains, role_super_admin}
use boom_gw.Access.Archive.{has_sub, holds_role}
use boom_gw.Access.Users.{was_super}

abbrev pub is_super : UserDoc → Bool
is_super = holds_role role_super_admin

-- A change that keeps a test keeps its count.
count-change :
    (p q : UserDoc → Bool) (f : UserDoc → UserDoc) (us : List UserDoc)
    → ((u : UserDoc) → p (f u) ≡ p u)
    → count p (change q f us) ≡ count p us
unfolding count change
count-change p q f [] h = refl
count-change p q f (u ∷ us) h = ground (arith, count-change p q f us h, h u, Bool-cases (q u))

-- A change that makes a test true for nobody less does not lower its count.
count-change_le :
    (p q : UserDoc → Bool) (f : UserDoc → UserDoc) (us : List UserDoc)
    → ((u : UserDoc) → p u ≡ true → p (f u) ≡ true)
    → leb (count p us) (count p (change q f us)) ≡ true
unfolding count change
count-change_le p q f [] h = refl
count-change_le p q f (u ∷ us) h =
    ground (arith, count-change_le p q f us h, h u, Bool-cases (q u), Bool-cases (p u))

-- A change touches no more than the hits.
pub count-change_hits :
    (p q : UserDoc → Bool) (f : UserDoc → UserDoc) (us : List UserDoc)
    → leb (count p us) (count p (change q f us) + count q us) ≡ true
unfolding count change
count-change_hits p q f [] = refl
count-change_hits p q f (u ∷ us) =
    ground
      (arith, count-change_hits p q f us, Bool-cases (q u), Bool-cases (p u), Bool-cases (p (f u)))

count-change_zero :
    (p q : UserDoc → Bool) (f : UserDoc → UserDoc) (us : List UserDoc)
    → count q us ≡ 0
    → count p (change q f us) ≡ count p us
unfolding count change
count-change_zero p q f [] h = refl
count-change_zero p q f (u ∷ us) h = ground (arith, count-change_zero p q f us, Bool-cases (q u))

-- Changing the only hit, who is no super admin, costs no super admin.
pub count-change_head :
    (q : UserDoc → Bool) (f : UserDoc → UserDoc) (us : List UserDoc)
    → leb (count q us) 1 ≡ true
    → was_super (some (head? (select q us))) ≡ false
    → leb (count is_super us) (count is_super (change q f us)) ≡ true
unfolding count change select was_super
count-change_head q f [] u a = refl
count-change_head q f (v ∷ us) u a = elim (Bool-cases (q v)) [
  | inl t ↦ ground (arith, count-change_zero is_super q f us, Bool-cases (is_super (f v)))
  | inr n ↦ ground (arith, count-change_head q f us)
]

count-append :
    (p : UserDoc → Bool) (us : List UserDoc) (d : UserDoc)
    → count p (us ++ d ∷ []) ≡ count p us + (if p d then 1 else 0)
unfolding count
count-append p [] d = ground (arith, Bool-cases (p d))
count-append p (u ∷ us) d = ground (arith, count-append p us d, Bool-cases (p u))

count_none : (p : UserDoc → Bool) (us : List UserDoc) → any p us ≡ false → count p us ≡ 0
unfolding count any
count_none p [] h = refl
count_none p (u ∷ us) h = ground (arith, count_none p us, Bool-cases (p u))

-- Some user is a super admin.
unfoldable pub HasSuper : List UserDoc → Type 0
HasSuper us = leb 1 (count is_super us) ≡ true

-- ... and the `_id` of users is unique.
unfoldable pub IsUniqueUser : String → List UserDoc → Type 0
IsUniqueUser sub us = leb (count (has_sub sub) us) 1 ≡ true

-- Both hold after the upsert of any user,
pub upsert_keeps :
    (sub other : String) (f : UserDoc → UserDoc) (d : UserDoc) (us : List UserDoc)
    → ((u : UserDoc) → (f u).role_ids ≡ u.role_ids)
    → ((u : UserDoc) → (f u).sub ≡ u.sub)
    → d.sub ≡ other
    → HasSuper us × IsUniqueUser sub us
    → HasSuper (if any (has_sub other) us then change (has_sub other) f us else (us ++ d ∷ []))
      × IsUniqueUser sub
          (if any (has_sub other) us then change (has_sub other) f us else (us ++ d ∷ []))
unfolding HasSuper IsUniqueUser
upsert_keeps sub other f d us hr hs e k = elim (Bool-cases (any (has_sub other) us)) [
  | inl t ↦ (
    ground (
      arith,
      k.0,
      count-change is_super (has_sub other) f us λ u. ap (contains role_super_admin) (hr u),
    ),
    ground (
      arith,
      k.1,
      count-change (has_sub sub) (has_sub other) f us λ u. ap (λ s. str_eq s sub) (hs u),
    ),
  )
  | inr n ↦ (
    ground (arith, k.0, count-append is_super us d),
    elim (Bool-cases (has_sub sub d)) [
      | inl t ↦ ground (
        arith,
        count-append (has_sub sub) us d,
        subst (λ o. any (has_sub o) us ≡ false → count (has_sub sub) us ≡ 0)
            (sym ((eq_iff d.sub sub).0 t) ∙ e) (count_none (has_sub sub) us),
      )
      | inr m ↦ ground (arith, k.1, count-append (has_sub sub) us d)
    ],
  )
]

-- after a change of roles that takes the role from nobody,
pub change_keeps :
    (sub other : String) (f : UserDoc → UserDoc) (us : List UserDoc)
    → ((u : UserDoc) → is_super u ≡ true → is_super (f u) ≡ true)
    → ((u : UserDoc) → (f u).sub ≡ u.sub)
    → HasSuper us × IsUniqueUser sub us
    → HasSuper (change (has_sub other) f us) × IsUniqueUser sub (change (has_sub other) f us)
unfolding HasSuper IsUniqueUser
change_keeps sub other f us hr hs k = (
  ground (arith, k.0, count-change_le is_super (has_sub other) f us hr),
  ground (
    arith,
    k.1,
    count-change (has_sub sub) (has_sub other) f us λ u. ap (λ s. str_eq s sub) (hs u),
  ),
)
