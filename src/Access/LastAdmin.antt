-- ===== src/Access/LastAdmin.antt =====
-- remove_group_member of src/access_api.rs and the last admin of a group.
use boom_gw.Base.{
  inr, inl, arith, ℕ, ◌+◌, ◌≡◌, refl, String, Bool, true, false, not, ◌&&◌, List, [], ◌∷◌, Option,
  some, leb, Bool-cases, str_eq,
}
use boom_gw.Access.Mongo.{Mongo, MongoLaws, count, select, head?}
use boom_gw.Access.Docs.{GroupUserDoc}
use boom_gw.Access.Exec.{bad_request, Db, Env}
use boom_gw.Access.Archive.{is_membership, group_admin_count}
use boom_gw.Access.Members.{guard_admin, remove_group_member, guard_last_admin, was_admin}
use boom_gw.Access.Users.{require}
use boom_gw.Access.Triple.{
  Triple-Inv, Triple, Triple-pure, Triple-reply, Triple-bind, Triple-attempt_ok, Triple-call,
}
use boom_gw.Access.Frame.{Keeps-access_ctx, Keeps-require, Keeps-group_detail}

-- The rows that make someone an admin of the group.
abbrev is_admin_of : String → GroupUserDoc → Bool
is_admin_of gid gu = str_eq gu.group_id gid && gu.admin

count-select_zero :
    {D : Type 0} (p q : D → Bool) (ds : List D)
    → count q ds ≡ 0
    → count p (select (λ d. not (q d)) ds) ≡ count p ds
unfolding count select
count-select_zero p q [] e = refl
count-select_zero p q (d ∷ ds) e = ground (arith, count-select_zero p q ds, Bool-cases (q d))

count-select_le :
    {D : Type 0} (p q : D → Bool) (ds : List D)
    → leb (count p ds) (count p (select (λ d. not (q d)) ds) + count q ds) ≡ true
unfolding count select
count-select_le p q [] = refl
count-select_le p q (d ∷ ds) =
    ground (arith, count-select_le p q ds, Bool-cases (q d), Bool-cases (p d))

-- Removing the only row of a member who is no admin removes no admin.
count-select_head :
    (gid : String) (q : GroupUserDoc → Bool) (gus : List GroupUserDoc)
    → leb (count q gus) 1 ≡ true
    → was_admin (some (head? (select q gus))) ≡ false
    → count (is_admin_of gid) (select (λ d. not (q d)) gus) ≡ count (is_admin_of gid) gus
unfolding count select was_admin
count-select_head gid q [] u a = refl
count-select_head gid q (gu ∷ gus) u a = elim (Bool-cases (q gu)) [
  | inl t ↦ ground (arith, count-select_zero (is_admin_of gid) q gus)
  | inr f ↦ ground (arith, count-select_head gid q gus)
]

module _ {M : Mongo} (L : MongoLaws M) (gid : String) where
  -- The group has an admin among the documents.
  unfoldable pub HasAdmin : M.Coll GroupUserDoc → Type 0
  HasAdmin c = leb 1 (count (is_admin_of gid) (L.rows GroupUserDoc c)) ≡ true

module _ {M : Mongo} (L : MongoLaws M) (gid sub : String) where
  -- The `_id` of a membership is unique.
  unfoldable pub IsUniqueMember : M.Coll GroupUserDoc → Type 0
  IsUniqueMember c = leb (count (is_membership gid sub) (L.rows GroupUserDoc c)) 1 ≡ true

  -- ... and stays there when the membership is deleted.
  MayRemove : M.Coll GroupUserDoc → Type 0
  MayRemove c = HasAdmin L gid c × HasAdmin L gid (M.delete GroupUserDoc (is_membership gid sub) c)

  two_admins :
      (c : M.Coll GroupUserDoc)
      → IsUniqueMember c
      → leb (M.count_documents GroupUserDoc (is_admin_of gid) c) 1 ≡ false
      → HasAdmin L gid (M.delete GroupUserDoc (is_membership gid sub) c)
  unfolding HasAdmin IsUniqueMember
  two_admins c u e = ground (
    arith,
    L.count_rows GroupUserDoc (is_admin_of gid) c,
    L.delete_rows GroupUserDoc (is_membership gid sub) c,
    count-select_le (is_admin_of gid) (is_membership gid sub) (L.rows GroupUserDoc c),
  )

  no_admin :
      (c : M.Coll GroupUserDoc)
      → HasAdmin L gid c
      → IsUniqueMember c
      → was_admin (some (head? (M.find GroupUserDoc (is_membership gid sub) c))) ≡ false
      → HasAdmin L gid (M.delete GroupUserDoc (is_membership gid sub) c)
  unfolding HasAdmin IsUniqueMember
  no_admin c h u e = ground (
    arith,
    L.find_rows GroupUserDoc (is_membership gid sub) c,
    L.delete_rows GroupUserDoc (is_membership gid sub) c,
    count-select_head gid (is_membership gid sub) (L.rows GroupUserDoc c),
  )

  module _ (env : Env) (works : (n : ℕ) → env.fails n ≡ false) where
    enough :
        (b : Bool)
        → Triple {M = M}
            (λ db. HasAdmin L gid db.group_users)
            (λ db.
              HasAdmin L gid db.group_users
              × (b ≡ false
                  → HasAdmin L gid (M.delete GroupUserDoc (is_membership gid sub) db.group_users)))
            (require (not b) (bad_request "cannot remove the group's last admin"))
            (λ _ db. MayRemove db.group_users)
    unfolding require MayRemove
    enough true = Triple-reply _ λ db p. p.0
    enough false = Triple-pure tt λ db p. (p.0, p.1 refl)

    guard_admin_lem :
        (b : Bool)
        → Triple {M = M}
            (λ db. HasAdmin L gid db.group_users)
            (λ db.
              HasAdmin L gid db.group_users
              × IsUniqueMember db.group_users
              × (was_admin
                    (some (head? (M.find GroupUserDoc (is_membership gid sub) db.group_users)))
                  ≡ b))
            (guard_admin env gid b)
            (λ _ db. MayRemove db.group_users)
    unfolding guard_admin group_admin_count MayRemove
    guard_admin_lem true =
        Triple-bind {M = M}
          (λ n db.
            HasAdmin L gid db.group_users
            × (leb n 1 ≡ false
                → HasAdmin L gid (M.delete GroupUserDoc (is_membership gid sub) db.group_users)))
          (Triple-call env _ λ db p. (p.0, (p.0, λ e. two_admins db.group_users p.1 e)))
          λ n. enough (leb n 1)
    guard_admin_lem false = Triple-pure tt λ db p. (p.0, no_admin db.group_users p.0 p.1 p.2)

    guard_lem :
        Triple {M = M}
          (λ db. HasAdmin L gid db.group_users)
          (λ db. HasAdmin L gid db.group_users × IsUniqueMember db.group_users)
          (guard_last_admin env gid sub)
          (λ _ db. MayRemove db.group_users)
    unfolding guard_last_admin
    guard_lem =
        Triple-bind {M = M}
          (λ target db.
            HasAdmin L gid db.group_users
            × IsUniqueMember db.group_users
            × (was_admin (some (head? (M.find GroupUserDoc (is_membership gid sub) db.group_users)))
                ≡ was_admin target))
          (Triple-attempt_ok env _ works λ db p. (p.0, p.1, refl))
          λ target. guard_admin_lem (was_admin target)

    remove_keeps :
        (caller : Option String)
        → Triple {M = M}
            (λ db. HasAdmin L gid db.group_users)
            (λ db. HasAdmin L gid db.group_users × IsUniqueMember db.group_users)
            (remove_group_member env caller gid sub)
            (λ _ db. HasAdmin L gid db.group_users)
    unfolding remove_group_member MayRemove
    remove_keeps caller =
        Triple-bind {M = M} _
          (Keeps-access_ctx env (λ db. db.group_users) (λ _ _. refl) (λ c k. k.0) (λ _ _. refl)
            caller)
          λ ctx.
            Triple-bind {M = M} _
              (Keeps-require env (λ db. db.group_users) (λ _ _. refl) (λ c k. k.0) _ _)
              λ _. Triple-bind {M = M} _ guard_lem λ _.
                Triple-bind {M = M} (λ _ db. HasAdmin L gid db.group_users)
                  (Triple-call env _ λ db p. p)
                  λ _.
                    Keeps-group_detail env (λ db. db.group_users) (λ _ _. refl) (λ c k. k) ctx gid

-- For collections that meet MongoLaws: if no database operation fails, the document of the
-- membership to remove is unique, and the group has an admin, then after remove_group_member, by
-- any caller and of any member, the group has an admin, whatever the response.
pub remove_group_member-HasAdmin :
    {M : Mongo} (L : MongoLaws M) (env : Env) (works : (n : ℕ) → env.fails n ≡ false)
    (caller : Option String) (gid sub : String) (db : Db M)
    → HasAdmin L gid db.group_users
    → IsUniqueMember L gid sub db.group_users
    → HasAdmin L gid (remove_group_member env caller gid sub db).1.group_users
remove_group_member-HasAdmin L env works caller gid sub db h u =
    Triple-Inv (remove_keeps L gid sub env works caller) db (h, u)
