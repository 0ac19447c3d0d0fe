-- ===== src/Access/PatchUser.antt =====
-- patch_user of src/access_api.rs, step by step, and the super admins.
use native.Mathlib.Omega.{arith}
use boom_gw.Base.{
  ℕ, ◌≡◌, refl, subst, sym, String, Bool, true, false, not, List, Option, none, some, leb,
}
use boom_gw.Access.Mongo.{Mongo, MongoLaws, change, head?}
use boom_gw.Access.Docs.{UserDoc, contains, role_super_admin}
use boom_gw.Access.Exec.{Db, Env, bad_request}
use boom_gw.Access.Archive.{
  has_sub, add_to_set, refreshed, fresh_user, upsert_user, add_user_role, set_user_roles,
}
use boom_gw.Access.Context.{provision_user, elevate, access_ctx}
use boom_gw.Access.Users.{patch_user, guard_last_super, guard_super, was_super, require}
use boom_gw.Access.Triple.{
  Triple, Triple-pure, Triple-reply, Triple-bind, Triple-attempt_ok, Triple-call, Triple-clock,
  Triple-Inv,
}
use boom_gw.Access.Frame.{Keeps-load, Keeps-require, Keeps-or_not_found, Keeps-bootstraps}
use boom_gw.Access.LastSuper.{
  is_super, HasSuper, IsUniqueUser, upsert_keeps, change_keeps, count-change_hits,
  count-change_head,
}

contains-add_to_set :
    (r : String) (rs : List String) → contains r rs ≡ true → contains r (add_to_set r rs) ≡ true
contains-add_to_set r rs h = rw (h) h

module _ {M : Mongo} (L : MongoLaws M) (sub : String) where
  abbrev Supers : M.Coll UserDoc → Type 0
  Supers c = HasSuper (L.rows UserDoc c)

  abbrev Users : M.Coll UserDoc → Type 0
  Users c = HasSuper (L.rows UserDoc c) × IsUniqueUser sub (L.rows UserDoc c)

  module _ (env : Env) where
    upsert_user_lem :
        (other : String) (email display_name : Option String) (bootstrap : Bool)
        → Triple {M = M}
            (λ db. Supers db.users)
            (λ db. Users db.users)
            (upsert_user env other email display_name bootstrap)
            (λ _ db. Users db.users)
    unfolding upsert_user refreshed fresh_user
    upsert_user_lem other email display_name bootstrap =
        Triple-bind {M = M} (λ _ db. Users db.users) (Triple-clock env)
          λ now.
            Triple-bind {M = M} (λ _ db. Users db.users)
              (Triple-call env _ λ db p. (
                p.0,
                subst (λ us. HasSuper us × IsUniqueUser sub us)
                    (sym (
                      L.upsert_rows UserDoc (has_sub other) (refreshed now email display_name)
                        (fresh_user now other email display_name bootstrap) db.users))
                    (upsert_keeps sub other (refreshed now email display_name)
                      (fresh_user now other email display_name bootstrap) (L.rows UserDoc db.users)
                      (λ u. refl) (λ u. refl) refl p),
              ))
              λ _.
                Triple-bind {M = M} (λ _ db. Users db.users) (Triple-call env _ λ db p. (p.0, p))
                  λ found. Triple-pure _ λ db p. p

    elevate_lem :
        (other : String) (b : Bool) (user : UserDoc)
        → Triple {M = M}
            (λ db. Supers db.users)
            (λ db. Users db.users)
            (elevate env other b user)
            (λ _ db. Users db.users)
    unfolding elevate add_user_role
    elevate_lem other true user =
        Triple-bind {M = M} (λ _ db. Users db.users)
          (Triple-call env _ λ db p. (
            p.0,
            subst (λ us. HasSuper us × IsUniqueUser sub us)
                (sym (
                  L.update_rows UserDoc (has_sub other)
                    (λ u. record u { role_ids = add_to_set role_super_admin u.role_ids }) db.users))
                (change_keeps sub other
                  (λ u. record u { role_ids = add_to_set role_super_admin u.role_ids })
                  (L.rows UserDoc db.users)
                  (λ u h. contains-add_to_set role_super_admin u.role_ids h) (λ u. refl) p),
          ))
          λ _. Triple-pure _ λ db p. p
    elevate_lem other false user = Triple-pure user λ db p. p

    access_lem :
        (caller : Option String)
        → Triple {M = M}
            (λ db. Supers db.users)
            (λ db. Users db.users)
            (access_ctx env caller)
            (λ _ db. Users db.users)
    unfolding access_ctx provision_user
    access_lem none = Triple-reply _ λ db p. p.0
    access_lem (some other) =
        Triple-bind {M = M} (λ _ db. Users db.users)
          (Triple-bind {M = M} (λ _ db. Users db.users)
            (Keeps-bootstraps env (λ db. db.users) (λ _ _. refl) (λ c k. k.0) _ _)
            λ b.
              Triple-bind {M = M} (λ _ db. Users db.users) (upsert_user_lem other none none b)
                λ u. elevate_lem other _ u)
          λ _. Keeps-load env (λ db. db.users) (λ _ _. refl) (λ c k. k.0) other

  module _ (env : Env) (works : (n : ℕ) → env.fails n ≡ false) (role_ids : List String) where
    -- What setting the roles leaves.
    abbrev given : UserDoc → UserDoc
    given u = record u { role_ids = role_ids }

    -- The roles may be set: a super admin is left.
    MaySet : M.Coll UserDoc → Type 0
    MaySet c = Supers c × HasSuper (change (has_sub sub) given (L.rows UserDoc c))

    two_supers :
        (c : M.Coll UserDoc)
        → IsUniqueUser sub (L.rows UserDoc c)
        → leb (M.count_documents UserDoc is_super c) 1 ≡ false
        → HasSuper (change (has_sub sub) given (L.rows UserDoc c))
    unfolding HasSuper IsUniqueUser
    two_supers c u e = ground (
      arith,
      L.count_rows UserDoc is_super c,
      count-change_hits is_super (has_sub sub) given (L.rows UserDoc c),
    )

    no_super :
        (c : M.Coll UserDoc)
        → Users c
        → was_super (some (head? (M.find UserDoc (has_sub sub) c))) ≡ false
        → HasSuper (change (has_sub sub) given (L.rows UserDoc c))
    unfolding HasSuper IsUniqueUser
    no_super c p e = ground (
      arith,
      p.0,
      p.1,
      L.find_rows UserDoc (has_sub sub) c,
      count-change_head (has_sub sub) given (L.rows UserDoc c),
    )

    enough :
        (b : Bool)
        → Triple {M = M}
            (λ db. Supers db.users)
            (λ db.
              Supers db.users
              × (b ≡ false → HasSuper (change (has_sub sub) given (L.rows UserDoc db.users))))
            (require (not b) (bad_request "cannot remove the last Super admin"))
            (λ _ db. MaySet db.users)
    unfolding require MaySet
    enough true = Triple-reply _ λ db p. p.0
    enough false = Triple-pure tt λ db p. (p.0, p.1 refl)

    guard_super_lem :
        (b : Bool)
        → Triple {M = M}
            (λ db. Supers db.users)
            (λ db.
              Users db.users
              × (was_super (some (head? (M.find UserDoc (has_sub sub) db.users))) ≡ b))
            (guard_super env b)
            (λ _ db. MaySet db.users)
    unfolding guard_super MaySet
    guard_super_lem true =
        Triple-bind {M = M}
          (λ n db.
            Supers db.users
            × (leb n 1 ≡ false → HasSuper (change (has_sub sub) given (L.rows UserDoc db.users))))
          (Triple-call env _ λ db p. (p.0.0, (p.0.0, λ e. two_supers db.users p.0.1 e)))
          λ n. enough (leb n 1)
    guard_super_lem false = Triple-pure tt λ db p. (p.0.0, no_super db.users p.0 p.1)

    guard_lem :
        (b : Bool)
        → contains role_super_admin role_ids ≡ b
        → Triple {M = M}
            (λ db. Supers db.users)
            (λ db. Users db.users)
            (guard_last_super env sub b)
            (λ _ db. MaySet db.users)
    unfolding guard_last_super MaySet
    guard_lem true e = Triple-pure tt λ db p.
        (p.0, (change_keeps sub sub given (L.rows UserDoc db.users) (λ u h. e) (λ u. refl) p).0)
    guard_lem false e =
        Triple-bind {M = M}
          (λ target db.
            Users db.users
            × (was_super (some (head? (M.find UserDoc (has_sub sub) db.users))) ≡ was_super target))
          (Triple-attempt_ok env _ works λ db p. (p, refl))
          λ target. guard_super_lem (was_super target)

    patch_keeps :
        (caller : Option String)
        → Triple {M = M}
            (λ db. Supers db.users)
            (λ db. Users db.users)
            (patch_user env caller sub role_ids)
            (λ _ db. Supers db.users)
    unfolding patch_user set_user_roles MaySet
    patch_keeps caller = Triple-bind {M = M} _ (access_lem env caller) λ ctx.
        Triple-bind {M = M} _ (Keeps-require env (λ db. db.users) (λ _ _. refl) (λ c k. k.0) _ _)
          λ _.
            Triple-bind {M = M} _
              (Keeps-require env (λ db. db.users) (λ _ _. refl) (λ c k. k.0) _ _)
              λ _. Triple-bind {M = M} _ (guard_lem _ refl) λ _.
                Triple-bind {M = M} (λ _ db. Supers db.users)
                  (Triple-call env _ λ db p. (
                    p.0,
                    subst HasSuper (sym (L.update_rows UserDoc (has_sub sub) given db.users)) p.1,
                  ))
                  λ found.
                    Triple-bind {M = M} (λ _ db. Supers db.users)
                      (Keeps-require env (λ db. db.users) (λ _ _. refl) (λ c k. k) found _)
                      λ _.
                        Triple-bind {M = M} (λ _ db. Supers db.users)
                          (Triple-call env _ λ db p. (p, p))
                          λ updated.
                            Triple-bind {M = M} (λ _ db. Supers db.users)
                              (Keeps-or_not_found env (λ db. db.users) (λ _ _. refl) (λ c k. k) _
                                updated)
                              λ u. Triple-pure _ λ db p. p

-- For collections that meet MongoLaws: if no database operation fails, the document of the user
-- to patch is unique, and some user is a super admin, then after patch_user, by any caller, of
-- any user and with any roles, some user is a super admin, whatever the response.
pub patch_user-HasSuper :
    {M : Mongo} (L : MongoLaws M) (env : Env) (works : (n : ℕ) → env.fails n ≡ false)
    (caller : Option String) (sub : String) (role_ids : List String) (db : Db M)
    → HasSuper (L.rows UserDoc db.users)
    → IsUniqueUser sub (L.rows UserDoc db.users)
    → HasSuper (L.rows UserDoc (patch_user env caller sub role_ids db).1.users)
patch_user-HasSuper L env works caller sub role_ids db h u =
    Triple-Inv (patch_keeps L sub env works role_ids caller) db (h, u)
