-- ===== src/Access/Provision.antt =====
-- `provision_user` of src/access.rs and the roles of the user.
use native.Mathlib.Omega.{arith}
use boom_gw.Base.{
  ap₂, map, eq_iff, inr, inl, ℕ, ◌≡◌, refl, ap, ◌∙◌, String, Bool, true, false, not, ◌&&◌, List, [],
  ◌∷◌, ◌++◌, Option, none, some, Bool-cases, if◌then◌else◌,
}
use boom_gw.Access.Mongo.{Mongo, MongoLaws, any, select, change, head?}
use boom_gw.Access.Docs.{role_super_admin, UserDoc, contains, role_full_user}
use boom_gw.Access.Exec.{◌>>=◌, Db, Env, value}
use boom_gw.Access.Archive.{has_sub, initial_roles, unwrap_or, upsert_user, refreshed, fresh_user}
use boom_gw.Access.Context.{is_empty, provision_user, bootstraps, elevate}
use boom_gw.Access.Triple.{
  Ends-value, Triple, Triple-pure, Triple-bind, Triple-call_ok, Triple-clock,
}

-- The roles of a user who is there, or those of a new one.
abbrev roles_or : List String → Option UserDoc → List String
roles_or new none = new
roles_or new (some u) = u.role_ids

select-append_miss :
    {D : Type 0} (p : D → Bool) (ds : List D) (d : D)
    → any p ds ≡ false
    → p d ≡ true
    → head? (select p (ds ++ d ∷ [])) ≡ some d
unfolding any select
select-append_miss p [] d a e = ground arith
select-append_miss p (d' ∷ ds) d a e = ground (arith, select-append_miss p ds d, Bool-cases (p d'))

select_miss :
    {D : Type 0} (p : D → Bool) (ds : List D) → any p ds ≡ false → head? (select p ds) ≡ none
unfolding any select
select_miss p [] a = refl
select_miss p (d ∷ ds) a = ground (arith, select_miss p ds, Bool-cases (p d))

-- A change that keeps the test and the roles keeps the roles of the first hit.
select-change :
    (p : UserDoc → Bool) (f : UserDoc → UserDoc) (d : UserDoc) (us : List UserDoc)
    → ((u : UserDoc) → p (f u) ≡ p u)
    → ((u : UserDoc) → (f u).role_ids ≡ u.role_ids)
    → any p us ≡ true
    → roles_or d.role_ids (head? (select p (change p f us)))
      ≡ roles_or d.role_ids (head? (select p us))
unfolding any select change
select-change p f d [] hp hr a = refl
select-change p f d (u ∷ us) hp hr a =
    ground (arith, select-change p f d us hp hr, hp u, hr u, Bool-cases (p u))

-- What the upsert of a user leaves to read.
upsert_roles :
    (p : UserDoc → Bool) (f : UserDoc → UserDoc) (d : UserDoc) (us : List UserDoc)
    → ((u : UserDoc) → p (f u) ≡ p u)
    → ((u : UserDoc) → (f u).role_ids ≡ u.role_ids)
    → p d ≡ true
    → roles_or d.role_ids (head? (select p (if any p us then change p f us else (us ++ d ∷ []))))
      ≡ roles_or d.role_ids (head? (select p us))
upsert_roles p f d us hp hr e = elim (Bool-cases (any p us)) [
  | inl t ↦ ground (arith, select-change p f d us hp hr)
  | inr n ↦ ground (arith, select-append_miss p us d, select_miss p us)
]

unwrap_or-roles :
    (d : UserDoc) (o : Option UserDoc) → (unwrap_or d o).role_ids ≡ roles_or d.role_ids o
unwrap_or-roles d none = refl
unwrap_or-roles d (some u) = refl

module _ {M : Mongo} (L : MongoLaws M) (sub : String) where
  -- The roles that the documents give the user, for a new row those of the second argument.
  unfoldable pub roles_in : List String → Db M → List String
  roles_in new db = roles_or new (head? (select (has_sub sub) (L.rows UserDoc db.users)))

-- A user and the roles of the user.
abbrev pub holding : UserDoc → String × List String
holding u = (u.sub, u.role_ids)

map-change :
    (p : UserDoc → Bool) (f : UserDoc → UserDoc) (us : List UserDoc)
    → ((u : UserDoc) → holding (f u) ≡ holding u)
    → map holding (change p f us) ≡ map holding us
unfolding change
map-change p f [] h = refl
map-change p f (u ∷ us) h = elim (Bool-cases (p u)) [
  | inl t ↦ rw (t) (ap₂ (λ x y. x ∷ y) (h u) (map-change p f us h))
  | inr n ↦ rw (n) (ap (λ y. holding u ∷ y) (map-change p f us h))
]

map-snoc :
    (us : List UserDoc) (d : UserDoc)
    → map holding (us ++ d ∷ []) ≡ map holding us ++ holding d ∷ []
map-snoc [] d = refl
map-snoc (u ∷ us) d = ap (λ y. holding u ∷ y) (map-snoc us d)

-- What an upsert makes of the table of roles.
upsert_table :
    (p : UserDoc → Bool) (f : UserDoc → UserDoc) (d : UserDoc) (us : List UserDoc)
    → ((u : UserDoc) → holding (f u) ≡ holding u)
    → map holding (if any p us then change p f us else (us ++ d ∷ []))
      ≡ (if any p us then map holding us else (map holding us ++ holding d ∷ []))
upsert_table p f d us h = elim (Bool-cases (any p us)) [
  | inl t ↦ rw (t) (map-change p f us h)
  | inr n ↦ rw (n) (map-snoc us d)
]

module _ {M : Mongo} (L : MongoLaws M) (sub : String) where
  -- The roles of every user, and what is expected of them: a new user has the given ones.
  unfoldable pub table : Db M → List (String × List String)
  table db = map holding (L.rows UserDoc db.users)

  unfoldable pub joined_by : List String → Db M → List (String × List String)
  unfolding table
  joined_by new db =
      if any (has_sub sub) (L.rows UserDoc db.users)
      then table db
      else (table db ++ (sub, new) ∷ [])

module _ {M : Mongo} (L : MongoLaws M) (env : Env) (works : (n : ℕ) → env.fails n ≡ false)
    (sub : String) (email display_name : Option String) where
  -- What is known before and after the upsert.
  abbrev Before : Bool → List String → List (String × List String) → Db M → Type 0
  Before bootstrap rs all db =
      (roles_in L sub (initial_roles bootstrap) db ≡ rs)
      × (joined_by L sub (initial_roles bootstrap) db ≡ all)

  abbrev Upserted : Bool → List String → List (String × List String) → Db M → Type 0
  Upserted bootstrap rs all db =
      (roles_in L sub (initial_roles bootstrap) db ≡ rs) × (table L sub db ≡ all)

  upsert_user_lem :
      (bootstrap : Bool) (rs : List String) (all : List (String × List String))
      → Triple {M = M}
          (λ _. ⊥)
          (Before bootstrap rs all)
          (upsert_user env sub email display_name bootstrap)
          (λ u db. (u.role_ids ≡ rs) × (table L sub db ≡ all))
  unfolding upsert_user refreshed fresh_user roles_in joined_by table
  upsert_user_lem bootstrap rs all =
      Triple-bind {M = M} (λ now db. Before bootstrap rs all db) (Triple-clock env)
        λ now.
          Triple-bind {M = M} (λ _ db. Upserted bootstrap rs all db)
            (Triple-call_ok env _ works λ db p. (
              ap (λ us. roles_or (initial_roles bootstrap) (head? (select (has_sub sub) us)))
                    (L.upsert_rows UserDoc (has_sub sub) _ _ db.users)
                  ∙ upsert_roles (has_sub sub) (refreshed now email display_name)
                      (fresh_user now sub email display_name bootstrap) (L.rows UserDoc db.users)
                      (λ u. refl) (λ u. refl) ((eq_iff sub sub).1 refl)
                  ∙ p.0,
              ap (map holding) (L.upsert_rows UserDoc (has_sub sub) _ _ db.users)
                  ∙ upsert_table (has_sub sub) (refreshed now email display_name)
                      (fresh_user now sub email display_name bootstrap) (L.rows UserDoc db.users)
                      (λ u. refl)
                  ∙ p.1,
            ))
            λ _.
              Triple-bind {M = M}
                (λ found db.
                  (roles_or (initial_roles bootstrap) found ≡ rs) × (table L sub db ≡ all))
                (Triple-call_ok env _ works λ db p. (
                  ap (λ us. roles_or (initial_roles bootstrap) (head? us))
                        (L.find_rows UserDoc (has_sub sub) db.users)
                      ∙ p.0,
                  p.1,
                ))
                λ found. Triple-pure _ λ db p. (unwrap_or-roles _ found ∙ p.0, p.1)

  provision_lem :
      (site none_set : Bool) (rs : List String) (all : List (String × List String))
      → site ≡ false
      → none_set ≡ false
      → Triple {M = M}
          (λ _. ⊥)
          (Before false rs all)
          (bootstraps env site none_set >>= λ b. upsert_user env sub email display_name b >>= λ u.
            elevate env sub (site && not (contains role_super_admin u.role_ids)) u)
          (λ u db. (u.role_ids ≡ rs) × (table L sub db ≡ all))
  unfolding bootstraps elevate
  provision_lem true none_set rs all e f = ground arith
  provision_lem false true rs all e f = ground arith
  provision_lem false false rs all e f =
      Triple-bind {M = M} (λ b db. Before b rs all db) (Triple-pure false λ db p. p)
        λ b.
          Triple-bind {M = M} (λ u db. (u.role_ids ≡ rs) × (table L sub db ≡ all))
            (upsert_user_lem b rs all) λ u. Triple-pure u λ db p. p

-- For collections that meet MongoLaws: if no database operation fails, some site administrators
-- are configured, and the subject is none of them, then `provision_user` returns a user with the
-- roles that the documents gave the subject before, and with the role full_user alone if there
-- was no document; and the documents of users keep their subjects and roles, except that a
-- document of the subject with the role full_user alone is added if there was none: nobody
-- becomes a super admin by signing in.
pub provision_user-roles :
    {M : Mongo} (L : MongoLaws M) (env : Env) (works : (n : ℕ) → env.fails n ≡ false) (sub : String)
    (email display_name : Option String) (db : Db M)
    → contains sub env.site_admins ≡ false
    → is_empty env.site_admins ≡ false
    → (u : UserDoc) × ((provision_user env sub email display_name db).0 ≡ value u)
      × (u.role_ids ≡ roles_in L sub (role_full_user ∷ []) db)
      × (table L sub (provision_user env sub email display_name db).1
          ≡ joined_by L sub (role_full_user ∷ []) db)
unfolding provision_user
provision_user-roles L env works sub email display_name db site none_set =
    let (u, e, q) = Ends-value _ _ (
      (provision_lem L env works sub email display_name _ _ _ _ site none_set).run db
        (refl, refl)) in
    (u, e, q.0, q.1)
