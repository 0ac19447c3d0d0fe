-- ===== src/Access/Frame.antt =====
-- What the context of a caller and the detail of a group leave alone: a part of the database that
-- neither `users` nor the number of tries belongs to.
use boom_gw.Base.{
  ℕ, ◌+◌, ◌≡◌, refl, subst, sym, String, Bool, true, false, List, [], ◌∷◌, Option, none, some, ◌==◌,
}
use boom_gw.Access.Mongo.{Mongo}
use boom_gw.Access.Docs.{UserDoc, GroupUserDoc, role_super_admin}
use boom_gw.Access.Exec.{
  clock, Db, Env, Exec, Response, not_found, ◌>>=◌, pure, reply, call, attempt, read,
}
use boom_gw.Access.Archive.{user_count, upsert_user, add_user_role}
use boom_gw.Access.Context.{
  AccessContext, provision_user, bootstraps, elevate, acls_of_roles, streams_of_groups, load,
  access_ctx,
}
use boom_gw.Access.Detail.{stream_refs, group_stream_refs, members_of, or_not_found, group_detail}
use boom_gw.Access.Users.{require}
use boom_gw.Access.Triple.{
  Triple, Ends, Triple-pure, Triple-reply, Triple-bind, Triple-attempt, Triple-call,
}

module _ {M : Mongo} (env : Env) {X : Type 0} (part : Db M → X)
    (part_tries : (db : Db M) (n : ℕ) → part (record db { tries = n }) ≡ part db)
    {Inv K : X → Type 0} (weaken : (x : X) → K x → Inv x) where
  abbrev pub Keeps : {A : Type 0} → Exec M A → Type 0
  Keeps {A} m = Triple (λ db. Inv (part db)) (λ db. K (part db)) m (λ _ db. K (part db))

  Keeps-bind :
      {A B : Type 0} {m : Exec M A} {f : A → Exec M B}
      → Keeps m
      → ((a : A) → Keeps (f a))
      → Keeps (m >>= f)
  Keeps-bind km kf = Triple-bind (λ _ db. K (part db)) km kf

  Keeps-call :
      {A : Type 0} (op : Db M → A × Db M)
      → ((db : Db M) → part (op db).1 ≡ part db)
      → Keeps (call env op)
  Keeps-call op h = Triple-call env op λ db k. (
    subst Inv (sym (part_tries db (db.tries + 1))) (weaken (part db) k),
    subst K (sym (h (record db { tries = db.tries + 1 })))
        (subst K (sym (part_tries db (db.tries + 1))) k),
  )

  Keeps-read : {A : Type 0} (f : Db M → A) → Keeps (call env (read f))
  Keeps-read f = Keeps-call (read f) λ db. refl

  Keeps-try : {A : Type 0} (f : Db M → A) → Keeps (attempt env (read f))
  Keeps-try f = Triple-attempt env (read f) λ db k. (
    subst K (sym (part_tries db (db.tries + 1))) k,
    subst K (sym (part_tries db (db.tries + 1))) k,
  )

  Keeps-pure : {A : Type 0} (a : A) → Keeps (pure a)
  Keeps-pure a = Triple-pure a λ db k. k

  Keeps-reply : {A : Type 0} (r : Response) → Keeps {A = A} (reply r)
  Keeps-reply {A} r = Triple-reply r λ db k. weaken (part db) k

  Keeps-clock : Keeps (clock env)
  unfolding clock Ends
  Keeps-clock = record { run = λ db k. k }

  pub Keeps-require : (b : Bool) (r : Response) → Keeps (require b r)
  unfolding require
  Keeps-require true r = Keeps-pure tt
  Keeps-require false r = Keeps-reply r

  pub Keeps-or_not_found : {D : Type 0} (what : String) (o : Option D) → Keeps (or_not_found what o)
  unfolding or_not_found
  Keeps-or_not_found what none = Keeps-reply (not_found what)
  Keeps-or_not_found what (some d) = Keeps-pure d

  pub Keeps-user_count : Keeps (user_count env)
  unfolding user_count
  Keeps-user_count = Keeps-read λ db. M.count_documents UserDoc (λ _. true) db.users

  pub Keeps-bootstraps : (site none_set : Bool) → Keeps (bootstraps env site none_set)
  unfolding bootstraps
  Keeps-bootstraps true _ = Keeps-pure true
  Keeps-bootstraps false true = Keeps-bind Keeps-user_count λ n. Keeps-pure (n == 0)
  Keeps-bootstraps false false = Keeps-pure false

  Keeps-acls_of_roles : (rs : List String) → Keeps (acls_of_roles env rs)
  unfolding acls_of_roles
  Keeps-acls_of_roles [] = Keeps-pure []
  Keeps-acls_of_roles (r ∷ rs) = Keeps-read _

  Keeps-streams_of_groups : (gs : List String) → Keeps (streams_of_groups env gs)
  unfolding streams_of_groups
  Keeps-streams_of_groups [] = Keeps-pure []
  Keeps-streams_of_groups (g ∷ gs) = Keeps-read _

  pub Keeps-load : (sub : String) → Keeps (load env sub)
  unfolding load
  Keeps-load sub = Keeps-bind (Keeps-read _) λ user. Keeps-bind (Keeps-acls_of_roles _) λ acls.
      Keeps-bind (Keeps-read _) λ memberships.
        Keeps-bind (Keeps-read _)
          λ grants. Keeps-bind (Keeps-streams_of_groups _) λ shared. Keeps-pure _

  Keeps-stream_refs : (ids : List String) → Keeps (stream_refs env ids)
  unfolding stream_refs
  Keeps-stream_refs [] = Keeps-pure []
  Keeps-stream_refs (id ∷ ids) = Keeps-bind (Keeps-read _) λ found. Keeps-pure _

  Keeps-group_stream_refs : (gid : String) → Keeps (group_stream_refs env gid)
  unfolding group_stream_refs
  Keeps-group_stream_refs gid = Keeps-bind (Keeps-read _) λ rows. Keeps-stream_refs _

  Keeps-members_of : (gus : List GroupUserDoc) → Keeps (members_of env gus)
  unfolding members_of
  Keeps-members_of [] = Keeps-pure []
  Keeps-members_of (gu ∷ gus) =
      Keeps-bind (Keeps-try _) λ u. Keeps-bind (Keeps-members_of gus) λ ms. Keeps-pure _

  pub Keeps-group_detail : (ctx : AccessContext) (gid : String) → Keeps (group_detail env ctx gid)
  unfolding group_detail
  Keeps-group_detail ctx gid = Keeps-bind (Keeps-read _) λ found.
      Keeps-bind (Keeps-or_not_found "group" found) λ g. Keeps-bind (Keeps-read _) λ rows.
        Keeps-bind (Keeps-members_of rows)
          λ ms. Keeps-bind (Keeps-group_stream_refs gid) λ ss. Keeps-pure _

  -- What writes users, too.
  module _
      (part_users : (db : Db M) (us : M.Coll UserDoc)
        → part (record db { users = us }) ≡ part db) where
    Keeps-upsert_user :
        (sub : String) (email display_name : Option String) (bootstrap : Bool)
        → Keeps (upsert_user env sub email display_name bootstrap)
    unfolding upsert_user
    Keeps-upsert_user sub email display_name bootstrap = Keeps-bind Keeps-clock λ now.
        Keeps-bind (Keeps-call _ λ db. part_users db _)
          λ _. Keeps-bind (Keeps-read _) λ found. Keeps-pure _

    Keeps-add_user_role : (sub role_id : String) → Keeps (add_user_role env sub role_id)
    unfolding add_user_role
    Keeps-add_user_role sub role_id = Keeps-call _ λ db. part_users db _

    Keeps-elevate : (sub : String) (b : Bool) (user : UserDoc) → Keeps (elevate env sub b user)
    unfolding elevate
    Keeps-elevate sub true user =
        Keeps-bind (Keeps-add_user_role sub role_super_admin) λ _. Keeps-pure _
    Keeps-elevate sub false user = Keeps-pure user

    Keeps-provision_user :
        (sub : String) (email display_name : Option String)
        → Keeps (provision_user env sub email display_name)
    unfolding provision_user
    Keeps-provision_user sub email display_name =
        Keeps-bind (Keeps-bootstraps _ _)
          λ b. Keeps-bind (Keeps-upsert_user sub email display_name b) λ u. Keeps-elevate sub _ u

    pub Keeps-access_ctx : (caller : Option String) → Keeps (access_ctx env caller)
    unfolding access_ctx
    Keeps-access_ctx none = Keeps-reply _
    Keeps-access_ctx (some sub) =
        Keeps-bind (Keeps-provision_user sub none none) λ _. Keeps-load sub
