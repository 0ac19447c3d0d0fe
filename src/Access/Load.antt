-- ===== src/Access/Load.antt =====
-- `load` of src/access.rs, step by step, against the documents.

use boom_gw.Base.{
  ℕ, ◌+◌, ◌≡◌, refl, subst, ap, ap₂, ◌∙◌, String, false, ◌&&◌, ◌||◌, List, [], ◌∷◌, map, str_eq,
}
use boom_gw.Access.Mongo.{Mongo, MongoLaws, any, select, head?}
use boom_gw.Access.Docs.{
  RoleDoc, GroupUserDoc, GroupStreamDoc, StreamUserDoc, UserDoc, contains, acl_system_admin,
}
use boom_gw.Access.Exec.{Db, Env, value}
use boom_gw.Access.Archive.{has_sub}
use boom_gw.Access.Context.{
  AccessContext, roles_of, context_of, load, acls_of_roles, streams_of_groups, has_acl,
  can_access_stream,
}
use boom_gw.Access.Triple.{Triple, Triple-pure, Triple-bind, Triple-call_ok, Ends-value}
use boom_gw.Access.Grants.{
  grants_acl, grants_stream, any-append, acls-find, acls-none, streams-find, shared-find,
  shared-none,
}

module _ {M : Mongo} (L : MongoLaws M) (env : Env) (works : (n : ℕ) → env.fails n ≡ false)
    (sub : String) (db0 : Db M) where
  -- The documents are still those of the start.
  abbrev IsSame : Db M → Type 0
  IsSame db = record db { tries = 0 } ≡ record db0 { tries = 0 }

  abbrev None : Db M → Type 0
  None db = ⊥

  abbrev my_roles : Db M → List String
  my_roles db = roles_of (head? (select (has_sub sub) (L.rows UserDoc db.users)))

  -- What a list of ACLs must hold.
  abbrev HasAcls : List String → Db M → Type 0
  HasAcls acls db = (acl : String) → contains acl acls ≡ grants_acl L sub db acl

  acls_lem :
      (rs : List String)
      → Triple {M = M} None
          (λ db. IsSame db × (rs ≡ my_roles db))
          (acls_of_roles env rs)
          (λ acls db. IsSame db × HasAcls acls db)
  unfolding acls_of_roles grants_acl
  acls_lem [] = Triple-pure [] λ db p. (
    p.0,
    λ acl.
        subst
          (λ rs.
            contains acl []
            ≡ any (λ r. contains r.id rs && contains acl r.acls) (L.rows RoleDoc db.roles))
          p.1 (acls-none L db.roles acl),
  )
  acls_lem (r ∷ rs) = Triple-call_ok env _ works λ db p. (
    p.0,
    λ acl.
        acls-find L (λ role. contains role.id (r ∷ rs)) db.roles acl
        ∙ ap
            (λ ids.
              any (λ role. contains role.id ids && contains acl role.acls)
                (L.rows RoleDoc db.roles))
            p.1,
  )

  abbrev memberships : Db M → List GroupUserDoc
  memberships db = select (λ gu. str_eq gu.user_sub sub) (L.rows GroupUserDoc db.group_users)

  abbrev HasShared : List String → Db M → Type 0
  HasShared sids db =
      (sid : String)
      → contains sid sids
        ≡ any
            (λ gu.
              str_eq gu.user_sub sub
              && any (λ row. str_eq gu.group_id row.group_id && str_eq row.stream_id sid)
                  (L.rows GroupStreamDoc db.group_streams))
            (L.rows GroupUserDoc db.group_users)

  shared_streams :
      {X : Db M → Type 0} (kept : (db : Db M) → X db → X (record db { tries = db.tries + 1 }))
      (gids : List String)
      → Triple {M = M} None
          (λ db. (IsSame db × X db) × (gids ≡ map (λ gu. gu.group_id) (memberships db)))
          (streams_of_groups env gids)
          (λ sids db. (IsSame db × X db) × HasShared sids db)
  unfolding streams_of_groups
  shared_streams kept [] =
      Triple-pure [] λ db p. (p.0, λ sid. shared-none L _ _ db.group_streams p.1 sid)
  shared_streams kept (g ∷ gs) =
      Triple-call_ok env _ works
        λ db p. ((p.0.0, kept db p.0.1), λ sid. shared-find L (g ∷ gs) _ _ db.group_streams p.1 sid)

  -- What the context must say.
  abbrev IsGranted : AccessContext → Db M → Type 0
  IsGranted ctx db =
      ((acl : String)
        → has_acl ctx acl ≡ (grants_acl L sub db acl_system_admin || grants_acl L sub db acl))
      × ((sid : String) → can_access_stream ctx sid ≡ grants_stream L sub db sid)

  -- What the direct grants must hold.
  abbrev HasDirect : List StreamUserDoc → Db M → Type 0
  HasDirect gs db =
      (sid : String)
      → contains sid (map (λ su. su.stream_id) gs)
        ≡ any (λ su. str_eq su.user_sub sub && str_eq su.stream_id sid)
            (L.rows StreamUserDoc db.stream_users)

  context_lem :
      (acls : List String) (ms : List GroupUserDoc) (gs : List StreamUserDoc) (ss : List String)
      (db : Db M)
      → HasAcls acls db
      → HasDirect gs db
      → HasShared ss db
      → IsGranted (context_of sub acls ms gs ss) db
  unfolding has_acl can_access_stream grants_stream context_of
  context_lem acls ms gs ss db ha hd hs = (
    λ acl. ap₂ ◌||◌ (ha acl_system_admin) (ha acl),
    λ sid. ap₂ ◌||◌ (ha acl_system_admin) (
        any-append (λ t. str_eq t sid) (map (λ su. su.stream_id) gs) ss
        ∙ ap₂ ◌||◌ (hd sid) (hs sid)),
  )

  load_lem :
      Triple {M = M} None (λ db. IsSame db) (load env sub) (λ ctx db. IsSame db × IsGranted ctx db)
  unfolding load grants_acl
  load_lem =
      Triple-bind {M = M} (λ user db. IsSame db × (roles_of user ≡ my_roles db))
        (Triple-call_ok env _ works
          λ db p. (p, ap (λ us. roles_of (head? us)) (L.find_rows UserDoc (has_sub sub) db.users)))
        λ user.
          Triple-bind {M = M} (λ acls db. IsSame db × HasAcls acls db) (acls_lem (roles_of user))
            λ acls.
              Triple-bind {M = M} (λ ms db. (IsSame db × HasAcls acls db) × (ms ≡ memberships db))
                (Triple-call_ok env _ works λ db p.
                  (p, L.find_rows GroupUserDoc (λ gu. str_eq gu.user_sub sub) db.group_users))
                λ ms.
                  Triple-bind {M = M}
                    (λ gs db.
                      (IsSame db × (HasAcls acls db × HasDirect gs db))
                      × (map (λ gu. gu.group_id) ms ≡ map (λ gu. gu.group_id) (memberships db)))
                    (Triple-call_ok env _ works λ db p. (
                      (
                        p.0.0,
                        (p.0.1, streams-find L (λ su. str_eq su.user_sub sub) db.stream_users),
                      ),
                      ap (map (λ gu. gu.group_id)) p.1,
                    ))
                    λ gs.
                      Triple-bind {M = M}
                        (λ ss db.
                          (IsSame db × (HasAcls acls db × HasDirect gs db)) × HasShared ss db)
                        (shared_streams (λ db x. x) (map (λ gu. gu.group_id) ms))
                        λ ss.
                          Triple-pure _
                            λ db p. (p.0.0, context_lem acls ms gs ss db p.0.1.0 p.0.1.1 p.1)

-- For collections that meet MongoLaws: if no database operation fails, `load` returns a context
-- for every subject; it has an ACL exactly if a role of the user carries this ACL or System
-- admin, and it gives access to a stream exactly if the user has System admin, or is granted the
-- stream directly, or is a member of a group that has the stream, according to the documents at
-- the time of the call.
pub load-context :
    {M : Mongo} (L : MongoLaws M) (env : Env) (works : (n : ℕ) → env.fails n ≡ false) (sub : String)
    (db : Db M)
    → (ctx : AccessContext) × ((load env sub db).0 ≡ value ctx)
      × ((acl : String)
          → has_acl ctx acl ≡ (grants_acl L sub db acl_system_admin || grants_acl L sub db acl))
      × ((sid : String) → can_access_stream ctx sid ≡ grants_stream L sub db sid)
unfolding grants_stream
load-context L env works sub db =
    let r = Ends-value _ (load env sub db) ((load_lem L env works sub db).run db refl) in
    (
      r.0,
      r.1,
      λ acl.
          r.2.1.0 acl
          ∙ ap (λ d. grants_acl L sub d acl_system_admin || grants_acl L sub d acl) r.2.0,
      λ sid. r.2.1.1 sid ∙ ap (λ d. grants_stream L sub d sid) r.2.0,
    )
