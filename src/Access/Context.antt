-- ===== src/Access/Context.antt =====
-- src/access.rs: provisioning, and the authorization of a principal.
use boom_gw.Base.{
  String, Bool, true, false, not, ◌&&◌, ◌||◌, List, [], ◌∷◌, ◌++◌, map, Option, none, some, str_eq,
  ◌==◌,
}
use boom_gw.Access.Mongo.{Mongo, head?, select}
use boom_gw.Access.Docs.{
  UserDoc, RoleDoc, GroupUserDoc, GroupStreamDoc, StreamUserDoc, acl_system_admin, role_super_admin,
  contains,
}
use boom_gw.Access.Exec.{Env, Exec, ◌>>=◌, ◌>>◌, pure, reply, unauthorized, call, read}
use boom_gw.Access.Archive.{has_sub, upsert_user, user_count, add_user_role}

-- The sets of the source are lists here: only membership is asked of them.
pub record AccessContext : Type 0 where
  pub sub : String
  pub acls : List String
  pub group_member : List String
  pub group_admin : List String
  pub stream_ids : List String
  pub wildcard : Bool

unfoldable pub has_acl : AccessContext → String → Bool
has_acl ctx acl = ctx.wildcard || contains acl ctx.acls

unfoldable pub in_group : AccessContext → String → Bool
in_group ctx gid = contains gid ctx.group_member

unfoldable pub is_group_admin : AccessContext → String → Bool
is_group_admin ctx gid = ctx.wildcard || contains gid ctx.group_admin

unfoldable pub can_access_stream : AccessContext → String → Bool
can_access_stream ctx sid = ctx.wildcard || contains sid ctx.stream_ids

unfoldable pub my_group_ids : AccessContext → List String
my_group_ids ctx = ctx.group_member

-- The union of the ACLs of some roles.
unfoldable pub all_acls_of : List RoleDoc → List String
all_acls_of [] = []
all_acls_of (r ∷ rs) = r.acls ++ all_acls_of rs

abbrev pub is_empty : {A : Type 0} → List A → Bool
is_empty [] = true
is_empty (x ∷ xs) = false

abbrev pub roles_of : Option UserDoc → List String
roles_of none = []
roles_of (some u) = u.role_ids

unfoldable pub context_of :
    String → List String → List GroupUserDoc → List StreamUserDoc → List String → AccessContext
context_of sub acls memberships grants shared = record {
  sub = sub;
  acls = acls;
  group_member = map (λ gu. gu.group_id) memberships;
  group_admin = map (λ gu. gu.group_id) (select (λ gu. gu.admin) memberships);
  stream_ids = map (λ su. su.stream_id) grants ++ shared;
  wildcard = contains acl_system_admin acls;
}

module _ {M : Mongo} (env : Env) where
  -- Whether a new row is to hold the role super_admin, for a site administrator and for others.
  unfoldable pub bootstraps : Bool → Bool → Exec M Bool
  bootstraps true _ = pure true
  bootstraps false true = do n ← user_count env; pure (n == 0)
  bootstraps false false = pure false

  -- A site administrator whose row is older than the configuration gets the role.
  unfoldable pub elevate : String → Bool → UserDoc → Exec M UserDoc
  elevate sub true user = do
    add_user_role env sub role_super_admin
    pure (record user { role_ids = user.role_ids ++ role_super_admin ∷ [] })
  elevate sub false user = pure user

  unfoldable pub provision_user : String → Option String → Option String → Exec M UserDoc
  unfolding bootstraps elevate
  provision_user sub email display_name = do
    let is_site_admin = contains sub env.site_admins
    bootstrap ← bootstraps is_site_admin (is_empty env.site_admins)
    user ← upsert_user env sub email display_name bootstrap
    elevate sub (is_site_admin && not (contains role_super_admin user.role_ids)) user

  -- Nothing is asked of the database for an empty list.
  unfoldable pub acls_of_roles : List String → Exec M (List String)
  unfolding all_acls_of
  acls_of_roles [] = pure []
  acls_of_roles (r ∷ rs) =
      call env
        (read λ db. all_acls_of (M.find RoleDoc (λ role. contains role.id (r ∷ rs)) db.roles))

  unfoldable pub streams_of_groups : List String → Exec M (List String)
  streams_of_groups [] = pure []
  streams_of_groups (g ∷ gs) = call env (
      read λ db.
        map (λ row. row.stream_id)
          (M.find GroupStreamDoc (λ row. contains row.group_id (g ∷ gs)) db.group_streams))

  unfoldable pub load : String → Exec M AccessContext
  unfolding acls_of_roles streams_of_groups context_of
  load sub = do
    user ← call env (read λ db. head? (M.find UserDoc (has_sub sub) db.users))
    acls ← acls_of_roles (roles_of user)
    memberships ←
        call env (read λ db. M.find GroupUserDoc (λ gu. str_eq gu.user_sub sub) db.group_users)
    grants ←
        call env (read λ db. M.find StreamUserDoc (λ su. str_eq su.user_sub sub) db.stream_users)
    shared ← streams_of_groups (map (λ gu. gu.group_id) memberships)
    pure (context_of sub acls memberships grants shared)

  -- src/api.rs: the context of the caller, who is `none` if the request carries no principal.
  unfoldable pub access_ctx : Option String → Exec M AccessContext
  unfolding provision_user load
  access_ctx none = reply (unauthorized "sign in required")
  access_ctx (some sub) = do provision_user sub none none; load sub
