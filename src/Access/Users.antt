-- ===== src/Access/Users.antt =====
-- src/access_api.rs: the handlers for users, roles and ACLs.
use boom_gw.Base.{
  String, Bool, true, false, not, List, [], ◌∷◌, map, Option, some, leb, if◌then◌else◌,
}
use boom_gw.Access.Mongo.{Mongo, head?, any}
use boom_gw.Access.Docs.{
  UserDoc, RoleDoc, GroupDoc, default_roles, all_acls, acl_manage_users, role_super_admin, contains,
}
use boom_gw.Access.Exec.{
  Env, Exec, Response, ProfileGroup, ok, forbidden, not_found, bad_request, user, users, roles,
  acls, profile, ◌>>=◌, ◌>>◌, pure, reply, call, attempt, read,
}
use boom_gw.Access.Archive.{has_sub, holds_role, set_user_roles}
use boom_gw.Access.Context.{AccessContext, has_acl, is_empty, access_ctx}
use boom_gw.Access.Text.{sort_by}
use boom_gw.Access.Detail.{group_stream_refs, stream_refs, or_not_found}

-- A guard that replies early when it does not hold.
unfoldable pub require : {M : Mongo} → Bool → Response → Exec M (Unit {0})
require true r = pure tt
require false r = reply r

-- The first role that is not in the catalog.
unfoldable pub all_known : List String → Bool
all_known role_ids = not (any (λ r. not (contains r (map (λ d. d.id) default_roles))) role_ids)

-- `matches!(found, Ok(Some(ref u)) if u holds the role)`
unfoldable pub was_super : Option (Option UserDoc) → Bool
was_super (some (some u)) = holds_role role_super_admin u
was_super _ = false

module _ {M : Mongo} (env : Env) where
  unfoldable pub list_users : Option String → Exec M Response
  list_users caller = do
    access_ctx env caller
    found ← call env (read λ db. M.find UserDoc (λ _. true) db.users)
    pure (ok (users found))

  -- For a target that is a super admin: there must be another one.
  unfoldable pub guard_super : Bool → Exec M (Unit {0})
  unfolding require
  guard_super true = do
    supers ← call env (read λ db. M.count_documents UserDoc (holds_role role_super_admin) db.users)
    require (not (leb supers 1)) (bad_request "cannot remove the last Super admin")
  guard_super false = pure tt

  -- The lockout guard: the last super admin keeps the role. The flag says if the new roles hold it.
  unfoldable pub guard_last_super : String → Bool → Exec M (Unit {0})
  unfolding was_super guard_super
  guard_last_super sub true = pure tt
  guard_last_super sub false = do
    target ← attempt env (read λ db. head? (M.find UserDoc (has_sub sub) db.users))
    guard_super (was_super target)

  unfoldable pub patch_user : Option String → String → List String → Exec M Response
  unfolding guard_last_super all_known require or_not_found
  patch_user caller sub role_ids = do
    ctx ← access_ctx env caller
    require (has_acl ctx acl_manage_users) (forbidden "requires the Manage users ACL")
    require (all_known role_ids) (bad_request "unknown role")
    guard_last_super sub (contains role_super_admin role_ids)
    found ← set_user_roles env sub role_ids
    require found (not_found "user")
    updated ← call env (read λ db. head? (M.find UserDoc (has_sub sub) db.users))
    u ← or_not_found "user" updated
    pure (ok (user u))

  unfoldable pub list_roles : Option String → Exec M Response
  list_roles caller = do
    access_ctx env caller
    found ← call env (read λ db. M.find RoleDoc (λ _. true) db.roles)
    pure (ok (roles (sort_by (λ r. r.name) found)))

  unfoldable pub list_acls : Option String → Exec M Response
  list_acls caller = do access_ctx env caller; pure (ok (acls all_acls))

  unfoldable pub profile_groups : AccessContext → List GroupDoc → Exec M (List ProfileGroup)
  profile_groups ctx [] = pure []
  profile_groups ctx (g ∷ gs) =
      let others = profile_groups ctx gs in
      do
        refs ← group_stream_refs env g.id
        rest ← others
        pure (
            record {
              id = g.id;
              name = g.name;
              admin = contains g.id ctx.group_admin;
              streams = refs;
            }
            ∷ rest)

  unfoldable pub groups_of_caller : AccessContext → Exec M (List GroupDoc)
  groups_of_caller ctx = if is_empty ctx.group_member then pure [] else (do
    found ← call env (read λ db. M.find GroupDoc (λ g. contains g.id ctx.group_member) db.groups)
    pure (sort_by (λ g. g.name) found))

  unfoldable pub get_my_profile : Option String → Exec M Response
  unfolding profile_groups groups_of_caller or_not_found
  get_my_profile caller = do
    ctx ← access_ctx env caller
    found ← call env (read λ db. head? (M.find UserDoc (has_sub ctx.sub) db.users))
    u ← or_not_found "user" found
    mine ← groups_of_caller ctx
    gs ← profile_groups ctx mine
    ss ← stream_refs env ctx.stream_ids
    pure (ok (profile u (sort_by (λ a. a) ctx.acls) gs ss))
