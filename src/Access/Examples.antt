-- ===== src/Access/Examples.antt =====
-- A small database on which the theorems on access apply, and tests of the handlers.
use boom_gw.Base.{◌≡◌, refl, String, Bool, true, false, ◌||◌, List, [], ◌∷◌, none, some}
use boom_gw.Access.Mongo.{change, select, any, count, listed, listed_laws}
use boom_gw.Access.Docs.{
  UserDoc, GroupUserDoc, default_roles, default_streams, acl_system_admin, role_full_user,
  role_super_admin, role_group_admin,
}
use boom_gw.Access.Exec.{Outcome, Response, respond, Db, Env, value, ◌>>=◌, pure, clock, call}
use boom_gw.Access.Archive.{upsert_user, group_admin_count, group_stream_ids}
use boom_gw.Access.Context.{
  access_ctx, is_group_admin, AccessContext, load, has_acl, can_access_stream, provision_user,
}
use boom_gw.Access.Members.{add_group_member, remove_group_member}
use boom_gw.Access.Grants.{grants_acl, grants_stream}
use boom_gw.Access.LastSuper.{HasSuper, IsUniqueUser}
use boom_gw.Access.PatchUser.{patch_user-HasSuper}
use boom_gw.Access.Users.{patch_user}
use boom_gw.Access.Joining.{IsJoined, HasGrants, shared, add_group_member-IsJoined}
use boom_gw.Access.Detail.{group_detail}
use boom_gw.Access.Load.{load-context}
use boom_gw.Access.LastAdmin.{HasAdmin, IsUniqueMember, remove_group_member-HasAdmin}
use boom_gw.Access.Provision.{roles_in, table, joined_by, provision_user-roles}

abbrev env : Env
env = record { fails = λ n. false; now = λ n. 7; uuid = λ n. "id"; site_admins = "root" ∷ [] }

abbrev person : String → List String → UserDoc
person sub roles = record {
  sub = sub;
  email = none;
  display_name = none;
  role_ids = roles;
  active = true;
  created_at = 0;
  last_seen_at = 0;
}

abbrev member : String → Bool → GroupUserDoc
member sub admin = record { group_id = "g"; user_sub = sub; admin = admin; created_at = 0 }

-- Two admins and a member share the neutrino stream.
abbrev db : Db listed
db = record {
  users = person "ann" (role_group_admin ∷ []) ∷ person "bob" (role_full_user ∷ []) ∷ [];
  roles = default_roles;
  groups =
      record { id = "g"; name = "G"; description = ""; single_user_group = false; created_at = 0 }
      ∷ [];
  group_users = member "ann" true ∷ member "bob" false ∷ member "eve" true ∷ [];
  streams = default_streams;
  group_streams = record { group_id = "g"; stream_id = "gcn_neutrino"; created_at = 0 } ∷ [];
  stream_users = record { stream_id = "gcn_frb"; user_sub = "bob"; created_at = 0 } ∷ [];
  tries = 0;
}

bob_streams :
    (grants_stream listed_laws "bob" db "gcn_neutrino" ≡ true)
    × (grants_stream listed_laws "bob" db "gcn_frb" ≡ true)
    × (grants_stream listed_laws "bob" db "gcn_grb" ≡ false)
unfolding grants_stream listed_laws any select
bob_streams = (refl, refl, refl)

load-context_example :
    (ctx : AccessContext) × ((load env "bob" db).0 ≡ value ctx)
    × ((acl : String)
        → has_acl ctx acl ≡ (
            grants_acl listed_laws "bob" db acl_system_admin
            || grants_acl listed_laws "bob" db acl))
    × ((sid : String) → can_access_stream ctx sid ≡ grants_stream listed_laws "bob" db sid)
load-context_example = load-context listed_laws env (λ n. refl) "bob" db

two_admins : HasAdmin listed_laws "g" db.group_users
unfolding HasAdmin listed_laws count
two_admins = refl

eve_once : IsUniqueMember listed_laws "g" "eve" db.group_users
unfolding IsUniqueMember listed_laws count
eve_once = refl

remove_group_member-HasAdmin_example :
    HasAdmin listed_laws "g" (remove_group_member env (some "ann") "g" "eve" db).1.group_users
remove_group_member-HasAdmin_example =
    remove_group_member-HasAdmin listed_laws env (λ n. refl) (some "ann") "g" "eve" db two_admins
      eve_once

provision_user-roles_example :
    (u : UserDoc) × ((provision_user env "bob" none none db).0 ≡ value u)
    × (u.role_ids ≡ roles_in listed_laws "bob" (role_full_user ∷ []) db)
    × (table listed_laws "bob" (provision_user env "bob" none none db).1
        ≡ joined_by listed_laws "bob" (role_full_user ∷ []) db)
unfolding any
provision_user-roles_example =
    provision_user-roles listed_laws env (λ n. refl) "bob" none none db refl refl

-- The removal takes place, and ann stays the only admin.
eve_removed :
    (remove_group_member env (some "ann") "g" "eve" db).1.group_users
    ≡ member "ann" true ∷ member "bob" false ∷ []
unfolding remove_group_member ◌>>=◌ access_ctx any pure upsert_user clock call select change
    is_group_admin group_admin_count count
eve_removed = refl

-- The group without eve and bob.
abbrev eve_gone : Db listed
eve_gone = record db { group_users = member "ann" true ∷ [] }

-- ... but ann, then the last one, is demoted when she is added again.
last_admin_demoted :
    (add_group_member env (some "ann") "g" "ann" false eve_gone).1.group_users
    ≡ record { group_id = "g"; user_sub = "ann"; admin = false; created_at = 7 } ∷ []
unfolding add_group_member ◌>>=◌ access_ctx any pure upsert_user clock call select change
    is_group_admin group_stream_ids
last_admin_demoted = refl

-- Two super admins, of whom one is to lose the role.
abbrev supers : Db listed
supers = record db {
  users = person "ann" (role_super_admin ∷ []) ∷ person "bob" (role_super_admin ∷ []) ∷ [];
}

two_supers : HasSuper supers.users
unfolding HasSuper count any
two_supers = refl

bob_once : IsUniqueUser "bob" supers.users
unfolding IsUniqueUser count
bob_once = refl

patch_user-HasSuper_example : HasSuper (
    listed_laws.rows UserDoc
      (patch_user env (some "ann") "bob" (role_full_user ∷ []) supers).1.users)
unfolding listed_laws
patch_user-HasSuper_example =
    patch_user-HasSuper listed_laws env (λ n. refl) (some "ann") "bob" (role_full_user ∷ []) supers
      two_supers bob_once

-- Cat joins as a member without admin rights.
abbrev cat_joins : Outcome Response × Db listed
cat_joins = add_group_member env (some "ann") "g" "cat" false db

abbrev reply_of : Outcome Response → Response
reply_of (value r) = r
reply_of (respond r) = r

cat_joined : cat_joins.0 ≡ value (reply_of cat_joins.0)
unfolding add_group_member group_detail ◌>>=◌ access_ctx any pure upsert_user clock call select
    change is_group_admin group_stream_ids
cat_joined = refl

add_group_member-IsJoined_example :
    IsJoined listed_laws "g" "cat" false cat_joins.1
    × HasGrants listed_laws "cat" (shared listed_laws "g" cat_joins.1) cat_joins.1
add_group_member-IsJoined_example =
    add_group_member-IsJoined listed_laws env (some "ann") "g" "cat" false db (reply_of cat_joins.0)
      cat_joined
