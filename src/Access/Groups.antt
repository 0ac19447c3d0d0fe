-- ===== src/Access/Groups.antt =====
-- src/access_api.rs: the handlers for groups.
use boom_gw.Base.{
  ℕ, String, Bool, true, false, not, ◌&&◌, ◌||◌, map, Option, none, some, str_eq, if◌then◌else◌,
}
use boom_gw.Access.Mongo.{Mongo}
use boom_gw.Access.Docs.{GroupDoc, GroupUserDoc, acl_manage_groups, contains}
use boom_gw.Access.Exec.{
  groups, Db, Env, Body, Response, Exec, pure, or_respond, call_or, call, read, clock, new_id, ok,
  forbidden, not_found, bad_request, internal_error, deleted, ◌>>=◌, ◌>>◌,
}
use boom_gw.Access.Archive.{is_membership, matched, delete_group_cascade}
use boom_gw.Access.Context.{has_acl, in_group, is_group_admin, access_ctx}
use boom_gw.Access.Text.{trim, sort_by}
use boom_gw.Access.Detail.{can_manage_group, group_json, upsert_response, group_detail}
use boom_gw.Access.Users.{require}

-- The clash with the unique index on the names of groups, or with the `_id`.
unfoldable pub group_clashes : GroupDoc → GroupDoc → Bool
group_clashes g other = str_eq other.id g.id || str_eq other.name g.name

unfoldable pub new_group : String → ℕ → String → String → GroupDoc
new_group id now name description = record {
  id = id;
  name = name;
  description = description;
  single_user_group = false;
  created_at = now;
}

unfoldable pub new_membership : ℕ → String → String → Bool → GroupUserDoc
new_membership now gid sub admin = record {
  group_id = gid;
  user_sub = sub;
  admin = admin;
  created_at = now;
}

-- The fields that the body of the request gives, the name trimmed.
unfoldable pub patched : Option String → Option String → GroupDoc → GroupDoc
patched none none g = g
patched none (some d) g = record g { description = d }
patched (some n) none g = record g { name = trim n }
patched (some n) (some d) g = record g { name = trim n; description = d }

-- Another document that has the new name already.
unfoldable pub takes_name : Option String → GroupDoc → Bool
takes_name none g = false
takes_name (some n) g = str_eq g.name (trim n)

unfoldable pub nothing_set : Option String → Option String → Bool
nothing_set none none = true
nothing_set _ _ = false

-- An operation that a unique index refused leaves the collection.
unfoldable pub accepted : {D : Type 0} → Option D → Bool
accepted none = false
accepted (some c) = true

unfoldable pub or_same : {D : Type 0} → D → Option D → D
or_same c none = c
or_same c (some c') = c'

module _ {M : Mongo} where
  unfoldable pub insert_group : GroupDoc → Db M → Bool × Db M
  unfolding group_clashes accepted or_same
  insert_group g db =
      let c = M.insert_one GroupDoc (group_clashes g) g db.groups in
      (accepted c, record db { groups = or_same db.groups c })

  unfoldable pub insert_membership : GroupUserDoc → Db M → Bool × Db M
  unfolding accepted or_same
  insert_membership gu db =
      let c = M.insert_one GroupUserDoc (is_membership gu.group_id gu.user_sub) gu db.group_users in
      (accepted c, record db { group_users = or_same db.group_users c })

module _ {M : Mongo} (env : Env) where
  unfoldable pub list_groups : Option String → Exec M Response
  unfolding group_json
  list_groups caller = do
    ctx ← access_ctx env caller
    found ← call env (
        read λ db.
          M.find GroupDoc (λ g. has_acl ctx acl_manage_groups || contains g.id ctx.group_member)
            db.groups)
    pure (
        ok (
          groups (sort_by (λ j. j.name) (map (λ g. group_json g (is_group_admin ctx g.id)) found))))

  unfoldable pub create_group : Option String → String → String → Exec M Response
  unfolding insert_group insert_membership require new_group new_membership
  create_group caller name description = do
    ctx ← access_ctx env caller
    require (has_acl ctx acl_manage_groups) (forbidden "requires the Manage groups ACL")
    require (not (str_eq (trim name) "")) (bad_request "group name is required")
    id ← new_id env
    now ← clock env
    let group = new_group id now (trim name) description
    fresh ← call_or env (bad_request "could not create group") (insert_group group)
    require fresh (bad_request "could not create group")
    then_ ← clock env
    entered ← call env (insert_membership (new_membership then_ id ctx.sub true))
    require entered internal_error
    pure (upsert_response true (Body.group (group_json group true)))

  unfoldable pub get_group : Option String → String → Exec M Response
  unfolding group_detail require
  get_group caller gid = do
    ctx ← access_ctx env caller
    require (in_group ctx gid || has_acl ctx acl_manage_groups) (not_found "group")
    group_detail env ctx gid

  unfoldable pub rename_group : String → Option String → Option String → Db M → Option Bool × Db M
  unfolding patched takes_name accepted or_same
  rename_group gid name description db =
      let found = matched (M.find GroupDoc (λ g. str_eq g.id gid) db.groups) in
      let c =
        M.update_unique GroupDoc (λ g. found && takes_name name g) (λ g. str_eq g.id gid)
          (patched name description) db.groups in
      (if accepted c then some found else none, record db { groups = or_same db.groups c })

  unfoldable pub patch_group :
      Option String → String → Option String → Option String → Exec M Response
  unfolding rename_group nothing_set group_detail require can_manage_group
  patch_group caller gid name description = do
    ctx ← access_ctx env caller
    require (can_manage_group ctx gid) (forbidden "requires group admin or the Manage groups ACL")
    require (not (nothing_set name description)) (bad_request "nothing to update")
    renamed ← call_or env (bad_request "could not update group") (rename_group gid name description)
    found ← or_respond env (bad_request "could not update group") renamed
    require found (not_found "group")
    group_detail env ctx gid

  unfoldable pub delete_group : Option String → String → Exec M Response
  unfolding require can_manage_group
  delete_group caller gid = do
    ctx ← access_ctx env caller
    require (can_manage_group ctx gid) (forbidden "requires group admin or the Manage groups ACL")
    found ← delete_group_cascade env gid
    require found (not_found "group")
    pure (ok (deleted gid))
