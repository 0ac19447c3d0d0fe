-- ===== src/Access/Members.antt =====
-- src/access_api.rs: the handlers for the members of a group.
use boom_gw.Base.{ℕ, String, Bool, true, false, not, List, [], ◌∷◌, Option, some, str_eq, leb}
use boom_gw.Access.Mongo.{head?, Mongo}
use boom_gw.Access.Docs.{GroupDoc, GroupUserDoc, StreamUserDoc}
use boom_gw.Access.Exec.{
  Db, Env, Response, Exec, pure, attempt, call, read, write, clock, forbidden, not_found,
  bad_request, ◌>>=◌, ◌>>◌,
}
use boom_gw.Access.Archive.{is_membership, is_grant, group_stream_ids, group_admin_count}
use boom_gw.Access.Context.{access_ctx}
use boom_gw.Access.Detail.{can_manage_group, group_detail}
use boom_gw.Access.Users.{require}
use boom_gw.Access.Groups.{new_membership}

-- `.ok().flatten().is_none()` of a lookup, negated.
unfoldable pub was_found : {D : Type 0} → Option (Option D) → Bool
was_found (some (some d)) = true
was_found _ = false

unfoldable pub new_grant : ℕ → String → String → StreamUserDoc
new_grant now sid sub = record { stream_id = sid; user_sub = sub; created_at = now }

-- `matches!(target, Ok(Some(gu)) if gu.admin)`
unfoldable pub was_admin : Option (Option GroupUserDoc) → Bool
was_admin (some (some gu)) = gu.admin
was_admin _ = false

module _ {M : Mongo} where
  unfoldable pub upsert_membership : GroupUserDoc → Db M → Unit {0} × Db M
  upsert_membership gu = write λ db. record db {
    group_users =
        M.upsert GroupUserDoc (is_membership gu.group_id gu.user_sub) (λ _. gu) gu db.group_users;
  }

  -- A grant that is there stays (`$setOnInsert`).
  unfoldable pub upsert_grant : StreamUserDoc → Db M → Unit {0} × Db M
  upsert_grant su = write λ db. record db {
    stream_users =
        M.upsert StreamUserDoc (is_grant su.stream_id su.user_sub) (λ d. d) su db.stream_users;
  }

module _ {M : Mongo} (env : Env) where
  unfoldable pub grant_all : String → List String → Exec M (Unit {0})
  unfolding upsert_grant new_grant
  grant_all sub [] = pure tt
  grant_all sub (sid ∷ sids) =
      let rest = grant_all sub sids in
      do now ← clock env; call env (upsert_grant (new_grant now sid sub)); rest

  unfoldable pub add_group_member : Option String → String → String → Bool → Exec M Response
  unfolding was_found upsert_membership grant_all group_detail require can_manage_group
      new_membership
  add_group_member caller gid sub admin = do
    ctx ← access_ctx env caller
    require (can_manage_group ctx gid) (forbidden "requires group admin or the Manage groups ACL")
    found ← attempt env (read λ db. head? (M.find GroupDoc (λ g. str_eq g.id gid) db.groups))
    require (was_found found) (not_found "group")
    now ← clock env
    call env (upsert_membership (new_membership now gid sub admin))
    sids ← group_stream_ids env gid
    grant_all sub sids
    group_detail env ctx gid

  -- For a target that is an admin: the group must have another one.
  unfoldable pub guard_admin : String → Bool → Exec M (Unit {0})
  unfolding require
  guard_admin gid true = do
    admins ← group_admin_count env gid
    require (not (leb admins 1)) (bad_request "cannot remove the group's last admin")
  guard_admin gid false = pure tt

  -- The lockout guard: the last admin of a group stays.
  unfoldable pub guard_last_admin : String → String → Exec M (Unit {0})
  unfolding was_admin guard_admin
  guard_last_admin gid sub = do
    target ←
        attempt env (read λ db. head? (M.find GroupUserDoc (is_membership gid sub) db.group_users))
    guard_admin gid (was_admin target)

  unfoldable pub remove_group_member : Option String → String → String → Exec M Response
  unfolding guard_last_admin group_detail require can_manage_group
  remove_group_member caller gid sub = do
    ctx ← access_ctx env caller
    require (can_manage_group ctx gid) (forbidden "requires group admin or the Manage groups ACL")
    guard_last_admin gid sub
    call env (
        write λ db. record db {
          group_users = M.delete GroupUserDoc (is_membership gid sub) db.group_users;
        })
    group_detail env ctx gid
