-- ===== src/Access/Detail.antt =====
-- The replies that the handlers of src/access_api.rs share.
use boom_gw.Base.{String, Bool, ◌||◌, List, [], ◌∷◌, map, Option, none, some, str_eq, if◌then◌else◌}
use boom_gw.Access.Mongo.{Mongo, head?}
use boom_gw.Access.Docs.{
  UserDoc, GroupDoc, GroupUserDoc, StreamDoc, GroupStreamDoc, acl_manage_groups, contains,
}
use boom_gw.Access.Exec.{
  Env, Exec, Response, Body, ok, created, not_found, detail, GroupJson, Member, StreamRef, ◌>>=◌,
  pure, reply, call, attempt, read,
}
use boom_gw.Access.Archive.{has_sub, in_group_row}
use boom_gw.Access.Context.{AccessContext, has_acl, is_group_admin}
use boom_gw.Access.Text.{sort_by}

unfoldable pub can_manage_group : AccessContext → String → Bool
can_manage_group ctx gid = is_group_admin ctx gid || has_acl ctx acl_manage_groups

unfoldable pub group_json : GroupDoc → Bool → GroupJson
group_json g admin = record { id = g.id; name = g.name; description = g.description; admin = admin }

unfoldable pub stream_ref : StreamDoc → StreamRef
stream_ref s = record { id = s.id; name = s.name }

-- 201 for a new document, 200 for one that was replaced.
unfoldable pub upsert_response : Bool → Body → Response
upsert_response is_new body = if is_new then created body else ok body

-- A member of a group, with the names of the user if the user can be read.
unfoldable pub member_of : GroupUserDoc → Option (Option UserDoc) → Member
member_of gu (some (some u)) = record {
  sub = gu.user_sub;
  admin = gu.admin;
  display_name = u.display_name;
  email = u.email;
}
member_of gu _ = record { sub = gu.user_sub; admin = gu.admin; display_name = none; email = none }

-- The group that was found, or the reply 404.
unfoldable pub or_not_found : {M : Mongo} {D : Type 0} → String → Option D → Exec M D
or_not_found what none = reply (not_found what)
or_not_found what (some d) = pure d

module _ {M : Mongo} (env : Env) where
  unfoldable pub stream_refs : List String → Exec M (List StreamRef)
  unfolding stream_ref
  stream_refs [] = pure []
  stream_refs (id ∷ ids) = do
    found ← call env (read λ db. M.find StreamDoc (λ s. contains s.id (id ∷ ids)) db.streams)
    pure (map stream_ref (sort_by (λ s. s.name) found))

  unfoldable pub group_stream_refs : String → Exec M (List StreamRef)
  unfolding stream_refs
  group_stream_refs gid = do
    rows ←
        call env (read λ db. M.find GroupStreamDoc (λ gs. str_eq gs.group_id gid) db.group_streams)
    stream_refs (map (λ gs. gs.stream_id) rows)

  unfoldable pub members_of : List GroupUserDoc → Exec M (List Member)
  unfolding member_of
  members_of [] = pure []
  members_of (gu ∷ rest) =
      let others = members_of rest in
      do
        user ← attempt env (read λ db. head? (M.find UserDoc (has_sub gu.user_sub) db.users))
        ms ← others
        pure (member_of gu user ∷ ms)

  unfoldable pub group_detail : AccessContext → String → Exec M Response
  unfolding or_not_found members_of group_stream_refs group_json
  group_detail ctx gid = do
    found ← call env (read λ db. head? (M.find GroupDoc (λ g. str_eq g.id gid) db.groups))
    group ← or_not_found "group" found
    rows ← call env (read λ db. M.find GroupUserDoc (in_group_row gid) db.group_users)
    members ← members_of rows
    streams ← group_stream_refs gid
    pure (ok (detail (group_json group (is_group_admin ctx gid)) members streams))
