-- ===== src/Access/Streams.antt =====
-- src/access_api.rs: the handlers for streams and for the streams of a group.
use boom_gw.Base.{ℕ, String, Bool, true, false, not, ◌||◌, Option, str_eq}
use boom_gw.Access.Mongo.{head?, Mongo}
use boom_gw.Access.Docs.{StreamDoc, GroupStreamDoc, acl_manage_streams}
use boom_gw.Access.Exec.{
  streams, Env, Response, Exec, pure, attempt, call, read, write, clock, ok, forbidden, not_found,
  bad_request, stream, granted, ◌>>=◌, ◌>>◌,
}
use boom_gw.Access.Archive.{is_group_stream, matched}
use boom_gw.Access.Context.{AccessContext, has_acl, access_ctx}
use boom_gw.Access.Text.{trim, sort_by}
use boom_gw.Access.Detail.{can_manage_group, upsert_response, group_detail}
use boom_gw.Access.Users.{require}
use boom_gw.Access.Members.{was_found, new_grant, upsert_grant}

unfoldable pub new_group_stream : ℕ → String → String → GroupStreamDoc
new_group_stream now gid sid = record { group_id = gid; stream_id = sid; created_at = now }

-- A stream that the caller defines is no system stream.
unfoldable pub new_stream : String → String → String → StreamDoc
new_stream id name description = record {
  id = trim id;
  name = trim name;
  description = description;
  system = false;
}

unfoldable pub may_share : AccessContext → String → Bool
unfolding can_manage_group
may_share ctx gid = can_manage_group ctx gid || has_acl ctx acl_manage_streams

module _ {M : Mongo} (env : Env) where
  -- The reply 404 unless the stream is in the catalog.
  unfoldable pub require_stream : String → Exec M (Unit {0})
  unfolding was_found require
  require_stream sid = do
    found ← attempt env (read λ db. head? (M.find StreamDoc (λ s. str_eq s.id sid) db.streams))
    require (was_found found) (not_found "stream")

  unfoldable pub add_group_stream : Option String → String → String → Exec M Response
  unfolding may_share require_stream new_group_stream group_detail require
  add_group_stream caller gid sid = do
    ctx ← access_ctx env caller
    require (may_share ctx gid) (forbidden "requires group admin or the Manage streams ACL")
    require_stream sid
    now ← clock env
    call env (
        write λ db. record db {
          group_streams =
              M.upsert GroupStreamDoc (is_group_stream gid sid) (λ d. d)
                (new_group_stream now gid sid) db.group_streams;
        })
    group_detail env ctx gid

  unfoldable pub remove_group_stream : Option String → String → String → Exec M Response
  unfolding may_share group_detail require
  remove_group_stream caller gid sid = do
    ctx ← access_ctx env caller
    require (may_share ctx gid) (forbidden "requires group admin or the Manage streams ACL")
    call env (
        write λ db. record db {
          group_streams = M.delete GroupStreamDoc (is_group_stream gid sid) db.group_streams;
        })
    group_detail env ctx gid

  unfoldable pub list_streams : Option String → Exec M Response
  list_streams caller = do
    access_ctx env caller
    found ← call env (read λ db. M.find StreamDoc (λ _. true) db.streams)
    pure (ok (streams (sort_by (λ s. s.name) found)))

  unfoldable pub create_stream : Option String → String → String → String → Exec M Response
  unfolding new_stream require upsert_response
  create_stream caller id name description = do
    ctx ← access_ctx env caller
    require (has_acl ctx acl_manage_streams) (forbidden "requires the Manage streams ACL")
    require (not (str_eq (trim id) "" || str_eq (trim name) ""))
        (bad_request "stream id and name are required")
    let s = new_stream id name description
    was_there ← call env λ db. (
      matched (M.find StreamDoc (λ d. str_eq d.id s.id) db.streams),
      record db { streams = M.upsert StreamDoc (λ d. str_eq d.id s.id) (λ _. s) s db.streams },
    )
    pure (upsert_response (not was_there) (stream s))

  unfoldable pub grant_stream_user : Option String → String → String → Exec M Response
  unfolding require_stream upsert_grant new_grant require
  grant_stream_user caller sid sub = do
    ctx ← access_ctx env caller
    require (has_acl ctx acl_manage_streams) (forbidden "requires the Manage streams ACL")
    require_stream sid
    now ← clock env
    call env (upsert_grant (new_grant now sid sub))
    pure (ok (granted sid sub))
