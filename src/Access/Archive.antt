-- ===== src/Access/Archive.antt =====
-- The methods of `Archive` for users, groups and streams (src/archive.rs).
use boom_gw.Base.{
  ℕ, String, Bool, true, false, ◌&&◌, List, [], ◌∷◌, ◌++◌, map, Option, none, some, str_eq,
  if◌then◌else◌,
}
use boom_gw.Access.Mongo.{Mongo, head?}
use boom_gw.Access.Docs.{
  UserDoc, RoleDoc, GroupDoc, GroupUserDoc, StreamDoc, GroupStreamDoc, StreamUserDoc,
  role_super_admin, role_full_user, contains, default_roles, default_streams,
}
use boom_gw.Access.Exec.{Env, Exec, ◌>>=◌, ◌>>◌, pure, call, read, write, clock}

abbrev pub has_sub : String → UserDoc → Bool
has_sub sub u = str_eq u.sub sub

abbrev pub holds_role : String → UserDoc → Bool
holds_role r u = contains r u.role_ids

abbrev pub in_group_row : String → GroupUserDoc → Bool
in_group_row gid gu = str_eq gu.group_id gid

-- `{"_id": {"group_id": gid, "user_sub": sub}}`
abbrev pub is_membership : String → String → GroupUserDoc → Bool
is_membership gid sub gu = str_eq gu.group_id gid && str_eq gu.user_sub sub

abbrev pub is_group_stream : String → String → GroupStreamDoc → Bool
is_group_stream gid sid gs = str_eq gs.group_id gid && str_eq gs.stream_id sid

abbrev pub is_grant : String → String → StreamUserDoc → Bool
is_grant sid sub su = str_eq su.stream_id sid && str_eq su.user_sub sub

-- `$addToSet`
abbrev pub add_to_set : String → List String → List String
add_to_set r rs = if contains r rs then rs else (rs ++ r ∷ [])

-- A value that is given, or the one that is there.
abbrev pub or_keep : Option String → Option String → Option String
or_keep none old = old
or_keep (some new) old = some new

abbrev pub initial_roles : Bool → List String
initial_roles bootstrap = (if bootstrap then role_super_admin else role_full_user) ∷ []

-- What the upsert sets on a row that is there, and the row that it inserts.
unfoldable pub refreshed : ℕ → Option String → Option String → UserDoc → UserDoc
refreshed now email display_name u = record u {
  email = or_keep email u.email;
  display_name = or_keep display_name u.display_name;
  last_seen_at = now;
}

unfoldable pub fresh_user : ℕ → String → Option String → Option String → Bool → UserDoc
fresh_user now sub email display_name bootstrap = record {
  sub = sub;
  email = email;
  display_name = display_name;
  role_ids = initial_roles bootstrap;
  active = true;
  created_at = now;
  last_seen_at = now;
}

abbrev pub unwrap_or : UserDoc → Option UserDoc → UserDoc
unwrap_or d none = d
unwrap_or d (some u) = u

-- `matched_count == 1` for a filter on `_id`.
abbrev pub matched : {D : Type 0} → List D → Bool
matched [] = false
matched (d ∷ ds) = true

module _ {M : Mongo} (env : Env) where
  pub seed_roles : List RoleDoc → Exec M (Unit {0})
  seed_roles [] = pure tt
  seed_roles (r ∷ rs) =
      let rest = seed_roles rs in
      do
        call env (
            write λ db. record db {
              roles = M.upsert RoleDoc (λ d. str_eq d.id r.id) (λ d. d) r db.roles;
            })
        rest

  pub seed_streams : List StreamDoc → Exec M (Unit {0})
  seed_streams [] = pure tt
  seed_streams (s ∷ ss) =
      let rest = seed_streams ss in
      do
        call env (
            write λ db. record db {
              streams = M.upsert StreamDoc (λ d. str_eq d.id s.id) (λ d. d) s db.streams;
            })
        rest

  unfoldable pub seed_access_defaults : Exec M (Unit {0})
  unfolding seed_roles seed_streams
  seed_access_defaults = do seed_roles default_roles; seed_streams default_streams

  unfoldable pub upsert_user : String → Option String → Option String → Bool → Exec M UserDoc
  unfolding refreshed fresh_user
  upsert_user sub email display_name bootstrap = do
    now ← clock env
    call env (
        write λ db. record db {
          users =
              M.upsert UserDoc (has_sub sub) (refreshed now email display_name)
                (fresh_user now sub email display_name bootstrap) db.users;
        })
    found ← call env (read λ db. head? (M.find UserDoc (has_sub sub) db.users))
    pure (unwrap_or (fresh_user now sub email display_name bootstrap) found)

  unfoldable pub user_count : Exec M ℕ
  user_count = call env (read λ db. M.count_documents UserDoc (λ _. true) db.users)

  unfoldable pub add_user_role : String → String → Exec M Bool
  add_user_role sub role_id = call env λ db. (
    matched (M.find UserDoc (has_sub sub) db.users),
    record db {
      users =
          M.update_one UserDoc (has_sub sub)
            (λ u. record u { role_ids = add_to_set role_id u.role_ids }) db.users;
    },
  )

  unfoldable pub set_user_roles : String → List String → Exec M Bool
  set_user_roles sub role_ids = call env λ db. (
    matched (M.find UserDoc (has_sub sub) db.users),
    record db {
      users = M.update_one UserDoc (has_sub sub) (λ u. record u { role_ids = role_ids }) db.users;
    },
  )

  unfoldable pub delete_group_cascade : String → Exec M Bool
  delete_group_cascade gid = do
    found ← call env λ db. (
      matched (M.find GroupDoc (λ g. str_eq g.id gid) db.groups),
      record db { groups = M.delete GroupDoc (λ g. str_eq g.id gid) db.groups },
    )
    call env (
        write
          λ db. record db { group_users = M.delete GroupUserDoc (in_group_row gid) db.group_users })
    call env (
        write λ db. record db {
          group_streams = M.delete GroupStreamDoc (λ gs. str_eq gs.group_id gid) db.group_streams;
        })
    pure found

  unfoldable pub group_stream_ids : String → Exec M (List String)
  group_stream_ids gid = call env (
      read λ db.
        map (λ gs. gs.stream_id)
          (M.find GroupStreamDoc (λ gs. str_eq gs.group_id gid) db.group_streams))

  unfoldable pub group_admin_count : String → Exec M ℕ
  group_admin_count gid = call env (
      read λ db.
        M.count_documents GroupUserDoc (λ gu. str_eq gu.group_id gid && gu.admin) db.group_users)
