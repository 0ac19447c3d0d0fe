-- ===== src/Access/Joining.antt =====
-- add_group_member of src/access_api.rs: what a new member has afterwards.
use native.Mathlib.Omega.{arith}
use boom_gw.Base.{
  inr, inl, ℕ, ◌+◌, ◌≡◌, refl, subst, sym, ap, String, Bool, true, not, ◌&&◌, List, [], ◌∷◌, map,
  Option, if◌then◌else◌, Bool-cases, str_eq, eq_iff,
}
use boom_gw.Access.Mongo.{Mongo, MongoLaws, any, select}
use boom_gw.Access.Docs.{GroupUserDoc, GroupStreamDoc, StreamUserDoc, contains}
use boom_gw.Access.Exec.{Db, Env, Response, value}
use boom_gw.Access.Archive.{is_membership, is_grant, group_stream_ids}
use boom_gw.Access.Members.{add_group_member, upsert_membership, upsert_grant, grant_all, new_grant}
use boom_gw.Access.Groups.{new_membership}
use boom_gw.Access.Triple.{
  Triple-value, Triple, Triple-pure, Triple-bind, Triple-attempt, Triple-call, Triple-clock,
  Triple-map,
}
use boom_gw.Access.Frame.{Keeps-access_ctx, Keeps-require, Keeps-group_detail}
use boom_gw.Access.Upserts.{upsert_hit, insert_if_missing, insert_if_missing_hit, is_pair_refl}

-- The rows that a new member has.
abbrev is_member : String → String → Bool → GroupUserDoc → Bool
is_member gid sub admin gu = is_membership gid sub gu && (if admin then gu.admin else not gu.admin)

module _ {M : Mongo} (L : MongoLaws M) (sub : String) where
  -- A direct grant of each of some streams.
  unfoldable pub HasGrants : List String → Db M → Type 0
  HasGrants sids db =
      (sid : String)
      → contains sid sids ≡ true
      → any (is_grant sid sub) (L.rows StreamUserDoc db.stream_users) ≡ true

module _ {M : Mongo} (L : MongoLaws M) (gid : String) where
  -- The streams of the group.
  abbrev pub shared : Db M → List String
  shared db =
      map (λ gs. gs.stream_id)
        (select (λ gs. str_eq gs.group_id gid) (L.rows GroupStreamDoc db.group_streams))

module _ {M : Mongo} (L : MongoLaws M) (gid sub : String) (admin : Bool) where
  unfoldable pub IsJoined : Db M → Type 0
  IsJoined db = any (is_member gid sub admin) (L.rows GroupUserDoc db.group_users) ≡ true

  module _ (env : Env) where
    abbrev Nothing : Db M → Type 0
    Nothing db = Unit {0}

    abbrev Inserted : ℕ → String → Db M → Db M
    Inserted now sid db =
        (upsert_grant (new_grant now sid sub) (record db { tries = db.tries + 1 })).1

    stays :
        (sid s : String) (now : ℕ) (db : Db M)
        → any (is_grant sid sub) (L.rows StreamUserDoc db.stream_users) ≡ true
        → any (is_grant sid sub) (L.rows StreamUserDoc (Inserted now s db).stream_users) ≡ true
    unfolding upsert_grant new_grant
    stays sid s now db h =
        subst (λ rows. any (is_grant sid sub) rows ≡ true)
          (sym (
            L.upsert_rows StreamUserDoc (is_grant s sub) (λ d. d) (new_grant now s sub)
              db.stream_users))
          (insert_if_missing (is_grant sid sub) (is_grant s sub) (new_grant now s sub)
            (L.rows StreamUserDoc db.stream_users) h)

    hit :
        (sid : String) (now : ℕ) (db : Db M)
        → any (is_grant sid sub) (L.rows StreamUserDoc (Inserted now sid db).stream_users) ≡ true
    unfolding upsert_grant new_grant
    hit sid now db =
        subst (λ rows. any (is_grant sid sub) rows ≡ true)
          (sym (
            L.upsert_rows StreamUserDoc (is_grant sid sub) (λ d. d) (new_grant now sid sub)
              db.stream_users))
          (insert_if_missing_hit (is_grant sid sub) (new_grant now sid sub)
            (L.rows StreamUserDoc db.stream_users) (is_pair_refl sid sub))

    HasGrants-cons :
        (sid : String) (sids : List String) (db : Db M)
        → any (is_grant sid sub) (L.rows StreamUserDoc db.stream_users) ≡ true
        → HasGrants L sub sids db
        → HasGrants L sub (sid ∷ sids) db
    unfolding HasGrants any
    HasGrants-cons sid sids db h rest s e = elim (Bool-cases (str_eq sid s)) [
      | inl t ↦
          subst (λ s. any (is_grant s sub) (L.rows StreamUserDoc db.stream_users) ≡ true)
            ((eq_iff sid s).0 t) h
      | inr f ↦ rest s (ground arith)
    ]

    grant_all_lem :
        (W : Db M → Type 0)
        → ((now : ℕ) (sid : String) (db : Db M) → W db → W (Inserted now sid db))
        → (sids : List String)
        → Triple {M = M} Nothing W (grant_all env sub sids) (λ _ db. W db × HasGrants L sub sids db)
    unfolding grant_all HasGrants any
    grant_all_lem W keeps [] = Triple-pure tt λ db w. (w, λ sid e. ground arith)
    grant_all_lem W keeps (sid ∷ sids) =
        Triple-bind {M = M} (λ _ db. W db) (Triple-clock env)
          λ now.
            Triple-bind {M = M}
              (λ _ db.
                W db × (any (is_grant sid sub) (L.rows StreamUserDoc db.stream_users) ≡ true))
              (Triple-call env (upsert_grant (new_grant now sid sub))
                λ db w. (tt, (keeps now sid db w, hit sid now db)))
              λ _.
                Triple-map (λ _ db r. (r.0.0, HasGrants-cons sid sids db r.0.1 r.1))
                  (grant_all_lem
                    (λ db.
                      W db × (any (is_grant sid sub) (L.rows StreamUserDoc db.stream_users) ≡ true))
                    (λ now s db w. (keeps now s db w.0, stays sid s now db w.1)) sids)

    joined :
        (now : ℕ) (c : M.Coll GroupUserDoc)
        → any (is_member gid sub admin) (
            L.rows GroupUserDoc (
              M.upsert GroupUserDoc
                (is_membership gid sub)
                (λ _. new_membership now gid sub admin)
                (new_membership now gid sub admin)
                c))
          ≡ true
    unfolding new_membership
    joined now c =
        let gu = new_membership now gid sub admin in
        subst (λ rows. any (is_member gid sub admin) rows ≡ true)
          (sym (L.upsert_rows GroupUserDoc (is_membership gid sub) (λ _. gu) gu c))
          (upsert_hit (is_member gid sub admin) (is_membership gid sub) gu (L.rows GroupUserDoc c)
            (ground (arith, is_pair_refl gid sub, Bool-cases admin)))

    -- What holds once the handler ends with its reply.
    Joined : Db M → Type 0
    Joined db = IsJoined db × HasGrants L sub (shared L gid db) db

    add_lem :
        (caller : Option String)
        → Triple {M = M} Nothing Nothing
            (add_group_member env caller gid sub admin)
            (λ _ db. Joined db)
    unfolding add_group_member upsert_membership group_stream_ids IsJoined HasGrants Joined
        upsert_grant new_membership
    add_lem caller =
        Triple-bind {M = M} (λ _ db. Nothing db)
          (Keeps-access_ctx env (λ db. tt) (λ _ _. refl) {K = λ _. Unit {0}} (λ _ k. k)
            (λ _ _. refl) caller)
          λ ctx.
            Triple-bind {M = M} (λ _ db. Nothing db)
              (Keeps-require env (λ db. tt) (λ _ _. refl) {K = λ _. Unit {0}} (λ _ k. k) _ _)
              λ _.
                Triple-bind {M = M} (λ _ db. Nothing db) (Triple-attempt env _ λ db p. (tt, tt))
                  λ found.
                    Triple-bind {M = M} (λ _ db. Nothing db)
                      (Keeps-require env (λ db. tt) (λ _ _. refl) {K = λ _. Unit {0}} (λ _ k. k) _
                        _)
                      λ _.
                        Triple-bind {M = M} (λ _ db. Nothing db) (Triple-clock env)
                          λ now.
                            Triple-bind {M = M} (λ _ db. IsJoined db)
                              (Triple-call env _ λ db p. (tt, joined now db.group_users))
                              λ _.
                                Triple-bind {M = M}
                                  (λ sids db. IsJoined db × (sids ≡ shared L gid db))
                                  (Triple-call env _ λ db p. (
                                    tt,
                                    (
                                      p,
                                      ap (map (λ gs. gs.stream_id)) (
                                          L.find_rows GroupStreamDoc (λ gs. str_eq gs.group_id gid)
                                            db.group_streams),
                                    ),
                                  ))
                                  λ sids.
                                    Triple-bind {M = M} (λ _ db. Joined db)
                                      (Triple-map
                                        (λ _ db r.
                                          (r.0.0, subst (λ ids. HasGrants L sub ids db) r.0.1 r.1))
                                        (grant_all_lem
                                          (λ db. IsJoined db × (sids ≡ shared L gid db))
                                          (λ now s db w. w) sids))
                                      λ _.
                                        Keeps-group_detail env
                                          {X = M.Coll GroupUserDoc
                                            × M.Coll GroupStreamDoc
                                            × M.Coll StreamUserDoc}
                                          (λ db.
                                            (db.group_users, db.group_streams, db.stream_users))
                                          (λ _ _. refl)
                                          {K = λ t.
                                            (any (is_member gid sub admin) (L.rows GroupUserDoc t.0)
                                              ≡ true)
                                            × ((sid : String)
                                                → contains sid (
                                                    map (λ gs. gs.stream_id)
                                                      (select (λ gs. str_eq gs.group_id gid)
                                                        (L.rows GroupStreamDoc t.1)))
                                                  ≡ true
                                                → any (is_grant sid sub) (L.rows StreamUserDoc t.2)
                                                  ≡ true)}
                                          (λ _ _. tt) ctx gid

-- For collections that meet MongoLaws: if add_group_member, by any caller and whichever database
-- operations fail, ends with its normal reply, then afterwards the documents hold a membership of
-- the user in the group with the given admin flag, and a direct grant for the user of every
-- stream of the group.
pub add_group_member-IsJoined :
    {M : Mongo} (L : MongoLaws M) (env : Env) (caller : Option String) (gid sub : String)
    (admin : Bool) (db : Db M) (r : Response)
    → (add_group_member env caller gid sub admin db).0 ≡ value r
    → IsJoined L gid sub admin (add_group_member env caller gid sub admin db).1
      × HasGrants L sub
          (shared L gid (add_group_member env caller gid sub admin db).1)
          (add_group_member env caller gid sub admin db).1
unfolding Joined
add_group_member-IsJoined L env caller gid sub admin db r e =
    (Triple-value (add_lem L gid sub admin env caller) db tt r e).1
