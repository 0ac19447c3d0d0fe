-- ===== src/Access/Grants.antt =====
-- The context that `load` of src/access.rs builds, against the documents it is read from.
use native.Mathlib.Omega.{arith}
use boom_gw.Base.{
  ◌∙◌, inr, inl, ◌≡◌, refl, sym, ap, String, Bool, true, false, ◌&&◌, ◌||◌, List, [], ◌∷◌, ◌++◌,
  map, Bool-cases, str_eq,
}
use boom_gw.Access.Mongo.{Mongo, MongoLaws, any, select, head?}
use boom_gw.Access.Docs.{
  RoleDoc, GroupUserDoc, GroupStreamDoc, StreamUserDoc, UserDoc, contains, acl_system_admin,
}
use boom_gw.Access.Exec.{Db}
use boom_gw.Access.Archive.{has_sub}
use boom_gw.Access.Context.{all_acls_of, roles_of}

pub any-append :
    {D : Type 0} (p : D → Bool) (ds es : List D) → any p (ds ++ es) ≡ (any p ds || any p es)
unfolding any
any-append p [] es = refl
any-append p (d ∷ ds) es = ground (arith, any-append p ds es, Bool-cases (p d))

contains-map-select :
    {D : Type 0} (f : D → String) (p : D → Bool) (s : String) (ds : List D)
    → contains s (map f (select p ds)) ≡ any (λ d. p d && str_eq (f d) s) ds
unfolding any select
contains-map-select f p s [] = refl
contains-map-select f p s (d ∷ ds) =
    ground (arith, contains-map-select f p s ds, Bool-cases (p d), Bool-cases (str_eq (f d) s))

contains-all_acls_of :
    (p : RoleDoc → Bool) (acl : String) (ds : List RoleDoc)
    → contains acl (all_acls_of (select p ds)) ≡ any (λ d. p d && contains acl d.acls) ds
unfolding any select all_acls_of
contains-all_acls_of p acl [] = refl
contains-all_acls_of p acl (d ∷ ds) = ground (
  arith,
  contains-all_acls_of p acl ds,
  Bool-cases (p d),
  any-append (λ t. str_eq t acl) d.acls (all_acls_of (select p ds)),
)

any_none : {D : Type 0} (p : D → Bool) (ds : List D) → any (λ d. false) ds ≡ false
unfolding any
any_none p [] = refl
any_none p (d ∷ ds) = any_none p ds

any_both :
    {D : Type 0} (p q : D → Bool) (ds : List D) → any (λ d. p d || q d) ds ≡ (any p ds || any q ds)
unfolding any
any_both p q [] = refl
any_both p q (d ∷ ds) = ground (arith, any_both p q ds, Bool-cases (p d), Bool-cases (q d))

any_cong : {D : Type 0} (p q : D → Bool) (ds : List D) → ((d : D) → p d ≡ q d) → any p ds ≡ any q ds
unfolding any
any_cong p q [] h = refl
any_cong p q (d ∷ ds) h = ground (arith, any_cong p q ds h, h d, Bool-cases (p d))

any_and :
    {D : Type 0} (b : Bool) (q : D → Bool) (ds : List D) → any (λ d. b && q d) ds ≡ (b && any q ds)
unfolding any
any_and true q ds = refl
any_and false q ds = any_none q ds

-- The rows of one group more.
shared_step :
    (gid sid : String) (gids : List String) (rows : List GroupStreamDoc)
    → any (λ row. contains row.group_id (gid ∷ gids) && str_eq row.stream_id sid) rows ≡ (
        any (λ row. str_eq gid row.group_id && str_eq row.stream_id sid) rows
        || any (λ row. contains row.group_id gids && str_eq row.stream_id sid) rows)
unfolding any
shared_step gid sid gids [] = refl
shared_step gid sid gids (row ∷ rows) = ground (
  arith,
  shared_step gid sid gids rows,
  Bool-cases (str_eq gid row.group_id),
  Bool-cases (str_eq row.stream_id sid),
  Bool-cases (contains row.group_id gids),
)

-- The streams that some groups share are the streams of any of them.
shared_lem :
    (p : GroupUserDoc → Bool) (sid : String) (gus : List GroupUserDoc) (rows : List GroupStreamDoc)
    → any
        (λ row.
          contains row.group_id (map (λ gu. gu.group_id) (select p gus))
          && str_eq row.stream_id sid)
        rows
      ≡ any
          (λ gu.
            p gu && any (λ row. str_eq gu.group_id row.group_id && str_eq row.stream_id sid) rows)
          gus
unfolding any select
shared_lem p sid [] rows = any_none (λ d. true) rows
shared_lem p sid (gu ∷ gus) rows = elim (Bool-cases (p gu)) [
  | inl t ↦ ground (
    arith,
    shared_lem p sid gus rows,
    shared_step gu.group_id sid (map (λ gu. gu.group_id) (select p gus)) rows,
  )
  | inr f ↦ ground (arith, shared_lem p sid gus rows)
]

module _ {M : Mongo} (L : MongoLaws M) where
  pub acls-find :
      (p : RoleDoc → Bool) (c : M.Coll RoleDoc) (acl : String)
      → contains acl (all_acls_of (M.find RoleDoc p c))
        ≡ any (λ r. p r && contains acl r.acls) (L.rows RoleDoc c)
  acls-find p c acl =
      ap (λ rs. contains acl (all_acls_of rs)) (L.find_rows RoleDoc p c)
      ∙ contains-all_acls_of p acl (L.rows RoleDoc c)

  pub acls-none :
      (c : M.Coll RoleDoc) (acl : String)
      → contains acl [] ≡ any (λ r. contains r.id [] && contains acl r.acls) (L.rows RoleDoc c)
  unfolding any
  acls-none c acl = sym (any_none (λ _. true) (L.rows RoleDoc c))

  pub streams-find :
      (p : StreamUserDoc → Bool) (c : M.Coll StreamUserDoc) (sid : String)
      → contains sid (map (λ su. su.stream_id) (M.find StreamUserDoc p c))
        ≡ any (λ su. p su && str_eq su.stream_id sid) (L.rows StreamUserDoc c)
  streams-find p c sid =
      ap (λ rows. contains sid (map (λ su. su.stream_id) rows)) (L.find_rows StreamUserDoc p c)
      ∙ contains-map-select (λ su. su.stream_id) p sid (L.rows StreamUserDoc c)

  -- What the rows of the groups of a user give.
  pub shared-find :
      (gids : List String) (p : GroupUserDoc → Bool) (gus : List GroupUserDoc)
      (c : M.Coll GroupStreamDoc)
      → gids ≡ map (λ gu. gu.group_id) (select p gus)
      → (sid : String)
      → contains sid
          (map (λ row. row.stream_id) (M.find GroupStreamDoc (λ row. contains row.group_id gids) c))
        ≡ any
            (λ gu.
              p gu
              && any
                  (λ row. str_eq gu.group_id row.group_id && str_eq row.stream_id sid)
                  (L.rows GroupStreamDoc c))
            gus
  shared-find gids p gus c e sid =
      ap (λ rows. contains sid (map (λ row. row.stream_id) rows))
        (L.find_rows GroupStreamDoc (λ row. contains row.group_id gids) c)
      ∙ contains-map-select (λ row. row.stream_id) (λ row. contains row.group_id gids) sid
          (L.rows GroupStreamDoc c)
      ∙ ap
          (λ ids.
            any (λ row. contains row.group_id ids && str_eq row.stream_id sid)
              (L.rows GroupStreamDoc c))
          e
      ∙ shared_lem p sid gus (L.rows GroupStreamDoc c)

  pub shared-none :
      (p : GroupUserDoc → Bool) (gus : List GroupUserDoc) (c : M.Coll GroupStreamDoc)
      → [] ≡ map (λ gu. gu.group_id) (select p gus)
      → (sid : String)
      → contains sid []
        ≡ any
            (λ gu.
              p gu
              && any
                  (λ row. str_eq gu.group_id row.group_id && str_eq row.stream_id sid)
                  (L.rows GroupStreamDoc c))
            gus
  unfolding any
  shared-none p gus c e sid =
      sym (any_none (λ _. true) (L.rows GroupStreamDoc c))
      ∙ ap
          (λ ids.
            any (λ row. contains row.group_id ids && str_eq row.stream_id sid)
              (L.rows GroupStreamDoc c))
          e
      ∙ shared_lem p sid gus (L.rows GroupStreamDoc c)

module _ {M : Mongo} (L : MongoLaws M) (sub : String) where
  -- A role of the user carries the ACL.
  unfoldable pub grants_acl : Db M → String → Bool
  grants_acl db acl =
      any
        (λ r.
          contains r.id (roles_of (head? (select (has_sub sub) (L.rows UserDoc db.users))))
          && contains acl r.acls)
        (L.rows RoleDoc db.roles)

  -- The user may read everything, or has the stream directly, or a group of theirs has it.
  unfoldable pub grants_stream : Db M → String → Bool
  unfolding grants_acl
  grants_stream db sid =
      grants_acl db acl_system_admin
      || (any (λ su. str_eq su.user_sub sub && str_eq su.stream_id sid)
            (L.rows StreamUserDoc db.stream_users)
          || any
              (λ gu.
                str_eq gu.user_sub sub
                && any (λ row. str_eq gu.group_id row.group_id && str_eq row.stream_id sid)
                    (L.rows GroupStreamDoc db.group_streams))
              (L.rows GroupUserDoc db.group_users))
