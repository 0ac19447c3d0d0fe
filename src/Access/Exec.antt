-- ===== src/Access/Exec.antt =====
-- Handlers as actions on the database: an action ends with a value, or with the response that the
-- handler returns early. Any single database operation may fail.
use boom_gw.Base.{◌+◌, ℕ, String, Bool, List, Option, none, some, if◌then◌else◌}
use boom_gw.Access.Mongo.{Mongo}
use boom_gw.Access.Docs.{
  UserDoc, RoleDoc, GroupDoc, GroupUserDoc, StreamDoc, GroupStreamDoc, StreamUserDoc,
}

-- The collections, and how many operations were tried.
pub record Db (M : Mongo) : Type 0 where
  pub users : M.Coll UserDoc
  pub roles : M.Coll RoleDoc
  pub groups : M.Coll GroupDoc
  pub group_users : M.Coll GroupUserDoc
  pub streams : M.Coll StreamDoc
  pub group_streams : M.Coll GroupStreamDoc
  pub stream_users : M.Coll StreamUserDoc
  pub tries : ℕ

-- What surrounds the program: which of the operations fail, the wall clock and the identifiers
-- drawn at the time of each operation, and the configured site administrators.
pub record Env : Type 0 where
  pub fails : ℕ → Bool
  pub now : ℕ → ℕ
  pub uuid : ℕ → String
  pub site_admins : List String

pub record Member : Type 0 where
  pub sub : String
  pub admin : Bool
  pub display_name : Option String
  pub email : Option String

pub record StreamRef : Type 0 where
  pub id : String
  pub name : String

pub record GroupJson : Type 0 where
  pub id : String
  pub name : String
  pub description : String
  pub admin : Bool

pub record ProfileGroup : Type 0 where
  pub id : String
  pub name : String
  pub admin : Bool
  pub streams : List StreamRef

pub data Body : Type 0 where
  user : UserDoc → Body
  users : List UserDoc → Body
  roles : List RoleDoc → Body
  acls : List String → Body
  group : GroupJson → Body
  groups : List GroupJson → Body
  detail : GroupJson → List Member → List StreamRef → Body
  deleted : String → Body
  stream : StreamDoc → Body
  streams : List StreamDoc → Body
  granted : String → String → Body
  profile : UserDoc → List String → List ProfileGroup → List StreamRef → Body

pub data Response : Type 0 where
  ok created : Body → Response
  unauthorized forbidden not_found bad_request : String → Response
  internal_error : Response

pub data Outcome (A : Type 0) : Type 0 where
  value : A → Outcome A
  respond : Response → Outcome A

abbrev pub Exec : Mongo → Type 0 → Type 0
Exec M A = Db M → Outcome A × Db M

module _ {M : Mongo} {A B : Type 0} where
  abbrev pub continue : Outcome A → (A → Exec M B) → Exec M B
  continue (value a) f db = f a db
  continue (respond r) f db = (respond r, db)

  infixl 5 ◌>>=◌ ◌>>◌
  unfoldable pub ◌>>=◌ : Exec M A → (A → Exec M B) → Exec M B
  ◌>>=◌ m f db = let (o, db') = m db in continue o f db'

  abbrev pub ◌>>◌ : Exec M A → Exec M B → Exec M B
  m >> n = m >>= λ _. n

module _ {M : Mongo} {A : Type 0} where
  unfoldable pub pure : A → Exec M A
  pure a db = (value a, db)

  -- `return resp`
  unfoldable pub reply : Response → Exec M A
  reply r db = (respond r, db)

module _ {M : Mongo} {A : Type 0} (env : Env) where
  -- One operation whose error the code looks at: `none` is the error.
  unfoldable pub attempt : (Db M → A × Db M) → Exec M (Option A)
  attempt op db =
      let db' = record db { tries = db.tries + 1 } in
      if env.fails db.tries
      then (value none, db')
      else (let (a, db'') = op db' in (value (some a), db''))

  abbrev pub or_respond : Response → Option A → Exec M A
  or_respond r none db = (respond r, db)
  or_respond r (some a) db = (value a, db)

  -- One operation whose error ends the handler with a given response.
  unfoldable pub call_or : Response → (Db M → A × Db M) → Exec M A
  unfolding attempt ◌>>=◌
  call_or r op = attempt op >>= or_respond r

  -- ... with an internal error, as almost everywhere.
  unfoldable pub call : (Db M → A × Db M) → Exec M A
  unfolding call_or
  call op = call_or internal_error op

-- A read leaves the database as it is.
abbrev pub read : {M : Mongo} {A : Type 0} → (Db M → A) → Db M → A × Db M
read f db = (f db, db)

-- A write gives no value.
abbrev pub write : {M : Mongo} → (Db M → Db M) → Db M → Unit {0} × Db M
write f db = (tt, f db)

module _ {M : Mongo} (env : Env) where
  -- The clock, read before the next operation.
  unfoldable pub clock : Exec M ℕ
  clock db = (value (env.now db.tries), db)

  -- A fresh identifier.
  unfoldable pub new_id : Exec M String
  new_id db = (value (env.uuid db.tries), db)
