-- ===== src/Access/Triple.antt =====
-- Reasoning about actions on the database: from a state where `P` holds, an action ends with a
-- value and a state where `Q` holds of them, or early with a state where the invariant holds.
use native.Mathlib.Omega.{arith}
use boom_gw.Base.{ℕ, ◌+◌, ◌≡◌, refl, Bool, true, false, Option, none, some, if◌then◌else◌}
use boom_gw.Access.Mongo.{Mongo}
use boom_gw.Access.Exec.{
  clock, or_respond, Db, Env, Exec, Outcome, Response, value, respond, ◌>>=◌, pure, reply, call,
  call_or, attempt, internal_error, continue,
}

module _ {M : Mongo} {A : Type 0} (Inv : Db M → Type 0) where
  unfoldable pub Ends : (A → Db M → Type 0) → Outcome A × Db M → Type 0
  Ends Q (value a, db) = Q a db
  Ends Q (respond r, db) = Inv db

Ends-Inv :
    {M : Mongo} {A : Type 0} (Inv : Db M → Type 0) (r : Outcome A × Db M)
    → Ends Inv (λ _ db. Inv db) r
    → Inv r.1
unfolding Ends
Ends-Inv Inv (value a, db) e = e
Ends-Inv Inv (respond r, db) e = e

Ends-map :
    {M : Mongo} {A : Type 0} {Q R : A → Db M → Type 0} (Inv : Db M → Type 0) (r : Outcome A × Db M)
    → ((a : A) (db : Db M) → Q a db → R a db)
    → Ends Inv Q r
    → Ends Inv R r
unfolding Ends
Ends-map Inv (value a, db) h q = h a db q
Ends-map Inv (respond x, db) h q = q

Ends-reached :
    {M : Mongo} {A : Type 0} (Q : A → Db M → Type 0) (Inv : Db M → Type 0) (r : Outcome A × Db M)
    (a : A)
    → r.0 ≡ value a
    → Ends Inv Q r
    → (b : A) × Q b r.1
unfolding Ends
Ends-reached Q Inv (value b, db) a e q = (b, q)
Ends-reached Q Inv (respond x, db) a e q = ground arith

-- An action that always ends with a value.
pub Ends-value :
    {M : Mongo} {A : Type 0} (Q : A → Db M → Type 0) (r : Outcome A × Db M)
    → Ends (λ _. ⊥) Q r
    → (a : A) × (r.0 ≡ value a) × Q a r.1
unfolding Ends
Ends-value Q (value a, db) q = (a, refl, q)
Ends-value Q (respond r, db) q = absurd q

pub record Triple {M : Mongo} {A : Type 0} (Inv : Db M → Type 0) (P : Db M → Type 0) (m : Exec M A)
    (Q : A → Db M → Type 0) : Type 0 where
  pub run : (db : Db M) → P db → Ends Inv Q (m db)

module _ {M : Mongo} {Inv : Db M → Type 0} where
  pub Triple-pure :
      {A : Type 0} {P : Db M → Type 0} {Q : A → Db M → Type 0} (a : A)
      → ((db : Db M) → P db → Q a db)
      → Triple Inv P (pure a) Q
  unfolding pure Ends
  Triple-pure a h = record { run = λ db p. h db p }

  pub Triple-reply :
      {A : Type 0} {P : Db M → Type 0} {Q : A → Db M → Type 0} (r : Response)
      → ((db : Db M) → P db → Inv db)
      → Triple Inv P (reply r) Q
  unfolding reply Ends
  Triple-reply r h = record { run = λ db p. h db p }

  continue_lem :
      {A B : Type 0} {Q : A → Db M → Type 0} {R : B → Db M → Type 0} (f : A → Exec M B)
      → ((a : A) → Triple Inv (Q a) (f a) R)
      → (r : Outcome A × Db M) → Ends Inv Q r
      → Ends Inv R (continue r.0 f r.1)
  unfolding Ends
  continue_lem f h (value a, db) q = (h a).run db q
  continue_lem f h (respond r, db) q = q

  pub Triple-bind :
      {A B : Type 0} {P : Db M → Type 0} (Q : A → Db M → Type 0) {R : B → Db M → Type 0}
      {m : Exec M A} {f : A → Exec M B}
      → Triple Inv P m Q
      → ((a : A) → Triple Inv (Q a) (f a) R)
      → Triple Inv P (m >>= f) R
  unfolding ◌>>=◌
  Triple-bind Q {m = m} {f} hm hf = record { run = λ db p. continue_lem f hf (m db) (hm.run db p) }

  -- An operation whose error the code looks at.
  pub Triple-attempt :
      {A : Type 0} (env : Env) {P : Db M → Type 0} {Q : Option A → Db M → Type 0}
      (op : Db M → A × Db M)
      → ((db : Db M)
          → P db
          → Q none (record db { tries = db.tries + 1 })
            × Q
                (some (op (record db { tries = db.tries + 1 })).0)
                (op (record db { tries = db.tries + 1 })).1)
      → Triple Inv P (attempt env op) Q
  unfolding attempt Ends
  Triple-attempt env {Q = Q} op h = record { run = λ db p. split db (env.fails db.tries) (h db p) }
    where
      split :
          (db : Db M) (b : Bool)
          → Q none (record db { tries = db.tries + 1 })
            × Q
                (some (op (record db { tries = db.tries + 1 })).0)
                (op (record db { tries = db.tries + 1 })).1
          → Ends Inv Q (
              if b then (value none, record db { tries = db.tries + 1 }) else (
                value (some (op (record db { tries = db.tries + 1 })).0),
                (op (record db { tries = db.tries + 1 })).1,
              ))
      split db true q = q.0
      split db false q = q.1

  -- ... when no operation fails.
  pub Triple-attempt_ok :
      {A : Type 0} (env : Env) {P : Db M → Type 0} {Q : Option A → Db M → Type 0}
      (op : Db M → A × Db M)
      → ((n : ℕ) → env.fails n ≡ false)
      → ((db : Db M)
          → P db
          → Q
              (some (op (record db { tries = db.tries + 1 })).0)
              (op (record db { tries = db.tries + 1 })).1)
      → Triple Inv P (attempt env op) Q
  unfolding attempt Ends
  Triple-attempt_ok env {Q = Q} op works h = record {
    run = λ db p. split db (env.fails db.tries) (works db.tries) (h db p);
  }
    where
      split :
          (db : Db M) (b : Bool)
          → b ≡ false
          → Q
              (some (op (record db { tries = db.tries + 1 })).0)
              (op (record db { tries = db.tries + 1 })).1
          → Ends Inv Q (
              if b then (value none, record db { tries = db.tries + 1 }) else (
                value (some (op (record db { tries = db.tries + 1 })).0),
                (op (record db { tries = db.tries + 1 })).1,
              ))
      split db true e q = ground arith
      split db false e q = q

  -- An operation whose error ends the handler.
  pub Triple-call_or :
      {A : Type 0} (env : Env) (resp : Response) {P : Db M → Type 0} {Q : A → Db M → Type 0}
      (op : Db M → A × Db M)
      → ((db : Db M)
          → P db
          → Inv (record db { tries = db.tries + 1 })
            × Q
                (op (record db { tries = db.tries + 1 })).0
                (op (record db { tries = db.tries + 1 })).1)
      → Triple Inv P (call_or env resp op) Q
  unfolding call_or Ends
  Triple-call_or {A} env resp {Q = Q} op h = Triple-bind R (Triple-attempt env op h) last
    where
      R : Option A → Db M → Type 0
      R none db = Inv db
      R (some a) db = Q a db

      last : (a : Option A) → Triple Inv (R a) (or_respond env resp a) Q
      last none = record { run = λ db r. r }
      last (some a) = record { run = λ db r. r }

  pub Triple-call :
      {A : Type 0} (env : Env) {P : Db M → Type 0} {Q : A → Db M → Type 0} (op : Db M → A × Db M)
      → ((db : Db M)
          → P db
          → Inv (record db { tries = db.tries + 1 })
            × Q
                (op (record db { tries = db.tries + 1 })).0
                (op (record db { tries = db.tries + 1 })).1)
      → Triple Inv P (call env op) Q
  unfolding call
  Triple-call env op h = Triple-call_or env internal_error op h

  pub Triple-if :
      {A : Type 0} {P : Db M → Type 0} {Q : A → Db M → Type 0} {m n : Exec M A} (b : Bool)
      → (b ≡ true → Triple Inv P m Q)
      → (b ≡ false → Triple Inv P n Q)
      → Triple Inv P (if b then m else n) Q
  Triple-if true t e = t refl
  Triple-if false t e = e refl

  -- An action that keeps the invariant in every case.
  pub Triple-Inv :
      {A : Type 0} {P : Db M → Type 0} {m : Exec M A}
      → Triple Inv P m (λ _ db. Inv db)
      → (db : Db M) → P db
      → Inv (m db).1
  Triple-Inv {m = m} t db p = Ends-Inv Inv (m db) (t.run db p)

  -- An operation when none fails.
  pub Triple-call_ok :
      {A : Type 0} (env : Env) {P : Db M → Type 0} {Q : A → Db M → Type 0} (op : Db M → A × Db M)
      → ((n : ℕ) → env.fails n ≡ false)
      → ((db : Db M)
          → P db
          → Q
              (op (record db { tries = db.tries + 1 })).0
              (op (record db { tries = db.tries + 1 })).1)
      → Triple Inv P (call env op) Q
  unfolding call call_or Ends
  Triple-call_ok {A} env {Q = Q} op works h = Triple-bind R (Triple-attempt_ok env op works h) last
    where
      R : Option A → Db M → Type 0
      R none db = ⊥
      R (some a) db = Q a db

      last : (a : Option A) → Triple Inv (R a) (or_respond env internal_error a) Q
      last none = record { run = λ db r. absurd r }
      last (some a) = record { run = λ db r. r }

  pub Triple-clock : {P : Db M → Type 0} (env : Env) → Triple Inv P (clock env) (λ _ db. P db)
  unfolding clock Ends
  Triple-clock env = record { run = λ db p. p }

  -- A weaker end.
  pub Triple-map :
      {A : Type 0} {P : Db M → Type 0} {Q R : A → Db M → Type 0} {m : Exec M A}
      → ((a : A) (db : Db M) → Q a db → R a db)
      → Triple Inv P m Q
      → Triple Inv P m R
  Triple-map {m = m} h t = record { run = λ db p. Ends-map Inv (m db) h (t.run db p) }

  -- What holds where an action ended with a value.
  pub Triple-value :
      {A : Type 0} {P : Db M → Type 0} {Q : A → Db M → Type 0} {m : Exec M A}
      → Triple Inv P m Q
      → (db : Db M) → P db
      → (a : A) → (m db).0 ≡ value a
      → (b : A) × Q b (m db).1
  Triple-value {m = m} t db p a e = Ends-reached _ Inv (m db) a e (t.run db p)
