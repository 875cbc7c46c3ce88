-- ===== src/Chain/Outbox/Actions.antt =====
-- Actions of a worker: transactions one after another, with what other sessions commit between
-- them. A schedule says when each transaction runs and what the others have done by then.
use nagarik_signals.Base.{ℕ, ◌≡◌, refl, Bool, String, Result, ok, err, Thrown, error, execution}
use nagarik_signals.Chain.Protocol.{Hashing, Addresses}
use nagarik_signals.Chain.Signer.{ChainSigner}
use nagarik_signals.Chain.Outbox.Store.{Database, Transaction}
use nagarik_signals.Chain.Outbox.Transactions.{Projector}

-- `ChainWorkerDependencies`
pub record ChainWorker (P : Type 0) : Type 0 where
  pub hashing : Hashing
  pub addresses : Addresses
  pub signer : ChainSigner
  pub project_confirmed : Projector P
  pub worker_id : String

-- The transactions of one job, by their place.
pub data Moment : Type 0 where
  claiming finalizing marking recording reading : Moment

pub record Schedule (P : Type 0) : Type 0 where
  pub now : Moment → ℕ
  pub others : Moment → Database P → Database P

pub data Outcome : Type 0 where
  confirmed submitted_unknown retry dead_letter : Outcome

-- An action commits some transactions, and gives a value or throws.
abbrev pub Action : Type 0 → Type 0 → Type 0
Action P A = Database P → Result A × Database P

infixl 5 ◌>>=◌ ◌>>◌
abbrev pub and_then :
    {P A B : Type 0} → (A → Action P B) → Result A → Database P → Result B × Database P
and_then f (ok a) db = f a db
and_then f (err e) db = (err e, db)

abbrev pub ◌>>=◌ : {P A B : Type 0} → Action P A → (A → Action P B) → Action P B
◌>>=◌ m f db = and_then f (m db).0 (m db).1

abbrev pub ◌>>◌ : {P B : Type 0} → Action P (Unit {0}) → Action P B → Action P B
m >> k = m >>= λ _. k

abbrev pub pure : {P A : Type 0} → A → Action P A
pure a db = (ok a, db)

-- A call that touches no table.
abbrev pub lift : {P A : Type 0} → Result A → Action P A
lift r db = (r, db)

-- `try`: what the action throws becomes a value.
abbrev pub attempt : {P A : Type 0} → Action P A → Action P (Result A)
attempt m db = (ok (m db).0, (m db).1)

-- A transaction that throws leaves the tables as it found them.
abbrev pub committed : {P A : Type 0} → Database P → Result (A × Database P) → Result A × Database P
committed db (ok (a, db')) = (ok a, db')
committed db (err e) = (err e, db)

abbrev pub transact : {P A : Type 0} → Schedule P → Moment → (ℕ → Transaction P A) → Action P A
transact s m t db = committed (s.others m db) (t (s.now m) (s.others m db))

abbrev pub category_of : Thrown → String → String
category_of (execution category retryable) default = category
category_of (error m) default = default
category_of _ default = default

abbrev pub retryable_of : Thrown → Bool → Bool
retryable_of (execution category retryable) default = retryable
retryable_of (error m) default = default
retryable_of _ default = default

pub and_then-eq-ok :
    {P A B : Type 0} (r : Result A) (db : Database P) (f : A → Action P B) {b : B}
    {db' : Database P}
    → and_then f r db ≡ (ok b, db')
    → (a : A) × (r ≡ ok a) × (f a db ≡ (ok b, db'))
and_then-eq-ok (ok a) db f h = (a, refl, h)
and_then-eq-ok (err e) db f h = cc

pub transact-eq-ok :
    {P A : Type 0} (s : Schedule P) (m : Moment) (t : ℕ → Transaction P A) (db : Database P) {a : A}
    → (transact s m t db).0 ≡ ok a
    → t (s.now m) (s.others m db) ≡ ok (a, (transact s m t db).1)
transact-eq-ok {P = P} {A = A} s m t db =
    committed-eq-ok (s.others m db) (t (s.now m) (s.others m db))
  where
    committed-eq-ok :
        (start : Database P) (r : Result (A × Database P)) {a : A}
        → (committed start r).0 ≡ ok a
        → r ≡ ok (a, (committed start r).1)
    committed-eq-ok start (ok (b, end)) h = cc
    committed-eq-ok start (err e) h = cc
