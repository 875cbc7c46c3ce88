-- ===== src/Chain/Outbox/Store/Inversion.antt =====
-- What a committed transaction's parts have done to the tables.
use mathlib.Core.Option as Option
use nagarik_signals.Base.{
  ◌≡◌, refl, sym, ap, ◌∙◌, Bool, true, false, some, String, List, [], ◌∷◌, inl, inr, ◌==◌,
  string_eq, Result, ok, err, error, Thrown, Bool-cases, if◌then◌else◌, any,
}
use nagarik_signals.Chain.Outbox.Store.{
  IssueRow, BindingRow, AttemptRow, Database, Transaction, JobRow, find_issue, update_issue,
  find_job, update_job, same_attempt, require, ◌>>=◌, insert_binding, insert_attempt,
}

-- The row with an identifier, after an update that keeps it.
pub find_issue-update_issue :
    (id : String) (f : IssueRow → IssueRow) (is : List IssueRow) {i : IssueRow}
    → ((j : IssueRow) → (f j).id ≡ j.id)
    → find_issue id is ≡ some i
    → find_issue id (update_issue id f is) ≡ some (f i)
unfolding find_issue update_issue
find_issue-update_issue id f [] keeps h = cc
find_issue-update_issue id f (j ∷ is) keeps h = elim (Bool-cases (j.id == id)) [
  | inl e ↦
      let here : some j ≡ some _ = rw e at h in
      let e' : (f j).id == id ≡ true = ap (λ k. k == id) (keeps j) ∙ e in
      rw (e, e') (ap (Option.map f) here)
  | inr e ↦ rw (e, e) (find_issue-update_issue id f is keeps (rw e at h))
]

-- The row with an identifier, after an update that keeps it.
pub find_job-update_job :
    (id : String) (f : JobRow → JobRow) (is : List JobRow) {i : JobRow}
    → ((j : JobRow) → (f j).id ≡ j.id)
    → find_job id is ≡ some i
    → find_job id (update_job id f is) ≡ some (f i)
unfolding find_job update_job
find_job-update_job id f [] keeps h = cc
find_job-update_job id f (j ∷ is) keeps h = elim (Bool-cases (j.id == id)) [
  | inl e ↦
      let here : some j ≡ some _ = rw e at h in
      let e' : (f j).id == id ≡ true = ap (λ k. k == id) (keeps j) ∙ e in
      rw (e, e') (ap (Option.map f) here)
  | inr e ↦ rw (e, e) (find_job-update_job id f is keeps (rw e at h))
]

pub bind-eq-ok :
    {P A B : Type 0} (r : Result (A × Database P)) (f : A → Transaction P B) {x : B × Database P}
    → (elim r [ ok (a, db') ↦ f a db' | err e ↦ err e ]) ≡ ok x
    → (a : A) × (db' : Database P) × (r ≡ ok (a, db')) × (f a db' ≡ ok x)
bind-eq-ok (ok (a, db')) f h = (a, db', refl, h)
bind-eq-ok (err e) f h = cc

pub require-eq-ok :
    {P B : Type 0} (b : Bool) (e : Thrown) (k : Transaction P B) (db : Database P)
    {x : B × Database P}
    → (require b e >>= λ _. k) db ≡ ok x
    → (b ≡ true) × (k db ≡ ok x)
require-eq-ok true e k db h = (refl, h)
require-eq-ok false e k db h = cc

pub bind-ok :
    {P A B : Type 0} (r : Result (A × Database P)) (f : A → Transaction P B) (a : A)
    (db : Database P) {x : B × Database P}
    → r ≡ ok (a, db)
    → f a db ≡ ok x
    → (elim r [ ok (a, db') ↦ f a db' | err e ↦ err e ]) ≡ ok x
bind-ok r f a db e t = rw e t

pub require-ok :
    {P : Type 0} (b : Bool) (e : Thrown) (db : Database P) → b ≡ true → require b e db ≡ ok (tt, db)
require-ok b e db h = ap (λ b. require b e db) h

module _ {P : Type 0} where
  pub insert_binding-eq-ok :
      (b : BindingRow) (db db' : Database P) {u : Unit {0}}
      → insert_binding b db ≡ ok (u, db')
      → (db'.jobs ≡ db.jobs)
        × (db'.issues ≡ db.issues)
        × (db'.attempts ≡ db.attempts)
        × (db'.projection ≡ db.projection)
  insert_binding-eq-ok b db db' {u} = helper (any (λ c. c.event_id == b.event_id) db.bindings)
    where
      helper :
          (t : Bool)
          → if◌then◌else◌ {A = Result (Unit {0} × Database P)} t
              (ok (tt, db))
              (ok (tt, record db { bindings = b ∷ db.bindings }))
            ≡ ok (u, db')
          → (db'.jobs ≡ db.jobs)
            × (db'.issues ≡ db.issues)
            × (db'.attempts ≡ db.attempts)
            × (db'.projection ≡ db.projection)
      helper true h =
          let at : db ≡ db' = cc in
          (
            ap (λ d. d.jobs) (sym at),
            ap (λ d. d.issues) (sym at),
            ap (λ d. d.attempts) (sym at),
            ap (λ d. d.projection) (sym at),
          )
      helper false h =
          let at : record db { bindings = b ∷ db.bindings } ≡ db' = cc in
          (
            ap (λ d. d.jobs) (sym at),
            ap (λ d. d.issues) (sym at),
            ap (λ d. d.attempts) (sym at),
            ap (λ d. d.projection) (sym at),
          )

  pub insert_attempt-eq-ok :
      (a : AttemptRow) (db db' : Database P) {u : Unit {0}}
      → insert_attempt a db ≡ ok (u, db')
      → (any (same_attempt a) db.attempts ≡ false)
        × (record db { attempts = a ∷ db.attempts } ≡ db')
  insert_attempt-eq-ok a db db' {u} h = helper (any (same_attempt a) db.attempts) refl h
    where
      helper :
          (t : Bool)
          → any (same_attempt a) db.attempts ≡ t
          → if◌then◌else◌ {A = Result (Unit {0} × Database P)} t
              (err (error "unique_violation"))
              (ok (tt, record db { attempts = a ∷ db.attempts }))
            ≡ ok (u, db')
          → (any (same_attempt a) db.attempts ≡ false)
            × (record db { attempts = a ∷ db.attempts } ≡ db')
      helper true e h = absurd (cc)
      helper false e h = (e, cc)
