-- ===== src/Chain/Outbox/Transactions/Failed.antt =====
-- apps/web/lib/chain/outboxWorker.ts, `recordFailure`: what becomes of a job that has failed.
use nagarik_signals.Base.{
  ◌≡◌, ◌≢◌, ◌≤◌, ◌↔◌, ◌⊎◌, inl, inr, refl, sym, ap, ◌∙◌, subst, ℕ, ◌+◌, ◌*◌, ◌^◌, min, Bool, true,
  false, Option, none, some, String, List, [], ◌∷◌, ◌==◌, ==_iff, string_eq, option_eq, ok,
  ok-injective, le→leb, leb→le, ◌&&◌, arith, if◌then◌else◌, any,
}
use nagarik_signals.Chain.Outbox.Store.{
  pending, leased, dead_letter, state_eq, JobRow, IssueRow, Database, find_job, update_job,
  find_issue, update_issue, block_from, insert_attempt, same_attempt, pure, ◌>>=◌,
}
use nagarik_signals.Chain.Outbox.Store.Inversion.{
  bind-eq-ok, require-eq-ok, insert_attempt-eq-ok, find_job-update_job, find_issue-update_issue,
}
use nagarik_signals.Chain.Outbox.Transactions.{
  WorkerJob, attempt_row, block_if, owns_lease, is_dead, failed_row, record_failure,
}

-- An issue whose block is at the sequence, or was already there.
pub record IsBlocked (sequence : ℕ) (before after : IssueRow) : Type 0 where
  pub newly : before.blocked_from_sequence ≡ none → after.blocked_from_sequence ≡ some sequence
  pub still : (n : ℕ) → before.blocked_from_sequence ≡ some n → after.blocked_from_sequence ≡ some n
  pub same_head : after.confirmed_timeline_head ≡ before.confirmed_timeline_head

-- The tables after a failure, and whether the job is given up.
pub record IsFailed {P : Type 0} (job : WorkerJob) (category : String) (retryable : Bool) (now : ℕ)
    (dead : Bool) (db end : Database P) : Type 0 where
  pub locked : JobRow
  pub found : find_job job.row.id db.jobs ≡ some locked
  pub was_leased : (locked.state ≡ leased) × (locked.lease_owner ≡ job.row.lease_owner)
  pub verdict : (dead ≡ true) ↔ ((retryable ≡ false) ⊎ (8 ≤ job.row.attempt_count))
  pub after : JobRow
  pub found_after : find_job job.row.id end.jobs ≡ some after
  pub given_up : dead ≡ true → after.state ≡ dead_letter
  pub waits_again : dead ≡ false → after.state ≡ pending
  pub released : (after.lease_owner ≡ none) × (after.lease_expires_at ≡ none)
  pub says : after.last_error_category ≡ some category
  pub next_try : after.available_at ≡ now + min 300_000 (2 ^ job.row.attempt_count * 1_000)
  pub other_jobs : (id : String) → id ≢ job.row.id → find_job id end.jobs ≡ find_job id db.jobs
  pub blocked :
      dead ≡ true
      → (i : IssueRow) → find_issue job.row.issue_id db.issues ≡ some i
      → (k : IssueRow) × (find_issue job.row.issue_id end.issues ≡ some k)
        × IsBlocked job.protocol.next.update_count i k
  pub not_blocked : dead ≡ false → end.issues ≡ db.issues
  pub first_attempt :
      any
        (same_attempt (attempt_row job.row "failure" none (some category) "pre_submit" now))
        db.attempts
      ≡ false
  pub attempts :
      end.attempts
      ≡ attempt_row job.row "failure" none (some category) "pre_submit" now ∷ db.attempts
  pub bindings : end.bindings ≡ db.bindings

owns_lease_sound :
    (row : JobRow) (o : Option JobRow)
    → owns_lease row o ≡ true
    → (locked : JobRow) × (o ≡ some locked)
      × ((locked.state ≡ leased) × (locked.lease_owner ≡ row.lease_owner))
owns_lease_sound row none h = cc
owns_lease_sound row (some locked) h = (
  locked,
  refl,
  (
    (==_iff locked.state leased).0 (left _ _ h),
    (==_iff locked.lease_owner row.lease_owner).0 (right _ _ h),
  ),
)
  where
    left : (a b : Bool) → (a && b) ≡ true → a ≡ true
    left a b e = ground arith

    right : (a b : Bool) → (a && b) ≡ true → b ≡ true
    right a b e = ground arith

is_dead_iff :
    (row : JobRow) (r : Bool) → (is_dead row r ≡ true) ↔ ((r ≡ false) ⊎ (8 ≤ row.attempt_count))
is_dead_iff row false = ((λ _. inl refl), λ _. refl)
is_dead_iff row true = (
  (λ h. inr (leb→le 8 row.attempt_count h)),
  λ c. elim c [ inl e ↦ absurd (apart e) | inr k ↦ le→leb 8 row.attempt_count k ],
)
  where
    apart : ¬ (true ≡ false)
    apart e = cc

find_job-update_job_ne :
    (id other : String) (f : JobRow → JobRow) (js : List JobRow)
    → ((j : JobRow) → (f j).id ≡ j.id)
    → other ≢ id
    → find_job other (update_job id f js) ≡ find_job other js
unfolding find_job update_job
find_job-update_job_ne id other f [] keeps n = refl
find_job-update_job_ne id other f (j ∷ js) keeps n =
    cases (j.id == id) (j.id == other) refl refl (find_job-update_job_ne id other f js keeps n)
  where
    cases :
        (a b : Bool)
        → (j.id == id) ≡ a
        → (j.id == other) ≡ b
        → find_job other (update_job id f js) ≡ find_job other js
        → find_job other (if a then f j ∷ update_job id f js else j ∷ update_job id f js)
          ≡ (if b then some j else find_job other js)
    cases true true x y ih = absurd (n (sym ((==_iff j.id other).0 y) ∙ (==_iff j.id id).0 x))
    cases true false x y ih = rw (keeps j, y) ih
    cases false true x y ih = rw (y)
    cases false false x y ih = rw (y) ih

block_from-IsBlocked :
    (sequence now : ℕ) (i : IssueRow) → IsBlocked sequence i (block_from sequence now i)
block_from-IsBlocked sequence now i = record {
  newly = λ e. rw (e);
  still = λ n e. rw (e);
  same_head = refl;
}

-- What the block and the answer add to the tables.
abbrev issues_after : Bool → WorkerJob → ℕ → List IssueRow → List IssueRow
issues_after true job now is =
    update_issue job.row.issue_id (block_from job.protocol.next.update_count now) is
issues_after false job now is = is

module _ (job : WorkerJob) (category : String) (now : ℕ) where
  failed_state :
      (dead : Bool) (j : JobRow)
      → (dead ≡ true → (failed_row job category dead now j).state ≡ dead_letter)
        × (dead ≡ false → (failed_row job category dead now j).state ≡ pending)
  failed_state true j = ((λ _. refl), λ e. absurd (cc))
  failed_state false j = ((λ e. absurd (cc)), λ _. refl)

  IsBlocked-after :
      (dead : Bool) (is : List IssueRow)
      → (dead ≡ true
          → (i : IssueRow) → find_issue job.row.issue_id is ≡ some i
          → (k : IssueRow) × (find_issue job.row.issue_id (issues_after dead job now is) ≡ some k)
            × IsBlocked job.protocol.next.update_count i k)
        × (dead ≡ false → issues_after dead job now is ≡ is)
  IsBlocked-after true is = (
    λ _ i f. (
      block_from job.protocol.next.update_count now i,
      find_issue-update_issue job.row.issue_id (block_from job.protocol.next.update_count now) is
          (λ j. refl) f,
      block_from-IsBlocked job.protocol.next.update_count now i,
    ),
    λ e. absurd (cc),
  )
  IsBlocked-after false is = ((λ e. absurd (cc)), λ _. refl)

module _ {P : Type 0} (job : WorkerJob) (category : String) (now : ℕ) where
  block_if-eq-ok :
      (b : Bool) (db end : Database P) {out : Bool}
      → (block_if b job now >>= λ _. pure b) db ≡ ok (out, end)
      → (b ≡ out) × (record db { issues = issues_after b job now db.issues } ≡ end)
  block_if-eq-ok true db end h = (ap (λ p. p.0) (ok-injective h), ap (λ p. p.1) (ok-injective h))
  block_if-eq-ok false db end h = (ap (λ p. p.0) (ok-injective h), ap (λ p. p.1) (ok-injective h))

  written : Bool → Database P → Database P
  written dead db = record db {
    jobs = update_job job.row.id (failed_row job category dead now) db.jobs;
    issues = issues_after dead job now db.issues;
    attempts = attempt_row job.row "failure" none (some category) "pre_submit" now ∷ db.attempts;
  }

  written-IsFailed :
      (retryable : Bool) (dead : Bool) (db : Database P) (locked : JobRow)
      → find_job job.row.id db.jobs ≡ some locked
      → (locked.state ≡ leased) × (locked.lease_owner ≡ job.row.lease_owner)
      → (dead ≡ true) ↔ ((retryable ≡ false) ⊎ (8 ≤ job.row.attempt_count))
      → any
          (same_attempt (attempt_row job.row "failure" none (some category) "pre_submit" now))
          db.attempts
        ≡ false
      → IsFailed job category retryable now dead db (written dead db)
  unfolding written
  written-IsFailed retryable dead db locked found leased_by verdict new =
      let f = failed_row job category dead now in
      let state = failed_state job category now dead locked in
      let issues = IsBlocked-after job category now dead db.issues in
      record {
        locked = locked;
        found = found;
        was_leased = leased_by;
        verdict = verdict;
        after = f locked;
        found_after = find_job-update_job job.row.id f db.jobs (λ j. refl) found;
        given_up = state.0;
        waits_again = state.1;
        released = (refl, refl);
        says = refl;
        next_try = refl;
        other_jobs = λ id n. find_job-update_job_ne job.row.id id f db.jobs (λ j. refl) n;
        blocked = issues.0;
        not_blocked = issues.1;
        first_attempt = new;
        attempts = refl;
        bindings = refl;
      }

  -- A failure is recorded only on a row that is still leased to the claim, and only once for an attempt.
  -- It answers that the job is given up exactly if it may not be retried or has had eight attempts. The
  -- row, its lease released and its error noted, is then a dead letter if the job is given up and waits
  -- again if not; it may be tried after two to the power of its attempts in seconds, at most five
  -- minutes. The job's issue is blocked from the job's sequence, or from where it was blocked already,
  -- if the job is given up, and no issue changes if not. No other job and no binding changes.
  pub record_failure-IsFailed :
      (retryable : Bool) (dead : Bool) (db end : Database P)
      → record_failure job category retryable now db ≡ ok (dead, end)
      → IsFailed job category retryable now dead db end
  unfolding record_failure written
  record_failure-IsFailed retryable dead db end h =
      let (held, r1) = require-eq-ok _ _ _ db h in
      let (_, db1, e1, r2) =
        bind-eq-ok
          (insert_attempt (attempt_row job.row "failure" none (some category) "pre_submit" now) db)
          _ r1 in
      let (new, at) =
        insert_attempt-eq-ok (attempt_row job.row "failure" none (some category) "pre_submit" now)
          db db1 e1 in
      let (answer, tables) = block_if-eq-ok (is_dead job.row retryable) _ end r2 in
      let (locked, found, leased_by) =
        owns_lease_sound job.row (find_job job.row.id db.jobs) held in
      let b = is_dead job.row retryable in
      let onward : Database P → Database P = λ d. record d {
        jobs = update_job job.row.id (failed_row job category b now) d.jobs;
        issues = issues_after b job now d.issues;
      } in
      let same : written b db ≡ end = ap onward at ∙ tables in
      subst (λ x. IsFailed job category retryable now x db end) answer
        (subst (IsFailed job category retryable now b db) same (
          written-IsFailed retryable b db locked found leased_by (is_dead_iff job.row retryable)
            new))
