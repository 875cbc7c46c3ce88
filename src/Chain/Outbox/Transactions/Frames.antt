-- ===== src/Chain/Outbox/Transactions/Frames.antt =====
-- What each transaction that records the fate of a job has checked and written.
use nagarik_signals.Base.{
  ◌≡◌, sym, ap, ◌∙◌, subst, ℕ, Bool, true, false, ◌||◌, some, String, List, ok, ok-injective,
}
use nagarik_signals.Chain.Outbox.Store.{
  JobRow, IssueRow, Database, find_job, update_job, update_issue, block_from, insert_attempt, pure,
  ◌>>=◌,
}
use nagarik_signals.Chain.Outbox.Store.Inversion.{bind-eq-ok, require-eq-ok, insert_attempt-eq-ok}
use nagarik_signals.Chain.Outbox.Transactions.{
  WorkerJob, attempt_row, block_if, owns_lease, awaits, is_dead, dead_row, failed_row,
  submitted_row, unknown_row, conflict_row, deferred_row, record_invalid_claim, record_failure,
  mark_submitted, record_submitted_unknown, record_post_submit_conflict, record_projection_deferred,
}

-- No issue has changed, or one is blocked from a sequence on.
pub data Blocks (start end : List IssueRow) : Type 0 where
  untouched : end ≡ start → Blocks start end
  blocks :
      (issue_id : String) (sequence now : ℕ)
      → end ≡ update_issue issue_id (block_from sequence now) start
      → Blocks start end

-- The job's row was found as required, and is changed; no binding is.
pub record IsRecorded {P : Type 0} (held : Bool) (id : String) (f : JobRow → JobRow)
    (start end : Database P) : Type 0 where
  pub holds : held ≡ true
  pub jobs : end.jobs ≡ update_job id f start.jobs
  pub issues : Blocks start.issues end.issues
  pub bindings : end.bindings ≡ start.bindings

module _ {P : Type 0} where
  pub mark_submitted-IsRecorded :
      (job : WorkerJob) (g : String) (now : ℕ) (db end : Database P)
      → mark_submitted job g now db ≡ ok (tt, end)
      → IsRecorded
          (owns_lease job.row (find_job job.row.id db.jobs))
          job.row.id
          (submitted_row g now)
          db
          end
  unfolding mark_submitted
  mark_submitted-IsRecorded job g now db end h =
      let (held, rest) = require-eq-ok _ _ _ db h in
      let e = sym (ok-injective rest) in
      record {
        holds = held;
        jobs = ap (λ p. p.1.jobs) e;
        issues = untouched (ap (λ p. p.1.issues) e);
        bindings = ap (λ p. p.1.bindings) e;
      }

  pub record_invalid_claim-IsRecorded :
      (row : JobRow) (now : ℕ) (db end : Database P)
      → record_invalid_claim row now db ≡ ok (tt, end)
      → IsRecorded
          (owns_lease row (find_job row.id db.jobs))
          row.id
          (dead_row "chain_outbox_record_invalid" now)
          db
          end
  unfolding record_invalid_claim
  record_invalid_claim-IsRecorded row now db end h =
      let (held, r1) = require-eq-ok _ _ _ db h in
      let (_, db1, e1, r2) = bind-eq-ok (insert_attempt _ db) _ r1 in
      let at = sym (insert_attempt-eq-ok _ db db1 e1).1 in
      let e = sym (ok-injective r2) in
      record {
        holds = held;
        jobs =
            ap (λ p. p.1.jobs) e
            ∙ ap (λ d. update_job row.id (dead_row "chain_outbox_record_invalid" now) d.jobs) at;
        issues = blocks row.issue_id row.chain_sequence now (
            ap (λ p. p.1.issues) e
            ∙ ap (λ d. update_issue row.issue_id (block_from row.chain_sequence now) d.issues) at);
        bindings = ap (λ p. p.1.bindings) e ∙ ap (λ d. d.bindings) at;
      }

  pub record_submitted_unknown-IsRecorded :
      (job : WorkerJob) (g : String) (now : ℕ) (db end : Database P)
      → record_submitted_unknown job g now db ≡ ok (tt, end)
      → IsRecorded (awaits g (find_job job.row.id db.jobs)) job.row.id (unknown_row job now) db end
  unfolding record_submitted_unknown
  record_submitted_unknown-IsRecorded job g now db end h =
      let (held, r1) = require-eq-ok _ _ _ db h in
      let e =
        sym
          (insert_attempt-eq-ok
            (attempt_row job.row "submitted_unknown" (some g) (some "confirmation_timeout")
              "confirmation" now)
            (record db { jobs = update_job job.row.id (unknown_row job now) db.jobs }) end r1).1 in
      record {
        holds = held;
        jobs = ap (λ d. d.jobs) e;
        issues = untouched (ap (λ d. d.issues) e);
        bindings = ap (λ d. d.bindings) e;
      }

  pub record_post_submit_conflict-IsRecorded :
      (job : WorkerJob) (g c : String) (now : ℕ) (db end : Database P)
      → record_post_submit_conflict job g c now db ≡ ok (tt, end)
      → IsRecorded (awaits g (find_job job.row.id db.jobs)) job.row.id (conflict_row c now) db end
  unfolding record_post_submit_conflict
  record_post_submit_conflict-IsRecorded job g c now db end h =
      let (held, r1) = require-eq-ok _ _ _ db h in
      let (_, db1, e1, r2) = bind-eq-ok (insert_attempt _ db) _ r1 in
      let at = sym (insert_attempt-eq-ok _ db db1 e1).1 in
      let e = sym (ok-injective r2) in
      let n = job.protocol.next.update_count in
      record {
        holds = held;
        jobs =
            ap (λ p. p.1.jobs) e ∙ ap (λ d. update_job job.row.id (conflict_row c now) d.jobs) at;
        issues = blocks job.row.issue_id n now (
            ap (λ p. p.1.issues) e
            ∙ ap (λ d. update_issue job.row.issue_id (block_from n now) d.issues) at);
        bindings = ap (λ p. p.1.bindings) e ∙ ap (λ d. d.bindings) at;
      }

  pub record_projection_deferred-IsRecorded :
      (job : WorkerJob) (g : String) (now : ℕ) (db end : Database P)
      → record_projection_deferred job g now db ≡ ok (tt, end)
      → IsRecorded
          (owns_lease job.row (find_job job.row.id db.jobs)
            || awaits g (find_job job.row.id db.jobs))
          job.row.id
          (deferred_row g now)
          db
          end
  unfolding record_projection_deferred
  record_projection_deferred-IsRecorded job g now db end h =
      let (held, r1) = require-eq-ok _ _ _ db h in
      let (_, db1, e1, r2) = bind-eq-ok (insert_attempt _ db) _ r1 in
      let at = sym (insert_attempt-eq-ok _ db db1 e1).1 in
      let e = sym (ok-injective r2) in
      record {
        holds = held;
        jobs =
            ap (λ p. p.1.jobs) e ∙ ap (λ d. update_job job.row.id (deferred_row g now) d.jobs) at;
        issues = untouched (ap (λ p. p.1.issues) e ∙ ap (λ d. d.issues) at);
        bindings = ap (λ p. p.1.bindings) e ∙ ap (λ d. d.bindings) at;
      }

  block_if-Blocks :
      (b : Bool) (job : WorkerJob) (now : ℕ) (dead : Bool) (db : Database P) {out : Bool}
      {end : Database P}
      → (block_if b job now >>= λ _. pure dead) db ≡ ok (out, end)
      → (out ≡ dead)
        × (end.jobs ≡ db.jobs)
        × Blocks db.issues end.issues
        × (end.bindings ≡ db.bindings)
  block_if-Blocks true job now dead db h =
      let e = sym (ok-injective h) in
      (
        ap (λ p. p.0) e,
        ap (λ p. p.1.jobs) e,
        blocks job.row.issue_id job.protocol.next.update_count now (ap (λ p. p.1.issues) e),
        ap (λ p. p.1.bindings) e,
      )
  block_if-Blocks false job now dead db h =
      let e = sym (ok-injective h) in
      (
        ap (λ p. p.0) e,
        ap (λ p. p.1.jobs) e,
        untouched (ap (λ p. p.1.issues) e),
        ap (λ p. p.1.bindings) e,
      )

  pub record_failure-IsRecorded :
      (job : WorkerJob) (c : String) (r : Bool) (now : ℕ) (dead : Bool) (db end : Database P)
      → record_failure job c r now db ≡ ok (dead, end)
      → (dead ≡ is_dead job.row r)
        × IsRecorded
            (owns_lease job.row (find_job job.row.id db.jobs))
            job.row.id
            (failed_row job c dead now)
            db
            end
  unfolding record_failure
  record_failure-IsRecorded job c r now dead db end h =
      let (held, r1) = require-eq-ok _ _ _ db h in
      let (_, db1, e1, r2) = bind-eq-ok (insert_attempt _ db) _ r1 in
      let at = sym (insert_attempt-eq-ok _ db db1 e1).1 in
      let (out, jobs, issues, bindings) =
        block_if-Blocks (is_dead job.row r) job now (is_dead job.row r) _ r2 in
      (
        out,
        record {
          holds = held;
          jobs =
              jobs
              ∙ ap (λ d. update_job job.row.id (failed_row job c (is_dead job.row r) now) d.jobs) at
              ∙ ap (λ b. update_job job.row.id (failed_row job c b now) db.jobs) (sym out);
          issues = subst (λ is. Blocks is end.issues) (ap (λ d. d.issues) at) issues;
          bindings = bindings ∙ ap (λ d. d.bindings) at;
        },
      )
