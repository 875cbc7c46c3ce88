-- ===== src/Chain/Outbox/Exact/Regress.antt =====
-- The repair of a confirmed job whose issue has confirmed a later one.
use nagarik_signals.Base.{
  ◌≡◌, refl, ap, ◌∙◌, ℕ, true, false, some, String, ◌==◌, ==_refl, string_eq, nat_eq, option_eq,
  ◌&&◌, ◌+◌, Result, none, ◌∷◌, ok, err, error, any, if◌then◌else◌,
}
use nagarik_signals.Chain.Protocol.{Hashing}
use nagarik_signals.Chain.Job.Codec.{PreparedChainJob}
use nagarik_signals.Chain.Signer.{ChainProfile, ObservedCommitmentEvent}
use nagarik_signals.Chain.Outbox.Store.{
  JobState, JobRow, IssueRow, Database, find_job, find_issue, update_job, update_issue,
  same_attempt, coalesce, block_from, insert_attempt,
}
use nagarik_signals.Chain.Outbox.Store.Inversion.{
  bind-ok, find_job-update_job, find_issue-update_issue,
}
use nagarik_signals.Chain.Outbox.Transactions.{
  WorkerJob, Projector, attempt_row, owns_lease, failed_row, record_failure,
}
use nagarik_signals.Chain.Outbox.Finalize.{stands_at, advance_heads, finalize_confirmed}
use nagarik_signals.Chain.Outbox.Matching.{
  row_matches, prepare_chain_outbox_record, chain_observation_matches,
}
use nagarik_signals.Chain.Outbox.Claim.{leased_row, reclaimable, claim_exact_job}
use nagarik_signals.Chain.Outbox.Actions.{
  ChainWorker, Schedule, Moment, claiming, finalizing, recording,
}
use nagarik_signals.Chain.Outbox.Exact.{
  ExactOutcome, reconcile_owner, reject, settle_exact, reconcile_claimed, reconcile_found,
  reconcile_exact_chain_outbox_job,
}

-- The tables after the claim.
abbrev claimed_tables : {P : Type 0} → String → ℕ → JobRow → Database P → Database P
claimed_tables owner now j db = record db {
  jobs = update_job j.id (leased_row owner 60 now) db.jobs;
}

claim-confirmed :
    {P : Type 0} (owner : String) (now : ℕ) (j : JobRow) (db : Database P)
    → find_job j.id db.jobs ≡ some j
    → j.state ≡ JobState.confirmed
    → claim_exact_job owner j.id now db
      ≡ ok (some (leased_row owner 60 now j), claimed_tables owner now j db)
unfolding claim_exact_job
claim-confirmed owner now j db found state =
    let r : reclaimable now j ≡ true = rw state in rw found (rw r)

-- A lease changes nothing of a job that its preparation reads.
prepared-leased :
    (h : Hashing) (owner : String) (now : ℕ) (j : JobRow)
    → prepare_chain_outbox_record h (leased_row owner 60 now j) ≡ prepare_chain_outbox_record h j
unfolding prepare_chain_outbox_record row_matches
prepared-leased h owner now j = refl

-- The lease of the claim is held.
holds-lease :
    {P : Type 0} (owner : String) (now : ℕ) (j : JobRow) (db : Database P)
    → find_job j.id db.jobs ≡ some j
    → owns_lease (leased_row owner 60 now j) (find_job j.id (claimed_tables owner now j db).jobs)
      ≡ true
holds-lease owner now j db found =
    rw (find_job-update_job j.id (leased_row owner 60 now) db.jobs (λ j. refl) found)
      (==_refl (some owner))

finalize-refused :
    {P : Type 0} (profile : ChainProfile) (project : Projector P) (job : WorkerJob)
    (o : ObservedCommitmentEvent) (now : ℕ) (i : IssueRow) (db : Database P)
    → owns_lease job.row (find_job job.row.id db.jobs) ≡ true
    → find_issue job.row.issue_id db.issues ≡ some i
    → stands_at i job.protocol.expected ≡ false
    → stands_at i job.protocol.next ≡ false
    → finalize_confirmed profile project job o true now db
      ≡ err (error "chain_confirmation_db_head_conflict")
unfolding finalize_confirmed advance_heads
finalize-refused profile project job o now i db held found a b = rw (held, found, a, b)

-- The tables after a failure that is final.
abbrev failed_tables : {P : Type 0} → WorkerJob → String → ℕ → Database P → Database P
failed_tables job category now db = record db {
  jobs = update_job job.row.id (failed_row job category true now) db.jobs;
  issues = update_issue job.row.issue_id (block_from job.protocol.next.update_count now) db.issues;
  attempts = attempt_row job.row "failure" none (some category) "pre_submit" now ∷ db.attempts;
}

failure-is-final :
    {P : Type 0} (job : WorkerJob) (category : String) (now : ℕ) (db : Database P)
    → owns_lease job.row (find_job job.row.id db.jobs) ≡ true
    → any
        (same_attempt (attempt_row job.row "failure" none (some category) "pre_submit" now))
        db.attempts
      ≡ false
    → record_failure job category false now db ≡ ok (true, failed_tables job category now db)
unfolding record_failure
failure-is-final {P} job category now db held fresh =
    let entry = attempt_row job.row "failure" none (some category) "pre_submit" now in
    let db1 : Database P = record db { attempts = entry ∷ db.attempts } in
    rw held (
      bind-ok (insert_attempt entry db) _ tt db1
        (ap
          (λ t.
            if◌then◌else◌ {A = Result (Unit {0} × Database P)} t (err (error "unique_violation"))
              (ok (tt, db1)))
          fresh)
        refl)

-- The job is a dead letter, and its issue is blocked from a sequence on.
pub record IsRegressed {P : Type 0} (j : JobRow) (blocked : ℕ) (end : Database P) : Type 0 where
  pub job : JobRow
  pub found : find_job j.id end.jobs ≡ some job
  pub dead : job.state ≡ JobState.dead_letter
  pub issue : IssueRow
  pub located : find_issue j.issue_id end.issues ≡ some issue
  pub is_blocked : issue.blocked_from_sequence ≡ some blocked

module _ {P : Type 0} (w : ChainWorker P) (now : Moment → ℕ) where
  open w use {hashing, addresses, signer, project_confirmed, worker_id}

  abbrev pub undisturbed : Schedule P
  undisturbed = record { now = now; others = λ _ db. db }

  -- A repair that no other session disturbs, of a confirmed job whose event is on chain and whose
  -- issue stands neither at the job's expected nor at its next snapshot, as after a later
  -- confirmation, reports a dead letter, leaves the job dead, and blocks the issue from the job's
  -- sequence, or keeps the block that it has.
  pub reconcile_exact_chain_outbox_job-IsRegressed :
      (j : JobRow) (i : IssueRow) (p : PreparedChainJob) (o : ObservedCommitmentEvent)
      (db : Database P)
      → find_job j.id db.jobs ≡ some j
      → j.state ≡ JobState.confirmed
      → prepare_chain_outbox_record hashing j ≡ ok p
      → chain_observation_matches addresses p o ≡ ok true
      → find_issue j.issue_id db.issues ≡ some i
      → stands_at i p.expected ≡ false
      → stands_at i p.next ≡ false
      → any (λ a. j.id == a.outbox_job_id && j.attempt_count + 1 == a.attempt_number) db.attempts
        ≡ false
      → ((reconcile_exact_chain_outbox_job w undisturbed j.id o db).0 ≡ ok ExactOutcome.dead_letter)
        × IsRegressed j
            (coalesce i.blocked_from_sequence p.next.update_count)
            (reconcile_exact_chain_outbox_job w undisturbed j.id o db).1
  unfolding reconcile_exact_chain_outbox_job reconcile_found reconcile_claimed settle_exact reject
  reconcile_exact_chain_outbox_job-IsRegressed j i p o db found state prepared same issue a b
        fresh =
      let owner = reconcile_owner worker_id in
      let db1 = claimed_tables owner (now claiming) j db in
      let row = leased_row owner 60 (now claiming) j in
      let job : WorkerJob = record { row = row; protocol = p } in
      let category : String = "chain_confirmation_db_conflict" in
      let held = holds-lease owner (now claiming) j db found in
      let claim = claim-confirmed owner (now claiming) j db found state in
      let refused =
        finalize-refused signer.profile project_confirmed job o (now finalizing) i db1 held issue a
          b in
      let prepared' = prepared-leased hashing owner (now claiming) j ∙ prepared in
      let final = failure-is-final job category (now recording) db1 held fresh in
      (
        rw (claim, prepared', same, refused, final),
        rw (claim, prepared', same, refused, final)
            (record {
              job = failed_row job category true (now recording) row;
              found =
                  find_job-update_job j.id (failed_row job category true (now recording)) db1.jobs
                    (λ j. refl)
                    (find_job-update_job j.id (leased_row owner 60 (now claiming)) db.jobs
                      (λ j. refl) found);
              dead = refl;
              issue = block_from p.next.update_count (now recording) i;
              located =
                  find_issue-update_issue j.issue_id
                    (block_from p.next.update_count (now recording)) db.issues (λ j. refl) issue;
              is_blocked = refl;
            }),
      )
