-- ===== src/Chain/Outbox/Transactions.antt =====
-- apps/web/lib/chain/outboxWorker.ts: the transactions that record what became of a claimed job.
-- Each reads its clock once and is passed the time.
pub mod Failed
pub mod Frames
use nagarik_signals.Base.{
  ℕ, ◌+◌, ◌*◌, ◌^◌, ◌&&◌, ◌||◌, true, false, Bool, Option, none, some, String, ◌==◌, nat_eq,
  string_eq, option_eq, leb, not, min, if◌then◌else◌, Result, ok, err, error, projection_deferred,
}
use nagarik_signals.Chain.Job.Codec.{PreparedChainJob}
use nagarik_signals.Chain.Signer.{ChainProfile, ObservedCommitmentEvent}
use nagarik_signals.Chain.Outbox.Store.{
  JobState, pending, leased, submitted_unknown, confirming, confirmed, dead_letter, state_eq,
  JobRow, IssueRow, BindingRow, AttemptRow, phase, slot, Database, Transaction, ◌>>=◌, ◌>>◌, pure,
  throw, require, select_job, select_issue, select_binding, write_job, write_issue, insert_attempt,
  insert_binding, block_from, coalesce, min_blocked,
}

pub record WorkerJob : Type 0 where
  pub row : JobRow
  pub protocol : PreparedChainJob

pub record ProjectionInput : Type 0 where
  pub issue_id : String
  pub issue_version_id : Option String
  pub job : PreparedChainJob
  pub observation : ObservedCommitmentEvent
  pub profile : ChainProfile
  pub now : ℕ

-- `dependencies.projectConfirmed`: what it does to the public projection, and its answer.
abbrev pub Projector : Type 0 → Type 0
Projector P = ProjectionInput → P → Result (Bool × P)

-- The row, locked, is still leased to the claim.
abbrev pub owns_lease : JobRow → Option JobRow → Bool
owns_lease row none = false
owns_lease row (some locked) = locked.state == leased && locked.lease_owner == row.lease_owner

-- The row, locked, waits for the confirmation of this signature.
abbrev pub awaits : String → Option JobRow → Bool
awaits signature none = false
awaits signature (some locked) =
    locked.state == confirming && locked.submitted_signature == some signature

abbrev pub max_attempts : ℕ
max_attempts = 8

-- `Math.min(300_000, 2 ** attempt_count * 1_000)`
abbrev pub backoff : ℕ → ℕ
backoff attempt_count = min 300_000 (2 ^ attempt_count * 1_000)

abbrev pub is_dead : JobRow → Bool → Bool
is_dead row retryable = not retryable || leb max_attempts row.attempt_count

abbrev pub attempt_row : JobRow → String → Option String → Option String → String → ℕ → AttemptRow
attempt_row row result signature category name now = record {
  outbox_job_id = row.id;
  attempt_number = row.attempt_count;
  result = result;
  signature = signature;
  error_category = category;
  diagnostic = phase name;
  finished_at = now;
}

-- The updates of the job's row.
abbrev pub dead_row : String → ℕ → JobRow → JobRow
dead_row category now j = record j {
  state = dead_letter;
  lease_owner = none;
  lease_expires_at = none;
  last_error_category = some category;
  updated_at = now;
}

abbrev pub failed_row : WorkerJob → String → Bool → ℕ → JobRow → JobRow
failed_row job category dead now j = record j {
  state = if dead then dead_letter else pending;
  available_at = now + backoff job.row.attempt_count;
  lease_owner = none;
  lease_expires_at = none;
  last_error_category = some category;
  updated_at = now;
}

abbrev pub submitted_row : String → ℕ → JobRow → JobRow
submitted_row signature now j = record j {
  state = confirming;
  submitted_signature = some signature;
  available_at = now + 60_000;
  lease_owner = none;
  lease_expires_at = none;
  last_error_category = none;
  updated_at = now;
}

abbrev pub unknown_row : WorkerJob → ℕ → JobRow → JobRow
unknown_row job now j = record j {
  state = submitted_unknown;
  available_at = now + backoff job.row.attempt_count;
  last_error_category = some "confirmation_timeout";
  updated_at = now;
}

abbrev pub conflict_row : String → ℕ → JobRow → JobRow
conflict_row category now j = record j {
  state = dead_letter;
  last_error_category = some category;
  updated_at = now;
}

abbrev pub deferred_row : String → ℕ → JobRow → JobRow
deferred_row signature now j = record j {
  state = submitted_unknown;
  submitted_signature = some (coalesce j.submitted_signature signature);
  available_at = now + 60_000;
  lease_owner = none;
  lease_expires_at = none;
  last_error_category = some "publication_disabled";
  updated_at = now;
}

abbrev pub confirmed_row : String → ℕ → JobRow → JobRow
confirmed_row signature now j = record j {
  state = confirmed;
  submitted_signature = some (coalesce j.submitted_signature signature);
  lease_owner = none;
  lease_expires_at = none;
  last_error_category = none;
  updated_at = now;
}

module _ {P : Type 0} where
  unfoldable pub record_invalid_claim : JobRow → ℕ → Transaction P (Unit {0})
  record_invalid_claim row now = do
    locked ← select_job row.id
    require (owns_lease row locked) (error "chain_outbox_lease_lost")
    insert_attempt
        (attempt_row row "failure" none (some "chain_outbox_record_invalid") "claim_validation" now)
    write_job row.id (dead_row "chain_outbox_record_invalid" now)
    write_issue row.issue_id (block_from row.chain_sequence now)

  abbrev pub block_if : Bool → WorkerJob → ℕ → Transaction P (Unit {0})
  block_if true job now =
      write_issue job.row.issue_id (block_from job.protocol.next.update_count now)
  block_if false job now = pure tt

  unfoldable pub record_failure :
      WorkerJob → (category : String) → (retryable : Bool) → ℕ → Transaction P Bool
  record_failure job category retryable now = do
    locked ← select_job job.row.id
    require (owns_lease job.row locked) (error "chain_outbox_lease_lost")
    insert_attempt (attempt_row job.row "failure" none (some category) "pre_submit" now)
    write_job job.row.id (failed_row job category (is_dead job.row retryable) now)
    block_if (is_dead job.row retryable) job now
    pure (is_dead job.row retryable)

  unfoldable pub mark_submitted : WorkerJob → String → ℕ → Transaction P (Unit {0})
  mark_submitted job signature now = do
    locked ← select_job job.row.id
    require (owns_lease job.row locked) (error "chain_outbox_lease_lost")
    write_job job.row.id (submitted_row signature now)

  unfoldable pub record_submitted_unknown : WorkerJob → String → ℕ → Transaction P (Unit {0})
  record_submitted_unknown job signature now = do
    locked ← select_job job.row.id
    require (awaits signature locked) (error "chain_outbox_confirmation_state_lost")
    write_job job.row.id (unknown_row job now)
    insert_attempt (
        attempt_row job.row "submitted_unknown" (some signature) (some "confirmation_timeout")
          "confirmation" now)

  unfoldable pub record_post_submit_conflict :
      WorkerJob → (signature category : String) → ℕ → Transaction P (Unit {0})
  record_post_submit_conflict job signature category now = do
    locked ← select_job job.row.id
    require (awaits signature locked) (error "chain_outbox_confirmation_state_lost")
    insert_attempt
        (attempt_row job.row "failure" (some signature) (some category) "post_submit" now)
    write_job job.row.id (conflict_row category now)
    write_issue job.row.issue_id (block_from job.protocol.next.update_count now)

  unfoldable pub record_projection_deferred : WorkerJob → String → ℕ → Transaction P (Unit {0})
  record_projection_deferred job signature now = do
    locked ← select_job job.row.id
    require (owns_lease job.row locked || awaits signature locked)
        (error "chain_outbox_confirmation_state_lost")
    insert_attempt (
        attempt_row job.row "submitted_unknown" (some signature) (some "publication_disabled")
          "public_projection" now)
    write_job job.row.id (deferred_row signature now)
