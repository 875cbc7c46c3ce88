-- ===== src/Chain/Outbox/Finalize.antt =====
-- apps/web/lib/chain/outboxWorker.ts: `finalizeConfirmed`.
pub mod Stages
pub mod Effects
pub mod Completes
pub mod Growth
use nagarik_signals.Base.{
  ℕ, ◌&&◌, ◌||◌, true, false, Bool, Option, none, some, String, ◌==◌, nat_eq, string_eq, option_eq,
  not, if◌then◌else◌, Result, ok, err, error, projection_deferred,
}
use nagarik_signals.Chain.Job.Schema.{Snapshot}
use nagarik_signals.Chain.Signer.{ChainProfile, ObservedCommitmentEvent}
use nagarik_signals.Chain.Outbox.Store.{
  JobRow, IssueRow, BindingRow, AttemptRow, slot, Database, Transaction, ◌>>=◌, ◌>>◌, pure, throw,
  require, select_job, select_issue, select_binding, write_job, write_issue, insert_attempt,
  insert_binding, min_blocked,
}
use nagarik_signals.Chain.Outbox.Transactions.{
  WorkerJob, ProjectionInput, Projector, owns_lease, awaits, confirmed_row,
}

-- The issue stands at this snapshot.
abbrev pub stands_at : IssueRow → Snapshot → Bool
stands_at i s =
    i.confirmed_update_count == s.update_count
    && i.confirmed_timeline_head == s.timeline_head
    && i.confirmed_handoff_head == s.handoff_head

abbrev pub advance : Snapshot → ℕ → IssueRow → IssueRow
advance next now i = record i {
  confirmed_update_count = next.update_count;
  confirmed_timeline_head = next.timeline_head;
  confirmed_handoff_head = next.handoff_head;
  updated_at = now;
}

abbrev pub binding_row : JobRow → ChainProfile → ObservedCommitmentEvent → ℕ → BindingRow
binding_row row profile o now = record {
  issue_id = row.issue_id;
  issue_version_id = row.issue_version_id;
  cluster = profile.cluster;
  genesis_hash = profile.genesis_hash;
  program_id = profile.program_id;
  issue_account = o.issue_account;
  event_account = o.event_account;
  event_id = o.event_id;
  chain_sequence = o.sequence;
  signature = o.signature;
  finalized_slot = o.finalized_slot;
  account_sha256 = o.account_sha256;
  confirmed_at = now;
}

unfoldable pub same_binding : BindingRow → ChainProfile → ObservedCommitmentEvent → Bool
same_binding b profile o =
    b.cluster == profile.cluster
    && b.genesis_hash == profile.genesis_hash
    && b.program_id == profile.program_id
    && b.issue_account == o.issue_account
    && b.event_account == o.event_account
    && b.event_id == o.event_id
    && b.chain_sequence == o.sequence
    && b.signature == o.signature
    && b.finalized_slot == o.finalized_slot
    && b.account_sha256 == o.account_sha256

abbrev pub binding_matches : Option BindingRow → ChainProfile → ObservedCommitmentEvent → Bool
binding_matches none profile o = false
binding_matches (some b) profile o = same_binding b profile o

abbrev pub confirmed_attempt : JobRow → ObservedCommitmentEvent → Bool → ℕ → AttemptRow
confirmed_attempt row o reconciled now = record {
  outbox_job_id = row.id;
  attempt_number = row.attempt_count;
  result = if reconciled then "reconciled_confirmed" else "confirmed";
  signature = some o.signature;
  error_category = none;
  diagnostic = slot o.finalized_slot;
  finished_at = now;
}

module _ {P : Type 0} where
  -- The heads of the issue move from the expected snapshot to the next one, or stand there already.
  unfoldable pub advance_heads : WorkerJob → ℕ → Option IssueRow → Transaction P (Unit {0})
  advance_heads job now none = throw (error "chain_issue_missing")
  advance_heads job now (some issue) = do
    require (stands_at issue job.protocol.expected || stands_at issue job.protocol.next)
        (error "chain_confirmation_db_head_conflict")
    if stands_at issue job.protocol.expected
        then write_issue job.row.issue_id (advance job.protocol.next now)
        else pure tt

  abbrev pub run_projection : Projector P → ProjectionInput → Transaction P Bool
  run_projection project input db = elim (project input db.projection) [
    | ok (projected, p) ↦ ok (projected, record db { projection = p })
    | err e ↦ err e
  ]

  -- `blocked_from_sequence` is computed anew from the jobs of the issue.
  abbrev unblock : String → ℕ → Transaction P (Unit {0})
  unblock issue_id now db =
      write_issue issue_id
        (λ i. record i { blocked_from_sequence = min_blocked issue_id db.jobs; updated_at = now })
        db

  -- The binding is inserted unless the event has one, which must then say the same.
  unfoldable pub bind_event :
      ChainProfile → JobRow → ObservedCommitmentEvent → ℕ → Transaction P (Unit {0})
  bind_event profile row observation now = do
    insert_binding (binding_row row profile observation now)
    binding ← select_binding observation.event_id
    require (binding_matches binding profile observation)
        (error "chain_confirmation_binding_conflict")

  unfoldable pub project_event :
      ChainProfile
      → Projector P
      → WorkerJob
      → ObservedCommitmentEvent
      → ℕ
      → Transaction P (Unit {0})
  project_event profile project job observation now = do
    projected ← run_projection project (record {
      issue_id = job.row.issue_id;
      issue_version_id = job.row.issue_version_id;
      job = job.protocol;
      observation = observation;
      profile = profile;
      now = now;
    })
    require projected projection_deferred

  unfoldable pub close_job :
      JobRow → ObservedCommitmentEvent → (reconciled : Bool) → ℕ → Transaction P (Unit {0})
  close_job row observation reconciled now = do
    insert_attempt (confirmed_attempt row observation reconciled now)
    write_job row.id (confirmed_row observation.signature now)
    unblock row.issue_id now

  unfoldable pub finalize_confirmed :
      ChainProfile
      → Projector P
      → WorkerJob
      → ObservedCommitmentEvent
      → (reconciled : Bool) → ℕ
      → Transaction P (Unit {0})
  finalize_confirmed profile project job observation reconciled now = do
    locked ← select_job job.row.id
    require (owns_lease job.row locked || awaits observation.signature locked)
        (error "chain_outbox_confirmation_state_lost")
    issue ← select_issue job.row.issue_id
    advance_heads job now issue
    bind_event profile job.row observation now
    project_event profile project job observation now
    close_job job.row observation reconciled now
