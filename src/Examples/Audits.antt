-- ===== src/Examples/Audits.antt =====
-- Runs of apps/web/lib/chain/reconciler.ts.
use nagarik_signals.Base.{refl, some, ℕ, ◌≡◌, ◌≤◌, true, none, [], ◌∷◌, ok, length}
use nagarik_signals.Chain.Outbox.Store.{JobRow, IssueRow, Database, find_job, JobState, find_issue}
use nagarik_signals.Chain.Reconciler.{
  ReconciliationResult, recoverable, reconcile_chain_outbox, examine, examine_prepared,
  examine_observed, examine_matching, examine_rows, joined, create_result, append, tallied,
  reconciliation_limit,
}
use nagarik_signals.Chain.Reconciler.Audit.{
  tally, reconcile_chain_outbox-tally, reconcile_chain_outbox-dry,
}
use nagarik_signals.Chain.Outbox.Matching.{prepare_chain_outbox_record, row_matches}
use nagarik_signals.Chain.Outbox.Exact.{ExactOutcome, reconcile_exact_chain_outbox_job}
use nagarik_signals.Chain.Outbox.Exact.Regress.{
  IsRegressed, undisturbed, reconcile_exact_chain_outbox_job-IsRegressed,
}
use nagarik_signals.Examples.World.{
  hashing, digest, signature, issue, event, protocol, worker, alone, waiting, tables,
}
use nagarik_signals.Examples.Jobs.{envelope-IsPrepared, waiting-IsPrepared, event-matches}

-- The event is on chain, and the job is not confirmed yet.
abbrev audit : ReconciliationResult
audit = record {
  dry_run = true;
  inspected = 1;
  consistent = 0;
  recoverable = 1;
  repaired = 0;
  missing = 0;
  conflict = 0;
  invalid = 0;
  rpc_errors = 0;
  busy = 0;
  findings =
      record {
        outbox_id = "job";
        database_state = JobState.pending;
        status = recoverable;
        detail = "exact_event_can_be_reconciled";
      }
      ∷ [];
}

audited :
    reconcile_chain_outbox worker true (λ _. alone) none (tables waiting)
    ≡ (ok audit, tables waiting)
unfolding reconcile_chain_outbox examine examine_prepared examine_observed examine_matching
    examine_rows joined create_result append tallied find_issue
audited = rw (waiting-IsPrepared, event-matches)

reconcile_chain_outbox-tally_example :
    (tally audit ≡ 1) × (length audit.findings ≡ 1) × (1 ≤ reconciliation_limit none) × (1 ≤ 100)
reconcile_chain_outbox-tally_example =
    reconcile_chain_outbox-tally worker true (λ _. alone) none (tables waiting) (tables waiting)
      audit audited

reconcile_chain_outbox-dry_example :
    (reconcile_chain_outbox worker true (λ _. alone) none (tables waiting)).1 ≡ tables waiting
reconcile_chain_outbox-dry_example =
    reconcile_chain_outbox-dry worker (λ _. alone) none (tables waiting)

-- A confirmed job whose issue has confirmed a second update.
abbrev confirmed_job : JobRow
confirmed_job = record waiting {
  state = JobState.confirmed;
  attempt_count = 1;
  submitted_signature = some signature;
}

abbrev later_issue : IssueRow
later_issue = record issue { confirmed_update_count = 2; confirmed_timeline_head = digest }

abbrev later_tables : Database ℕ
later_tables = record (tables confirmed_job) { issues = later_issue ∷ [] }

confirmed-IsPrepared : prepare_chain_outbox_record hashing confirmed_job ≡ ok protocol
unfolding prepare_chain_outbox_record row_matches
confirmed-IsPrepared = rw envelope-IsPrepared

job_is_found : find_job "job" later_tables.jobs ≡ some confirmed_job
unfolding find_job
job_is_found = refl

issue_is_found : find_issue "issue" later_tables.issues ≡ some later_issue
unfolding find_issue
issue_is_found = refl

reconcile_exact_chain_outbox_job-IsRegressed_example :
    ((reconcile_exact_chain_outbox_job worker
        (undisturbed worker (λ _. 1_000))
        "job"
        event
        later_tables).0
      ≡ ok ExactOutcome.dead_letter)
    × IsRegressed confirmed_job 1
        (reconcile_exact_chain_outbox_job worker
          (undisturbed worker (λ _. 1_000))
          "job"
          event
          later_tables).1
reconcile_exact_chain_outbox_job-IsRegressed_example =
    reconcile_exact_chain_outbox_job-IsRegressed worker (λ _. 1_000) confirmed_job later_issue
      protocol event later_tables job_is_found refl confirmed-IsPrepared event-matches
      issue_is_found refl refl refl
