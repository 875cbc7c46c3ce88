-- ===== src/Chain/Reconciler.antt =====
-- apps/web/lib/chain/reconciler.ts: the audit of the jobs against the chain, and their repair.
pub mod Audit
use nagarik_signals.Base.{
  ℕ, ◌+◌, ◌&&◌, true, false, Bool, Option, none, some, String, List, [], ◌∷◌, ◌++◌, take, length,
  ◌==◌, min, max, if◌then◌else◌, Result, ok, err,
}
use nagarik_signals.Chain.Protocol.{Hashing}
use nagarik_signals.Chain.Job.Codec.{PreparedChainJob}
use nagarik_signals.Chain.Signer.{ChainSigner, ChainProfile, ObservedCommitmentEvent}
use nagarik_signals.Chain.Outbox.Store.{
  JobRow, JobState, state_eq, IssueRow, BindingRow, Database, find_issue, find_binding,
}
use nagarik_signals.Chain.Outbox.Finalize.{stands_at, binding_matches}
use nagarik_signals.Chain.Outbox.Matching.{prepare_chain_outbox_record, chain_observation_matches}
use nagarik_signals.Chain.Outbox.Actions.{ChainWorker, Schedule, Action, ◌>>=◌, pure, lift}
use nagarik_signals.Chain.Outbox.Exact.{ExactOutcome, reconcile_exact_chain_outbox_job}

-- A job with its issue and with the binding of its event, if it has one.
pub record ReconciliationRow : Type 0 where
  pub job : JobRow
  pub issue : IssueRow
  pub binding : Option BindingRow

pub data Status : Type 0 where
  consistent recoverable repaired missing conflict invalid rpc_error busy : Status

-- `ChainReconciliationFinding`
pub record Finding : Type 0 where
  pub outbox_id : String
  pub database_state : JobState
  pub status : Status
  pub detail : String

-- `ChainReconciliationResult`
pub record ReconciliationResult : Type 0 where
  pub dry_run : Bool
  pub inspected : ℕ
  pub consistent : ℕ
  pub recoverable : ℕ
  pub repaired : ℕ
  pub missing : ℕ
  pub conflict : ℕ
  pub invalid : ℕ
  pub rpc_errors : ℕ
  pub busy : ℕ
  pub findings : List Finding

unfoldable pub create_result : Bool → ReconciliationResult
create_result dry_run = record {
  dry_run = dry_run;
  inspected = 0;
  consistent = 0;
  recoverable = 0;
  repaired = 0;
  missing = 0;
  conflict = 0;
  invalid = 0;
  rpc_errors = 0;
  busy = 0;
  findings = [];
}

unfoldable pub tallied : Status → ReconciliationResult → ReconciliationResult
tallied consistent r = record r { consistent = r.consistent + 1 }
tallied recoverable r = record r { recoverable = r.recoverable + 1 }
tallied repaired r = record r { repaired = r.repaired + 1 }
tallied missing r = record r { missing = r.missing + 1 }
tallied conflict r = record r { conflict = r.conflict + 1 }
tallied invalid r = record r { invalid = r.invalid + 1 }
tallied rpc_error r = record r { rpc_errors = r.rpc_errors + 1 }
tallied busy r = record r { busy = r.busy + 1 }

unfoldable pub append :
    ReconciliationResult → ReconciliationRow → Status → (detail : String) → ReconciliationResult
unfolding tallied
append r row status detail = tallied status (record r {
  findings =
      r.findings
      ++ (record {
        outbox_id = row.job.id;
        database_state = row.job.state;
        status = status;
        detail = detail;
      }
          ∷ []);
})

-- The limit that is asked for; `none` is a limit that is absent or not finite.
abbrev pub reconciliation_limit : Option ℕ → ℕ
reconciliation_limit none = 25
reconciliation_limit (some n) = min (max n 1) 100

-- The rows of the query: the jobs with an issue, and the bindings of their events.
unfoldable pub joined : List IssueRow → List BindingRow → List JobRow → List ReconciliationRow
joined issues bindings [] = []
joined issues bindings (j ∷ js) =
    let rest = joined issues bindings js in
    elim (find_issue j.issue_id issues) [
      | none ↦ rest
      | some i ↦ record { job = j; issue = i; binding = find_binding j.event_id bindings } ∷ rest
    ]

unfoldable pub database_matches :
    ReconciliationRow → PreparedChainJob → ChainProfile → ObservedCommitmentEvent → Bool
database_matches row job profile o =
    stands_at row.issue job.next && binding_matches row.binding profile o

-- What a repair says of the job.
unfoldable pub repaired_as : ExactOutcome → Status × String
repaired_as ExactOutcome.confirmed = (repaired, "database_confirmation_repaired")
repaired_as ExactOutcome.already_confirmed = (consistent, "concurrent_reconciliation_completed")
repaired_as ExactOutcome.busy = (busy, "active_worker_lease")
repaired_as ExactOutcome.dead_letter = (conflict, "database_repair_rejected")

module _ {P : Type 0} (w : ChainWorker P) (dry_run : Bool) where
  open w use {hashing, addresses, signer}

  unfoldable pub examine_matching :
      Schedule P
      → ReconciliationRow
      → PreparedChainJob
      → ObservedCommitmentEvent
      → Action P (Status × String)
  examine_matching s row job o =
      if row.job.state == JobState.confirmed && database_matches row job signer.profile o
      then pure (consistent, "database_and_chain_match")
      else if dry_run
      then pure (recoverable, "exact_event_can_be_reconciled")
      else (do
        repair ← reconcile_exact_chain_outbox_job w s row.job.id o
        pure (repaired_as repair))

  unfoldable pub examine_observed :
      Schedule P
      → ReconciliationRow
      → PreparedChainJob
      → Result (Option ObservedCommitmentEvent)
      → Action P (Status × String)
  examine_observed s row job (err _) = pure (rpc_error, "chain_inspection_failed")
  examine_observed s row job (ok none) = pure (
    if row.job.state == JobState.confirmed then conflict else missing,
    if row.job.state == JobState.confirmed then "confirmed_event_missing" else "event_not_observed",
  )
  examine_observed s row job (ok (some o)) = do
    same ← lift (chain_observation_matches addresses job o)
    if same then examine_matching s row job o else pure (conflict, "deterministic_event_mismatch")

  unfoldable pub examine_prepared :
      Schedule P → ReconciliationRow → Result PreparedChainJob → Action P (Status × String)
  examine_prepared s row (err _) = pure (invalid, "database_envelope_invalid")
  examine_prepared s row (ok job) = examine_observed s row job (signer.inspect job)

  -- One round of the loop.
  unfoldable pub examine : Schedule P → ReconciliationRow → Action P (Status × String)
  examine s row = examine_prepared s row (prepare_chain_outbox_record hashing row.job)

  unfoldable pub examine_rows :
      (JobRow → Schedule P)
      → List ReconciliationRow
      → ReconciliationResult
      → Action P ReconciliationResult
  examine_rows at [] r = pure r
  examine_rows at (row ∷ rows) r = do
    found ← examine (at row.job) row
    examine_rows at rows (append r row found.0 found.1)

  unfoldable pub reconcile_chain_outbox :
      (JobRow → Schedule P) → Option ℕ → Action P ReconciliationResult
  reconcile_chain_outbox at limit db =
      let rows = take (reconciliation_limit limit) (joined db.issues db.bindings db.jobs) in
      examine_rows at rows (record (create_result dry_run) { inspected = length rows }) db
