-- ===== src/Chain/Outbox/Exact.antt =====
-- apps/web/lib/chain/outboxWorker.ts: the repair of one exact job by the reconciler.
-- Other sessions may commit before each transaction; a schedule says what and when.
use Prim.Native.String
pub mod Regress
use nagarik_signals.Base.{
  ℕ, true, false, Option, none, some, String, if◌then◌else◌, Result, ok, err, projection_deferred,
  ◌==◌, suc, zero,
}
use nagarik_signals.Chain.Job.Codec.{PreparedChainJob}
use nagarik_signals.Chain.Signer.{ObservedCommitmentEvent}
use nagarik_signals.Chain.Outbox.Store.{JobRow, JobState, select_job, state_eq}
use nagarik_signals.Chain.Outbox.Transactions.{
  WorkerJob, record_invalid_claim, record_failure, record_projection_deferred,
}
use nagarik_signals.Chain.Outbox.Finalize.{finalize_confirmed}
use nagarik_signals.Chain.Outbox.Matching.{prepare_chain_outbox_record, chain_observation_matches}
use nagarik_signals.Chain.Outbox.Claim.{claim_exact_job}
use nagarik_signals.Chain.Outbox.Actions.{
  ChainWorker, Schedule, claiming, finalizing, recording, reading, Action, ◌>>=◌, ◌>>◌, pure, lift,
  attempt, transact,
}

pub data ExactOutcome : Type 0 where
  confirmed already_confirmed busy dead_letter : ExactOutcome

-- `text.slice(0, n)`, on a text of the basic plane.
abbrev slice_from_start : ℕ → String → String
slice_from_start zero s = ""
slice_from_start (suc n) String.[] = ""
slice_from_start (suc n) (String.◌∷◌ c s) = String.◌∷◌ c (slice_from_start n s)

abbrev pub reconcile_owner : String → String
reconcile_owner worker_id = slice_from_start 120 (String.◌++◌ worker_id ":reconcile")

-- What the second query says of a job that could not be claimed.
abbrev unclaimed : Option JobRow → ExactOutcome
unclaimed none = busy
unclaimed (some j) = if j.state == JobState.confirmed then already_confirmed else busy

module _ {P : Type 0} (w : ChainWorker P) (s : Schedule P) where
  open w use {hashing, addresses, signer, project_confirmed, worker_id}

  unfoldable pub reject : WorkerJob → String → Action P ExactOutcome
  reject job category = do
    dead ← transact s recording (record_failure job category false)
    pure dead_letter

  unfoldable pub settle_exact : WorkerJob → String → Result (Unit {0}) → Action P ExactOutcome
  settle_exact job signature (ok _) = pure confirmed
  settle_exact job signature (err projection_deferred) = do
    transact s recording (record_projection_deferred job signature)
    pure busy
  settle_exact job signature (err _) = reject job "chain_confirmation_db_conflict"

  unfoldable pub reconcile_claimed :
      ObservedCommitmentEvent → JobRow → Result PreparedChainJob → Action P ExactOutcome
  reconcile_claimed o row (err _) = do
    transact s recording (record_invalid_claim row)
    pure dead_letter
  reconcile_claimed o row (ok protocol) =
      let job : WorkerJob = record { row = row; protocol = protocol } in
      do
        same ← lift (chain_observation_matches addresses protocol o)
        if same
            then (do
              done ← attempt (
                  transact s finalizing
                    (finalize_confirmed signer.profile project_confirmed job o true))
              settle_exact job o.signature done)
            else reject job "chain_event_conflict"

  unfoldable pub reconcile_found :
      String → ObservedCommitmentEvent → Option JobRow → Action P ExactOutcome
  reconcile_found id o (some row) =
      reconcile_claimed o row (prepare_chain_outbox_record hashing row)
  reconcile_found id o none = do
    found ← transact s reading (λ now. select_job id)
    pure (unclaimed found)

  unfoldable pub reconcile_exact_chain_outbox_job :
      String → ObservedCommitmentEvent → Action P ExactOutcome
  reconcile_exact_chain_outbox_job id o = do
    row ← transact s claiming (claim_exact_job (reconcile_owner worker_id) id)
    reconcile_found id o row
