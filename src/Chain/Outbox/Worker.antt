-- ===== src/Chain/Outbox/Worker.antt =====
-- apps/web/lib/chain/outboxWorker.ts: processing one claimed job.
-- Other sessions may commit before each transaction; a schedule says what and when.
pub mod Confirmed
pub mod Progress
pub mod Built
use nagarik_signals.Base.{
  ℕ, ◌+◌, ◌++◌, true, false, Bool, Option, none, some, String, List, [], ◌∷◌, length, if◌then◌else◌,
  min, max, Result, ok, err, Thrown, error, execution, projection_deferred, take, ◌==◌, suc, zero,
}
use nagarik_signals.Chain.Protocol.{Hashing, Addresses}
use nagarik_signals.Chain.Job.Codec.{PreparedChainJob}
use nagarik_signals.Chain.Signer.{ChainSigner, ObservedCommitmentEvent}
use nagarik_signals.Chain.Outbox.Store.{
  JobRow, JobState, Database, Transaction, select_job, state_eq,
}
use nagarik_signals.Chain.Outbox.Transactions.{
  WorkerJob, Projector, record_invalid_claim, record_failure, mark_submitted,
  record_submitted_unknown, record_post_submit_conflict, record_projection_deferred,
}
use nagarik_signals.Chain.Outbox.Finalize.{finalize_confirmed}
use nagarik_signals.Chain.Outbox.Matching.{prepare_chain_outbox_record, chain_observation_matches}
use nagarik_signals.Chain.Outbox.Claim.{claim_chain_outbox_jobs, claim_exact_job}
use nagarik_signals.Chain.Outbox.Actions.{
  ChainWorker, Schedule, claiming, finalizing, marking, recording, reading, Outcome, confirmed,
  submitted_unknown, retry, dead_letter, Action, ◌>>=◌, ◌>>◌, pure, lift, attempt, transact,
  category_of, retryable_of,
}

module _ {P : Type 0} (w : ChainWorker P) (s : Schedule P) where
  open w use {hashing, addresses, signer, project_confirmed}

  unfoldable pub fail : WorkerJob → String → Bool → Action P Outcome
  fail job category retryable = do
    dead ← transact s recording (record_failure job category retryable)
    pure (if dead then dead_letter else retry)

  unfoldable pub conflict : WorkerJob → (signature category : String) → Action P Outcome
  conflict job signature category = do
    transact s recording (record_post_submit_conflict job signature category)
    pure dead_letter

  -- A confirmation that the projection defers is kept for later; any other error fails.
  unfoldable pub settle :
      WorkerJob → String → (failure : Action P Outcome) → Result (Unit {0}) → Action P Outcome
  settle job signature failure (ok _) = pure confirmed
  settle job signature failure (err projection_deferred) = do
    transact s recording (record_projection_deferred job signature)
    pure retry
  settle job signature failure (err _) = failure

  unfoldable pub finalize :
      WorkerJob
      → ObservedCommitmentEvent
      → (reconciled : Bool) → (failure : Action P Outcome) → Action P Outcome
  finalize job o reconciled failure = do
    done ← attempt (
        transact s finalizing
          (finalize_confirmed signer.profile project_confirmed job o reconciled))
    settle job o.signature failure done

  -- An event that was observed is finalized if it is the event of the job.
  unfoldable pub accept :
      WorkerJob
      → ObservedCommitmentEvent
      → (reconciled : Bool) → (failure mismatch : Action P Outcome) → Action P Outcome
  accept job o reconciled failure mismatch = do
    same ← lift (chain_observation_matches addresses job.protocol o)
    if same then finalize job o reconciled failure else mismatch

  unfoldable pub handle_confirmation :
      WorkerJob → String → Result (Option ObservedCommitmentEvent) → Action P Outcome
  handle_confirmation job signature (ok (some o)) =
      accept job o false (conflict job signature "chain_confirmation_db_conflict")
        (conflict job signature "chain_event_conflict")
  handle_confirmation job signature _ = do
    transact s recording (record_submitted_unknown job signature)
    pure submitted_unknown

  unfoldable pub handle_marking : WorkerJob → String → Result (Unit {0}) → Action P Outcome
  handle_marking job signature (ok _) =
      handle_confirmation job signature (signer.confirm job.protocol signature)
  handle_marking job signature (err _) = fail job "chain_submission_persistence_failed" true

  unfoldable pub handle_submission : WorkerJob → Result String → Action P Outcome
  handle_submission job (ok signature) = do
    marked ← attempt (transact s marking (mark_submitted job signature))
    handle_marking job signature marked
  handle_submission job (err e) =
      fail job (category_of e "chain_submit_failed") (retryable_of e true)

  unfoldable pub handle_inspection :
      WorkerJob → Result (Option ObservedCommitmentEvent) → Action P Outcome
  handle_inspection job (ok (some existing)) =
      accept job existing true (fail job "chain_confirmation_db_conflict" false)
        (fail job "chain_event_conflict" false)
  handle_inspection job (ok none) = handle_submission job (signer.submit job.protocol)
  handle_inspection job (err e) =
      fail job (category_of e "chain_inspection_unavailable") (retryable_of e true)

  unfoldable pub process_job : WorkerJob → Action P Outcome
  process_job job = handle_inspection job (signer.inspect job.protocol)

  unfoldable pub process_parsed : JobRow → Result PreparedChainJob → Action P Outcome
  process_parsed row (ok protocol) = process_job (record { row = row; protocol = protocol })
  process_parsed row (err _) = do transact s recording (record_invalid_claim row); pure dead_letter

  -- One round of the batch's loop.
  unfoldable pub process_row : JobRow → Action P Outcome
  process_row row = process_parsed row (prepare_chain_outbox_record hashing row)
