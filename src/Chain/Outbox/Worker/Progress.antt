-- ===== src/Chain/Outbox/Worker/Progress.antt =====
-- When a worker confirms a job.
use nagarik_signals.Base.{◌≡◌, true, some, ok}
use nagarik_signals.Chain.Job.Codec.{PreparedChainJob}
use nagarik_signals.Chain.Signer.{ObservedCommitmentEvent}
use nagarik_signals.Chain.Outbox.Store.{Database, JobRow}
use nagarik_signals.Chain.Outbox.Transactions.{WorkerJob}
use nagarik_signals.Chain.Outbox.Finalize.Completes.{IsReady, finalize_confirmed-completes}
use nagarik_signals.Chain.Outbox.Matching.{chain_observation_matches, prepare_chain_outbox_record}
use nagarik_signals.Chain.Outbox.Actions.{
  ChainWorker, Schedule, Action, Outcome, confirmed, finalizing,
}
use nagarik_signals.Chain.Outbox.Worker.{
  settle, finalize, accept, handle_inspection, process_job, process_parsed, process_row,
}

module _ {P : Type 0} (w : ChainWorker P) (s : Schedule P) where
  open w use {hashing, addresses, signer, project_confirmed}

  accept-completes :
      (job : WorkerJob) (o : ObservedCommitmentEvent) (r : _) (f m : Action P Outcome)
      (db : Database P)
      → chain_observation_matches addresses job.protocol o ≡ ok true
      → IsReady signer.profile project_confirmed job o r (s.now finalizing) (s.others finalizing db)
      → (accept w s job o r f m db).0 ≡ ok confirmed
  unfolding accept finalize settle
  accept-completes job o r f m db same ready =
      let (end, e) =
        finalize_confirmed-completes signer.profile project_confirmed job o r (s.now finalizing)
          (s.others finalizing db) ready in
      rw (same, e)

  -- One round of the worker confirms a job with a valid record whose event is on chain already, if
  -- the tables that it finds at the finalization allow it.
  pub process_row-confirms :
      (row : JobRow) (p : PreparedChainJob) (o : ObservedCommitmentEvent) (db : Database P)
      → prepare_chain_outbox_record hashing row ≡ ok p
      → signer.inspect p ≡ ok (some o)
      → chain_observation_matches addresses p o ≡ ok true
      → IsReady signer.profile project_confirmed
          (record { row = row; protocol = p })
          o
          true
          (s.now finalizing)
          (s.others finalizing db)
      → (process_row w s row db).0 ≡ ok confirmed
  unfolding process_row process_parsed process_job handle_inspection
  process_row-confirms row p o db prepared seen same ready =
      rw (prepared, seen)
        (accept-completes (record { row = row; protocol = p }) o true _ _ db same ready)
