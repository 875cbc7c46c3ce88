-- ===== src/Chain/Outbox/Batch.antt =====
-- apps/web/lib/chain/outboxWorker.ts: one batch of claimed jobs, counted by outcome.
-- Other sessions may commit before each transaction; a schedule says what and when.
pub mod Tally
use nagarik_signals.Base.{
  ℕ, ◌+◌, ◌++◌, true, false, Bool, Option, none, some, String, List, [], ◌∷◌, length, if◌then◌else◌,
  min, max, Result, ok, err, Thrown, error, execution, projection_deferred, take, ◌==◌, suc, zero,
}
use nagarik_signals.Chain.Protocol.{Hashing, Addresses}
use nagarik_signals.Chain.Job.Codec.{PreparedChainJob}
use nagarik_signals.Chain.Signer.{ChainSigner, ObservedCommitmentEvent}
use nagarik_signals.Chain.Outbox.Store.{
  JobRow, JobState, Database, Transaction, select_job, state_eq,
}
use nagarik_signals.Chain.Outbox.Transactions.{
  WorkerJob, Projector, record_invalid_claim, record_failure, mark_submitted,
  record_submitted_unknown, record_post_submit_conflict, record_projection_deferred,
}
use nagarik_signals.Chain.Outbox.Finalize.{finalize_confirmed}
use nagarik_signals.Chain.Outbox.Matching.{prepare_chain_outbox_record, chain_observation_matches}
use nagarik_signals.Chain.Outbox.Claim.{claim_chain_outbox_jobs, claim_exact_job}
use nagarik_signals.Chain.Outbox.Worker.{process_row}
use nagarik_signals.Chain.Outbox.Actions.{
  ChainWorker, Schedule, claiming, finalizing, marking, recording, reading, Outcome, confirmed,
  submitted_unknown, retry, dead_letter, Action, ◌>>=◌, ◌>>◌, pure, lift, attempt, transact,
  category_of, retryable_of,
}

-- `OutboxBatchResult`
pub record OutboxBatchResult : Type 0 where
  pub claimed : ℕ
  pub confirmed : ℕ
  pub submitted_unknown : ℕ
  pub retry : ℕ
  pub dead_letter : ℕ

-- `result[outcome] += 1`
unfoldable pub count : Outcome → OutboxBatchResult → OutboxBatchResult
count confirmed r = record r { confirmed = r.confirmed + 1 }
count submitted_unknown r = record r { submitted_unknown = r.submitted_unknown + 1 }
count retry r = record r { retry = r.retry + 1 }
count dead_letter r = record r { dead_letter = r.dead_letter + 1 }

-- `Math.min(Math.max(limit, 1), 25)`; `none` is a limit that is not finite, and a negative one
-- counts as 0.
abbrev pub batch_limit : Option ℕ → ℕ
batch_limit none = 10
batch_limit (some n) = min (max n 1) 25

module _ {P : Type 0} (w : ChainWorker P) (at : JobRow → Schedule P) where
  unfoldable pub process_rows : List JobRow → OutboxBatchResult → Action P OutboxBatchResult
  process_rows [] result = pure result
  process_rows (row ∷ rows) result = do
    outcome ← process_row w (at row) row
    process_rows rows (count outcome result)

  unfoldable pub process_chain_outbox_batch : Schedule P → Option ℕ → Action P OutboxBatchResult
  process_chain_outbox_batch s requested_limit = do
    rows ←
        transact s claiming (claim_chain_outbox_jobs w.worker_id (batch_limit requested_limit) 60)
    process_rows rows (record {
      claimed = length rows;
      confirmed = 0;
      submitted_unknown = 0;
      retry = 0;
      dead_letter = 0;
    })
