-- ===== src/Chain/Outbox/Steps/Actions.antt =====
-- What a worker does to the tables is a sequence of steps.
use nagarik_signals.Base.{
  ℕ, ◌≡◌, refl, Bool, true, false, Option, none, some, String, List, [], ◌∷◌, if◌then◌else◌, Result,
  ok, err, error, coded, execution, projection_deferred,
}
use nagarik_signals.Chain.Job.Codec.{PreparedChainJob}
use nagarik_signals.Chain.Signer.{ObservedCommitmentEvent}
use nagarik_signals.Chain.Outbox.Store.{Database, Transaction, JobRow}
use nagarik_signals.Chain.Outbox.Transactions.{
  WorkerJob, record_failure, record_post_submit_conflict, record_projection_deferred,
  mark_submitted, record_submitted_unknown, record_invalid_claim,
}
use nagarik_signals.Chain.Outbox.Finalize.{finalize_confirmed}
use nagarik_signals.Chain.Outbox.Matching.{chain_observation_matches, prepare_chain_outbox_record}
use nagarik_signals.Chain.Outbox.Claim.{claim_chain_outbox_jobs}
use nagarik_signals.Chain.Outbox.Actions.{
  ChainWorker, Schedule, Action, attempt, lift, Outcome, confirmed, submitted_unknown, retry,
  dead_letter, and_then, pure, transact, committed, finalizing, marking, recording, claiming,
  Moment, ◌>>=◌,
}
use nagarik_signals.Chain.Outbox.Worker.{
  fail, conflict, settle, finalize, accept, handle_confirmation, handle_marking, handle_submission,
  handle_inspection, process_job, process_parsed, process_row,
}
use nagarik_signals.Chain.Outbox.Batch.{
  OutboxBatchResult, process_rows, process_chain_outbox_batch, batch_limit, count,
}
use nagarik_signals.Chain.Outbox.Steps.{Step, Reach, Reach-trans, start, later, IsPrepared}

module _ {P : Type 0} (w : ChainWorker P) where
  open w use {hashing, addresses, signer, project_confirmed}

  -- The tables that the worker's own transactions may reach.
  abbrev pub Reaches : Database P → Database P → Type 0
  Reaches = Reach hashing signer.profile project_confirmed

  abbrev pub Steps : Database P → Database P → Type 0
  Steps = Step hashing signer.profile project_confirmed

  -- The other sessions commit such steps only.
  unfoldable pub IsFair : Schedule P → Type 0
  IsFair s = (m : Moment) (db : Database P) → Reaches db (s.others m db)

  module _ (s : Schedule P) (fair : IsFair s) where
    -- The action does steps only.
    Moves : {A : Type 0} → Action P A → Type 0
    Moves m = (db : Database P) → Reaches db (m db).1

    transact-Moves :
        {A : Type 0} (m : Moment) (t : ℕ → Transaction P A)
        → ((a : A) (db db' : Database P) → t (s.now m) db ≡ ok (a, db') → Steps db db')
        → Moves (transact s m t)
    unfolding Moves IsFair
    transact-Moves {A} m t f db = helper (t (s.now m) (s.others m db)) refl
      where
        helper :
            (r : Result (A × Database P))
            → t (s.now m) (s.others m db) ≡ r
            → Reaches db (committed (s.others m db) r).1
        helper (ok (a, end)) e = Reach-trans (fair m db) (later start (f a (s.others m db) end e))
        helper (err _) e = fair m db

    bind-Moves :
        {A B : Type 0} (m : Action P A) (f : A → Action P B)
        → Moves m
        → ((a : A) → Moves (f a))
        → Moves (m >>= f)
    unfolding Moves
    bind-Moves {A} m f h k db = helper (m db).0 (m db).1 (h db)
      where
        helper :
            (r : Result A) (db' : Database P) → Reaches db db' → Reaches db (and_then f r db').1
        helper (ok a) db' q = Reach-trans q (k a db')
        helper (err _) db' q = q

    pure-Moves : {A : Type 0} (a : A) → Moves (pure a)
    unfolding Moves
    pure-Moves a db = start

    attempt-Moves : {A : Type 0} (m : Action P A) → Moves m → Moves (attempt m)
    unfolding Moves
    attempt-Moves m h db = h db

    lift-Moves : {A : Type 0} (r : Result A) → Moves (lift r)
    unfolding Moves
    lift-Moves r db = start

    fail-Moves :
        (job : WorkerJob) (c : String) (r : Bool)
        → IsPrepared hashing job
        → Moves (fail w s job c r)
    unfolding fail
    fail-Moves job c r p =
        bind-Moves _ _
          (transact-Moves recording (record_failure job c r)
            (λ a db db' e. Step.failed job c r (s.now recording) a p e))
          (λ dead. pure-Moves (if dead then dead_letter else retry))

    conflict-Moves :
        (job : WorkerJob) (g c : String) → IsPrepared hashing job → Moves (conflict w s job g c)
    unfolding conflict
    conflict-Moves job g c p =
        bind-Moves _ _
          (transact-Moves recording (record_post_submit_conflict job g c)
            (λ a db db' e. Step.conflicted job g c (s.now recording) p e))
          (λ _. pure-Moves dead_letter)

    deferred-Moves :
        (job : WorkerJob) (g : String)
        → IsPrepared hashing job
        → Moves (transact s recording (record_projection_deferred job g))
    deferred-Moves job g p =
        transact-Moves recording (record_projection_deferred job g)
          (λ a db db' e. Step.deferred job g (s.now recording) p e)

    unknown-Moves :
        (job : WorkerJob) (g : String)
        → IsPrepared hashing job
        → Moves (transact s recording (record_submitted_unknown job g))
    unknown-Moves job g p =
        transact-Moves recording (record_submitted_unknown job g)
          (λ a db db' e. Step.lost_sight job g (s.now recording) p e)

    settle-Moves :
        (job : WorkerJob) (g : String) (f : Action P Outcome) (r : Result (Unit {0}))
        → IsPrepared hashing job
        → Moves f
        → Moves (settle w s job g f r)
    unfolding settle
    settle-Moves job g f (ok _) p k = pure-Moves confirmed
    settle-Moves job g f (err projection_deferred) p k =
        bind-Moves _ _ (deferred-Moves job g p) (λ _. pure-Moves retry)
    settle-Moves job g f (err (error m)) p k = k
    settle-Moves job g f (err (coded m n)) p k = k
    settle-Moves job g f (err (execution m n)) p k = k

    finalized-Moves :
        (job : WorkerJob) (o : ObservedCommitmentEvent) (r : Bool)
        → IsPrepared hashing job
        → Moves
            (transact s finalizing (finalize_confirmed signer.profile project_confirmed job o r))
    finalized-Moves job o r p =
        transact-Moves finalizing (finalize_confirmed signer.profile project_confirmed job o r)
          (λ a db db' e. Step.finalized job o r (s.now finalizing) p e)

    accept-Moves :
        (job : WorkerJob) (o : ObservedCommitmentEvent) (r : Bool) (f m : Action P Outcome)
        → IsPrepared hashing job
        → Moves f
        → Moves m
        → Moves (accept w s job o r f m)
    unfolding accept finalize
    accept-Moves job o r f m p k l =
        bind-Moves _ _ (lift-Moves (chain_observation_matches addresses job.protocol o)) chosen
      where
        chosen : (same : Bool) → Moves (if same then finalize w s job o r f else m)
        chosen true =
            bind-Moves _ _ (attempt-Moves _ (finalized-Moves job o r p))
              (λ done. settle-Moves job o.signature f done p k)
        chosen false = l

    confirmation-Moves :
        (job : WorkerJob) (g : String) (r : Result (Option ObservedCommitmentEvent))
        → IsPrepared hashing job
        → Moves (handle_confirmation w s job g r)
    unfolding handle_confirmation
    confirmation-Moves job g (ok (some o)) p =
        accept-Moves job o false _ _ p (conflict-Moves job g _ p) (conflict-Moves job g _ p)
    confirmation-Moves job g (ok none) p =
        bind-Moves _ _ (unknown-Moves job g p) (λ _. pure-Moves submitted_unknown)
    confirmation-Moves job g (err _) p =
        bind-Moves _ _ (unknown-Moves job g p) (λ _. pure-Moves submitted_unknown)

    submission-Moves :
        (job : WorkerJob) (r : Result String)
        → IsPrepared hashing job
        → Moves (handle_submission w s job r)
    unfolding handle_submission handle_marking
    submission-Moves job (err _) p = fail-Moves job _ _ p
    submission-Moves job (ok g) p =
        bind-Moves _ _
          (attempt-Moves _ (
            transact-Moves marking (mark_submitted job g)
              (λ a db db' e. Step.submitted job g (s.now marking) p e)))
          marked
      where
        marked : (r : Result (Unit {0})) → Moves (handle_marking w s job g r)
        marked (ok _) = confirmation-Moves job g (signer.confirm job.protocol g) p
        marked (err _) = fail-Moves job _ _ p

    inspection-Moves :
        (job : WorkerJob) (r : Result (Option ObservedCommitmentEvent))
        → IsPrepared hashing job
        → Moves (handle_inspection w s job r)
    unfolding handle_inspection
    inspection-Moves job (ok (some o)) p =
        accept-Moves job o true _ _ p (fail-Moves job _ _ p) (fail-Moves job _ _ p)
    inspection-Moves job (ok none) p = submission-Moves job (signer.submit job.protocol) p
    inspection-Moves job (err _) p = fail-Moves job _ _ p

    process_row-Moves : (row : JobRow) → Moves (process_row w s row)
    unfolding process_row process_parsed process_job IsPrepared
    process_row-Moves row = helper (prepare_chain_outbox_record hashing row) refl
      where
        helper :
            (r : Result PreparedChainJob)
            → prepare_chain_outbox_record hashing row ≡ r
            → Moves (process_parsed w s row r)
        helper (ok p) e = inspection-Moves (record { row = row; protocol = p }) (signer.inspect p) e
        helper (err _) e =
            bind-Moves _ _
              (transact-Moves recording (record_invalid_claim row)
                (λ a db db' e. Step.invalid row (s.now recording) e))
              (λ _. pure-Moves dead_letter)

    claim-Moves :
        (owner : String) (limit seconds : ℕ)
        → Moves (transact s claiming (claim_chain_outbox_jobs owner limit seconds))
    claim-Moves owner limit seconds =
        transact-Moves claiming (claim_chain_outbox_jobs owner limit seconds)
          (λ rows db db' e. Step.claimed owner limit seconds (s.now claiming) rows e)

  rows-Moves :
      (at : JobRow → Schedule P)
      → ((row : JobRow) → IsFair (at row))
      → (rows : List JobRow) (r : OutboxBatchResult) (db : Database P)
      → Reaches db (process_rows w at rows r db).1
  unfolding process_rows Moves
  rows-Moves at fair [] r db = start
  rows-Moves at fair (row ∷ rows) r db =
      bind-Moves (at row) (fair row) (process_row w (at row) row) _
        (process_row-Moves (at row) (fair row) row) (λ o. rows-Moves at fair rows (count o r)) db

  -- Whatever the signer answers and however other sessions' steps fall between its transactions,
  -- a batch changes the tables by a sequence of the steps only.
  pub process_chain_outbox_batch-Reaches :
      (at : JobRow → Schedule P) (s : Schedule P) (limit : Option ℕ) (db : Database P)
      → ((row : JobRow) → IsFair (at row))
      → IsFair s
      → Reaches db (process_chain_outbox_batch w at s limit db).1
  unfolding process_chain_outbox_batch Moves
  process_chain_outbox_batch-Reaches at s limit db fairs fair =
      bind-Moves s fair
        (transact s claiming (claim_chain_outbox_jobs w.worker_id (batch_limit limit) 60)) _
        (claim-Moves s fair w.worker_id (batch_limit limit) 60) (λ rows. rows-Moves at fairs rows _)
        db
