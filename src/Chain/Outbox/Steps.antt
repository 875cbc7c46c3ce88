-- ===== src/Chain/Outbox/Steps.antt =====
-- apps/web/lib/chain/outboxWorker.ts as a step relation: each step is one transaction that a worker
-- or a reconciler commits, and every action is a sequence of steps.
pub mod Actions
pub mod Leases
pub mod Growth
use nagarik_signals.Base.{ℕ, ◌≡◌, Bool, Option, String, List, ok}
use nagarik_signals.Chain.Protocol.{Hashing}
use nagarik_signals.Chain.Signer.{ChainProfile, ObservedCommitmentEvent}
use nagarik_signals.Chain.Outbox.Store.{Database, JobRow}
use nagarik_signals.Chain.Outbox.Transactions.{
  WorkerJob, Projector, record_invalid_claim, record_failure, mark_submitted,
  record_submitted_unknown, record_post_submit_conflict, record_projection_deferred,
}
use nagarik_signals.Chain.Outbox.Finalize.{finalize_confirmed}
use nagarik_signals.Chain.Outbox.Matching.{prepare_chain_outbox_record}
use nagarik_signals.Chain.Outbox.Claim.{claim_chain_outbox_jobs, claim_exact_job}

-- The job's protocol part is prepared from its row.
pub IsPrepared : Hashing → WorkerJob → Type 0
IsPrepared h job = prepare_chain_outbox_record h job.row ≡ ok job.protocol

module _ {P : Type 0} (h : Hashing) (profile : ChainProfile) (project : Projector P) where
  pub data Step (db : Database P) : Database P → Type 0 where
    claimed :
        (owner : String) (limit seconds now : ℕ) (rows : List JobRow) {db' : Database P}
        → claim_chain_outbox_jobs owner limit seconds now db ≡ ok (rows, db')
        → Step db db'
    claimed_exactly :
        (owner id : String) (now : ℕ) (row : Option JobRow) {db' : Database P}
        → claim_exact_job owner id now db ≡ ok (row, db')
        → Step db db'
    invalid :
        (row : JobRow) (now : ℕ) {db' : Database P}
        → record_invalid_claim row now db ≡ ok (tt, db')
        → Step db db'
    failed :
        (job : WorkerJob) (category : String) (retryable : Bool) (now : ℕ) (dead : Bool)
        {db' : Database P}
        → IsPrepared h job
        → record_failure job category retryable now db ≡ ok (dead, db')
        → Step db db'
    submitted :
        (job : WorkerJob) (signature : String) (now : ℕ) {db' : Database P}
        → IsPrepared h job
        → mark_submitted job signature now db ≡ ok (tt, db')
        → Step db db'
    lost_sight :
        (job : WorkerJob) (signature : String) (now : ℕ) {db' : Database P}
        → IsPrepared h job
        → record_submitted_unknown job signature now db ≡ ok (tt, db')
        → Step db db'
    conflicted :
        (job : WorkerJob) (signature category : String) (now : ℕ) {db' : Database P}
        → IsPrepared h job
        → record_post_submit_conflict job signature category now db ≡ ok (tt, db')
        → Step db db'
    deferred :
        (job : WorkerJob) (signature : String) (now : ℕ) {db' : Database P}
        → IsPrepared h job
        → record_projection_deferred job signature now db ≡ ok (tt, db')
        → Step db db'
    finalized :
        (job : WorkerJob) (o : ObservedCommitmentEvent) (reconciled : Bool) (now : ℕ)
        {db' : Database P}
        → IsPrepared h job
        → finalize_confirmed profile project job o reconciled now db ≡ ok (tt, db')
        → Step db db'

  pub data Reach (db : Database P) : Database P → Type 0 where
    start : Reach db db
    later : {db' db'' : Database P} → Reach db db' → Step db' db'' → Reach db db''

pub Reach-trans :
    {P : Type 0} {h : Hashing} {profile : ChainProfile} {project : Projector P}
    {db db' db'' : Database P}
    → Reach h profile project db db'
    → Reach h profile project db' db''
    → Reach h profile project db db''
Reach-trans r start = r
Reach-trans r (later q s) = later (Reach-trans r q) s
