-- ===== src/Chain/Outbox/Claim.antt =====
-- supabase/migrations/20260731000600_chain_outbox_claim.sql: which jobs a worker may lease, and the
-- claim of one exact job by the reconciler (apps/web/lib/chain/outboxWorker.ts).
pub mod Laws
pub mod Apart
use nagarik_signals.Base.{
  ℕ, suc, zero, ◌+◌, ◌*◌, ◌&&◌, ◌||◌, true, false, Bool, Option, none, some, String, List, [], ◌∷◌,
  map, ◌==◌, nat_eq, string_eq, ltb, leb, not, any, keep, take, length, if◌then◌else◌, Result, ok,
  err, error,
}
use nagarik_signals.Base.Text.{codes}
use nagarik_signals.Chain.Outbox.Store.{
  JobState, pending, leased, submitted_unknown, confirming, confirmed, blocked, dead_letter,
  state_eq, JobRow, Database, Transaction, update_job, find_job,
}

-- `lease_expires_at <= now()`, which no null satisfies.
abbrev pub lease_over : ℕ → JobRow → Bool
lease_over now j = elim j.lease_expires_at [ none ↦ false | some t ↦ leb t now ]

-- An earlier job of the same issue is not confirmed.
abbrev pub waits_for : JobRow → JobRow → Bool
waits_for job predecessor =
    predecessor.issue_id == job.issue_id
    && ltb predecessor.chain_sequence job.chain_sequence
    && not (predecessor.state == confirmed)

unfoldable pub eligible : ℕ → List JobRow → JobRow → Bool
eligible now jobs job =
    ((job.state == pending || job.state == submitted_unknown || job.state == confirming)
        && leb job.available_at now
      || job.state == leased && lease_over now job)
    && not (any (waits_for job) jobs)

abbrev pub leased_row : String → ℕ → ℕ → JobRow → JobRow
leased_row owner seconds now j = record j {
  state = leased;
  lease_owner = some owner;
  lease_expires_at = some (now + seconds * 1_000);
  attempt_count = j.attempt_count + 1;
  updated_at = now;
}

-- Each of the listed rows is leased.
unfoldable pub lease_all : String → ℕ → ℕ → List JobRow → List JobRow → List JobRow
lease_all owner seconds now [] jobs = jobs
lease_all owner seconds now (j ∷ js) jobs =
    lease_all owner seconds now js (update_job j.id (leased_row owner seconds now) jobs)

-- The states from which one exact job may be claimed.
abbrev pub reclaimable : ℕ → JobRow → Bool
reclaimable now j =
    j.state == pending
    || j.state == submitted_unknown
    || j.state == confirming
    || j.state == confirmed
    || j.state == blocked
    || j.state == dead_letter
    || j.state == leased && lease_over now j

module _ {P : Type 0} where
  unfoldable pub claim_chain_outbox_jobs :
      (owner : String) (limit seconds : ℕ) → ℕ → Transaction P (List JobRow)
  claim_chain_outbox_jobs owner limit seconds now db =
      let chosen = take limit (keep (eligible now db.jobs) db.jobs) in
      if not (
        leb 1 (length (codes owner))
        && leb (length (codes owner)) 120
        && leb 1 limit
        && leb limit 25
        && leb 15 seconds
        && leb seconds 300)
      then err (error "invalid_chain_outbox_lease")
      else ok (
        map (leased_row owner seconds now) chosen,
        record db { jobs = lease_all owner seconds now chosen db.jobs },
      )

  claim_found : String → ℕ → Option JobRow → Transaction P (Option JobRow)
  claim_found owner now none db = ok (none, db)
  claim_found owner now (some j) db =
      if reclaimable now j
      then ok (
        some (leased_row owner 60 now j),
        record db { jobs = update_job j.id (leased_row owner 60 now) db.jobs },
      )
      else ok (none, db)

  unfoldable pub claim_exact_job : (owner id : String) → ℕ → Transaction P (Option JobRow)
  unfolding claim_found
  claim_exact_job owner id now db = claim_found owner now (find_job id db.jobs) db
