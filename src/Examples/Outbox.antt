-- ===== src/Examples/Outbox.antt =====
-- Runs of apps/web/lib/chain/outboxWorker.ts.
use nagarik_signals.Base.{
  ◌≡◌, ◌≢◌, ◌≤◌, refl, sym, subst, ◌||◌, ℕ, ◌+◌, true, false, Bool, none, some, [], ◌∷◌, ok, All,
  inl, inr, arith,
}
use nagarik_signals.Chain.Outbox.Store.{
  JobRow, Database, find_job, find_issue, find_binding, update_job,
}
use nagarik_signals.Chain.Outbox.Transactions.{attempt_row, failed_row, record_failure}
use nagarik_signals.Chain.Outbox.Transactions.Failed.{IsFailed, record_failure-IsFailed}
use nagarik_signals.Chain.Job.Codec.{PreparedChainJob}
use nagarik_signals.Chain.Outbox.Actions.{confirmed}
use nagarik_signals.Chain.Outbox.Finalize.{finalize_confirmed, stands_at}
use nagarik_signals.Chain.Outbox.Finalize.Completes.{IsReady, finalize_confirmed-completes}
use nagarik_signals.Chain.Outbox.Claim.{claim_chain_outbox_jobs, eligible, lease_all}
use nagarik_signals.Chain.Outbox.Claim.Laws.{IsClaimed, claim-IsClaimed}
use nagarik_signals.Chain.Outbox.Claim.Apart.{claim-claim-apart}
use nagarik_signals.Chain.Outbox.Worker.{process_row}
use nagarik_signals.Chain.Outbox.Worker.Confirmed.{IsConfirmed, process_row-confirmed}
use nagarik_signals.Chain.Outbox.Worker.Progress.{process_row-confirms}
use nagarik_signals.Chain.Outbox.Worker.Built.{IsCarried, IsStepped, build_chain_job-confirmed}
use nagarik_signals.Chain.Outbox.Batch.{
  OutboxBatchResult, process_rows, count, process_chain_outbox_batch,
}
use nagarik_signals.Chain.Outbox.Batch.Tally.{batch_outcomes}
use nagarik_signals.Chain.Outbox.Steps.{Step, Reach, start, later}
use nagarik_signals.Chain.Outbox.Steps.Leases.{IsConsistent, Distinct, Reach-IsConsistent}
use nagarik_signals.Chain.Outbox.Steps.Growth.{Extends, Reach-Extends}
use nagarik_signals.Examples.World.{
  hashing, protocol, event, profile, project, worker, alone, waiting, held, issue, tables, work,
  input, envelope, observation,
}
use nagarik_signals.Examples.Jobs.{
  held-IsPrepared, event-matches, input-IsBuildable, input-built, observation-IsReported,
  event-IsCreated,
}

ready : (r : Bool) → IsReady profile project work event r 1_000 (tables held)
unfolding find_job find_issue find_binding
ready r = record {
  held = refl;
  issue = issue;
  found = refl;
  stands = refl;
  bindable = inl refl;
  after = 1;
  projected = refl;
  fresh = refl;
}

finalize_confirmed-completes_example :
    (end : Database ℕ) × (finalize_confirmed profile project work event true 1_000 (tables held)
      ≡ ok (tt, end))
finalize_confirmed-completes_example =
    finalize_confirmed-completes profile project work event true 1_000 (tables held) (ready true)

process_row-confirmed_example :
    IsConfirmed worker alone held (process_row worker alone held (tables held)).1
process_row-confirmed_example = process_row-confirmed worker alone held (tables held) (
    process_row-confirms worker alone held protocol event (tables held) held-IsPrepared refl
      event-matches (ready true))

held-IsCarried : IsCarried held envelope
held-IsCarried = record {
  payload = refl;
  operation = refl;
  operation_id = refl;
  event_id = refl;
  sequence = refl;
  hash = refl;
}

envelope-IsReady :
    (p : PreparedChainJob)
    → p.envelope ≡ envelope
    → IsReady profile project (record { row = held; protocol = p }) event true 1_000 (tables held)
unfolding find_job find_issue find_binding
envelope-IsReady p same = record {
  held = refl;
  issue = issue;
  found = refl;
  stands =
      subst (λ j. (stands_at issue j.expected || stands_at issue j.next) ≡ true) (sym same) refl;
  bindable = inl refl;
  after = 1;
  projected = refl;
  fresh = refl;
}

build_chain_job-confirmed_example :
    ((process_row worker alone held (tables held)).0 ≡ ok confirmed)
    × IsStepped input envelope "issue" (process_row worker alone held (tables held)).1
build_chain_job-confirmed_example =
    build_chain_job-confirmed worker alone input envelope held observation event (tables held)
      input-IsBuildable input-built held-IsCarried observation-IsReported event-IsCreated
      (λ p same. refl) envelope-IsReady

claimed :
    claim_chain_outbox_jobs "worker" 10 60 1_000 (tables waiting) ≡ ok (held ∷ [], tables held)
unfolding claim_chain_outbox_jobs eligible lease_all update_job
claimed = refl

claim-IsClaimed_example : (1 ≤ 10) × All (IsClaimed "worker" 60 1_000 (waiting ∷ [])) (held ∷ [])
claim-IsClaimed_example =
    claim-IsClaimed "worker" 10 60 1_000 (tables waiting) (held ∷ []) (tables held) claimed

claimed_again : claim_chain_outbox_jobs "other" 25 60 9_000 (tables held) ≡ ok ([], tables held)
unfolding claim_chain_outbox_jobs eligible lease_all
claimed_again = refl

claim-claim-apart_example : All (λ (a : JobRow). All (λ (b : JobRow). a.id ≢ b.id) []) (held ∷ [])
claim-claim-apart_example =
    claim-claim-apart "worker" "other" 10 25 60 60 1_000 9_000 (tables waiting) (held ∷ []) []
      (tables held) (tables held) claimed claimed_again (omega arith)

-- The worker's first step.
first : Reach hashing profile project (tables waiting) (tables held)
first = later start (Step.claimed "worker" 10 60 1_000 (held ∷ []) claimed)

waiting-IsConsistent : IsConsistent (waiting ∷ [])
unfolding IsConsistent Distinct
waiting-IsConsistent = (
  (tt, tt),
  (
    record {
      held = λ h. absurd (cc);
      free = λ _. (refl, refl);
      signed = λ h. absurd (elim h [ inl e ↦ cc | inr e ↦ cc ]);
    },
    tt,
  ),
)

Reach-IsConsistent_example : IsConsistent (held ∷ [])
Reach-IsConsistent_example =
    Reach-IsConsistent hashing profile project (tables waiting) (tables held) first
      waiting-IsConsistent

Reach-Extends_example : Extends (tables waiting) (tables held)
Reach-Extends_example = Reach-Extends hashing profile project (tables waiting) (tables held) first

-- The row and its attempt after a failure that may be retried.
abbrev failed_tables : Database ℕ
failed_tables = record (tables (failed_row work "rpc" false 1_000 held)) {
  attempts = attempt_row held "failure" none (some "rpc") "pre_submit" 1_000 ∷ [];
}

failed : record_failure work "rpc" true 1_000 (tables held) ≡ ok (false, failed_tables)
unfolding record_failure find_job update_job
failed = refl

record_failure-IsFailed_example : IsFailed work "rpc" true 1_000 false (tables held) failed_tables
record_failure-IsFailed_example =
    record_failure-IsFailed work "rpc" 1_000 true false (tables held) failed_tables failed

abbrev one_confirmed : OutboxBatchResult
one_confirmed = record {
  claimed = 1;
  confirmed = 1;
  submitted_unknown = 0;
  retry = 0;
  dead_letter = 0;
}

batch_result :
    process_chain_outbox_batch worker (λ _. alone) alone (some 5) (tables waiting)
    ≡ (ok one_confirmed, (process_row worker alone held (tables held)).1)
unfolding process_chain_outbox_batch claim_chain_outbox_jobs eligible lease_all update_job
    process_rows count
batch_result = rw (
    process_row-confirms worker alone held protocol event (tables held) held-IsPrepared refl
      event-matches (ready true))

batch_outcomes_example : (1 ≡ 1 + 0 + 0 + 0) × (1 ≤ 25)
batch_outcomes_example =
    batch_outcomes worker (λ _. alone) alone (some 5) (tables waiting)
      (process_row worker alone held (tables held)).1 one_confirmed batch_result
