-- ===== src/Services/Lifecycle/Change.antt =====
-- apps/web/lib/services/status.ts: `changeIssueLifecycle`, the transaction.
use nagarik_signals.Base.{
  true, false, Bool, Option, none, some, String, Result, ok, err, coded, guard, ◌>>=◌, ◌>>◌,
}
use nagarik_signals.Chain.Job.Schema.{Envelope}
use nagarik_signals.Chain.Job.Codec.{build_chain_job}
use nagarik_signals.Security.Ids.{deterministic_uuid}
use nagarik_signals.Services.Switches.{operator_mutations}
use nagarik_signals.Services.Operations.{
  OperatorDependencies, MutationReservation, fresh, replayed, reserve_operator_mutation,
  complete_operator_mutation,
}
use nagarik_signals.Services.Issues.{
  Issue, Version, IssueTables, is_capability_enabled, insert_row, same_lifecycle_event, same_job,
  same_audit, find_v2_issue, with_version, change_issue, outbox_row,
}
use nagarik_signals.Services.Lifecycle.{
  LifecycleRequest, LifecycleResult, check_lifecycle, lifecycle_job, lifecycle_event,
  lifecycle_event_id, moved_issue, lifecycle_audit, lifecycle_result, mutation_request,
}

abbrev pub LifecycleTables : Type 0
LifecycleTables = IssueTables LifecycleResult

module _ (d : OperatorDependencies) (q : LifecycleRequest) where
  abbrev pub lifecycle_outbox_id : String
  lifecycle_outbox_id =
      deterministic_uuid d.hashing "nagarik:v2:lifecycle-outbox" (lifecycle_event_id d.hashing q)

  -- The inserts and updates, and the answer that completes the reservation.
  unfoldable pub write_lifecycle :
      (record_id request_hash actor_key : String)
      → LifecycleTables
      → Issue
      → Version
      → Envelope
      → Result (LifecycleResult × LifecycleTables)
  write_lifecycle record_id request_hash actor_key t i v job = do
    events ← insert_row same_lifecycle_event (lifecycle_event d q i v job) t.lifecycle_events
    jobs ← insert_row same_job (outbox_row lifecycle_outbox_id i.id v.id job d.now) t.jobs
    audit ← insert_row same_audit (lifecycle_audit d q actor_key i job) t.audit
    records ← complete_operator_mutation record_id request_hash (lifecycle_result q i job) t.records
    ok (
      lifecycle_result q i job,
      record t {
        records = records;
        issues = change_issue i.id (moved_issue d.now q.change.to_state job) t.issues;
        lifecycle_events = events;
        jobs = jobs;
        audit = audit;
      },
    )

  unfoldable pub lifecycle_found :
      (record_id request_hash actor_key : String)
      → LifecycleTables
      → Option (Issue × Version)
      → Result (LifecycleResult × LifecycleTables)
  lifecycle_found record_id request_hash actor_key t none = err (coded "resource_not_found" 404)
  lifecycle_found record_id request_hash actor_key t (some (i, v)) = do
    check_lifecycle q.change i
    job ← build_chain_job d.hashing (lifecycle_job d q i v)
    write_lifecycle record_id request_hash actor_key t i v job

  -- After the reservation; the Boolean says whether the answer is a replay.
  unfoldable pub change_reserved :
      MutationReservation LifecycleResult
      → LifecycleTables
      → Result ((Bool × LifecycleResult) × LifecycleTables)
  change_reserved (replayed response) t = ok ((true, response), t)
  change_reserved (fresh record_id request_hash actor_key) t = do
    guard (is_capability_enabled operator_mutations t.switches)
        (coded "operator_mutations_disabled" 503)
    out ←
        lifecycle_found record_id request_hash actor_key t
          (with_version (find_v2_issue q.public_id q.actor.organization_id t.issues) t.versions)
    ok ((false, out.0), out.1)

  unfoldable pub change_issue_lifecycle :
      LifecycleTables → Result ((Bool × LifecycleResult) × LifecycleTables)
  change_issue_lifecycle t = do
    reservation ← reserve_operator_mutation d (mutation_request q) t.records
    change_reserved reservation.0 (record t { records = reservation.1 })
