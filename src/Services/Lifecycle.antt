-- ===== src/Services/Lifecycle.antt =====
-- apps/web/lib/services/status.ts: the change of a published issue's lifecycle by an operator. The
-- change has passed its schema.
pub mod Change
pub mod Step
pub mod Laws
pub mod Replay
pub mod Accepted
use Prim.Native.String.{◌++◌}
use nagarik_signals.Base.{
  ℕ, ◌+◌, ◌&&◌, ◌||◌, true, false, Bool, Option, none, some, String, List, [], ◌∷◌, ◌==◌, nat_eq,
  string_eq, option_eq, if◌then◌else◌, Result, ok, err, coded, error, guard, ◌>>=◌, ◌>>◌,
}
use nagarik_signals.Base.Clock.{iso_string}
use nagarik_signals.Domain.Workflow.{LifecycleState, assert_lifecycle_transition}
use nagarik_signals.Chain.Protocol.{Hashing, lifecycle_changed, v2_lifecycles}
use nagarik_signals.Chain.Job.Schema.{Envelope}
use nagarik_signals.Chain.Job.Codec.{JobInput, build_chain_job}
use nagarik_signals.Proof.Canonical.{
  Json, null, number, text, object, Members, no_members, member, json_hash,
}
use nagarik_signals.Security.Ids.{deterministic_uuid, deterministic_uuid_v4}
use nagarik_signals.Services.Switches.{operator_mutations}
use nagarik_signals.Services.Operations.{
  Operator, OperatorDependencies, MutationRequest, MutationReservation, fresh, replayed,
  reserve_operator_mutation, complete_operator_mutation,
}
use nagarik_signals.Services.Issues.{
  published, v2_categories, lifecycle_name, Issue, Version, LifecycleEvent, AuditRow, IssueTables,
  is_capability_enabled, insert_row, same_lifecycle_event, same_job, same_audit, find_v2_issue,
  with_version, change_issue, issue_snapshot, outbox_row, publication_eq,
}

-- `LifecycleInput`
pub record LifecycleInput : Type 0 where
  pub expected_domain_version : ℕ
  pub expected_timeline_head : String
  pub to_state : LifecycleState
  pub reason_code : String
  pub public_note : Option String
  pub observed_at : Option String

-- `StableLifecycleResult`
pub record LifecycleResult : Type 0 where
  pub public_id : String
  pub lifecycle : LifecycleState
  pub domain_version : ℕ
  pub chain_sequence : ℕ
  pub timeline_head : String

pub record LifecycleRequest : Type 0 where
  pub public_id : String
  pub idempotency_key : String
  pub actor : Operator
  pub change : LifecycleInput

-- `value ?? null`
abbrev pub or_null : Option String → Json
or_null none = null
or_null (some s) = text s

-- The change as it is hashed.
unfoldable pub change_json : LifecycleInput → Json
change_json c = object (
    member "expectedDomainVersion" (number c.expected_domain_version) (
      member "expectedTimelineHead" (text c.expected_timeline_head) (
        member "toState" (text (lifecycle_name c.to_state)) (
          member "reasonCode" (text c.reason_code) (
            member "publicNote" (or_null c.public_note)
              (member "observedAt" (or_null c.observed_at) no_members))))))

unfoldable pub mutation_request : LifecycleRequest → MutationRequest
unfolding change_json
mutation_request q = record {
  scope = "operator:lifecycle:" ++ q.public_id;
  actor = q.actor;
  idempotency_key = q.idempotency_key;
  request = change_json q.change;
}

unfoldable pub public_event : LifecycleRequest → LifecycleState → ℕ → Json
public_event q current now = object (
    member "schemaVersion" (text "nagarik-lifecycle-event-v1") (
      member "from" (text (lifecycle_name current)) (
        member "to" (text (lifecycle_name q.change.to_state)) (
          member "reasonCode" (text q.change.reason_code) (
            member "publicNote" (or_null q.change.public_note) (
              member "observedAt" (or_null q.change.observed_at)
                (member "recordedAt" (text (iso_string now)) no_members)))))))

abbrev identity : LifecycleRequest → String
identity q = q.public_id ++ ":" ++ q.idempotency_key

unfoldable pub lifecycle_event_id : Hashing → LifecycleRequest → String
lifecycle_event_id h q = deterministic_uuid_v4 h "nagarik:v2:lifecycle-event" (identity q)

unfoldable pub lifecycle_job : OperatorDependencies → LifecycleRequest → Issue → Version → JobInput
unfolding public_event lifecycle_event_id
lifecycle_job d q i v = record {
  operation = lifecycle_changed;
  public_issue_id = q.public_id;
  database_event_id = lifecycle_event_id d.hashing q;
  payload_hash = json_hash d.hashing (public_event q i.lifecycle d.now);
  expected = issue_snapshot i v;
  next = record {
    category = v2_categories v.category;
    lifecycle = v2_lifecycles q.change.to_state;
    removed = false;
    metadata_hash = v.metadata_hash;
    evidence_hash = v.evidence_hash;
    location_hash = v.location_hash;
  };
}

unfoldable pub lifecycle_event :
    OperatorDependencies → LifecycleRequest → Issue → Version → Envelope → LifecycleEvent
unfolding public_event lifecycle_event_id
lifecycle_event d q i v job = record {
  id = lifecycle_event_id d.hashing q;
  issue_id = i.id;
  issue_version_id = v.id;
  workflow_version = i.domain_version + 1;
  workflow_head = job.next.timeline_head;
  from_state = i.lifecycle;
  to_state = q.change.to_state;
  reason_code = q.change.reason_code;
  public_note = q.change.public_note;
  observed_at = q.change.observed_at;
  public_event = public_event q i.lifecycle d.now;
  chain_sequence = job.next.update_count;
  created_by = q.actor.subject_id;
  created_at = d.now;
}

unfoldable pub moved_issue : ℕ → LifecycleState → Envelope → Issue → Issue
moved_issue now to_state job i = record i {
  lifecycle = to_state;
  domain_version = i.domain_version + 1;
  checkpoint_update_count = job.next.update_count;
  projected_timeline_head = job.next.timeline_head;
  projected_handoff_head = job.next.handoff_head;
  updated_at = now;
}

unfoldable pub lifecycle_audit :
    OperatorDependencies → LifecycleRequest → (actor_key : String) → Issue → Envelope → AuditRow
unfolding lifecycle_event_id
lifecycle_audit d q actor_key i job = record {
  id = deterministic_uuid d.hashing "nagarik:v2:lifecycle-audit" (lifecycle_event_id d.hashing q);
  organization_id = q.actor.organization_id;
  actor_type = "operator";
  actor_key = actor_key;
  action = "lifecycle_changed";
  resource_type = "issue";
  resource_id = i.id;
  request_id = deterministic_uuid_v4 d.hashing "nagarik:v2:lifecycle-request" (identity q);
  detail = object (
      member "from" (text (lifecycle_name i.lifecycle)) (
        member "to" (text (lifecycle_name q.change.to_state)) (
          member "domainVersion" (number (i.domain_version + 1))
            (member "chainSequence" (number job.next.update_count) no_members))));
  occurred_at = d.now;
}

unfoldable pub lifecycle_result : LifecycleRequest → Issue → Envelope → LifecycleResult
lifecycle_result q i job = record {
  public_id = q.public_id;
  lifecycle = q.change.to_state;
  domain_version = i.domain_version + 1;
  chain_sequence = job.next.update_count;
  timeline_head = job.next.timeline_head;
}

-- A `WorkflowStateError` becomes a `LifecycleError`.
abbrev pub transition_checked : Result (Unit {0}) → Result (Unit {0})
transition_checked (ok u) = ok tt
transition_checked (err e) = err (coded "lifecycle_transition_invalid" 409)

unfoldable pub check_lifecycle : LifecycleInput → Issue → Result (Unit {0})
check_lifecycle c i = do
  guard (i.publication_state == published && i.blocked_from_sequence == none)
      (coded "workflow_conflict" 409)
  guard
      (i.domain_version == c.expected_domain_version
        && i.projected_timeline_head == c.expected_timeline_head)
      (coded "stale_resource_version" 409)
  transition_checked (assert_lifecycle_transition i.lifecycle c.to_state)
