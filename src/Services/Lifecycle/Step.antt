-- ===== src/Services/Lifecycle/Step.antt =====
-- The step that a lifecycle change takes, in the issue, the event and the answer.
use nagarik_signals.Base.{◌≡◌, ◌+◌, List, refl, ap, some, option_eq, nat_eq, string_eq, ok}
use nagarik_signals.Domain.Workflow.{LifecycleState, lifecycle_eq}
use nagarik_signals.Chain.Job.Schema.{Envelope, Snapshot}
use nagarik_signals.Chain.Job.Codec.{build_chain_job, next_snapshot}
use nagarik_signals.Chain.Job.Built.{build_chain_job-IsBuilt}
use nagarik_signals.Services.Operations.{OperatorDependencies}
use nagarik_signals.Services.Issues.{
  published, publication_eq, Issue, Version, LifecycleEvent, find_v2_issue, change_issue,
  issue_snapshot,
}
use nagarik_signals.Services.Issues.Changed.{find_v2_issue-change_issue}
use nagarik_signals.Services.Lifecycle.{
  LifecycleRequest, LifecycleResult, lifecycle_job, lifecycle_event, moved_issue, lifecycle_result,
}

-- One step of an issue, said by its rows, by the event and by the answer alike.
pub record IsOneStep (to_state : LifecycleState) (before after : Issue) (e : LifecycleEvent)
    (job : Envelope) (r : LifecycleResult) : Type 0 where
  pub lifecycle : after.lifecycle ≡ to_state
  pub still_published : after.publication_state ≡ published
  pub next_version : after.domain_version ≡ before.domain_version + 1
  pub next_sequence : after.checkpoint_update_count ≡ before.checkpoint_update_count + 1
  pub next_head : after.projected_timeline_head ≡ job.next.timeline_head
  pub same_handoffs : after.projected_handoff_head ≡ before.projected_handoff_head
  pub event_states : (e.from_state ≡ before.lifecycle) × (e.to_state ≡ to_state)
  pub event_version : e.workflow_version ≡ after.domain_version
  pub event_sequence : e.chain_sequence ≡ after.checkpoint_update_count
  pub event_head : e.workflow_head ≡ after.projected_timeline_head
  pub answer_lifecycle : r.lifecycle ≡ to_state
  pub answer_version : r.domain_version ≡ after.domain_version
  pub answer_sequence : r.chain_sequence ≡ after.checkpoint_update_count
  pub answer_head : r.timeline_head ≡ after.projected_timeline_head

module _ (d : OperatorDependencies) (q : LifecycleRequest) where
  pub lifecycle_step :
      (i : Issue) (v : Version) (job : Envelope)
      → i.publication_state ≡ published
      → build_chain_job d.hashing (lifecycle_job d q i v) ≡ ok job
      → IsOneStep q.change.to_state i
          (moved_issue d.now q.change.to_state job i)
          (lifecycle_event d q i v job)
          job
          (lifecycle_result q i job)
  unfolding lifecycle_job issue_snapshot moved_issue next_snapshot lifecycle_event lifecycle_result
  lifecycle_step i v job p b =
      let built = build_chain_job-IsBuilt d.hashing (lifecycle_job d q i v) b in
      record {
        lifecycle = refl;
        still_published = p;
        next_version = refl;
        next_sequence = ap Snapshot.update_count built.next;
        next_head = refl;
        same_handoffs = ap Snapshot.handoff_head built.next;
        event_states = (refl, refl);
        event_version = refl;
        event_sequence = refl;
        event_head = refl;
        answer_lifecycle = refl;
        answer_version = refl;
        answer_sequence = refl;
        answer_head = refl;
      }

  pub moved_again :
      (job : Envelope) (is : List Issue) (i : Issue)
      → find_v2_issue q.public_id q.actor.organization_id is ≡ some i
      → find_v2_issue q.public_id q.actor.organization_id
          (change_issue i.id (moved_issue d.now q.change.to_state job) is)
        ≡ some (moved_issue d.now q.change.to_state job i)
  unfolding moved_issue
  moved_again job is i h =
      find_v2_issue-change_issue q.public_id q.actor.organization_id
        (moved_issue d.now q.change.to_state job) is i (λ j. refl) h
