-- ===== src/Services/Lifecycle/Accepted.antt =====
-- The job of a lifecycle change that passes its checks is built, and the outbox worker accepts it.
use nagarik_signals.Base.{
  ℕ, ◌+◌, ◌≤◌, String, arith, subst, ap, ◌≡◌, ◌≢◌, refl, true, some, includes, ok,
}
use nagarik_signals.Base.Text.{is_uuid_v4, is_hash_hex}
use nagarik_signals.Base.Hex.{is_hash_hex-to_hex}
use nagarik_signals.Domain.Workflow.{
  LifecycleState, lifecycle_eq, lifecycle_transitions, assert_lifecycle_transition,
}
use nagarik_signals.Chain.Protocol.{Hashing, v2_max_sequence}
use nagarik_signals.Chain.Job.Schema.{
  Snapshot, Envelope, zero_hash, snapshot_schema, chain_job_schema,
}
use nagarik_signals.Chain.Job.Codec.{
  next_snapshot, build_chain_job, PreparedChainJob, prepare_chain_job,
}
use nagarik_signals.Chain.Job.Semantics.{allowed_lifecycle_transition_iff}
use nagarik_signals.Chain.Job.Build.{IsBuildable, prepare_chain_job-build_chain_job}
use nagarik_signals.Chain.Job.Built.{build_chain_job-IsBuilt}
use nagarik_signals.Chain.Job.Laws.{prepare_chain_job_sound}
use nagarik_signals.Chain.Outbox.Claim.{leased_row}
use nagarik_signals.Chain.Outbox.Matching.{prepare_chain_outbox_record}
use nagarik_signals.Proof.Canonical.{Json, json_hash}
use nagarik_signals.Security.Ids.Uuid.{deterministic_uuid_v4-is_uuid_v4}
use nagarik_signals.Services.Operations.{OperatorDependencies}
use nagarik_signals.Services.Issues.{Issue, Version, issue_snapshot, outbox_row}
use nagarik_signals.Services.Issues.Queued.{prepare_chain_outbox_record-outbox_row}
use nagarik_signals.Services.Issues.Sound.{
  IsSound, issue_snapshot-snapshot_schema, v2_categories-le, v2_lifecycles-le,
}
use nagarik_signals.Services.Lifecycle.Laws.{check_lifecycle-IsChangeable}
use nagarik_signals.Services.Lifecycle.Change.{lifecycle_outbox_id}
use nagarik_signals.Services.Lifecycle.{
  LifecycleRequest, public_event, lifecycle_event_id, lifecycle_job, moved_issue, check_lifecycle,
}

pub json_hash-is_hash_hex : (h : Hashing) (j : Json) → is_hash_hex (json_hash h j) ≡ true
unfolding json_hash
json_hash-is_hash_hex h j = is_hash_hex-to_hex _ (h.sha256_length _) (h.sha256_bytes _)

module _ (d : OperatorDependencies) (q : LifecycleRequest) (i : Issue) (v : Version) where
  lifecycle_job-IsBuildable :
      is_uuid_v4 q.public_id ≡ true
      → IsSound i v
      → assert_lifecycle_transition i.lifecycle q.change.to_state ≡ ok tt
      → json_hash d.hashing (public_event q i.lifecycle d.now) ≢ zero_hash
      → IsBuildable (lifecycle_job d q i v)
  unfolding lifecycle_job lifecycle_event_id issue_snapshot next_snapshot
  lifecycle_job-IsBuildable u s allowed nonzero = record {
    issue_uuid = u;
    event_uuid = deterministic_uuid_v4-is_uuid_v4 d.hashing _ _;
    payload = json_hash-is_hash_hex d.hashing _;
    payload_set = nonzero;
    expected = issue_snapshot-snapshot_schema i v s;
    room = s.room;
    category = v2_categories-le v.category;
    lifecycle = v2_lifecycles-le q.change.to_state;
    metadata = s.metadata;
    evidence = s.evidence;
    location = s.location;
    legal = (
      refl,
      refl,
      (refl, refl, refl),
      refl,
      (allowed_lifecycle_transition_iff i.lifecycle q.change.to_state).1 allowed,
    );
  }

assert-includes :
    (a b : LifecycleState)
    → includes (lifecycle_transitions a) b ≡ true
    → assert_lifecycle_transition a b ≡ ok tt
unfolding assert_lifecycle_transition
assert-includes a b h = rw h

-- The next snapshot of a well-formed envelope is well formed.
schema-next : (j : Envelope) → chain_job_schema j ≡ true → snapshot_schema j.next ≡ true
unfolding chain_job_schema
schema-next j h = ground arith

schema-heads :
    (s : Snapshot)
    → snapshot_schema s ≡ true
    → (is_hash_hex s.timeline_head ≡ true) × (is_hash_hex s.handoff_head ≡ true)
unfolding snapshot_schema
schema-heads s h = ground arith

-- How the outbox worker takes the job of a lifecycle change.
pub record IsAccepted (d : OperatorDependencies) (q : LifecycleRequest) (i : Issue) (v : Version)
    : Type 0 where
  pub job : Envelope
  pub prepared : PreparedChainJob
  pub built : build_chain_job d.hashing (lifecycle_job d q i v) ≡ ok job
  pub accepted : prepare_chain_job d.hashing (some job) ≡ ok prepared
  pub same : prepared.envelope ≡ job
  pub readable :
      (owner : String) (seconds at : ℕ)
      → prepare_chain_outbox_record d.hashing
          (leased_row owner seconds at (outbox_row (lifecycle_outbox_id d q) i.id v.id job d.now))
        ≡ ok prepared
  pub sound_after :
      i.checkpoint_update_count + 2 ≤ v2_max_sequence
      → IsSound (moved_issue d.now q.change.to_state job i) v

moved_issue-IsSound :
    (d : OperatorDependencies) (q : LifecycleRequest) (i : Issue) (v : Version) (j : Envelope)
    → IsSound i v
    → build_chain_job d.hashing (lifecycle_job d q i v) ≡ ok j
    → snapshot_schema j.next ≡ true
    → i.checkpoint_update_count + 2 ≤ v2_max_sequence
    → IsSound (moved_issue d.now q.change.to_state j i) v
unfolding moved_issue lifecycle_job issue_snapshot next_snapshot
moved_issue-IsSound d q i v j s b schema room =
    let count : j.next.update_count ≡ i.checkpoint_update_count + 1 =
      ap Snapshot.update_count (build_chain_job-IsBuilt d.hashing (lifecycle_job d q i v) b).next in
    let (timeline, handoff) = schema-heads j.next schema in
    record {
      timeline = timeline;
      handoff = handoff;
      metadata = s.metadata;
      evidence = s.evidence;
      location = s.location;
      room = omega arith;
    }

-- The job of a lifecycle change is built, `prepareChainJob` accepts it with the job as its envelope, and
-- the worker reads the same job from the row that the service queues, whoever has leased the row, if the
-- change passes the checks of the service, the rows hold hexadecimal hashes and leave room for one more
-- update, the issue's public id is a uuid of version 4, and the digest of the event is not all zeros. The
-- issue as it is written meets the conditions on the rows again, if it leaves room for the next update.
pub lifecycle_job-IsAccepted :
    (d : OperatorDependencies) (q : LifecycleRequest) (i : Issue) (v : Version)
    → is_uuid_v4 q.public_id ≡ true
    → IsSound i v
    → check_lifecycle q.change i ≡ ok tt
    → json_hash d.hashing (public_event q i.lifecycle d.now) ≢ zero_hash
    → IsAccepted d q i v
lifecycle_job-IsAccepted d q i v u s checked nonzero =
    let c = check_lifecycle-IsChangeable q.change i checked in
    let (j, p, built, accepted, same) =
      prepare_chain_job-build_chain_job d.hashing (lifecycle_job d q i v) (
        lifecycle_job-IsBuildable d q i v u s
          (assert-includes i.lifecycle q.change.to_state c.allowed) nonzero) in
    let schema : snapshot_schema j.next ≡ true =
      subst (λ k. snapshot_schema k.next ≡ true) same
        (schema-next p.envelope (prepare_chain_job_sound d.hashing (some j) p accepted).1) in
    record {
      job = j;
      prepared = p;
      built = built;
      accepted = accepted;
      same = same;
      readable = λ owner seconds at.
          prepare_chain_outbox_record-outbox_row d.hashing (lifecycle_outbox_id d q) i.id v.id owner
            d.now seconds at j p accepted same;
      sound_after = moved_issue-IsSound d q i v j s built schema;
    }
