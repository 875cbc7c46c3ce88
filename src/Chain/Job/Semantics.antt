-- ===== src/Chain/Job/Semantics.antt =====
-- What the semantic checks of apps/web/lib/chain/chainJob.ts allow, operation by operation.
use nagarik_signals.Base.{◌≡◌, ◌≢◌, ◌↔◌, true, false, arith, ==_iff, string_eq, ok}
use nagarik_signals.Domain.Workflow.{LifecycleState, assert_lifecycle_transition, lifecycle_eq}
use nagarik_signals.Chain.Protocol.{
  V2Operation, issue_created, metadata_version_committed, lifecycle_changed, handoff_checkpointed,
  publication_removed, v2_lifecycles, operation_eq,
}
use nagarik_signals.Chain.Job.Schema.{
  Snapshot, zero_hash, is_zero, allowed_lifecycle_transition, unchanged, operation_semantics,
}

-- The numeric table of the chain job and the table of the workflow allow the same changes.
pub allowed_lifecycle_transition_iff :
    (from to : LifecycleState)
    → (allowed_lifecycle_transition (v2_lifecycles from) (v2_lifecycles to) ≡ true)
      ↔ (assert_lifecycle_transition from to ≡ ok tt)
unfolding allowed_lifecycle_transition assert_lifecycle_transition
allowed_lifecycle_transition_iff from to = ground arith

-- The parts of a snapshot that describe the issue, without its counters and heads.
abbrev SameEvidence : Snapshot → Snapshot → Type 0
SameEvidence e n =
    (e.category ≡ n.category)
    × (e.evidence_hash ≡ n.evidence_hash)
    × (e.location_hash ≡ n.location_hash)

abbrev HasHashes : Snapshot → Type 0
HasHashes n =
    (n.metadata_hash ≢ zero_hash) × (n.evidence_hash ≢ zero_hash) × (n.location_hash ≢ zero_hash)

-- What each operation may do to an issue, stated without the code's tests.
abbrev pub IsLegal : V2Operation → Snapshot → Snapshot → Type 0
IsLegal issue_created e n =
    (e.update_count ≡ 0)
    × (e.timeline_head ≡ zero_hash)
    × (e.handoff_head ≡ zero_hash)
    × (e.metadata_hash ≡ zero_hash)
    × (e.evidence_hash ≡ zero_hash)
    × (e.location_hash ≡ zero_hash)
    × (e.removed ≡ false)
    × (n.lifecycle ≡ 0)
    × (n.removed ≡ false)
    × HasHashes n
IsLegal metadata_version_committed e n =
    (e.removed ≡ false) × (n.removed ≡ false) × (e.lifecycle ≡ n.lifecycle) × HasHashes n
IsLegal lifecycle_changed e n =
    (e.removed ≡ false)
    × (n.removed ≡ false)
    × SameEvidence e n
    × (e.metadata_hash ≡ n.metadata_hash)
    × (allowed_lifecycle_transition e.lifecycle n.lifecycle ≡ true)
IsLegal handoff_checkpointed e n =
    (e.removed ≡ false)
    × (n.removed ≡ false)
    × SameEvidence e n
    × (e.metadata_hash ≡ n.metadata_hash)
    × (e.lifecycle ≡ n.lifecycle)
IsLegal publication_removed e n =
    (e.removed ≡ false)
    × (n.removed ≡ true)
    × SameEvidence e n
    × (e.lifecycle ≡ n.lifecycle)
    × (n.metadata_hash ≢ zero_hash)

-- The checks accept exactly the legal changes.
pub operation_semantics_iff :
    (operation : V2Operation) (e n : Snapshot)
    → (operation_semantics operation e n ≡ ok tt) ↔ IsLegal operation e n
unfolding operation_semantics unchanged is_zero
operation_semantics_iff issue_created e n = ground (
  arith,
  ==_iff e.timeline_head zero_hash,
  ==_iff e.handoff_head zero_hash,
  ==_iff e.metadata_hash zero_hash,
  ==_iff e.evidence_hash zero_hash,
  ==_iff e.location_hash zero_hash,
  ==_iff n.metadata_hash zero_hash,
  ==_iff n.evidence_hash zero_hash,
  ==_iff n.location_hash zero_hash,
)
operation_semantics_iff _ e n = ground (
  arith,
  ==_iff n.metadata_hash zero_hash,
  ==_iff n.evidence_hash zero_hash,
  ==_iff n.location_hash zero_hash,
  ==_iff e.metadata_hash n.metadata_hash,
  ==_iff e.evidence_hash n.evidence_hash,
  ==_iff e.location_hash n.location_hash,
)
