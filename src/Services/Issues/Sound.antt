-- ===== src/Services/Issues/Sound.antt =====
-- Issues whose rows hold what the chain jobs demand of them, and the snapshots of such issues.
use nagarik_signals.Base.{◌≡◌, ◌≤◌, ◌+◌, true, arith, le→leb}
use nagarik_signals.Base.Text.{is_hash_hex}
use nagarik_signals.Domain.Workflow.{LifecycleState}
use nagarik_signals.Chain.Protocol.{v2_lifecycles, v2_max_sequence}
use nagarik_signals.Chain.Job.Schema.{snapshot_schema}
use nagarik_signals.Services.Issues.{Issue, Version, Category, v2_categories, issue_snapshot}

pub record IsSound (i : Issue) (v : Version) : Type 0 where
  pub timeline : is_hash_hex i.projected_timeline_head ≡ true
  pub handoff : is_hash_hex i.projected_handoff_head ≡ true
  pub metadata : is_hash_hex v.metadata_hash ≡ true
  pub evidence : is_hash_hex v.evidence_hash ≡ true
  pub location : is_hash_hex v.location_hash ≡ true
  pub room : i.checkpoint_update_count + 1 ≤ v2_max_sequence

pub v2_categories-le : (c : Category) → v2_categories c ≤ 6
v2_categories-le c = ground arith

pub v2_lifecycles-le : (l : LifecycleState) → v2_lifecycles l ≤ 4
v2_lifecycles-le l = ground arith

pub issue_snapshot-snapshot_schema :
    (i : Issue) (v : Version) → IsSound i v → snapshot_schema (issue_snapshot i v) ≡ true
unfolding issue_snapshot snapshot_schema
issue_snapshot-snapshot_schema i v s =
    rw
      (
        le→leb i.checkpoint_update_count v2_max_sequence (omega (arith, s.room)),
        s.timeline,
        s.handoff,
        le→leb _ _ (v2_categories-le v.category),
        le→leb _ _ (v2_lifecycles-le i.lifecycle),
        s.metadata,
        s.evidence,
      )
      s.location
