-- ===== src/Chain/Job/Schema.antt =====
-- apps/web/lib/chain/chainJob.ts: the envelope of a chain job, its validation and its construction.
-- `value: unknown` is an `Option Envelope`: `none` is what the schema refuses for its shape (a
-- missing, extra or wrongly typed field); the patterns and ranges are tested here.
use nagarik_signals.Base.{
  ℕ, ◌&&◌, ◌||◌, false, Bool, Option, none, some, String, List, [], ◌∷◌, ◌==◌, nat_eq, string_eq,
  bool_eq, leb, not, if◌then◌else◌, Result, ok, err, error, guard, any, every,
}
use nagarik_signals.Base.Text.{is_hash_hex, is_uuid_v4}
use nagarik_signals.Domain.Workflow.{LifecycleState, open_state, in_progress, resolved, disputed}
use nagarik_signals.Chain.Protocol.{
  v2_max_sequence, v2_lifecycles, V2Operation, issue_created, metadata_version_committed,
  lifecycle_changed, handoff_checkpointed, operation_eq,
}

pub record Snapshot : Type 0 where
  pub update_count : ℕ
  pub timeline_head : String
  pub handoff_head : String
  pub category : ℕ
  pub lifecycle : ℕ
  pub removed : Bool
  pub metadata_hash : String
  pub evidence_hash : String
  pub location_hash : String

pub record Envelope : Type 0 where
  pub schema_version : String
  pub operation : V2Operation
  pub public_issue_id : String
  pub database_event_id : String
  pub issue_key : String
  pub event_id : String
  pub operation_id : String
  pub payload_hash : String
  pub expected : Snapshot
  pub next : Snapshot

-- `snapshotSchema`, the sequence and the codes being natural numbers.
unfoldable pub snapshot_schema : Snapshot → Bool
snapshot_schema s =
    leb s.update_count v2_max_sequence
    && is_hash_hex s.timeline_head
    && is_hash_hex s.handoff_head
    && leb s.category 6
    && leb s.lifecycle 4
    && is_hash_hex s.metadata_hash
    && is_hash_hex s.evidence_hash
    && is_hash_hex s.location_hash

-- `chainJobSchema`
unfoldable pub chain_job_schema : Envelope → Bool
chain_job_schema j =
    j.schema_version == "nagarik-chain-job-v2"
    && is_uuid_v4 j.public_issue_id
    && is_uuid_v4 j.database_event_id
    && is_hash_hex j.issue_key
    && is_hash_hex j.event_id
    && is_hash_hex j.operation_id
    && is_hash_hex j.payload_hash
    && snapshot_schema j.expected
    && snapshot_schema j.next

unfoldable pub parse_chain_job : Option Envelope → Result Envelope
parse_chain_job none = err (error "ZodError")
parse_chain_job (some j) = if chain_job_schema j then ok j else err (error "ZodError")

-- `'0'.repeat(64)`
abbrev pub zero_hash : String
zero_hash = "0000000000000000000000000000000000000000000000000000000000000000"

unfoldable pub is_zero : String → Bool
is_zero value = value == zero_hash

unfoldable pub allowed_lifecycle_transition : ℕ → ℕ → Bool
allowed_lifecycle_transition from to =
    if from == v2_lifecycles open_state
    then any (λ value. value == to)
        (v2_lifecycles in_progress
          ∷ v2_lifecycles disputed
          ∷ v2_lifecycles LifecycleState.closed
          ∷ [])
    else if from == v2_lifecycles in_progress
    then any (λ value. value == to)
        (v2_lifecycles resolved ∷ v2_lifecycles disputed ∷ v2_lifecycles LifecycleState.closed ∷ [])
    else if from == v2_lifecycles resolved
    then any (λ value. value == to)
        (v2_lifecycles disputed ∷ v2_lifecycles LifecycleState.closed ∷ [])
    else if from == v2_lifecycles disputed
    then any (λ value. value == to)
        (v2_lifecycles open_state
          ∷ v2_lifecycles in_progress
          ∷ v2_lifecycles resolved
          ∷ v2_lifecycles LifecycleState.closed
          ∷ [])
    else false

-- `keyof ChainJobEnvelope['expected']`, those that the code compares.
pub data Field : Type 0 where
  category_field lifecycle_field removed_field metadata_field evidence_field : Field
  location_field : Field

abbrev pub same_field : Snapshot → Snapshot → Field → Bool
same_field a b category_field = a.category == b.category
same_field a b lifecycle_field = a.lifecycle == b.lifecycle
same_field a b removed_field = a.removed == b.removed
same_field a b metadata_field = a.metadata_hash == b.metadata_hash
same_field a b evidence_field = a.evidence_hash == b.evidence_hash
same_field a b location_field = a.location_hash == b.location_hash

unfoldable pub unchanged : Snapshot → Snapshot → List Field → Bool
unchanged expected next fields = every (same_field expected next) fields

abbrev common_snapshot : List Field
common_snapshot =
    category_field ∷ lifecycle_field ∷ removed_field ∷ metadata_field ∷ evidence_field
    ∷ location_field ∷ []

create_snapshot_invalid : Snapshot → Snapshot → Bool
create_snapshot_invalid expected next =
    not (expected.update_count == 0)
    || not (is_zero expected.timeline_head)
    || not (is_zero expected.handoff_head)
    || not (is_zero expected.metadata_hash)
    || not (is_zero expected.evidence_hash)
    || not (is_zero expected.location_hash)
    || expected.removed
    || not (next.lifecycle == v2_lifecycles open_state)
    || next.removed
    || is_zero next.metadata_hash
    || is_zero next.evidence_hash
    || is_zero next.location_hash

metadata_snapshot_invalid : Snapshot → Snapshot → Bool
metadata_snapshot_invalid expected next =
    not (unchanged expected next (lifecycle_field ∷ removed_field ∷ []))
    || is_zero next.metadata_hash
    || is_zero next.evidence_hash
    || is_zero next.location_hash

lifecycle_snapshot_invalid : Snapshot → Snapshot → Bool
lifecycle_snapshot_invalid expected next =
    not (
      unchanged expected next
        (category_field ∷ removed_field ∷ metadata_field ∷ evidence_field ∷ location_field ∷ []))
    || not (allowed_lifecycle_transition expected.lifecycle next.lifecycle)

removal_snapshot_invalid : Snapshot → Snapshot → Bool
removal_snapshot_invalid expected next =
    not next.removed
    || is_zero next.metadata_hash
    || not (
        unchanged expected next
          (category_field ∷ lifecycle_field ∷ evidence_field ∷ location_field ∷ []))

-- The tests after the one for a removed issue.
later_semantics : V2Operation → Snapshot → Snapshot → Result (Unit {0})
later_semantics metadata_version_committed expected next =
    guard (not (metadata_snapshot_invalid expected next))
      (error "chain_job_metadata_snapshot_invalid")
later_semantics lifecycle_changed expected next =
    guard (not (lifecycle_snapshot_invalid expected next))
      (error "chain_job_lifecycle_snapshot_invalid")
later_semantics handoff_checkpointed expected next =
    guard (unchanged expected next common_snapshot) (error "chain_job_handoff_snapshot_invalid")
later_semantics _ expected next =
    guard (not (removal_snapshot_invalid expected next))
      (error "chain_job_removal_snapshot_invalid")

unfoldable pub operation_semantics : V2Operation → Snapshot → Snapshot → Result (Unit {0})
unfolding later_semantics create_snapshot_invalid metadata_snapshot_invalid
    lifecycle_snapshot_invalid removal_snapshot_invalid
operation_semantics operation expected next =
    if operation == issue_created
    then guard (not (create_snapshot_invalid expected next))
        (error "chain_job_create_snapshot_invalid")
    else (if expected.removed
        then err (error "chain_job_issue_removed")
        else later_semantics operation expected next)

abbrev pub validate_operation_semantics : Envelope → Result (Unit {0})
validate_operation_semantics job = operation_semantics job.operation job.expected job.next
