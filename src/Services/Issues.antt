-- ===== src/Services/Issues.antt =====
-- The tables of supabase/migrations/20260731000200_core.sql that the operators' services of
-- apps/web/lib/services share: issues, their versions and events, the outbox and the audit log. A
-- transaction that throws changes nothing, so its body gives a result or an error. A `bytea` column is
-- held as lowercase hexadecimal text, a time in milliseconds.
pub mod Inversion
pub mod Sound
pub mod Changed
pub mod Queued
use nagarik_signals.Base.{
  ℕ, ◌&&◌, ◌||◌, true, false, not, Bool, Option, none, some, String, List, [], ◌∷◌, ◌++◌, ◌==◌, Eq,
  nat_beq, nat_eq, string_eq, any, if◌then◌else◌, Result, ok, err, error, ◌↔◌, ◌≡◌, arith,
}
use nagarik_signals.Domain.Workflow.{LifecycleState, open_state, in_progress, resolved, disputed}
use nagarik_signals.Chain.Protocol.{V2Operation, operation_name, v2_lifecycles}
use nagarik_signals.Chain.Job.Schema.{Snapshot, Envelope}
use nagarik_signals.Chain.Outbox.Store.{JobRow, pending}
use nagarik_signals.Proof.Canonical.{Json, Members}
use nagarik_signals.Services.Idempotency.{IdempotencyRecord}
use nagarik_signals.Services.Switches.{CapabilityName, SwitchRow, find_switch}

pub data PublicationState : Type 0 where
  not_published commit_pending published superseded removed : PublicationState

abbrev publication_index : PublicationState → ℕ
publication_index not_published = 0
publication_index commit_pending = 1
publication_index published = 2
publication_index superseded = 3
publication_index removed = 4

pub publication_index_iff :
    (a b : PublicationState)
    → (nat_beq (publication_index a) (publication_index b) ≡ true) ↔ (a ≡ b)
publication_index_iff a b = ground arith

instance abbrev pub publication_eq : Eq PublicationState
publication_eq = record {
  equals = λ a b. nat_beq (publication_index a) (publication_index b);
  equals_iff = publication_index_iff;
}

pub data Category : Type 0 where
  road waste water electricity_lighting public_facility : Category
  public_safety_hazard other_public_infrastructure : Category

-- `v2Categories`
abbrev pub v2_categories : Category → ℕ
v2_categories road = 0
v2_categories waste = 1
v2_categories water = 2
v2_categories electricity_lighting = 3
v2_categories public_facility = 4
v2_categories public_safety_hazard = 5
v2_categories other_public_infrastructure = 6

abbrev pub lifecycle_name : LifecycleState → String
lifecycle_name open_state = "open"
lifecycle_name in_progress = "in_progress"
lifecycle_name resolved = "resolved"
lifecycle_name LifecycleState.closed = "closed"
lifecycle_name disputed = "disputed"

pub data RecordKind : Type 0 where
  community_report public_source : RecordKind

-- A row of `nagarik.issues`; one of workflow v2 always has a lifecycle.
pub record Issue : Type 0 where
  pub id : String
  pub public_id : String
  pub organization_id : String
  pub is_v2 : Bool
  pub publication_state : PublicationState
  pub lifecycle : LifecycleState
  pub current_version_id : String
  pub domain_version : ℕ
  pub checkpoint_update_count : ℕ
  pub projected_timeline_head : String
  pub projected_handoff_head : String
  pub blocked_from_sequence : Option ℕ
  pub source_submission_id : Option String
  pub record_kind : RecordKind
  pub updated_at : ℕ

-- A row of `nagarik.issue_versions`, whose JSON columns hold objects; a missing media id is empty.
pub record Version : Type 0 where
  pub id : String
  pub issue_id : String
  pub version_number : ℕ
  pub state : PublicationState
  pub title : String
  pub narrative : String
  pub category : Category
  pub ward_id : String
  pub ward_label : String
  pub locality_label : Option String
  pub public_location : Members
  pub public_media_id : String
  pub public_provenance : Members
  pub metadata_hash : String
  pub evidence_hash : String
  pub location_hash : String
  pub public_reason : Option String
  pub created_at : ℕ

-- A row of `nagarik.lifecycle_events`.
pub record LifecycleEvent : Type 0 where
  pub id : String
  pub issue_id : String
  pub issue_version_id : String
  pub workflow_version : ℕ
  pub workflow_head : String
  pub from_state : LifecycleState
  pub to_state : LifecycleState
  pub reason_code : String
  pub public_note : Option String
  pub observed_at : Option String
  pub public_event : Json
  pub chain_sequence : ℕ
  pub created_by : String
  pub created_at : ℕ

-- A row of `nagarik.audit_events` that an operator's change leaves.
pub record AuditRow : Type 0 where
  pub id : String
  pub organization_id : String
  pub actor_type : String
  pub actor_key : String
  pub action : String
  pub resource_type : String
  pub resource_id : String
  pub request_id : String
  pub detail : Json
  pub occurred_at : ℕ

pub record IssueTables (R : Type 0) : Type 0 where
  pub records : List (IdempotencyRecord R)
  pub switches : List SwitchRow
  pub issues : List Issue
  pub versions : List Version
  pub lifecycle_events : List LifecycleEvent
  pub jobs : List JobRow
  pub audit : List AuditRow

-- `nagarik.is_capability_enabled`
unfoldable pub is_capability_enabled : CapabilityName → List SwitchRow → Bool
is_capability_enabled c ss = elim (find_switch c ss) [ none ↦ false | some s ↦ not s.disabled ]

-- An insert, where two rows that clash violate a unique constraint.
unfoldable pub insert_row : {A : Type 0} → (A → A → Bool) → A → List A → Result (List A)
insert_row clash row rows =
    if any (clash row) rows then err (error "unique_violation") else ok (rows ++ (row ∷ []))

abbrev pub same_lifecycle_event : LifecycleEvent → LifecycleEvent → Bool
same_lifecycle_event a b =
    a.id == b.id
    || a.issue_id == b.issue_id && a.workflow_version == b.workflow_version
    || a.issue_id == b.issue_id && a.chain_sequence == b.chain_sequence

abbrev pub same_job : JobRow → JobRow → Bool
same_job a b = a.id == b.id || a.operation_id == b.operation_id

abbrev pub same_audit : AuditRow → AuditRow → Bool
same_audit a b = a.id == b.id

-- `where issue.public_id = $1 and issue.organization_id = $2 and issue.workflow_version = 'v2'`
unfoldable pub find_v2_issue : (public_id organization_id : String) → List Issue → Option Issue
find_v2_issue public_id organization_id [] = none
find_v2_issue public_id organization_id (i ∷ is) =
    if i.public_id == public_id && i.organization_id == organization_id && i.is_v2
    then some i
    else find_v2_issue public_id organization_id is

unfoldable pub find_version : String → List Version → Option Version
find_version id [] = none
find_version id (v ∷ vs) = if v.id == id then some v else find_version id vs

abbrev pub paired : Issue → Option Version → Option (Issue × Version)
paired i none = none
paired i (some v) = some (i, v)

-- `join nagarik.issue_versions version on version.id = issue.current_version_id`
unfoldable pub with_version : Option Issue → List Version → Option (Issue × Version)
with_version none vs = none
with_version (some i) vs = paired i (find_version i.current_version_id vs)

unfoldable pub change_issue : String → (Issue → Issue) → List Issue → List Issue
change_issue id f [] = []
change_issue id f (i ∷ is) =
    if i.id == id then f i ∷ change_issue id f is else i ∷ change_issue id f is

-- `expected`: what the rows say of an issue that is not removed.
unfoldable pub issue_snapshot : Issue → Version → Snapshot
issue_snapshot i v = record {
  update_count = i.checkpoint_update_count;
  timeline_head = i.projected_timeline_head;
  handoff_head = i.projected_handoff_head;
  category = v2_categories v.category;
  lifecycle = v2_lifecycles i.lifecycle;
  removed = false;
  metadata_hash = v.metadata_hash;
  evidence_hash = v.evidence_hash;
  location_hash = v.location_hash;
}

-- The row that is put into the outbox for a chain job.
unfoldable pub outbox_row : (id issue_id version_id : String) → Envelope → ℕ → JobRow
outbox_row id issue_id version_id job now = record {
  id = id;
  operation_id = job.operation_id;
  issue_id = issue_id;
  issue_version_id = some version_id;
  operation_type = operation_name job.operation;
  chain_sequence = job.next.update_count;
  event_id = job.event_id;
  canonical_payload = some job;
  payload_hash = job.payload_hash;
  state = pending;
  attempt_count = 0;
  available_at = now;
  lease_owner = none;
  lease_expires_at = none;
  submitted_signature = none;
  last_error_category = none;
  updated_at = now;
}
