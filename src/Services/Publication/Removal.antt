-- ===== src/Services/Publication/Removal.antt =====
-- apps/web/lib/services/publication.ts: the rows that `removePublishedIssue` writes. Its transaction is
-- in Remove.
pub mod Restriction
pub mod Rows
pub mod Remove
pub mod Laws
pub mod Legacy
pub mod Outcome
pub mod Pending
use Prim.Native.String.{◌++◌}
use nagarik_signals.Base.{
  ℕ, Bool, true, false, Option, none, some, String, List, [], ◌∷◌, ◌==◌, string_eq, if◌then◌else◌,
}
use nagarik_signals.Domain.Workflow.{LifecycleState}
use nagarik_signals.Proof.Canonical.{Json, number, text, object, Members, no_members, member}
use nagarik_signals.Services.Operations.{Operator, MutationRequest}
use nagarik_signals.Services.Issues.{PublicationState, Category}
use nagarik_signals.Services.Publication.{PublicationTables}

-- `RemovalInput`
pub record RemovalInput : Type 0 where
  pub expected_domain_version : ℕ
  pub expected_timeline_head : String
  pub reason_code : String
  pub public_message : String
  pub private_note : String
  pub cache_purge_reference : String

-- `StableRemovalResult`; it is pending unless the issue is a legacy one.
pub record RemovalResult : Type 0 where
  pub public_id : String
  pub pending : Bool
  pub domain_version : ℕ
  pub chain_sequence : Option ℕ
  pub timeline_head : String

pub record RemovalRequest : Type 0 where
  pub public_id : String
  pub idempotency_key : String
  pub actor : Operator
  pub removal : RemovalInput

pub data PrivacyState : Type 0 where
  received checked in_review information_requested : PrivacyState
  fulfilled partially_fulfilled denied withdrawn : PrivacyState

-- A row of `nagarik.privacy_requests` that asks for an erasure.
pub record PrivacyRequest : Type 0 where
  pub id : String
  pub organization_id : String
  pub target_id : String
  pub description : String
  pub state : PrivacyState
  pub outcome_public : Option String
  pub created_at : ℕ
  pub closed_at : Option ℕ

-- A row of `nagarik.access_overlays` that restricts an issue.
pub record AccessOverlay : Type 0 where
  pub id : String
  pub privacy_request_id : String
  pub issue_id : String
  pub overlay_version : ℕ
  pub reason_category : String
  pub decision_event_id : String
  pub created_by : String
  pub created_at : ℕ

-- What a row of `public.issue_projection` shows; these columns are set and cleared together.
pub record PublicContent : Type 0 where
  pub version_id : String
  pub title : String
  pub summary : String
  pub narrative : String
  pub category : Category
  pub ward : Json
  pub location : Members
  pub media_id : String
  pub provenance : Members
  pub lifecycle : LifecycleState

pub record PublicIssue : Type 0 where
  pub public_id : String
  pub is_v2 : Bool
  pub publication_state : PublicationState
  pub content : Option PublicContent
  pub tombstone : Option Json
  pub updated_at : ℕ

-- A row of `public.media_projection`.
pub record PublicMedia : Type 0 where
  pub media_id : String
  pub eligible : Bool
  pub updated_at : ℕ

-- A row of `nagarik.recovery_ledger`.
pub record RecoveryEntry : Type 0 where
  pub id : String
  pub organization_id : String
  pub opaque_record_id : String
  pub integrity_hash : String
  pub occurred_at : ℕ

pub record RemovalTables : Type 0 where
  pub rows : PublicationTables RemovalResult
  pub privacy_requests : List PrivacyRequest
  pub overlays : List AccessOverlay
  pub public_issues : List PublicIssue
  pub public_media : List PublicMedia
  pub recovery : List RecoveryEntry

unfoldable pub removal_request : RemovalRequest → MutationRequest
removal_request q = record {
  scope = "operator:removal:" ++ q.public_id;
  actor = q.actor;
  idempotency_key = q.idempotency_key;
  request = object (
      member "expectedDomainVersion" (number q.removal.expected_domain_version) (
        member "expectedTimelineHead" (text q.removal.expected_timeline_head) (
          member "reasonCode" (text q.removal.reason_code) (
            member "publicMessage" (text q.removal.public_message) (
              member "privateNote" (text q.removal.private_note) (
                member "cachePurgeReference" (text q.removal.cache_purge_reference)
                  no_members))))));
}

unfoldable pub change_public_issue :
    (PublicIssue → Bool) → (PublicIssue → PublicIssue) → List PublicIssue → List PublicIssue
change_public_issue p f [] = []
change_public_issue p f (i ∷ is) =
    if p i then f i ∷ change_public_issue p f is else i ∷ change_public_issue p f is

unfoldable pub hide_media : (media_id : String) → (now : ℕ) → List PublicMedia → List PublicMedia
hide_media id now [] = []
hide_media id now (m ∷ ms) =
    if m.media_id == id
    then record m { eligible = false; updated_at = now } ∷ hide_media id now ms
    else m ∷ hide_media id now ms
