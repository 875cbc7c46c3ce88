-- ===== src/Services/Moderation.antt =====
-- apps/web/lib/services/moderation.ts: how an operator moderates a submission. The tables and the
-- requests are here, the rows that are written in Rows and Records, an approval in Approval, the transaction in Moderate. `JSON.parse`
-- is a parameter.
pub mod Rows
pub mod Records
pub mod Approval
pub mod Moderate
pub mod Received
pub mod Spent
pub mod Approved
pub mod Decided
pub mod Laws
use Prim.Native.String.{◌++◌}
use nagarik_signals.Base.{
  ℕ, ◌&&◌, ◌||◌, Bool, true, false, not, Option, none, some, String, List, [], ◌∷◌, ◌==◌, nat_eq,
  string_eq, if◌then◌else◌, Result, ok, err, error, coded, guard, ◌>>◌, ◌>>=◌,
}
use nagarik_signals.Domain.Workflow.{
  SubmissionState, received, under_review, changes_requested, revision_pending, approved, rejected,
  withdrawn, expired, assert_submission_transition,
}
use nagarik_signals.Proof.Canonical.{
  Json, null, boolean, number, text, array, object, Members, no_members, member,
}
use nagarik_signals.Security.Ids.{first_chars}
use nagarik_signals.Security.Capabilities.{CapabilityKeys}
use nagarik_signals.Security.Receipts.{CapabilityRow}
use nagarik_signals.Services.Operations.{Operator, OperatorDependencies, MutationRequest}
use nagarik_signals.Services.Issues.{Category, RecordKind}
use nagarik_signals.Services.Media.{MediaObject, find_media}
use nagarik_signals.Services.Publication.{PublicCopy, PublicationTables, text_or_null}

pub data Decision : Type 0 where
  start_review request_changes approve reject : Decision

abbrev pub decision_name : Decision → String
decision_name start_review = "start_review"
decision_name request_changes = "request_changes"
decision_name approve = "approve"
decision_name reject = "reject"

-- `ModerationInput`
pub record ModerationInput : Type 0 where
  pub decision : Decision
  pub expected_version : ℕ
  pub reason_code : String
  pub private_note : Option String
  pub public_safe_message : Option String
  pub public_copy : Option PublicCopy
  pub media_binding_receipt : Option String

abbrev is_given : {A : Type 0} → Option A → Bool
is_given none = false
is_given (some a) = true

-- The refinement of `moderationInputSchema`: the copy and the receipt belong to an approval.
unfoldable pub moderation_refined : Decision → ModerationInput → Bool
moderation_refined approve m = is_given m.public_copy && is_given m.media_binding_receipt
moderation_refined _ m = not (is_given m.public_copy || is_given m.media_binding_receipt)

unfoldable pub parse_moderation_input : ModerationInput → Result ModerationInput
parse_moderation_input m = do
  guard (moderation_refined m.decision m) (coded "moderation_invalid" 400)
  ok m

pub record PublishedIssue : Type 0 where
  pub issue_id : String
  pub public_id : String
  pub version_id : String
  pub chain_sequence : ℕ
  pub timeline_head : String

-- `StableModerationResult`; an issue's publication state is always `commit_pending`.
pub record ModerationResult : Type 0 where
  pub submission_id : String
  pub state : SubmissionState
  pub version : ℕ
  pub issue : Option PublishedIssue

-- A row of `nagarik.submissions`.
pub record Submission : Type 0 where
  pub id : String
  pub organization_id : String
  pub record_kind : RecordKind
  pub state : SubmissionState
  pub version : ℕ
  pub current_revision_number : ℕ
  pub assigned_to : Option String
  pub first_review_at : Option ℕ
  pub terminal_at : Option ℕ
  pub updated_at : ℕ

-- A row of `nagarik.submission_revisions`, whose provenance is an object.
pub record Revision : Type 0 where
  pub id : String
  pub submission_id : String
  pub revision_number : ℕ
  pub title : String
  pub narrative : String
  pub category : Category
  pub observed_on : String
  pub ward_id : String
  pub locality_label : Option String
  pub provenance_private : Members

-- A row of `nagarik.submission_media`.
pub record MediaLink : Type 0 where
  pub revision_id : String
  pub media_id : String
  pub position : ℕ

-- A row of `nagarik.moderation_events`.
pub record ModerationEvent : Type 0 where
  pub id : String
  pub submission_id : String
  pub submission_version : ℕ
  pub actor_subject : String
  pub event_type : Decision
  pub reason_code : String
  pub private_note : Option String
  pub public_safe_message : Option String
  pub created_at : ℕ

-- A row of `nagarik.capabilities`.
pub record Capability : Type 0 where
  pub row : CapabilityRow
  pub open row use *
  pub consumed_at : Option ℕ

pub record ModerationTables : Type 0 where
  pub publications : PublicationTables ModerationResult
  pub submissions : List Submission
  pub revisions : List Revision
  pub links : List MediaLink
  pub capabilities : List Capability
  pub moderation_events : List ModerationEvent

pub record ModerationRequest : Type 0 where
  pub submission_id : String
  pub idempotency_key : String
  pub actor : Operator
  pub moderation : ModerationInput

pub record ModerationDependencies : Type 0 where
  pub operations : OperatorDependencies
  pub open operations use *
  pub keys : CapabilityKeys
  pub parse_json : String → Option Json

-- A field that may be missing.
abbrev member_if : String → Option Json → Members → Members
member_if key none ms = ms
member_if key (some j) ms = member key j ms

abbrev copy_json : PublicCopy → Json
copy_json copy = object (
    member "title" (text copy.title) (
      member "narrative" (text copy.narrative) (
        member "wardLabel" (text copy.ward_label) (
          member "localityLabel" (text_or_null copy.locality_label)
            (member "publicReason" (text_or_null copy.public_reason) no_members)))))

unfoldable pub moderation_request : ModerationRequest → MutationRequest
moderation_request q = record {
  scope = "operator:moderation:" ++ q.submission_id;
  actor = q.actor;
  idempotency_key = q.idempotency_key;
  request = object (
      member "decision" (text (decision_name q.moderation.decision)) (
        member "expectedVersion" (number q.moderation.expected_version) (
          member "reasonCode" (text q.moderation.reason_code) (
            member "privateNote" (text_or_null q.moderation.private_note) (
              member "publicSafeMessage" (text_or_null q.moderation.public_safe_message) (
                member_if "publicCopy"
                  (elim q.moderation.public_copy [ none ↦ none | some c ↦ some (copy_json c) ])
                  (member_if "mediaBindingReceipt"
                    (elim q.moderation.media_binding_receipt [
                      | none ↦ none
                      | some r ↦ some (text r)
                    ])
                    no_members)))))));
}

-- `objectValue`
unfoldable pub parsed_object : Option Json → Result Members
parsed_object none = err (error "SyntaxError")
parsed_object (some (object ms)) = ok ms
parsed_object (some _) = ok no_members

unfoldable pub object_value : (String → Option Json) → Option Json → Result Members
object_value parse_json (some (object ms)) = ok ms
object_value parse_json (some (text s)) = parsed_object (parse_json s)
object_value parse_json _ = ok no_members

unfoldable pub next_submission_state : Decision → SubmissionState
next_submission_state start_review = under_review
next_submission_state request_changes = changes_requested
next_submission_state approve = approved
next_submission_state reject = rejected

abbrev pub state_name : SubmissionState → String
state_name received = "received"
state_name under_review = "under_review"
state_name changes_requested = "changes_requested"
state_name revision_pending = "revision_pending"
state_name approved = "approved"
state_name rejected = "rejected"
state_name withdrawn = "withdrawn"
state_name expired = "expired"

-- `SubmissionRow`: the rows that the query joins.
pub record SubmissionRow : Type 0 where
  pub submission : Submission
  pub revision : Revision
  pub media : MediaObject

unfoldable pub find_row : {A : Type 0} → (A → Bool) → List A → Result A
find_row p [] = err (coded "resource_not_found" 404)
find_row p (a ∷ rows) = if p a then ok a else find_row p rows

unfoldable pub found_media : Option MediaObject → Result MediaObject
found_media none = err (coded "resource_not_found" 404)
found_media (some m) = ok m

-- The keys of the tables leave at most one row.
unfoldable pub find_submission :
    (submission_id organization_id : String) → ModerationTables → Result SubmissionRow
unfolding find_row found_media
find_submission submission_id organization_id t = do
  submission ←
      find_row (λ s. s.id == submission_id && s.organization_id == organization_id) t.submissions
  revision ←
      find_row
        (λ r.
          r.submission_id == submission.id
          && r.revision_number == submission.current_revision_number)
        t.revisions
  link ← find_row (λ l. l.revision_id == revision.id && l.position == 0) t.links
  media ← found_media (find_media (λ m. m.id == link.media_id) t.publications.media)
  ok (record { submission = submission; revision = revision; media = media })

-- A refused transition is reported as a conflict.
unfoldable pub moderation_transition : Result (Unit {0}) → Result (Unit {0})
moderation_transition (ok u) = ok u
moderation_transition (err e) = err (coded "moderation_transition_invalid" 409)
