-- ===== src/Services/Moderation/Records.antt =====
-- apps/web/lib/services/moderation.ts: the rows that `moderateSubmission` writes for
-- every decision.
use Prim.Native.String.{◌++◌}
use nagarik_signals.Base.{◌+◌, ◌==◌, ◌||◌, Option, none, some, String, string_eq, if◌then◌else◌}
use nagarik_signals.Domain.Workflow.{
  SubmissionState, under_review, approved, rejected, submission_eq,
}
use nagarik_signals.Proof.Canonical.{Json, null, number, text, object, no_members, member}
use nagarik_signals.Security.Ids.{deterministic_uuid, deterministic_uuid_v4}
use nagarik_signals.Services.Issues.{AuditRow}
use nagarik_signals.Services.Moderation.Rows.{or_else}
use nagarik_signals.Services.Moderation.{
  decision_name, ModerationRequest, ModerationDependencies, ModerationEvent, Submission,
  SubmissionRow, PublishedIssue, ModerationResult, state_name, next_submission_state,
}

module _ (d : ModerationDependencies) (q : ModerationRequest) where
  abbrev pub moderation_identity : String
  moderation_identity = q.submission_id ++ ":" ++ q.idempotency_key

  unfoldable pub moderation_event : SubmissionRow → ModerationEvent
  moderation_event r = record {
    id = deterministic_uuid_v4 d.hashing "nagarik:v2:moderation-event" moderation_identity;
    submission_id = r.submission.id;
    submission_version = r.submission.version;
    actor_subject = q.actor.subject_id;
    event_type = q.moderation.decision;
    reason_code = q.moderation.reason_code;
    private_note = q.moderation.private_note;
    public_safe_message = q.moderation.public_safe_message;
    created_at = d.now;
  }

  -- The update of the submission's row.
  unfoldable pub moderated_submission : SubmissionState → Submission → Submission
  moderated_submission next s = record s {
    state = next;
    version = s.version + 1;
    assigned_to = if next == under_review then some q.actor.subject_id else s.assigned_to;
    first_review_at =
        if next == under_review then or_else s.first_review_at (some d.now) else s.first_review_at;
    terminal_at = if next == approved || next == rejected then some d.now else s.terminal_at;
    updated_at = d.now;
  }

  abbrev issue_json : Option PublishedIssue → Json
  issue_json none = null
  issue_json (some i) = text i.issue_id

  unfoldable pub moderation_audit :
      (actor_key : String) → SubmissionRow → Option PublishedIssue → AuditRow
  moderation_audit actor_key r issue = record {
    id = deterministic_uuid d.hashing "nagarik:v2:moderation-audit" moderation_identity;
    organization_id = q.actor.organization_id;
    actor_type = "operator";
    actor_key = actor_key;
    action = "moderation_" ++ decision_name q.moderation.decision;
    resource_type = "submission";
    resource_id = r.submission.id;
    request_id =
        deterministic_uuid_v4 d.hashing "nagarik:v2:moderation-request" moderation_identity;
    detail = object (
        member "previousState" (text (state_name r.submission.state)) (
          member "nextState" (text (state_name (next_submission_state q.moderation.decision))) (
            member "previousVersion" (number r.submission.version) (
              member "nextVersion" (number (r.submission.version + 1))
                (member "issueId" (issue_json issue) no_members)))));
    occurred_at = d.now;
  }

  unfoldable pub moderation_result : SubmissionRow → Option PublishedIssue → ModerationResult
  moderation_result r issue = record {
    submission_id = r.submission.id;
    state = next_submission_state q.moderation.decision;
    version = r.submission.version + 1;
    issue = issue;
  }
