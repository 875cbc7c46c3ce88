-- ===== src/Services/Moderation/Moderate.antt =====
-- apps/web/lib/services/moderation.ts: the transaction of `moderateSubmission`.
use nagarik_signals.Base.{
  ◌==◌, Bool, true, false, not, Option, none, String, List, [], ◌∷◌, string_eq, nat_eq, option_eq,
  if◌then◌else◌, Result, ok, coded, guard, ◌>>=◌, ◌>>◌,
}
use nagarik_signals.Domain.Workflow.{assert_submission_transition}
use nagarik_signals.Security.Tokens.{purpose_eq}
use nagarik_signals.Services.Operations.{
  MutationReservation, fresh, replayed, reserve_operator_mutation, complete_operator_mutation,
}
use nagarik_signals.Services.Idempotency.{IdempotencyRecord}
use nagarik_signals.Services.Switches.{operator_mutations}
use nagarik_signals.Services.Issues.{is_capability_enabled, insert_row, same_audit}
use nagarik_signals.Services.Media.{media_eq}
use nagarik_signals.Services.Moderation.{
  Decision, approve, ModerationRequest, ModerationDependencies, ModerationResult, ModerationTables,
  ModerationEvent, Submission, SubmissionRow, PublishedIssue, find_submission, moderation_request,
  moderation_transition, next_submission_state,
}
use nagarik_signals.Services.Moderation.Approval.{approve_submission}
use nagarik_signals.Services.Moderation.Records.{
  moderation_event, moderated_submission, moderation_audit, moderation_result,
}

abbrev pub same_moderation_event : ModerationEvent → ModerationEvent → Bool
same_moderation_event a b = a.id == b.id

unfoldable pub change_submission :
    String → (Submission → Submission) → List Submission → List Submission
change_submission id f [] = []
change_submission id f (s ∷ ss) =
    if s.id == id then f s ∷ change_submission id f ss else s ∷ change_submission id f ss

module _ (d : ModerationDependencies) (q : ModerationRequest) where
  unfoldable pub decide :
      Decision
      → ModerationTables
      → SubmissionRow
      → Result (Option PublishedIssue × ModerationTables)
  decide approve t r = approve_submission d q t r
  decide _ t r = ok (none, t)

  -- The submission's row, the audit log and the answer, after the decision.
  unfoldable pub finish_moderation :
      (record_id request_hash actor_key : String)
      → SubmissionRow
      → Option PublishedIssue
      → ModerationTables
      → Result (ModerationResult × ModerationTables)
  finish_moderation record_id request_hash actor_key r issue t = do
    audit ← insert_row same_audit (moderation_audit d q actor_key r issue) t.publications.base.audit
    records ←
        complete_operator_mutation record_id request_hash (moderation_result d q r issue)
          t.publications.base.records
    ok (
      moderation_result d q r issue,
      record t {
        publications = record t.publications {
          base = record t.publications.base { audit = audit; records = records };
        };
        submissions =
            change_submission r.submission.id
              (moderated_submission d q (next_submission_state q.moderation.decision))
              t.submissions;
      },
    )

  unfoldable pub moderate_row :
      (record_id request_hash actor_key : String)
      → ModerationTables
      → SubmissionRow
      → Result (ModerationResult × ModerationTables)
  moderate_row record_id request_hash actor_key t r = do
    guard (r.submission.version == q.moderation.expected_version)
        (coded "stale_resource_version" 409)
    moderation_transition (
        assert_submission_transition r.submission.state
          (next_submission_state q.moderation.decision))
    events ← insert_row same_moderation_event (moderation_event d q r) t.moderation_events
    decided ← decide q.moderation.decision (record t { moderation_events = events }) r
    finish_moderation record_id request_hash actor_key r decided.0 decided.1

  unfoldable pub moderate_reserved :
      MutationReservation ModerationResult
      → ModerationTables
      → Result ((Bool × ModerationResult) × ModerationTables)
  moderate_reserved (replayed response) t = ok ((true, response), t)
  moderate_reserved (fresh record_id request_hash actor_key) t = do
    guard (is_capability_enabled operator_mutations t.publications.base.switches)
        (coded "operator_mutations_disabled" 503)
    r ← find_submission q.submission_id q.actor.organization_id t
    out ← moderate_row record_id request_hash actor_key t r
    ok ((false, out.0), out.1)

  abbrev pub with_records :
      List (IdempotencyRecord ModerationResult) → ModerationTables → ModerationTables
  with_records records t = record t {
    publications = record t.publications {
      base = record t.publications.base { records = records };
    };
  }

  unfoldable pub moderate_submission :
      ModerationTables → Result ((Bool × ModerationResult) × ModerationTables)
  moderate_submission t = do
    guard (not (q.actor.organization_id == "")) (coded "resource_not_found" 404)
    reservation ←
        reserve_operator_mutation d.operations (moderation_request q) t.publications.base.records
    moderate_reserved reservation.0 (with_records reservation.1 t)
