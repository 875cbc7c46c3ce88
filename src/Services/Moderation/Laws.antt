-- ===== src/Services/Moderation/Laws.antt =====
-- What a moderation that is carried out has checked and written.
use nagarik_signals.Base.{◌≡◌, true, Option, none, nat_eq, string_eq, ok, includes}
use nagarik_signals.Domain.Workflow.{submission_eq, submission_transitions}
use nagarik_signals.Services.Moderation.{
  Decision, start_review, request_changes, approve, reject, ModerationRequest,
  ModerationDependencies, ModerationTables, ModerationResult, SubmissionRow, PublishedIssue,
  find_submission, next_submission_state,
}
use nagarik_signals.Services.Moderation.Records.{moderated_submission, moderation_result}
use nagarik_signals.Services.Moderation.Received.{PublicTables, public_tables}
use nagarik_signals.Services.Moderation.Approved.{IsApproved}
use nagarik_signals.Services.Moderation.Decided.{IsMoved}
use nagarik_signals.Services.Moderation.Moderate.{change_submission}

-- A decision that is no approval publishes nothing.
abbrev pub IsUnpublished : PublicTables → Option PublishedIssue → PublicTables → Type 0
IsUnpublished t answer t' = (t' ≡ t) × (answer ≡ none)

abbrev pub IsDecided :
    ModerationDependencies
    → ModerationRequest
    → Decision
    → PublicTables
    → SubmissionRow
    → Option PublishedIssue
    → PublicTables
    → Type 0
IsDecided d q approve t r answer t' = IsApproved d q t r answer t'
IsDecided d q start_review t r answer t' = IsUnpublished t answer t'
IsDecided d q request_changes t r answer t' = IsUnpublished t answer t'
IsDecided d q reject t r answer t' = IsUnpublished t answer t'

pub record IsModerated (d : ModerationDependencies) (q : ModerationRequest) (t : ModerationTables)
    (a : ModerationResult) (t' : ModerationTables) : Type 0 where
  pub row : SubmissionRow
  pub found : find_submission q.submission_id q.actor.organization_id t ≡ ok row
  pub seen_version : row.submission.version ≡ q.moderation.expected_version
  pub allowed :
      includes
        (submission_transitions row.submission.state)
        (next_submission_state q.moderation.decision)
      ≡ true
  pub decided : IsDecided d q q.moderation.decision (public_tables t) row a.issue (public_tables t')
  pub submissions :
      t'.submissions
      ≡ change_submission row.submission.id
          (moderated_submission d q (next_submission_state q.moderation.decision))
          t.submissions
  pub answer : a ≡ moderation_result d q row a.issue
  pub moved : IsMoved q t' row a
