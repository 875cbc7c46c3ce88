-- ===== src/Services/Publication/Correction/Laws.antt =====
-- What a correction that is carried out has checked and written.
use nagarik_signals.Base.{◌≡◌, some, [], ◌∷◌, ◌++◌, option_eq, nat_eq, string_eq}
use nagarik_signals.Chain.Job.Schema.{Envelope}
use nagarik_signals.Services.Operations.{OperatorDependencies}
use nagarik_signals.Services.Issues.{
  publication_eq, Issue, Version, find_v2_issue, with_version, change_issue, outbox_row,
  issue_snapshot,
}
use nagarik_signals.Services.Media.{MediaObject, find_media}
use nagarik_signals.Services.Publication.Checks.{IsCorrectable}
use nagarik_signals.Services.Publication.Correction.Replaced.{IsReplaced}
use nagarik_signals.Services.Publication.Correction.{
  CorrectionRequest, CorrectionResult, is_public_media, correction_version_id,
}
use nagarik_signals.Services.Publication.Correction.Correct.{
  CorrectionTables, corrected_version, corrected_issue, correction_result, correction_outbox_id,
}

pub record IsCorrected (d : OperatorDependencies) (q : CorrectionRequest) (t : CorrectionTables)
    (r : CorrectionResult) (t' : CorrectionTables) : Type 0 where
  pub issue : Issue
  pub version : Version
  pub media : MediaObject
  pub job : Envelope
  pub found :
      with_version (find_v2_issue q.public_id q.actor.organization_id t.base.issues) t.base.versions
      ≡ some (issue, version)
  pub correctable :
      IsCorrectable q.correction.expected_domain_version q.correction.expected_timeline_head issue
  pub shown :
      find_media (is_public_media version.public_media_id q.actor.organization_id) t.media
      ≡ some media
  pub expected : job.expected ≡ issue_snapshot issue version
  pub next :
      job.next
      ≡ issue_snapshot (corrected_issue d q job issue) (corrected_version d q issue version media)
  pub issues : t'.base.issues ≡ change_issue issue.id (corrected_issue d q job) t.base.issues
  pub versions :
      t'.base.versions ≡ t.base.versions ++ (corrected_version d q issue version media ∷ [])
  pub queued :
      t'.base.jobs
      ≡ t.base.jobs
        ++ (outbox_row (correction_outbox_id d q) issue.id (correction_version_id d q) job d.now
            ∷ [])
  pub answer : r ≡ correction_result d q issue version job
  pub after : Issue
  pub new : Version
  pub found_after :
      with_version
        (find_v2_issue q.public_id q.actor.organization_id t'.base.issues)
        t'.base.versions
      ≡ some (after, new)
  pub replaced : IsReplaced q.correction.copy media issue after version new job r
