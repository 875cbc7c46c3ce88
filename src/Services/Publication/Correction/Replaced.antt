-- ===== src/Services/Publication/Correction/Replaced.antt =====
-- The rows and the answer of a correction.
use nagarik_signals.Base.{
  ◌≡◌, ◌+◌, List, any, refl, ap, false, some, [], ◌∷◌, ◌++◌, option_eq, nat_eq, string_eq, ok,
}
use nagarik_signals.Chain.Job.Schema.{Envelope, Snapshot}
use nagarik_signals.Chain.Job.Codec.{build_chain_job, next_snapshot}
use nagarik_signals.Chain.Job.Built.{build_chain_job-IsBuilt}
use nagarik_signals.Services.Operations.{OperatorDependencies}
use nagarik_signals.Services.Issues.{
  commit_pending, publication_eq, Issue, Version, find_v2_issue, with_version, change_issue,
  issue_snapshot,
}
use nagarik_signals.Services.Issues.Inversion.{with_version-some}
use nagarik_signals.Services.Issues.Changed.{find_v2_issue-change_issue, find_version-append}
use nagarik_signals.Services.Media.{MediaObject}
use nagarik_signals.Services.Publication.{PublicCopy, same_version}
use nagarik_signals.Services.Publication.Correction.{CorrectionRequest, CorrectionResult}
use nagarik_signals.Services.Publication.Correction.Correct.{
  correction_job, corrected_version, corrected_issue, correction_result,
}

-- The rows and the answer of a correction: the issue waits for the commit of its new version.
pub record IsReplaced (copy : PublicCopy) (media : MediaObject) (before after : Issue)
    (old new : Version) (job : Envelope) (r : CorrectionResult) : Type 0 where
  pub waits : after.publication_state ≡ commit_pending
  pub current : after.current_version_id ≡ new.id
  pub next_domain_version : after.domain_version ≡ before.domain_version + 1
  pub next_sequence : after.checkpoint_update_count ≡ before.checkpoint_update_count + 1
  pub next_head : after.projected_timeline_head ≡ job.next.timeline_head
  pub same_lifecycle : after.lifecycle ≡ before.lifecycle
  pub new_waits : new.state ≡ commit_pending
  pub next_number : new.version_number ≡ old.version_number + 1
  pub copied : (new.title ≡ copy.title) × (new.narrative ≡ copy.narrative)
  pub labelled : (new.ward_label ≡ copy.ward_label) × (new.public_reason ≡ copy.public_reason)
  pub same_media : new.public_media_id ≡ old.public_media_id
  pub evidence : new.evidence_hash ≡ media.sha256
  pub answer_version : (r.version_id ≡ new.id) × (r.version_number ≡ new.version_number)
  pub answer_domain_version : r.domain_version ≡ after.domain_version
  pub answer_sequence : r.chain_sequence ≡ after.checkpoint_update_count
  pub answer_head : r.timeline_head ≡ after.projected_timeline_head

module _ (d : OperatorDependencies) (q : CorrectionRequest) where
  pub correction_replaces :
      (i : Issue) (v : Version) (m : MediaObject) (job : Envelope)
      → build_chain_job d.hashing (correction_job d q i v m) ≡ ok job
      → IsReplaced q.correction.copy m i
          (corrected_issue d q job i)
          v
          (corrected_version d q i v m)
          job
          (correction_result d q i v job)
  unfolding correction_job issue_snapshot corrected_issue corrected_version next_snapshot
      correction_result
  correction_replaces i v m job b =
      let built = build_chain_job-IsBuilt d.hashing (correction_job d q i v m) b in
      record {
        waits = refl;
        current = refl;
        next_domain_version = refl;
        next_sequence = ap Snapshot.update_count built.next;
        next_head = refl;
        same_lifecycle = refl;
        new_waits = refl;
        next_number = refl;
        copied = (refl, refl);
        labelled = (refl, refl);
        same_media = refl;
        evidence = refl;
        answer_version = (refl, refl);
        answer_domain_version = refl;
        answer_sequence = refl;
        answer_head = refl;
      }

  pub corrected_again :
      (i : Issue) (v : Version) (m : MediaObject) (job : Envelope) (is : List Issue)
      (vs : List Version)
      → find_v2_issue q.public_id q.actor.organization_id is ≡ some i
      → any (same_version (corrected_version d q i v m)) vs ≡ false
      → with_version
          (find_v2_issue q.public_id q.actor.organization_id
            (change_issue i.id (corrected_issue d q job) is))
          (vs ++ (corrected_version d q i v m ∷ []))
        ≡ some (corrected_issue d q job i, corrected_version d q i v m)
  unfolding corrected_issue corrected_version
  corrected_again i v m job is vs h new =
      with_version-some _ _ (corrected_issue d q job i) (corrected_version d q i v m)
        (find_v2_issue-change_issue q.public_id q.actor.organization_id (corrected_issue d q job) is
          i (λ j. refl) h)
        (find_version-append vs (corrected_version d q i v m) new)
