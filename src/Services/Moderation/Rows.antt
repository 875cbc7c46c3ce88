-- ===== src/Services/Moderation/Rows.antt =====
-- apps/web/lib/services/moderation.ts: the identifiers, the chain job and the rows of an
-- approval.
use Prim.Native.String.{◌++◌}
use nagarik_signals.Base.{◌==◌, true, false, Option, none, some, String, string_eq, if◌then◌else◌}
use nagarik_signals.Base.Clock.{iso_string}
use nagarik_signals.Domain.Workflow.{submission_eq, open_state}
use nagarik_signals.Chain.Protocol.{issue_created, v2_lifecycles}
use nagarik_signals.Chain.Job.Schema.{Snapshot, Envelope, zero_hash}
use nagarik_signals.Chain.Job.Codec.{JobInput}
use nagarik_signals.Proof.Canonical.{
  number, text, object, Members, no_members, member, json_hash, decimal,
}
use nagarik_signals.Security.Ids.{first_chars, deterministic_uuid, deterministic_uuid_v4}
use nagarik_signals.Security.Receipts.{Receipt}
use nagarik_signals.Services.Issues.{
  RecordKind, community_report, public_source, Issue, Version, commit_pending, v2_categories,
}
use nagarik_signals.Services.Publication.{
  PublicCopy, PublicationEvent, PublicationEventType, text_or_null,
}
use nagarik_signals.Services.Publication.Correction.{version_metadata, version_payload}
use nagarik_signals.Services.Moderation.{
  ModerationRequest, ModerationDependencies, SubmissionRow, PublishedIssue,
}

abbrev record_kind_name : RecordKind → String
record_kind_name community_report = "community_report"
record_kind_name public_source = "public_source"

-- `a ?? b`
abbrev pub or_else : {A : Type 0} → Option A → Option A → Option A
or_else none b = b
or_else (some a) b = some a

-- `value ? String(value) : null`
abbrev text_if_set : Option String → Option String
text_if_set none = none
text_if_set (some s) = if s == "" then none else some s

module _ (d : ModerationDependencies) (q : ModerationRequest) where
  unfoldable pub new_issue_id : String
  new_issue_id = deterministic_uuid_v4 d.hashing "nagarik:v2:issue-record" q.submission_id

  unfoldable pub new_public_id : String
  new_public_id = deterministic_uuid_v4 d.hashing "nagarik:v2:public-issue" q.submission_id

  -- `${input.submissionId}:${submission.revisionNumber}`
  abbrev revision_identity : SubmissionRow → String
  revision_identity r = q.submission_id ++ ":" ++ decimal r.revision.revision_number

  unfoldable pub new_version_id : SubmissionRow → String
  new_version_id r =
      deterministic_uuid_v4 d.hashing "nagarik:v2:issue-version" (revision_identity r)

  unfoldable pub approval_event_id : SubmissionRow → String
  approval_event_id r =
      deterministic_uuid_v4 d.hashing "nagarik:v2:publication-event" (revision_identity r)

  unfoldable pub public_provenance : SubmissionRow → Members
  public_provenance r = member "schemaVersion" (text "nagarik-public-provenance-v2") (
      member "recordKind" (text (record_kind_name r.submission.record_kind)) (
        member "observedOn" (text (first_chars 10 r.revision.observed_on)) (
          member "moderation"
            (object (
              member "decision" (text "approved")
                (member "decidedAt" (text (iso_string d.now)) no_members)))
            no_members)))

  abbrev public_reason : PublicCopy → Option String
  public_reason copy = or_else copy.public_reason q.moderation.public_safe_message

  abbrev public_locality : SubmissionRow → PublicCopy → Option String
  public_locality r copy = or_else copy.locality_label (text_if_set r.revision.locality_label)

  unfoldable pub approved_metadata_hash : SubmissionRow → Receipt → PublicCopy → Members → String
  approved_metadata_hash r receipt copy location = json_hash d.hashing (
      version_metadata new_public_id 1 copy (public_locality r copy) (public_reason copy)
        r.revision.category (text (first_chars 10 r.revision.observed_on)) r.revision.ward_id
        location (public_provenance r) receipt.media_id)

  unfoldable pub approved_location_hash : Members → String
  approved_location_hash location = json_hash d.hashing (object location)

  -- Nothing of the issue is on the chain.
  unfoldable pub empty_snapshot : SubmissionRow → Snapshot
  empty_snapshot r = record {
    update_count = 0;
    timeline_head = zero_hash;
    handoff_head = zero_hash;
    category = v2_categories r.revision.category;
    lifecycle = v2_lifecycles open_state;
    removed = false;
    metadata_hash = zero_hash;
    evidence_hash = zero_hash;
    location_hash = zero_hash;
  }

  unfoldable pub approval_job : SubmissionRow → Receipt → PublicCopy → Members → JobInput
  approval_job r receipt copy location = record {
    operation = issue_created;
    public_issue_id = new_public_id;
    database_event_id = approval_event_id r;
    payload_hash = json_hash d.hashing (
        version_payload "issue_created" new_public_id (new_version_id r)
          (approved_metadata_hash r receipt copy location) receipt.evidence_hash
          (approved_location_hash location));
    expected = empty_snapshot r;
    next = record {
      category = v2_categories r.revision.category;
      lifecycle = v2_lifecycles open_state;
      removed = false;
      metadata_hash = approved_metadata_hash r receipt copy location;
      evidence_hash = receipt.evidence_hash;
      location_hash = approved_location_hash location;
    };
  }

  unfoldable pub new_issue : SubmissionRow → Envelope → Issue
  new_issue r job = record {
    id = new_issue_id;
    public_id = new_public_id;
    organization_id = q.actor.organization_id;
    is_v2 = true;
    publication_state = commit_pending;
    lifecycle = open_state;
    current_version_id = new_version_id r;
    domain_version = 1;
    checkpoint_update_count = job.next.update_count;
    projected_timeline_head = job.next.timeline_head;
    projected_handoff_head = job.next.handoff_head;
    blocked_from_sequence = none;
    source_submission_id = some r.submission.id;
    record_kind = r.submission.record_kind;
    updated_at = d.now;
  }

  unfoldable pub new_version : SubmissionRow → Receipt → PublicCopy → Members → Version
  new_version r receipt copy location = record {
    id = new_version_id r;
    issue_id = new_issue_id;
    version_number = 1;
    state = commit_pending;
    title = copy.title;
    narrative = copy.narrative;
    category = r.revision.category;
    ward_id = r.revision.ward_id;
    ward_label = copy.ward_label;
    locality_label = public_locality r copy;
    public_location = location;
    public_media_id = receipt.media_id;
    public_provenance = public_provenance r;
    metadata_hash = approved_metadata_hash r receipt copy location;
    evidence_hash = receipt.evidence_hash;
    location_hash = approved_location_hash location;
    public_reason = public_reason copy;
    created_at = d.now;
  }

  unfoldable pub approval_event : SubmissionRow → PublicCopy → PublicationEvent
  approval_event r copy = record {
    id = approval_event_id r;
    issue_id = new_issue_id;
    issue_version_id = some (new_version_id r);
    event_type = PublicationEventType.approved;
    domain_version = 1;
    private_reason = q.moderation.private_note;
    public_event = object (
        member "schemaVersion" (text "nagarik-publication-event-v1") (
          member "type" (text "published") (
            member "version" (number 1)
              (member "reason" (text_or_null (public_reason copy)) no_members))));
    created_by = q.actor.subject_id;
    created_at = d.now;
  }

  abbrev pub approval_outbox_id : SubmissionRow → String
  approval_outbox_id r =
      deterministic_uuid d.hashing "nagarik:v2:publication-outbox" (approval_event_id r)

  unfoldable pub published_issue : SubmissionRow → Envelope → PublishedIssue
  published_issue r job = record {
    issue_id = new_issue_id;
    public_id = new_public_id;
    version_id = new_version_id r;
    chain_sequence = job.next.update_count;
    timeline_head = job.next.timeline_head;
  }
