-- ===== src/Services/Publication/Correction/Correct.antt =====
-- apps/web/lib/services/publication.ts: the rows that `correctPublishedIssue` writes, and its
-- transaction.
use nagarik_signals.Base.{
  ◌+◌, true, false, Bool, Option, none, some, String, Result, ok, err, coded, ◌>>=◌, ◌>>◌,
}
use nagarik_signals.Chain.Protocol.{metadata_version_committed, v2_lifecycles}
use nagarik_signals.Chain.Job.Schema.{Envelope}
use nagarik_signals.Chain.Job.Codec.{JobInput, build_chain_job}
use nagarik_signals.Proof.Canonical.{number, text, object, no_members, member, json_hash}
use nagarik_signals.Security.Ids.{deterministic_uuid, deterministic_uuid_v4}
use nagarik_signals.Services.Operations.{
  OperatorDependencies, MutationReservation, fresh, replayed, reserve_operator_mutation,
  complete_operator_mutation,
}
use nagarik_signals.Services.Issues.{
  commit_pending, v2_categories, Issue, Version, AuditRow, insert_row, same_job, same_audit,
  find_v2_issue, with_version, change_issue, issue_snapshot, outbox_row,
}
use nagarik_signals.Services.Media.{MediaObject, find_media}
use nagarik_signals.Services.Publication.{
  PublicationTables, PublicationEvent, corrected, same_publication_event, same_version,
  text_or_null, assert_operator_switches, check_publication,
}
use nagarik_signals.Services.Publication.Correction.{
  CorrectionRequest, CorrectionResult, correction_request, is_public_media, version_payload,
  correction_identity, correction_version_id, correction_event_id, corrected_provenance,
  corrected_metadata_hash, corrected_location_hash,
}

abbrev pub CorrectionTables : Type 0
CorrectionTables = PublicationTables CorrectionResult

module _ (d : OperatorDependencies) (q : CorrectionRequest) where
  unfoldable pub correction_job : Issue → Version → MediaObject → JobInput
  correction_job i v m = record {
    operation = metadata_version_committed;
    public_issue_id = q.public_id;
    database_event_id = correction_event_id d q;
    payload_hash = json_hash d.hashing (
        version_payload "metadata_version_committed" q.public_id (correction_version_id d q)
          (corrected_metadata_hash d q v) m.sha256 (corrected_location_hash d q v));
    expected = issue_snapshot i v;
    next = record {
      category = v2_categories v.category;
      lifecycle = v2_lifecycles i.lifecycle;
      removed = false;
      metadata_hash = corrected_metadata_hash d q v;
      evidence_hash = m.sha256;
      location_hash = corrected_location_hash d q v;
    };
  }

  unfoldable pub corrected_version : Issue → Version → MediaObject → Version
  corrected_version i v m = record {
    id = correction_version_id d q;
    issue_id = i.id;
    version_number = v.version_number + 1;
    state = commit_pending;
    title = q.correction.copy.title;
    narrative = q.correction.copy.narrative;
    category = v.category;
    ward_id = v.ward_id;
    ward_label = q.correction.copy.ward_label;
    locality_label = q.correction.copy.locality_label;
    public_location = v.public_location;
    public_media_id = v.public_media_id;
    public_provenance = corrected_provenance d q v;
    metadata_hash = corrected_metadata_hash d q v;
    evidence_hash = m.sha256;
    location_hash = corrected_location_hash d q v;
    public_reason = q.correction.copy.public_reason;
    created_at = d.now;
  }

  unfoldable pub correction_event : Issue → Version → PublicationEvent
  correction_event i v = record {
    id = correction_event_id d q;
    issue_id = i.id;
    issue_version_id = some (correction_version_id d q);
    event_type = corrected;
    domain_version = i.domain_version + 1;
    private_reason = some q.correction.private_note;
    public_event = object (
        member "schemaVersion" (text "nagarik-publication-event-v1") (
          member "type" (text "corrected") (
            member "version" (number (v.version_number + 1)) (
              member "reasonCode" (text q.correction.reason_code)
                (member "reason" (text_or_null q.correction.copy.public_reason) no_members)))));
    created_by = q.actor.subject_id;
    created_at = d.now;
  }

  unfoldable pub corrected_issue : Envelope → Issue → Issue
  corrected_issue job i = record i {
    current_version_id = correction_version_id d q;
    publication_state = commit_pending;
    domain_version = i.domain_version + 1;
    checkpoint_update_count = job.next.update_count;
    projected_timeline_head = job.next.timeline_head;
    projected_handoff_head = job.next.handoff_head;
    updated_at = d.now;
  }

  unfoldable pub correction_audit : (actor_key : String) → Issue → Version → Envelope → AuditRow
  correction_audit actor_key i v job = record {
    id = deterministic_uuid d.hashing "nagarik:v2:correction-audit" (correction_event_id d q);
    organization_id = q.actor.organization_id;
    actor_type = "operator";
    actor_key = actor_key;
    action = "publication_corrected";
    resource_type = "issue";
    resource_id = i.id;
    request_id =
        deterministic_uuid_v4 d.hashing "nagarik:v2:correction-request" (correction_identity d q);
    detail = object (
        member "reasonCode" (text q.correction.reason_code) (
          member "versionNumber" (number (v.version_number + 1))
            (member "chainSequence" (number job.next.update_count) no_members)));
    occurred_at = d.now;
  }

  unfoldable pub correction_result : Issue → Version → Envelope → CorrectionResult
  correction_result i v job = record {
    public_id = q.public_id;
    version_id = correction_version_id d q;
    version_number = v.version_number + 1;
    domain_version = i.domain_version + 1;
    chain_sequence = job.next.update_count;
    timeline_head = job.next.timeline_head;
  }

  abbrev pub correction_outbox_id : String
  correction_outbox_id =
      deterministic_uuid d.hashing "nagarik:v2:correction-outbox" (correction_event_id d q)

  unfoldable pub write_correction :
      (record_id request_hash actor_key : String)
      → CorrectionTables
      → Issue
      → Version
      → MediaObject
      → Envelope
      → Result (CorrectionResult × CorrectionTables)
  write_correction record_id request_hash actor_key t i v m job = do
    versions ← insert_row same_version (corrected_version i v m) t.base.versions
    events ← insert_row same_publication_event (correction_event i v) t.publication_events
    jobs ←
        insert_row same_job
          (outbox_row correction_outbox_id i.id (correction_version_id d q) job d.now) t.base.jobs
    audit ← insert_row same_audit (correction_audit actor_key i v job) t.base.audit
    records ←
        complete_operator_mutation record_id request_hash (correction_result i v job) t.base.records
    ok (
      correction_result i v job,
      record t {
        base = record t.base {
          records = records;
          issues = change_issue i.id (corrected_issue job) t.base.issues;
          versions = versions;
          jobs = jobs;
          audit = audit;
        };
        publication_events = events;
      },
    )

  unfoldable pub correct_with_media :
      (record_id request_hash actor_key : String)
      → CorrectionTables
      → Issue
      → Version
      → Option MediaObject
      → Result (CorrectionResult × CorrectionTables)
  correct_with_media record_id request_hash actor_key t i v none =
      err (coded "publication_media_unavailable" 409)
  correct_with_media record_id request_hash actor_key t i v (some m) = do
    job ← build_chain_job d.hashing (correction_job i v m)
    write_correction record_id request_hash actor_key t i v m job

  unfoldable pub correct_found :
      (record_id request_hash actor_key : String)
      → CorrectionTables
      → Option (Issue × Version)
      → Result (CorrectionResult × CorrectionTables)
  correct_found record_id request_hash actor_key t none = err (coded "resource_not_found" 404)
  correct_found record_id request_hash actor_key t (some (i, v)) = do
    check_publication q.correction.expected_domain_version q.correction.expected_timeline_head i
    correct_with_media record_id request_hash actor_key t i v
        (find_media (is_public_media v.public_media_id q.actor.organization_id) t.media)

  unfoldable pub correct_reserved :
      MutationReservation CorrectionResult
      → CorrectionTables
      → Result ((Bool × CorrectionResult) × CorrectionTables)
  correct_reserved (replayed response) t = ok ((true, response), t)
  correct_reserved (fresh record_id request_hash actor_key) t = do
    assert_operator_switches t.base.switches true
    out ← correct_found record_id request_hash actor_key t (
        with_version (find_v2_issue q.public_id q.actor.organization_id t.base.issues)
          t.base.versions)
    ok ((false, out.0), out.1)

  unfoldable pub correct_published_issue :
      CorrectionTables → Result ((Bool × CorrectionResult) × CorrectionTables)
  correct_published_issue t = do
    reservation ← reserve_operator_mutation d (correction_request q) t.base.records
    correct_reserved reservation.0 (record t { base = record t.base { records = reservation.1 } })
