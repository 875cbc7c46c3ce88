-- ===== src/Services/Publication/Removal/Rows.antt =====
-- apps/web/lib/services/publication.ts: what `removePublishedIssue` derives for an issue of workflow v2.
use nagarik_signals.Base.{◌+◌, true, none, some, String}
use nagarik_signals.Chain.Protocol.{publication_removed, v2_lifecycles}
use nagarik_signals.Chain.Job.Schema.{Envelope}
use nagarik_signals.Chain.Job.Codec.{JobInput}
use nagarik_signals.Proof.Canonical.{Json, number, text, object, no_members, member, json_hash}
use nagarik_signals.Security.Ids.{deterministic_uuid, deterministic_uuid_v4}
use nagarik_signals.Services.Operations.{OperatorDependencies}
use nagarik_signals.Services.Issues.{v2_categories, Issue, Version, AuditRow, issue_snapshot}
use nagarik_signals.Services.Publication.{PublicationEvent, removed_event}
use nagarik_signals.Services.Publication.Removal.{RemovalRequest, RemovalResult}
use nagarik_signals.Services.Publication.Removal.Restriction.{
  removal_identity, privacy_request_id, access_overlay_id,
}

module _ (d : OperatorDependencies) (q : RemovalRequest) where
  unfoldable pub removal_event_id : String
  removal_event_id =
      deterministic_uuid_v4 d.hashing "nagarik:v2:publication-removal" (removal_identity q)

  unfoldable pub removal_public_event : Json
  removal_public_event = object (
      member "schemaVersion" (text "nagarik-removal-event-v1") (
        member "reasonCode" (text q.removal.reason_code)
          (member "publicMessage" (text q.removal.public_message) no_members)))

  unfoldable pub removal_metadata_hash : String
  removal_metadata_hash = json_hash d.hashing removal_public_event

  unfoldable pub removal_job : Issue → Version → JobInput
  removal_job i v = record {
    operation = publication_removed;
    public_issue_id = q.public_id;
    database_event_id = removal_event_id;
    payload_hash = json_hash d.hashing (
        object (
          member "schemaVersion" (text "nagarik-chain-payload-v2") (
            member "operation" (text "publication_removed") (
              member "publicId" (text q.public_id)
                (member "metadataHash" (text removal_metadata_hash) no_members)))));
    expected = issue_snapshot i v;
    next = record {
      category = v2_categories v.category;
      lifecycle = v2_lifecycles i.lifecycle;
      removed = true;
      metadata_hash = removal_metadata_hash;
      evidence_hash = v.evidence_hash;
      location_hash = v.location_hash;
    };
  }

  unfoldable pub removal_event : Issue → PublicationEvent
  removal_event i = record {
    id = removal_event_id;
    issue_id = i.id;
    issue_version_id = none;
    event_type = removed_event;
    domain_version = i.domain_version + 1;
    private_reason = some q.removal.private_note;
    public_event = removal_public_event;
    created_by = q.actor.subject_id;
    created_at = d.now;
  }

  unfoldable pub removal_requested_issue : Envelope → Issue → Issue
  removal_requested_issue job i = record i {
    domain_version = i.domain_version + 1;
    checkpoint_update_count = job.next.update_count;
    projected_timeline_head = job.next.timeline_head;
    projected_handoff_head = job.next.handoff_head;
    updated_at = d.now;
  }

  abbrev pub removal_outbox_id : String
  removal_outbox_id = deterministic_uuid d.hashing "nagarik:v2:removal-outbox" removal_event_id

  unfoldable pub removal_audit : (actor_key : String) → Issue → Envelope → AuditRow
  removal_audit actor_key i job = record {
    id = deterministic_uuid d.hashing "nagarik:v2:removal-audit" removal_event_id;
    organization_id = q.actor.organization_id;
    actor_type = "operator";
    actor_key = actor_key;
    action = "publication_removal_requested";
    resource_type = "issue";
    resource_id = i.id;
    request_id = deterministic_uuid_v4 d.hashing "nagarik:v2:removal-request" (removal_identity q);
    detail = object (
        member "reasonCode" (text q.removal.reason_code) (
          member "chainSequence" (number job.next.update_count) (
            member "privacyRequestId" (text (privacy_request_id d.hashing q)) (
              member "accessOverlayId" (text (access_overlay_id d.hashing q)) (
                member "cachePurgeReference" (text q.removal.cache_purge_reference) no_members)))));
    occurred_at = d.now;
  }

  unfoldable pub removal_result : Issue → Envelope → RemovalResult
  removal_result i job = record {
    public_id = q.public_id;
    pending = true;
    domain_version = i.domain_version + 1;
    chain_sequence = some job.next.update_count;
    timeline_head = job.next.timeline_head;
  }
