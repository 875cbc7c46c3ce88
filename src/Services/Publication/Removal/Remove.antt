-- ===== src/Services/Publication/Removal/Remove.antt =====
-- apps/web/lib/services/publication.ts: the transaction of `removePublishedIssue`.
use nagarik_signals.Base.{
  ◌+◌, ◌&&◌, true, false, not, Bool, Option, none, some, String, List, [], ◌∷◌, ◌==◌, string_eq,
  if◌then◌else◌, Result, ok, err, coded, ◌>>=◌, ◌>>◌,
}
use nagarik_signals.Base.Clock.{iso_string}
use nagarik_signals.Chain.Job.Schema.{Envelope}
use nagarik_signals.Chain.Job.Codec.{build_chain_job}
use nagarik_signals.Proof.Canonical.{Json, text, object, no_members, member, json_hash}
use nagarik_signals.Security.Ids.{deterministic_uuid, deterministic_uuid_v4}
use nagarik_signals.Services.Operations.{
  OperatorDependencies, MutationReservation, fresh, replayed, reserve_operator_mutation,
  complete_operator_mutation,
}
use nagarik_signals.Services.Issues.{
  published, removed, publication_eq, Issue, Version, AuditRow, insert_row, same_job, same_audit,
  with_version, change_issue, outbox_row,
}
use nagarik_signals.Services.Signals.Store.{find_public_issue}
use nagarik_signals.Services.Media.{
  MediaObject, MediaState, approved_public, media_eq, update_media,
}
use nagarik_signals.Services.Publication.{
  same_publication_event, assert_operator_switches, check_publication,
}
use nagarik_signals.Services.Publication.Removal.{
  RemovalRequest, RemovalResult, RemovalTables, RecoveryEntry, removal_request, change_public_issue,
  hide_media,
}
use nagarik_signals.Services.Publication.Removal.Restriction.{
  removal_identity, privacy_request_id, access_overlay_id, create_privacy_restriction,
}
use nagarik_signals.Services.Publication.Removal.Rows.{
  removal_event_id, removal_job, removal_event, removal_requested_issue, removal_outbox_id,
  removal_audit, removal_result,
}

-- `set state = 'removed' where id = $1 and state = 'published'`
unfoldable pub retire_version : (id : String) → List Version → List Version
retire_version id [] = []
retire_version id (v ∷ vs) =
    if v.id == id && v.state == published
    then record v { state = removed } ∷ retire_version id vs
    else v ∷ retire_version id vs

abbrev pub same_recovery : RecoveryEntry → RecoveryEntry → Bool
same_recovery a b = a.id == b.id

module _ (d : OperatorDependencies) (q : RemovalRequest) where
  unfoldable pub legacy_tombstone : Json
  legacy_tombstone = object (
      member "schemaVersion" (text "nagarik-tombstone-v1") (
        member "removedAt" (text (iso_string d.now)) (
          member "reasonCode" (text q.removal.reason_code)
            (member "publicMessage" (text q.removal.public_message) no_members))))

  abbrev pub denied_media : MediaObject → MediaObject
  denied_media m = record m {
    state = MediaState.removed;
    version = m.version + 1;
    denied_at = some d.now;
    updated_at = d.now;
  }

  -- The public rows of a legacy issue, and its media, if it has one.
  unfoldable pub take_down : Version → RemovalTables → RemovalTables
  take_down v t =
      let cleared =
        change_public_issue (λ p. p.public_id == q.public_id && not p.is_v2)
          (λ p. record p {
            publication_state = removed;
            content = none;
            tombstone = some legacy_tombstone;
            updated_at = d.now;
          })
          t.public_issues in
      if v.public_media_id == "" then record t { public_issues = cleared } else record t {
        public_issues = cleared;
        public_media = hide_media v.public_media_id d.now t.public_media;
        rows = record t.rows {
          media =
              update_media (λ m. m.id == v.public_media_id && m.state == approved_public)
                denied_media t.rows.media;
        };
      }

  abbrev pub legacy_recovery : Issue → RecoveryEntry
  legacy_recovery i = record {
    id = deterministic_uuid d.hashing "nagarik:v1:removal-recovery" (removal_identity q);
    organization_id = q.actor.organization_id;
    opaque_record_id = i.id;
    integrity_hash = json_hash d.hashing legacy_tombstone;
    occurred_at = d.now;
  }

  abbrev pub legacy_audit : (actor_key : String) → Issue → AuditRow
  legacy_audit actor_key i = record {
    id = deterministic_uuid d.hashing "nagarik:v1:removal-audit" (removal_identity q);
    organization_id = q.actor.organization_id;
    actor_type = "operator";
    actor_key = actor_key;
    action = "legacy_publication_removed";
    resource_type = "issue";
    resource_id = i.id;
    request_id = deterministic_uuid_v4 d.hashing "nagarik:v1:removal-request" (removal_identity q);
    detail = object (
        member "reasonCode" (text q.removal.reason_code) (
          member "privacyRequestId" (text (privacy_request_id d.hashing q)) (
            member "accessOverlayId" (text (access_overlay_id d.hashing q)) (
              member "cachePurgeReference" (text q.removal.cache_purge_reference)
                (member "checkpointState" (text "not_applicable_v1_legacy") no_members)))));
    occurred_at = d.now;
  }

  abbrev pub legacy_result : Issue → RemovalResult
  legacy_result i = record {
    public_id = q.public_id;
    pending = false;
    domain_version = i.domain_version + 1;
    chain_sequence = none;
    timeline_head = i.projected_timeline_head;
  }

  -- `where id = $1 and workflow_version = 'v1_legacy'`
  abbrev pub legacy_removed : Issue → Issue
  legacy_removed i = if i.is_v2 then i else record i {
    publication_state = removed;
    domain_version = i.domain_version + 1;
    updated_at = d.now;
  }

  unfoldable pub remove_legacy :
      (record_id request_hash actor_key : String)
      → RemovalTables
      → Issue
      → Version
      → Result (RemovalResult × RemovalTables)
  remove_legacy record_id request_hash actor_key t i v = do
    restricted ← create_privacy_restriction d q i.id (removal_event_id d q) true t
    let down = take_down v restricted in
        do
          recovery ← insert_row same_recovery (legacy_recovery i) down.recovery
          audit ← insert_row same_audit (legacy_audit actor_key i) down.rows.base.audit
          records ←
              complete_operator_mutation record_id request_hash (legacy_result i)
                down.rows.base.records
          ok (
            legacy_result i,
            record down {
              recovery = recovery;
              rows = record down.rows {
                base = record down.rows.base {
                  records = records;
                  issues = change_issue i.id legacy_removed down.rows.base.issues;
                  versions = retire_version v.id down.rows.base.versions;
                  audit = audit;
                };
              };
            },
          )

  unfoldable pub remove_v2 :
      (record_id request_hash actor_key : String)
      → RemovalTables
      → Issue
      → Version
      → Envelope
      → Result (RemovalResult × RemovalTables)
  remove_v2 record_id request_hash actor_key t i v job = do
    events ← insert_row same_publication_event (removal_event d q i) t.rows.publication_events
    restricted ← create_privacy_restriction d q i.id (removal_event_id d q) false t
    jobs ←
        insert_row same_job (outbox_row (removal_outbox_id d q) i.id v.id job d.now)
          t.rows.base.jobs
    audit ← insert_row same_audit (removal_audit d q actor_key i job) t.rows.base.audit
    records ←
        complete_operator_mutation record_id request_hash (removal_result d q i job)
          t.rows.base.records
    ok (
      removal_result d q i job,
      record restricted {
        rows = record t.rows {
          publication_events = events;
          base = record t.rows.base {
            records = records;
            issues = change_issue i.id (removal_requested_issue d q job) t.rows.base.issues;
            jobs = jobs;
            audit = audit;
          };
        };
      },
    )

  unfoldable pub remove_found :
      (record_id request_hash actor_key : String)
      → RemovalTables
      → Option (Issue × Version)
      → Result (RemovalResult × RemovalTables)
  remove_found record_id request_hash actor_key t none = err (coded "resource_not_found" 404)
  remove_found record_id request_hash actor_key t (some (i, v)) = do
    check_publication q.removal.expected_domain_version q.removal.expected_timeline_head i
    if i.is_v2
        then build_chain_job d.hashing (removal_job d q i v)
          >>= remove_v2 record_id request_hash actor_key t i v
        else remove_legacy record_id request_hash actor_key t i v

  unfoldable pub remove_reserved :
      MutationReservation RemovalResult
      → RemovalTables
      → Result ((Bool × RemovalResult) × RemovalTables)
  remove_reserved (replayed response) t = ok ((true, response), t)
  remove_reserved (fresh record_id request_hash actor_key) t = do
    assert_operator_switches t.rows.base.switches false
    out ← remove_found record_id request_hash actor_key t (
        with_version (find_public_issue q.public_id q.actor.organization_id t.rows.base.issues)
          t.rows.base.versions)
    ok ((false, out.0), out.1)

  unfoldable pub remove_published_issue :
      RemovalTables → Result ((Bool × RemovalResult) × RemovalTables)
  remove_published_issue t = do
    reservation ← reserve_operator_mutation d (removal_request q) t.rows.base.records
    remove_reserved reservation.0 (record t {
      rows = record t.rows { base = record t.rows.base { records = reservation.1 } };
    })
