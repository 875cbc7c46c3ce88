-- ===== src/Services/Publication/Correction.antt =====
-- apps/web/lib/services/publication.ts: `correctPublishedIssue`. Its transaction is in Correct.
pub mod Correct
pub mod Replaced
pub mod Laws
use Prim.Native.String.{◌++◌}
use nagarik_signals.Base.{
  ℕ, suc, ◌+◌, ◌&&◌, true, false, not, Bool, Option, none, some, String, ◌==◌, string_eq,
}
use nagarik_signals.Base.Clock.{iso_string}
use nagarik_signals.Chain.Protocol.{Hashing, metadata_version_committed, v2_lifecycles}
use nagarik_signals.Chain.Job.Schema.{Envelope}
use nagarik_signals.Chain.Job.Codec.{JobInput}
use nagarik_signals.Proof.Canonical.{
  Json, number, text, object, Members, no_members, member, json_hash,
}
use nagarik_signals.Security.Ids.{deterministic_uuid, deterministic_uuid_v4}
use nagarik_signals.Services.Operations.{Operator, OperatorDependencies, MutationRequest}
use nagarik_signals.Services.Issues.{
  commit_pending, v2_categories, Category, Issue, Version, AuditRow, issue_snapshot,
}
use nagarik_signals.Services.Media.{MediaObject, approved_public, media_eq}
use nagarik_signals.Services.Publication.{
  PublicCopy, PublicationEvent, corrected, category_name, text_or_null, member_or_null, with_member,
}

-- `CorrectionInput`
pub record CorrectionInput : Type 0 where
  pub expected_domain_version : ℕ
  pub expected_timeline_head : String
  pub reason_code : String
  pub private_note : String
  pub copy : PublicCopy

-- `StableCorrectionResult`, whose publication state is always `commit_pending`.
pub record CorrectionResult : Type 0 where
  pub public_id : String
  pub version_id : String
  pub version_number : ℕ
  pub domain_version : ℕ
  pub chain_sequence : ℕ
  pub timeline_head : String

pub record CorrectionRequest : Type 0 where
  pub public_id : String
  pub idempotency_key : String
  pub actor : Operator
  pub correction : CorrectionInput

unfoldable pub correction_request : CorrectionRequest → MutationRequest
correction_request q = record {
  scope = "operator:correction:" ++ q.public_id;
  actor = q.actor;
  idempotency_key = q.idempotency_key;
  request = object (
      member "expectedDomainVersion" (number q.correction.expected_domain_version) (
        member "expectedTimelineHead" (text q.correction.expected_timeline_head) (
          member "reasonCode" (text q.correction.reason_code) (
            member "privateNote" (text q.correction.private_note) (
              member "publicCopy"
                (object (
                  member "title" (text q.correction.copy.title) (
                    member "narrative" (text q.correction.copy.narrative) (
                      member "wardLabel" (text q.correction.copy.ward_label) (
                        member "localityLabel" (text_or_null q.correction.copy.locality_label) (
                          member "publicReason" (text_or_null q.correction.copy.public_reason)
                            no_members))))))
                no_members)))));
}

-- The media that a corrected version shows: public, a derivative, and of this organization.
abbrev pub is_public_media : (id organization_id : String) → MediaObject → Bool
is_public_media id organization_id m =
    m.id == id
    && m.organization_id == organization_id
    && m.state == approved_public
    && (elim m.source_media_id [ none ↦ false | some s ↦ true ])

-- `canonicalMetadata`
unfoldable pub version_metadata :
    (public_id : String) (number : ℕ) (copy : PublicCopy) (locality reason : Option String)
    → Category
    → (observed_on : Json) (ward_id : String) (location provenance : Members) (media_id : String)
    → Json
version_metadata public_id n copy locality reason category observed_on ward_id location provenance
      media_id =
    object (
      member "schemaVersion" (text "nagarik-public-version-v2") (
        member "publicId" (text public_id) (
          member "version" (number n) (
            member "title" (text copy.title) (
              member "narrative" (text copy.narrative) (
                member "category" (text (category_name category)) (
                  member "observedOn" observed_on (
                    member "ward"
                      (object (
                        member "id" (text ward_id)
                          (member "label" (text copy.ward_label) no_members)))
                      (member "localityLabel" (text_or_null locality) (
                        member "publicLocation" (object location) (
                          member "publicMediaId" (text media_id) (
                            member "provenance" (object provenance)
                              (member "publicReason" (text_or_null reason) no_members)))))))))))))

unfoldable pub version_payload :
    (operation public_id version_id metadata_hash evidence_hash location_hash : String) → Json
version_payload operation public_id version_id metadata_hash evidence_hash location_hash = object (
    member "schemaVersion" (text "nagarik-chain-payload-v2") (
      member "operation" (text operation) (
        member "publicId" (text public_id) (
          member "versionId" (text version_id) (
            member "metadataHash" (text metadata_hash) (
              member "evidenceHash" (text evidence_hash)
                (member "locationHash" (text location_hash) no_members)))))))

module _ (d : OperatorDependencies) (q : CorrectionRequest) where
  abbrev pub correction_identity : String
  correction_identity = q.public_id ++ ":" ++ q.idempotency_key

  unfoldable pub correction_version_id : String
  correction_version_id =
      deterministic_uuid_v4 d.hashing "nagarik:v2:issue-correction-version" correction_identity

  unfoldable pub correction_event_id : String
  correction_event_id =
      deterministic_uuid_v4 d.hashing "nagarik:v2:publication-correction" correction_identity

  unfoldable pub corrected_provenance : Version → Members
  corrected_provenance v =
      with_member "correction"
        (object (
          member "schemaVersion" (text "nagarik-correction-v1") (
            member "reasonCode" (text q.correction.reason_code) (
              member "correctedAt" (text (iso_string d.now))
                (member "supersedesVersion" (number v.version_number) no_members)))))
        v.public_provenance

  unfoldable pub corrected_metadata_hash : Version → String
  unfolding corrected_provenance
  corrected_metadata_hash v = json_hash d.hashing (
      version_metadata q.public_id (v.version_number + 1) q.correction.copy
        q.correction.copy.locality_label q.correction.copy.public_reason v.category
        (member_or_null "observedOn" v.public_provenance) v.ward_id v.public_location
        (corrected_provenance v) v.public_media_id)

  unfoldable pub corrected_location_hash : Version → String
  corrected_location_hash v = json_hash d.hashing (object v.public_location)
