-- ===== src/Examples/Moderation.antt =====
-- A submission is approved with a receipt.
use nagarik_signals.Base.{none, some, [], ◌∷◌, ok, err, Result, Bool, replicate, String}
use nagarik_signals.Base.Text.{Bytes}
use nagarik_signals.Domain.Workflow.{under_review}
use nagarik_signals.Proof.Canonical.{object, text, number, member, no_members}
use nagarik_signals.Security.Tokens.{operator_media}
use nagarik_signals.Services.Issues.{public_source, road}
use nagarik_signals.Services.Media.{MediaObject, approved_private, redacted_derivative}
use nagarik_signals.Services.Moderation.{
  approve, ModerationRequest, ModerationDependencies, ModerationTables, ModerationResult,
}
use nagarik_signals.Services.Moderation.Moderate.{moderate_submission}
use nagarik_signals.Examples.World.{digest, uuid}
use nagarik_signals.Examples.Signals.{services}
use nagarik_signals.Examples.Lifecycle.{before_change}
use nagarik_signals.Examples.Publication.{publication_on}

abbrev zeros : Bytes
zeros = replicate 32 0

abbrev dependencies : ModerationDependencies
dependencies = record {
  operations = services;
  keys = record { derivation_key = zeros; verifier_key = zeros; hmac_sha256 = λ key bytes. zeros };
  parse_json = λ s. none;
}

-- A capability's token, its secret being all zeros.
abbrev token : String
token = "nomr.1.00000000-0000-4000-8000-000000000000.AAAAAAAAAAAAAAAAAAAAAAAAAAAAAAAAAAAAAAAAAAA"

abbrev photograph : MediaObject
photograph = record {
  id = "original";
  organization_id = uuid;
  source_media_id = none;
  state = approved_private;
  storage_key = "private/original";
  sha256 = digest;
  version = 1;
  expires_at = none;
  denied_at = none;
  deleted_at = none;
  updated_at = 0;
}

abbrev derivative : MediaObject
derivative = record photograph {
  id = uuid;
  source_media_id = some "original";
  state = redacted_derivative;
  version = 1;
}

abbrev tables : ModerationTables
tables = record {
  publications = record {
    base = record (before_change {R = ModerationResult}) {
      switches = publication_on ∷ (before_change {R = ModerationResult}).switches;
      issues = [];
      versions = [];
    };
    media = photograph ∷ derivative ∷ [];
    publication_events = [];
  };
  submissions =
      record {
        id = uuid;
        organization_id = uuid;
        record_kind = public_source;
        state = under_review;
        version = 2;
        current_revision_number = 1;
        assigned_to = none;
        first_review_at = none;
        terminal_at = none;
        updated_at = 0;
      }
      ∷ [];
  revisions =
      record {
        id = "revision";
        submission_id = uuid;
        revision_number = 1;
        title = "Broken drain";
        narrative = "The drain has been broken for two weeks.";
        category = road;
        observed_on = "2026-11-02";
        ward_id = "ward-2";
        locality_label = none;
        provenance_private =
            member "candidatePublicLocation"
              (object (
                member "policyVersion" (text "grid-0.01deg-v1")
                  (member "wardId" (text "ward-2") no_members)))
              no_members;
      }
      ∷ [];
  links = record { revision_id = "revision"; media_id = "original"; position = 0 } ∷ [];
  capabilities =
      record {
        row = record {
          coordinates = record {
            key_version = 1;
            purpose = operator_media;
            organization_id = uuid;
            capability_id = uuid;
            subject_id = uuid;
            issuance_idempotency_id = uuid;
          };
          verifier = zeros;
          state = "active";
          expires_at = 90_000;
          scope = object (
              member "schemaVersion" (text "operator-media-binding-v1") (
                member "purpose" (text "initial_publication") (
                  member "targetType" (text "submission") (
                    member "targetId" (text uuid) (
                      member "issuedBy" (text "operator") (
                        member "mediaId" (text uuid) (
                          member "mediaVersion" (number 1) (
                            member "evidenceHash" (text digest)
                              (member "sourceMediaId" (text "original") no_members)))))))));
        };
        consumed_at = none;
      }
      ∷ [];
  moderation_events = [];
}

abbrev request : ModerationRequest
request = record {
  submission_id = uuid;
  idempotency_key = uuid;
  actor = record { subject_id = "operator"; organization_id = uuid };
  moderation = record {
    decision = approve;
    expected_version = 2;
    reason_code = "complete_report";
    private_note = none;
    public_safe_message = none;
    public_copy = some (record {
      title = "Broken drain on Main Road";
      narrative = "The drain has been broken for two weeks.";
      ward_label = "Ward 2";
      locality_label = none;
      public_reason = none;
    });
    media_binding_receipt = some token;
  };
}

abbrev moderated : Result ((Bool × ModerationResult) × ModerationTables)
moderated = moderate_submission dependencies request tables

abbrev tables_after : Result ((Bool × ModerationResult) × ModerationTables) → ModerationTables
tables_after (ok out) = out.1
tables_after (err e) = tables

abbrev answer_of : Result ((Bool × ModerationResult) × ModerationTables) → ModerationResult
answer_of (ok out) = out.0.1
answer_of (err e) = record { submission_id = ""; state = under_review; version = 0; issue = none }
