-- ===== src/Examples/Publication.antt =====
-- A published issue is corrected, and another time removed.
use nagarik_signals.Base.{◌≡◌, refl, sym, true, false, none, some, [], ◌∷◌, ok, err, Result, Bool}
use nagarik_signals.Domain.Workflow.{in_progress}
use nagarik_signals.Services.Switches.{SwitchRow, publication, find_switch}
use nagarik_signals.Services.Operations.{
  Operator, reserve_operator_mutation, answer_reservation, complete_operator_mutation,
  operator_reservation,
}
use nagarik_signals.Services.Issues.{
  is_capability_enabled, with_version, find_v2_issue, find_version, change_issue, insert_row,
  issue_snapshot, outbox_row,
}
use nagarik_signals.Services.Lifecycle.{LifecycleRequest}
use nagarik_signals.Services.Media.{MediaObject, approved_public}
use nagarik_signals.Services.Publication.{
  PublicationTables, assert_operator_switches, check_publication,
}
use nagarik_signals.Services.Publication.Correction.{CorrectionRequest, CorrectionResult}
use nagarik_signals.Services.Publication.Correction.Correct.{
  CorrectionTables, correct_published_issue,
}
use nagarik_signals.Services.Publication.Removal.{
  RemovalRequest, RemovalResult, RemovalTables, removal_request,
}
use nagarik_signals.Services.Publication.Removal.Remove.{
  remove_published_issue, remove_v2, remove_found, remove_reserved,
}
use nagarik_signals.Services.Publication.Removal.Outcome.{Outcome}
use nagarik_signals.Services.Publication.Removal.Pending.{
  IsLeftOpen, remove_published_issue-IsLeftOpen,
}
use nagarik_signals.Examples.World.{digest, uuid}
use nagarik_signals.Examples.Signals.{services}
use nagarik_signals.Examples.Lifecycle.{before_change}
use nagarik_signals.Security.Ids.{
  keyed_actor_hash, change_byte, deterministic_uuid, deterministic_uuid_v4, first_chars,
  format_uuid, from_char, joined, mark_uuid,
}
use nagarik_signals.Base.Utf8.{utf8, utf8_char}
use nagarik_signals.Services.Idempotency.{
  reserve_idempotency, reserve_found, find_record, awaits_response, complete_idempotency, respond,
  same_request,
}
use nagarik_signals.Chain.Job.Codec.{build_chain_job, derive_head, next_snapshot}
use nagarik_signals.Base.Clock.{date_of, iso_string, padded}
use nagarik_signals.Base.Hex.{from_hex, hex_digit, to_hex}
use nagarik_signals.Base.Text.{is_hex, is_uuid_v4, matches_places, uuid_v4_places, without_dashes}
use nagarik_signals.Chain.Protocol.{
  derive_event_id, derive_event_record_hash, derive_issue_key, derive_operation_id,
  derive_stream_head, discriminant, exact32, uuid_v4_bytes,
}
use nagarik_signals.Proof.Canonical.{
  canonicalize, commas, digits, escape, in_order, insert, json_hash, render, sort, stringify,
}
use nagarik_signals.Services.Signals.Store.{find_public_issue}
use nagarik_signals.Services.Publication.Removal.Restriction.{
  max_overlay, create_privacy_restriction,
}
use nagarik_signals.Services.Publication.Removal.Rows.{
  removal_event_id, removal_public_event, removal_metadata_hash, removal_job, removal_event,
  removal_requested_issue, removal_audit, removal_result,
}

abbrev pub publication_on : SwitchRow
publication_on = record {
  capability = publication;
  disabled = false;
  version = 1;
  reason = "";
  updated_by = none;
  updated_at = 0;
}

abbrev picture : MediaObject
picture = record {
  id = "media";
  organization_id = "organization";
  source_media_id = some "original";
  state = approved_public;
  storage_key = "durable/media";
  sha256 = digest;
  version = 2;
  expires_at = none;
  denied_at = none;
  deleted_at = none;
  updated_at = 0;
}

abbrev public_tables : {R : Type 0} → PublicationTables R
public_tables {R} = record {
  base = record (before_change {R = R}) {
    switches = publication_on ∷ (before_change {R = R}).switches;
  };
  media = picture ∷ [];
  publication_events = [];
}

abbrev operator : Operator
operator = record { subject_id = "operator"; organization_id = "organization" }

abbrev correction : CorrectionRequest
correction = record {
  public_id = uuid;
  idempotency_key = uuid;
  actor = operator;
  correction = record {
    expected_domain_version = 1;
    expected_timeline_head = digest;
    reason_code = "wrong_ward";
    private_note = "Reported by phone";
    copy = record {
      title = "Broken drain on Main Road";
      narrative = "The drain has been broken for two weeks.";
      ward_label = "Ward 2";
      locality_label = none;
      public_reason = some "Ward corrected";
    };
  };
}

abbrev corrected_now : Result ((Bool × CorrectionResult) × CorrectionTables)
corrected_now = correct_published_issue services correction public_tables

abbrev correction_tables : Result ((Bool × CorrectionResult) × CorrectionTables) → CorrectionTables
correction_tables (ok out) = out.1
correction_tables (err e) = public_tables

abbrev correction_answer : Result ((Bool × CorrectionResult) × CorrectionTables) → CorrectionResult
correction_answer (ok out) = out.0.1
correction_answer (err e) = record {
  public_id = "";
  version_id = "";
  version_number = 0;
  domain_version = 0;
  chain_sequence = 0;
  timeline_head = "";
}

abbrev removal : RemovalRequest
removal = record {
  public_id = uuid;
  idempotency_key = uuid;
  actor = operator;
  removal = record {
    expected_domain_version = 1;
    expected_timeline_head = digest;
    reason_code = "privacy";
    public_message = "Removed after a privacy review";
    private_note = "Face visible";
    cache_purge_reference = "purge-9";
  };
}

abbrev removal_tables_before : RemovalTables
removal_tables_before = record {
  rows = public_tables;
  privacy_requests = [];
  overlays = [];
  public_issues = [];
  public_media = [];
  recovery = [];
}

abbrev removed_now : Result ((Bool × RemovalResult) × RemovalTables)
removed_now = remove_published_issue services removal removal_tables_before

abbrev removal_tables : Result ((Bool × RemovalResult) × RemovalTables) → RemovalTables
removal_tables (ok out) = out.1
removal_tables (err e) = removal_tables_before

abbrev removal_answer : Result ((Bool × RemovalResult) × RemovalTables) → RemovalResult
removal_answer (ok out) = out.0.1
removal_answer (err e) = record {
  public_id = "";
  pending = false;
  domain_version = 0;
  chain_sequence = none;
  timeline_head = "";
}

-- The removal succeeds, and waits for its confirmation.
removal_succeeds :
    (removed_now ≡ ok ((false, removal_answer removed_now), removal_tables removed_now))
    × ((removal_answer removed_now).pending ≡ true)
    × ((removal_answer removed_now).domain_version ≡ 2)
unfolding remove_published_issue reserve_operator_mutation keyed_actor_hash utf8 utf8_char
    reserve_idempotency reserve_found find_record is_capability_enabled find_switch with_version
    find_v2_issue find_version build_chain_job date_of iso_string padded from_hex hex_digit to_hex
    is_hex is_uuid_v4 matches_places uuid_v4_places without_dashes derive_head next_snapshot
    derive_event_id derive_event_record_hash derive_issue_key derive_operation_id derive_stream_head
    discriminant exact32 uuid_v4_bytes canonicalize commas digits escape in_order insert json_hash
    render sort stringify change_byte deterministic_uuid deterministic_uuid_v4 first_chars
    format_uuid from_char joined mark_uuid awaits_response complete_idempotency respond same_request
    change_issue insert_row issue_snapshot outbox_row answer_reservation complete_operator_mutation
    operator_reservation assert_operator_switches check_publication find_public_issue
    removal_request max_overlay create_privacy_restriction removal_event_id removal_public_event
    removal_metadata_hash removal_job removal_event removal_requested_issue removal_audit
    removal_result remove_v2 remove_found remove_reserved
removal_succeeds = (refl, refl, refl)

-- A lifecycle change by an operator who has seen the answer.
abbrev later_change : LifecycleRequest
later_change = record {
  public_id = uuid;
  idempotency_key = "later";
  actor = operator;
  change = record {
    expected_domain_version = 2;
    expected_timeline_head = (removal_answer removed_now).timeline_head;
    to_state = in_progress;
    reason_code = "work_started";
    public_note = none;
    observed_at = none;
  };
}

remove_published_issue-IsLeftOpen_example :
    IsLeftOpen services removal later_change removal_tables_before (removal_tables removed_now)
remove_published_issue-IsLeftOpen_example =
    remove_published_issue-IsLeftOpen services removal later_change removal_tables_before
      (removal_answer removed_now) (removal_tables removed_now) removal_succeeds.0
      removal_succeeds.1 (sym removal_succeeds.2) refl
