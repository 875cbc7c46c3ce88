-- ===== src/Examples/Lifecycle.antt =====
-- An operator moves a published issue from open to in progress, and repeats the request.
use nagarik_signals.Base.{
  ◌≡◌, refl, true, false, none, some, [], ◌∷◌, ok, err, Result, Bool, arith, text-ne, ◌==◌,
  string_eq,
}
use nagarik_signals.Base.Text.{
  is_hash_hex, is_uuid_v4, is_hex, matches_places, uuid_v4_places, without_dashes,
}
use nagarik_signals.Domain.Workflow.{
  open_state, in_progress, assert_lifecycle_transition, lifecycle_transitions,
}
use nagarik_signals.Chain.Job.Schema.{zero_hash}
use nagarik_signals.Chain.Job.Codec.{build_chain_job, derive_head, next_snapshot}
use nagarik_signals.Proof.Canonical.{
  json_hash, no_members, canonicalize, commas, digits, escape, in_order, insert, render, sort,
  stringify,
}
use nagarik_signals.Services.Idempotency.{
  find_record, reserve_idempotency, reserve_found, awaits_response, complete_idempotency, renew,
  respond, same_request,
}
use nagarik_signals.Services.Switches.{operator_mutations, find_switch}
use nagarik_signals.Services.Operations.Once.{at_time, reservation_of}
use nagarik_signals.Services.Issues.{
  Version, road, published, IssueTables, is_capability_enabled, with_version, find_v2_issue,
  find_version, change_issue, insert_row, issue_snapshot, outbox_row,
}
use nagarik_signals.Services.Issues.Sound.{IsSound}
use nagarik_signals.Services.Lifecycle.{
  LifecycleRequest, LifecycleResult, check_lifecycle, lifecycle_job, public_event, mutation_request,
  change_json, lifecycle_audit, lifecycle_event, lifecycle_event_id, lifecycle_result, moved_issue,
}
use nagarik_signals.Services.Lifecycle.Change.{
  LifecycleTables, change_issue_lifecycle, change_reserved, lifecycle_found, write_lifecycle,
}
use nagarik_signals.Services.Lifecycle.Laws.{IsCarriedOut, change_issue_lifecycle-IsCarriedOut}
use nagarik_signals.Services.Lifecycle.Accepted.{IsAccepted, lifecycle_job-IsAccepted}
use nagarik_signals.Services.Lifecycle.Replay.{change_issue_lifecycle-replay}
use nagarik_signals.Examples.World.{digest, uuid}
use nagarik_signals.Examples.Signals.{services, issue}
use nagarik_signals.Services.Operations.{
  reserve_operator_mutation, answer_reservation, complete_operator_mutation, operator_reservation,
}
use nagarik_signals.Security.Ids.{
  keyed_actor_hash, change_byte, deterministic_uuid, deterministic_uuid_v4, first_chars,
  format_uuid, from_char, joined, mark_uuid,
}
use nagarik_signals.Base.Utf8.{utf8, utf8_char}
use nagarik_signals.Base.Clock.{date_of, iso_string, padded}
use nagarik_signals.Base.Hex.{from_hex, hex_digit, to_hex}
use nagarik_signals.Chain.Protocol.{
  derive_event_id, derive_event_record_hash, derive_issue_key, derive_operation_id,
  derive_stream_head, discriminant, exact32, uuid_v4_bytes,
}

abbrev pub version : Version
version = record {
  id = "version";
  issue_id = "issue";
  version_number = 1;
  state = published;
  title = "Broken drain";
  narrative = "The drain has been broken for a week.";
  category = road;
  ward_id = "ward-1";
  ward_label = "Ward 1";
  locality_label = none;
  public_location = no_members;
  public_media_id = "media";
  public_provenance = no_members;
  metadata_hash = digest;
  evidence_hash = digest;
  location_hash = digest;
  public_reason = none;
  created_at = 0;
}

abbrev pub before_change : {R : Type 0} → IssueTables R
before_change = record {
  records = [];
  switches =
      record {
        capability = operator_mutations;
        disabled = false;
        version = 1;
        reason = "";
        updated_by = none;
        updated_at = 0;
      }
      ∷ [];
  issues = issue ∷ [];
  versions = version ∷ [];
  lifecycle_events = [];
  jobs = [];
  audit = [];
}

abbrev request : LifecycleRequest
request = record {
  public_id = uuid;
  idempotency_key = uuid;
  actor = record { subject_id = "operator"; organization_id = "organization" };
  change = record {
    expected_domain_version = 1;
    expected_timeline_head = digest;
    to_state = in_progress;
    reason_code = "work_started";
    public_note = some "Crew on site";
    observed_at = none;
  };
}

abbrev changed : Result ((Bool × LifecycleResult) × LifecycleTables)
changed = change_issue_lifecycle services request before_change

abbrev tables_of : Result ((Bool × LifecycleResult) × LifecycleTables) → LifecycleTables
tables_of (ok out) = out.1
tables_of (err e) = before_change

abbrev result_of : Result ((Bool × LifecycleResult) × LifecycleTables) → LifecycleResult
result_of (ok out) = out.0.1
result_of (err e) = record {
  public_id = "";
  lifecycle = open_state;
  domain_version = 0;
  chain_sequence = 0;
  timeline_head = "";
}

succeeds : changed ≡ ok ((false, result_of changed), tables_of changed)
unfolding change_issue_lifecycle reserve_operator_mutation keyed_actor_hash utf8 utf8_char
    reserve_idempotency reserve_found find_record change_reserved is_capability_enabled find_switch
    lifecycle_found with_version find_v2_issue find_version check_lifecycle
    assert_lifecycle_transition build_chain_job date_of iso_string padded from_hex hex_digit to_hex
    is_hex is_uuid_v4 matches_places uuid_v4_places without_dashes derive_head next_snapshot
    derive_event_id derive_event_record_hash derive_issue_key derive_operation_id derive_stream_head
    discriminant exact32 uuid_v4_bytes lifecycle_transitions canonicalize commas digits escape
    in_order insert json_hash render sort stringify change_byte deterministic_uuid
    deterministic_uuid_v4 first_chars format_uuid from_char joined mark_uuid awaits_response
    complete_idempotency renew respond same_request change_issue insert_row issue_snapshot
    outbox_row write_lifecycle change_json lifecycle_audit lifecycle_event lifecycle_event_id
    lifecycle_job lifecycle_result moved_issue mutation_request public_event answer_reservation
    complete_operator_mutation operator_reservation
succeeds = refl

change_issue_lifecycle-IsCarriedOut_example :
    IsCarriedOut services request before_change (result_of changed) (tables_of changed)
change_issue_lifecycle-IsCarriedOut_example =
    change_issue_lifecycle-IsCarriedOut services request before_change (result_of changed)
      (tables_of changed) succeeds

unknown :
    find_record {R = LifecycleResult} (reservation_of services (mutation_request request)) [] ≡ none
unfolding find_record
unknown = refl

change_issue_lifecycle-replay_example :
    change_issue_lifecycle (at_time 9_000 services) request (tables_of changed)
    ≡ ok ((true, result_of changed), tables_of changed)
change_issue_lifecycle-replay_example =
    change_issue_lifecycle-replay services request before_change (result_of changed)
      (tables_of changed) 9_000 unknown succeeds

sound : IsSound issue version
unfolding is_hash_hex
sound = record {
  timeline = refl;
  handoff = refl;
  metadata = refl;
  evidence = refl;
  location = refl;
  room = omega arith;
}

ready :
    (is_uuid_v4 uuid ≡ true)
    × (check_lifecycle request.change issue ≡ ok tt)
    × ((json_hash services.hashing (public_event request open_state 1_000) == zero_hash) ≡ false)
unfolding check_lifecycle assert_lifecycle_transition lifecycle_transitions is_uuid_v4 is_hex
    matches_places uuid_v4_places public_event json_hash canonicalize commas digits escape in_order
    insert render sort stringify utf8 utf8_char date_of iso_string padded hex_digit to_hex
ready = (refl, refl, refl)

lifecycle_job-IsAccepted_example : IsAccepted services request issue version
lifecycle_job-IsAccepted_example =
    lifecycle_job-IsAccepted services request issue version ready.0 sound ready.1
      (text-ne _ _ ready.2)
