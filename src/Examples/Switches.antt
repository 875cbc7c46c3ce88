-- ===== src/Examples/Switches.antt =====
-- Runs of apps/web/lib/services/capabilitySwitches.ts.
use nagarik_signals.Base.{◌≡◌, refl, true, false, some, none, [], ◌∷◌, ok}
use nagarik_signals.Services.Idempotency.{
  find_record, reserve_idempotency, reserve_found, complete_idempotency, awaits_response, respond,
}
use nagarik_signals.Services.Switches.{
  public_read, SwitchRow, SwitchResult, SwitchTables, SwitchRequest, SwitchDependencies,
  find_switch, update_switch, apply_change, change_found, answer_disposition, reservation,
  audit_event, change_capability_switch,
}
use nagarik_signals.Services.Switches.Changed.{IsSwitched}
use nagarik_signals.Services.Switches.Laws.{IsApplied, change_capability_switch-IsApplied}
use nagarik_signals.Services.Switches.Replay.{later, change_capability_switch-replay}

abbrev deployment : SwitchDependencies
deployment = record {
  actor_key = λ q. q.actor_subject_id;
  scope = λ _. "operator:capability-switch:publicReadEnabled";
  record_id = λ q. q.idempotency_key;
  request_hash = λ q. q.change.reason;
  ceilings = λ _. true;
  now = 5_000;
}

abbrev request : SwitchRequest
request = record {
  capability = public_read;
  change = record {
    disabled = false;
    expected_version = 1;
    reason = "pilot opens";
    cache_purge_reference = some "purge-7";
  };
  idempotency_key = "key";
  actor_subject_id = "operator";
}

abbrev closed_switch : SwitchRow
closed_switch = record {
  capability = public_read;
  disabled = true;
  version = 1;
  reason = "initial_fail_closed";
  updated_by = none;
  updated_at = 0;
}

abbrev initial : SwitchTables
initial = record { switches = closed_switch ∷ []; records = []; audit = [] }

abbrev opened_result : SwitchResult
opened_result = record {
  capability = public_read;
  disabled = false;
  version = 2;
  changed = true;
  reason = "pilot opens";
  updated_at = 5_000;
}

abbrev opened_tables : SwitchTables
opened_tables = record {
  switches =
      record {
        capability = public_read;
        disabled = false;
        version = 2;
        reason = "pilot opens";
        updated_by = some "operator";
        updated_at = 5_000;
      }
      ∷ [];
  records =
      record { reservation = reservation deployment request; response = some opened_result } ∷ [];
  audit = audit_event deployment request closed_switch opened_result ∷ [];
}

opened :
    change_capability_switch deployment request initial ≡ ok ((false, opened_result), opened_tables)
unfolding change_capability_switch reserve_idempotency reserve_found find_record answer_disposition
    change_found find_switch update_switch apply_change complete_idempotency awaits_response respond
opened = refl

not_known : find_record (reservation deployment request) initial.records ≡ none
unfolding find_record
not_known = refl

change_capability_switch-IsApplied_example :
    (a : IsApplied deployment request initial.switches opened_result) × (opened_tables.audit
      ≡ audit_event deployment request a.before opened_result ∷ [])
    × IsSwitched request opened_result a.before initial.switches opened_tables.switches
change_capability_switch-IsApplied_example =
    change_capability_switch-IsApplied deployment request initial opened_result opened_tables opened

change_capability_switch-replay_example :
    change_capability_switch (later deployment 9_000) request opened_tables
    ≡ ok ((true, opened_result), opened_tables)
change_capability_switch-replay_example =
    change_capability_switch-replay deployment request initial opened_result opened_tables 9_000
      not_known opened
