-- ===== src/Examples/Signals.antt =====
-- A citizen's signal on a published issue: recorded, retracted and recorded again.
use nagarik_signals.Base.{◌≡◌, refl, true, false, none, [], ◌∷◌, ok, err, error, Result}
use nagarik_signals.Domain.Workflow.{open_state}
use nagarik_signals.Base.Hex.{to_hex}
use nagarik_signals.Base.Utf8.{utf8, utf8_char}
use nagarik_signals.Proof.Canonical.{digits}
use nagarik_signals.Security.Ids.{
  keyed_actor_hash, deterministic_uuid, format_uuid, mark_uuid, change_byte, first_chars, from_char,
  joined,
}
use nagarik_signals.Services.Switches.{invite_signals, find_switch}
use nagarik_signals.Services.Operations.{OperatorDependencies}
use nagarik_signals.Services.Operations.Once.{at_time}
use nagarik_signals.Services.Issues.{
  public_source, Issue, published, is_capability_enabled, insert_row,
}
use nagarik_signals.Services.Signals.{
  SignalRequest, SignalResult, record_public_signal, retract_public_signal, retract_existing,
  signalable, signal_key_of, activate, publish_count, signal_id, audit_detail,
}
use nagarik_signals.Services.Signals.Store.{
  SignalTables, select_signalable, is_projected, find_public_issue, find_signal, has_key,
  update_signal, count_active, write_count,
}
use nagarik_signals.Services.Signals.Twice.{retract_public_signal-once}
use nagarik_signals.Examples.World.{digest, uuid, sums}

abbrev pub services : OperatorDependencies
services = record {
  hashing = sums;
  hmac = λ key actor. digest;
  correlation_key = digest;
  now = 1_000;
}

abbrev pub issue : Issue
issue = record {
  id = "issue";
  public_id = uuid;
  organization_id = "organization";
  is_v2 = true;
  publication_state = published;
  lifecycle = open_state;
  current_version_id = "version";
  domain_version = 1;
  checkpoint_update_count = 1;
  projected_timeline_head = digest;
  projected_handoff_head = digest;
  blocked_from_sequence = none;
  source_submission_id = none;
  record_kind = public_source;
  updated_at = 0;
}

abbrev request : SignalRequest
request = record {
  public_id = uuid;
  capability = record {
    organization_id = "organization";
    capability_id = "capability";
    key_version = 1;
  };
}

abbrev no_signals : SignalTables
no_signals = record {
  switches =
      record {
        capability = invite_signals;
        disabled = false;
        version = 1;
        reason = "";
        updated_by = none;
        updated_at = 0;
      }
      ∷ [];
  issues = issue ∷ [];
  projections =
      record { public_id = uuid; publication_state = published; signal_count = 0; updated_at = 0 }
      ∷ [];
  signals = [];
  audit = [];
}

abbrev tables_of : Result (SignalResult × SignalTables) → SignalTables
tables_of (ok out) = out.1
tables_of (err e) = no_signals

abbrev result_of : Result (SignalResult × SignalTables) → SignalResult
result_of (ok out) = out.0
result_of (err e) = record { replayed = true; public_id = ""; signal_count = 0 }

-- The signal is recorded, retracted, and recorded again.
abbrev recorded : Result (SignalResult × SignalTables)
recorded = record_public_signal services request no_signals

abbrev retracted_then : Result (SignalResult × SignalTables)
retracted_then = retract_public_signal services request (tables_of recorded)

abbrev recorded_then : Result (SignalResult × SignalTables)
recorded_then = record_public_signal (at_time 2_000 services) request (tables_of retracted_then)

-- All three succeed, and the retraction changes something.
runs :
    (recorded ≡ ok (result_of recorded, tables_of recorded))
    × (retracted_then ≡ ok (result_of retracted_then, tables_of retracted_then))
    × (recorded_then ≡ ok (result_of recorded_then, tables_of recorded_then))
    × ((result_of retracted_then).replayed ≡ false)
unfolding record_public_signal retract_public_signal retract_existing signalable select_signalable
    is_projected is_capability_enabled find_switch find_public_issue signal_key_of keyed_actor_hash
    activate find_signal has_key insert_row publish_count update_signal count_active write_count
    signal_id deterministic_uuid format_uuid mark_uuid change_byte first_chars from_char joined
    to_hex utf8_char utf8 audit_detail digits
runs = (refl, refl, refl, refl)

retract_public_signal-once_example :
    retract_public_signal (at_time 3_000 services) request (tables_of recorded_then)
    ≡ err (error "unique_violation")
retract_public_signal-once_example =
    retract_public_signal-once services request 2_000 3_000 (tables_of recorded)
      (tables_of retracted_then) (tables_of recorded_then) (result_of retracted_then)
      (result_of recorded_then) runs.1 runs.3 runs.2
