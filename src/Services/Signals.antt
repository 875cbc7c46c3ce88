-- ===== src/Services/Signals.antt =====
-- apps/web/lib/services/signals.ts: citizens record and retract attention signals on public issues.
-- The tables are those of supabase/migrations/20260731000200_core.sql; a transaction that throws
-- changes nothing, so its body gives a result or an error.
pub mod Store
pub mod Laws
pub mod Counts
pub mod Published
pub mod Moves
pub mod Effects
pub mod Twice
use Prim.Native.String.{◌++◌}
use nagarik_signals.Base.{
  ℕ, suc, ◌&&◌, true, false, not, Bool, Option, none, some, String, List, [], ◌∷◌, ◌==◌, nat_eq,
  string_eq, if◌then◌else◌, Result, ok, err, coded, ◌>>=◌, Eq, nat_beq, ◌↔◌, ◌≡◌, arith,
}
use nagarik_signals.Chain.Protocol.{Hashing}
use nagarik_signals.Proof.Canonical.{Json, text, number, object, no_members, member, decimal}
use nagarik_signals.Security.Ids.{deterministic_uuid, deterministic_uuid_v4, keyed_actor_hash}
use nagarik_signals.Services.Switches.{SwitchRow, invite_signals}
use nagarik_signals.Services.Operations.{OperatorDependencies}
use nagarik_signals.Services.Issues.{
  PublicationState, published, publication_eq, Issue, AuditRow, is_capability_enabled, insert_row,
  same_audit,
}
use nagarik_signals.Services.Signals.Store.{
  active, retracted, removed, signal_state_eq, Signal, SignalTables, SignalKey, find_signal,
  same_signal, update_signal, count_active, select_signalable, write_count,
}

-- `SignalCapability`
pub record SignalCapability : Type 0 where
  pub organization_id : String
  pub capability_id : String
  pub key_version : ℕ

pub record SignalRequest : Type 0 where
  pub public_id : String
  pub capability : SignalCapability

-- `SignalResult`, whose semantics is always `attention_not_verification`.
pub record SignalResult : Type 0 where
  pub replayed : Bool
  pub public_id : String
  pub signal_count : ℕ

-- Which of the two reasons a missing row has.
abbrev pub found_or_refused : (enabled : Bool) → Option Issue → Result Issue
found_or_refused enabled (some i) = ok i
found_or_refused true none = err (coded "issue_not_signalable" 404)
found_or_refused false none = err (coded "signals_disabled" 503)

unfoldable pub signalable : SignalRequest → SignalTables → Result Issue
signalable q t =
    found_or_refused (is_capability_enabled invite_signals t.switches)
      (select_signalable q.public_id q.capability.organization_id t)

unfoldable pub signal_key_of : OperatorDependencies → SignalRequest → Issue → Result String
signal_key_of d q i =
    keyed_actor_hash d.hmac d.correlation_key
      ("signal:" ++ q.capability.capability_id ++ ":" ++ i.id)

abbrev pub stored_key : SignalRequest → Issue → String → SignalKey
stored_key q i key = record {
  issue_id = i.id;
  key_version = q.capability.key_version;
  signal_key = key;
}

unfoldable pub signal_id : Hashing → SignalRequest → Issue → String → String
signal_id h q i key =
    deterministic_uuid h "nagarik:v2:public-signal"
      (i.id ++ ":" ++ decimal q.capability.key_version ++ ":" ++ key)

unfoldable pub audit_detail : ℕ → Json
audit_detail count = object (
    member "semantics" (text "attention_not_verification")
      (member "signalCount" (number count) no_members))

module _ (d : OperatorDependencies) (q : SignalRequest) where
  abbrev pub new_signal : Issue → String → Signal
  new_signal i key = record {
    id = signal_id d.hashing q i key;
    issue_id = i.id;
    key_version = q.capability.key_version;
    signal_key = key;
    state = active;
    created_at = d.now;
    retracted_at = none;
  }

  abbrev pub reactivated : Signal → Signal
  reactivated s = record s { state = active; retracted_at = none }

  abbrev pub retracted_signal : Signal → Signal
  retracted_signal s = record s { state = retracted; retracted_at = some d.now }

  -- The signals after a record, and whether they changed.
  unfoldable pub activate :
      Issue → String → Option Signal → List Signal → Result (Bool × List Signal)
  activate i key none ss = do added ← insert_row same_signal (new_signal i key) ss; ok (true, added)
  activate i key (some s) ss =
      if s.state == retracted
      then ok (true, update_signal s.id retracted reactivated ss)
      else ok (false, ss)

  abbrev pub signal_audit : (id request_id action key : String) → Issue → ℕ → AuditRow
  signal_audit id request_id action key i count = record {
    id = id;
    organization_id = q.capability.organization_id;
    actor_type = "capability";
    actor_key = key;
    action = action;
    resource_type = "issue";
    resource_id = i.id;
    request_id = request_id;
    detail = audit_detail count;
    occurred_at = d.now;
  }

  -- `existing[0] ? 'reactivated' : 'recorded'`
  abbrev pub record_audit : Issue → String → Option Signal → ℕ → AuditRow
  record_audit i key none count =
      let event = signal_id d.hashing q i key ++ ":recorded" in
      signal_audit (deterministic_uuid d.hashing "nagarik:v2:signal-audit" event)
        (deterministic_uuid_v4 d.hashing "nagarik:v2:signal-request" event) "public_signal_recorded"
        key i count
  record_audit i key (some s) count =
      let event = signal_id d.hashing q i key ++ ":reactivated" in
      signal_audit (deterministic_uuid d.hashing "nagarik:v2:signal-audit" event)
        (deterministic_uuid_v4 d.hashing "nagarik:v2:signal-request" event)
        "public_signal_reactivated" key i count

  abbrev pub retraction_audit : Issue → String → Signal → ℕ → AuditRow
  retraction_audit i key s count =
      signal_audit (deterministic_uuid d.hashing "nagarik:v2:signal-retraction-audit" s.id)
        (deterministic_uuid_v4 d.hashing "nagarik:v2:signal-retraction-request" s.id)
        "public_signal_retracted" key i count

  -- The count is written to the projection, and a change to the audit log.
  unfoldable pub publish_count :
      (changed : Bool)
      → Issue
      → (ℕ → AuditRow)
      → List Signal
      → SignalTables
      → Result (SignalResult × SignalTables)
  publish_count changed i audit ss t = do
    let count = count_active i.id ss in
        do
          rows ← (if changed then insert_row same_audit (audit count) t.audit else ok t.audit)
          ok (
            record { replayed = not changed; public_id = q.public_id; signal_count = count },
            record t {
              projections = write_count q.public_id count d.now t.projections;
              signals = ss;
              audit = rows;
            },
          )

  unfoldable pub record_public_signal : SignalTables → Result (SignalResult × SignalTables)
  record_public_signal t = do
    i ← signalable q t
    key ← signal_key_of d q i
    let existing = find_signal (stored_key q i key) t.signals in
        do
          out ← activate i key existing t.signals
          publish_count out.0 i (record_audit i key existing) out.1 t

  -- The signals after a retraction, the audit row it leaves, if it changed anything.
  unfoldable pub retract_existing :
      Issue → String → Option Signal → SignalTables → Result (SignalResult × SignalTables)
  retract_existing i key none t = publish_count false i (signal_audit "" "" "" key i) t.signals t
  retract_existing i key (some s) t =
      if s.state == active
      then publish_count true i (retraction_audit i key s)
          (update_signal s.id active retracted_signal t.signals) t
      else publish_count false i (retraction_audit i key s) t.signals t

  unfoldable pub retract_public_signal : SignalTables → Result (SignalResult × SignalTables)
  retract_public_signal t = do
    i ← signalable q t
    key ← signal_key_of d q i
    retract_existing i key (find_signal (stored_key q i key) t.signals) t
