-- ===== src/Services/Switches.antt =====
-- apps/web/lib/services/capabilitySwitches.ts: the change of a capability's kill switch. The hashes
-- and identifiers that it derives are parameters; the change has passed its schema. A transaction
-- that throws changes nothing, so its body gives a result or an error.
pub mod Changed
pub mod Laws
pub mod Replay
use nagarik_signals.Base.{
  ℕ, ◌+◌, ◌*◌, ◌&&◌, ◌||◌, true, false, Bool, Option, none, some, String, List, [], ◌∷◌, ◌==◌,
  string_eq, nat_eq, bool_eq, option_eq, Eq, nat_beq, ◌↔◌, ◌≡◌, not, if◌then◌else◌, Result, ok, err,
  error, coded, ◌>>=◌, ◌>>◌, guard, arith,
}
use nagarik_signals.Services.Idempotency.{
  Reservation, IdempotencyRecord, Disposition, reserved, conflict, in_progress, replay,
  reserve_idempotency, complete_idempotency,
}

pub data CapabilityName : Type 0 where
  public_read public_media invite_intake invite_signals operator_mutations publication v2_writes :
      CapabilityName

abbrev pub capability_index : CapabilityName → ℕ
capability_index public_read = 0
capability_index public_media = 1
capability_index invite_intake = 2
capability_index invite_signals = 3
capability_index operator_mutations = 4
capability_index publication = 5
capability_index v2_writes = 6

pub capability_index_iff :
    (a b : CapabilityName) → (nat_beq (capability_index a) (capability_index b) ≡ true) ↔ (a ≡ b)
capability_index_iff a b = ground arith

instance abbrev pub capability_eq : Eq CapabilityName
capability_eq = record {
  equals = λ a b. nat_beq (capability_index a) (capability_index b);
  equals_iff = capability_index_iff;
}

unfoldable pub parse_capability_name : String → Result CapabilityName
parse_capability_name value =
    if value == "publicReadEnabled"
    then ok public_read
    else if value == "publicMediaEnabled"
    then ok public_media
    else if value == "inviteIntakeEnabled"
    then ok invite_intake
    else if value == "inviteSignalsEnabled"
    then ok invite_signals
    else if value == "operatorMutationsEnabled"
    then ok operator_mutations
    else if value == "publicationEnabled"
    then ok publication
    else if value == "v2WritesEnabled"
    then ok v2_writes
    else err (coded "capability_switch_not_found" 404)

-- `capabilityCeilingsFromEnvironment`; the environment gives a text for some names.
unfoldable pub ceilings_from_environment : (String → Option String) → CapabilityName → Bool
ceilings_from_environment env public_read = env "NAGARIK_CAP_PUBLIC_READ" == some "true"
ceilings_from_environment env public_media = env "NAGARIK_CAP_PUBLIC_MEDIA" == some "true"
ceilings_from_environment env invite_intake = env "NAGARIK_CAP_INVITE_INTAKE" == some "true"
ceilings_from_environment env invite_signals = env "NAGARIK_CAP_INVITE_SIGNALS" == some "true"
ceilings_from_environment env operator_mutations =
    env "NAGARIK_CAP_OPERATOR_MUTATIONS" == some "true"
ceilings_from_environment env publication = env "NAGARIK_CAP_PUBLICATION" == some "true"
ceilings_from_environment env v2_writes = env "NAGARIK_CAP_V2_WRITES" == some "true"

-- `CapabilitySwitchInput`
pub record SwitchChange : Type 0 where
  pub disabled : Bool
  pub expected_version : ℕ
  pub reason : String
  pub cache_purge_reference : Option String

pub record SwitchRow : Type 0 where
  pub capability : CapabilityName
  pub disabled : Bool
  pub version : ℕ
  pub reason : String
  pub updated_by : Option String
  pub updated_at : ℕ

-- `StableSwitchResult`
pub record SwitchResult : Type 0 where
  pub capability : CapabilityName
  pub disabled : Bool
  pub version : ℕ
  pub changed : Bool
  pub reason : String
  pub updated_at : ℕ

pub record AuditEvent : Type 0 where
  pub actor_key : String
  pub action : String
  pub capability : CapabilityName
  pub changed : Bool
  pub previous_version : ℕ
  pub version : ℕ
  pub reason : String
  pub cache_purge_reference : Option String
  pub occurred_at : ℕ

pub record SwitchTables : Type 0 where
  pub switches : List SwitchRow
  pub records : List (IdempotencyRecord SwitchResult)
  pub audit : List AuditEvent

pub record SwitchRequest : Type 0 where
  pub capability : CapabilityName
  pub change : SwitchChange
  pub idempotency_key : String
  pub actor_subject_id : String

-- What is derived of a request, the ceilings and the clock.
pub record SwitchDependencies : Type 0 where
  pub actor_key : SwitchRequest → String
  pub scope : SwitchRequest → String
  pub record_id : SwitchRequest → String
  pub request_hash : SwitchRequest → String
  pub ceilings : CapabilityName → Bool
  pub now : ℕ

unfoldable pub find_switch : CapabilityName → List SwitchRow → Option SwitchRow
find_switch c [] = none
find_switch c (s ∷ ss) = if s.capability == c then some s else find_switch c ss

-- `where capability = $1 and version = $6`
unfoldable pub update_switch :
    CapabilityName → ℕ → (SwitchRow → SwitchRow) → List SwitchRow → List SwitchRow
update_switch c version f [] = []
update_switch c version f (s ∷ ss) =
    if s.capability == c && s.version == version
    then f s ∷ update_switch c version f ss
    else s ∷ update_switch c version f ss

abbrev pub is_public : CapabilityName → Bool
is_public c = c == public_read || c == public_media

-- `!cachePurgeReference`
abbrev pub lacks_evidence : Option String → Bool
lacks_evidence none = true
lacks_evidence (some reference) = reference == ""

abbrev pub switched : SwitchRequest → ℕ → SwitchRow → SwitchRow
switched q now s = record s {
  disabled = q.change.disabled;
  version = s.version + 1;
  reason = q.change.reason;
  updated_by = some q.actor_subject_id;
  updated_at = now;
}

abbrev pub result_of : SwitchRow → Bool → SwitchResult
result_of s changed = record {
  capability = s.capability;
  disabled = s.disabled;
  version = s.version;
  changed = changed;
  reason = s.reason;
  updated_at = s.updated_at;
}

-- The change of the row that was found, which is locked.
unfoldable pub apply_change :
    SwitchRequest → ℕ → SwitchRow → List SwitchRow → Result (SwitchResult × List SwitchRow)
apply_change q now s ss = do
  guard (s.version == q.change.expected_version) (coded "capability_switch_stale" 409)
  guard
      (not (
        not (s.disabled == q.change.disabled)
        && is_public q.capability
        && lacks_evidence q.change.cache_purge_reference))
      (coded "cache_purge_evidence_required" 400)
  if s.disabled == q.change.disabled
      then ok (result_of s false, ss)
      else ok (
        result_of (switched q now s) true,
        update_switch q.capability s.version (switched q now) ss,
      )

abbrev pub audit_event : SwitchDependencies → SwitchRequest → SwitchRow → SwitchResult → AuditEvent
audit_event d q before r = record {
  actor_key = d.actor_key q;
  action = if r.disabled then "capability_disabled" else "capability_enabled";
  capability = r.capability;
  changed = r.changed;
  previous_version = before.version;
  version = r.version;
  reason = q.change.reason;
  cache_purge_reference = q.change.cache_purge_reference;
  occurred_at = d.now;
}

unfoldable pub change_found :
    SwitchDependencies
    → SwitchRequest
    → Option SwitchRow
    → SwitchTables
    → Result (SwitchResult × SwitchTables)
change_found d q none t = err (coded "capability_switch_not_found" 404)
change_found d q (some s) t = do
  applied ← apply_change q d.now s t.switches
  records ← complete_idempotency (d.record_id q) (d.request_hash q) applied.0 t.records
  ok (
    applied.0,
    record {
      switches = applied.1;
      records = records;
      audit = audit_event d q s applied.0 ∷ t.audit;
    },
  )

-- The answer, with whether it is a replay.
unfoldable pub answer_disposition :
    SwitchDependencies
    → SwitchRequest
    → Disposition SwitchResult
    → SwitchTables
    → Result ((Bool × SwitchResult) × SwitchTables)
answer_disposition d q conflict t = err (coded "idempotency_key_reused" 409)
answer_disposition d q in_progress t = err (coded "idempotency_in_progress" 409)
answer_disposition d q (replay answer) t = ok ((true, answer), t)
answer_disposition d q reserved t = do
  changed ← change_found d q (find_switch q.capability t.switches) t
  ok ((false, changed.0), changed.1)

abbrev pub reservation : SwitchDependencies → SwitchRequest → Reservation
reservation d q = record {
  id = d.record_id q;
  scope = d.scope q;
  actor_key = d.actor_key q;
  key = q.idempotency_key;
  hash = d.request_hash q;
  expires_at = d.now + 30 * 24 * 60 * 60_000;
}

-- The ceiling allows the change: a capability is enabled only below its ceiling.
abbrev pub below_ceiling : SwitchDependencies → SwitchRequest → Bool
below_ceiling d q = not (not q.change.disabled && not (d.ceilings q.capability))

unfoldable pub change_capability_switch :
    SwitchDependencies
    → SwitchRequest
    → SwitchTables
    → Result ((Bool × SwitchResult) × SwitchTables)
change_capability_switch d q t = do
  guard (below_ceiling d q) (coded "capability_ceiling_disabled" 409)
  let reserved = reserve_idempotency (reservation d q) d.now t.records
  answer_disposition d q reserved.0 (record t { records = reserved.1 })
