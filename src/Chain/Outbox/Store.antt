-- ===== src/Chain/Outbox/Store.antt =====
-- The tables that the outbox worker reads and writes, and transactions over them.
-- A `bytea` column is held in its lowercase hexadecimal form, a time in milliseconds. The table of
-- jobs holds the chain jobs (those with an issue, a sequence and an event), in the order of
-- `created_at, id`. What the public projection writes is a part `P` of its own.
pub mod Inversion
pub mod Growth
use nagarik_signals.Base.{
  ℕ, ◌&&◌, ◌||◌, true, false, Bool, Option, none, some, String, List, [], ◌∷◌, map, ◌==◌, Eq,
  nat_eq, nat_beq, string_eq, ltb, leb, if◌then◌else◌, Result, ok, err, Thrown, error, ◌↔◌, ◌≡◌,
  arith, any, ◌++◌, min,
}
use nagarik_signals.Chain.Job.Schema.{Envelope}

pub data JobState : Type 0 where
  pending leased submitted_unknown confirming confirmed blocked dead_letter : JobState

abbrev state_index : JobState → ℕ
state_index pending = 0
state_index leased = 1
state_index submitted_unknown = 2
state_index confirming = 3
state_index confirmed = 4
state_index blocked = 5
state_index dead_letter = 6

pub state_index_iff : (a b : JobState) → (nat_beq (state_index a) (state_index b) ≡ true) ↔ (a ≡ b)
state_index_iff a b = ground arith

instance abbrev pub state_eq : Eq JobState
state_eq = record {
  equals = λ a b. nat_beq (state_index a) (state_index b);
  equals_iff = state_index_iff;
}

-- A row of `nagarik.outbox_jobs`.
pub record JobRow : Type 0 where
  pub id : String
  pub operation_id : String
  pub issue_id : String
  pub issue_version_id : Option String
  pub operation_type : String
  pub chain_sequence : ℕ
  pub event_id : String
  pub canonical_payload : Option Envelope
  pub payload_hash : String
  pub state : JobState
  pub attempt_count : ℕ
  pub available_at : ℕ
  pub lease_owner : Option String
  pub lease_expires_at : Option ℕ
  pub submitted_signature : Option String
  pub last_error_category : Option String
  pub updated_at : ℕ

-- The columns of `nagarik.issues` that the worker uses.
pub record IssueRow : Type 0 where
  pub id : String
  pub confirmed_update_count : ℕ
  pub confirmed_timeline_head : String
  pub confirmed_handoff_head : String
  pub blocked_from_sequence : Option ℕ
  pub updated_at : ℕ

-- A v2 row of `nagarik.issue_chain_bindings`.
pub record BindingRow : Type 0 where
  pub issue_id : String
  pub issue_version_id : Option String
  pub cluster : String
  pub genesis_hash : String
  pub program_id : String
  pub issue_account : String
  pub event_account : String
  pub event_id : String
  pub chain_sequence : ℕ
  pub signature : String
  pub finalized_slot : ℕ
  pub account_sha256 : String
  pub confirmed_at : ℕ

-- The phase of a failure, or the slot of a confirmation.
pub data Diagnostic : Type 0 where
  phase : String → Diagnostic
  slot : ℕ → Diagnostic

-- A row of `nagarik.outbox_attempts`; its id is a hash of its job and its number.
pub record AttemptRow : Type 0 where
  pub outbox_job_id : String
  pub attempt_number : ℕ
  pub result : String
  pub signature : Option String
  pub error_category : Option String
  pub diagnostic : Diagnostic
  pub finished_at : ℕ

pub record Database (P : Type 0) : Type 0 where
  pub jobs : List JobRow
  pub issues : List IssueRow
  pub bindings : List BindingRow
  pub attempts : List AttemptRow
  pub projection : P

-- `where id = $1`
unfoldable pub find_job : String → List JobRow → Option JobRow
find_job id [] = none
find_job id (j ∷ js) = if j.id == id then some j else find_job id js

unfoldable pub update_job : String → (JobRow → JobRow) → List JobRow → List JobRow
update_job id f [] = []
update_job id f (j ∷ js) = if j.id == id then f j ∷ update_job id f js else j ∷ update_job id f js

unfoldable pub find_issue : String → List IssueRow → Option IssueRow
find_issue id [] = none
find_issue id (i ∷ is) = if i.id == id then some i else find_issue id is

unfoldable pub update_issue : String → (IssueRow → IssueRow) → List IssueRow → List IssueRow
update_issue id f [] = []
update_issue id f (i ∷ is) =
    if i.id == id then f i ∷ update_issue id f is else i ∷ update_issue id f is

unfoldable pub find_binding : String → List BindingRow → Option BindingRow
find_binding event_id [] = none
find_binding event_id (b ∷ bs) = if b.event_id == event_id then some b else find_binding event_id bs

-- `coalesce`
abbrev pub coalesce {ℓ} : {A : Type ℓ} → Option A → A → A
coalesce none b = b
coalesce (some a) b = a

-- The body of a transaction: it throws, or gives a value and the new tables.
abbrev pub Transaction : Type 0 → Type 0 → Type 0
Transaction P A = Database P → Result (A × Database P)

infixl 5 ◌>>=◌ ◌>>◌
abbrev pub ◌>>=◌ : {P A B : Type 0} → Transaction P A → (A → Transaction P B) → Transaction P B
◌>>=◌ m f db = elim (m db) [ ok (a, db') ↦ f a db' | err e ↦ err e ]

abbrev pub ◌>>◌ : {P B : Type 0} → Transaction P (Unit {0}) → Transaction P B → Transaction P B
m >> k = m >>= λ _. k

abbrev pub pure : {P A : Type 0} → A → Transaction P A
pure a db = ok (a, db)

abbrev pub throw : {P A : Type 0} → Thrown → Transaction P A
throw e db = err e

abbrev pub require : {P : Type 0} → Bool → Thrown → Transaction P (Unit {0})
require true e db = ok (tt, db)
require false e db = err e

-- `unique (outbox_job_id, attempt_number)`
abbrev pub same_attempt : AttemptRow → AttemptRow → Bool
same_attempt a b = a.outbox_job_id == b.outbox_job_id && a.attempt_number == b.attempt_number

module _ {P : Type 0} where
  abbrev pub select_job : String → Transaction P (Option JobRow)
  select_job id db = ok (find_job id db.jobs, db)

  abbrev pub select_issue : String → Transaction P (Option IssueRow)
  select_issue id db = ok (find_issue id db.issues, db)

  abbrev pub select_binding : String → Transaction P (Option BindingRow)
  select_binding event_id db = ok (find_binding event_id db.bindings, db)

  abbrev pub write_job : String → (JobRow → JobRow) → Transaction P (Unit {0})
  write_job id f db = ok (tt, record db { jobs = update_job id f db.jobs })

  abbrev pub write_issue : String → (IssueRow → IssueRow) → Transaction P (Unit {0})
  write_issue id f db = ok (tt, record db { issues = update_issue id f db.issues })

  abbrev pub insert_attempt : AttemptRow → Transaction P (Unit {0})
  insert_attempt a db =
      if any (same_attempt a) db.attempts
      then err (error "unique_violation")
      else ok (tt, record db { attempts = a ∷ db.attempts })

  -- `on conflict (protocol_version, event_id) ... do nothing`
  abbrev pub insert_binding : BindingRow → Transaction P (Unit {0})
  insert_binding b db =
      if any (λ c. c.event_id == b.event_id) db.bindings
      then ok (tt, db)
      else ok (tt, record db { bindings = b ∷ db.bindings })

-- `blocked_from_sequence = coalesce(blocked_from_sequence, sequence)`
abbrev pub block_from : ℕ → ℕ → IssueRow → IssueRow
block_from sequence now i = record i {
  blocked_from_sequence = some (coalesce i.blocked_from_sequence sequence);
  updated_at = now;
}

-- `min(chain_sequence)` over the jobs of an issue that are blocked or dead.
unfoldable pub min_blocked : String → List JobRow → Option ℕ
min_blocked issue_id [] = none
min_blocked issue_id (j ∷ js) =
    let rest = min_blocked issue_id js in
    if j.issue_id == issue_id && (j.state == blocked || j.state == dead_letter)
    then some (elim rest [ none ↦ j.chain_sequence | some m ↦ min j.chain_sequence m ])
    else rest
