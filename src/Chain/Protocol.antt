-- ===== src/Chain/Protocol.antt =====
-- apps/web/lib/solana/v2/protocol.ts: the codes of the v2 protocol and its derived identifiers.
-- SHA-256 and the search for program addresses are parameters.
pub mod Digests
use nagarik_signals.Base.{
  ℕ, suc, zero, ◌≡◌, ◌%◌, ◌/◌, ◌||◌, true, Bool, String, List, [], ◌∷◌, ◌++◌, Eq, ◌==◌, nat_eq,
  nat_beq, ◌↔◌, arith, ltb, length, if◌then◌else◌, not, Result, ok, err, error, guard, ◌>>=◌, ◌>>◌,
  All,
}
use nagarik_signals.Base.Text.{Bytes, IsByte, codes, is_uuid_v4, without_dashes}
use nagarik_signals.Base.Hex.{from_hex}
use nagarik_signals.Domain.Workflow.{LifecycleState, open_state, in_progress, resolved, disputed}

-- `createHash('sha256')`, updated with each part in turn.
pub record Hashing : Type 0 where
  pub sha256 : List Bytes → Bytes
  pub sha256_length : (parts : List Bytes) → length (sha256 parts) ≡ 32
  pub sha256_bytes : (parts : List Bytes) → All IsByte (sha256 parts)

-- What the code calls of `PublicKey`; a public key is its bytes.
pub record Addresses : Type 0 where
  pub find_program_address : List Bytes → Bytes → Bytes
  pub to_base58 : Bytes → String
  pub v2_program_id : Bytes

abbrev pub v2_max_sequence : ℕ
v2_max_sequence = 9_007_199_254_740_991

abbrev pub v2_lifecycles : LifecycleState → ℕ
v2_lifecycles open_state = 0
v2_lifecycles in_progress = 1
v2_lifecycles resolved = 2
v2_lifecycles LifecycleState.closed = 3
v2_lifecycles disputed = 4

pub data V2Operation : Type 0 where
  issue_created metadata_version_committed lifecycle_changed : V2Operation
  handoff_checkpointed publication_removed : V2Operation

-- `v2Operations`
abbrev pub v2_operations : V2Operation → ℕ
v2_operations issue_created = 0
v2_operations metadata_version_committed = 1
v2_operations lifecycle_changed = 2
v2_operations handoff_checkpointed = 3
v2_operations publication_removed = 4

abbrev pub operation_name : V2Operation → String
operation_name issue_created = "issue_created"
operation_name metadata_version_committed = "metadata_version_committed"
operation_name lifecycle_changed = "lifecycle_changed"
operation_name handoff_checkpointed = "handoff_checkpointed"
operation_name publication_removed = "publication_removed"

pub v2_operations_iff :
    (a b : V2Operation) → (nat_beq (v2_operations a) (v2_operations b) ≡ true) ↔ (a ≡ b)
v2_operations_iff a b = ground arith

instance abbrev pub operation_eq : Eq V2Operation
operation_eq = record {
  equals = λ a b. nat_beq (v2_operations a) (v2_operations b);
  equals_iff = v2_operations_iff;
}

-- `Buffer.from(value + '\0')`; each caller passes ASCII text.
abbrev pub domain : String → Bytes
domain value = codes value ++ 0 ∷ []

-- The label is passed with its suffix `_must_be_32_bytes`.
unfoldable pub exact32 : Bytes → String → Result Bytes
exact32 value label = if length value == 32 then ok value else err (error label)

-- The label is passed with its suffix `_invalid`.
unfoldable pub discriminant : ℕ → ℕ → String → Result Bytes
discriminant value maximum label = if ltb maximum value then err (error label) else ok (value ∷ [])

unfoldable pub uuid_v4_bytes : String → Result Bytes
uuid_v4_bytes value =
    if is_uuid_v4 value
    then ok (from_hex (without_dashes value))
    else err (error "canonical_uuid_v4_required")

-- `writeBigUInt64LE`: that many bytes, the lowest first.
unfoldable pub little_endian : ℕ → ℕ → Bytes
little_endian zero n = []
little_endian (suc k) n = n % 256 ∷ little_endian k (n / 256)

abbrev pub bool_byte : Bool → Bytes
bool_byte b = if b then 1 ∷ [] else 0 ∷ []

pub data Stream : Type 0 where
  timeline handoff : Stream

abbrev stream_domain : Stream → String
stream_domain timeline = "nagarik:v2:timeline"
stream_domain handoff = "nagarik:v2:handoff"

pub record EventRecord : Type 0 where
  pub issue_key : Bytes
  pub event_id : Bytes
  pub event_type : ℕ
  pub category : ℕ
  pub sequence : ℕ
  pub payload_hash : Bytes
  pub metadata_hash : Bytes
  pub issue_evidence_hash : Bytes
  pub location_hash : Bytes
  pub lifecycle : ℕ
  pub publication_removed : Bool

module _ (hashing : Hashing) where
  open hashing use {sha256}

  unfoldable pub derive_issue_key : String → Result Bytes
  derive_issue_key public_issue_id = do
    id ← uuid_v4_bytes public_issue_id
    ok (sha256 (domain "nagarik:v2:issue" ∷ id ∷ []))

  unfoldable pub derive_event_id : Bytes → String → V2Operation → Result Bytes
  derive_event_id issue_key event_id operation = do
    key ← exact32 issue_key "issue_key_must_be_32_bytes"
    id ← uuid_v4_bytes event_id
    tag ← discriminant (v2_operations operation) 4 "event_type_invalid"
    ok (sha256 (domain "nagarik:v2:event" ∷ key ∷ id ∷ tag ∷ []))

  unfoldable pub derive_operation_id : Bytes → Bytes → V2Operation → Result Bytes
  derive_operation_id issue_key event_id operation = do
    key ← exact32 issue_key "issue_key_must_be_32_bytes"
    id ← exact32 event_id "event_id_must_be_32_bytes"
    tag ← discriminant (v2_operations operation) 4 "operation_type_invalid"
    ok (sha256 (domain "nagarik:v2:operation" ∷ key ∷ id ∷ tag ∷ []))

  unfoldable pub derive_event_record_hash : EventRecord → Result Bytes
  derive_event_record_hash r = do
    guard (not (ltb r.sequence 1 || ltb v2_max_sequence r.sequence)) (error "sequence_invalid")
    key ← exact32 r.issue_key "issue_key_must_be_32_bytes"
    id ← exact32 r.event_id "event_id_must_be_32_bytes"
    tag ← discriminant r.event_type 4 "event_type_invalid"
    category ← discriminant r.category 6 "category_invalid"
    payload ← exact32 r.payload_hash "payload_hash_must_be_32_bytes"
    metadata ← exact32 r.metadata_hash "metadata_hash_must_be_32_bytes"
    evidence ← exact32 r.issue_evidence_hash "issue_evidence_hash_must_be_32_bytes"
    location ← exact32 r.location_hash "location_hash_must_be_32_bytes"
    lifecycle ← discriminant r.lifecycle 4 "lifecycle_invalid"
    ok (
        sha256 (
          domain "nagarik:v2:event-record"
          ∷ key
          ∷ id
          ∷ tag
          ∷ category
          ∷ little_endian 8 r.sequence
          ∷ payload
          ∷ metadata
          ∷ evidence
          ∷ location
          ∷ lifecycle
          ∷ bool_byte r.publication_removed
          ∷ []))

  unfoldable pub derive_stream_head : Stream → Bytes → Bytes → ℕ → Bytes → Result Bytes
  derive_stream_head stream previous_head event_id event_type event_record_hash = do
    previous ← exact32 previous_head "previous_head_must_be_32_bytes"
    id ← exact32 event_id "event_id_must_be_32_bytes"
    tag ← discriminant event_type 4 "event_type_invalid"
    entry ← exact32 event_record_hash "event_record_hash_must_be_32_bytes"
    ok (sha256 (domain (stream_domain stream) ∷ previous ∷ id ∷ tag ∷ entry ∷ []))

module _ (addresses : Addresses) where
  open addresses use {find_program_address, v2_program_id}

  unfoldable pub derive_protocol_pda : Bytes
  derive_protocol_pda = find_program_address (codes "protocol" ∷ codes "v2" ∷ []) v2_program_id

  unfoldable pub derive_role_grant_pda : Bytes → Bytes
  derive_role_grant_pda subject =
      find_program_address (codes "role" ∷ derive_protocol_pda ∷ subject ∷ []) v2_program_id

  unfoldable pub derive_issue_pda : Bytes → Result Bytes
  unfolding derive_protocol_pda
  derive_issue_pda issue_key = do
    key ← exact32 issue_key "issue_key_must_be_32_bytes"
    ok (find_program_address (codes "issue" ∷ derive_protocol_pda ∷ key ∷ []) v2_program_id)

  unfoldable pub derive_commitment_event_pda : Bytes → Bytes → Result Bytes
  derive_commitment_event_pda issue event_id = do
    id ← exact32 event_id "event_id_must_be_32_bytes"
    ok (find_program_address (codes "event" ∷ issue ∷ id ∷ []) v2_program_id)
