-- ===== src/Chain/Protocol/Digests.antt =====
-- When the derivations of apps/web/lib/solana/v2/protocol.ts succeed: each gives a digest.
use nagarik_signals.Base.{
  ℕ, ◌≡◌, ◌≤◌, true, String, arith, List, Result, ok, refl, length, All, ltb, not, ◌∷◌, [], ◌||◌,
}
use nagarik_signals.Base.Text.{Bytes, IsByte, is_uuid_v4}
use nagarik_signals.Chain.Protocol.{
  Hashing, V2Operation, v2_max_sequence, v2_operations, EventRecord, Stream, exact32, discriminant,
  uuid_v4_bytes, derive_issue_key, derive_event_id, derive_operation_id, derive_event_record_hash,
  derive_stream_head,
}

-- A result that is a digest: 32 bytes.
abbrev pub GivesDigest : Result Bytes → Type 0
GivesDigest r = (d : Bytes) × (r ≡ ok d) × (length d ≡ 32) × All IsByte d

pub exact32_of_length : (v : Bytes) (label : String) → length v ≡ 32 → exact32 v label ≡ ok v
unfolding exact32
exact32_of_length v label h = ground arith

discriminant_of_le : (v m : ℕ) (label : String) → v ≤ m → discriminant v m label ≡ ok (v ∷ [])
unfolding discriminant
discriminant_of_le v m label h = ground arith

operation-le : (op : V2Operation) → v2_operations op ≤ 4
operation-le op = ground arith

module _ (h : Hashing) where
  digest : (parts : List Bytes) → GivesDigest (ok (h.sha256 parts))
  digest parts = (h.sha256 parts, refl, h.sha256_length parts, h.sha256_bytes parts)

  pub derive_issue_key-GivesDigest :
      (id : String) → is_uuid_v4 id ≡ true → GivesDigest (derive_issue_key h id)
  unfolding derive_issue_key uuid_v4_bytes
  derive_issue_key-GivesDigest id u = rw u (digest _)

  pub derive_event_id-GivesDigest :
      (key : Bytes) (id : String) (op : V2Operation)
      → length key ≡ 32
      → is_uuid_v4 id ≡ true
      → GivesDigest (derive_event_id h key id op)
  unfolding derive_event_id uuid_v4_bytes
  derive_event_id-GivesDigest key id op k u =
      rw (exact32_of_length key _ k, u, discriminant_of_le _ 4 _ (operation-le op)) (digest _)

  pub derive_operation_id-GivesDigest :
      (key event : Bytes) (op : V2Operation)
      → length key ≡ 32
      → length event ≡ 32
      → GivesDigest (derive_operation_id h key event op)
  unfolding derive_operation_id
  derive_operation_id-GivesDigest key event op k e =
      rw
        (
          exact32_of_length key _ k,
          exact32_of_length event _ e,
          discriminant_of_le _ 4 _ (operation-le op),
        )
        (digest _)

  -- The conditions under which an event record can be hashed.
  pub record IsHashable (r : EventRecord) : Type 0 where
    pub key : length r.issue_key ≡ 32
    pub event : length r.event_id ≡ 32
    pub type_code : r.event_type ≤ 4
    pub category_code : r.category ≤ 6
    pub lower : 1 ≤ r.sequence
    pub upper : r.sequence ≤ v2_max_sequence
    pub payload : length r.payload_hash ≡ 32
    pub metadata : length r.metadata_hash ≡ 32
    pub evidence : length r.issue_evidence_hash ≡ 32
    pub location : length r.location_hash ≡ 32
    pub lifecycle_code : r.lifecycle ≤ 4

  sequence_guard :
      (n : ℕ) → 1 ≤ n → n ≤ v2_max_sequence → (not (ltb n 1 || ltb v2_max_sequence n)) ≡ true
  sequence_guard n a b = ground arith

  pub derive_event_record_hash-GivesDigest :
      (r : EventRecord) → IsHashable r → GivesDigest (derive_event_record_hash h r)
  unfolding derive_event_record_hash
  derive_event_record_hash-GivesDigest r v =
      rw
        (
          sequence_guard r.sequence v.lower v.upper,
          exact32_of_length r.issue_key _ v.key,
          exact32_of_length r.event_id _ v.event,
          discriminant_of_le r.event_type 4 _ v.type_code,
          discriminant_of_le r.category 6 _ v.category_code,
          exact32_of_length r.payload_hash _ v.payload,
          exact32_of_length r.metadata_hash _ v.metadata,
          exact32_of_length r.issue_evidence_hash _ v.evidence,
          exact32_of_length r.location_hash _ v.location,
          discriminant_of_le r.lifecycle 4 _ v.lifecycle_code,
        )
        (digest _)

  pub derive_stream_head-GivesDigest :
      (s : Stream) (previous event entry : Bytes) (op : V2Operation)
      → length previous ≡ 32
      → length event ≡ 32
      → length entry ≡ 32
      → GivesDigest (derive_stream_head h s previous event (v2_operations op) entry)
  unfolding derive_stream_head
  derive_stream_head-GivesDigest s previous event entry op p e r =
      rw
        (
          exact32_of_length previous _ p,
          exact32_of_length event _ e,
          discriminant_of_le (v2_operations op) 4 _ (operation-le op),
          exact32_of_length entry _ r,
        )
        (digest _)
