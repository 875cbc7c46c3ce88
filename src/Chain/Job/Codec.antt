-- ===== src/Chain/Job/Codec.antt =====
-- apps/web/lib/chain/chainJob.ts: `prepareChainJob` and `buildChainJob`.
use nagarik_signals.Base.{
  ℕ, ◌+◌, ◌&&◌, ◌||◌, Bool, Option, String, ◌==◌, nat_eq, string_eq, bool_eq, ltb, not,
  if◌then◌else◌, Result, ok, error, guard, ◌>>=◌, ◌>>◌,
}
use nagarik_signals.Base.Text.{Bytes}
use nagarik_signals.Base.Hex.{to_hex, from_hex}
use nagarik_signals.Chain.Protocol.{
  Hashing, v2_max_sequence, V2Operation, handoff_checkpointed, v2_operations, operation_eq, Stream,
  timeline, handoff, EventRecord, derive_issue_key, derive_event_id, derive_operation_id,
  derive_event_record_hash, derive_stream_head,
}
use nagarik_signals.Chain.Job.Schema.{
  Snapshot, Envelope, parse_chain_job, is_zero, validate_operation_semantics,
}

abbrev pub stream_of : V2Operation → Stream
stream_of operation = if operation == handoff_checkpointed then handoff else timeline

abbrev pub stream_head : Stream → Snapshot → String
stream_head timeline s = s.timeline_head
stream_head handoff s = s.handoff_head

-- The event record that the hash of a job covers, before and after the job is built.
abbrev pub event_record : Bytes → Bytes → V2Operation → ℕ → String → Snapshot → EventRecord
event_record issue_key event_id operation sequence payload_hash s = record {
  issue_key = issue_key;
  event_id = event_id;
  event_type = v2_operations operation;
  category = s.category;
  sequence = sequence;
  payload_hash = from_hex payload_hash;
  metadata_hash = from_hex s.metadata_hash;
  issue_evidence_hash = from_hex s.evidence_hash;
  location_hash = from_hex s.location_hash;
  lifecycle = s.lifecycle;
  publication_removed = s.removed;
}

-- `PreparedChainJob`
pub record PreparedChainJob : Type 0 where
  pub envelope : Envelope
  pub open envelope use *
  pub issue_key_bytes : Bytes
  pub event_id_bytes : Bytes
  pub operation_id_bytes : Bytes
  pub payload_hash_bytes : Bytes

-- Only the stream of the operation has moved, to the derived head.
unfoldable pub head_matches : Stream → String → Snapshot → Snapshot → Bool
head_matches timeline derived expected next =
    next.timeline_head == derived && next.handoff_head == expected.handoff_head
head_matches handoff derived expected next =
    next.handoff_head == derived && next.timeline_head == expected.timeline_head

-- `buildChainJob`'s `next`: what the caller gives of the new snapshot.
pub record NextSnapshot : Type 0 where
  pub category : ℕ
  pub lifecycle : ℕ
  pub removed : Bool
  pub metadata_hash : String
  pub evidence_hash : String
  pub location_hash : String

pub record JobInput : Type 0 where
  pub operation : V2Operation
  pub public_issue_id : String
  pub database_event_id : String
  pub payload_hash : String
  pub expected : Snapshot
  pub next : NextSnapshot

-- The first text for the timeline, the second for the handoff stream.
abbrev pub for_stream : Stream → String → String → String
for_stream timeline a b = a
for_stream handoff a b = b

-- The new snapshot, once the head of its stream is known.
unfoldable pub next_snapshot : JobInput → String → Snapshot
next_snapshot i head = record {
  update_count = i.expected.update_count + 1;
  timeline_head = for_stream (stream_of i.operation) head i.expected.timeline_head;
  handoff_head = for_stream (stream_of i.operation) i.expected.handoff_head head;
  category = i.next.category;
  lifecycle = i.next.lifecycle;
  removed = i.next.removed;
  metadata_hash = i.next.metadata_hash;
  evidence_hash = i.next.evidence_hash;
  location_hash = i.next.location_hash;
}

unfoldable pub sequence_valid : Envelope → Bool
sequence_valid job = not (
    not (job.next.update_count == job.expected.update_count + 1)
    || ltb job.next.update_count 1
    || ltb v2_max_sequence job.next.update_count)

module _ (hashing : Hashing) where
  -- The head that a job gives its stream: the hash of its event record, chained to the old head.
  unfoldable pub derive_head :
      Bytes → Bytes → V2Operation → String → Snapshot → ℕ → Snapshot → Result Bytes
  derive_head issue_key event_id operation payload_hash expected sequence next = do
    record_hash ←
        derive_event_record_hash hashing
          (event_record issue_key event_id operation sequence payload_hash next)
    derive_stream_head hashing (stream_of operation)
        (from_hex (stream_head (stream_of operation) expected)) event_id (v2_operations operation)
        record_hash

  -- The three identifiers, each compared with the envelope before the next is derived.
  unfoldable pub check_identity : Envelope → Result PreparedChainJob
  check_identity job = do
    issue_key_bytes ← derive_issue_key hashing job.public_issue_id
    guard (to_hex issue_key_bytes == job.issue_key) (error "chain_job_issue_key_mismatch")
    event_id_bytes ← derive_event_id hashing issue_key_bytes job.database_event_id job.operation
    guard (to_hex event_id_bytes == job.event_id) (error "chain_job_event_id_mismatch")
    operation_id_bytes ← derive_operation_id hashing issue_key_bytes event_id_bytes job.operation
    guard (to_hex operation_id_bytes == job.operation_id) (error "chain_job_operation_id_mismatch")
    ok (record {
      envelope = job;
      issue_key_bytes = issue_key_bytes;
      event_id_bytes = event_id_bytes;
      operation_id_bytes = operation_id_bytes;
      payload_hash_bytes = from_hex job.payload_hash;
    })

  -- The checks of a job whose identifiers are right.
  unfoldable pub check_change : PreparedChainJob → Result (Unit {0})
  check_change p = do
    guard (sequence_valid p.envelope) (error "chain_job_sequence_mismatch")
    guard (not (is_zero p.payload_hash)) (error "chain_job_payload_hash_zero")
    validate_operation_semantics p.envelope
    head ←
        derive_head p.issue_key_bytes p.event_id_bytes p.operation p.payload_hash p.expected
          p.next.update_count p.next
    guard (head_matches (stream_of p.operation) (to_hex head) p.expected p.next)
        (error "chain_job_head_mismatch")

  unfoldable pub prepare_chain_job : Option Envelope → Result PreparedChainJob
  prepare_chain_job value = do
    job ← parse_chain_job value
    prepared ← check_identity job
    check_change prepared
    ok prepared

  unfoldable pub build_chain_job : JobInput → Result Envelope
  unfolding next_snapshot
  build_chain_job i = do
    issue_key ← derive_issue_key hashing i.public_issue_id
    event_id ← derive_event_id hashing issue_key i.database_event_id i.operation
    operation_id ← derive_operation_id hashing issue_key event_id i.operation
    next_head ←
        derive_head issue_key event_id i.operation i.payload_hash i.expected
          (i.expected.update_count + 1) (next_snapshot i "")
    ok (record {
      schema_version = "nagarik-chain-job-v2";
      operation = i.operation;
      public_issue_id = i.public_issue_id;
      database_event_id = i.database_event_id;
      issue_key = to_hex issue_key;
      event_id = to_hex event_id;
      operation_id = to_hex operation_id;
      payload_hash = i.payload_hash;
      expected = i.expected;
      next = next_snapshot i (to_hex next_head);
    })
