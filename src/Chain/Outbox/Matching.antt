-- ===== src/Chain/Outbox/Matching.antt =====
-- apps/web/lib/chain/outboxWorker.ts: when an outbox row is a chain job, and when an event that was
-- observed on chain is the event of that job.
pub mod Observed
use nagarik_signals.Base.{
  ℕ, ◌&&◌, true, false, Bool, Option, some, String, ◌==◌, nat_eq, string_eq, bool_eq, leb, guard,
  if◌then◌else◌, Result, ok, err, error, ◌>>=◌, ◌>>◌,
}
use nagarik_signals.Base.Text.{Bytes, is_hash_hex, is_signature}
use nagarik_signals.Chain.Protocol.{
  Hashing, Addresses, v2_operations, operation_name, v2_max_sequence, derive_issue_pda,
  derive_commitment_event_pda,
}
use nagarik_signals.Chain.Job.Schema.{Snapshot, Envelope}
use nagarik_signals.Chain.Job.Codec.{PreparedChainJob, prepare_chain_job, stream_of, stream_head}
use nagarik_signals.Chain.Signer.{ObservedCommitmentEvent}
use nagarik_signals.Chain.Outbox.Store.{JobRow}

-- `Number.MAX_SAFE_INTEGER` is `V2_MAX_SEQUENCE`.
abbrev pub is_safe_integer : ℕ → Bool
is_safe_integer n = leb n v2_max_sequence

unfoldable pub row_matches : JobRow → PreparedChainJob → Bool
row_matches row p =
    row.operation_type == operation_name p.operation
    && row.operation_id == p.operation_id
    && row.event_id == p.event_id
    && row.chain_sequence == p.next.update_count
    && row.payload_hash == p.payload_hash

unfoldable pub prepare_chain_outbox_record : Hashing → JobRow → Result PreparedChainJob
prepare_chain_outbox_record hashing row = do
  protocol ← prepare_chain_job hashing row.canonical_payload
  guard (row_matches row protocol) (error "chain_outbox_record_mismatch")
  ok protocol

-- The event that the chain shows is the one that the job commits.
unfoldable pub event_matches :
    PreparedChainJob → (issue_account event_account : String) → ObservedCommitmentEvent → Bool
event_matches job issue_account event_account o =
    o.issue_account == issue_account
    && o.event_account == event_account
    && o.event_id == job.event_id
    && o.event_type == v2_operations job.operation
    && o.category == job.next.category
    && o.sequence == job.next.update_count
    && o.previous_head == stream_head (stream_of job.operation) job.expected
    && o.new_head == stream_head (stream_of job.operation) job.next
    && o.payload_hash == job.payload_hash
    && o.metadata_hash == job.next.metadata_hash
    && o.issue_evidence_hash == job.next.evidence_hash
    && o.location_hash == job.next.location_hash
    && o.lifecycle == job.next.lifecycle
    && o.publication_removed == job.next.removed
    && is_signature o.signature
    && is_safe_integer o.finalized_slot
    && leb 0 o.finalized_slot
    && is_hash_hex o.account_sha256

-- What `createObservedEvent` is given besides the job.
pub record Observation : Type 0 where
  pub signature : String
  pub finalized_slot : ℕ
  pub account_sha256 : String

unfoldable pub observed :
    PreparedChainJob
    → (issue_account event_account : String) → Observation
    → ObservedCommitmentEvent
observed p issue_account event_account i = record {
  issue_account = issue_account;
  event_account = event_account;
  event_id = p.event_id;
  event_type = v2_operations p.operation;
  category = p.next.category;
  sequence = p.next.update_count;
  previous_head = stream_head (stream_of p.operation) p.expected;
  new_head = stream_head (stream_of p.operation) p.next;
  payload_hash = p.payload_hash;
  metadata_hash = p.next.metadata_hash;
  issue_evidence_hash = p.next.evidence_hash;
  location_hash = p.next.location_hash;
  lifecycle = p.next.lifecycle;
  publication_removed = p.next.removed;
  signature = i.signature;
  finalized_slot = i.finalized_slot;
  account_sha256 = i.account_sha256;
}

module _ (addresses : Addresses) where
  open addresses use {to_base58}

  -- `derivation` throws where an identifier is not 32 bytes.
  unfoldable pub chain_observation_matches :
      PreparedChainJob → ObservedCommitmentEvent → Result Bool
  unfolding event_matches
  chain_observation_matches job observation = do
    issue ← derive_issue_pda addresses job.issue_key_bytes
    event ← derive_commitment_event_pda addresses issue job.event_id_bytes
    ok (event_matches job (to_base58 issue) (to_base58 event) observation)

  unfoldable pub create_observed_event :
      Hashing → Envelope → Observation → Result ObservedCommitmentEvent
  unfolding observed
  create_observed_event hashing job input = do
    prepared ← prepare_chain_job hashing (some job)
    issue ← derive_issue_pda addresses prepared.issue_key_bytes
    event ← derive_commitment_event_pda addresses issue prepared.event_id_bytes
    ok (observed prepared (to_base58 issue) (to_base58 event) input)
