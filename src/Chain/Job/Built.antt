-- ===== src/Chain/Job/Built.antt =====
-- What a job that `buildChainJob` has built carries.
use nagarik_signals.Base.{◌≡◌, ◌+◌, sym, ap, String, ok, >>=-eq-ok, ok-injective}
use nagarik_signals.Base.Hex.{to_hex}
use nagarik_signals.Chain.Protocol.{Hashing, derive_issue_key, derive_event_id, derive_operation_id}
use nagarik_signals.Chain.Job.Schema.{Envelope}
use nagarik_signals.Chain.Job.Codec.{JobInput, next_snapshot, build_chain_job, derive_head}

pub record IsBuilt (i : JobInput) (j : Envelope) : Type 0 where
  pub operation : j.operation ≡ i.operation
  pub public_issue_id : j.public_issue_id ≡ i.public_issue_id
  pub payload_hash : j.payload_hash ≡ i.payload_hash
  pub expected : j.expected ≡ i.expected
  pub head : String
  pub next : j.next ≡ next_snapshot i head

pub build_chain_job-IsBuilt :
    (h : Hashing) (i : JobInput) {j : Envelope} → build_chain_job h i ≡ ok j → IsBuilt i j
unfolding build_chain_job next_snapshot
build_chain_job-IsBuilt h i b =
    let (key, _, b1) = >>=-eq-ok (derive_issue_key h i.public_issue_id) _ b in
    let (event, _, b2) = >>=-eq-ok (derive_event_id h key i.database_event_id i.operation) _ b1 in
    let (op, _, b3) = >>=-eq-ok (derive_operation_id h key event i.operation) _ b2 in
    let (head, _, b4) =
      >>=-eq-ok
        (derive_head h key event i.operation i.payload_hash i.expected (i.expected.update_count + 1)
          (next_snapshot i ""))
        _ b3 in
    let e = sym (ok-injective b4) in
    record {
      operation = ap Envelope.operation e;
      public_issue_id = ap Envelope.public_issue_id e;
      payload_hash = ap Envelope.payload_hash e;
      expected = ap Envelope.expected e;
      head = to_hex head;
      next = ap Envelope.next e;
    }
