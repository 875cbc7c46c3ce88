-- ===== src/Chain/Job/Build.antt =====
-- The jobs that the program builds (`buildChainJob`) are accepted by its worker
-- (`prepareChainJob`).
use nagarik_signals.Base.{
  ◌≡◌, ◌≢◌, ◌≤◌, ◌+◌, true, Option, some, String, arith, ==_iff, ==_refl, string_eq, ok, refl, not,
  le→leb, ◌∙◌, length,
}
use nagarik_signals.Base.Text.{Bytes, is_hash_hex, is_uuid_v4}
use nagarik_signals.Base.Hex.{to_hex, from_hex, is_hash_hex-to_hex, is_hash_hex-from_hex}
use nagarik_signals.Chain.Protocol.{
  Hashing, V2Operation, v2_max_sequence, derive_issue_key, derive_event_id, derive_operation_id,
  Stream, timeline, handoff, handoff_checkpointed,
}
use nagarik_signals.Chain.Protocol.Digests.{
  GivesDigest, derive_issue_key-GivesDigest, derive_event_id-GivesDigest,
  derive_operation_id-GivesDigest, derive_event_record_hash-GivesDigest,
  derive_stream_head-GivesDigest,
}
use nagarik_signals.Chain.Job.Schema.{
  Snapshot, Envelope, zero_hash, is_zero, snapshot_schema, chain_job_schema, parse_chain_job,
  operation_semantics, unchanged,
}
use nagarik_signals.Chain.Job.Codec.{
  PreparedChainJob, JobInput, next_snapshot, prepare_chain_job, check_identity, check_change,
  derive_head, build_chain_job, event_record, stream_of, stream_head, head_matches, sequence_valid,
  for_stream,
}
use nagarik_signals.Chain.Job.Semantics.{IsLegal, operation_semantics_iff}

-- What a caller of `buildChainJob` has to supply.
pub record IsBuildable (i : JobInput) : Type 0 where
  pub issue_uuid : is_uuid_v4 i.public_issue_id ≡ true
  pub event_uuid : is_uuid_v4 i.database_event_id ≡ true
  pub payload : is_hash_hex i.payload_hash ≡ true
  pub payload_set : i.payload_hash ≢ zero_hash
  pub expected : snapshot_schema i.expected ≡ true
  pub room : i.expected.update_count + 1 ≤ v2_max_sequence
  pub category : i.next.category ≤ 6
  pub lifecycle : i.next.lifecycle ≤ 4
  pub metadata : is_hash_hex i.next.metadata_hash ≡ true
  pub evidence : is_hash_hex i.next.evidence_hash ≡ true
  pub location : is_hash_hex i.next.location_hash ≡ true
  pub legal : IsLegal i.operation i.expected (next_snapshot i "")

stream_head-is_hash_hex :
    (s : Stream) (e : Snapshot) → snapshot_schema e ≡ true → is_hash_hex (stream_head s e) ≡ true
unfolding snapshot_schema
stream_head-is_hash_hex timeline e h = ground arith
stream_head-is_hash_hex handoff e h = ground arith

for_stream-is_hash_hex :
    (s : Stream) (a b : String)
    → is_hash_hex a ≡ true
    → is_hash_hex b ≡ true
    → is_hash_hex (for_stream s a b) ≡ true
for_stream-is_hash_hex timeline a b p q = p
for_stream-is_hash_hex handoff a b p q = q

head_matches-for_stream :
    (s : Stream) (head : String) (e n : Snapshot)
    → n.timeline_head ≡ for_stream s head e.timeline_head
    → n.handoff_head ≡ for_stream s e.handoff_head head
    → head_matches s head e n ≡ true
unfolding head_matches
head_matches-for_stream timeline head e n p q = rw (p, q, ==_refl head, ==_refl e.handoff_head)
head_matches-for_stream handoff head e n p q = rw (p, q, ==_refl head, ==_refl e.timeline_head)

semantics_heads :
    (op : V2Operation) (i : JobInput) (a b : String)
    → operation_semantics op i.expected (next_snapshot i a)
      ≡ operation_semantics op i.expected (next_snapshot i b)
unfolding operation_semantics next_snapshot unchanged
semantics_heads handoff_checkpointed i a b = refl
semantics_heads _ i a b = refl

snapshot_schema_heads :
    (e : Snapshot)
    → snapshot_schema e ≡ true
    → (is_hash_hex e.timeline_head ≡ true) × (is_hash_hex e.handoff_head ≡ true)
unfolding snapshot_schema
snapshot_schema_heads e h = ground arith

prepare_stages :
    (h : Hashing) (value : Option Envelope) (j : Envelope) (p : PreparedChainJob)
    → parse_chain_job value ≡ ok j
    → check_identity h j ≡ ok p
    → check_change h p ≡ ok tt
    → prepare_chain_job h value ≡ ok p
prepare_stages h value j p a b c = unfold prepare_chain_job in rw (a, b, c)

module _ (h : Hashing) (i : JobInput) (v : IsBuildable i) where
  built_head :
      (key event : Bytes)
      → length key ≡ 32
      → length event ≡ 32
      → GivesDigest (
          derive_head h key event i.operation i.payload_hash i.expected
            (i.expected.update_count + 1)
            (next_snapshot i ""))
  unfolding derive_head next_snapshot
  built_head key event k e =
      let (entry, hashed, n, _) =
        derive_event_record_hash-GivesDigest h
          (event_record key event i.operation (i.expected.update_count + 1) i.payload_hash
            (next_snapshot i ""))
          (record {
            key = k;
            event = e;
            type_code = ground arith;
            category_code = v.category;
            lower = omega arith;
            upper = v.room;
            payload = is_hash_hex-from_hex _ v.payload;
            metadata = is_hash_hex-from_hex _ v.metadata;
            evidence = is_hash_hex-from_hex _ v.evidence;
            location = is_hash_hex-from_hex _ v.location;
            lifecycle_code = v.lifecycle;
          }) in
      rw hashed (
        derive_stream_head-GivesDigest h (stream_of i.operation)
          (from_hex (stream_head (stream_of i.operation) i.expected)) event entry i.operation
          (is_hash_hex-from_hex _
            (stream_head-is_hash_hex (stream_of i.operation) i.expected v.expected))
          e n)

  -- The envelope with these identifiers and this head.
  envelope : (key event op head : Bytes) → Envelope
  envelope key event op head = record {
    schema_version = "nagarik-chain-job-v2";
    operation = i.operation;
    public_issue_id = i.public_issue_id;
    database_event_id = i.database_event_id;
    issue_key = to_hex key;
    event_id = to_hex event;
    operation_id = to_hex op;
    payload_hash = i.payload_hash;
    expected = i.expected;
    next = next_snapshot i (to_hex head);
  }

  module _ (key event op head : Bytes) (k : derive_issue_key h i.public_issue_id ≡ ok key)
      (e : derive_event_id h key i.database_event_id i.operation ≡ ok event)
      (o : derive_operation_id h key event i.operation ≡ ok op)
      (d : derive_head h key event i.operation i.payload_hash i.expected
          (i.expected.update_count + 1)
          (next_snapshot i "")
        ≡ ok head) where
    built : build_chain_job h i ≡ ok (envelope key event op head)
    unfolding build_chain_job envelope
    built = rw (k, e, o, d)

    identified :
        check_identity h (envelope key event op head)
        ≡ ok (record {
          envelope = envelope key event op head;
          issue_key_bytes = key;
          event_id_bytes = event;
          operation_id_bytes = op;
          payload_hash_bytes = from_hex i.payload_hash;
        })
    unfolding check_identity envelope
    identified = rw (k, ==_refl (to_hex key), e, ==_refl (to_hex event), o, ==_refl (to_hex op))

    next-snapshot_schema :
        is_hash_hex (to_hex head) ≡ true → snapshot_schema (next_snapshot i (to_hex head)) ≡ true
    unfolding next_snapshot snapshot_schema
    next-snapshot_schema x =
        let (t, u) = snapshot_schema_heads i.expected v.expected in
        rw
          (
            le→leb _ _ v.room,
            for_stream-is_hash_hex (stream_of i.operation) (to_hex head) i.expected.timeline_head x
                t,
            for_stream-is_hash_hex (stream_of i.operation) i.expected.handoff_head (to_hex head) u
                x,
            le→leb _ _ v.category,
            le→leb _ _ v.lifecycle,
            v.metadata,
            v.evidence,
          )
          v.location

    -- Neither the checks nor the event record read the new heads.
    semantics : operation_semantics i.operation i.expected (next_snapshot i (to_hex head)) ≡ ok tt
    semantics =
        semantics_heads i.operation i (to_hex head) ""
        ∙ (operation_semantics_iff i.operation i.expected (next_snapshot i "")).1 v.legal

    rederived :
        derive_head h key event i.operation i.payload_hash i.expected
          (next_snapshot i (to_hex head)).update_count
          (next_snapshot i (to_hex head))
        ≡ ok head
    rederived = unfold derive_head next_snapshot in d

    sequence-valid : sequence_valid (envelope key event op head) ≡ true
    unfolding sequence_valid envelope next_snapshot
    sequence-valid = ground (arith, v.room)

    payload-not_zero : not (is_zero i.payload_hash) ≡ true
    unfolding is_zero
    payload-not_zero = ground (arith, v.payload_set, ==_iff i.payload_hash zero_hash)

    moved :
        head_matches
          (stream_of i.operation)
          (to_hex head)
          i.expected
          (next_snapshot i (to_hex head))
        ≡ true
    unfolding next_snapshot
    moved = head_matches-for_stream (stream_of i.operation) _ _ _ refl refl

    envelope-well_formed :
        is_hash_hex (to_hex key) ≡ true
        → is_hash_hex (to_hex event) ≡ true
        → is_hash_hex (to_hex op) ≡ true
        → is_hash_hex (to_hex head) ≡ true
        → chain_job_schema (envelope key event op head) ≡ true
    unfolding envelope chain_job_schema
    envelope-well_formed a b c x =
        rw (v.issue_uuid, v.event_uuid, a, b, c, v.payload, v.expected, next-snapshot_schema x)

    changed :
        check_change h (record {
          envelope = envelope key event op head;
          issue_key_bytes = key;
          event_id_bytes = event;
          operation_id_bytes = op;
          payload_hash_bytes = from_hex i.payload_hash;
        })
        ≡ ok tt
    unfolding check_change envelope
    changed = rw (sequence-valid, payload-not_zero, semantics, rederived, moved)

    parsed :
        is_hash_hex (to_hex key) ≡ true
        → is_hash_hex (to_hex event) ≡ true
        → is_hash_hex (to_hex op) ≡ true
        → is_hash_hex (to_hex head) ≡ true
        → parse_chain_job (some (envelope key event op head)) ≡ ok (envelope key event op head)
    unfolding parse_chain_job
    parsed a b c x = rw (envelope-well_formed a b c x)

-- From valid parts a job is built, `prepareChainJob` accepts it, and the prepared job carries it as
-- its envelope. The parts are valid if they have their formats and ranges, the payload hash is not
-- zero, and the change is legal for its operation.
pub prepare_chain_job-build_chain_job :
    (h : Hashing) (i : JobInput)
    → IsBuildable i
    → (j : Envelope) × (p : PreparedChainJob) × (build_chain_job h i ≡ ok j)
      × (prepare_chain_job h (some j) ≡ ok p)
      × (p.envelope ≡ j)
prepare_chain_job-build_chain_job h i v =
    let (key, k, k32, kb) = derive_issue_key-GivesDigest h i.public_issue_id v.issue_uuid in
    let (event, e, e32, eb) =
      derive_event_id-GivesDigest h key i.database_event_id i.operation k32 v.event_uuid in
    let (op, o, o32, ob) = derive_operation_id-GivesDigest h key event i.operation k32 e32 in
    let (head, d, d32, db) = built_head h i v key event k32 e32 in
    (
      envelope h i v key event op head,
      _,
      built h i v key event op head k e o d,
      prepare_stages h _ _ _
          (parsed h i v key event op head k e o d (is_hash_hex-to_hex key k32 kb)
            (is_hash_hex-to_hex event e32 eb) (is_hash_hex-to_hex op o32 ob)
            (is_hash_hex-to_hex head d32 db))
          (identified h i v key event op head k e o d) (changed h i v key event op head k e o d),
      refl,
    )
