-- ===== src/Chain/Job/Laws.antt =====
-- What a prepared chain job has been checked for, and the jobs that the program builds itself.
use nagarik_signals.Base.{
  ◌≡◌, ◌≢◌, ◌≤◌, ◌+◌, true, Option, some, none, String, arith, ◌==◌, ==_iff, string_eq, nat_eq, ok,
  refl, not, >>=-eq-ok, guard-then-eq-ok, guard-eq-ok, ok-injective, subst, then-eq-ok, ap, ◌∙◌,
}
use nagarik_signals.Base.Text.{Bytes}
use nagarik_signals.Base.Hex.{to_hex}
use nagarik_signals.Chain.Protocol.{
  Hashing, v2_max_sequence, derive_issue_key, derive_event_id, derive_operation_id, Stream,
  timeline, handoff,
}
use nagarik_signals.Chain.Job.Schema.{
  Snapshot, Envelope, zero_hash, is_zero, chain_job_schema, parse_chain_job, operation_semantics,
}
use nagarik_signals.Chain.Job.Codec.{
  PreparedChainJob, prepare_chain_job, check_identity, check_change, derive_head, stream_of,
  head_matches, sequence_valid,
}
use nagarik_signals.Chain.Job.Semantics.{IsLegal, operation_semantics_iff}

-- One stream has moved to the given head, the other has stayed.
abbrev pub MovesTo : Stream → String → Snapshot → Snapshot → Type 0
MovesTo timeline head e n = (n.timeline_head ≡ head) × (n.handoff_head ≡ e.handoff_head)
MovesTo handoff head e n = (n.handoff_head ≡ head) × (n.timeline_head ≡ e.timeline_head)

head_matches_sound :
    (s : Stream) (head : String) (e n : Snapshot)
    → head_matches s head e n ≡ true
    → MovesTo s head e n
unfolding head_matches
head_matches_sound timeline head e n h =
    ground (arith, ==_iff n.timeline_head head, ==_iff n.handoff_head e.handoff_head)
head_matches_sound handoff head e n h =
    ground (arith, ==_iff n.handoff_head head, ==_iff n.timeline_head e.timeline_head)

parse_chain_job_sound :
    (j : Envelope) {j' : Envelope}
    → parse_chain_job (some j) ≡ ok j'
    → (j ≡ j') × (chain_job_schema j' ≡ true)
unfolding parse_chain_job
parse_chain_job_sound j h = ground arith

sequence_valid_sound :
    (j : Envelope)
    → sequence_valid j ≡ true
    → (j.next.update_count ≡ j.expected.update_count + 1) × (j.next.update_count ≤ v2_max_sequence)
unfolding sequence_valid
sequence_valid_sound j h = ground arith

is_zero_sound : (s : String) → not (is_zero s) ≡ true → s ≢ zero_hash
unfolding is_zero
is_zero_sound s h = ground (arith, ==_iff s zero_hash)

module _ (hashing : Hashing) where
  -- The identifiers are the derived ones, and the envelope carries their hexadecimal form.
  pub record HasIdentity (p : PreparedChainJob) : Type 0 where
    pub key : derive_issue_key hashing p.public_issue_id ≡ ok p.issue_key_bytes
    pub key_hex : to_hex p.issue_key_bytes ≡ p.issue_key
    pub event :
        derive_event_id hashing p.issue_key_bytes p.database_event_id p.operation
        ≡ ok p.event_id_bytes
    pub event_hex : to_hex p.event_id_bytes ≡ p.event_id
    pub operation_key :
        derive_operation_id hashing p.issue_key_bytes p.event_id_bytes p.operation
        ≡ ok p.operation_id_bytes
    pub operation_hex : to_hex p.operation_id_bytes ≡ p.operation_id

  check_identity_sound :
      (j : Envelope) {p : PreparedChainJob}
      → check_identity hashing j ≡ ok p
      → (j ≡ p.envelope) × HasIdentity p
  unfolding check_identity
  check_identity_sound j {p} h =
      let (key, e1, h2) = >>=-eq-ok (derive_issue_key hashing j.public_issue_id) _ h in
      let (g1, h3) = guard-then-eq-ok (to_hex key == j.issue_key) _ _ h2 in
      let (event, e2, h4) =
        >>=-eq-ok (derive_event_id hashing key j.database_event_id j.operation) _ h3 in
      let (g2, h5) = guard-then-eq-ok (to_hex event == j.event_id) _ _ h4 in
      let (op, e3, h6) = >>=-eq-ok (derive_operation_id hashing key event j.operation) _ h5 in
      let (g3, same) = guard-then-eq-ok (to_hex op == j.operation_id) _ _ h6 in
      subst (λ q. (j ≡ q.envelope) × HasIdentity q) (ok-injective same)
        (
          refl,
          record {
            key = e1;
            key_hex = (==_iff _ _).0 g1;
            event = e2;
            event_hex = (==_iff _ _).0 g2;
            operation_key = e3;
            operation_hex = (==_iff _ _).0 g3;
          },
        )

  -- The change is the next one of the issue, legal for its operation, and moves one stream.
  pub record HasChange (p : PreparedChainJob) : Type 0 where
    pub sequence : p.next.update_count ≡ p.expected.update_count + 1
    pub bounded : p.next.update_count ≤ v2_max_sequence
    pub payload : p.payload_hash ≢ zero_hash
    pub legal : IsLegal p.operation p.expected p.next
    pub head : Bytes
    pub chained :
        derive_head hashing p.issue_key_bytes p.event_id_bytes p.operation p.payload_hash p.expected
          p.next.update_count p.next
        ≡ ok head
    pub moved : MovesTo (stream_of p.operation) (to_hex head) p.expected p.next

  check_change_sound : (p : PreparedChainJob) → check_change hashing p ≡ ok tt → HasChange p
  unfolding check_change
  check_change_sound p h =
      let (g4, h8) = guard-then-eq-ok (sequence_valid p.envelope) _ _ h in
      let (g5, h9) = guard-then-eq-ok (not (is_zero p.payload_hash)) _ _ h8 in
      let (legal, h10) = then-eq-ok (operation_semantics p.operation p.expected p.next) _ h9 in
      let (head, e5, h12) =
        >>=-eq-ok
          (derive_head hashing p.issue_key_bytes p.event_id_bytes p.operation p.payload_hash
            p.expected p.next.update_count p.next)
          _ h10 in
      record {
        sequence = (sequence_valid_sound p.envelope g4).0;
        bounded = (sequence_valid_sound p.envelope g4).1;
        payload = is_zero_sound p.payload_hash g5;
        legal = (operation_semantics_iff p.operation p.expected p.next).0 legal;
        head = head;
        chained = e5;
        moved =
            head_matches_sound (stream_of p.operation) (to_hex head) p.expected p.next
              (guard-eq-ok _ _ h12);
      }

  -- A value is prepared only if it is a well-formed envelope whose identifiers are derived from
  -- its uuids, whose change is the next one in sequence and legal for its operation, and whose new
  -- head chains the event to the old head of its stream.
  pub prepare_chain_job_sound :
      (value : Option Envelope) (p : PreparedChainJob)
      → prepare_chain_job hashing value ≡ ok p
      → (value ≡ some p.envelope)
        × (chain_job_schema p.envelope ≡ true)
        × HasIdentity p
        × HasChange p
  unfolding prepare_chain_job
  prepare_chain_job_sound none p h = unfold parse_chain_job in cc
  prepare_chain_job_sound (some j) p h =
      let (j', parsed, h1) = >>=-eq-ok (parse_chain_job (some j)) _ h in
      let (q, identified, h2) = >>=-eq-ok (check_identity hashing j') _ h1 in
      let (changed, same) = then-eq-ok (check_change hashing q) _ h2 in
      let (from, shape) = parse_chain_job_sound j parsed in
      let (kept, identity) = check_identity_sound j' identified in
      subst
        (λ q.
          (some j ≡ some q.envelope)
          × (chain_job_schema q.envelope ≡ true)
          × HasIdentity q
          × HasChange q)
        (ok-injective same)
        (
          ap some (from ∙ kept),
          subst (λ k. chain_job_schema k ≡ true) kept shape,
          identity,
          check_change_sound q changed,
        )
