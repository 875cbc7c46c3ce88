-- ===== src/Examples/Jobs.antt =====
-- Runs of apps/web/lib/chain/chainJob.ts, signer.ts and the matching of observed events.
use nagarik_signals.Base.{◌≡◌, ◌↔◌, refl, true, false, some, none, ok, text-ne, arith}
use nagarik_signals.Base.Text.{
  is_signature, is_uuid_v4, is_hash_hex, is_hex, without_dashes, is_base58,
}
use nagarik_signals.Base.Hex.{to_hex, from_hex}
use nagarik_signals.Chain.Protocol.{
  v2_lifecycles, issue_created, derive_issue_key, uuid_v4_bytes, derive_event_id, exact32,
  discriminant, derive_operation_id, derive_event_record_hash, derive_stream_head, little_endian,
  derive_issue_pda, derive_commitment_event_pda,
}
use nagarik_signals.Chain.Job.Schema.{
  Envelope, parse_chain_job, chain_job_schema, snapshot_schema, is_zero, operation_semantics,
  unchanged, zero_hash, allowed_lifecycle_transition,
}
use nagarik_signals.Chain.Job.Codec.{
  prepare_chain_job, PreparedChainJob, check_identity, check_change, sequence_valid, derive_head,
  head_matches, build_chain_job, next_snapshot,
}
use nagarik_signals.Chain.Job.Laws.{prepare_chain_job_sound, HasIdentity, HasChange}
use nagarik_signals.Chain.Outbox.Matching.{
  prepare_chain_outbox_record, row_matches, create_observed_event, chain_observation_matches,
  event_matches, observed,
}
use nagarik_signals.Chain.Outbox.Matching.Observed.{
  IsReported, chain_observation_matches-create_observed_event,
}
use nagarik_signals.Chain.Job.Build.{IsBuildable, prepare_chain_job-build_chain_job}
use nagarik_signals.Chain.Job.Semantics.{
  IsLegal, operation_semantics_iff, allowed_lifecycle_transition_iff,
}
use nagarik_signals.Chain.Signer.{
  V2ChainTransport, bounded_submit, bounded_chain_signer, outside_policy, ChainSimulation,
  ChainSigner,
}
use nagarik_signals.Chain.Signer.Policy.{
  bounded_submit-IsBounded, bounded_chain_signer-IsBounded, IsBounded, IsExpected,
}
use nagarik_signals.Domain.Workflow.{open_state, disputed, assert_lifecycle_transition}
use nagarik_signals.Examples.World.{
  digest, nothing, created, profile, hashing, addresses, envelope, protocol, input, event,
  observation, signature, held, waiting,
}

pub envelope-IsPrepared : prepare_chain_job hashing (some envelope) ≡ ok protocol
unfolding prepare_chain_job parse_chain_job chain_job_schema is_uuid_v4 is_hash_hex snapshot_schema
    check_identity derive_issue_key uuid_v4_bytes to_hex derive_event_id exact32 discriminant
    derive_operation_id check_change sequence_valid is_zero operation_semantics from_hex is_hex
    without_dashes derive_head head_matches unchanged derive_event_record_hash derive_stream_head
    little_endian
envelope-IsPrepared = refl

pub held-IsPrepared : prepare_chain_outbox_record hashing held ≡ ok protocol
unfolding prepare_chain_outbox_record row_matches
held-IsPrepared = rw envelope-IsPrepared

pub waiting-IsPrepared : prepare_chain_outbox_record hashing waiting ≡ ok protocol
unfolding prepare_chain_outbox_record row_matches
waiting-IsPrepared = rw envelope-IsPrepared

pub event-matches : chain_observation_matches addresses protocol event ≡ ok true
unfolding chain_observation_matches event_matches derive_issue_pda derive_commitment_event_pda
    exact32 is_hash_hex is_hex is_signature is_base58
event-matches = refl

pub event-IsCreated : create_observed_event addresses hashing envelope observation ≡ ok event
unfolding create_observed_event observed derive_issue_pda derive_commitment_event_pda exact32
event-IsCreated = rw envelope-IsPrepared

pub input-IsBuildable : IsBuildable input
unfolding is_uuid_v4 is_hash_hex is_hex snapshot_schema next_snapshot
input-IsBuildable = record {
  issue_uuid = refl;
  event_uuid = refl;
  payload = refl;
  payload_set = text-ne digest zero_hash refl;
  expected = refl;
  room = omega arith;
  category = omega arith;
  lifecycle = omega arith;
  metadata = refl;
  evidence = refl;
  location = refl;
  legal = (
    refl,
    refl,
    refl,
    refl,
    refl,
    refl,
    refl,
    refl,
    refl,
    (text-ne digest zero_hash refl, text-ne digest zero_hash refl, text-ne digest zero_hash refl),
  );
}

pub input-built : build_chain_job hashing input ≡ ok envelope
unfolding build_chain_job derive_issue_key uuid_v4_bytes without_dashes is_uuid_v4 derive_event_id
    exact32 discriminant derive_operation_id derive_head next_snapshot derive_event_record_hash
    derive_stream_head little_endian to_hex from_hex
input-built = refl

prepare_chain_job_sound_example :
    (some envelope ≡ some protocol.envelope)
    × (chain_job_schema protocol.envelope ≡ true)
    × HasIdentity hashing protocol
    × HasChange hashing protocol
prepare_chain_job_sound_example =
    prepare_chain_job_sound hashing (some envelope) protocol envelope-IsPrepared

prepare_chain_job-build_chain_job_example :
    (j : Envelope) × (p : PreparedChainJob) × (build_chain_job hashing input ≡ ok j)
    × (prepare_chain_job hashing (some j) ≡ ok p)
    × (p.envelope ≡ j)
prepare_chain_job-build_chain_job_example =
    prepare_chain_job-build_chain_job hashing input input-IsBuildable

operation_semantics_iff_example :
    (operation_semantics issue_created nothing created ≡ ok tt)
    ↔ IsLegal issue_created nothing created
operation_semantics_iff_example = operation_semantics_iff issue_created nothing created

pub observation-IsReported : IsReported observation
unfolding is_signature is_base58 is_hash_hex is_hex
observation-IsReported = record { signature = refl; slot = refl; account = refl }

chain_observation_matches-create_observed_event_example :
    (p : PreparedChainJob) × (prepare_chain_job hashing (some envelope) ≡ ok p)
    × (chain_observation_matches addresses p event ≡ ok true)
chain_observation_matches-create_observed_event_example =
    chain_observation_matches-create_observed_event addresses hashing envelope observation event
      observation-IsReported event-IsCreated

-- A transport that simulates one cheap instruction.
abbrev transport : V2ChainTransport
transport = record {
  profile = profile;
  read_event = λ _. ok none;
  simulate = λ _. ok (record {
    succeeded = true;
    program_id = "account";
    authority = "authority";
    instruction_count = 1;
    compute_units = 90_000;
    fee_lamports = 5_000;
    has_value_transfer = false;
  });
  submit = λ _. ok signature;
  confirm = λ _ _. ok (some event);
}

submitted : bounded_submit transport protocol ≡ ok signature
unfolding bounded_submit outside_policy is_signature is_base58
submitted = refl

bounded_submit-IsBounded_example :
    ((s : ChainSimulation) × (transport.simulate protocol ≡ ok s)
      × (s.succeeded ≡ true)
      × IsBounded transport.profile s)
    × (transport.submit protocol ≡ ok signature)
    × (is_signature signature ≡ true)
bounded_submit-IsBounded_example = bounded_submit-IsBounded transport protocol signature submitted

abbrev bounded : ChainSigner
bounded = record {
  profile = profile;
  inspect = transport.read_event;
  submit = bounded_submit transport;
  confirm = transport.confirm;
}

bounded_is_built : bounded_chain_signer addresses transport "genesis" "authority" ≡ ok bounded
unfolding bounded_chain_signer
bounded_is_built = refl

bounded_chain_signer-IsBounded_example :
    IsExpected addresses "genesis" "authority" bounded.profile
    × ((s : ChainSimulation) × (transport.simulate protocol ≡ ok s)
        × (s.succeeded ≡ true)
        × IsBounded bounded.profile s)
    × (is_signature signature ≡ true)
bounded_chain_signer-IsBounded_example =
    bounded_chain_signer-IsBounded addresses transport "genesis" "authority" bounded protocol
      signature bounded_is_built submitted

allowed_lifecycle_transition_iff_example :
    (allowed_lifecycle_transition (v2_lifecycles open_state) (v2_lifecycles disputed) ≡ true)
    ↔ (assert_lifecycle_transition open_state disputed ≡ ok tt)
allowed_lifecycle_transition_iff_example = allowed_lifecycle_transition_iff open_state disputed
