-- ===== src/Chain/Signer.antt =====
-- apps/web/lib/chain/signer.ts: observations, the transport and the bounded signer. The transport
-- is a parameter; its calls give a result or throw. Counts and fees are natural numbers.
pub mod Policy
use nagarik_signals.Base.{
  ℕ, ◌||◌, true, false, Bool, Option, String, ◌==◌, nat_eq, string_eq, ltb, not, if◌then◌else◌,
  Result, ok, err, execution, guard, ◌>>=◌, ◌>>◌,
}
use nagarik_signals.Base.Text.{is_signature}
use nagarik_signals.Chain.Protocol.{Addresses}
use nagarik_signals.Chain.Job.Codec.{PreparedChainJob}

pub record ChainProfile : Type 0 where
  pub cluster : String
  pub genesis_hash : String
  pub program_id : String
  pub authority : String

pub record ObservedCommitmentEvent : Type 0 where
  pub issue_account : String
  pub event_account : String
  pub event_id : String
  pub event_type : ℕ
  pub category : ℕ
  pub sequence : ℕ
  pub previous_head : String
  pub new_head : String
  pub payload_hash : String
  pub metadata_hash : String
  pub issue_evidence_hash : String
  pub location_hash : String
  pub lifecycle : ℕ
  pub publication_removed : Bool
  pub signature : String
  pub finalized_slot : ℕ
  pub account_sha256 : String

pub record ChainSimulation : Type 0 where
  pub succeeded : Bool
  pub program_id : String
  pub authority : String
  pub instruction_count : ℕ
  pub compute_units : ℕ
  pub fee_lamports : ℕ
  pub has_value_transfer : Bool

pub record V2ChainTransport : Type 0 where
  pub profile : ChainProfile
  pub read_event : PreparedChainJob → Result (Option ObservedCommitmentEvent)
  pub simulate : PreparedChainJob → Result ChainSimulation
  pub submit : PreparedChainJob → Result String
  pub confirm : PreparedChainJob → String → Result (Option ObservedCommitmentEvent)

pub record ChainSigner : Type 0 where
  pub profile : ChainProfile
  pub inspect : PreparedChainJob → Result (Option ObservedCommitmentEvent)
  pub submit : PreparedChainJob → Result String
  pub confirm : PreparedChainJob → String → Result (Option ObservedCommitmentEvent)

abbrev pub max_compute_units : ℕ
max_compute_units = 350_000

abbrev pub max_fee_lamports : ℕ
max_fee_lamports = 50_000

-- The simulated transaction is not the one instruction that the signer may sign.
unfoldable pub outside_policy : ChainProfile → ChainSimulation → Bool
outside_policy profile s =
    not (s.program_id == profile.program_id)
    || not (s.authority == profile.authority)
    || not (s.instruction_count == 1)
    || ltb s.compute_units 1
    || ltb max_compute_units s.compute_units
    || ltb s.fee_lamports 0
    || ltb max_fee_lamports s.fee_lamports
    || s.has_value_transfer

unfoldable pub bounded_submit : V2ChainTransport → PreparedChainJob → Result String
bounded_submit transport job = do
  simulation ← transport.simulate job
  guard simulation.succeeded (execution "chain_simulation_failed" true)
  guard (not (outside_policy transport.profile simulation))
      (execution "chain_signing_policy_rejected" false)
  signature ← transport.submit job
  guard (is_signature signature) (execution "chain_signature_invalid" false)
  ok signature

unfoldable pub bounded_chain_signer :
    Addresses → V2ChainTransport → (genesis_hash authority : String) → Result ChainSigner
unfolding bounded_submit
bounded_chain_signer addresses transport genesis_hash authority = do
  guard
      (not (
        not (transport.profile.program_id == addresses.to_base58 addresses.v2_program_id)
        || not (transport.profile.genesis_hash == genesis_hash)
        || not (transport.profile.authority == authority)
        || transport.profile.cluster == "mainnet-beta"
        || transport.profile.cluster == "devnet"))
      (execution "chain_profile_mismatch" false)
  ok (record {
    profile = transport.profile;
    inspect = transport.read_event;
    submit = bounded_submit transport;
    confirm = transport.confirm;
  })
