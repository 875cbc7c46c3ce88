-- ===== src/Chain/Signer/Policy.antt =====
-- What the bounded signer lets through.
use nagarik_signals.Base.{
  ◌≡◌, ◌≢◌, ◌≤◌, ◌||◌, true, false, Bool, String, ◌==◌, ==_iff, string_eq, not, ok, arith,
  >>=-eq-ok, guard-then-eq-ok, ok-injective, subst, ap, sym,
}
use nagarik_signals.Base.Text.{is_signature}
use nagarik_signals.Chain.Protocol.{Addresses}
use nagarik_signals.Chain.Job.Codec.{PreparedChainJob}
use nagarik_signals.Chain.Signer.{
  ChainProfile, ChainSimulation, V2ChainTransport, ChainSigner, max_compute_units, max_fee_lamports,
  outside_policy, bounded_submit, bounded_chain_signer,
}

-- One instruction of the expected program and authority, within the limits, that moves no value.
pub record IsBounded (profile : ChainProfile) (s : ChainSimulation) : Type 0 where
  pub program : s.program_id ≡ profile.program_id
  pub signer : s.authority ≡ profile.authority
  pub single : s.instruction_count ≡ 1
  pub computes : 1 ≤ s.compute_units
  pub compute_limit : s.compute_units ≤ max_compute_units
  pub fee_limit : s.fee_lamports ≤ max_fee_lamports
  pub no_transfer : s.has_value_transfer ≡ false

outside_policy-IsBounded :
    (p : ChainProfile) (s : ChainSimulation) → not (outside_policy p s) ≡ true → IsBounded p s
unfolding outside_policy
outside_policy-IsBounded p s h =
    ground (arith, ==_iff s.program_id p.program_id, ==_iff s.authority p.authority)

-- A signature comes back only for a job whose simulation succeeded within the policy; it is the
-- transport's own and has the form of a signature.
pub bounded_submit-IsBounded :
    (transport : V2ChainTransport) (job : PreparedChainJob) (signature : String)
    → bounded_submit transport job ≡ ok signature
    → ((s : ChainSimulation) × (transport.simulate job ≡ ok s)
        × (s.succeeded ≡ true)
        × IsBounded transport.profile s)
      × (transport.submit job ≡ ok signature)
      × (is_signature signature ≡ true)
unfolding bounded_submit
bounded_submit-IsBounded transport job signature h =
    let (s, simulated, h1) = >>=-eq-ok (transport.simulate job) _ h in
    let (succeeded, h2) = guard-then-eq-ok s.succeeded _ _ h1 in
    let (inside, h3) = guard-then-eq-ok (not (outside_policy transport.profile s)) _ _ h2 in
    let (sent, submitted, h4) = >>=-eq-ok (transport.submit job) _ h3 in
    let (shape, same) = guard-then-eq-ok (is_signature sent) _ _ h4 in
    let e : sent ≡ signature = ok-injective same in
    (
      (s, simulated, succeeded, outside_policy-IsBounded transport.profile s inside),
      subst (λ t. transport.submit job ≡ ok t) e submitted,
      subst (λ t. is_signature t ≡ true) e shape,
    )

profile_test : Addresses → String → String → ChainProfile → Bool
profile_test addresses genesis_hash authority p = not (
    not (p.program_id == addresses.to_base58 addresses.v2_program_id)
    || not (p.genesis_hash == genesis_hash)
    || not (p.authority == authority)
    || p.cluster == "mainnet-beta"
    || p.cluster == "devnet")

-- The profile that the operator configured, on a permitted cluster.
abbrev pub IsExpected : Addresses → String → String → ChainProfile → Type 0
IsExpected addresses genesis_hash authority p =
    (p.program_id ≡ addresses.to_base58 addresses.v2_program_id)
    × (p.genesis_hash ≡ genesis_hash)
    × (p.authority ≡ authority)
    × (p.cluster ≢ "mainnet-beta")
    × (p.cluster ≢ "devnet")

profile_test_sound :
    (addresses : Addresses) (g a : String) (p : ChainProfile)
    → profile_test addresses g a p ≡ true
    → IsExpected addresses g a p
unfolding profile_test
profile_test_sound addresses g a p h = ground (
  arith,
  ==_iff p.program_id (addresses.to_base58 addresses.v2_program_id),
  ==_iff p.genesis_hash g,
  ==_iff p.authority a,
  ==_iff p.cluster "mainnet-beta",
  ==_iff p.cluster "devnet",
)

-- A signer is built only for the expected program, genesis hash and authority, outside mainnet and
-- devnet, and whatever it submits was simulated within its policy and has the form of a signature.
pub bounded_chain_signer-IsBounded :
    (addresses : Addresses) (transport : V2ChainTransport) (genesis_hash authority : String)
    (signer : ChainSigner) (job : PreparedChainJob) (signature : String)
    → bounded_chain_signer addresses transport genesis_hash authority ≡ ok signer
    → signer.submit job ≡ ok signature
    → IsExpected addresses genesis_hash authority signer.profile
      × ((s : ChainSimulation) × (transport.simulate job ≡ ok s)
          × (s.succeeded ≡ true)
          × IsBounded signer.profile s)
      × (is_signature signature ≡ true)
unfolding bounded_chain_signer profile_test
bounded_chain_signer-IsBounded addresses transport genesis_hash authority signer job signature h e =
    let (tested, same) =
      guard-then-eq-ok (profile_test addresses genesis_hash authority transport.profile) _ _ h in
    let built = ok-injective same in
    let profile : transport.profile ≡ signer.profile = ap (λ s. s.profile) built in
    let sent : bounded_submit transport job ≡ ok signature =
      subst (λ s. s.submit job ≡ ok signature) (sym built) e in
    let (simulated, _, shape) = bounded_submit-IsBounded transport job signature sent in
    (
      subst (IsExpected addresses genesis_hash authority) profile
          (profile_test_sound addresses genesis_hash authority transport.profile tested),
      subst
          (λ p.
            (s : ChainSimulation) × (transport.simulate job ≡ ok s)
            × (s.succeeded ≡ true)
            × IsBounded p s)
          profile simulated,
      shape,
    )
