-- ===== src/Chain/Outbox/Matching/Observed.antt =====
-- The event that is created for a job is the event that the worker accepts for it.
use nagarik_signals.Base.{
  ◌≡◌, ap, subst, true, some, String, ==_refl, nat_eq, string_eq, bool_eq, ok, >>=-eq-ok,
  ok-injective, le→leb, arith,
}
use nagarik_signals.Base.Text.{is_hash_hex, is_signature}
use nagarik_signals.Chain.Protocol.{
  Hashing, Addresses, v2_operations, derive_issue_pda, derive_commitment_event_pda,
}
use nagarik_signals.Chain.Job.Schema.{Envelope}
use nagarik_signals.Chain.Job.Codec.{PreparedChainJob, prepare_chain_job, stream_of, stream_head}
use nagarik_signals.Chain.Signer.{ObservedCommitmentEvent}
use nagarik_signals.Chain.Outbox.Matching.{
  Observation, observed, is_safe_integer, event_matches, chain_observation_matches,
  create_observed_event,
}

-- What the chain reported has the form that the worker asks for.
pub record IsReported (i : Observation) : Type 0 where
  pub signature : is_signature i.signature ≡ true
  pub slot : is_safe_integer i.finalized_slot ≡ true
  pub account : is_hash_hex i.account_sha256 ≡ true

event_matches-observed :
    (p : PreparedChainJob) (a b : String) (i : Observation)
    → IsReported i
    → event_matches p a b (observed p a b i) ≡ true
unfolding event_matches observed
event_matches-observed p a b i r = rw (
  ==_refl a,
  ==_refl b,
  ==_refl p.event_id,
  ==_refl (v2_operations p.operation),
  ==_refl p.next.category,
  ==_refl p.next.update_count,
  ==_refl (stream_head (stream_of p.operation) p.expected),
  ==_refl (stream_head (stream_of p.operation) p.next),
  ==_refl p.payload_hash,
  ==_refl p.next.metadata_hash,
  ==_refl p.next.evidence_hash,
  ==_refl p.next.location_hash,
  ==_refl p.next.lifecycle,
  ==_refl p.next.removed,
  r.signature,
  r.slot,
  r.account,
  le→leb 0 i.finalized_slot (omega arith),
)

-- The event that is created for a job and a well-formed report of the chain matches the job, as it
-- is prepared from its envelope.
pub chain_observation_matches-create_observed_event :
    (addresses : Addresses) (hashing : Hashing) (job : Envelope) (i : Observation)
    (o : ObservedCommitmentEvent)
    → IsReported i
    → create_observed_event addresses hashing job i ≡ ok o
    → (p : PreparedChainJob) × (prepare_chain_job hashing (some job) ≡ ok p)
      × (chain_observation_matches addresses p o ≡ ok true)
unfolding create_observed_event chain_observation_matches
chain_observation_matches-create_observed_event addresses hashing job i o r h =
    let (p, e1, h1) = >>=-eq-ok (prepare_chain_job hashing (some job)) _ h in
    let (issue, e2, h2) = >>=-eq-ok (derive_issue_pda addresses p.issue_key_bytes) _ h1 in
    let (event, e3, h3) =
      >>=-eq-ok (derive_commitment_event_pda addresses issue p.event_id_bytes) _ h2 in
    (
      p,
      e1,
      rw (e2, e3)
          (ap ok (
            subst
              (λ o.
                event_matches p (addresses.to_base58 issue) (addresses.to_base58 event) o ≡ true)
              (ok-injective h3)
              (event_matches-observed p (addresses.to_base58 issue) (addresses.to_base58 event) i
                r))),
    )
