-- ===== src/Examples/World.antt =====
-- Concrete inputs: one digest for every text, one job that creates an issue, and its tables.
use nagarik_signals.Base.{
  ℕ, suc, zero, ◌+◌, ◌/◌, ◌%◌, List, true, false, none, some, String, [], ◌∷◌, replicate, All,
  arith, refl, ok,
}
use nagarik_signals.Base.Text.{Bytes, IsByte}
use nagarik_signals.Chain.Protocol.{Hashing, Addresses, issue_created}
use nagarik_signals.Chain.Job.Schema.{Snapshot, Envelope, zero_hash}
use nagarik_signals.Chain.Job.Codec.{PreparedChainJob, JobInput}
use nagarik_signals.Chain.Signer.{ChainProfile, ObservedCommitmentEvent, ChainSigner}
use nagarik_signals.Chain.Outbox.Store.{pending, leased, JobRow, IssueRow, Database}
use nagarik_signals.Chain.Outbox.Transactions.{WorkerJob, Projector}
use nagarik_signals.Chain.Outbox.Matching.{Observation}
use nagarik_signals.Chain.Outbox.Actions.{ChainWorker, Schedule}

abbrev pub ones : Bytes
ones = replicate 32 1

pub ones-IsByte : (n : ℕ) → All IsByte (replicate n 1)
ones-IsByte zero = tt
ones-IsByte (suc n) = (omega arith, ones-IsByte n)

abbrev pub digest : String
digest = "0101010101010101010101010101010101010101010101010101010101010101"

abbrev pub signature : String
signature = "1111111111111111111111111111111111111111111111111111111111111111"

abbrev pub uuid : String
uuid = "00000000-0000-4000-8000-000000000000"

abbrev pub hashing : Hashing
hashing = record {
  sha256 = λ _. ones;
  sha256_length = λ _. refl;
  sha256_bytes = λ _. ones-IsByte 32;
}

-- A hash that tells many texts apart: the sum of the bytes.
abbrev pub sum_of : Bytes → ℕ
sum_of [] = 0
sum_of (b ∷ bs) = b + sum_of bs

abbrev pub sum_parts : List Bytes → ℕ
sum_parts [] = 0
sum_parts (bs ∷ rest) = sum_of bs + sum_parts rest

abbrev pub sums : Hashing
sums = record {
  sha256 = λ parts. sum_parts parts / 256 % 256 ∷ sum_parts parts % 256 ∷ replicate 30 1;
  sha256_length = λ _. refl;
  sha256_bytes = λ parts. (omega arith, (omega arith, ones-IsByte 30));
}

abbrev pub addresses : Addresses
addresses = record {
  find_program_address = λ _ _. ones;
  to_base58 = λ _. "account";
  v2_program_id = ones;
}

abbrev pub nothing : Snapshot
nothing = record {
  update_count = 0;
  timeline_head = zero_hash;
  handoff_head = zero_hash;
  category = 0;
  lifecycle = 0;
  removed = false;
  metadata_hash = zero_hash;
  evidence_hash = zero_hash;
  location_hash = zero_hash;
}

abbrev pub created : Snapshot
created = record {
  update_count = 1;
  timeline_head = digest;
  handoff_head = zero_hash;
  category = 2;
  lifecycle = 0;
  removed = false;
  metadata_hash = digest;
  evidence_hash = digest;
  location_hash = digest;
}

abbrev pub input : JobInput
input = record {
  operation = issue_created;
  public_issue_id = uuid;
  database_event_id = uuid;
  payload_hash = digest;
  expected = nothing;
  next = record {
    category = 2;
    lifecycle = 0;
    removed = false;
    metadata_hash = digest;
    evidence_hash = digest;
    location_hash = digest;
  };
}

abbrev pub envelope : Envelope
envelope = record {
  schema_version = "nagarik-chain-job-v2";
  operation = issue_created;
  public_issue_id = uuid;
  database_event_id = uuid;
  issue_key = digest;
  event_id = digest;
  operation_id = digest;
  payload_hash = digest;
  expected = nothing;
  next = created;
}

abbrev pub protocol : PreparedChainJob
protocol = record {
  envelope = envelope;
  issue_key_bytes = ones;
  event_id_bytes = ones;
  operation_id_bytes = ones;
  payload_hash_bytes = ones;
}

abbrev pub observation : Observation
observation = record { signature = signature; finalized_slot = 7; account_sha256 = digest }

abbrev pub event : ObservedCommitmentEvent
event = record {
  issue_account = "account";
  event_account = "account";
  event_id = digest;
  event_type = 0;
  category = 2;
  sequence = 1;
  previous_head = zero_hash;
  new_head = digest;
  payload_hash = digest;
  metadata_hash = digest;
  issue_evidence_hash = digest;
  location_hash = digest;
  lifecycle = 0;
  publication_removed = false;
  signature = signature;
  finalized_slot = 7;
  account_sha256 = digest;
}

abbrev pub profile : ChainProfile
profile = record {
  cluster = "localnet";
  genesis_hash = "genesis";
  program_id = "account";
  authority = "authority";
}

-- The event is on chain.
abbrev pub signer : ChainSigner
signer = record {
  profile = profile;
  inspect = λ _. ok (some event);
  submit = λ _. ok signature;
  confirm = λ _ _. ok (some event);
}

-- The event appears once it was submitted.
abbrev pub late_signer : ChainSigner
late_signer = record {
  profile = profile;
  inspect = λ _. ok none;
  submit = λ _. ok signature;
  confirm = λ _ _. ok (some event);
}

-- The projection counts what it was given.
abbrev pub project : Projector ℕ
project _ n = ok (true, suc n)

abbrev pub worker : ChainWorker ℕ
worker = record {
  hashing = hashing;
  addresses = addresses;
  signer = signer;
  project_confirmed = project;
  worker_id = "worker";
}

abbrev pub alone : Schedule ℕ
alone = record { now = λ _. 1_000; others = λ _ db. db }

abbrev pub waiting : JobRow
waiting = record {
  id = "job";
  operation_id = digest;
  issue_id = "issue";
  issue_version_id = none;
  operation_type = "issue_created";
  chain_sequence = 1;
  event_id = digest;
  canonical_payload = some envelope;
  payload_hash = digest;
  state = pending;
  attempt_count = 0;
  available_at = 0;
  lease_owner = none;
  lease_expires_at = none;
  submitted_signature = none;
  last_error_category = none;
  updated_at = 0;
}

abbrev pub held : JobRow
held = record waiting {
  state = leased;
  attempt_count = 1;
  lease_owner = some "worker";
  lease_expires_at = some 61_000;
  updated_at = 1_000;
}

abbrev pub issue : IssueRow
issue = record {
  id = "issue";
  confirmed_update_count = 0;
  confirmed_timeline_head = zero_hash;
  confirmed_handoff_head = zero_hash;
  blocked_from_sequence = none;
  updated_at = 0;
}

abbrev pub tables : JobRow → Database ℕ
tables j = record {
  jobs = j ∷ [];
  issues = issue ∷ [];
  bindings = [];
  attempts = [];
  projection = 0;
}

abbrev pub work : WorkerJob
work = record { row = held; protocol = protocol }
