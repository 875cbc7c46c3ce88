-- ===== src/Lib.antt =====
-- Nagarik Signals: the chain outbox and the workflows of its civic issues.
--
-- The web application records reports of civic problems, moderates them, publishes the approved ones
-- as issues, and commits each public change of an issue to a program on Solana. The part that is
-- modelled is the path of a change to the chain, from the operator's request on: a service checks the
-- request against the issue's rows, writes them, and builds an envelope (a chain job) with the
-- expected and the next snapshot of the issue, it waits in the table `nagarik.outbox_jobs`, workers
-- lease it, submit it, observe it and finalize it, and an audit compares the table with the chain.
-- Kill switches, which operators turn, close the application's capabilities.
--
-- Which file models which part (paths from the repository's root):
--   Domain/Workflow     apps/web/lib/domain/workflow.ts: the transition tables of submissions, of an
--                       issue's lifecycle and of handoffs, and their assertions.
--   Chain/Protocol      apps/web/lib/solana/v2/protocol.ts: codes and derived identifiers.
--   Chain/Job           apps/web/lib/chain/chainJob.ts: the schema (Schema), `prepareChainJob` and
--                       `buildChainJob` (Codec).
--   Chain/Signer        apps/web/lib/chain/signer.ts: the bounded signer.
--   Chain/Outbox        apps/web/lib/chain/outboxWorker.ts: the tables (Store), one function for each
--                       transaction (Transactions, Finalize), the tests of rows and events
--                       (Matching), the leases of the SQL function claim_chain_outbox_jobs in
--                       supabase/migrations/20260731000600_chain_outbox_claim.sql (Claim), `processJob`
--                       (Worker), `processChainOutboxBatch` (Batch), `reconcileExactChainOutboxJob`
--                       (Exact), and a step relation over all transactions (Steps).
--   Chain/Reconciler    apps/web/lib/chain/reconciler.ts: the audit and the repairs.
--   Services            apps/web/lib/services/capabilitySwitches.ts (Switches): the change of a kill
--                       switch; the reservations of requests (Idempotency) are the SQL functions
--                       reserve_idempotency and complete_idempotency of supabase/migrations.
--                       Operations is operatorMutation.ts; Lifecycle is status.ts, its transaction in
--                       Lifecycle/Change; Publication is publication.ts, with corrections in
--                       Publication/Correction/Correct and removals in Publication/Removal/Remove;
--                       Signals is signals.ts; Moderation is moderation.ts, with the checks and the
--                       rows of an approval in Moderation/Approval. Issues and Media hold the rows that they share.
--   Security/Ids        apps/web/lib/security/ids.ts: identifiers that are derived of texts.
--   Security/Tokens     apps/web/lib/security/capabilityTokens.ts: the texts of tokens; Capabilities
--                       derives and verifies them, and Receipts is operatorMediaCapabilityCore.ts.
--   Proof/Canonical     apps/web/lib/proof/canonicalize.ts: the canonical text of a JSON value.
--   Examples            Concrete inputs and runs. Base holds tests, lists, results and text.
--
-- How the code is read. A call that may throw gives a `Result` whose error is what was thrown. A
-- transaction is a function from the tables to an error or to a value and new tables, so that one
-- that throws leaves no trace. An action is a sequence of transactions; a `Schedule` gives the clock
-- of each transaction and what other sessions committed before it, so that every interleaving of
-- whole transactions is covered. A row is found by its identifier with `for update`. The columns of
-- type `bytea` hold lowercase hexadecimal text and times are milliseconds. All loops are over lists,
-- so no fuel is needed.
--
-- Parameters. SHA-256 (`Hashing`: 32 bytes for any input), the search for program addresses and
-- base 58 (`Addresses`), HMAC, `JSON.parse`, the transport and the signer's answers, and the public projection
-- (`Projector`), which may write a part of the tables of its own.
--
-- A change of a kill switch is a parsed one; its actor key, scope, record id and request hash are
-- parameters.
--
-- Not modelled: the attempts' and bindings' random or hashed row identifiers (the pair of job and
-- number is the key), columns that no modelled code reads, `for update skip locked` (a claim sees
-- every eligible row), the zod schemas but for those named, the services for submissions, uploads,
-- media, handoffs, privacy requests and invitations, the writes of the public projection, pages, scripts
-- and the on-chain programs.
pub mod Base
pub mod Domain
pub mod Chain
pub mod Proof
pub mod Security
pub mod Services
pub mod Examples
