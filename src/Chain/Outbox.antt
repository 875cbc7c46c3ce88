-- ===== src/Chain/Outbox.antt =====
-- apps/web/lib/chain/outboxWorker.ts
pub mod Store
pub mod Transactions
pub mod Finalize
pub mod Matching
pub mod Claim
pub mod Actions
pub mod Worker
pub mod Batch
pub mod Exact
pub mod Steps
