-- ===== src/Chain.antt =====
-- The chain side: the v2 protocol, its jobs, the signer, the outbox worker and the reconciler.
pub mod Protocol
pub mod Job
pub mod Signer
pub mod Outbox
pub mod Reconciler
