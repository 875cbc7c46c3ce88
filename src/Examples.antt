-- ===== src/Examples.antt =====
-- Runs of the models on concrete inputs.
pub mod World
pub mod Jobs
pub mod Workflows
pub mod Outbox
pub mod Audits
pub mod Switches
pub mod Signals
pub mod Canonical
pub mod Lifecycle
pub mod Publication
pub mod Moderation
