-- ===== src/Services.antt =====
-- Services of apps/web/lib/services.
pub mod Idempotency
pub mod Operations
pub mod Signals
pub mod Issues
pub mod Lifecycle
pub mod Media
pub mod Moderation
pub mod Publication
pub mod Switches
