-- ===== src/Security.antt =====
-- Parts of apps/web/lib/security.
pub mod Ids
pub mod Tokens
pub mod Capabilities
pub mod Receipts
