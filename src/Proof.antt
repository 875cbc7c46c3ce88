-- ===== src/Proof.antt =====
-- Parts of apps/web/lib/proof.
pub mod Canonical
