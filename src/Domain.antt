-- ===== src/Domain.antt =====
-- The workflow rules of submissions, public issues and handoffs.
pub mod Workflow
