-- ===== src/Foreman.antt =====
-- The foreman of daemon/src/temporal: the control loop that picks beads, dispatches them and keeps
-- account of the retries.
pub mod Types
pub mod Ledger
pub mod State
pub mod Selection
pub mod Workflow
