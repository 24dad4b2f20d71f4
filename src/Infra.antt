-- ===== src/Infra.antt =====
-- daemon/src/infra: the tools around the daemon.
pub mod LandPlane
pub mod Reconcile
pub mod Kilo
pub mod Factory
pub mod CardPrompt
