-- ===== src/Governor.antt =====
-- daemon/src/governor: what watches the agent sessions and steps in.
pub mod Types
pub mod LoopDetector
pub mod CostBudget
pub mod Validator
pub mod Audit
pub mod Diagnosis
pub mod Classifier
