-- ===== src/Scenarios.antt =====
-- Concrete runs of the model, at which the theorems are applied.
pub mod Data
pub mod Handoffs
pub mod Runs
pub mod Records
pub mod Talks
pub mod Notices
pub mod Supervision
