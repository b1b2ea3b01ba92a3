-- ===== src/Spec.antt =====
-- src/spec/: the independent safety spec.
pub mod Alu
pub mod Helper
pub mod Memory
pub mod Refine
pub mod Runner
pub mod State
pub mod Value
pub mod Verdict
