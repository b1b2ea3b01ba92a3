-- ===== src/Exec.antt =====
-- src/exec.rs: the exact operations on constants that the abstract and the concrete side share.
pub mod Alu
