-- ===== src/Spec/Runner.antt =====
-- src/spec/runner.rs: the exploration of all paths, one child for each kind of instruction.
pub mod Arith
pub mod Branch
pub mod Calls
pub mod Frames
pub mod Moves
pub mod Return
pub mod Run
pub mod Step
