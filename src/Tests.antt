-- ===== src/Tests.antt =====
-- Witnesses: the theorems at concrete inputs.
mod Intervals
mod Decoder
mod Flow
mod Graphs
mod Machine
mod Programs
mod Reductions
mod States
mod TrackedNumbers
