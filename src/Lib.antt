-- ===== src/Lib.antt =====
-- Verification of rand-verifier, a model of the Linux kernel's eBPF verifier with an independent
-- safety specification and fuzzing tools around it. This library models the safety specification
-- (src/spec/) whole and what it rests on, and of the verifier the decoder of instructions, the
-- control-flow checks, the liveness analysis, the state, and the minimizer's delta debugging.
--
-- The program's parts and the files that model them:
-- - src/tnum.rs, tracked numbers (`Tnum`): Tnum.antt has every operation. Tnum/Members.antt says which
--   numbers a tracked number stands for; the other files of Tnum/ are about the operations on members.
-- - src/spec/value.rs (`SpecValue`, `rng_*`, `range32`, `as_signed`): Spec/Value.antt.
-- - src/spec/state.rs (`SpecState`, frames, the stack, references): Spec/State.antt. Arrays are lists.
-- - src/spec/helper.rs (`spec_helper`, `dynptr_slots_of`): Spec/Helper.antt.
-- - src/spec/runner.rs: `alu_range` and the 32-bit path in Spec/Alu.antt, the refinements by
--   comparisons in Spec/Refine.antt, the checks of an access, `store` and `load` in Spec/Memory.antt
--   and Spec/Memory/, and the instructions in Spec/Runner/: Arith (`alu64`, `alu32`, `ptr_add`),
--   Calls (`helper_call`), Branch (`branch`, `branch_signed`, `pointer_branch`), Frames (`push_frame`,
--   `pop_frame`), Step (one instruction) and Run (`run`, `verify_spec_limited`).
-- - src/ctx.rs: Ctx.antt. src/prog_type.rs: ProgType.antt.
-- - src/insn.rs: Insn.antt has the instruction type, Insn/Opcode.antt the opcodes, Insn/Decode.antt the
--   errors, Insn/Read.antt the reads from a slice, Insn/Parse.antt `parse_insn` with its arms in
--   Insn/Decode/ (Alu, Jump, Memory), and Insn/Program.antt `parse_ldimm64` and `decode_program`.
--   `panicked` stands for an `unreachable!`, an `expect` and an index behind the end of a slice.
--   src/fuzz/insn_lib.rs `encode`: Insn/Encode.antt, where `none` is a panic.
-- - src/cfg.rs: Cfg.antt (`add_subprog`, `find_subprog_range`), Cfg/Visit.antt (`visit_insn`),
--   Cfg/Search.antt (`check_cfg`), Cfg/Stack.antt (stack depths and call chains).
-- - src/liveness.rs: Liveness.antt (`use_def`), Liveness/Successors.antt (`static_successors`),
--   Liveness/Analyze.antt (`analyze`).
-- - src/state.rs: State.antt (`ScalarBounds`, `synced`, `from_signed`) and State/Frames.antt (registers,
--   stack, frames, `call_subprog`, `return_from_subprog`, `read_reg`, `read_scalar`).
-- - src/state_eq.rs: State/Equal.antt (`regsafe`, `regs_exact`, `check_ids`), the id map passed along, and
--   State/Equal/Stack.antt (`stacksafe`, `states_equal`, `clean_state`).
-- - src/fuzz/reduce/ddmin.rs: Reduce.antt (`OracleCache`; `check` is `answer_of`) and Reduce/Ddmin.antt
--   (`ddmin`). src/fuzz/reduce/fixup.rs: Reduce/Fixup.antt (`delete_insns`). The oracle is a parameter.
-- - src/exec.rs `alu_const64`, `alu_const32`: Exec/Alu.antt, the meaning of the ALU operations.
-- Word.antt has the wrapping operations of `u64`, Prelude.antt the helpers that all share, and
-- Tests.antt the theorems at concrete inputs.
--
-- How they interact: `run` keeps a worklist of (pc, state) items and the visited ones. It pops an item,
-- checks the budgets, fetches the instruction, and pushes the successors that `step` gives; a refused
-- step ends the run with its verdict. `step` reads and writes the state through the memory, call,
-- branch and arithmetic functions, which return a result with a refusal in place of an error. A
-- refusal is one of the verdicts `Reject` and `Inconclusive`: the source's errors have the type of all
-- verdicts and never hold `Accept`. Reasons stand for the texts of messages.
--
-- Numbers: a `u64` is a natural number below 2 ^ 64 with its wrap-around written out, an `i64` an
-- integer with saturation written out. The target of a jump, the stack that an access uses and the
-- ends of a buffer to fill wrap as in a release build, where a build with overflow checks panics. The
-- first argument of the loop is the number of steps left of `max_steps`, so that it bounds the loop as
-- the source does; `mul` runs at most 64 rounds, one for each bit. The search of `check_cfg` has fuel
-- for each instruction once for each successor and once more; `solve` of `analyze` for as many rounds
-- as the sum of the masks can grow; `ddmin` for more rounds than those in which it keeps less or cuts
-- finer. `visit_chain` recurses on the frames that are left of the 16 that it allows. An index out of
-- range panics in the source: in Cfg it is the failure `out_of_range`, and a mask of Liveness behind
-- the program is empty.
--
-- Not modelled: the texts of messages; the hash map of visited items (a list of items, compared by all
-- their fields); registers above 10, which decoding excludes. The loop and the step of the main verifier
-- (src/mini.rs, src/exec.rs) with the stack check on its states, the concrete
-- interpreter, the disassembler, the rest of the fuzzer and the minimizer, and the solver tooling are not
-- modelled; input, output and process control are left out.
pub mod Ctx
pub mod Exec
pub mod Insn
pub mod Cfg
pub mod Liveness
pub mod Prelude
pub mod ProgType
pub mod Reduce
pub mod Spec
pub mod State
pub mod Tests
pub mod Tnum
pub mod Word
