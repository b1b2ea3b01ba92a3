-- ===== src/Spec/Runner/Run.antt =====
-- src/spec/runner.rs `run`, `compute_loop_heads`, `verify_spec_limited`: the exploration.
pub mod Closed
pub mod Safety
use native.Mathlib.Decide.{ℕ_discrete}
use rand_verifier.Prelude.{
  ℕ, zero, suc, ◌+◌, Bool, true, false, test_of, ◌&&◌, ◌||◌, ◌==◌, ltb, leb, if◌then◌else◌, Option,
  some, none, List, [], ◌∷◌, ◌++◌, Result, ok, err, length, get_elem?,
}
use rand_verifier.Prelude.Int.{ℤ}
use rand_verifier.Insn.{
  BpfInsn, jmp, jeq, jeq_imm, jne, jne_imm, jgt, jgt_imm, jge, jge_imm, jlt, jlt_imm, jle, jle_imm,
  jsgt, jsgt_imm, jsge, jsge_imm, jslt, jslt_imm, jsle, jsle_imm,
}
use rand_verifier.ProgType.{ProgType}
use rand_verifier.Spec.Value.{SpecValue}
use rand_verifier.Spec.State.{SpecState, SpecFrame, SpecStack, Spill, initial}
use rand_verifier.Spec.Verdict.{
  SpecVerdict, accept, verdict_of, failed, budget_exceeded, state_budget_exceeded, pc_out_of_range,
  infinite_loop,
}
use rand_verifier.Spec.Runner.Branch.{WorkItem, item, branch_target}
use rand_verifier.Spec.Runner.Step.{MapInfo, step}

-- The offset of a jump that counts for the loop heads: the 32-bit and bit tests do not.
jump_offset : BpfInsn → Option ℤ
jump_offset (jmp offset) = some offset
jump_offset (jeq dst src offset) = some offset
jump_offset (jeq_imm dst i offset) = some offset
jump_offset (jne dst src offset) = some offset
jump_offset (jne_imm dst i offset) = some offset
jump_offset (jgt dst src offset) = some offset
jump_offset (jgt_imm dst i offset) = some offset
jump_offset (jge dst src offset) = some offset
jump_offset (jge_imm dst i offset) = some offset
jump_offset (jlt dst src offset) = some offset
jump_offset (jlt_imm dst i offset) = some offset
jump_offset (jle dst src offset) = some offset
jump_offset (jle_imm dst i offset) = some offset
jump_offset (jsgt dst src offset) = some offset
jump_offset (jsgt_imm dst i offset) = some offset
jump_offset (jsge dst src offset) = some offset
jump_offset (jsge_imm dst i offset) = some offset
jump_offset (jslt dst src offset) = some offset
jump_offset (jslt_imm dst i offset) = some offset
jump_offset (jsle dst src offset) = some offset
jump_offset (jsle_imm dst i offset) = some offset
jump_offset _ = none

pub member : List ℕ → ℕ → Bool
member [] x = false
member (y ∷ ys) x = (x == y) || member ys x

-- `heads` with the target of a backward jump at `pc`, once.
add_head : List ℕ → ℕ → Option ℤ → List ℕ
add_head heads pc none = heads
add_head heads pc (some offset) =
    let target = branch_target pc offset in
    if leb target pc then if member heads target then heads else heads ++ (target ∷ []) else heads

heads_from : List ℕ → ℕ → List BpfInsn → List ℕ
heads_from heads pc [] = heads
heads_from heads pc (insn ∷ program) =
    heads_from (add_head heads pc (jump_offset insn)) (suc pc) program

unfoldable pub compute_loop_heads : List BpfInsn → List ℕ
unfolding heads_from add_head jump_offset
compute_loop_heads program = heads_from [] 0 program

unfoldable pub Value-discrete : Discrete SpecValue
Value-discrete = hlevel ℕ_discrete

unfoldable pub Spill-discrete : Discrete Spill
Spill-discrete = hlevel (ℕ_discrete, Value-discrete)

unfoldable pub Stack-discrete : Discrete SpecStack
Stack-discrete = hlevel (ℕ_discrete, Spill-discrete)

unfoldable pub Frame-discrete : Discrete SpecFrame
Frame-discrete = hlevel (ℕ_discrete, Value-discrete, Stack-discrete)

-- The states are compared by all their fields.
unfoldable pub State-discrete : Discrete SpecState
State-discrete = hlevel (ℕ_discrete, Frame-discrete)

unfoldable pub Item-discrete : Discrete WorkItem
Item-discrete = hlevel (ℕ_discrete, State-discrete)

unfoldable pub explored : List WorkItem → WorkItem → Bool
explored [] w = false
explored (v ∷ vs) w = test_of (Item-discrete v w) || explored vs w

-- `worklist.push` of each item in turn; the last one pushed is popped first.
unfoldable pub push_all : List WorkItem → List WorkItem → List WorkItem
push_all [] worklist = worklist
push_all (w ∷ ws) worklist = push_all ws (w ∷ worklist)

pub record SpecLimits : Type 0 where
  pub max_states : ℕ
  pub max_steps : ℕ

abbrev pub default_limits : SpecLimits
default_limits = record { max_states = 8192; max_steps = 200000 }

module _ (prog : ProgType) (maps : ℕ → Option MapInfo) (program : List BpfInsn) (max_states : ℕ)
    (heads : List ℕ) where
  -- The loop of `run`. The first argument is the number of steps left of `max_steps`; the others are
  -- the visited set, the last reference id and the worklist.
  unfoldable pub run : ℕ → List WorkItem → ℕ → List WorkItem → SpecVerdict
  run left visited next_id [] = accept
  run zero visited next_id (w ∷ worklist) = failed w.pc budget_exceeded
  run (suc left) visited next_id (w ∷ worklist) =
      if ltb max_states (length visited)
      then failed w.pc state_budget_exceeded
      else elim (get_elem? program w.pc) [
        | none ↦ failed w.pc pc_out_of_range
        | some insn ↦ elim (explored visited w) [
          | true ↦ elim (member heads w.pc) [
            | true ↦ failed w.pc infinite_loop
            | false ↦ run left visited next_id worklist
          ]
          | false ↦ elim (step prog maps next_id w.state w.pc insn) [
            | err why ↦ verdict_of why
            | ok r ↦ run left (w ∷ visited) r.1 (push_all r.0 worklist)
          ]
        ]
      ]

unfoldable pub verify_spec_limited :
    List BpfInsn → (ℕ → Option MapInfo) → SpecLimits → ProgType → SpecVerdict
verify_spec_limited program maps limits prog =
    run prog maps program limits.max_states (compute_loop_heads program) limits.max_steps []
      0x4000_0000 (item 0 initial ∷ [])

unfoldable pub verify_spec_with : List BpfInsn → (ℕ → Option MapInfo) → ProgType → SpecVerdict
verify_spec_with program maps prog = verify_spec_limited program maps default_limits prog
