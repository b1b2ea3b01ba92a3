-- ===== src/Liveness/Successors.antt =====
-- src/liveness.rs: `static_successors`.
use rand_verifier.Prelude.{
  ℕ, suc, ◌+◌, ◌&&◌, ◌==◌, ltb, leb, if◌then◌else◌, List, [], ◌∷◌, ◌++◌, Option, some, none, length,
  get_elem?,
}
use rand_verifier.Prelude.Int.{ℤ, pos, negsuc, ◌+ℤ◌}
use rand_verifier.Insn.{BpfInsn, exit, jmp, call_sub}
use rand_verifier.Insn.Control.{branch_offset, call_offset, target_of}
use rand_verifier.Cfg.Visit.{returns_to}

-- The greatest call target that is at most `i`, 0 where there is none.
unfoldable pub last_entry : ℕ → ℕ → ℕ → List BpfInsn → ℕ
unfolding call_offset
last_entry i pc best [] = best
last_entry i pc best (insn ∷ insns) =
    last_entry i (suc pc)
      (elim (call_offset insn) [
        | none ↦ best
        | some offset ↦
            let target = target_of pc offset in
            if leb target i && ltb best target then target else best
      ])
      insns

unfoldable pub subprog_entry_at : ℕ → List BpfInsn → Option ℕ
unfolding last_entry
subprog_entry_at i program =
    let start = last_entry i 0 0 program in if start == 0 then none else some start

-- A target of the program, `i + 1 + offset`.
unfoldable pub jump_successor : ℕ → ℤ → List BpfInsn → List ℕ
unfolding ◌+ℤ◌
jump_successor i offset program = elim (pos (i + 1) +ℤ offset) [
  | pos target ↦ if ltb target (length program) then target ∷ [] else []
  | negsuc n ↦ []
]

unfoldable pub fall_through : ℕ → List BpfInsn → List ℕ
fall_through i program = if ltb (i + 1) (length program) then (i + 1) ∷ [] else []

unfoldable pub exit_successors : ℕ → List BpfInsn → List ℕ
unfolding subprog_entry_at
exit_successors i program =
    if i == 0
    then []
    else elim (subprog_entry_at i program) [ none ↦ [] | some start ↦ returns_to start 0 program ]

unfoldable pub branch_successors : ℕ → List BpfInsn → Option ℤ → List ℕ
unfolding fall_through jump_successor
branch_successors i program none = fall_through i program
branch_successors i program (some offset) =
    fall_through i program ++ jump_successor i offset program

unfoldable pub successors_of : ℕ → List BpfInsn → BpfInsn → List ℕ
unfolding exit_successors jump_successor branch_successors branch_offset
successors_of i program exit = exit_successors i program
successors_of i program (call_sub offset) = jump_successor i offset program
successors_of i program (jmp offset) = jump_successor i offset program
successors_of i program insn = branch_successors i program (branch_offset insn)

unfoldable pub static_successors : ℕ → List BpfInsn → List ℕ
unfolding successors_of
static_successors i program = elim (get_elem? program i) [
  | none ↦ []
  | some insn ↦ successors_of i program insn
]
