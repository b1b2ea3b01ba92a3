-- ===== src/Tests/Flow.antt =====
-- The liveness analysis of src/liveness.rs on a small program.
use rand_verifier.Prelude.{ℕ, zero, suc, ◌^◌, ◌<◌, ◌≡◌, refl, List, [], ◌∷◌, some, arith}
use rand_verifier.Prelude.Int.{pos}
use rand_verifier.Insn.{BpfInsn, mov_reg, exit, jeq_imm}
use rand_verifier.Insn.Control.{target_of}
use rand_verifier.Liveness.{use_def}
use rand_verifier.Liveness.Analyze.{LivenessMasks, use_def_at, analyze}
use rand_verifier.Liveness.Analyze.Solved.{IsLeastSolution, analyze-IsLeastSolution}

-- A branch over a move into R0: both R0 and R2 may be read before it, and R1 by it.
abbrev branching : List BpfInsn
branching = jeq_imm 1 (pos 0) (pos 1) ∷ mov_reg 0 2 ∷ exit ∷ []

branching-masks :
    analyze branching ≡ some (record { live_regs = 7 ∷ 4 ∷ 1 ∷ []; live_stack = 0 ∷ 0 ∷ 0 ∷ [] })
unfolding analyze target_of use_def
branching-masks = refl

branching-regs : (i : ℕ) → (use_def_at branching i).use_regs < 2 ^ 16
unfolding use_def
branching-regs zero = omega arith
branching-regs (suc zero) = omega arith
branching-regs (suc (suc zero)) = omega arith
branching-regs (suc (suc (suc i))) = omega arith

branching-slots : (i : ℕ) → (use_def_at branching i).read_slots < 2 ^ 64
unfolding use_def
branching-slots zero = omega arith
branching-slots (suc zero) = omega arith
branching-slots (suc (suc zero)) = omega arith
branching-slots (suc (suc (suc i))) = omega arith

analyze-IsLeastSolution_example :
    (l : LivenessMasks) × (analyze branching ≡ some l) × IsLeastSolution branching l
analyze-IsLeastSolution_example =
    analyze-IsLeastSolution branching
      (record { regs_fit = branching-regs; slots_fit = branching-slots })
