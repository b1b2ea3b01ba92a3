-- ===== src/Cfg/Visit.antt =====
-- src/cfg.rs: `visit_insn`, the successors of one instruction with the checks of its targets.
pub mod Count
pub mod Targets
use rand_verifier.Prelude.{
  ℕ, suc, ◌+◌, Bool, true, false, ◌&&◌, ◌||◌, ◌==◌, ltb, leb, if◌then◌else◌, List, [], ◌∷◌, Option,
  some, none, ok, ◌>>=◌, length, get_elem?,
}
use rand_verifier.Prelude.Int.{ℤ}
use rand_verifier.Insn.{BpfInsn, exit, jmp, call_sub, ld_imm64_second}
use rand_verifier.Insn.Control.{branch_offset, call_offset, target_of}
use rand_verifier.Cfg.{
  Reason, Checked, fail, listed, find_subprog_range, jump_crosses, branch_crosses, not_an_entry,
  falls_through, middle_of_ldimm64, out_of_range,
}

-- Behind every call whose target is `start`.
unfoldable pub returns_to : ℕ → ℕ → List BpfInsn → List ℕ
unfolding call_offset
returns_to start pc [] = []
returns_to start pc (insn ∷ insns) =
    let later = returns_to start (suc pc) insns in
    elim (call_offset insn) [
      | none ↦ later
      | some offset ↦ if target_of pc offset == start then (pc + 1) ∷ later else later
    ]

abbrev pub is_second : Option BpfInsn → Bool
is_second (some (ld_imm64_second imm_hi)) = true
is_second _ = false

unfoldable pub check_ldimm64_target : ℕ → ℕ → List BpfInsn → Checked ℕ
check_ldimm64_target idx target insns =
    if is_second (get_elem? insns target) then fail idx middle_of_ldimm64 else ok target

-- A target inside the subprogram, and not in the middle of two slots.
unfoldable pub checked_target : Reason → ℕ → ℕ × ℕ → ℕ → List BpfInsn → Checked ℕ
unfolding check_ldimm64_target
checked_target why idx range target insns =
    if ltb target range.0 || leb range.1 target
    then fail idx why
    else check_ldimm64_target idx target insns

unfoldable pub branch_nexts : ℕ → ℕ × ℕ → List BpfInsn → Option ℤ → Checked (List ℕ)
unfolding checked_target
branch_nexts idx range insns none = ok ((idx + 1) ∷ [])
branch_nexts idx range insns (some offset) =
    checked_target branch_crosses idx range (target_of idx offset) insns
    >>= (λ target. ok (target ∷ (idx + 1) ∷ []))

-- The match on the instruction.
unfoldable pub nexts_of : ℕ → ℕ × ℕ → List BpfInsn → List ℕ → BpfInsn → Checked (List ℕ)
unfolding returns_to checked_target branch_nexts branch_offset
nexts_of idx range insns subprogs exit =
    ok (if range.0 == 0 then [] else returns_to range.0 0 insns)
nexts_of idx range insns subprogs (jmp offset) =
    checked_target jump_crosses idx range (target_of idx offset) insns
    >>= (λ target. ok (target ∷ []))
nexts_of idx range insns subprogs (call_sub offset) =
    let target = target_of idx offset in
    if listed subprogs target then ok (target ∷ []) else fail idx not_an_entry
nexts_of idx range insns subprogs insn = branch_nexts idx range insns (branch_offset insn)

-- No fall-through out of the subprogram.
unfoldable pub stays_inside : ℕ → ℕ × ℕ → List ℕ → Checked (List ℕ)
stays_inside idx range nexts =
    if listed nexts (idx + 1) && leb range.1 (idx + 1) then fail idx falls_through else ok nexts

unfoldable pub visit_insn : ℕ → List BpfInsn → List ℕ → Checked (List ℕ)
unfolding nexts_of stays_inside find_subprog_range
visit_insn idx insns subprogs =
    let range = find_subprog_range idx subprogs (length insns) in
    elim (get_elem? insns idx) [
      | none ↦ fail idx out_of_range
      | some insn ↦ nexts_of idx range insns subprogs insn >>= stays_inside idx range
    ]
