-- ===== src/Cfg/Visit/Targets.antt =====
-- The targets of the instructions that `visit_insn` of src/cfg.rs lets pass.
use rand_verifier.Prelude.{
  ◌&&◌, ◌||◌, ltb, leb, false, true, ℕ, ◌+◌, ◌≤◌, ◌<◌, ◌≡◌, List, Option, some, none, ok,
  if-err-eq-ok, >>=-eq-ok, length, get_elem?, arith, inl, inr, Option-cases, Bool-cases,
}
use rand_verifier.Prelude.Int.{ℤ}
use rand_verifier.Insn.{BpfInsn, exit, jmp, call_sub}
use rand_verifier.Insn.Control.{call_offset, branch_offset, target_of}
use rand_verifier.Cfg.{Reason, listed, find_subprog_range, jump_crosses, branch_crosses}
use rand_verifier.Cfg.Visit.{
  visit_insn, nexts_of, branch_nexts, stays_inside, checked_target, check_ldimm64_target, is_second,
}

-- The offset of a jump, conditional or not.
unfoldable pub target_offset : BpfInsn → Option ℤ
unfolding branch_offset
target_offset (jmp offset) = some offset
target_offset insn = branch_offset insn

-- A jump stays in its subprogram, and does not lead to the second slot of an ldimm64.
unfoldable pub JumpFits : List BpfInsn → ℕ × ℕ → ℕ → Option ℤ → Type 0
JumpFits insns range idx none = Unit
JumpFits insns range idx (some offset) =
    let target = target_of idx offset in
    (range.0 ≤ target) × (target < range.1) × (is_second (get_elem? insns target) ≡ false)

-- A call leads to the entry of a subprogram.
unfoldable pub CallFits : List ℕ → ℕ → Option ℤ → Type 0
CallFits subprogs idx none = Unit
CallFits subprogs idx (some offset) = listed subprogs (target_of idx offset) ≡ true

-- What the checks of an instruction with the successors `nexts` say, in the range of its subprogram.
pub record HasTargets (insns : List BpfInsn) (subprogs : List ℕ) (idx : ℕ) (nexts : List ℕ)
    : Type 0 where
  pub insn : BpfInsn
  pub fetched : get_elem? insns idx ≡ some insn
  pub jump_fits :
      JumpFits insns (find_subprog_range idx subprogs (length insns)) idx (target_offset insn)
  pub call_fits : CallFits subprogs idx (call_offset insn)
  pub falls_inside :
      listed nexts (idx + 1) && leb (find_subprog_range idx subprogs (length insns)).1 (idx + 1)
      ≡ false

checked_target-JumpFits :
    (why : Reason) (idx : ℕ) (range : ℕ × ℕ) (insns : List BpfInsn) (offset : ℤ) {t : ℕ}
    → checked_target why idx range (target_of idx offset) insns ≡ ok t
    → JumpFits insns range idx (some offset)
unfolding checked_target check_ldimm64_target JumpFits
checked_target-JumpFits why idx range insns offset h =
    let target = target_of idx offset in
    let (inside, rest) = if-err-eq-ok (ltb target range.0 || leb range.1 target) _ _ h in
    let (first, rest2) = if-err-eq-ok (is_second (get_elem? insns target)) _ _ rest in
    (ground arith, ground arith, first)

branch_nexts-JumpFits :
    (idx : ℕ) (range : ℕ × ℕ) (insns : List BpfInsn) (o : Option ℤ) {nexts : List ℕ}
    → branch_nexts idx range insns o ≡ ok nexts
    → JumpFits insns range idx o
unfolding branch_nexts JumpFits
branch_nexts-JumpFits idx range insns none h = tt
branch_nexts-JumpFits idx range insns (some offset) h =
    let (t, c, e) =
      >>=-eq-ok (checked_target branch_crosses idx range (target_of idx offset) insns) _ h in
    checked_target-JumpFits branch_crosses idx range insns offset c

nexts_of-Fits :
    (idx : ℕ) (range : ℕ × ℕ) (insns : List BpfInsn) (subprogs : List ℕ) (insn : BpfInsn)
    {nexts : List ℕ}
    → nexts_of idx range insns subprogs insn ≡ ok nexts
    → JumpFits insns range idx (target_offset insn) × CallFits subprogs idx (call_offset insn)
unfolding nexts_of target_offset call_offset CallFits JumpFits
nexts_of-Fits idx range insns subprogs exit h = (tt, tt)
nexts_of-Fits idx range insns subprogs (jmp offset) h =
    let (t, c, e) =
      >>=-eq-ok (checked_target jump_crosses idx range (target_of idx offset) insns) _ h in
    (checked_target-JumpFits jump_crosses idx range insns offset c, tt)
nexts_of-Fits idx range insns subprogs (call_sub offset) h =
    elim (Bool-cases (listed subprogs (target_of idx offset))) [
      | inl t ↦ (tt, t)
      | inr t ↦ absurd (cc (rw (nexts_of, t) at h))
    ]
nexts_of-Fits idx range insns subprogs insn h =
    (branch_nexts-JumpFits idx range insns (branch_offset insn) h, tt)

stays_inside-kept :
    (idx : ℕ) (range : ℕ × ℕ) (found nexts : List ℕ)
    → stays_inside idx range found ≡ ok nexts
    → (listed nexts (idx + 1) && leb range.1 (idx + 1)) ≡ false
unfolding stays_inside
stays_inside-kept idx range found nexts h =
    let (inside, same) = if-err-eq-ok (listed found (idx + 1) && leb range.1 (idx + 1)) _ _ h in
    let e : found ≡ nexts = cc same in rw e at inside

pub visit_insn-HasTargets :
    (idx : ℕ) (insns : List BpfInsn) (subprogs nexts : List ℕ)
    → visit_insn idx insns subprogs ≡ ok nexts
    → HasTargets insns subprogs idx nexts
unfolding visit_insn
visit_insn-HasTargets idx insns subprogs nexts h =
    let range = find_subprog_range idx subprogs (length insns) in
    elim (Option-cases (get_elem? insns idx)) [
      | inl e ↦ absurd (cc (rw (visit_insn, e) at h))
      | inr (insn, e) ↦
          let (found, f, inside) =
            >>=-eq-ok (nexts_of idx range insns subprogs insn) (stays_inside idx range)
              (rw (visit_insn, e) at h) in
          let (j, c) = nexts_of-Fits idx range insns subprogs insn f in
          record {
            insn = insn;
            fetched = e;
            jump_fits = j;
            call_fits = c;
            falls_inside = stays_inside-kept idx range found nexts inside;
          }
    ]
