-- ===== src/Cfg.antt =====
-- src/cfg.rs: the control-flow checks. The failure's text is a constructor, and an index out of range, a
-- panic in the source, is the failure `out_of_range`.
pub mod Visit
pub mod Search
pub mod Stack
pub mod Range
pub mod Entries
use rand_verifier.Prelude.{
  ℕ, suc, ◌+◌, Bool, true, false, ◌||◌, ◌==◌, ltb, leb, if◌then◌else◌, List, [], ◌∷◌, ◌++◌, Option,
  some, none, Result, ok, err, ◌>>=◌, length,
}
use rand_verifier.Prelude.Int.{ℤ}
use rand_verifier.Insn.{BpfInsn}
use rand_verifier.Insn.Control.{call_offset, target_of}

pub data Reason : Type 0 where
  call_out_of_program jump_crosses branch_crosses not_an_entry falls_through : Reason
  middle_of_ldimm64 empty_program no_exit_at_end unreachable : Reason
  recursive_call too_many_frames stack_too_large : Reason
  out_of_range : Reason

pub record VerificationFailure : Type 0 where
  pub insn_idx : ℕ
  pub reason : Reason

abbrev pub Checked : Type 0 → Type 0
Checked A = Result VerificationFailure A

abbrev pub fail : {A : Type 0} → ℕ → Reason → Checked A
fail pc reason = err (record { insn_idx = pc; reason = reason })

abbrev pub listed : List ℕ → ℕ → Bool
listed [] x = false
listed (y ∷ ys) x = (y == x) || listed ys x

-- `sort_unstable`, on numbers.
abbrev pub insert_sorted : ℕ → List ℕ → List ℕ
insert_sorted x [] = x ∷ []
insert_sorted x (y ∷ ys) = if leb x y then x ∷ y ∷ ys else y ∷ insert_sorted x ys

abbrev pub sort : List ℕ → List ℕ
sort [] = []
sort (x ∷ xs) = insert_sorted x (sort xs)

-- The entry of the call at `pc`, once.
unfoldable pub add_entry : ℕ → ℕ → Option ℤ → List ℕ → Checked (List ℕ)
add_entry pc cnt none starts = ok starts
add_entry pc cnt (some offset) starts =
    let target = target_of pc offset in
    if leb cnt target
    then fail pc call_out_of_program
    else ok (if listed starts target then starts else starts ++ (target ∷ []))

unfoldable pub add_entries : ℕ → ℕ → List BpfInsn → List ℕ → Checked (List ℕ)
unfolding add_entry call_offset
add_entries pc cnt [] starts = ok starts
add_entries pc cnt (insn ∷ insns) starts =
    add_entry pc cnt (call_offset insn) starts >>= (λ more. add_entries (suc pc) cnt insns more)

unfoldable pub add_subprog : List BpfInsn → Checked (List ℕ)
unfolding add_entries
add_subprog insns = add_entries 0 (length insns) insns (0 ∷ []) >>= (λ starts. ok (sort starts))

-- `rfind(|s| s <= idx)` and `find(|s| s > idx)`, with what stands for a missing one.
abbrev pub last_le : ℕ → List ℕ → ℕ → ℕ
last_le idx [] d = d
last_le idx (s ∷ ss) d = last_le idx ss (if leb s idx then s else d)

abbrev pub first_gt : ℕ → List ℕ → ℕ → ℕ
first_gt idx [] d = d
first_gt idx (s ∷ ss) d = if ltb idx s then s else first_gt idx ss d

unfoldable pub find_subprog_range : ℕ → List ℕ → ℕ → ℕ × ℕ
find_subprog_range insn_idx subprogs insn_cnt =
    (last_le insn_idx subprogs 0, first_gt insn_idx subprogs insn_cnt)
