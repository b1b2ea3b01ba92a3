-- ===== src/Reduce/Fixup.antt =====
-- src/fuzz/reduce/fixup.rs: `delete_insns`, a deletion that moves the targets of branches.
use rand_verifier.Prelude.{
  ◌&&◌, ℕ, zero, suc, ◌+◌, ◌/◌, ◌%◌, ◌==◌, ◌||◌, not, leb, if◌then◌else◌, Bool, false, List, [],
  ◌∷◌, ◌++◌, Option, some, none, ok, err, length, get_elem?,
}
use rand_verifier.Prelude.Int.{ℤ, pos, negsuc, ◌+ℤ◌, ◌-ℤ◌, leb_ℤ}
use rand_verifier.Insn.{
  BpfInsn, jmp, jeq, jne, jgt, jge, jlt, jle, jsgt, jsge, jslt, jsle, jeq_imm, jne_imm, jgt_imm,
  jge_imm, jlt_imm, jle_imm, jsgt_imm, jsge_imm, jslt_imm, jsle_imm,
}
use rand_verifier.Insn.Fields.{to_bits}
use rand_verifier.Insn.Program.{decode_program}
use rand_verifier.Insn.Encode.{encode}
use rand_verifier.Cfg.{listed}

-- `panics` is the panic of `encode`.
pub data Deletion : Type 0 where
  deleted : List ℕ → Deletion
  rejected : Deletion
  panics : Deletion

unfoldable pub rebased_offset : BpfInsn → Option ℤ
rebased_offset (jmp offset) = some offset
rebased_offset (jeq dst src offset) = some offset
rebased_offset (jne dst src offset) = some offset
rebased_offset (jgt dst src offset) = some offset
rebased_offset (jge dst src offset) = some offset
rebased_offset (jlt dst src offset) = some offset
rebased_offset (jle dst src offset) = some offset
rebased_offset (jsgt dst src offset) = some offset
rebased_offset (jsge dst src offset) = some offset
rebased_offset (jslt dst src offset) = some offset
rebased_offset (jsle dst src offset) = some offset
rebased_offset (jeq_imm dst imm offset) = some offset
rebased_offset (jne_imm dst imm offset) = some offset
rebased_offset (jgt_imm dst imm offset) = some offset
rebased_offset (jge_imm dst imm offset) = some offset
rebased_offset (jlt_imm dst imm offset) = some offset
rebased_offset (jle_imm dst imm offset) = some offset
rebased_offset (jsgt_imm dst imm offset) = some offset
rebased_offset (jsge_imm dst imm offset) = some offset
rebased_offset (jslt_imm dst imm offset) = some offset
rebased_offset (jsle_imm dst imm offset) = some offset
rebased_offset _ = none

-- The new index of each of the `n` instructions from `old` on, `none` where it is removed.
unfoldable pub new_indices : ℕ → ℕ → ℕ → List ℕ → List (Option ℕ)
new_indices zero old next removed = []
new_indices (suc n) old next removed =
    let gone = new_indices n (suc old) next removed in
    let kept = new_indices n (suc old) (suc next) removed in
    if listed removed old then none ∷ gone else some next ∷ kept

abbrev pub index_at : List (Option ℕ) → ℕ → Option ℕ
index_at indices i = elim (get_elem? indices i) [ none ↦ none | some index ↦ index ]

-- The offset between the new places, where it fits 16 bits.
unfoldable pub new_offset : List (Option ℕ) → ℕ → ℕ → ℕ → ℤ → Option ℤ
unfolding ◌+ℤ◌ ◌-ℤ◌
new_offset indices len old new_idx offset = elim (pos (old + 1) +ℤ offset) [
  | negsuc n ↦ none
  | pos target ↦ if leb len target then none else elim (index_at indices target) [
    | none ↦ none
    | some new_target ↦
        let new_off = pos new_target -ℤ pos (new_idx + 1) in
        if leb_ℤ (negsuc 32767) new_off && leb_ℤ new_off (pos 32767) then some new_off else none
  ]
]

-- `chunk[2..4]` overwritten.
abbrev pub patched : List ℕ → ℤ → List ℕ
patched (op ∷ regs ∷ lo ∷ hi ∷ rest) offset =
    op ∷ regs ∷ (to_bits 16 offset % 256) ∷ (to_bits 16 offset / 256) ∷ rest
patched chunk offset = chunk

-- The bytes of a surviving instruction.
unfoldable pub moved : List (Option ℕ) → ℕ → ℕ → ℕ → BpfInsn → Deletion
unfolding rebased_offset new_offset encode
moved indices len old new_idx insn = elim (encode insn) [
  | none ↦ panics
  | some chunk ↦ elim (rebased_offset insn) [
    | none ↦ deleted chunk
    | some offset ↦ elim (new_offset indices len old new_idx offset) [
      | none ↦ rejected
      | some new_off ↦ deleted (patched chunk new_off)
    ]
  ]
]

-- One chunk before the later ones.
abbrev pub before : Deletion → Deletion → Deletion
before (deleted chunk) (deleted rest) = deleted (chunk ++ rest)
before (deleted chunk) other = other
before other later = other

unfoldable pub surviving : List (Option ℕ) → ℕ → ℕ → List BpfInsn → Deletion
unfolding moved
surviving indices len old [] = deleted []
surviving indices len old (insn ∷ insns) =
    let later = surviving indices len (suc old) insns in
    elim (index_at indices old) [
      | none ↦ later
      | some new_idx ↦ before (moved indices len old new_idx insn) later
    ]

abbrev pub any_above : ℕ → List ℕ → Bool
any_above len [] = false
any_above len (i ∷ is) = leb len i || any_above len is

unfoldable pub delete_insns : List ℕ → List ℕ → Deletion
unfolding decode_program new_indices surviving
delete_insns bytes remove =
    let len = length bytes / 8 in
    if not (length bytes % 8 == 0) || length bytes == 0
    then rejected
    else elim (decode_program bytes) [
      | err why ↦ rejected
      | ok insns ↦
          if any_above len remove
          then rejected
          else surviving (new_indices len 0 0 remove) len 0 insns
    ]
