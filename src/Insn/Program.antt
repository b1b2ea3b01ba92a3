-- ===== src/Insn/Program.antt =====
-- src/insn.rs: `parse_ldimm64` and `decode_program`, the decoder of a program of 8-byte slots.
pub mod Slots
use rand_verifier.Prelude.{
  ℕ, Bool, true, ◌+◌, ◌*◌, ◌/◌, ◌^◌, not, ◌||◌, ◌==◌, ltb, if◌then◌else◌, List, [], ◌∷◌, Result, ok,
  err, ◌>>=◌, length, bit_and,
}
use rand_verifier.Insn.{BpfInsn, ld_imm64, ld_map_fd, ld_map_value, ld_imm64_second}
use rand_verifier.Insn.Opcode
use rand_verifier.Insn.Fields.{of_bits}
use rand_verifier.Insn.Read.{indexed, le_u16, le_u32}
use rand_verifier.Insn.Decode.{
  Decoded, DecodeError, is_zero, invalid_instruction_length, invalid_register, reserved_fields,
  unsupported, ld_imm64_truncated, ld_fields, second_part, map_fd_second_slot, pseudo_class,
}
use rand_verifier.Insn.Parse.{parse_insn}

-- The meaning that the source register selects.
unfoldable pub pseudo_load : (dst src imm_lo imm_hi : ℕ) → Decoded
pseudo_load dst src imm_lo imm_hi =
    if src == 0
    then ok (ld_imm64 dst (imm_hi * 2 ^ 32 + imm_lo))
    else if src == Opcode.pseudo_map_fd
    then if not (imm_hi == 0)
      then err (reserved_fields map_fd_second_slot)
      else ok (ld_map_fd dst imm_lo 0 0 0)
    else if src == Opcode.pseudo_map_value
    then ok (ld_map_value dst imm_lo imm_hi 0 0)
    else err (unsupported 0x18 pseudo_class)

-- The code, the registers and the offset of the second slot: what is behind the first that is not 0 is
-- not read.
unfoldable pub second_reserved : List ℕ → Result DecodeError Bool
second_reserved second = indexed second 0 >>= λ code.
    (if not (code == 0)
      then ok true
      else indexed second 1 >>= λ regs.
          (if not (regs == 0)
            then ok true
            else le_u16 second 2 >>= λ offset. ok (not (is_zero (of_bits 16 offset)))))

unfoldable pub parse_ldimm64 : List ℕ → List ℕ → Decoded
unfolding pseudo_load second_reserved
parse_ldimm64 first second =
    if not (length first == 8)
    then err (invalid_instruction_length (length first))
    else if not (length second == 8)
    then err (invalid_instruction_length (length second))
    else do
      regs ← indexed first 1
      let dst = bit_and regs 0x0F
      let src = bit_and (regs / 2 ^ 4) 0x0F
      offset ← le_u16 first 2
      imm_lo ← le_u32 first 4
      imm_hi ← le_u32 second 4
      if ltb 10 dst
          then err (invalid_register dst)
          else if not (is_zero (of_bits 16 offset))
          then err (reserved_fields ld_fields)
          else (second_reserved second >>= λ reserved.
              if reserved
              then err (reserved_fields second_part)
              else pseudo_load dst src imm_lo imm_hi)

-- `as_chunks`: the whole slots, and the bytes that are left.
abbrev pub Chunks : Type 0
Chunks = List (List ℕ) × List ℕ

unfoldable pub as_chunks : List ℕ → Chunks
as_chunks (a ∷ b ∷ c ∷ d ∷ e ∷ f ∷ g ∷ h ∷ rest) =
    let later = as_chunks rest in ((a ∷ b ∷ c ∷ d ∷ e ∷ f ∷ g ∷ h ∷ []) ∷ later.0, later.1)
as_chunks rest = ([], rest)

abbrev pub Slots : Type 0 → Type 0
Slots A = Result (ℕ × DecodeError) A

-- `map_err`: the slot of an error. An index that panics has the slot at hand.
abbrev pub at_slot : {A : Type 0} → ℕ → Result DecodeError A → Slots A
at_slot idx (ok a) = ok a
at_slot idx (err why) = err (idx, why)

-- An instruction before those behind it, without and with the marker of its second slot.
abbrev pub with_insn : BpfInsn → Slots (List BpfInsn × ℕ) → Slots (List BpfInsn × ℕ)
with_insn insn later = later >>= (λ r. ok (insn ∷ r.0, r.1))

abbrev pub with_second : BpfInsn → ℕ → Slots (List BpfInsn × ℕ) → Slots (List BpfInsn × ℕ)
with_second insn imm_hi later = with_insn insn (with_insn (ld_imm64_second imm_hi) later)

-- The loop over the slots: the instructions, and the index behind the last slot.
unfoldable pub decode_slots : ℕ → List (List ℕ) → Slots (List BpfInsn × ℕ)
decode_slots idx [] = ok ([], idx)
decode_slots idx (chunk ∷ []) = at_slot idx (indexed chunk 0) >>= λ op.
    if op == Opcode.ld_imm64
    then err (idx, ld_imm64_truncated)
    else at_slot idx (parse_insn chunk) >>= λ insn. ok (insn ∷ [], idx + 1)
decode_slots idx (chunk ∷ second ∷ rest) =
    let later = decode_slots (idx + 2) rest in
    let next = decode_slots (idx + 1) (second ∷ rest) in
    at_slot idx (indexed chunk 0) >>= λ op.
    if op == Opcode.ld_imm64
    then (at_slot idx (parse_ldimm64 chunk second) >>= λ insn.
        at_slot idx (le_u32 second 4) >>= λ imm_hi. with_second insn imm_hi later)
    else (at_slot idx (parse_insn chunk) >>= (λ insn. with_insn insn next))

-- What follows the loop.
abbrev pub without_remainder : List ℕ → List BpfInsn × ℕ → Slots (List BpfInsn)
without_remainder [] r = ok r.0
without_remainder (b ∷ bs) r = err (r.1, invalid_instruction_length (length (b ∷ bs)))

unfoldable pub decode_program : List ℕ → Slots (List BpfInsn)
unfolding as_chunks decode_slots
decode_program bytes =
    let chunks = as_chunks bytes in decode_slots 0 chunks.0 >>= without_remainder chunks.1
