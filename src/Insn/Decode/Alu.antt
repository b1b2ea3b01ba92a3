-- ===== src/Insn/Decode/Alu.antt =====
-- src/insn.rs: the ALU arm of `parse_insn`.
use rand_verifier.Prelude.{
  ℕ, Bool, ◌&&◌, ◌||◌, ◌==◌, if◌then◌else◌, List, [], ◌∷◌, Option, some, none, err,
}
use rand_verifier.Insn.{
  BpfInsn, MulHigh, add32_imm, add32_reg, add_imm, add_reg, and32_imm, and32_reg, and_imm, and_reg,
  arsh32_imm, arsh32_reg, arsh_imm, arsh_reg, div32_imm, div32_reg, div_imm, div_reg, from_off, low,
  lsh32_imm, lsh32_reg, lsh_imm, lsh_reg, mod32_imm, mod32_reg, mod_imm, mod_reg, mov32_imm,
  mov32_reg, mov_imm, mov_reg, mul32_imm, mul32_reg, mul_imm, mul_reg, neg, neg32, or32_imm,
  or32_reg, or_imm, or_reg, rsh32_imm, rsh32_reg, rsh_imm, rsh_reg, sub32_imm, sub32_reg, sub_imm,
  sub_reg, xor32_imm, xor32_reg, xor_imm, xor_reg,
}
use rand_verifier.Insn.Opcode
use rand_verifier.Insn.Fields.{Fields}
use rand_verifier.Insn.Decode.{
  Reserved, Decoded, pick, among, or_panic, is_none, is_zero, operand_reserved, panicked,
  mov_fields, alu_fields, reserved_fields, division_by_zero,
}

abbrev pub supported_alu : List ℕ
supported_alu =
    Opcode.mov_imm ∷ Opcode.mov_reg ∷ Opcode.mov32_imm ∷ Opcode.mov32_reg ∷ Opcode.add_imm
    ∷ Opcode.add_reg ∷ Opcode.sub_imm ∷ Opcode.sub_reg ∷ Opcode.and_imm ∷ Opcode.and_reg
    ∷ Opcode.or_imm ∷ Opcode.or_reg ∷ Opcode.xor_imm ∷ Opcode.xor_reg ∷ Opcode.lsh_imm
    ∷ Opcode.lsh_reg ∷ Opcode.rsh_imm ∷ Opcode.rsh_reg ∷ Opcode.arsh_imm ∷ Opcode.arsh_reg
    ∷ Opcode.add32_imm ∷ Opcode.add32_reg ∷ Opcode.sub32_imm ∷ Opcode.sub32_reg ∷ Opcode.and32_imm
    ∷ Opcode.and32_reg ∷ Opcode.or32_imm ∷ Opcode.or32_reg ∷ Opcode.xor32_imm ∷ Opcode.xor32_reg
    ∷ Opcode.lsh32_imm ∷ Opcode.lsh32_reg ∷ Opcode.rsh32_imm ∷ Opcode.rsh32_reg ∷ Opcode.arsh32_imm
    ∷ Opcode.arsh32_reg ∷ Opcode.mul_imm ∷ Opcode.mul_reg ∷ Opcode.div_imm ∷ Opcode.div_reg
    ∷ Opcode.mod_imm ∷ Opcode.mod_reg ∷ Opcode.neg ∷ Opcode.mul32_imm ∷ Opcode.mul32_reg
    ∷ Opcode.div32_imm ∷ Opcode.div32_reg ∷ Opcode.mod32_imm ∷ Opcode.mod32_reg ∷ Opcode.neg32 ∷ []

unfoldable pub is_supported_alu : ℕ → Bool
is_supported_alu op = among op supported_alu

-- The last match of the ALU arm.
abbrev pub alu_insns : Fields → MulHigh → List (ℕ × BpfInsn)
alu_insns f high =
    (Opcode.mov_imm, mov_imm f.dst f.imm)
    ∷ (Opcode.mov_reg, mov_reg f.dst f.src)
    ∷ (Opcode.mov32_imm, mov32_imm f.dst f.imm)
    ∷ (Opcode.mov32_reg, mov32_reg f.dst f.src)
    ∷ (Opcode.add_imm, add_imm f.dst f.imm)
    ∷ (Opcode.add_reg, add_reg f.dst f.src)
    ∷ (Opcode.sub_imm, sub_imm f.dst f.imm)
    ∷ (Opcode.sub_reg, sub_reg f.dst f.src)
    ∷ (Opcode.and_imm, and_imm f.dst f.imm)
    ∷ (Opcode.and_reg, and_reg f.dst f.src)
    ∷ (Opcode.or_imm, or_imm f.dst f.imm)
    ∷ (Opcode.or_reg, or_reg f.dst f.src)
    ∷ (Opcode.xor_imm, xor_imm f.dst f.imm)
    ∷ (Opcode.xor_reg, xor_reg f.dst f.src)
    ∷ (Opcode.lsh_imm, lsh_imm f.dst f.imm)
    ∷ (Opcode.lsh_reg, lsh_reg f.dst f.src)
    ∷ (Opcode.rsh_imm, rsh_imm f.dst f.imm)
    ∷ (Opcode.rsh_reg, rsh_reg f.dst f.src)
    ∷ (Opcode.arsh_imm, arsh_imm f.dst f.imm)
    ∷ (Opcode.arsh_reg, arsh_reg f.dst f.src)
    ∷ (Opcode.add32_imm, add32_imm f.dst f.imm)
    ∷ (Opcode.add32_reg, add32_reg f.dst f.src)
    ∷ (Opcode.sub32_imm, sub32_imm f.dst f.imm)
    ∷ (Opcode.sub32_reg, sub32_reg f.dst f.src)
    ∷ (Opcode.and32_imm, and32_imm f.dst f.imm)
    ∷ (Opcode.and32_reg, and32_reg f.dst f.src)
    ∷ (Opcode.or32_imm, or32_imm f.dst f.imm)
    ∷ (Opcode.or32_reg, or32_reg f.dst f.src)
    ∷ (Opcode.xor32_imm, xor32_imm f.dst f.imm)
    ∷ (Opcode.xor32_reg, xor32_reg f.dst f.src)
    ∷ (Opcode.lsh32_imm, lsh32_imm f.dst f.imm)
    ∷ (Opcode.lsh32_reg, lsh32_reg f.dst f.src)
    ∷ (Opcode.rsh32_imm, rsh32_imm f.dst f.imm)
    ∷ (Opcode.rsh32_reg, rsh32_reg f.dst f.src)
    ∷ (Opcode.arsh32_imm, arsh32_imm f.dst f.imm)
    ∷ (Opcode.arsh32_reg, arsh32_reg f.dst f.src)
    ∷ (Opcode.mul_imm, mul_imm f.dst f.imm high)
    ∷ (Opcode.mul_reg, mul_reg f.dst f.src high)
    ∷ (Opcode.div_imm, div_imm f.dst f.imm)
    ∷ (Opcode.div_reg, div_reg f.dst f.src)
    ∷ (Opcode.mod_imm, mod_imm f.dst f.imm)
    ∷ (Opcode.mod_reg, mod_reg f.dst f.src)
    ∷ (Opcode.neg, neg f.dst)
    ∷ (Opcode.mul32_imm, mul32_imm f.dst f.imm)
    ∷ (Opcode.mul32_reg, mul32_reg f.dst f.src)
    ∷ (Opcode.div32_imm, div32_imm f.dst f.imm)
    ∷ (Opcode.div32_reg, div32_reg f.dst f.src)
    ∷ (Opcode.mod32_imm, mod32_imm f.dst f.imm)
    ∷ (Opcode.mod32_reg, mod32_reg f.dst f.src)
    ∷ (Opcode.neg32, neg32 f.dst)
    ∷ []

-- The multiplication selector, which other operations reserve.
unfoldable pub mul_high : Fields → Option MulHigh
unfolding from_off
mul_high f =
    if f.op == Opcode.mul_imm || f.op == Opcode.mul_reg
    then from_off f.offset
    else if is_zero f.offset
    then some low
    else none

unfoldable pub divides_by_zero : Fields → Bool
divides_by_zero f =
    among f.op (Opcode.div_imm ∷ Opcode.mod_imm ∷ Opcode.div32_imm ∷ Opcode.mod32_imm ∷ [])
    && is_zero f.imm

unfoldable pub alu_message : ℕ → Reserved
alu_message op = if op == Opcode.mov_imm || op == Opcode.mov_reg then mov_fields else alu_fields

unfoldable pub decode_alu : Fields → Decoded
unfolding mul_high divides_by_zero alu_message
decode_alu f =
    let high = mul_high f in
    if operand_reserved f || is_none high
    then err (reserved_fields (alu_message f.op))
    else if divides_by_zero f
    then err division_by_zero
    else elim high [ none ↦ err panicked | some high ↦ or_panic (pick f.op (alu_insns f high)) ]
