-- ===== src/Insn/Decode/Jump.antt =====
-- src/insn.rs: the compares, jumps and calls of `parse_insn`.
use rand_verifier.Prelude.{
  ℕ, Bool, not, ◌||◌, ◌==◌, if◌then◌else◌, List, [], ◌∷◌, some, none, ok, err, bit_and,
}
use rand_verifier.Insn.{
  BpfInsn, Jmp32Op, call, call_kfunc, call_sub, eq32, exit, ge32, gt32, jeq, jeq_imm, jge, jge_imm,
  jgt, jgt_imm, jle, jle_imm, jlt, jlt_imm, jmp, jmp32, jne, jne_imm, jset, jset_imm, jsge,
  jsge_imm, jsgt, jsgt_imm, jsle, jsle_imm, jslt, jslt_imm, le32, lt32, ne32, sge32, sgt32, sle32,
  slt32,
}
use rand_verifier.Insn.Opcode
use rand_verifier.Insn.Fields.{Fields}
use rand_verifier.Insn.Decode.{
  Decoded, pick, or_panic, is_zero, is_x, operand_reserved, jmp_fields, jmp32_fields, ja_fields,
  call_fields, exit_fields, reserved_fields, panicked,
}

abbrev pub compares : List ℕ
compares =
    Opcode.jeq ∷ Opcode.jne ∷ Opcode.jgt ∷ Opcode.jge ∷ Opcode.jlt ∷ Opcode.jle ∷ Opcode.jsgt
    ∷ Opcode.jsge ∷ Opcode.jslt ∷ Opcode.jsle ∷ Opcode.jeq_imm ∷ Opcode.jne_imm ∷ Opcode.jgt_imm
    ∷ Opcode.jge_imm ∷ Opcode.jlt_imm ∷ Opcode.jle_imm ∷ Opcode.jsgt_imm ∷ Opcode.jsge_imm
    ∷ Opcode.jslt_imm ∷ Opcode.jsle_imm ∷ []

abbrev pub compare_insns : Fields → List (ℕ × BpfInsn)
compare_insns f =
    (Opcode.jeq, jeq f.dst f.src f.offset)
    ∷ (Opcode.jne, jne f.dst f.src f.offset)
    ∷ (Opcode.jgt, jgt f.dst f.src f.offset)
    ∷ (Opcode.jge, jge f.dst f.src f.offset)
    ∷ (Opcode.jlt, jlt f.dst f.src f.offset)
    ∷ (Opcode.jle, jle f.dst f.src f.offset)
    ∷ (Opcode.jsgt, jsgt f.dst f.src f.offset)
    ∷ (Opcode.jsge, jsge f.dst f.src f.offset)
    ∷ (Opcode.jslt, jslt f.dst f.src f.offset)
    ∷ (Opcode.jsle, jsle f.dst f.src f.offset)
    ∷ (Opcode.jeq_imm, jeq_imm f.dst f.imm f.offset)
    ∷ (Opcode.jne_imm, jne_imm f.dst f.imm f.offset)
    ∷ (Opcode.jgt_imm, jgt_imm f.dst f.imm f.offset)
    ∷ (Opcode.jge_imm, jge_imm f.dst f.imm f.offset)
    ∷ (Opcode.jlt_imm, jlt_imm f.dst f.imm f.offset)
    ∷ (Opcode.jle_imm, jle_imm f.dst f.imm f.offset)
    ∷ (Opcode.jsgt_imm, jsgt_imm f.dst f.imm f.offset)
    ∷ (Opcode.jsge_imm, jsge_imm f.dst f.imm f.offset)
    ∷ (Opcode.jslt_imm, jslt_imm f.dst f.imm f.offset)
    ∷ (Opcode.jsle_imm, jsle_imm f.dst f.imm f.offset)
    ∷ []

unfoldable pub decode_compare : Fields → Decoded
decode_compare f =
    if operand_reserved f
    then err (reserved_fields jmp_fields)
    else or_panic (pick f.op (compare_insns f))

unfoldable pub decode_jset : Fields → Decoded
decode_jset f =
    if operand_reserved f
    then err (reserved_fields jmp_fields)
    else ok (if is_x f.op then jset f.dst f.src f.offset else jset_imm f.dst f.imm f.offset)

abbrev pub compares32 : List ℕ
compares32 =
    Opcode.jmp32_jeq ∷ Opcode.jmp32_jne ∷ Opcode.jmp32_jgt ∷ Opcode.jmp32_jge ∷ Opcode.jmp32_jlt
    ∷ Opcode.jmp32_jle ∷ Opcode.jmp32_jsgt ∷ Opcode.jmp32_jsge ∷ Opcode.jmp32_jslt
    ∷ Opcode.jmp32_jsle ∷ Opcode.jmp32_jeq_imm ∷ Opcode.jmp32_jne_imm ∷ Opcode.jmp32_jgt_imm
    ∷ Opcode.jmp32_jge_imm ∷ Opcode.jmp32_jlt_imm ∷ Opcode.jmp32_jle_imm ∷ Opcode.jmp32_jsgt_imm
    ∷ Opcode.jmp32_jsge_imm ∷ Opcode.jmp32_jslt_imm ∷ Opcode.jmp32_jsle_imm ∷ []

abbrev pub jmp32_ops : List (ℕ × Jmp32Op)
jmp32_ops =
    (0x10, eq32)
    ∷ (0x20, gt32)
    ∷ (0x30, ge32)
    ∷ (0x50, ne32)
    ∷ (0x60, sgt32)
    ∷ (0x70, sge32)
    ∷ (0xa0, lt32)
    ∷ (0xb0, le32)
    ∷ (0xc0, slt32)
    ∷ (0xd0, sle32)
    ∷ []

unfoldable pub decode_jmp32 : Fields → Decoded
decode_jmp32 f =
    if operand_reserved f
    then err (reserved_fields jmp32_fields)
    else elim (pick (bit_and f.op 0xf0) jmp32_ops) [
      | none ↦ err panicked
      | some jop ↦
          let src = if is_x f.op then some f.src else none in
          let imm = if is_x f.op then none else some f.imm in ok (jmp32 f.dst src imm f.offset jop)
    ]

-- The source register, the target register or the immediate is used.
abbrev uses_any : Fields → Bool
uses_any f = not (f.src == 0) || not (f.dst == 0) || not (is_zero f.imm)

unfoldable pub decode_jmp : Fields → Decoded
decode_jmp f = if uses_any f then err (reserved_fields ja_fields) else ok (jmp f.offset)

unfoldable pub decode_call : Fields → Decoded
decode_call f =
    if not (f.dst == 0) || not (is_zero f.offset)
    then err (reserved_fields call_fields)
    else if f.src == 0
    then ok (call f.imm)
    else if f.src == 1
    then ok (call_sub f.imm)
    else if f.src == 2
    then ok (call_kfunc f.imm)
    else err (reserved_fields call_fields)

unfoldable pub decode_exit : Fields → Decoded
decode_exit f = if uses_any f then err (reserved_fields exit_fields) else ok exit
