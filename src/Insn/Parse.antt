-- ===== src/Insn/Parse.antt =====
-- src/insn.rs: `parse_insn`, the decoder of one instruction, with its checks in the kernel's order.
use rand_verifier.Prelude.{
  ℕ, not, ◌||◌, ◌==◌, ltb, if◌then◌else◌, List, [], ◌∷◌, Option, some, none, err, ◌>>=◌, length,
  bit_and,
}
use rand_verifier.Insn.Opcode
use rand_verifier.Insn.Fields.{Fields}
use rand_verifier.Insn.Read.{read_fields}
use rand_verifier.Insn.Decode.{
  Missing, Decoded, pick, among, legacy_loads, store_immediate, jmp32_forms, only_stack_loads,
  only_stack_stores, byte_swap, mov_32, jset_forms, indirect_jump, unknown_opcode, unsupported,
  invalid_register, invalid_instruction_length, ld_imm64_truncated,
}
use rand_verifier.Insn.Decode.Alu.{is_supported_alu, decode_alu}
use rand_verifier.Insn.Decode.Jump.{
  compares, compares32, decode_compare, decode_jset, decode_jmp32, decode_jmp, decode_call,
  decode_exit,
}
use rand_verifier.Insn.Decode.Memory.{
  packet_loads, decode_packet_load, is_memory, decode_memory, decode_atomic,
}

unfoldable pub unsupported_reason : ℕ → Option Missing
unsupported_reason op =
    let class = bit_and op 0x07 in
    if class == 0
    then some legacy_loads
    else if class == 2
    then some store_immediate
    else if class == 6
    then some jmp32_forms
    else if class == 1
    then some only_stack_loads
    else if class == 3
    then some only_stack_stores
    else if class == 4 || class == 7
    then pick (bit_and op 0xf0) ((0xd0, byte_swap) ∷ (0xb0, mov_32) ∷ [])
    else pick op ((0x45, jset_forms) ∷ (0x4d, jset_forms) ∷ (0x0d, indirect_jump) ∷ [])

unfoldable pub decode_other : ℕ → Decoded
unfolding unsupported_reason
decode_other op = elim (unsupported_reason op) [
  | some reason ↦ err (unsupported op reason)
  | none ↦ err (unknown_opcode op)
]

-- The match on the opcode.
unfoldable pub decode_op : Fields → Decoded
unfolding is_supported_alu is_memory
decode_op f =
    if is_supported_alu f.op
    then decode_alu f
    else if among f.op compares
    then decode_compare f
    else if f.op == Opcode.jset || f.op == Opcode.jset_imm
    then decode_jset f
    else if among f.op compares32
    then decode_jmp32 f
    else if among f.op packet_loads
    then decode_packet_load f
    else if f.op == Opcode.jmp
    then decode_jmp f
    else if f.op == Opcode.call
    then decode_call f
    else if f.op == Opcode.exit
    then decode_exit f
    else if f.op == Opcode.ld_imm64
    then err ld_imm64_truncated
    else if is_memory f.op
    then decode_memory f
    else if f.op == Opcode.atomic_w || f.op == Opcode.atomic_dw
    then decode_atomic f
    else decode_other f.op

unfoldable pub decode_fields : Fields → Decoded
decode_fields f =
    if ltb 10 f.dst
    then err (invalid_register f.dst)
    else if ltb 10 f.src
    then err (invalid_register f.src)
    else decode_op f

unfoldable pub parse_insn : List ℕ → Decoded
unfolding decode_fields read_fields
parse_insn bytes =
    if not (length bytes == 8)
    then err (invalid_instruction_length (length bytes))
    else (read_fields bytes >>= decode_fields)
