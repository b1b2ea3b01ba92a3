-- ===== src/Insn/Encode.antt =====
-- src/fuzz/insn_lib.rs: `encode`, the bytes of an instruction. `none` is the panic of an
-- `unreachable!` arm.
use rand_verifier.Prelude.{ℕ, ◌%◌, ◌^◌, Bool, true, false, List, Option, some, none, bit_or}
use rand_verifier.Prelude.Int.{ℤ, pos}
use rand_verifier.Insn.{
  AtomicOp, BpfInsn, Jmp32Op, MemSize, add32_imm, add32_reg, add_imm, add_reg, and32_imm, and32_reg,
  and_imm, and_reg, arsh32_imm, arsh32_reg, arsh_imm, arsh_reg, atomic, call, call_kfunc, call_sub,
  div32_imm, div32_reg, div_imm, div_reg, eq32, exit, ge32, gt32, jeq, jeq_imm, jge, jge_imm, jgt,
  jgt_imm, jle, jle_imm, jlt, jlt_imm, jmp, jmp32, jne, jne_imm, jset, jset_imm, jsge, jsge_imm,
  jsgt, jsgt_imm, jsle, jsle_imm, jslt, jslt_imm, ld_abs, ld_imm64, ld_imm64_second, ld_ind,
  ld_map_fd, ld_map_value, ld_mem, le32, lsh32_imm, lsh32_reg, lsh_imm, lsh_reg, lt32, mod32_imm,
  mod32_reg, mod_imm, mod_reg, mov32_imm, mov32_reg, mov_imm, mov_reg, mul32_imm, mul32_reg,
  mul_imm, mul_reg, ne32, neg, neg32, or32_imm, or32_reg, or_imm, or_reg, rsh32_imm, rsh32_reg,
  rsh_imm, rsh_reg, sge32, sgt32, size_b, size_dw, size_h, size_w, sle32, slt32, st_mem, st_mem_imm,
  sub32_imm, sub32_reg, sub_imm, sub_reg, to_off, xor32_imm, xor32_reg, xor_imm, xor_reg,
}
use rand_verifier.Insn.Opcode
use rand_verifier.Insn.Fields.{Fields, of_bits, write_fields}
use rand_verifier.Insn.Decode.Memory.{to_imm}

abbrev of_parts : ℕ → ℕ → ℕ → ℤ → ℤ → Option Fields
of_parts op dst src offset imm =
    some (record { op = op; dst = dst; src = src; offset = offset; imm = imm })

-- The opcodes of a 32-bit comparison, with a register and with an immediate.
unfoldable pub jmp32_codes : Jmp32Op → ℕ × ℕ
jmp32_codes eq32 = (Opcode.jmp32_jeq, Opcode.jmp32_jeq_imm)
jmp32_codes ne32 = (Opcode.jmp32_jne, Opcode.jmp32_jne_imm)
jmp32_codes gt32 = (Opcode.jmp32_jgt, Opcode.jmp32_jgt_imm)
jmp32_codes ge32 = (Opcode.jmp32_jge, Opcode.jmp32_jge_imm)
jmp32_codes lt32 = (Opcode.jmp32_jlt, Opcode.jmp32_jlt_imm)
jmp32_codes le32 = (Opcode.jmp32_jle, Opcode.jmp32_jle_imm)
jmp32_codes sgt32 = (Opcode.jmp32_jsgt, Opcode.jmp32_jsgt_imm)
jmp32_codes sge32 = (Opcode.jmp32_jsge, Opcode.jmp32_jsge_imm)
jmp32_codes slt32 = (Opcode.jmp32_jslt, Opcode.jmp32_jslt_imm)
jmp32_codes sle32 = (Opcode.jmp32_jsle, Opcode.jmp32_jsle_imm)

unfoldable pub encode_jmp32 : ℕ → Option ℕ → Option ℤ → ℤ → ℕ × ℕ → Option Fields
encode_jmp32 dst (some s) imm offset o = of_parts o.0 dst s offset (pos 0)
encode_jmp32 dst none (some i) offset o = of_parts o.1 dst 0 offset i
encode_jmp32 dst none none offset o = none

unfoldable pub atomic_code : MemSize → ℕ
atomic_code size_w = Opcode.atomic_w
atomic_code _ = Opcode.atomic_dw

-- `op.to_imm() | i32::from(fetch)`
unfoldable pub atomic_imm : AtomicOp → Bool → ℤ
unfolding to_imm
atomic_imm op true = pos (bit_or (to_imm op) 1)
atomic_imm op false = pos (bit_or (to_imm op) 0)

unfoldable pub ld_abs_code : MemSize → ℕ
ld_abs_code size_w = Opcode.ld_abs
ld_abs_code size_h = Opcode.ld_abs_h
ld_abs_code size_b = Opcode.ld_abs_b
ld_abs_code size_dw = Opcode.ld_abs_dw

unfoldable pub ld_ind_code : MemSize → ℕ
ld_ind_code size_w = Opcode.ld_ind
ld_ind_code size_h = Opcode.ld_ind_h
ld_ind_code size_b = Opcode.ld_ind_b
ld_ind_code size_dw = Opcode.ld_ind_dw

unfoldable pub ld_mem_code : MemSize → Bool → Option ℕ
ld_mem_code size_w false = some 0x61
ld_mem_code size_h false = some 0x69
ld_mem_code size_b false = some 0x71
ld_mem_code size_dw false = some 0x79
ld_mem_code size_w true = some 0x81
ld_mem_code size_h true = some 0x89
ld_mem_code size_b true = some 0x91
ld_mem_code size_dw true = none

unfoldable pub st_mem_code : MemSize → ℕ
st_mem_code size_w = 0x63
st_mem_code size_h = 0x6b
st_mem_code size_b = 0x73
st_mem_code size_dw = 0x7b

unfoldable pub st_mem_imm_code : MemSize → ℕ
st_mem_imm_code size_w = 0x62
st_mem_imm_code size_h = 0x6a
st_mem_imm_code size_b = 0x72
st_mem_imm_code size_dw = 0x7a

-- The parts that `encode` finds for an instruction.
unfoldable pub fields_of : BpfInsn → Option Fields
unfolding to_off jmp32_codes encode_jmp32 atomic_code atomic_imm ld_abs_code ld_ind_code ld_mem_code
    st_mem_code st_mem_imm_code
fields_of (mov_imm dst imm) = of_parts Opcode.mov_imm dst 0 (pos 0) imm
fields_of (mov_reg dst src) = of_parts Opcode.mov_reg dst src (pos 0) (pos 0)
fields_of (mov32_imm dst imm) = of_parts Opcode.mov32_imm dst 0 (pos 0) imm
fields_of (mov32_reg dst src) = of_parts Opcode.mov32_reg dst src (pos 0) (pos 0)
fields_of (jset dst src offset) = of_parts Opcode.jset dst src offset (pos 0)
fields_of (jset_imm dst imm offset) = of_parts Opcode.jset_imm dst 0 offset imm
fields_of (add_imm dst imm) = of_parts Opcode.add_imm dst 0 (pos 0) imm
fields_of (add_reg dst src) = of_parts Opcode.add_reg dst src (pos 0) (pos 0)
fields_of (sub_imm dst imm) = of_parts Opcode.sub_imm dst 0 (pos 0) imm
fields_of (sub_reg dst src) = of_parts Opcode.sub_reg dst src (pos 0) (pos 0)
fields_of (and_imm dst imm) = of_parts Opcode.and_imm dst 0 (pos 0) imm
fields_of (and_reg dst src) = of_parts Opcode.and_reg dst src (pos 0) (pos 0)
fields_of (or_imm dst imm) = of_parts Opcode.or_imm dst 0 (pos 0) imm
fields_of (or_reg dst src) = of_parts Opcode.or_reg dst src (pos 0) (pos 0)
fields_of (xor_imm dst imm) = of_parts Opcode.xor_imm dst 0 (pos 0) imm
fields_of (xor_reg dst src) = of_parts Opcode.xor_reg dst src (pos 0) (pos 0)
fields_of (lsh_imm dst imm) = of_parts Opcode.lsh_imm dst 0 (pos 0) imm
fields_of (lsh_reg dst src) = of_parts Opcode.lsh_reg dst src (pos 0) (pos 0)
fields_of (rsh_imm dst imm) = of_parts Opcode.rsh_imm dst 0 (pos 0) imm
fields_of (rsh_reg dst src) = of_parts Opcode.rsh_reg dst src (pos 0) (pos 0)
fields_of (arsh_imm dst imm) = of_parts Opcode.arsh_imm dst 0 (pos 0) imm
fields_of (arsh_reg dst src) = of_parts Opcode.arsh_reg dst src (pos 0) (pos 0)
fields_of (mul_imm dst imm high) = of_parts Opcode.mul_imm dst 0 (to_off high) imm
fields_of (mul_reg dst src high) = of_parts Opcode.mul_reg dst src (to_off high) (pos 0)
fields_of (div_imm dst imm) = of_parts Opcode.div_imm dst 0 (pos 0) imm
fields_of (div_reg dst src) = of_parts Opcode.div_reg dst src (pos 0) (pos 0)
fields_of (mod_imm dst imm) = of_parts Opcode.mod_imm dst 0 (pos 0) imm
fields_of (mod_reg dst src) = of_parts Opcode.mod_reg dst src (pos 0) (pos 0)
fields_of (neg dst) = of_parts Opcode.neg dst 0 (pos 0) (pos 0)
fields_of (add32_imm dst imm) = of_parts Opcode.add32_imm dst 0 (pos 0) imm
fields_of (add32_reg dst src) = of_parts Opcode.add32_reg dst src (pos 0) (pos 0)
fields_of (sub32_imm dst imm) = of_parts Opcode.sub32_imm dst 0 (pos 0) imm
fields_of (sub32_reg dst src) = of_parts Opcode.sub32_reg dst src (pos 0) (pos 0)
fields_of (and32_imm dst imm) = of_parts Opcode.and32_imm dst 0 (pos 0) imm
fields_of (and32_reg dst src) = of_parts Opcode.and32_reg dst src (pos 0) (pos 0)
fields_of (or32_imm dst imm) = of_parts Opcode.or32_imm dst 0 (pos 0) imm
fields_of (or32_reg dst src) = of_parts Opcode.or32_reg dst src (pos 0) (pos 0)
fields_of (xor32_imm dst imm) = of_parts Opcode.xor32_imm dst 0 (pos 0) imm
fields_of (xor32_reg dst src) = of_parts Opcode.xor32_reg dst src (pos 0) (pos 0)
fields_of (lsh32_imm dst imm) = of_parts Opcode.lsh32_imm dst 0 (pos 0) imm
fields_of (lsh32_reg dst src) = of_parts Opcode.lsh32_reg dst src (pos 0) (pos 0)
fields_of (rsh32_imm dst imm) = of_parts Opcode.rsh32_imm dst 0 (pos 0) imm
fields_of (rsh32_reg dst src) = of_parts Opcode.rsh32_reg dst src (pos 0) (pos 0)
fields_of (arsh32_imm dst imm) = of_parts Opcode.arsh32_imm dst 0 (pos 0) imm
fields_of (arsh32_reg dst src) = of_parts Opcode.arsh32_reg dst src (pos 0) (pos 0)
fields_of (mul32_imm dst imm) = of_parts Opcode.mul32_imm dst 0 (pos 0) imm
fields_of (mul32_reg dst src) = of_parts Opcode.mul32_reg dst src (pos 0) (pos 0)
fields_of (div32_imm dst imm) = of_parts Opcode.div32_imm dst 0 (pos 0) imm
fields_of (div32_reg dst src) = of_parts Opcode.div32_reg dst src (pos 0) (pos 0)
fields_of (mod32_imm dst imm) = of_parts Opcode.mod32_imm dst 0 (pos 0) imm
fields_of (mod32_reg dst src) = of_parts Opcode.mod32_reg dst src (pos 0) (pos 0)
fields_of (neg32 dst) = of_parts Opcode.neg32 dst 0 (pos 0) (pos 0)
fields_of (jeq dst src offset) = of_parts Opcode.jeq dst src offset (pos 0)
fields_of (jne dst src offset) = of_parts Opcode.jne dst src offset (pos 0)
fields_of (jgt dst src offset) = of_parts Opcode.jgt dst src offset (pos 0)
fields_of (jge dst src offset) = of_parts Opcode.jge dst src offset (pos 0)
fields_of (jlt dst src offset) = of_parts Opcode.jlt dst src offset (pos 0)
fields_of (jle dst src offset) = of_parts Opcode.jle dst src offset (pos 0)
fields_of (jsgt dst src offset) = of_parts Opcode.jsgt dst src offset (pos 0)
fields_of (jsge dst src offset) = of_parts Opcode.jsge dst src offset (pos 0)
fields_of (jslt dst src offset) = of_parts Opcode.jslt dst src offset (pos 0)
fields_of (jsle dst src offset) = of_parts Opcode.jsle dst src offset (pos 0)
fields_of (jeq_imm dst imm offset) = of_parts Opcode.jeq_imm dst 0 offset imm
fields_of (jne_imm dst imm offset) = of_parts Opcode.jne_imm dst 0 offset imm
fields_of (jgt_imm dst imm offset) = of_parts Opcode.jgt_imm dst 0 offset imm
fields_of (jge_imm dst imm offset) = of_parts Opcode.jge_imm dst 0 offset imm
fields_of (jlt_imm dst imm offset) = of_parts Opcode.jlt_imm dst 0 offset imm
fields_of (jle_imm dst imm offset) = of_parts Opcode.jle_imm dst 0 offset imm
fields_of (jsgt_imm dst imm offset) = of_parts Opcode.jsgt_imm dst 0 offset imm
fields_of (jsge_imm dst imm offset) = of_parts Opcode.jsge_imm dst 0 offset imm
fields_of (jslt_imm dst imm offset) = of_parts Opcode.jslt_imm dst 0 offset imm
fields_of (jsle_imm dst imm offset) = of_parts Opcode.jsle_imm dst 0 offset imm
fields_of (jmp offset) = of_parts Opcode.jmp 0 0 offset (pos 0)
fields_of (call imm) = of_parts Opcode.call 0 0 (pos 0) imm
fields_of (call_sub offset) = of_parts Opcode.call 0 1 (pos 0) offset
fields_of (call_kfunc btf_id) = of_parts Opcode.call 0 2 (pos 0) btf_id
fields_of exit = of_parts Opcode.exit 0 0 (pos 0) (pos 0)
fields_of (jmp32 dst src imm offset op) = encode_jmp32 dst src imm offset (jmp32_codes op)
fields_of (atomic dst src offset size op fetch) =
    of_parts (atomic_code size) dst src offset (atomic_imm op fetch)
fields_of (ld_abs size imm) = of_parts (ld_abs_code size) 0 0 (pos 0) imm
fields_of (ld_ind src size imm) = of_parts (ld_ind_code size) 0 src (pos 0) imm
fields_of (ld_mem dst base offset size sign_extend) = elim (ld_mem_code size sign_extend) [
  | none ↦ none
  | some code ↦ of_parts code dst base offset (pos 0)
]
fields_of (st_mem src base offset size) = of_parts (st_mem_code size) base src offset (pos 0)
fields_of (st_mem_imm imm base offset size) = of_parts (st_mem_imm_code size) base 0 offset imm
fields_of (ld_imm64 dst imm) = of_parts Opcode.ld_imm64 dst 0 (pos 0) (of_bits 32 (imm % 2 ^ 32))
fields_of (ld_map_fd dst fd key_size value_size map_type) =
    of_parts Opcode.ld_imm64 dst Opcode.pseudo_map_fd (pos 0) (of_bits 32 fd)
fields_of (ld_map_value dst fd offset key_size value_size) =
    of_parts Opcode.ld_imm64 dst Opcode.pseudo_map_value (pos 0) (of_bits 32 fd)
fields_of (ld_imm64_second imm_hi) = of_parts 0 0 0 (pos 0) (of_bits 32 imm_hi)

unfoldable pub encode : BpfInsn → Option (List ℕ)
unfolding fields_of write_fields
encode insn = elim (fields_of insn) [ none ↦ none | some f ↦ some (write_fields f) ]
