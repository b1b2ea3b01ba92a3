-- ===== src/Insn/RoundTrip.antt =====
-- `parse_insn` of src/insn.rs on what `encode` writes.
pub mod Bytes
pub mod Loose
use rand_verifier.Prelude.{
  ℕ, zero, suc, ◌+◌, ◌^◌, ◌*◌, ◌%◌, ◌/◌, ◌≤◌, ◌<◌, ◌-◌, Bool, true, false, not, ◌&&◌, ◌||◌, ◌==◌,
  ◌≡◌, refl, List, Option, some, none, ok, err, arith, Bool-cases, inl, inr, Result, bit_and,
  bit_or, ◌∙◌, ap,
}
use rand_verifier.Prelude.Int.{ℤ, pos, negsuc, ◌≤ℤ◌, eqb_ℤ}
use rand_verifier.Insn.{
  AtomicOp, BpfInsn, Jmp32Op, MemSize, add32_imm, add32_reg, add_imm, add_reg, and32_imm, and32_reg,
  and_imm, and_reg, arsh32_imm, arsh32_reg, arsh_imm, arsh_reg, atomic, call, call_kfunc, call_sub,
  div32_imm, div32_reg, div_imm, div_reg, eq32, exit, ge32, gt32, jeq, jeq_imm, jge, jge_imm, jgt,
  jgt_imm, jle, jle_imm, jlt, jlt_imm, jmp, jmp32, jne, jne_imm, jset, jset_imm, jsge, jsge_imm,
  jsgt, jsgt_imm, jsle, jsle_imm, jslt, jslt_imm, ld_abs, ld_imm64, ld_imm64_second, ld_ind,
  ld_map_fd, ld_map_value, ld_mem, le32, lsh32_imm, lsh32_reg, lsh_imm, lsh_reg, lt32, mod32_imm,
  mod32_reg, mod_imm, mod_reg, mov32_imm, mov32_reg, mov_imm, mov_reg, mul32_imm, mul32_reg,
  mul_imm, mul_reg, ne32, neg, neg32, or32_imm, or32_reg, or_imm, or_reg, rsh32_imm, rsh32_reg,
  rsh_imm, rsh_reg, sge32, sgt32, size_b, size_dw, size_h, size_w, sle32, slt32, st_mem, st_mem_imm,
  sub32_imm, sub32_reg, sub_imm, sub_reg, to_off, xor32_imm, xor32_reg, xor_imm, xor_reg,
  atomic_xchg, atomic_cmpxchg, atomic_add, atomic_or, atomic_and, atomic_xor, low, unsigned_high,
  signed_high, MulHigh, from_off,
}
use rand_verifier.Insn.Opcode
use rand_verifier.Insn.Fields.{Fields, of_bits, to_bits, write_fields}
use rand_verifier.Insn.Decode.{Decoded, is_zero, panicked}
use rand_verifier.Insn.Decode.Alu.{decode_alu}
use rand_verifier.Insn.Decode.Jump.{
  decode_compare, decode_jset, decode_jmp32, decode_jmp, decode_call, decode_exit,
}
use rand_verifier.Insn.Decode.Memory.{
  requires_fetch, decode_packet_load, decode_memory, decode_atomic,
}
use rand_verifier.Insn.Parse.{decode_op, parse_insn}
use rand_verifier.Insn.Encode.{fields_of, encode}

-- The instructions of one slot that the decoder reads back: not the two slots of a 64-bit constant, a
-- division by the constant 0, a 32-bit comparison with two operands or none, a sign-extending load of 8
-- bytes, a packet load of 8 bytes, or an atomic operation of 1 or 2 bytes or without its fetch.
unfoldable pub decodable : BpfInsn → Bool
unfolding requires_fetch
decodable (div_imm dst imm) = not (is_zero imm)
decodable (mod_imm dst imm) = not (is_zero imm)
decodable (div32_imm dst imm) = not (is_zero imm)
decodable (mod32_imm dst imm) = not (is_zero imm)
decodable (jmp32 dst (some s) (some i) offset op) = false
decodable (jmp32 dst none none offset op) = false
decodable (atomic dst src offset size_b op fetch) = false
decodable (atomic dst src offset size_h op fetch) = false
decodable (atomic dst src offset size_w op fetch) = fetch || not (requires_fetch op)
decodable (atomic dst src offset size_dw op fetch) = fetch || not (requires_fetch op)
decodable (ld_abs size_dw imm) = false
decodable (ld_ind src size_dw imm) = false
decodable (ld_mem dst base offset size_dw true) = false
decodable (ld_imm64 dst imm) = false
decodable (ld_map_fd dst fd key_size value_size map_type) = false
decodable (ld_map_value dst fd offset key_size value_size) = false
decodable (ld_imm64_second imm_hi) = false
decodable _ = true

abbrev pub redecode : Option Fields → Decoded
redecode none = err panicked
redecode (some f) = decode_op f

redecode_jmp32 :
    (dst : ℕ) (src : Option ℕ) (imm : Option ℤ) (offset : ℤ) (op : Jmp32Op)
    → decodable (jmp32 dst src imm offset op) ≡ true
    → redecode (fields_of (jmp32 dst src imm offset op)) ≡ ok (jmp32 dst src imm offset op)
unfolding fields_of decodable decode_op decode_jmp32
redecode_jmp32 dst (some s) none offset eq32 h = refl
redecode_jmp32 dst none (some i) offset eq32 h = refl
redecode_jmp32 dst (some s) none offset ne32 h = refl
redecode_jmp32 dst none (some i) offset ne32 h = refl
redecode_jmp32 dst (some s) none offset gt32 h = refl
redecode_jmp32 dst none (some i) offset gt32 h = refl
redecode_jmp32 dst (some s) none offset ge32 h = refl
redecode_jmp32 dst none (some i) offset ge32 h = refl
redecode_jmp32 dst (some s) none offset lt32 h = refl
redecode_jmp32 dst none (some i) offset lt32 h = refl
redecode_jmp32 dst (some s) none offset le32 h = refl
redecode_jmp32 dst none (some i) offset le32 h = refl
redecode_jmp32 dst (some s) none offset sgt32 h = refl
redecode_jmp32 dst none (some i) offset sgt32 h = refl
redecode_jmp32 dst (some s) none offset sge32 h = refl
redecode_jmp32 dst none (some i) offset sge32 h = refl
redecode_jmp32 dst (some s) none offset slt32 h = refl
redecode_jmp32 dst none (some i) offset slt32 h = refl
redecode_jmp32 dst (some s) none offset sle32 h = refl
redecode_jmp32 dst none (some i) offset sle32 h = refl
redecode_jmp32 dst (some s) (some i) offset op h = absurd (cc)
redecode_jmp32 dst none none offset op h = absurd (cc)

redecode_atomic :
    (dst src : ℕ) (offset : ℤ) (size : MemSize) (op : AtomicOp) (fetch : Bool)
    → decodable (atomic dst src offset size op fetch) ≡ true
    → redecode (fields_of (atomic dst src offset size op fetch))
      ≡ ok (atomic dst src offset size op fetch)
unfolding fields_of decodable decode_op decode_atomic
redecode_atomic dst src offset size_b op fetch h = absurd (cc)
redecode_atomic dst src offset size_h op fetch h = absurd (cc)
redecode_atomic dst src offset size_w atomic_add true h = refl
redecode_atomic dst src offset size_w atomic_add false h = refl
redecode_atomic dst src offset size_w atomic_or true h = refl
redecode_atomic dst src offset size_w atomic_or false h = refl
redecode_atomic dst src offset size_w atomic_and true h = refl
redecode_atomic dst src offset size_w atomic_and false h = refl
redecode_atomic dst src offset size_w atomic_xor true h = refl
redecode_atomic dst src offset size_w atomic_xor false h = refl
redecode_atomic dst src offset size_w atomic_xchg true h = refl
redecode_atomic dst src offset size_w atomic_xchg false h = absurd (cc)
redecode_atomic dst src offset size_w atomic_cmpxchg true h = refl
redecode_atomic dst src offset size_w atomic_cmpxchg false h = absurd (cc)
redecode_atomic dst src offset size_dw atomic_add true h = refl
redecode_atomic dst src offset size_dw atomic_add false h = refl
redecode_atomic dst src offset size_dw atomic_or true h = refl
redecode_atomic dst src offset size_dw atomic_or false h = refl
redecode_atomic dst src offset size_dw atomic_and true h = refl
redecode_atomic dst src offset size_dw atomic_and false h = refl
redecode_atomic dst src offset size_dw atomic_xor true h = refl
redecode_atomic dst src offset size_dw atomic_xor false h = refl
redecode_atomic dst src offset size_dw atomic_xchg true h = refl
redecode_atomic dst src offset size_dw atomic_xchg false h = absurd (cc)
redecode_atomic dst src offset size_dw atomic_cmpxchg true h = refl
redecode_atomic dst src offset size_dw atomic_cmpxchg false h = absurd (cc)

redecode_ld_mem :
    (dst base : ℕ) (offset : ℤ) (size : MemSize) (sign_extend : Bool)
    → decodable (ld_mem dst base offset size sign_extend) ≡ true
    → redecode (fields_of (ld_mem dst base offset size sign_extend))
      ≡ ok (ld_mem dst base offset size sign_extend)
unfolding fields_of decodable decode_op decode_memory
redecode_ld_mem dst base offset size_b true h = refl
redecode_ld_mem dst base offset size_b false h = refl
redecode_ld_mem dst base offset size_h true h = refl
redecode_ld_mem dst base offset size_h false h = refl
redecode_ld_mem dst base offset size_w true h = refl
redecode_ld_mem dst base offset size_w false h = refl
redecode_ld_mem dst base offset size_dw true h = absurd (cc)
redecode_ld_mem dst base offset size_dw false h = refl

-- Every other check of the decoder passes on the parts of an instruction.
pub redecode_lem : (i : BpfInsn) → decodable i ≡ true → redecode (fields_of i) ≡ ok i
unfolding fields_of decodable decode_op decode_alu decode_compare decode_jset decode_jmp decode_call
    decode_exit decode_packet_load decode_memory
redecode_lem (div_imm dst imm) h = ground arith
redecode_lem (mod_imm dst imm) h = ground arith
redecode_lem (div32_imm dst imm) h = ground arith
redecode_lem (mod32_imm dst imm) h = ground arith
redecode_lem (mul_imm dst imm low) h = refl
redecode_lem (mul_imm dst imm unsigned_high) h = refl
redecode_lem (mul_imm dst imm signed_high) h = refl
redecode_lem (mul_reg dst src low) h = refl
redecode_lem (mul_reg dst src unsigned_high) h = refl
redecode_lem (mul_reg dst src signed_high) h = refl
redecode_lem (jmp32 dst src imm offset op) h = redecode_jmp32 dst src imm offset op h
redecode_lem (atomic dst src offset size op fetch) h =
    redecode_atomic dst src offset size op fetch h
redecode_lem (ld_mem dst base offset size sign_extend) h =
    redecode_ld_mem dst base offset size sign_extend h
redecode_lem (ld_abs size_b imm) h = refl
redecode_lem (ld_ind src size_b imm) h = refl
redecode_lem (ld_abs size_h imm) h = refl
redecode_lem (ld_ind src size_h imm) h = refl
redecode_lem (ld_abs size_w imm) h = refl
redecode_lem (ld_ind src size_w imm) h = refl
redecode_lem (ld_abs size_dw imm) h = absurd (cc)
redecode_lem (ld_ind src size_dw imm) h = absurd (cc)
redecode_lem (st_mem src base offset size_b) h = refl
redecode_lem (st_mem_imm imm base offset size_b) h = ground arith
redecode_lem (st_mem src base offset size_h) h = refl
redecode_lem (st_mem_imm imm base offset size_h) h = ground arith
redecode_lem (st_mem src base offset size_w) h = refl
redecode_lem (st_mem_imm imm base offset size_w) h = ground arith
redecode_lem (st_mem src base offset size_dw) h = refl
redecode_lem (st_mem_imm imm base offset size_dw) h = ground arith
redecode_lem (ld_imm64 dst imm) h = absurd (cc)
redecode_lem (ld_map_fd dst fd key_size value_size map_type) h = absurd (cc)
redecode_lem (ld_map_value dst fd offset key_size value_size) h = absurd (cc)
redecode_lem (ld_imm64_second imm_hi) h = absurd (cc)
redecode_lem _ h = refl
