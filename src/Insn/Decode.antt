-- ===== src/Insn/Decode.antt =====
-- src/insn.rs: the errors of the decoder and what its arms share. A `match` on an opcode is a table,
-- and the text of a message is a constructor. The panic of an `unreachable!` arm, of an `expect`
-- or of an index behind the end of a slice is the error `panicked`.
pub mod Alu
pub mod Jump
pub mod Memory
use rand_verifier.Prelude.{
  ℕ, ◌/◌, ◌^◌, Bool, true, false, not, ◌&&◌, ◌||◌, ◌==◌, ltb, leb, if◌then◌else◌, List, [], ◌∷◌,
  Option, some, none, Result, ok, err, length, bit_and,
}
use rand_verifier.Prelude.Int.{ℤ, pos, negsuc, eqb_ℤ}
use rand_verifier.Insn.{
  AtomicOp, BpfInsn, Jmp32Op, MemSize, MulHigh, add32_imm, add32_reg, add_imm, add_reg, and32_imm,
  and32_reg, and_imm, and_reg, arsh32_imm, arsh32_reg, arsh_imm, arsh_reg, atomic, atomic_add,
  atomic_and, atomic_cmpxchg, atomic_or, atomic_xchg, atomic_xor, call, call_kfunc, call_sub,
  div32_imm, div32_reg, div_imm, div_reg, eq32, exit, from_off, ge32, gt32, jeq, jeq_imm, jge,
  jge_imm, jgt, jgt_imm, jle, jle_imm, jlt, jlt_imm, jmp, jmp32, jne, jne_imm, jset, jset_imm, jsge,
  jsge_imm, jsgt, jsgt_imm, jsle, jsle_imm, jslt, jslt_imm, ld_abs, ld_ind, ld_mem, le32, low,
  lsh32_imm, lsh32_reg, lsh_imm, lsh_reg, lt32, mod32_imm, mod32_reg, mod_imm, mod_reg, mov32_imm,
  mov32_reg, mov_imm, mov_reg, mul32_imm, mul32_reg, mul_imm, mul_reg, ne32, neg, neg32, or32_imm,
  or32_reg, or_imm, or_reg, rsh32_imm, rsh32_reg, rsh_imm, rsh_reg, sge32, sgt32, size_b, size_dw,
  size_h, size_w, sle32, slt32, st_mem, st_mem_imm, sub32_imm, sub32_reg, sub_imm, sub_reg,
  xor32_imm, xor32_reg, xor_imm, xor_reg,
}
use rand_verifier.Insn.Opcode
use rand_verifier.Insn.Fields.{Fields, to_bits}

-- The messages of the reserved-field errors.
pub data Reserved : Type 0 where
  mov_fields alu_fields jmp_fields jmp32_fields ld_abs_ind_fields ld_abs_fields : Reserved
  ja_fields call_fields exit_fields memory_fields atomic_fields ld_fields : Reserved
  second_part map_fd_second_slot : Reserved

-- The reasons why an opcode of the kernel is not supported.
pub data Missing : Type 0 where
  legacy_loads store_immediate jmp32_forms only_stack_loads only_stack_stores : Missing
  byte_swap mov_32 jset_forms indirect_jump : Missing
  memory_modifier atomic_operation pseudo_class : Missing

pub data DecodeError : Type 0 where
  unknown_opcode : (op : ℕ) → DecodeError
  unsupported : (op : ℕ) (reason : Missing) → DecodeError
  invalid_register : (reg : ℕ) → DecodeError
  reserved_fields : (message : Reserved) → DecodeError
  invalid_instruction_length : (actual : ℕ) → DecodeError
  ld_imm64_truncated division_by_zero : DecodeError
  panicked : DecodeError

abbrev pub Decoded : Type 0
Decoded = Result DecodeError BpfInsn

-- A `match` on a number, the first entry that fits.
abbrev pub pick {ℓ} : {A : Type ℓ} → ℕ → List (ℕ × A) → Option A
pick k [] = none
pick k ((j, a) ∷ rest) = if k == j then some a else pick k rest

abbrev pub among : ℕ → List ℕ → Bool
among k [] = false
among k (j ∷ rest) = k == j || among k rest

abbrev pub or_panic : Option BpfInsn → Decoded
or_panic (some i) = ok i
or_panic none = err panicked

abbrev pub is_none {ℓ} : {A : Type ℓ} → Option A → Bool
is_none none = true
is_none (some a) = false

abbrev pub is_zero : ℤ → Bool
is_zero z = eqb_ℤ z (pos 0)

-- `z & mask`, of the bits of an `i32`.
abbrev pub masked : ℤ → ℕ → ℕ
masked z mask = bit_and (to_bits 32 z) mask

-- The kernel's BPF_SRC bit.
abbrev pub is_x : ℕ → Bool
is_x op = not (bit_and op 0x08 == 0)

-- The register form reserves the immediate, the other form the source register.
abbrev pub operand_reserved : Fields → Bool
operand_reserved f = (is_x f.op && not (is_zero f.imm)) || (not (is_x f.op) && not (f.src == 0))
