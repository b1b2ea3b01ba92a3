-- ===== src/Liveness.antt =====
-- src/liveness.rs: the registers and stack slots that each instruction reads and writes. A mask is a
-- number, bit `r` for register `r` and bit `s` for slot `s`.
pub mod Successors
pub mod Analyze
use rand_verifier.Prelude.{
  ℕ, ◌+◌, ◌-◌, ◌/◌, ◌%◌, ◌^◌, Bool, true, false, ◌&&◌, ◌||◌, ◌==◌, not, ltb, leb, if◌then◌else◌,
  Option, some, none, bit_or,
}
use rand_verifier.Prelude.Int.{ℤ, pos, negsuc, neg_part, leb_ℤ, ltb_ℤ}
use rand_verifier.Insn.{
  BpfInsn, MemSize, AtomicOp, mov_imm, mov32_imm, mov_reg, mov32_reg, ld_abs, ld_ind, add_imm,
  sub_imm, and_imm, or_imm, xor_imm, lsh_imm, rsh_imm, arsh_imm, mul_imm, div_imm, mod_imm, neg,
  add32_imm, sub32_imm, and32_imm, or32_imm, xor32_imm, lsh32_imm, rsh32_imm, arsh32_imm, mul32_imm,
  div32_imm, mod32_imm, neg32, add_reg, sub_reg, and_reg, or_reg, xor_reg, lsh_reg, rsh_reg,
  arsh_reg, mul_reg, div_reg, mod_reg, add32_reg, sub32_reg, and32_reg, or32_reg, xor32_reg,
  lsh32_reg, rsh32_reg, arsh32_reg, mul32_reg, div32_reg, mod32_reg, ld_mem, st_mem, st_mem_imm,
  ld_imm64, ld_map_fd, ld_map_value, ld_imm64_second, call, call_sub, call_kfunc, atomic, jmp32,
  exit, jmp, atomic_cmpxchg, jset, jeq, jne, jgt, jge, jlt, jle, jsgt, jsge, jslt, jsle, jset_imm,
  jeq_imm, jne_imm, jgt_imm, jge_imm, jlt_imm, jle_imm, jsgt_imm, jsge_imm, jslt_imm, jsle_imm,
}
use rand_verifier.Spec.Memory.{size_bytes}

pub record InsnUseDef : Type 0 where
  pub use_regs : ℕ
  pub def_regs : ℕ
  pub read_slots : ℕ
  pub write_slots : ℕ

abbrev pub no_use_def : InsnUseDef
no_use_def = record { use_regs = 0; def_regs = 0; read_slots = 0; write_slots = 0 }

abbrev pub reg_bit : ℕ → ℕ
reg_bit reg = 2 ^ reg

-- Below the frame pointer, in the frame, and on a slot's edge.
unfoldable pub fixed_slot : ℤ → Option ℕ
fixed_slot (pos n) = none
fixed_slot (negsuc n) = if ltb 512 (n + 1) || not ((n + 1) % 8 == 0) then none else some (n / 8)

abbrev pub all_slots : ℕ
all_slots = 2 ^ 64 - 1

unfoldable pub read_slots_for : ℕ → ℤ → ℕ
unfolding fixed_slot
read_slots_for base offset =
    if base == 10 then elim (fixed_slot offset) [ none ↦ all_slots | some s ↦ 2 ^ s ] else all_slots

unfoldable pub write_slots_for : ℕ → ℤ → MemSize → ℕ
unfolding fixed_slot size_bytes
write_slots_for base offset size =
    if base == 10 && size_bytes size == 8
    then elim (fixed_slot offset) [ none ↦ 0 | some s ↦ 2 ^ s ]
    else 0

-- What an instruction only reads, only defines, and reads and defines.
abbrev uses : ℕ → InsnUseDef
uses regs = record no_use_def { use_regs = regs }

abbrev defines : ℕ → InsnUseDef
defines regs = record no_use_def { def_regs = regs }

abbrev uses_defines : ℕ → ℕ → InsnUseDef
uses_defines used defined = record no_use_def { use_regs = used; def_regs = defined }

-- The registers that an atomic operation writes.
unfoldable pub atomic_def : ℕ → AtomicOp → Bool → ℕ
atomic_def src atomic_cmpxchg fetch = reg_bit 0
atomic_def src op fetch = if fetch then reg_bit src else 0

-- The argument registers, and those that a call overwrites.
abbrev pub argument_regs : ℕ
argument_regs =
    bit_or (bit_or (bit_or (bit_or (reg_bit 1) (reg_bit 2)) (reg_bit 3)) (reg_bit 4)) (reg_bit 5)

abbrev pub caller_saved : ℕ
caller_saved = bit_or (reg_bit 0) argument_regs

abbrev call_effect : InsnUseDef
call_effect = uses_defines argument_regs caller_saved

abbrev source_bit : Option ℕ → ℕ
source_bit none = 0
source_bit (some src) = reg_bit src

unfoldable pub use_def : BpfInsn → InsnUseDef
unfolding read_slots_for write_slots_for atomic_def
use_def (mov_imm dst imm) = defines (reg_bit dst)
use_def (mov32_imm dst imm) = defines (reg_bit dst)
use_def (mov_reg dst src) = uses_defines (reg_bit src) (reg_bit dst)
use_def (mov32_reg dst src) = uses_defines (reg_bit src) (reg_bit dst)
use_def (ld_abs size imm) = defines (reg_bit 0)
use_def (ld_ind src size imm) = uses_defines (reg_bit src) (reg_bit 0)
use_def (add_imm dst imm) = uses_defines (reg_bit dst) (reg_bit dst)
use_def (sub_imm dst imm) = uses_defines (reg_bit dst) (reg_bit dst)
use_def (and_imm dst imm) = uses_defines (reg_bit dst) (reg_bit dst)
use_def (or_imm dst imm) = uses_defines (reg_bit dst) (reg_bit dst)
use_def (xor_imm dst imm) = uses_defines (reg_bit dst) (reg_bit dst)
use_def (lsh_imm dst imm) = uses_defines (reg_bit dst) (reg_bit dst)
use_def (rsh_imm dst imm) = uses_defines (reg_bit dst) (reg_bit dst)
use_def (arsh_imm dst imm) = uses_defines (reg_bit dst) (reg_bit dst)
use_def (mul_imm dst imm high) = uses_defines (reg_bit dst) (reg_bit dst)
use_def (div_imm dst imm) = uses_defines (reg_bit dst) (reg_bit dst)
use_def (mod_imm dst imm) = uses_defines (reg_bit dst) (reg_bit dst)
use_def (neg dst) = uses_defines (reg_bit dst) (reg_bit dst)
use_def (add32_imm dst imm) = uses_defines (reg_bit dst) (reg_bit dst)
use_def (sub32_imm dst imm) = uses_defines (reg_bit dst) (reg_bit dst)
use_def (and32_imm dst imm) = uses_defines (reg_bit dst) (reg_bit dst)
use_def (or32_imm dst imm) = uses_defines (reg_bit dst) (reg_bit dst)
use_def (xor32_imm dst imm) = uses_defines (reg_bit dst) (reg_bit dst)
use_def (lsh32_imm dst imm) = uses_defines (reg_bit dst) (reg_bit dst)
use_def (rsh32_imm dst imm) = uses_defines (reg_bit dst) (reg_bit dst)
use_def (arsh32_imm dst imm) = uses_defines (reg_bit dst) (reg_bit dst)
use_def (mul32_imm dst imm) = uses_defines (reg_bit dst) (reg_bit dst)
use_def (div32_imm dst imm) = uses_defines (reg_bit dst) (reg_bit dst)
use_def (mod32_imm dst imm) = uses_defines (reg_bit dst) (reg_bit dst)
use_def (neg32 dst) = uses_defines (reg_bit dst) (reg_bit dst)
use_def (add_reg dst src) = uses_defines (bit_or (reg_bit dst) (reg_bit src)) (reg_bit dst)
use_def (sub_reg dst src) = uses_defines (bit_or (reg_bit dst) (reg_bit src)) (reg_bit dst)
use_def (and_reg dst src) = uses_defines (bit_or (reg_bit dst) (reg_bit src)) (reg_bit dst)
use_def (or_reg dst src) = uses_defines (bit_or (reg_bit dst) (reg_bit src)) (reg_bit dst)
use_def (xor_reg dst src) = uses_defines (bit_or (reg_bit dst) (reg_bit src)) (reg_bit dst)
use_def (lsh_reg dst src) = uses_defines (bit_or (reg_bit dst) (reg_bit src)) (reg_bit dst)
use_def (rsh_reg dst src) = uses_defines (bit_or (reg_bit dst) (reg_bit src)) (reg_bit dst)
use_def (arsh_reg dst src) = uses_defines (bit_or (reg_bit dst) (reg_bit src)) (reg_bit dst)
use_def (mul_reg dst src high) = uses_defines (bit_or (reg_bit dst) (reg_bit src)) (reg_bit dst)
use_def (div_reg dst src) = uses_defines (bit_or (reg_bit dst) (reg_bit src)) (reg_bit dst)
use_def (mod_reg dst src) = uses_defines (bit_or (reg_bit dst) (reg_bit src)) (reg_bit dst)
use_def (add32_reg dst src) = uses_defines (bit_or (reg_bit dst) (reg_bit src)) (reg_bit dst)
use_def (sub32_reg dst src) = uses_defines (bit_or (reg_bit dst) (reg_bit src)) (reg_bit dst)
use_def (and32_reg dst src) = uses_defines (bit_or (reg_bit dst) (reg_bit src)) (reg_bit dst)
use_def (or32_reg dst src) = uses_defines (bit_or (reg_bit dst) (reg_bit src)) (reg_bit dst)
use_def (xor32_reg dst src) = uses_defines (bit_or (reg_bit dst) (reg_bit src)) (reg_bit dst)
use_def (lsh32_reg dst src) = uses_defines (bit_or (reg_bit dst) (reg_bit src)) (reg_bit dst)
use_def (rsh32_reg dst src) = uses_defines (bit_or (reg_bit dst) (reg_bit src)) (reg_bit dst)
use_def (arsh32_reg dst src) = uses_defines (bit_or (reg_bit dst) (reg_bit src)) (reg_bit dst)
use_def (mul32_reg dst src) = uses_defines (bit_or (reg_bit dst) (reg_bit src)) (reg_bit dst)
use_def (div32_reg dst src) = uses_defines (bit_or (reg_bit dst) (reg_bit src)) (reg_bit dst)
use_def (mod32_reg dst src) = uses_defines (bit_or (reg_bit dst) (reg_bit src)) (reg_bit dst)
use_def (ld_mem dst base offset size sign_extend) =
    record (uses_defines (reg_bit base) (reg_bit dst)) { read_slots = read_slots_for base offset }
use_def (st_mem src base offset size) = record (uses (bit_or (reg_bit src) (reg_bit base))) {
  write_slots = write_slots_for base offset size;
}
use_def (st_mem_imm imm base offset size) = record (uses (reg_bit base)) {
  write_slots = write_slots_for base offset size;
}
use_def (ld_imm64 dst imm) = defines (reg_bit dst)
use_def (ld_map_fd dst fd key_size value_size map_type) = defines (reg_bit dst)
use_def (ld_map_value dst fd offset key_size value_size) = defines (reg_bit dst)
use_def (ld_imm64_second imm_hi) = no_use_def
use_def (call imm) = call_effect
use_def (call_sub offset) = call_effect
use_def (call_kfunc btf_id) = call_effect
use_def (atomic dst src offset size op fetch) =
    record (uses_defines (bit_or (reg_bit dst) (reg_bit src)) (atomic_def src op fetch)) {
      write_slots = write_slots_for dst offset size;
    }
use_def (jmp32 dst src imm offset op) = uses (bit_or (reg_bit dst) (source_bit src))
use_def exit = uses (reg_bit 0)
use_def (jmp offset) = no_use_def
use_def (jset dst src offset) = uses (bit_or (reg_bit dst) (reg_bit src))
use_def (jeq dst src offset) = uses (bit_or (reg_bit dst) (reg_bit src))
use_def (jne dst src offset) = uses (bit_or (reg_bit dst) (reg_bit src))
use_def (jgt dst src offset) = uses (bit_or (reg_bit dst) (reg_bit src))
use_def (jge dst src offset) = uses (bit_or (reg_bit dst) (reg_bit src))
use_def (jlt dst src offset) = uses (bit_or (reg_bit dst) (reg_bit src))
use_def (jle dst src offset) = uses (bit_or (reg_bit dst) (reg_bit src))
use_def (jsgt dst src offset) = uses (bit_or (reg_bit dst) (reg_bit src))
use_def (jsge dst src offset) = uses (bit_or (reg_bit dst) (reg_bit src))
use_def (jslt dst src offset) = uses (bit_or (reg_bit dst) (reg_bit src))
use_def (jsle dst src offset) = uses (bit_or (reg_bit dst) (reg_bit src))
use_def (jset_imm dst imm offset) = uses (reg_bit dst)
use_def (jeq_imm dst imm offset) = uses (reg_bit dst)
use_def (jne_imm dst imm offset) = uses (reg_bit dst)
use_def (jgt_imm dst imm offset) = uses (reg_bit dst)
use_def (jge_imm dst imm offset) = uses (reg_bit dst)
use_def (jlt_imm dst imm offset) = uses (reg_bit dst)
use_def (jle_imm dst imm offset) = uses (reg_bit dst)
use_def (jsgt_imm dst imm offset) = uses (reg_bit dst)
use_def (jsge_imm dst imm offset) = uses (reg_bit dst)
use_def (jslt_imm dst imm offset) = uses (reg_bit dst)
use_def (jsle_imm dst imm offset) = uses (reg_bit dst)
