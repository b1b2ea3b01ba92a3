-- ===== src/Insn.antt =====
-- src/insn.rs: the decoded instructions. `imm` and `offset` are signed; register fields are numbers.
pub mod Opcode
pub mod Fields
pub mod Control
pub mod Decode
pub mod Parse
pub mod Encode
pub mod RoundTrip
pub mod NoPanic
pub mod Program
pub mod Read
pub mod Safe
use rand_verifier.Prelude.{ℕ, zero, suc, Bool, Option, some, none}
use rand_verifier.Prelude.Int.{ℤ, pos}

pub data MemSize : Type 0 where
  size_b size_h size_w size_dw : MemSize

-- Which half of a product `mul` keeps.
pub data MulHigh : Type 0 where
  low unsigned_high signed_high : MulHigh

unfoldable pub from_off : ℤ → Option MulHigh
from_off (pos zero) = some low
from_off (pos (suc zero)) = some unsigned_high
from_off (pos (suc (suc zero))) = some signed_high
from_off _ = none

unfoldable pub to_off : MulHigh → ℤ
to_off low = pos 0
to_off unsigned_high = pos 1
to_off signed_high = pos 2

pub data AtomicOp : Type 0 where
  atomic_add atomic_or atomic_and atomic_xor atomic_xchg atomic_cmpxchg : AtomicOp

pub data Jmp32Op : Type 0 where
  eq32 ne32 gt32 ge32 lt32 le32 sgt32 sge32 slt32 sle32 : Jmp32Op

pub data BpfInsn : Type 0 where
  mov_imm mov32_imm div_imm mod_imm mul32_imm div32_imm mod32_imm : (dst : ℕ) (imm : ℤ) → BpfInsn
  mov_reg mov32_reg div_reg mod_reg mul32_reg div32_reg mod32_reg : (dst src : ℕ) → BpfInsn
  mul_imm : (dst : ℕ) (imm : ℤ) (high : MulHigh) → BpfInsn
  mul_reg : (dst src : ℕ) (high : MulHigh) → BpfInsn
  neg neg32 : (dst : ℕ) → BpfInsn
  add_imm sub_imm and_imm or_imm xor_imm lsh_imm rsh_imm arsh_imm : (dst : ℕ) (imm : ℤ) → BpfInsn
  add_reg sub_reg and_reg or_reg xor_reg lsh_reg rsh_reg arsh_reg : (dst src : ℕ) → BpfInsn
  add32_imm sub32_imm and32_imm or32_imm xor32_imm : (dst : ℕ) (imm : ℤ) → BpfInsn
  lsh32_imm rsh32_imm arsh32_imm : (dst : ℕ) (imm : ℤ) → BpfInsn
  add32_reg sub32_reg and32_reg or32_reg xor32_reg : (dst src : ℕ) → BpfInsn
  lsh32_reg rsh32_reg arsh32_reg : (dst src : ℕ) → BpfInsn
  ld_mem : (dst base : ℕ) (offset : ℤ) (size : MemSize) (sign_extend : Bool) → BpfInsn
  st_mem : (src base : ℕ) (offset : ℤ) (size : MemSize) → BpfInsn
  st_mem_imm : (imm : ℤ) (base : ℕ) (offset : ℤ) (size : MemSize) → BpfInsn
  ld_imm64 : (dst imm : ℕ) → BpfInsn
  ld_map_fd : (dst fd key_size value_size map_type : ℕ) → BpfInsn
  ld_map_value : (dst fd offset key_size value_size : ℕ) → BpfInsn
  ld_imm64_second : (imm_hi : ℕ) → BpfInsn
  jeq jne jgt jge jlt jle jsgt jsge jslt jsle : (dst src : ℕ) (offset : ℤ) → BpfInsn
  jeq_imm jne_imm jgt_imm jge_imm jlt_imm jle_imm : (dst : ℕ) (imm offset : ℤ) → BpfInsn
  jsgt_imm jsge_imm jslt_imm jsle_imm : (dst : ℕ) (imm offset : ℤ) → BpfInsn
  jmp : (offset : ℤ) → BpfInsn
  jset : (dst src : ℕ) (offset : ℤ) → BpfInsn
  jset_imm : (dst : ℕ) (imm offset : ℤ) → BpfInsn
  jmp32 : (dst : ℕ) (src : Option ℕ) (imm : Option ℤ) (offset : ℤ) (op : Jmp32Op) → BpfInsn
  atomic : (dst src : ℕ) (offset : ℤ) (size : MemSize) (op : AtomicOp) (fetch : Bool) → BpfInsn
  ld_abs : (size : MemSize) (imm : ℤ) → BpfInsn
  ld_ind : (src : ℕ) (size : MemSize) (imm : ℤ) → BpfInsn
  call : (imm : ℤ) → BpfInsn
  call_sub : (offset : ℤ) → BpfInsn
  call_kfunc : (btf_id : ℤ) → BpfInsn
  exit : BpfInsn
