-- ===== src/Exec/Alu.antt =====
-- src/exec.rs `alu_const64` and `alu_const32`: what an ALU instruction computes. The concrete
-- interpreter runs these, so they are the meaning against which abstract operators are judged.
use rand_verifier.Prelude.{
  ℕ, ◌+◌, ◌-◌, ◌*◌, ◌/◌, ◌%◌, ◌^◌, bit_and, bit_or, bit_xor, ◌==◌, leb, if◌then◌else◌,
}
use rand_verifier.Word.{wrapping_add, wrapping_sub, wrapping_mul, shl, shr, sar}

pub data AluOp : Type 0 where
  op_add op_sub op_and op_or op_xor op_lsh op_rsh op_arsh op_mul op_div op_mod op_neg : AluOp

-- `checked_div(b).unwrap_or(0)` and `checked_rem(b).unwrap_or(a)`.
abbrev pub div_or_zero : ℕ → ℕ → ℕ
div_or_zero a b = if b == 0 then 0 else a / b

abbrev pub rem_or_self : ℕ → ℕ → ℕ
rem_or_self a b = if b == 0 then a else a % b

-- The amount of a 64-bit shift is masked to six bits (`wrapping_shl` masks by itself).
unfoldable pub alu_const64 : AluOp → ℕ → ℕ → ℕ
alu_const64 op_add a b = wrapping_add a b
alu_const64 op_sub a b = wrapping_sub a b
alu_const64 op_and a b = bit_and a b
alu_const64 op_or a b = bit_or a b
alu_const64 op_xor a b = bit_xor a b
alu_const64 op_mul a b = wrapping_mul a b
alu_const64 op_div a b = div_or_zero a b
alu_const64 op_mod a b = rem_or_self a b
alu_const64 op_neg a b = wrapping_sub 0 a
alu_const64 op_lsh a b = shl a (b % 2 ^ 32 % 64)
alu_const64 op_rsh a b = shr a (b % 2 ^ 32 % 64)
alu_const64 op_arsh a b = sar a (bit_and b 63)

-- `((a as i32) >> k) as u32` for `a < 2 ^ 32` and `k < 32`.
abbrev pub sar32 : ℕ → ℕ → ℕ
sar32 a k = if leb (2 ^ 31) a then 2 ^ 32 - 1 - (2 ^ 32 - 1 - a) / 2 ^ k else a / 2 ^ k

-- One operation on 32-bit operands.
unfoldable pub alu_u32 : AluOp → ℕ → ℕ → ℕ
alu_u32 op_add a b = (a + b) % 2 ^ 32
alu_u32 op_sub a b = (a + 2 ^ 32 - b) % 2 ^ 32
alu_u32 op_and a b = bit_and a b
alu_u32 op_or a b = bit_or a b
alu_u32 op_xor a b = bit_xor a b
alu_u32 op_mul a b = a * b % 2 ^ 32
alu_u32 op_div a b = div_or_zero a b
alu_u32 op_mod a b = rem_or_self a b
alu_u32 op_neg a b = (2 ^ 32 - a) % 2 ^ 32
alu_u32 op_lsh a b = a * 2 ^ bit_and b 31 % 2 ^ 32
alu_u32 op_rsh a b = a / 2 ^ bit_and b 31
alu_u32 op_arsh a b = sar32 a (bit_and b 31)

unfoldable pub alu_const32 : AluOp → ℕ → ℕ → ℕ
alu_const32 op a b = alu_u32 op (a % 2 ^ 32) (b % 2 ^ 32)
