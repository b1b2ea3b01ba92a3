-- ===== src/Spec/Alu.antt =====
-- src/spec/runner.rs `alu_range`: the interval of an ALU result, and the 32-bit path of `alu32`.
pub mod Sound
pub mod Sound32
use rand_verifier.Prelude.{
  ℕ, ◌-◌, ◌/◌, ◌%◌, ◌^◌, max, bit_and, bit_or, bit_xor, Bool, true, false, ◌&&◌, ◌||◌, not, ◌==◌,
  leb, if◌then◌else◌,
}
use rand_verifier.Word.{
  wrapping_add, wrapping_sub, wrapping_mul, shl, shr, sar, is_negative, u64_max,
}
use rand_verifier.Exec.Alu.{
  AluOp, op_add, op_sub, op_and, op_or, op_xor, op_lsh, op_rsh, op_arsh, op_mul, op_div, op_mod,
  op_neg, div_or_zero, rem_or_self,
}
use rand_verifier.Spec.Value.{
  Range, full, rng_add, rng_sub, rng_and, rng_or, rng_xor, rng_lsh, rng_rsh, rng_arsh, rng_mul,
  range32,
}

-- The exact result on constants. A shift by 64 or more is not masked here.
unfoldable pub fold_const : AluOp → ℕ → ℕ → ℕ
fold_const op_add a b = wrapping_add a b
fold_const op_sub a b = wrapping_sub a b
fold_const op_and a b = bit_and a b
fold_const op_or a b = bit_or a b
fold_const op_xor a b = bit_xor a b
fold_const op_mul a b = wrapping_mul a b
fold_const op_div a b = div_or_zero a b
fold_const op_mod a b = rem_or_self a b
fold_const op_neg a b = wrapping_sub 0 a
fold_const op_lsh a b = if leb 64 b then 0 else shl a b
fold_const op_rsh a b = if leb 64 b then 0 else shr a b
fold_const op_arsh a b = if leb 64 b then sar a 63 else sar a b

-- A shift by an amount that is not one constant below 64 is unbounded.
known_amount : Range → Bool
known_amount s = (s.0 == s.1) && not (leb 64 s.0)

-- The result where an operand is not constant.
unfoldable pub spread : AluOp → Range → Range → Range
unfolding known_amount
spread op_add d s = rng_add d s
spread op_sub d s = rng_sub d s
spread op_and d s = rng_and d s
spread op_or d s = rng_or d s
spread op_xor d s = rng_xor d s
spread op_lsh d s = if known_amount s then rng_lsh d s.0 else full
spread op_rsh d s = if known_amount s then rng_rsh d s.0 else full
spread op_arsh d s = if known_amount s then rng_arsh d s.0 else full
spread op_mul d s = rng_mul d s
spread op_div d s = if s.0 == 0 then full else (d.0 / max s.1 1, d.1 / s.0)
spread op_mod d s = if s.0 == 0 then full else (0, s.1 - 1)
spread op_neg d s = full

unfoldable pub alu_range : AluOp → Range → Range → Range
alu_range op d s =
    let folded = fold_const op d.0 s.0 in
    if (d.0 == d.1) && (s.0 == s.1) then (folded, folded) else spread op d s

wraps_in_32 : AluOp → Bool
wraps_in_32 op_add = true
wraps_in_32 op_sub = true
wraps_in_32 _ = false

-- The interval that `alu32` writes, from the operands' 64-bit intervals.
unfoldable pub alu32_range : AluOp → Range → Range → Range
unfolding wraps_in_32
alu32_range op d s =
    let out = alu_range op (range32 d) (range32 s) in
    if leb out.1 (2 ^ 32 - 1)
    then out
    else if wraps_in_32 op
    then if out.0 == out.1 then (out.0 % 2 ^ 32, out.0 % 2 ^ 32) else (0, 2 ^ 32 - 1)
    else out
