-- ===== src/Spec/Alu/Sound32.antt =====
-- The interval that the 32-bit path writes, against the interpreter's 32-bit result.
use rand_verifier.Prelude.{
  ℕ, ◌<◌, ◌^◌, ◌-◌, ◌%◌, ◌≡◌, arith, true, false, Bool, ◌==◌, if◌then◌else◌, leb, refl, sym,
}
use native.Mathlib.Nat.{div-le_self, mod-le}
use rand_verifier.Word.Bits.{bit_and-le, bit_or-lt, bit_xor-lt}
use rand_verifier.Exec.Alu.{
  AluOp, op_add, op_sub, op_and, op_or, op_xor, op_lsh, op_rsh, op_arsh, op_mul, op_div, op_mod,
  op_neg, alu_const64, alu_const32, alu_u32,
}
use rand_verifier.Spec.Value.{Range, range32, truncate32}
use rand_verifier.Spec.Value.Interval.{IsRange, InRange, range32-InRange, truncate32-mod}
use rand_verifier.Spec.Alu.{fold_const, alu_range, alu32_range, wraps_in_32}
use rand_verifier.Spec.Alu.Sound.{alu_range-InRange, amount_bound}

-- The operations whose 64-bit result on 32-bit operands fits in 32 bits, but for the wrap of an
-- addition or a subtraction.
unfoldable pub fits_in_32 : AluOp → Bool
fits_in_32 op_add = true
fits_in_32 op_sub = true
fits_in_32 op_and = true
fits_in_32 op_or = true
fits_in_32 op_xor = true
fits_in_32 op_div = true
fits_in_32 op_mod = true
fits_in_32 _ = false

module _ (x y : ℕ) (hx : x < 2 ^ 32) (hy : y < 2 ^ 32) where
  below_or_wraps :
      (op : AluOp) → fits_in_32 op ≡ true → wraps_in_32 op ≡ false → alu_const64 op x y < 2 ^ 32
  unfolding fits_in_32 wraps_in_32 alu_const64
  below_or_wraps op_add e w = ground arith
  below_or_wraps op_sub e w = ground arith
  below_or_wraps op_lsh e w = ground arith
  below_or_wraps op_rsh e w = ground arith
  below_or_wraps op_arsh e w = ground arith
  below_or_wraps op_mul e w = ground arith
  below_or_wraps op_neg e w = ground arith
  below_or_wraps op_and e w = omega (arith, bit_and-le x y (omega arith) (omega arith))
  below_or_wraps op_or e w = bit_or-lt 32 x y hx hy
  below_or_wraps op_xor e w = bit_xor-lt 32 x y hx hy
  below_or_wraps op_div e w = ground (arith, div-le_self x y)
  below_or_wraps op_mod e w = ground (arith, mod-le x y)

  alu_u32-alu_const64 :
      (op : AluOp) → fits_in_32 op ≡ true → alu_u32 op x y ≡ alu_const64 op x y % 2 ^ 32
  unfolding fits_in_32 alu_u32 alu_const64
  alu_u32-alu_const64 op_lsh e = ground arith
  alu_u32-alu_const64 op_rsh e = ground arith
  alu_u32-alu_const64 op_arsh e = ground arith
  alu_u32-alu_const64 op_mul e = ground arith
  alu_u32-alu_const64 op_neg e = ground arith
  alu_u32-alu_const64 op_add e = omega arith
  alu_u32-alu_const64 op_sub e = omega arith
  alu_u32-alu_const64 op_and e = omega (arith, bit_and-le x y (omega arith) (omega arith))
  alu_u32-alu_const64 op_or e = omega (arith, bit_or-lt 32 x y hx hy)
  alu_u32-alu_const64 op_xor e = omega (arith, bit_xor-lt 32 x y hx hy)
  alu_u32-alu_const64 op_div e = ground (arith, div-le_self x y)
  alu_u32-alu_const64 op_mod e = ground (arith, mod-le x y)

amount_unbounded : (op : AluOp) (b : ℕ) → fits_in_32 op ≡ true → b < 2 ^ 32 → b < amount_bound op
unfolding fits_in_32 amount_bound
amount_unbounded op_add b e h = omega arith
amount_unbounded op_sub b e h = omega arith
amount_unbounded op_and b e h = omega arith
amount_unbounded op_or b e h = omega arith
amount_unbounded op_xor b e h = omega arith
amount_unbounded op_lsh b e h = ground arith
amount_unbounded op_rsh b e h = ground arith
amount_unbounded op_arsh b e h = ground arith
amount_unbounded op_mul b e h = ground arith
amount_unbounded op_div b e h = omega arith
amount_unbounded op_mod b e h = omega arith
amount_unbounded op_neg b e h = ground arith

-- The cut of a 64-bit interval to the width, around a result in it.
cut : Bool → Range → Range
cut w out =
    if leb out.1 (2 ^ 32 - 1)
    then out
    else if w
    then if out.0 == out.1 then (out.0 % 2 ^ 32, out.0 % 2 ^ 32) else (0, 2 ^ 32 - 1)
    else out

cut-InRange :
    (w : Bool) (out : Range) (v : ℕ)
    → InRange v out
    → (w ≡ false → v < 2 ^ 32)
    → InRange (v % 2 ^ 32) (cut w out)
unfolding cut
cut-InRange true out v h f = ground arith
cut-InRange false out v h f = let b = f refl in ground arith

range32-IsRange : (a : Range) → IsRange a → IsRange (range32 a)
unfolding range32
range32-IsRange a v = record {
  ordered = ground (arith, truncate32-mod a.0, truncate32-mod a.1, v.ordered);
  fits = ground (arith, truncate32-mod a.0, truncate32-mod a.1);
}

module _ (d s : Range) (vd : IsRange d) (vs : IsRange s) (x y : ℕ) (hx : InRange x d)
    (hy : InRange y s) where
  -- For u64 intervals, the 32-bit path's interval contains what the interpreter's alu_const32
  -- computes from members, for addition, subtraction, the bit operations, division and remainder.
  pub alu32_range-InRange :
      (op : AluOp) → fits_in_32 op ≡ true → InRange (alu_const32 op x y) (alu32_range op d s)
  unfolding alu32_range alu_const32 cut
  alu32_range-InRange op e =
      rw
        (
          sym (truncate32-mod x),
          sym (truncate32-mod y),
          alu_u32-alu_const64 (truncate32 x) (truncate32 y) x_small y_small op e,
        )
        (cut-InRange (wraps_in_32 op) (alu_range op (range32 d) (range32 s)) _
          (alu_range-InRange (range32 d) (range32 s) (range32-IsRange d vd) (range32-IsRange s vs)
            (truncate32 x) (truncate32 y) (range32-InRange d x vd hx) (range32-InRange s y vs hy) op
            (amount_unbounded op (truncate32 y) e y_small))
          (below_or_wraps (truncate32 x) (truncate32 y) x_small y_small op e))
    where
      x_small : truncate32 x < 2 ^ 32
      x_small = omega (arith, truncate32-mod x)

      y_small : truncate32 y < 2 ^ 32
      y_small = omega (arith, truncate32-mod y)

-- For a 32-bit negation of a known non-zero value below 2^32, the interval's lower end is above
-- what the interpreter computes.
pub alu32_range-neg :
    (c y : ℕ)
    → 0 < c
    → c < 2 ^ 32
    → y < 2 ^ 32
    → (alu_const32 op_neg c y < (alu32_range op_neg (c, c) (y, y)).0)
unfolding alu32_range alu_const32 alu_u32 range32 alu_range fold_const wraps_in_32
alu32_range-neg c y p h k = ground (arith, truncate32-mod c, truncate32-mod y)
