-- ===== src/Tests/Intervals.antt =====
-- The intervals of src/spec/value.rs and src/spec/runner.rs at small values.
use rand_verifier.Prelude.{◌-◌, ◌≡◌, ◌↔◌, ◌<◌, refl, true, false, arith, [], ◌∷◌}
use rand_verifier.Word.{u64_max}
use rand_verifier.Exec.Alu.{op_sub, op_lsh, op_neg, alu_const64, alu_const32}
use rand_verifier.Spec.Value.{Range}
use rand_verifier.Spec.Value.Interval.{IsRange, InRange}
use rand_verifier.Spec.Alu.{alu_range, alu32_range}
use rand_verifier.Spec.Alu.Sound.{alu_range-InRange, amount_bound}
use rand_verifier.Spec.Alu.Sound32.{alu32_range-InRange, alu32_range-neg, fits_in_32}
use rand_verifier.Spec.Refine.{
  cmp_ne, cmp_lt, take_unsigned, unsigned_cmp_refine, signed_cmp_refine,
}
use rand_verifier.Spec.Refine.Signed.{holds_signed}
use rand_verifier.Spec.Refine.Signed.Branches.{signed_cmp_refine-keeps, successor, orders}
use rand_verifier.Spec.Refine.Unsigned.{
  holds, InAny, unsigned_cmp_refine-splits, take-lt-dropped, take-ne-widens, take-ne-dropped,
}

abbrev small : Range
small = (2, 5)

abbrev top : Range
top = (u64_max - 3, u64_max)

small-IsRange : IsRange small
small-IsRange = record { ordered = omega arith; fits = omega arith }

top-IsRange : IsRange top
top-IsRange = record { ordered = omega arith; fits = omega arith }

alu_range-InRange_example : InRange (alu_const64 op_lsh 3 2) (alu_range op_lsh small (2, 2))
unfolding amount_bound
alu_range-InRange_example =
    alu_range-InRange small (2, 2) small-IsRange
      (record { ordered = omega arith; fits = omega arith }) 3 2 (omega arith) (omega arith) op_lsh
      (omega arith)

alu32_range-InRange_example : InRange (alu_const32 op_sub 3 5) (alu32_range op_sub small small)
unfolding fits_in_32
alu32_range-InRange_example =
    alu32_range-InRange small small small-IsRange small-IsRange 3 5 (omega arith) (omega arith)
      op_sub refl

alu32_range-neg_example : alu_const32 op_neg 1 0 < (alu32_range op_neg (1, 1) (0, 0)).0
alu32_range-neg_example = alu32_range-neg 1 0 (omega arith) (omega arith) (omega arith)

unsigned_cmp_refine-splits_example :
    (InAny 3 ((unsigned_cmp_refine small (4, 4) cmp_ne).0) ↔ (holds cmp_ne 3 4 ≡ true))
    × (InAny 3 ((unsigned_cmp_refine small (4, 4) cmp_ne).1) ↔ (holds cmp_ne 3 4 ≡ false))
unsigned_cmp_refine-splits_example =
    unsigned_cmp_refine-splits small 4 3 cmp_ne small-IsRange (omega arith) (omega arith)

take-lt-dropped_example : (take_unsigned small (0, 9) cmp_lt ≡ []) × (holds cmp_lt 2 9 ≡ true)
take-lt-dropped_example = take-lt-dropped small 9 (omega arith)

take-ne-widens_example : (take_unsigned small (0, 0) cmp_ne ≡ (1, 5) ∷ []) × ¬ InRange 1 small
take-ne-widens_example = take-ne-widens small 0 small-IsRange (omega arith)

take-ne-dropped_example : (take_unsigned small (0, 9) cmp_ne ≡ []) × (holds cmp_ne 2 9 ≡ true)
take-ne-dropped_example = take-ne-dropped small (0, 9) (omega arith) (omega arith) (omega arith)

-- 3 is not below -2.
signed_cmp_refine-keeps_example : InAny 3 (successor false (signed_cmp_refine small top cmp_lt))
unfolding holds_signed orders
signed_cmp_refine-keeps_example =
    signed_cmp_refine-keeps small top 3 (u64_max - 1) cmp_lt small-IsRange top-IsRange (omega arith)
      (omega arith) refl
