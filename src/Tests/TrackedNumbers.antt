-- ===== src/Tests/TrackedNumbers.antt =====
-- The tracked numbers of src/tnum.rs at small values.
use rand_verifier.Prelude.{ℕ, ◌%◌, ◌^◌, ◌≡◌, ◌↔◌, refl, true, arith, bit_and, bit_or, bit_xor}
use rand_verifier.Word.{
  wrapping_add, wrapping_sub, wrapping_mul, shl_or_zero, shr_or_zero, sar_or_sign,
}
use rand_verifier.Tnum.{
  Tnum, add, sub, mul, and, or, xor, union, intersect, subsumes, lshift, rshift, arshift, subreg,
}
use rand_verifier.Tnum.Members.{IsNormal, Contains, contains}
use rand_verifier.Tnum.Sound.{
  add-sub-Contains, bitwise-Contains, union-intersect-Contains, shifts-Contains,
}
use rand_verifier.Tnum.Order.{subsumes_iff}
use rand_verifier.Tnum.Mul.{mul-Contains}

-- 4 or 6.
abbrev four_or_six : Tnum
four_or_six = record { value = 4; mask = 2 }

-- 1 or 3.
abbrev one_or_three : Tnum
one_or_three = record { value = 1; mask = 2 }

four_or_six-IsNormal : IsNormal four_or_six
four_or_six-IsNormal = record { value_fits = omega arith; mask_fits = omega arith; disjoint = refl }

one_or_three-IsNormal : IsNormal one_or_three
one_or_three-IsNormal = record {
  value_fits = omega arith;
  mask_fits = omega arith;
  disjoint = refl;
}

six : Contains four_or_six 6
unfolding contains
six = record { fits = omega arith; member = refl }

three : Contains one_or_three 3
unfolding contains
three = record { fits = omega arith; member = refl }

mul-Contains_example :
    IsNormal (mul four_or_six one_or_three)
    × Contains (mul four_or_six one_or_three) (wrapping_mul 6 3)
mul-Contains_example =
    mul-Contains four_or_six one_or_three four_or_six-IsNormal one_or_three-IsNormal 6 3 six three

subsumes_iff_example :
    (subsumes four_or_six one_or_three ≡ true)
    ↔ ((x : ℕ) → Contains one_or_three x → Contains four_or_six x)
subsumes_iff_example =
    subsumes_iff four_or_six one_or_three four_or_six-IsNormal one_or_three-IsNormal

add-sub-Contains_example :
    Contains (add four_or_six one_or_three) (wrapping_add 6 3)
    × Contains (sub four_or_six one_or_three) (wrapping_sub 6 3)
add-sub-Contains_example =
    add-sub-Contains four_or_six one_or_three four_or_six-IsNormal one_or_three-IsNormal 6 3 six
      three

bitwise-Contains_example :
    Contains (and four_or_six one_or_three) (bit_and 6 3)
    × Contains (or four_or_six one_or_three) (bit_or 6 3)
    × Contains (xor four_or_six one_or_three) (bit_xor 6 3)
bitwise-Contains_example =
    bitwise-Contains four_or_six one_or_three four_or_six-IsNormal one_or_three-IsNormal 6 3 six
      three

union-intersect-Contains_example :
    Contains (union four_or_six four_or_six) 6
    × Contains (union four_or_six four_or_six) 6
    × Contains (intersect four_or_six four_or_six) 6
union-intersect-Contains_example =
    union-intersect-Contains four_or_six four_or_six four_or_six-IsNormal four_or_six-IsNormal 6 6 6
      six six six six

shifts-Contains_example :
    Contains (lshift four_or_six 1) (shl_or_zero 6 1)
    × Contains (rshift four_or_six 1) (shr_or_zero 6 1)
    × Contains (arshift four_or_six 1) (sar_or_sign 6 1)
    × Contains (subreg four_or_six) (6 % 2 ^ 32)
shifts-Contains_example = shifts-Contains four_or_six four_or_six-IsNormal 1 6 six
