-- ===== src/Spec/Value/Interval.antt =====
-- The interval operators contain every wrapped result.
use rand_verifier.Prelude.{
  ℕ, ◌≤◌, ◌<◌, ◌^◌, ◌+◌, ◌-◌, ◌%◌, ◌≡◌, arith, bit_and, bit_or, bit_xor, ◌&&◌, true, ◌==◌, inl, inr,
  Bool-cases,
}
use rand_verifier.Prelude.Int.{
  pos, sub_ℕ, rem_euclid, ◌-ℤ◌, ◌+ℤ◌, +ℤ_parts, -ℤ_parts, sub_ℕ_parts, eq_of_parts,
}
use rand_verifier.Word.{wrapping_add, wrapping_sub, wrapping_mul}
use rand_verifier.Word.Bits.{bit_and-le, le-bit_or, bit_and-low_mask, bit_or-lt, bit_xor-lt}
use rand_verifier.Spec.Value.{
  Range, rng_add, rng_sub, rng_and, rng_or, rng_xor, rng_mul, range32, truncate32,
}

-- The invariant of an interval.
pub record IsRange (a : Range) : Type 0 where
  pub ordered : a.0 ≤ a.1
  pub fits : a.1 < 2 ^ 64

abbrev pub InRange : ℕ → Range → Type 0
InRange x a = (a.0 ≤ x) × (x ≤ a.1)

-- The parts of `rng_sub`'s 128-bit arithmetic.
folded_lo-sub :
    (p q : ℕ)
    → p < 2 ^ 64
    → q < 2 ^ 64
    → rem_euclid (sub_ℕ p q) (2 ^ 64) ≡ (p + 2 ^ 64 - q) % 2 ^ 64
folded_lo-sub p q hp hq = ground arith

span-sum :
    (a0 a1 b0 b1 : ℕ) → a0 ≤ a1 → b0 ≤ b1 → sub_ℕ a1 b0 -ℤ sub_ℕ a0 b1 ≡ pos (a1 + b1 - (a0 + b0))
span-sum a0 a1 b0 b1 p q =
    eq_of_parts _ _
      (omega (arith, -ℤ_parts (sub_ℕ a1 b0) (sub_ℕ a0 b1), sub_ℕ_parts a1 b0, sub_ℕ_parts a0 b1))

folded_hi-sum : (m n : ℕ) → pos m +ℤ pos n ≡ pos (m + n)
folded_hi-sum m n = eq_of_parts _ _ (omega (arith, +ℤ_parts (pos m) (pos n)))

module _ (a b : Range) (va : IsRange a) (vb : IsRange b) (x y : ℕ) (hx : InRange x a)
    (hy : InRange y b) where
  pub rng_add-InRange : InRange (wrapping_add x y) (rng_add a b)
  unfolding rng_add
  rng_add-InRange = ground arith

  -- For intervals of u64, rng_sub contains the wrapped difference of any two members.
  pub rng_sub-InRange : InRange (wrapping_sub x y) (rng_sub a b)
  unfolding rng_sub
  rng_sub-InRange =
      rw
        (
          span-sum a.0 a.1 b.0 b.1 va.ordered vb.ordered,
          folded_lo-sub a.0 b.1 (omega arith) vb.fits,
          folded_hi-sum ((a.0 + 2 ^ 64 - b.1) % 2 ^ 64) (a.1 + b.1 - (a.0 + b.0)),
        )
        (ground arith)

  pub rng_and-InRange : InRange (bit_and x y) (rng_and a b)
  unfolding rng_and
  rng_and-InRange = omega (arith, bit_and-le x y (omega arith) (omega arith))

  pub rng_or-InRange : InRange (bit_or x y) (rng_or a b)
  unfolding rng_or
  rng_or-InRange = omega (
    arith,
    le-bit_or x y (omega arith) (omega arith),
    bit_or-lt 64 x y (omega arith) (omega arith),
  )

  pub rng_xor-InRange : InRange (bit_xor x y) (rng_xor a b)
  unfolding rng_xor
  rng_xor-InRange = omega (arith, bit_xor-lt 64 x y (omega arith) (omega arith))

  pub rng_mul-InRange : InRange (wrapping_mul x y) (rng_mul a b)
  unfolding rng_mul
  rng_mul-InRange = elim (Bool-cases ((a.0 == a.1) && (b.0 == b.1))) [
    | inl e ↦ rw e (same_ends (constant_pair e))
    | inr e ↦ rw e (omega arith)
  ]
    where
      constant_pair : ((a.0 == a.1) && (b.0 == b.1)) ≡ true → (x ≡ a.0) × (y ≡ b.0)
      constant_pair e = ground arith

      same_ends :
          (x ≡ a.0) × (y ≡ b.0)
          → InRange (wrapping_mul x y) (wrapping_mul a.0 b.0, wrapping_mul a.0 b.0)
      same_ends e = rw (e.0, e.1) (omega arith)

pub truncate32-mod : (x : ℕ) → truncate32 x ≡ x % 2 ^ 32
unfolding truncate32
truncate32-mod x = bit_and-low_mask 32 x

pub range32-InRange :
    (a : Range) (x : ℕ) → IsRange a → InRange x a → InRange (truncate32 x) (range32 a)
unfolding range32
range32-InRange a x v h = ground (arith, truncate32-mod x, truncate32-mod a.0, truncate32-mod a.1)
