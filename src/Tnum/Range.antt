-- ===== src/Tnum/Range.antt =====
-- `from_range` of src/tnum.rs: the tracked number of an interval.
use native.Mathlib.Decide.{dec_lt}
use native.Mathlib.Nat.{
  pow-suc, div-le_self, div-mul-le_self, div-eq_of_lt-le, lt-div-mul-add, suc-mul, le_trans,
  one-le-pow, pow-le-pow_right,
}
use rand_verifier.Prelude.{
  ℕ, zero, suc, ◌+◌, ◌-◌, ◌*◌, ◌/◌, ◌^◌, ◌≤◌, ◌<◌, bit_and, bit_xor, ◌≡◌, refl, arith, ap, sym, ◌∙◌,
  inl, inr, Bool-cases, ◌==◌, if◌then◌else◌, ==_iff,
}
use rand_verifier.Word.{not64, u64_max}
use rand_verifier.Word.Bits.{
  bit, bit-le-one, bit-zero, bit_ext, bit_and-lt, bit_xor-lt, bit-bit_xor, bit_above,
  bit-complement, bit-shr,
}
use rand_verifier.Tnum.{Tnum, from_range, constant, bit_length}
use rand_verifier.Tnum.Members.{
  Contains, IsNormal, Agrees, Contains-of_bits, IsNormal-of_bits, bit_masked,
}

-- A number fits its bit length, which is at most the width.
bit_length-fits : (w x : ℕ) → x < 2 ^ w → (x < 2 ^ bit_length w x) × (bit_length w x ≤ w)
unfolding bit_length
bit_length-fits zero x h = (h, omega arith)
bit_length-fits (suc w) x h = elim (Bool-cases (x == 0)) [
  | inl e ↦ rw e (omega (arith, (==_iff x 0).0 e))
  | inr e ↦
      let (small, short) = bit_length-fits w (x / 2) (omega (arith, pow-suc 2 w)) in
      rw e (omega (arith, small, pow-suc 2 (bit_length w (x / 2))), omega (arith, short))
]

-- The mask of `b` low bits.
pub low_mask-bit : (b i : ℕ) → i < b → bit i (2 ^ b - 1) ≡ 1
low_mask-bit b i h = omega (
  arith,
  bit-complement b i 0 (one-le-pow b 2 (omega arith)) h,
  bit-zero i,
  ap (bit i) (no_offset (2 ^ b - 1)),
)
  where
    no_offset : (n : ℕ) → n - 0 ≡ n
    no_offset n = omega arith

-- Numbers that differ only below `b` have one quotient by 2 ^ b, and so has all between them.
same_prefix :
    (lo hi b : ℕ) → lo < 2 ^ 64 → hi < 2 ^ 64 → bit_xor lo hi < 2 ^ b → lo / 2 ^ b ≡ hi / 2 ^ b
same_prefix lo hi b p q h =
    bit_ext 64 _ _ (omega (arith, div-le_self lo (2 ^ b))) (omega (arith, div-le_self hi (2 ^ b)))
      λ i l. omega (
        arith,
        bit-shr b i lo,
        bit-shr b i hi,
        bit-bit_xor (b + i) lo hi,
        bit_above b (b + i) (bit_xor lo hi) h (omega arith),
        bit-le-one (b + i) lo,
        bit-le-one (b + i) hi,
      )

between_prefix :
    (lo hi x b : ℕ) → lo ≤ x → x ≤ hi → lo / 2 ^ b ≡ hi / 2 ^ b → x / 2 ^ b ≡ lo / 2 ^ b
between_prefix lo hi x b p q e = div-eq_of_lt-le (2 ^ b) (le_trans (div-mul-le_self lo (2 ^ b)) p) (
    omega (
      arith,
      lt-div-mul-add {a = hi} (one-le-pow b 2 (omega arith)),
      ap (λ (t : ℕ). t * 2 ^ b) e,
      suc-mul (lo / 2 ^ b) (2 ^ b),
    ))

-- The mask of the code: the low bits up to the highest one that differs.
pub mask_of : ℕ → ℕ → ℕ
mask_of lo hi = 2 ^ bit_length 64 (bit_xor lo hi) - 1

mask_of-lt : (lo hi : ℕ) → lo < 2 ^ 64 → hi < 2 ^ 64 → mask_of lo hi < 2 ^ 64
unfolding mask_of
mask_of-lt lo hi p q =
    let (fits, short) = bit_length-fits 64 (bit_xor lo hi) (bit_xor-lt 64 lo hi p q) in
    omega (arith, pow-le-pow_right {n = 2} (omega arith) short)

-- Both branches of the code's mask are that of the low bits.
low_mask-branches : (b : ℕ) → (if b == 64 then u64_max else 2 ^ b - 1) ≡ 2 ^ b - 1
low_mask-branches b = elim (Bool-cases (b == 64)) [
  | inl e ↦ rw (e, (==_iff b 64).0 e)
  | inr e ↦ rw e
]

bit_and-all : (x : ℕ) → x < 2 ^ 64 → bit_and x (not64 0) ≡ x
bit_and-all x h =
    bit_ext 64 _ _ (bit_and-lt 64 x _ h) h
      λ i l. omega (arith, bit_masked i x 0 (omega arith) l, bit-zero i, bit-le-one i x)

bit_length-zero : bit_length 64 0 ≡ 0
unfolding bit_length
bit_length-zero = refl

-- Every interval goes the way of the last line of the code: the early return for a constant is
-- its case of no bits.
pub from_range-low_mask :
    (lo hi : ℕ)
    → lo < 2 ^ 64
    → hi < 2 ^ 64
    → from_range lo hi ≡ record { value = bit_and lo (not64 (mask_of lo hi)); mask = mask_of lo hi }
unfolding from_range mask_of constant
from_range-low_mask lo hi p q = elim (Bool-cases (bit_xor lo hi == 0)) [
  | inl e ↦ rw (e, (==_iff _ 0).0 e) (rw bit_length-zero (ap known (sym (bit_and-all lo p))))
  | inr e ↦ rw (e, low_mask-branches (bit_length 64 (bit_xor lo hi)))
]
  where
    known : ℕ → Tnum
    known v = record { value = v; mask = 0 }

-- A tracked number covers its interval.
module _ (lo hi : ℕ) (lo_fits : lo < 2 ^ 64) (hi_fits : hi < 2 ^ 64) where
  masked_range-IsNormal :
      IsNormal (record { value = bit_and lo (not64 (mask_of lo hi)); mask = mask_of lo hi })
  masked_range-IsNormal =
      IsNormal-of_bits _ (bit_and-lt 64 _ _ lo_fits) (mask_of-lt lo hi lo_fits hi_fits) (λ i l.
        omega (
          arith,
          bit_masked i lo (mask_of lo hi) (mask_of-lt lo hi lo_fits hi_fits) l,
          bit-le-one i (mask_of lo hi),
        ))

  pub from_range-IsNormal : IsNormal (from_range lo hi)
  from_range-IsNormal = rw (from_range-low_mask lo hi lo_fits hi_fits) masked_range-IsNormal

  -- For u64 ends, from_range contains every number from the first to the second.
  pub from_range-Contains : (x : ℕ) → lo ≤ x → x ≤ hi → Contains (from_range lo hi) x
  from_range-Contains x p q =
      rw (from_range-low_mask lo hi lo_fits hi_fits)
        (Contains-of_bits _ x masked_range-IsNormal (omega arith) agrees)
    where
      b : ℕ
      b = bit_length 64 (bit_xor lo hi)

      high : (j : ℕ) → bit (b + j) x ≡ bit (b + j) lo
      high j =
          sym (bit-shr b j x)
          ∙ ap (bit j) (
              between_prefix lo hi x b p q (
                same_prefix lo hi b lo_fits hi_fits
                  (bit_length-fits 64 _ (bit_xor-lt 64 lo hi lo_fits hi_fits)).0))
          ∙ bit-shr b j lo

      agrees :
          (i : ℕ)
          → i < 64
          → Agrees (record { value = bit_and lo (not64 (mask_of lo hi)); mask = mask_of lo hi }) x i
      agrees i l = elim (dec_lt i b) [
        | yes low ↦
            unfold mask_of in
            omega (
              arith,
              low_mask-bit b i low,
              bit-le-one i x,
              bit_masked i lo (mask_of lo hi) (mask_of-lt lo hi lo_fits hi_fits) l,
            )
        | no above ↦
            let e : b + (i - b) ≡ i = omega arith in
            omega (
              arith,
              (rw e at (high (i - b))),
              bit-le-one i lo,
              bit-le-one i (mask_of lo hi),
              bit_masked i lo (mask_of lo hi) (mask_of-lt lo hi lo_fits hi_fits) l,
            )
      ]
