-- ===== src/Tnum/Members.antt =====
-- The numbers that a tracked number stands for (`concretize` of src/smt/tnum.rs and the membership
-- test of src/smt/verify.rs), and what membership says of each bit.
use rand_verifier.Prelude.{
  ℕ, ◌+◌, ◌-◌, ◌^◌, ◌≤◌, ◌<◌, min, bit_and, ◌≡◌, arith, ap, Bool, true, ◌==◌, ==_iff,
}
use native.Mathlib.Decide.{dec_lt}
use rand_verifier.Word.{not64}
use rand_verifier.Word.Bits.{
  bit, bit-le-one, bit-bit_and, bit_ext, bit_above, bit-complement, bit-zero, bit_and-lt,
  le_of_bits, Between, bit-add_disjoint,
}
use rand_verifier.Tnum.{Tnum}

-- `(x & !mask) == (value & !mask)`.
unfoldable pub contains : Tnum → ℕ → Bool
contains t x = bit_and x (not64 t.mask) == bit_and t.value (not64 t.mask)

-- `x` is a `u64` that `t` stands for.
pub record Contains (t : Tnum) (x : ℕ) : Type 0 where
  pub fits : x < 2 ^ 64
  pub member : contains t x ≡ true

-- Both fields are `u64`, and no bit is both known to be 1 and unknown.
pub record IsNormal (t : Tnum) : Type 0 where
  pub value_fits : t.value < 2 ^ 64
  pub mask_fits : t.mask < 2 ^ 64
  pub disjoint : bit_and t.value t.mask ≡ 0

-- A complement's bits, below 64.
pub bit-not64 : (i x : ℕ) → x < 2 ^ 64 → i < 64 → bit i (not64 x) ≡ 1 - bit i x
bit-not64 i x p h = bit-complement 64 i x p h

pub bit_masked :
    (i x m : ℕ) → m < 2 ^ 64 → i < 64 → bit i (bit_and x (not64 m)) ≡ min (bit i x) (1 - bit i m)
bit_masked i x m p h = omega (arith, bit-bit_and i x (not64 m), bit-not64 i m p h)

-- Bit `i` of `x` is that of the value, or is unknown.
abbrev pub Agrees : Tnum → ℕ → ℕ → Type 0
Agrees t x i = (bit i x ≤ bit i t.value + bit i t.mask) × (bit i t.value ≤ bit i x + bit i t.mask)

pub Contains-Agrees : {t : Tnum} {x : ℕ} → IsNormal t → Contains t x → (i : ℕ) → Agrees t x i
unfolding contains
Contains-Agrees {t} {x} n c i = elim (dec_lt i 64) [
  | yes lt ↦ omega (
    arith,
    bit_masked i x t.mask n.mask_fits lt,
    bit_masked i t.value t.mask n.mask_fits lt,
    ap (bit i) ((==_iff _ _).0 c.member),
    bit-le-one i x,
    bit-le-one i t.value,
  )
  | no ge ↦ omega (
    arith,
    bit_above 64 i x c.fits (omega arith),
    bit_above 64 i t.value n.value_fits (omega arith),
  )
]

pub Contains-of_bits :
    (t : Tnum) (x : ℕ) → IsNormal t → x < 2 ^ 64 → ((i : ℕ) → i < 64 → Agrees t x i) → Contains t x
unfolding contains
Contains-of_bits t x n p h = record {
  fits = p;
  member = (==_iff _ _).1 (
      bit_ext 64 _ _ (bit_and-lt 64 x _ p) (bit_and-lt 64 t.value _ n.value_fits) λ i l. omega (
        arith,
        bit_masked i x t.mask n.mask_fits l,
        bit_masked i t.value t.mask n.mask_fits l,
        h i l,
        bit-le-one i t.mask,
        bit-le-one i x,
        bit-le-one i t.value,
      ));
}

pub IsNormal-bit : {t : Tnum} → IsNormal t → (i : ℕ) → bit i t.value + bit i t.mask ≤ 1
IsNormal-bit {t} n i = omega (
  arith,
  bit-bit_and i t.value t.mask,
  ap (bit i) n.disjoint,
  bit-zero i,
  bit-le-one i t.value,
  bit-le-one i t.mask,
)

pub IsNormal-of_bits :
    (t : Tnum)
    → t.value < 2 ^ 64
    → t.mask < 2 ^ 64
    → ((i : ℕ) → i < 64 → bit i t.value + bit i t.mask ≤ 1)
    → IsNormal t
IsNormal-of_bits t p q h = record {
  value_fits = p;
  mask_fits = q;
  disjoint =
      bit_ext 64 _ 0 (bit_and-lt 64 t.value t.mask p) (omega arith)
        λ i l. omega (arith, bit-bit_and i t.value t.mask, bit-zero i, h i l);
}

-- A member lies bitwise between the value and the value with every unknown bit set.
pub Contains-Between :
    {t : Tnum} {x : ℕ} → IsNormal t → Contains t x → Between t.value x (t.value + t.mask)
Contains-Between {t} {x} n c i = omega (
  arith,
  bit-add_disjoint i t.value t.mask (IsNormal-bit n),
  IsNormal-bit n i,
  Contains-Agrees n c i,
  bit-le-one i x,
  bit-le-one i t.mask,
)

-- The value with every unknown bit set is a `u64` too.
pub value-mask-lt : {t : Tnum} → IsNormal t → t.value + t.mask < 2 ^ 64
value-mask-lt {t} n =
    omega (arith, n.value_fits, le_of_bits 64 t.mask (not64 t.value) n.mask_fits unset)
  where
    unset : (i : ℕ) → bit i t.mask ≤ bit i (not64 t.value)
    unset i = elim (dec_lt i 64) [
      | yes lt ↦ omega (arith, bit-not64 i t.value n.value_fits lt, IsNormal-bit n i)
      | no ge ↦ omega (arith, bit_above 64 i t.mask n.mask_fits (omega arith))
    ]

pub Agrees-of_known :
    (t : Tnum) (x i : ℕ) → (bit i t.mask ≡ 0 → bit i x ≡ bit i t.value) → Agrees t x i
Agrees-of_known t x i h = elim (dec_lt 0 (bit i t.mask)) [
  | yes unknown ↦ omega (arith, bit-le-one i x, bit-le-one i t.value)
  | no known ↦ omega (arith, h (omega arith))
]
