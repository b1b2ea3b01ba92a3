-- ===== src/Tnum/Shift.antt =====
-- The shifts and the truncation of src/tnum.rs. The concrete shifts are Rust's, saturated from 64 on
-- as the code does it.
use native.Mathlib.Decide.{dec_lt}
use native.Mathlib.Nat.{div-le_self}
use rand_verifier.Prelude.{
  ℕ, ◌+◌, ◌-◌, ◌*◌, ◌/◌, ◌%◌, ◌^◌, ◌≤◌, ◌<◌, min, ◌≡◌, arith, ap, sym, ◌∙◌, true, inl, inr,
  Bool-cases, lt→ltb, le→ltb, leb, leb→le, leb-false→lt,
}
use rand_verifier.Word.{not64, shl_or_zero, shr_or_zero, sar_or_sign}
use rand_verifier.Word.Bits.{
  bit, bit-le-one, bit-mod, bit_above, bit-shl_above, bit-shl_below, bit-shr, bit-zero, bit_top,
}
use rand_verifier.Tnum.{Tnum, lshift, rshift, arshift, subreg}
use rand_verifier.Tnum.Members.{
  Contains, IsNormal, Agrees, Contains-Agrees, Contains-of_bits, IsNormal-bit, IsNormal-of_bits,
  bit-not64,
}

-- Bit `i` of a left shift is 0 below `k`, and bit `i - k` from there on.
shl-bit_below : (x k i : ℕ) → i < 64 → i < k → bit i (shl_or_zero x k) ≡ 0
unfolding shl_or_zero
shl-bit_below x k i l h = elim (dec_lt k 64) [
  | yes p ↦ rw (lt→ltb k 64 p) (bit-mod 64 i (x * 2 ^ k) l ∙ bit-shl_below k i x h)
  | no p ↦ rw (le→ltb k 64 (omega arith)) (bit-zero i)
]

shl-bit_above : (x k i : ℕ) → i < 64 → k ≤ i → bit i (shl_or_zero x k) ≡ bit (i - k) x
unfolding shl_or_zero
shl-bit_above x k i l h =
    rw (lt→ltb k 64 (omega arith))
      (bit-mod 64 i (x * 2 ^ k) l ∙ ap (λ j. bit j (x * 2 ^ k)) split ∙ bit-shl_above k (i - k) x)
  where
    split : i ≡ k + (i - k)
    split = omega arith

shl_or_zero-lt : (x k : ℕ) → shl_or_zero x k < 2 ^ 64
unfolding shl_or_zero
shl_or_zero-lt x k = ground arith

shr-bit : (x k i : ℕ) → x < 2 ^ 64 → bit i (shr_or_zero x k) ≡ bit (k + i) x
unfolding shr_or_zero
shr-bit x k i p = elim (dec_lt k 64) [
  | yes h ↦ rw (lt→ltb k 64 h) (bit-shr k i x)
  | no h ↦
      rw (le→ltb k 64 (omega arith)) (bit-zero i ∙ sym (bit_above 64 (k + i) x p (omega arith)))
]

shr_or_zero-lt : (x k : ℕ) → x < 2 ^ 64 → shr_or_zero x k < 2 ^ 64
unfolding shr_or_zero
shr_or_zero-lt x k p = ground (arith, div-le_self x (2 ^ k))

-- The sign bit of a word, repeated above: what an arithmetic shift reads at `j`.
negative-bit :
    (x j : ℕ) → x < 2 ^ 64 → leb (2 ^ 63) x ≡ true → bit (min j 63) x ≡ 1 - bit j (not64 x)
negative-bit x j p h = elim (dec_lt j 64) [
  | yes l ↦
      let e : min j 63 ≡ j = omega arith in rw e (omega (arith, bit-not64 j x p l, bit-le-one j x))
  | no l ↦
      let e : min j 63 ≡ 63 = omega arith in
      rw e (
        omega (
          arith,
          bit_top 63 x,
          leb→le (2 ^ 63) x h,
          bit_above 64 j (not64 x) (omega arith) (omega arith),
        ))
]

nonnegative-bit : (x j : ℕ) → x < 2 ^ 63 → bit (min j 63) x ≡ bit j x
nonnegative-bit x j h = elim (dec_lt j 64) [
  | yes l ↦ let e : min j 63 ≡ j = omega arith in rw e
  | no l ↦
      let e : min j 63 ≡ 63 = omega arith in
      rw e (omega (arith, bit_top 63 x, bit_above 64 j x (omega arith) (omega arith)))
]

-- An arithmetic shift repeats the sign bit.
sar-bit : (x k i : ℕ) → x < 2 ^ 64 → i < 64 → bit i (sar_or_sign x k) ≡ bit (min (k + i) 63) x
unfolding sar_or_sign
sar-bit x k i p l = elim (Bool-cases (leb (2 ^ 63) x)) [
  | inl neg ↦ elim (dec_lt k 64) [
    | yes h ↦
        rw (lt→ltb k 64 h, neg)
          (omega (
            arith,
            bit-not64 i (not64 x / 2 ^ k) (omega (arith, div-le_self (not64 x) (2 ^ k))) l,
            bit-shr k i (not64 x),
            negative-bit x (k + i) p neg,
          ))
    | no h ↦
        rw (le→ltb k 64 (omega arith), neg)
          (omega (
            arith,
            bit-not64 i 0 (omega arith) l,
            bit-zero i,
            negative-bit x (k + i) p neg,
            bit_above 64 (k + i) (not64 x) (omega arith) (omega arith),
          ))
  ]
  | inr pos ↦
      let small = leb-false→lt (2 ^ 63) x pos in
      elim (dec_lt k 64) [
        | yes h ↦ rw (lt→ltb k 64 h, pos) (bit-shr k i x ∙ sym (nonnegative-bit x (k + i) small))
        | no h ↦
            rw (le→ltb k 64 (omega arith), pos)
              (omega (
                arith,
                bit-zero i,
                nonnegative-bit x (k + i) small,
                bit_above 64 (k + i) x p (omega arith),
              ))
      ]
]

sar_or_sign-lt : (x k : ℕ) → x < 2 ^ 64 → sar_or_sign x k < 2 ^ 64
unfolding sar_or_sign
sar_or_sign-lt x k p = ground (arith, div-le_self x (2 ^ k))

module _ (t : Tnum) (n : IsNormal t) (k : ℕ) where
  pub lshift-IsNormal : IsNormal (lshift t k)
  unfolding lshift
  lshift-IsNormal = IsNormal-of_bits _ (shl_or_zero-lt _ _) (shl_or_zero-lt _ _) disjoint
    where
      disjoint : (i : ℕ) → i < 64 → bit i (shl_or_zero t.value k) + bit i (shl_or_zero t.mask k) ≤ 1
      disjoint i l = elim (dec_lt i k) [
        | yes h ↦ omega (arith, shl-bit_below t.value k i l h, shl-bit_below t.mask k i l h)
        | no h ↦ omega (
          arith,
          shl-bit_above t.value k i l (omega arith),
          shl-bit_above t.mask k i l (omega arith),
          IsNormal-bit n (i - k),
        )
      ]

  -- For tracked numbers with disjoint u64 fields: the tracked left shift contains the shifted
  -- members.
  pub lshift-Contains : (x : ℕ) → Contains t x → Contains (lshift t k) (shl_or_zero x k)
  lshift-Contains x c = Contains-of_bits _ _ lshift-IsNormal (shl_or_zero-lt _ _) agrees
    where
      agrees : (i : ℕ) → i < 64 → Agrees (lshift t k) (shl_or_zero x k) i
      agrees i l =
          unfold lshift in
          elim (dec_lt i k) [
            | yes h ↦ omega (arith, shl-bit_below x k i l h, shl-bit_below t.value k i l h)
            | no h ↦ omega (
              arith,
              shl-bit_above x k i l (omega arith),
              shl-bit_above t.value k i l (omega arith),
              shl-bit_above t.mask k i l (omega arith),
              Contains-Agrees n c (i - k),
            )
          ]

  pub rshift-IsNormal : IsNormal (rshift t k)
  unfolding rshift
  rshift-IsNormal =
      IsNormal-of_bits _ (shr_or_zero-lt _ _ n.value_fits) (shr_or_zero-lt _ _ n.mask_fits) (λ i l.
        omega (
          arith,
          shr-bit t.value k i n.value_fits,
          shr-bit t.mask k i n.mask_fits,
          IsNormal-bit n (k + i),
        ))

  -- For tracked numbers with disjoint u64 fields: the tracked right shift contains the shifted
  -- members.
  pub rshift-Contains : (x : ℕ) → Contains t x → Contains (rshift t k) (shr_or_zero x k)
  unfolding rshift
  rshift-Contains x c = Contains-of_bits _ _ rshift-IsNormal (shr_or_zero-lt _ _ c.fits) (λ i l.
      omega (
        arith,
        shr-bit x k i c.fits,
        shr-bit t.value k i n.value_fits,
        shr-bit t.mask k i n.mask_fits,
        Contains-Agrees n c (k + i),
      ))

  pub arshift-IsNormal : IsNormal (arshift t k)
  unfolding arshift
  arshift-IsNormal =
      IsNormal-of_bits _ (sar_or_sign-lt _ _ n.value_fits) (sar_or_sign-lt _ _ n.mask_fits) (λ i l.
        omega (
          arith,
          sar-bit t.value k i n.value_fits l,
          sar-bit t.mask k i n.mask_fits l,
          IsNormal-bit n (min (k + i) 63),
        ))

  -- For tracked numbers with disjoint u64 fields: the tracked arithmetic shift contains the
  -- shifted members.
  pub arshift-Contains : (x : ℕ) → Contains t x → Contains (arshift t k) (sar_or_sign x k)
  unfolding arshift
  arshift-Contains x c = Contains-of_bits _ _ arshift-IsNormal (sar_or_sign-lt _ _ c.fits) (λ i l.
      omega (
        arith,
        sar-bit x k i c.fits l,
        sar-bit t.value k i n.value_fits l,
        sar-bit t.mask k i n.mask_fits l,
        Contains-Agrees n c (min (k + i) 63),
      ))

-- The truncation of a member is a member of the truncated tracked number.
low32-bit_below : (x i : ℕ) → i < 32 → bit i (x % 2 ^ 32) ≡ bit i x
low32-bit_below x i h = bit-mod 32 i x h

low32-bit_above : (x i : ℕ) → 32 ≤ i → bit i (x % 2 ^ 32) ≡ 0
low32-bit_above x i h = bit_above 32 i (x % 2 ^ 32) (omega arith) h

module _ (t : Tnum) (n : IsNormal t) where
  pub subreg-IsNormal : IsNormal (subreg t)
  unfolding subreg
  subreg-IsNormal = IsNormal-of_bits _ (omega arith) (omega arith) λ i l. elim (dec_lt i 32) [
    | yes h ↦
        omega (arith, low32-bit_below t.value i h, low32-bit_below t.mask i h, IsNormal-bit n i)
    | no h ↦
        omega
          (arith, low32-bit_above t.value i (omega arith), low32-bit_above t.mask i (omega arith))
  ]

  -- For tracked numbers with disjoint u64 fields: the low half of a tracked number contains the
  -- members' low halves.
  pub subreg-Contains : (x : ℕ) → Contains t x → Contains (subreg t) (x % 2 ^ 32)
  unfolding subreg
  subreg-Contains x c = Contains-of_bits _ _ subreg-IsNormal (omega arith) λ i l.
      elim (dec_lt i 32) [
        | yes h ↦ omega (
          arith,
          low32-bit_below x i h,
          low32-bit_below t.value i h,
          low32-bit_below t.mask i h,
          Contains-Agrees n c i,
        )
        | no h ↦
            omega
              (arith, low32-bit_above x i (omega arith), low32-bit_above t.value i (omega arith))
      ]
