-- ===== src/Tnum/Bitwise.antt =====
-- The bitwise operators of src/tnum.rs, bit by bit: they keep tracked numbers normal, and their
-- results stand for every result of the operation on members.
use rand_verifier.Prelude.{
  ℕ, ◌+◌, ◌-◌, ◌%◌, ◌^◌, ◌<◌, min, max, bit_and, bit_or, bit_xor, ◌≡◌, arith,
}
use rand_verifier.Word.{not64}
use rand_verifier.Word.Bits.{
  bit, bit-le-one, bit-bit_and, bit-bit_or, bit-bit_xor, bit_and-lt, bit_or-lt, bit_xor-lt,
}
use rand_verifier.Tnum.{Tnum, known_ones, and, or, xor, union, intersect}
use rand_verifier.Tnum.Members.{
  Contains, IsNormal, Contains-Agrees, Contains-of_bits, IsNormal-bit, IsNormal-of_bits, bit-not64,
  bit_masked,
}

not64-lt : (x : ℕ) → not64 x < 2 ^ 64
not64-lt x = omega arith

known_ones-bit : {t : Tnum} → IsNormal t → (i : ℕ) → i < 64 → bit i (known_ones t) ≡ bit i t.value
unfolding known_ones
known_ones-bit {t} n i l =
    omega (arith, bit_masked i t.value t.mask n.mask_fits l, IsNormal-bit n i, bit-le-one i t.value)

-- The bits that are known to be 0.
abbrev known_zeros : Tnum → ℕ
known_zeros t = bit_and (not64 t.value) (not64 t.mask)

known_zeros-bit :
    {t : Tnum}
    → IsNormal t
    → (i : ℕ) → i < 64
    → bit i (known_zeros t) ≡ 1 - (bit i t.value + bit i t.mask)
known_zeros-bit {t} n i l = omega (
  arith,
  bit_masked i (not64 t.value) t.mask n.mask_fits l,
  bit-not64 i t.value n.value_fits l,
  IsNormal-bit n i,
)

module _ (a b : Tnum) (na : IsNormal a) (nb : IsNormal b) where
  -- The bits of each result.
  and-bits :
      (i : ℕ)
      → (bit i (and a b).value ≡ min (bit i a.value) (bit i b.value))
        × (bit i (and a b).mask
            ≡ min (bit i a.value + bit i a.mask) (bit i b.value + bit i b.mask)
              - min (bit i a.value) (bit i b.value))
  unfolding and
  and-bits i = (
    bit-bit_and i a.value b.value,
    omega (
      arith,
      bit-bit_xor i (bit_and (bit_or a.value a.mask) (bit_or b.value b.mask))
          (bit_and a.value b.value),
      bit-bit_and i (bit_or a.value a.mask) (bit_or b.value b.mask),
      bit-bit_and i a.value b.value,
      bit-bit_or i a.value a.mask,
      bit-bit_or i b.value b.mask,
      IsNormal-bit na i,
      IsNormal-bit nb i,
    ),
  )

  pub and-IsNormal : IsNormal (and a b)
  and-IsNormal =
      IsNormal-of_bits _ (unfold and in bit_and-lt 64 _ _ na.value_fits)
        (unfold and in
          bit_xor-lt 64 _ _ (bit_and-lt 64 _ _ (bit_or-lt 64 _ _ na.value_fits na.mask_fits))
            (bit_and-lt 64 _ _ na.value_fits))
        (λ i l. omega (arith, and-bits i, IsNormal-bit na i, IsNormal-bit nb i))

  -- For tracked numbers with disjoint u64 fields: the tracked conjunction contains the conjunction
  -- of any two members.
  pub and-Contains : (x y : ℕ) → Contains a x → Contains b y → Contains (and a b) (bit_and x y)
  and-Contains x y cx cy = Contains-of_bits _ _ and-IsNormal (bit_and-lt 64 x y cx.fits) (λ i l.
      omega (
        arith,
        and-bits i,
        IsNormal-bit na i,
        IsNormal-bit nb i,
        bit-bit_and i x y,
        Contains-Agrees na cx i,
        Contains-Agrees nb cy i,
        bit-le-one i x,
        bit-le-one i y,
      ))

  xor-bits :
      (i : ℕ)
      → i < 64
      → (bit i (xor a b).mask ≡ max (bit i a.mask) (bit i b.mask))
        × (bit i (xor a b).value
            ≡ min ((bit i a.value + bit i b.value) % 2) (1 - max (bit i a.mask) (bit i b.mask)))
  unfolding xor
  xor-bits i l = (
    bit-bit_or i a.mask b.mask,
    omega (
      arith,
      bit_masked i (bit_xor a.value b.value) (bit_or a.mask b.mask)
          (bit_or-lt 64 _ _ na.mask_fits nb.mask_fits) l,
      bit-bit_xor i a.value b.value,
      bit-bit_or i a.mask b.mask,
    ),
  )

  pub xor-IsNormal : IsNormal (xor a b)
  xor-IsNormal =
      IsNormal-of_bits _
        (unfold xor in bit_and-lt 64 _ _ (bit_xor-lt 64 _ _ na.value_fits nb.value_fits))
        (unfold xor in bit_or-lt 64 _ _ na.mask_fits nb.mask_fits)
        (λ i l. omega (arith, xor-bits i l, bit-le-one i a.mask, bit-le-one i b.mask))

  -- For tracked numbers with disjoint u64 fields: the tracked exclusive disjunction contains that
  -- of any two members.
  pub xor-Contains : (x y : ℕ) → Contains a x → Contains b y → Contains (xor a b) (bit_xor x y)
  xor-Contains x y cx cy =
      Contains-of_bits _ _ xor-IsNormal (bit_xor-lt 64 x y cx.fits cy.fits) (λ i l. omega (
        arith,
        xor-bits i l,
        bit-bit_xor i x y,
        Contains-Agrees na cx i,
        Contains-Agrees nb cy i,
        bit-le-one i x,
        bit-le-one i y,
        IsNormal-bit na i,
        IsNormal-bit nb i,
      ))

  or-bits :
      (i : ℕ)
      → i < 64
      → (bit i (or a b).value ≡ max (bit i a.value) (bit i b.value))
        × (bit i (or a b).mask
            ≡ max (bit i a.value + bit i a.mask) (bit i b.value + bit i b.mask)
              - max (bit i a.value) (bit i b.value))
  unfolding or known_ones
  or-bits i l = (
    omega (
      arith,
      bit-bit_or i (known_ones a) (known_ones b),
      known_ones-bit na i l,
      known_ones-bit nb i l,
    ),
    omega (
      arith,
      bit-not64 i (bit_or known_one known_zero) (bit_or-lt 64 _ _ ones-lt zero-lt) l,
      bit-bit_or i known_one known_zero,
      bit-bit_or i (known_ones a) (known_ones b),
      known_ones-bit na i l,
      known_ones-bit nb i l,
      bit-bit_and i (known_zeros a) (known_zeros b),
      known_zeros-bit na i l,
      known_zeros-bit nb i l,
      IsNormal-bit na i,
      IsNormal-bit nb i,
    ),
  )
    where
      known_one : ℕ
      known_one = bit_or (known_ones a) (known_ones b)

      known_zero : ℕ
      known_zero = bit_and (known_zeros a) (known_zeros b)

      ones-lt : known_one < 2 ^ 64
      ones-lt = bit_or-lt 64 _ _ (bit_and-lt 64 _ _ na.value_fits) (bit_and-lt 64 _ _ nb.value_fits)

      zero-lt : known_zero < 2 ^ 64
      zero-lt = bit_and-lt 64 _ _ (bit_and-lt 64 _ _ (not64-lt _))

  pub or-IsNormal : IsNormal (or a b)
  or-IsNormal =
      IsNormal-of_bits _
        (unfold or known_ones in
          bit_or-lt 64 _ _ (bit_and-lt 64 _ _ na.value_fits) (bit_and-lt 64 _ _ nb.value_fits))
        (unfold or known_ones in not64-lt _)
        (λ i l. omega (arith, or-bits i l, IsNormal-bit na i, IsNormal-bit nb i))

  -- For tracked numbers with disjoint u64 fields: the tracked disjunction contains the disjunction
  -- of any two members.
  pub or-Contains : (x y : ℕ) → Contains a x → Contains b y → Contains (or a b) (bit_or x y)
  or-Contains x y cx cy =
      Contains-of_bits _ _ or-IsNormal (bit_or-lt 64 x y cx.fits cy.fits) (λ i l. omega (
        arith,
        or-bits i l,
        bit-bit_or i x y,
        Contains-Agrees na cx i,
        Contains-Agrees nb cy i,
        bit-le-one i x,
        bit-le-one i y,
        IsNormal-bit na i,
        IsNormal-bit nb i,
      ))

  union-bits :
      (i : ℕ)
      → i < 64
      → (bit i (union a b).mask
          ≡ max (max ((bit i a.value + bit i b.value) % 2) (bit i a.mask)) (bit i b.mask))
        × (bit i (union a b).value
            ≡ min (min (bit i a.value) (bit i b.value)) (1 - bit i (union a b).mask))
  unfolding union
  union-bits i l = (
    omega (
      arith,
      bit-bit_or i (bit_or (bit_xor a.value b.value) a.mask) b.mask,
      bit-bit_or i (bit_xor a.value b.value) a.mask,
      bit-bit_xor i a.value b.value,
    ),
    omega (
      arith,
      bit_masked i (bit_and a.value b.value)
          (bit_or (bit_or (bit_xor a.value b.value) a.mask) b.mask) union_mask-lt l,
      bit-bit_and i a.value b.value,
    ),
  )
    where
      union_mask-lt : bit_or (bit_or (bit_xor a.value b.value) a.mask) b.mask < 2 ^ 64
      union_mask-lt =
          bit_or-lt 64 _ _
            (bit_or-lt 64 _ _ (bit_xor-lt 64 _ _ na.value_fits nb.value_fits) na.mask_fits)
            nb.mask_fits

  pub union-IsNormal : IsNormal (union a b)
  union-IsNormal =
      IsNormal-of_bits _ (unfold union in bit_and-lt 64 _ _ (bit_and-lt 64 _ _ na.value_fits))
        (unfold union in
          bit_or-lt 64 _ _
            (bit_or-lt 64 _ _ (bit_xor-lt 64 _ _ na.value_fits nb.value_fits) na.mask_fits)
            nb.mask_fits)
        (λ i l. omega (arith, union-bits i l, bit-le-one i a.mask, bit-le-one i b.mask))

  -- For tracked numbers with disjoint u64 fields: the union contains the members of its left
  -- operand.
  pub union-left : (x : ℕ) → Contains a x → Contains (union a b) x
  union-left x c = Contains-of_bits _ _ union-IsNormal c.fits (λ i l. omega (
    arith,
    union-bits i l,
    Contains-Agrees na c i,
    bit-le-one i x,
    IsNormal-bit na i,
    IsNormal-bit nb i,
  ))

  -- For tracked numbers whose fields are disjoint: the union contains the members of its right
  -- operand.
  pub union-right : (x : ℕ) → Contains b x → Contains (union a b) x
  union-right x c = Contains-of_bits _ _ union-IsNormal c.fits (λ i l. omega (
    arith,
    union-bits i l,
    Contains-Agrees nb c i,
    bit-le-one i x,
    IsNormal-bit na i,
    IsNormal-bit nb i,
  ))

  intersect-bits :
      (i : ℕ)
      → i < 64
      → (bit i (intersect a b).mask ≡ min (bit i a.mask) (bit i b.mask))
        × (bit i (intersect a b).value
            ≡ min (max (bit i a.value) (bit i b.value)) (1 - bit i (intersect a b).mask))
  unfolding intersect
  intersect-bits i l = (
    bit-bit_and i a.mask b.mask,
    omega (
      arith,
      bit_masked i (bit_or a.value b.value) (bit_and a.mask b.mask) (bit_and-lt 64 _ _ na.mask_fits)
          l,
      bit-bit_or i a.value b.value,
    ),
  )

  pub intersect-IsNormal : IsNormal (intersect a b)
  intersect-IsNormal =
      IsNormal-of_bits _
        (unfold intersect in bit_and-lt 64 _ _ (bit_or-lt 64 _ _ na.value_fits nb.value_fits))
        (unfold intersect in bit_and-lt 64 _ _ na.mask_fits)
        (λ i l. omega (arith, intersect-bits i l, bit-le-one i a.mask, bit-le-one i b.mask))

  -- For tracked numbers with disjoint u64 fields: the intersection contains the common members.
  pub intersect-Contains : (x : ℕ) → Contains a x → Contains b x → Contains (intersect a b) x
  intersect-Contains x ca cb = Contains-of_bits _ _ intersect-IsNormal ca.fits (λ i l. omega (
    arith,
    intersect-bits i l,
    Contains-Agrees na ca i,
    Contains-Agrees nb cb i,
    bit-le-one i x,
    IsNormal-bit na i,
    IsNormal-bit nb i,
  ))
