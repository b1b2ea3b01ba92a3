-- ===== src/Tnum/Arith.antt =====
-- Addition and subtraction of src/tnum.rs. Whatever the unknown bits are, the carries of a sum lie
-- between those of the least and of the greatest sum, so a bit where these agree is known.
use native.Mathlib.Decide.{dec_lt}
use rand_verifier.Prelude.{
  ℕ, ◌+◌, ◌%◌, ◌^◌, ◌<◌, bit_and, bit_or, bit_xor, ◌≡◌, arith, ap, sym, ◌∙◌,
}
use rand_verifier.Word.{not64, wrapping_add, wrapping_sub}
use rand_verifier.Word.Bits.{
  bit, bit-le-one, bit-bit_or, bit-bit_xor, bit_and-lt, bit_or-lt, bit_xor-lt, bit-mod, bit_above,
  bit-add_disjoint, Between, sum_sandwich,
}
use rand_verifier.Tnum.{Tnum, add, sub}
use rand_verifier.Tnum.Members.{
  Contains, IsNormal, Contains-Between, Contains-of_bits, IsNormal-bit, IsNormal-of_bits, bit-not64,
  bit_masked, value-mask-lt, Agrees-of_known,
}

-- The mask of both operators: the bits where the bounds differ, and the unknown bits.
abbrev spread_mask : ℕ → ℕ → ℕ → ℕ → ℕ
spread_mask h l m n = bit_or (bit_or (bit_xor h l) m) n

spread_mask-lt :
    (h l m n : ℕ) → h < 2 ^ 64 → l < 2 ^ 64 → m < 2 ^ 64 → n < 2 ^ 64 → spread_mask h l m n < 2 ^ 64
spread_mask-lt h l m n p q r s = bit_or-lt 64 _ _ (bit_or-lt 64 _ _ (bit_xor-lt 64 _ _ p q) r) s

spread_mask-bit :
    (i h l m n : ℕ)
    → bit i (spread_mask h l m n) ≡ 0
    → (bit i h ≡ bit i l) × (bit i m ≡ 0) × (bit i n ≡ 0)
spread_mask-bit i h l m n e = omega (
  arith,
  bit-bit_or i (bit_or (bit_xor h l) m) n,
  bit-bit_or i (bit_xor h l) m,
  bit-bit_xor i h l,
  bit-le-one i h,
  bit-le-one i l,
)

-- A value with the bits of a mask cleared, beside that mask.
masked-IsNormal :
    (v m : ℕ)
    → v < 2 ^ 64
    → m < 2 ^ 64
    → IsNormal (record { value = bit_and v (not64 m); mask = m })
masked-IsNormal v m p q =
    IsNormal-of_bits _ (bit_and-lt 64 _ _ p) q
      (λ i l. omega (arith, bit_masked i v m q l, bit-le-one i m))

masked-Contains :
    (v m x : ℕ)
    → v < 2 ^ 64
    → m < 2 ^ 64
    → x < 2 ^ 64
    → ((i : ℕ) → i < 64 → bit i m ≡ 0 → bit i x ≡ bit i v)
    → Contains (record { value = bit_and v (not64 m); mask = m }) x
masked-Contains v m x p q r h = Contains-of_bits _ x (masked-IsNormal v m p q) r (λ i l.
    Agrees-of_known _ x i (λ e. omega (arith, h i l e, bit_masked i v m q l, bit-le-one i v)))

-- The bits of a sum that wraps.
wrapped-bit :
    (i u v c : ℕ) {n : ℕ} → i < 64 → n ≡ (u + v + c) % 2 ^ 64 → bit i n ≡ bit i (u + v + c)
wrapped-bit i u v c l e = ap (bit i) e ∙ bit-mod 64 i (u + v + c) l

value-Between : {t : Tnum} → IsNormal t → Between t.value t.value (t.value + t.mask)
value-Between {t} n i = omega (arith, bit-add_disjoint i t.value t.mask (IsNormal-bit n))

unmasked-bit :
    {t : Tnum} → IsNormal t → (i : ℕ) → bit i t.mask ≡ 0 → bit i t.value ≡ bit i (t.value + t.mask)
unmasked-bit {t} n i e = omega (arith, bit-add_disjoint i t.value t.mask (IsNormal-bit n))

-- A difference is a sum with the complement and a carry into the lowest bit. Complements lie
-- between the complements of the bounds.
not64-Between :
    {t : Tnum} {x : ℕ}
    → IsNormal t
    → x < 2 ^ 64
    → Between t.value x (t.value + t.mask)
    → Between (not64 (t.value + t.mask)) (not64 x) (not64 t.value)
not64-Between {t} {x} n fits h i = elim (dec_lt i 64) [
  | yes lt ↦ omega (
    arith,
    bit-not64 i (t.value + t.mask) (value-mask-lt n) lt,
    bit-not64 i t.value n.value_fits lt,
    bit-not64 i x fits lt,
    h i,
  )
  | no ge ↦ omega (
    arith,
    bit_above 64 i (not64 (t.value + t.mask)) (omega arith) (omega arith),
    bit_above 64 i (not64 t.value) (omega arith) (omega arith),
    bit_above 64 i (not64 x) (omega arith) (omega arith),
  )
]

not64-unmasked :
    {t : Tnum}
    → IsNormal t
    → (i : ℕ) → i < 64
    → bit i t.mask ≡ 0
    → bit i (not64 (t.value + t.mask)) ≡ bit i (not64 t.value)
not64-unmasked {t} n i l e = omega (
  arith,
  bit-not64 i (t.value + t.mask) (value-mask-lt n) l,
  bit-not64 i t.value n.value_fits l,
  unmasked-bit n i e,
)

module _ (a b : Tnum) (na : IsNormal a) (nb : IsNormal b) where
  pub add-IsNormal : IsNormal (add a b)
  unfolding add
  add-IsNormal =
      masked-IsNormal _ _ (omega arith)
        (spread_mask-lt _ _ _ _ (omega arith) (omega arith) na.mask_fits nb.mask_fits)

  -- For tracked numbers with disjoint u64 fields, the sum contains the wrapped sum of any two
  -- members.
  pub add-Contains : (x y : ℕ) → Contains a x → Contains b y → Contains (add a b) (wrapping_add x y)
  unfolding add
  add-Contains x y cx cy =
      masked-Contains _ _ _ (omega arith)
        (spread_mask-lt _ _ _ _ (omega arith) (omega arith) na.mask_fits nb.mask_fits) (omega arith)
        known
    where
      known :
          (i : ℕ)
          → i < 64
          → bit i (add a b).mask ≡ 0
          → bit i (wrapping_add x y) ≡ bit i (wrapping_add a.value b.value)
      known i l e =
          let (same, ma, mb) = spread_mask-bit i _ _ _ _ e in
          wrapped-bit i x y 0 l (omega arith)
          ∙ sum_sandwich i a.value x a.value (a.value + a.mask) b.value y b.value (b.value + b.mask)
              0 0 0 0 (Contains-Between na cx) (value-Between na) (Contains-Between nb cy)
              (value-Between nb) (omega arith) (unmasked-bit na i ma) (unmasked-bit nb i mb)
              (sym (wrapped-bit i a.value b.value 0 l (omega arith))
                ∙ sym same
                ∙ wrapped-bit i (a.value + a.mask) (b.value + b.mask) 0 l (omega arith))
          ∙ sym (wrapped-bit i a.value b.value 0 l (omega arith))

  pub sub-IsNormal : IsNormal (sub a b)
  unfolding sub
  sub-IsNormal =
      masked-IsNormal _ _ (omega arith)
        (spread_mask-lt _ _ _ _ (omega arith) (omega arith) na.mask_fits nb.mask_fits)

  -- For tracked numbers with disjoint u64 fields, the difference contains the wrapped difference
  -- of any two members.
  pub sub-Contains : (x y : ℕ) → Contains a x → Contains b y → Contains (sub a b) (wrapping_sub x y)
  unfolding sub
  sub-Contains x y cx cy =
      masked-Contains _ _ _ (omega arith)
        (spread_mask-lt _ _ _ _ (omega arith) (omega arith) na.mask_fits nb.mask_fits) (omega arith)
        known
    where
      known :
          (i : ℕ)
          → i < 64
          → bit i (sub a b).mask ≡ 0
          → bit i (wrapping_sub x y) ≡ bit i (wrapping_sub a.value b.value)
      known i l e =
          let (same, ma, mb) = spread_mask-bit i _ _ _ _ e in
          wrapped-bit i x (not64 y) 1 l (omega (arith, cy.fits))
          ∙ sum_sandwich i a.value x a.value (a.value + a.mask) (not64 (b.value + b.mask)) (not64 y)
              (not64 b.value) (not64 b.value) 1 1 1 1 (Contains-Between na cx) (value-Between na)
              (not64-Between nb cy.fits (Contains-Between nb cy))
              (not64-Between nb nb.value_fits (value-Between nb)) (omega arith)
              (unmasked-bit na i ma) (not64-unmasked nb i l mb)
              (sym (
                  wrapped-bit i a.value (not64 (b.value + b.mask)) 1 l
                    (omega (arith, value-mask-lt nb)))
                ∙ sym same
                ∙ wrapped-bit i (a.value + a.mask) (not64 b.value) 1 l
                    (omega (arith, nb.value_fits)))
          ∙ sym (wrapped-bit i a.value (not64 b.value) 1 l (omega (arith, nb.value_fits)))
