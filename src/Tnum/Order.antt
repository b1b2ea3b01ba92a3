-- ===== src/Tnum/Order.antt =====
-- `subsumes` of src/tnum.rs decides inclusion of the sets of members.
use rand_verifier.Prelude.{ℕ, ◌+◌, ◌≤◌, ◌<◌, bit_and, ◌≡◌, arith, ap, true, ◌↔◌}
use rand_verifier.Word.{not64}
use rand_verifier.Word.Bits.{bit, bit-le-one, bit-zero, bit_ext, bit_and-lt, bit-add_disjoint}
use rand_verifier.Tnum.{Tnum, subsumes}
use rand_verifier.Tnum.Members.{
  Contains, IsNormal, Contains-Agrees, Contains-of_bits, IsNormal-bit, bit_masked, value-mask-lt,
}

-- The least and the greatest member.
pub value-Contains : (t : Tnum) → IsNormal t → Contains t t.value
value-Contains t n = Contains-of_bits t t.value n n.value_fits (λ i l. omega arith)

pub value-mask-Contains : (t : Tnum) → IsNormal t → Contains t (t.value + t.mask)
value-mask-Contains t n =
    Contains-of_bits t _ n (value-mask-lt n)
      (λ i l. omega (arith, bit-add_disjoint i t.value t.mask (IsNormal-bit n)))

-- What `subsumes` tests, at one bit.
abbrev Refines : Tnum → Tnum → ℕ → Type 0
Refines a b i =
    (bit i b.mask ≤ bit i a.mask)
    × (bit i b.value ≤ bit i a.value + bit i a.mask)
    × (bit i a.value ≤ bit i b.value + bit i a.mask)

module _ (a b : Tnum) (na : IsNormal a) (nb : IsNormal b) where
  subsumes-Refines : subsumes a b ≡ true → (i : ℕ) → i < 64 → Refines a b i
  unfolding subsumes
  subsumes-Refines h i l = omega (
    arith,
    tests.0,
    ap (bit i) tests.1,
    ap (bit i) tests.0,
    bit-zero i,
    bit_masked i b.mask a.mask na.mask_fits l,
    bit_masked i b.value a.mask na.mask_fits l,
    bit_masked i a.value a.mask na.mask_fits l,
    bit-le-one i a.mask,
    bit-le-one i b.mask,
    bit-le-one i a.value,
    bit-le-one i b.value,
  )
    where
      tests :
          (bit_and b.mask (not64 a.mask) ≡ 0)
          × (bit_and b.value (not64 a.mask) ≡ bit_and a.value (not64 a.mask))
      tests = ground arith

  Refines-subsumes : ((i : ℕ) → i < 64 → Refines a b i) → subsumes a b ≡ true
  unfolding subsumes
  Refines-subsumes h = ground (arith, no_new_mask, same_value)
    where
      no_new_mask : bit_and b.mask (not64 a.mask) ≡ 0
      no_new_mask = bit_ext 64 _ 0 (bit_and-lt 64 _ _ nb.mask_fits) (omega arith) λ i l.
          omega (
            arith,
            h i l,
            bit-zero i,
            bit_masked i b.mask a.mask na.mask_fits l,
            bit-le-one i a.mask,
          )

      same_value : bit_and b.value (not64 a.mask) ≡ bit_and a.value (not64 a.mask)
      same_value =
          bit_ext 64 _ _ (bit_and-lt 64 _ _ nb.value_fits) (bit_and-lt 64 _ _ na.value_fits) λ i l.
            omega (
              arith,
              h i l,
              bit_masked i b.value a.mask na.mask_fits l,
              bit_masked i a.value a.mask na.mask_fits l,
              bit-le-one i a.mask,
              bit-le-one i b.value,
              bit-le-one i a.value,
            )

  -- For tracked numbers with disjoint u64 fields, subsumes accepts exactly where every member of
  -- the second is one of the first.
  pub subsumes_iff : (subsumes a b ≡ true) ↔ ((x : ℕ) → Contains b x → Contains a x)
  subsumes_iff = (inclusion, test)
    where
      inclusion : subsumes a b ≡ true → (x : ℕ) → Contains b x → Contains a x
      inclusion h x c = Contains-of_bits a x na c.fits λ i l. omega (
        arith,
        subsumes-Refines h i l,
        Contains-Agrees nb c i,
        bit-le-one i x,
        bit-le-one i a.value,
      )

      test : ((x : ℕ) → Contains b x → Contains a x) → subsumes a b ≡ true
      test h = Refines-subsumes λ i l. omega (
        arith,
        Contains-Agrees na (h b.value (value-Contains b nb)) i,
        Contains-Agrees na (h (b.value + b.mask) (value-mask-Contains b nb)) i,
        bit-add_disjoint i b.value b.mask (IsNormal-bit nb),
        IsNormal-bit na i,
        IsNormal-bit nb i,
      )
