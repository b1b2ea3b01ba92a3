-- ===== src/State/Signed.antt =====
-- `from_signed` of src/state.rs.
use rand_verifier.Prelude.{ℕ, ◌≡◌, ◌^◌, ◌<◌, ◌&&◌, refl, arith, Bool-cases, inl, inr}
use rand_verifier.Prelude.Int.{ℤ, pos, ◌≤ℤ◌, leb_ℤ, ltb_ℤ}
use rand_verifier.Insn.Fields.{of_bits}
use rand_verifier.Tnum.{unknown}
use rand_verifier.Tnum.Members.{Contains, IsNormal, Contains-of_bits}
use rand_verifier.Word.Bits.{bit-zero, bit-complement, bit-le-one}
use rand_verifier.State.{i64_min, i64_max, unknown_bounds, signed_bounds, from_signed}
use rand_verifier.State.Sync.{Fits, InRanges, InBounds, synced-InBounds}

pub unknown-IsNormal : IsNormal unknown
unfolding unknown
unknown-IsNormal = record { value_fits = omega arith; mask_fits = omega arith; disjoint = refl }

pub unknown-Contains : (x : ℕ) → x < 2 ^ 64 → Contains unknown x
unfolding unknown
unknown-Contains x l =
    Contains-of_bits unknown x unknown-IsNormal l
      (λ i k. omega (arith, bit-complement 64 i 0 (omega arith) k, bit-zero i, bit-le-one i x))

module _ (low high : ℤ) (p : i64_min ≤ℤ low) (q : high ≤ℤ i64_max) where
  signed_bounds-InRanges :
      (x : ℕ)
      → x < 2 ^ 64
      → low ≤ℤ of_bits 64 x
      → of_bits 64 x ≤ℤ high
      → Fits (signed_bounds low high) × InRanges (signed_bounds low high) x
  unfolding signed_bounds unknown_bounds
  signed_bounds-InRanges x l v w = elim (Bool-cases (ltb_ℤ low (pos 0) && leb_ℤ (pos 0) high)) [
    | inl e ↦ rw (signed_bounds, e) (ground arith, ground arith)
    | inr e ↦ rw (signed_bounds, e) (ground arith, ground arith)
  ]

  signed_bounds-tnum : (signed_bounds low high).tnum ≡ unknown
  unfolding signed_bounds unknown_bounds
  signed_bounds-tnum = elim (Bool-cases (ltb_ℤ low (pos 0) && leb_ℤ (pos 0) high)) [
    | inl e ↦ rw (signed_bounds, e) refl
    | inr e ↦ rw (signed_bounds, e) refl
  ]

  -- For ends of i64, from_signed holds of every u64 whose signed value lies between the ends.
  pub from_signed-InBounds :
      (x : ℕ)
      → x < 2 ^ 64
      → low ≤ℤ of_bits 64 x
      → of_bits 64 x ≤ℤ high
      → InBounds (from_signed low high) x
  unfolding from_signed
  from_signed-InBounds x l v w =
      let (f, r) = signed_bounds-InRanges x l v w in
      synced-InBounds (signed_bounds low high) x f (rw signed_bounds-tnum unknown-IsNormal) r
        (rw signed_bounds-tnum (unknown-Contains x l))
