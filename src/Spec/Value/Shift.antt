-- ===== src/Spec/Value/Shift.antt =====
-- The interval shifts contain every shifted member, and the signed view keeps the order.
use native.Mathlib.Nat.{
  one-le-pow, div-add-mod, mod-lt, div-le_self, div-mul-le_self, le-div_iff_mul-le, le_trans,
}
use rand_verifier.Prelude.{
  ◌+◌, ℕ, ◌≤◌, ◌<◌, ◌^◌, ◌-◌, ◌*◌, ◌/◌, ◌%◌, ◌≡◌, arith, sym, ap, ◌∙◌, ◌==◌, ==_iff, inl, inr,
  Bool-cases, leb, leb→le, leb-false→lt, lt→leb-false, if◌then◌else◌, some, lt→ltb, le→ltb,
}
use rand_verifier.Prelude.Int.{ℤ, ◌≤ℤ◌}
use rand_verifier.Word.{shl, shr, sar, not64, shl_or_zero, shr_or_zero}
use rand_verifier.Word.Bits.{mod_unique, pow-add}
use rand_verifier.Spec.Value.{Range, full, rng_lsh, rng_rsh, rng_arsh, as_signed, as_i64}
use rand_verifier.Spec.Value.Interval.{IsRange, InRange}

pub div_mono : (a b m : ℕ) → 0 < m → a ≤ b → a / m ≤ b / m
div_mono a b m p h = (le-div_iff_mul-le p).1 (le_trans (div-mul-le_self a m) h)

-- A left shift keeps the low `64 - k` bits: they alone decide its value.
shl_low : (x k : ℕ) → k < 64 → shl x k ≡ x % 2 ^ (64 - k) * 2 ^ k
shl_low x k h =
    mod_unique (x * 2 ^ k) (2 ^ 64) (x / 2 ^ (64 - k)) (x % 2 ^ (64 - k) * 2 ^ k)
      (omega (
        arith,
        ap (λ (t : ℕ). t * 2 ^ k) (div-add-mod x (2 ^ (64 - k))),
        ap (λ (t : ℕ). t * (x / 2 ^ (64 - k))) width,
      ))
      (grind (
        arith,
        width,
        one-le-pow k 2 (omega arith),
        mod-lt x (one-le-pow (64 - k) 2 (omega arith)),
      ))
  where
    whole : 64 - k + k ≡ 64
    whole = omega arith

    width : 2 ^ (64 - k) * 2 ^ k ≡ 2 ^ 64
    width = sym (pow-add (64 - k) k) ∙ ap (λ n. 2 ^ n) whole

-- Between numbers with one quotient the remainders keep the order.
mod_mono : (x y m : ℕ) → x ≤ y → x / m ≡ y / m → x % m ≤ y % m
mod_mono x y m p e = omega (arith, div-add-mod x m, div-add-mod y m, ap (λ (t : ℕ). m * t) e)

shr-InRange : (a : Range) (x k : ℕ) → InRange x a → InRange (shr x k) (shr a.0 k, shr a.1 k)
shr-InRange a x k h = (
  div_mono a.0 x (2 ^ k) (one-le-pow k 2 (omega arith)) h.0,
  div_mono x a.1 (2 ^ k) (one-le-pow k 2 (omega arith)) h.1,
)

-- The arithmetic shift is monotone on words: negative words are the greater ones.
sar_mono : (x y k : ℕ) → x ≤ y → y < 2 ^ 64 → sar x k ≤ sar y k
sar_mono x y k p q = ground (
  arith,
  div_mono x y (2 ^ k) (one-le-pow k 2 (omega arith)) p,
  div_mono (not64 y) (not64 x) (2 ^ k) (one-le-pow k 2 (omega arith)) (omega arith),
  div-le_self x (2 ^ k),
  div-le_self (not64 y) (2 ^ k),
)

shl_mono : (x y k : ℕ) → k < 64 → x ≤ y → shr x (64 - k) ≡ shr y (64 - k) → shl x k ≤ shl y k
shl_mono x y k h p e =
    rw (shl_low x k h, shl_low y k h) (grind (arith, mod_mono x y (2 ^ (64 - k)) p e))

module _ (a : Range) (va : IsRange a) (x k : ℕ) (h : InRange x a) where
  -- For an interval of u64, rng_lsh contains the shifted members, for every amount (64 or more
  -- gives 0).
  pub rng_lsh-InRange : InRange (shl_or_zero x k) (rng_lsh a k)
  unfolding rng_lsh shl_or_zero
  rng_lsh-InRange = elim (Bool-cases (k == 0)) [
    | inl z ↦ rw (z, (==_iff k 0).0 z) (omega arith)
    | inr nz ↦ elim (Bool-cases (leb 64 k)) [
      | inl wide ↦ rw (nz, wide, le→ltb k 64 (leb→le 64 k wide)) (omega arith)
      | inr l ↦ rw (nz, l, lt→ltb k 64 (leb-false→lt 64 k l)) (shifted (leb-false→lt 64 k l))
    ]
  ]
    where
      shifted :
          k < 64
          → InRange
              (shl x k)
              (if shr a.0 (64 - k) == shr a.1 (64 - k) then (shl a.0 k, shl a.1 k) else full)
      shifted l = elim (Bool-cases (shr a.0 (64 - k) == shr a.1 (64 - k))) [
        | inl e ↦
            let q = (==_iff _ _).0 e in
            let m = shr-InRange a x (64 - k) h in
            rw e (shl_mono a.0 x k l h.0 (omega arith), shl_mono x a.1 k l h.1 (omega arith))
        | inr e ↦ rw e (omega arith)
      ]

  pub rng_rsh-InRange : InRange (shr_or_zero x k) (rng_rsh a k)
  unfolding rng_rsh shr_or_zero
  rng_rsh-InRange = ground (arith, shr-InRange a x k h)

  pub rng_arsh-InRange : k < 64 → InRange (sar x k) (rng_arsh a k)
  unfolding rng_arsh
  rng_arsh-InRange l =
      rw (lt→leb-false k 64 l) (sar_mono a.0 x k h.0 (omega arith), sar_mono x a.1 k h.1 va.fits)

-- Where as_signed reads an interval as signed, its ends bound the signed value of every member.
pub as_signed_bounds :
    (a : Range) (lo hi : ℤ) (x : ℕ)
    → IsRange a
    → as_signed a ≡ some (lo, hi)
    → InRange x a
    → (lo ≤ℤ as_i64 x) × (as_i64 x ≤ℤ hi)
unfolding as_signed
as_signed_bounds a lo hi x v e h = ground arith
