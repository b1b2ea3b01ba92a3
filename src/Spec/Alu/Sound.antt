-- ===== src/Spec/Alu/Sound.antt =====
-- The interval of an ALU result contains what the interpreter computes.
use rand_verifier.Prelude.{
  ℕ, ◌≤◌, ◌<◌, ◌^◌, ◌-◌, ◌%◌, ◌/◌, ◌≡◌, arith, bit_and, ◌&&◌, true, ◌==◌, inl, inr, Bool-cases, max,
  lt→leb-false, lt→ltb, ==-false→ne, if◌then◌else◌, refl, sym, ◌∙◌,
}
use rand_verifier.Word.{shl_or_zero, shr_or_zero, shl, shr, sar}
use rand_verifier.Word.Bits.{bit_and-low_mask}
use rand_verifier.Exec.Alu.{
  AluOp, op_add, op_sub, op_and, op_or, op_xor, op_lsh, op_rsh, op_arsh, op_mul, op_div, op_mod,
  op_neg, div_or_zero, rem_or_self, alu_const64,
}
use rand_verifier.Spec.Value.{rng_lsh, rng_rsh, rng_arsh, Range, full}
use rand_verifier.Spec.Value.Interval.{
  IsRange, InRange, rng_add-InRange, rng_sub-InRange, rng_and-InRange, rng_or-InRange,
  rng_xor-InRange, rng_mul-InRange,
}
use rand_verifier.Spec.Value.Shift.{rng_lsh-InRange, rng_rsh-InRange, rng_arsh-InRange}
use native.Mathlib.Nat.{le-div_iff_mul-le, div-mul-le_self, div-le_self, mod-lt, mod-le, mod-le}
use rand_verifier.Spec.Alu.{fold_const, known_amount, spread, alu_range}

-- An amount that both sides read alike: only the shifts mask it.
unfoldable pub amount_bound : AluOp → ℕ
amount_bound op_lsh = 64
amount_bound op_rsh = 64
amount_bound op_arsh = 64
amount_bound _ = 2 ^ 64

low6 : (b : ℕ) → b < 64 → bit_and b 63 ≡ b
low6 b h = bit_and-low_mask 6 b ∙ omega arith

low6_word : (b : ℕ) → b < 64 → b % 2 ^ 32 % 64 ≡ b
low6_word b h = omega arith

-- On constants the spec folds to exactly what the interpreter computes.
pub fold_const-alu_const64 :
    (op : AluOp) (a b : ℕ) → b < amount_bound op → fold_const op a b ≡ alu_const64 op a b
unfolding fold_const alu_const64 amount_bound
fold_const-alu_const64 op_add a b h = refl
fold_const-alu_const64 op_sub a b h = refl
fold_const-alu_const64 op_and a b h = refl
fold_const-alu_const64 op_or a b h = refl
fold_const-alu_const64 op_xor a b h = refl
fold_const-alu_const64 op_mul a b h = refl
fold_const-alu_const64 op_div a b h = refl
fold_const-alu_const64 op_mod a b h = refl
fold_const-alu_const64 op_neg a b h = refl
fold_const-alu_const64 op_lsh a b h = rw (low6_word b h, lt→leb-false b 64 h) refl
fold_const-alu_const64 op_rsh a b h = rw (low6_word b h, lt→leb-false b 64 h) refl
fold_const-alu_const64 op_arsh a b h = rw (low6 b h, lt→leb-false b 64 h) refl

shl_in_width : (x k : ℕ) → k < 64 → shl_or_zero x k ≡ shl x k
unfolding shl_or_zero
shl_in_width x k h = rw (lt→ltb k 64 h) refl

shr_in_width : (x k : ℕ) → k < 64 → shr_or_zero x k ≡ shr x k
unfolding shr_or_zero
shr_in_width x k h = rw (lt→ltb k 64 h) refl

amount : (s : Range) (y : ℕ) → InRange y s → known_amount s ≡ true → (y ≡ s.0) × (s.0 < 64)
unfolding known_amount
amount s y hy e = ground arith

quotient_mono : (a b p q : ℕ) → a ≤ b → 0 < p → p ≤ q → a / q ≤ b / p
quotient_mono a b p q h z r = (le-div_iff_mul-le z).1 (grind (arith, div-mul-le_self a q))

module _ (d s : Range) (vd : IsRange d) (vs : IsRange s) (x y : ℕ) (hx : InRange x d)
    (hy : InRange y s) where
  div-InRange : InRange (div_or_zero x y) (if s.0 == 0 then full else (d.0 / max s.1 1, d.1 / s.0))
  div-InRange = elim (Bool-cases (s.0 == 0)) [
    | inl z ↦ rw z (ground (arith, div-le_self x y))
    | inr n ↦
        let p = ==-false→ne s.0 0 n in
        ground (arith, quotient_mono d.0 x y (max s.1 1), quotient_mono x d.1 s.0 y)
  ]

  mod-InRange : InRange (rem_or_self x y) (if s.0 == 0 then full else (0, s.1 - 1))
  mod-InRange = elim (Bool-cases (s.0 == 0)) [
    | inl z ↦ rw z (ground (arith, mod-le x y))
    | inr n ↦ let p = ==-false→ne s.0 0 n in ground (arith, mod-lt x {m = y} (omega arith))
  ]

  -- A shift is bounded through its known amount.
  shift-InRange :
      (r : Range) (v : ℕ)
      → v < 2 ^ 64
      → ((y ≡ s.0) × (s.0 < 64) → InRange v r)
      → InRange v (if known_amount s then r else full)
  shift-InRange r v f k = elim (Bool-cases (known_amount s)) [
    | inl e ↦ rw e (k (amount s y hy e))
    | inr e ↦ rw e (omega arith)
  ]

  spread-InRange : (op : AluOp) → y < amount_bound op → InRange (alu_const64 op x y) (spread op d s)
  unfolding spread alu_const64 amount_bound
  spread-InRange op_add h = rng_add-InRange d s vd vs x y hx hy
  spread-InRange op_sub h = rng_sub-InRange d s vd vs x y hx hy
  spread-InRange op_and h = rng_and-InRange d s vd vs x y hx hy
  spread-InRange op_or h = rng_or-InRange d s vd vs x y hx hy
  spread-InRange op_xor h = rng_xor-InRange d s vd vs x y hx hy
  spread-InRange op_mul h = rng_mul-InRange d s vd vs x y hx hy
  spread-InRange op_div h = div-InRange
  spread-InRange op_mod h = mod-InRange
  spread-InRange op_neg h = omega arith
  spread-InRange op_lsh h = rw (low6_word y h) (
      shift-InRange (rng_lsh d s.0) (shl x y) (omega arith)
        (λ (e, l). rw (e, sym (shl_in_width x s.0 l)) (rng_lsh-InRange d vd x s.0 hx)))
  spread-InRange op_rsh h = rw (low6_word y h) (
      shift-InRange (rng_rsh d s.0) (shr x y) (omega (arith, div-le_self x (2 ^ y)))
        (λ (e, l). rw (e, sym (shr_in_width x s.0 l)) (rng_rsh-InRange d vd x s.0 hx)))
  spread-InRange op_arsh h = rw (low6 y h) (
      shift-InRange (rng_arsh d s.0) (sar x y) (ground (arith, div-le_self x (2 ^ y)))
        (λ (e, l). rw e (rng_arsh-InRange d vd x s.0 hx l)))

  -- For every ALU operation and intervals of u64, the result interval contains what the
  -- interpreter's alu_const64 computes from members of the operands' intervals; for shifts, where
  -- the amount is below 64.
  pub alu_range-InRange :
      (op : AluOp) → y < amount_bound op → InRange (alu_const64 op x y) (alu_range op d s)
  unfolding alu_range
  alu_range-InRange op h = elim (Bool-cases ((d.0 == d.1) && (s.0 == s.1))) [
    | inl e ↦ rw e (folded (constants e))
    | inr e ↦ rw e (spread-InRange op h)
  ]
    where
      constants : ((d.0 == d.1) && (s.0 == s.1)) ≡ true → (x ≡ d.0) × (y ≡ s.0)
      constants e = ground arith

      folded :
          (x ≡ d.0) × (y ≡ s.0)
          → InRange (alu_const64 op x y) (fold_const op d.0 s.0, fold_const op d.0 s.0)
      folded (p, q) = rw (sym p, sym q, fold_const-alu_const64 op x y h) (omega arith)
