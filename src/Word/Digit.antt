-- ===== src/Word/Digit.antt =====
-- The bit operations by their lowest digit. The native operations mean `bitwise`, a recursion on
-- binary digits with fuel; one equation for each drops the fuel.
use Prim.Native.Nat.{digits, bitwise, differ, bit_and-bitwise, bit_or-bitwise, bit_xor-bitwise}
use rand_verifier.Prelude.{
  ℕ, zero, suc, ◌+◌, ◌*◌, ◌/◌, ◌%◌, ◌≤◌, min, max, bit_and, bit_or, bit_xor, ◌≡◌, refl, arith, ◌-◌,
  ap, ◌∙◌,
}

module _ (z : ℕ → ℕ) (f : ℕ → ℕ → ℕ) where
  -- Where the fuel reaches the first number, one more unit changes nothing, nor do `k` more.
  one_more : (fuel x y : ℕ) → x ≤ fuel → digits z f (suc fuel) x y ≡ digits z f fuel x y
  one_more zero zero y h = refl
  one_more zero (suc x) y h = absurd (omega arith)
  one_more (suc fuel) zero y h = refl
  one_more (suc fuel) (suc x) y h = rw (one_more fuel (suc x / 2) (y / 2) (omega arith))

  more : (k fuel x y : ℕ) → x ≤ fuel → digits z f (k + fuel) x y ≡ digits z f fuel x y
  more zero fuel x y h = ap (λ (n : ℕ). digits z f n x y) (omega arith)
  more (suc k) fuel x y h =
      let shifted : suc k + fuel ≡ suc (k + fuel) = omega arith in
      ap (λ (n : ℕ). digits z f n x y) shifted
      ∙ one_more (k + fuel) x y (omega arith)
      ∙ more k fuel x y h

  spare : (x y : ℕ) → digits z f x (suc x / 2) y ≡ digits z f (suc x / 2) (suc x / 2) y
  spare x y =
      let whole : x ≡ x - suc x / 2 + suc x / 2 = omega arith in
      ap (λ (n : ℕ). digits z f n (suc x / 2) y) whole
      ∙ more (x - suc x / 2) (suc x / 2) (suc x / 2) y (omega arith)

  bitwise-suc :
      (x y : ℕ)
      → bitwise z f (suc x) y ≡ bitwise z f (suc x / 2) (y / 2) * 2 + f (suc x % 2) (y % 2)
  bitwise-suc x y = omega (arith, spare x (y / 2))

pub bit_and_digit : (a b : ℕ) → bit_and a b ≡ bit_and (a / 2) (b / 2) * 2 + min (a % 2) (b % 2)
bit_and_digit zero b = simp bit_and-bitwise (omega arith)
bit_and_digit (suc a) b = simp bit_and-bitwise (bitwise-suc (λ y. 0) min a b)

pub bit_or_digit : (a b : ℕ) → bit_or a b ≡ bit_or (a / 2) (b / 2) * 2 + max (a % 2) (b % 2)
bit_or_digit zero b = simp bit_or-bitwise (omega arith)
bit_or_digit (suc a) b = simp bit_or-bitwise (bitwise-suc (λ y. y) max a b)

differ-mod : (x y : ℕ) → x ≤ 1 → y ≤ 1 → differ x y ≡ (x + y) % 2
differ-mod zero y p q = omega arith
differ-mod (suc zero) zero p q = refl
differ-mod (suc zero) (suc zero) p q = refl
differ-mod (suc zero) (suc (suc y)) p q = absurd (omega arith)
differ-mod (suc (suc x)) y p q = absurd (omega arith)

pub bit_xor_digit : (a b : ℕ) → bit_xor a b ≡ bit_xor (a / 2) (b / 2) * 2 + (a % 2 + b % 2) % 2
bit_xor_digit zero b = simp bit_xor-bitwise (omega arith)
bit_xor_digit (suc a) b = simp bit_xor-bitwise (
    omega (
      arith,
      bitwise-suc (λ y. y) differ a b,
      differ-mod (suc a % 2) (b % 2) (omega arith) (omega arith),
    ))
