-- ===== src/Word/Bits.antt =====
-- The bits of a number, and how the word operators act on them.
use Prim.Native.Nat.{bit_and-bitwise, bit_or-bitwise, bit_xor-bitwise}
use native.Mathlib.Nat.{
  pow-suc, pow-succ', zero-add, div-div-eq-div-mul, one-le-pow, mul-add-mod_self_left, mod-eq_of_lt,
  div-add-mod, mod-lt,
}
use rand_verifier.Prelude.{
  ℕ, zero, suc, ◌+◌, ◌-◌, ◌*◌, ◌/◌, ◌%◌, ◌^◌, ◌≤◌, ◌<◌, min, max, bit_and, bit_or, bit_xor, ◌≡◌,
  refl, arith, ap, sym, ◌∙◌,
}
use rand_verifier.Word.Digit.{bit_and_digit, bit_or_digit, bit_xor_digit}

-- Bit `i` of `x`, 0 or 1.
pub bit : ℕ → ℕ → ℕ
bit zero x = x % 2
bit (suc i) x = bit i (x / 2)

bit-suc : (i x : ℕ) → bit (suc i) x ≡ bit i (x / 2)
unfolding bit
bit-suc i x = refl

pub bit-le-one : (i x : ℕ) → bit i x ≤ 1
unfolding bit
bit-le-one zero x = omega arith
bit-le-one (suc i) x = bit-le-one i (x / 2)

pub bit-bit_and : (i a b : ℕ) → bit i (bit_and a b) ≡ min (bit i a) (bit i b)
unfolding bit
bit-bit_and zero a b = omega (arith, bit_and_digit a b)
bit-bit_and (suc i) a b =
    let e : bit_and a b / 2 ≡ bit_and (a / 2) (b / 2) = omega (arith, bit_and_digit a b) in
    rw e (bit-bit_and i (a / 2) (b / 2))

pub bit-bit_or : (i a b : ℕ) → bit i (bit_or a b) ≡ max (bit i a) (bit i b)
unfolding bit
bit-bit_or zero a b = omega (arith, bit_or_digit a b)
bit-bit_or (suc i) a b =
    let e : bit_or a b / 2 ≡ bit_or (a / 2) (b / 2) = omega (arith, bit_or_digit a b) in
    rw e (bit-bit_or i (a / 2) (b / 2))

pub bit-bit_xor : (i a b : ℕ) → bit i (bit_xor a b) ≡ (bit i a + bit i b) % 2
unfolding bit
bit-bit_xor zero a b = omega (arith, bit_xor_digit a b)
bit-bit_xor (suc i) a b =
    let e : bit_xor a b / 2 ≡ bit_xor (a / 2) (b / 2) = omega (arith, bit_xor_digit a b) in
    rw e (bit-bit_xor i (a / 2) (b / 2))

-- Two numbers below 2 ^ w with the same bits below `w` are equal.
pub bit_ext : (w a b : ℕ) → a < 2 ^ w → b < 2 ^ w → ((i : ℕ) → i < w → bit i a ≡ bit i b) → a ≡ b
unfolding bit
bit_ext zero a b p q h = omega arith
bit_ext (suc w) a b p q h = omega (
  arith,
  h 0 (omega arith),
  bit_ext w (a / 2) (b / 2) (omega (arith, pow-suc 2 w)) (omega (arith, pow-suc 2 w))
      (λ i l. h (suc i) (omega arith)),
)

pub bit_above : (w i x : ℕ) → x < 2 ^ w → w ≤ i → bit i x ≡ 0
unfolding bit
bit_above zero zero x p q = omega arith
bit_above (suc w) zero x p q = absurd (omega arith)
bit_above zero (suc i) x p q = bit_above zero i (x / 2) (omega arith) (omega arith)
bit_above (suc w) (suc i) x p q = bit_above w i (x / 2) (omega (arith, pow-suc 2 w)) (omega arith)

pub mod_unique : (x d q r : ℕ) → x ≡ d * q + r → r < d → x % d ≡ r
mod_unique x d q r e h = rw e (mul-add-mod_self_left d q r ∙ mod-eq_of_lt h)

mod-pow-suc : (w x : ℕ) → x % 2 ^ suc w ≡ x / 2 % 2 ^ w * 2 + x % 2
mod-pow-suc w x =
    mod_unique x (2 ^ suc w) (x / 2 / 2 ^ w) (x / 2 % 2 ^ w * 2 + x % 2)
      (omega
        (arith, div-add-mod (x / 2) (2 ^ w), ap (λ (t : ℕ). t * (x / 2 / 2 ^ w)) (pow-suc 2 w)))
      (omega (arith, pow-suc 2 w, mod-lt (x / 2) {m = 2 ^ w} (one-le-pow w 2 (omega arith))))

mod-pow-half : (w x : ℕ) → (x % 2 ^ suc w / 2 ≡ x / 2 % 2 ^ w) × (x % 2 ^ suc w % 2 ≡ x % 2)
mod-pow-half w x = (omega (arith, mod-pow-suc w x), omega (arith, mod-pow-suc w x))

pub bit-mod : (w i x : ℕ) → i < w → bit i (x % 2 ^ w) ≡ bit i x
unfolding bit
bit-mod zero i x h = absurd (omega arith)
bit-mod (suc w) zero x h = (mod-pow-half w x).1
bit-mod (suc w) (suc i) x h = rw ((mod-pow-half w x).0) (bit-mod w i (x / 2) (omega arith))

-- The bits of the complement `2 ^ w - 1 - x`.
pub bit-complement : (w i x : ℕ) → x < 2 ^ w → i < w → bit i (2 ^ w - 1 - x) ≡ 1 - bit i x
unfolding bit
bit-complement zero i x p h = absurd (omega arith)
bit-complement (suc w) zero x p h = omega (arith, pow-suc 2 w)
bit-complement (suc w) (suc i) x p h =
    let e : (2 ^ suc w - 1 - x) / 2 ≡ 2 ^ w - 1 - x / 2 = omega (arith, pow-suc 2 w) in
    rw e (bit-complement w i (x / 2) (omega (arith, pow-suc 2 w)) (omega arith))

-- Numbers with no bit in common add up bit by bit.
pub bit-add_disjoint :
    (i a b : ℕ) → ((j : ℕ) → bit j a + bit j b ≤ 1) → bit i (a + b) ≡ bit i a + bit i b
unfolding bit
bit-add_disjoint zero a b h = omega (arith, h 0)
bit-add_disjoint (suc i) a b h =
    let e : (a + b) / 2 ≡ a / 2 + b / 2 = omega (arith, h 0) in
    rw e (bit-add_disjoint i (a / 2) (b / 2) (λ j. h (suc j)))

-- Bitwise inclusion implies the order.
pub le_of_bits : (w a b : ℕ) → a < 2 ^ w → ((i : ℕ) → bit i a ≤ bit i b) → a ≤ b
unfolding bit
le_of_bits zero a b p h = omega arith
le_of_bits (suc w) a b p h =
    omega (arith, h 0, le_of_bits w (a / 2) (b / 2) (omega (arith, pow-suc 2 w)) (λ i. h (suc i)))

pub bit-shl_above : (k i x : ℕ) → bit (k + i) (x * 2 ^ k) ≡ bit i x
bit-shl_above zero i x = let e : x * 2 ^ 0 ≡ x = omega arith in rw (zero-add, e)
bit-shl_above (suc k) i x =
    let e : x * 2 ^ suc k / 2 ≡ x * 2 ^ k = omega (arith, ap (λ (t : ℕ). x * t) (pow-suc 2 k)) in
    let f : suc k + i ≡ suc (k + i) = omega arith in
    ap (λ n. bit n (x * 2 ^ suc k)) f ∙ bit-suc (k + i) _ ∙ ap (bit (k + i)) e ∙ bit-shl_above k i x

pub bit-shl_below : (k i x : ℕ) → i < k → bit i (x * 2 ^ k) ≡ 0
unfolding bit
bit-shl_below zero i x h = absurd (omega arith)
bit-shl_below (suc k) zero x h = omega (arith, ap (λ (t : ℕ). x * t) (pow-suc 2 k))
bit-shl_below (suc k) (suc i) x h =
    let e : x * 2 ^ suc k / 2 ≡ x * 2 ^ k = omega (arith, ap (λ (t : ℕ). x * t) (pow-suc 2 k)) in
    rw e (bit-shl_below k i x (omega arith))

pub bit-shr : (k i x : ℕ) → bit i (x / 2 ^ k) ≡ bit (k + i) x
bit-shr zero i x = let e : x / 2 ^ 0 ≡ x = omega arith in rw (zero-add, e)
bit-shr (suc k) i x =
    let e : x / 2 ^ suc k ≡ x / 2 / 2 ^ k =
      rw (pow-succ' 2 k) (sym (div-div-eq-div-mul x 2 (2 ^ k))) in
    let f : suc k + i ≡ suc (k + i) = omega arith in
    ap (bit i) e ∙ bit-shr k i (x / 2) ∙ sym (ap (λ n. bit n x) f ∙ bit-suc (k + i) x)

-- `x` lies bitwise between `l` and `h`.
abbrev pub Between : ℕ → ℕ → ℕ → Type 0
Between l x h = (j : ℕ) → (bit j l ≤ bit j x) × (bit j x ≤ bit j h)

half-sum : (x y c : ℕ) → (x + y + c) / 2 ≡ x / 2 + y / 2 + (x % 2 + y % 2 + c) / 2
half-sum x y c = omega arith

carry_mono : (a b c a' b' c' : ℕ) → a ≤ a' → b ≤ b' → c ≤ c' → (a + b + c) / 2 ≤ (a' + b' + c') / 2
carry_mono a b c a' b' c' p q r = omega arith

-- A sum of two numbers that lie between bounds, with carries that do. Where the addends' bits
-- are the same at both bounds and the sums of the bounds agree, all sums between them agree.
pub sum_sandwich :
    (i xl x x' xh yl y y' yh cl c c' ch : ℕ)
    → Between xl x xh
    → Between xl x' xh
    → Between yl y yh
    → Between yl y' yh
    → (cl ≤ c) × (cl ≤ c') × (c ≤ ch) × (c' ≤ ch) × (ch ≤ 1)
    → bit i xl ≡ bit i xh
    → bit i yl ≡ bit i yh
    → bit i (xl + yl + cl) ≡ bit i (xh + yh + ch)
    → bit i (x + y + c) ≡ bit i (x' + y' + c')
unfolding bit
sum_sandwich zero xl x x' xh yl y y' yh cl c c' ch hx hx' hy hy' hc ex ey e =
    omega (arith, hx 0, hx' 0, hy 0, hy' 0)
sum_sandwich (suc i) xl x x' xh yl y y' yh cl c c' ch hx hx' hy hy' hc ex ey e =
    rw (half-sum x y c, half-sum x' y' c')
      (sum_sandwich i (xl / 2) (x / 2) (x' / 2) (xh / 2) (yl / 2) (y / 2) (y' / 2) (yh / 2)
        ((xl % 2 + yl % 2 + cl) / 2) ((x % 2 + y % 2 + c) / 2) ((x' % 2 + y' % 2 + c') / 2)
        ((xh % 2 + yh % 2 + ch) / 2) (λ j. hx (suc j)) (λ j. hx' (suc j)) (λ j. hy (suc j))
        (λ j. hy' (suc j))
        (
          carry_mono (xl % 2) (yl % 2) cl (x % 2) (y % 2) c (hx 0).0 (hy 0).0 hc.0,
          carry_mono (xl % 2) (yl % 2) cl (x' % 2) (y' % 2) c' (hx' 0).0 (hy' 0).0 hc.1,
          carry_mono (x % 2) (y % 2) c (xh % 2) (yh % 2) ch (hx 0).1 (hy 0).1 hc.2,
          carry_mono (x' % 2) (y' % 2) c' (xh % 2) (yh % 2) ch (hx' 0).1 (hy' 0).1 hc.3,
          omega arith,
        )
        ex ey (rw (half-sum xl yl cl, half-sum xh yh ch) at e))

pub bit-zero : (i : ℕ) → bit i 0 ≡ 0
unfolding bit
bit-zero zero = refl
bit-zero (suc i) = bit-zero i

-- The operations stay within a width.
pub bit_and-lt : (w a b : ℕ) → a < 2 ^ w → bit_and a b < 2 ^ w
bit_and-lt zero zero b p = omega (arith, bit_and-bitwise 0 b)
bit_and-lt zero (suc a) b p = absurd (omega arith)
bit_and-lt (suc w) a b p = omega (
  arith,
  pow-suc 2 w,
  bit_and_digit a b,
  bit_and-lt w (a / 2) (b / 2) (omega (arith, pow-suc 2 w)),
)

pub bit_or-lt : (w a b : ℕ) → a < 2 ^ w → b < 2 ^ w → bit_or a b < 2 ^ w
bit_or-lt zero zero b p q = omega (arith, bit_or-bitwise 0 b)
bit_or-lt zero (suc a) b p q = absurd (omega arith)
bit_or-lt (suc w) a b p q = omega (
  arith,
  pow-suc 2 w,
  bit_or_digit a b,
  bit_or-lt w (a / 2) (b / 2) (omega (arith, pow-suc 2 w)) (omega (arith, pow-suc 2 w)),
)

pub bit_xor-lt : (w a b : ℕ) → a < 2 ^ w → b < 2 ^ w → bit_xor a b < 2 ^ w
bit_xor-lt zero zero b p q = omega (arith, bit_xor-bitwise 0 b)
bit_xor-lt zero (suc a) b p q = absurd (omega arith)
bit_xor-lt (suc w) a b p q = omega (
  arith,
  pow-suc 2 w,
  bit_xor_digit a b,
  bit_xor-lt w (a / 2) (b / 2) (omega (arith, pow-suc 2 w)) (omega (arith, pow-suc 2 w)),
)

-- The bit at the top of a width.
pub bit_top : (w x : ℕ) → bit w x ≡ x / 2 ^ w % 2
unfolding bit
bit_top zero x = omega arith
bit_top (suc w) x =
    bit_top w (x / 2)
    ∙ ap (λ (t : ℕ). t % 2)
        (div-div-eq-div-mul x 2 (2 ^ w) ∙ ap (λ (t : ℕ). x / t) (sym (pow-succ' 2 w)))

pub bit_lowest : (x : ℕ) → bit 0 x ≡ x % 2
unfolding bit
bit_lowest x = refl

bit_and-zero : (n a : ℕ) → a ≤ n → bit_and a 0 ≡ 0
bit_and-zero n zero h = bit_and-bitwise 0 0
bit_and-zero zero (suc a) h = absurd (omega arith)
bit_and-zero (suc n) (suc a) h =
    omega (arith, bit_and_digit (suc a) 0, bit_and-zero n (suc a / 2) (omega arith))

pub bit_and-one : (a : ℕ) → bit_and a 1 ≡ a % 2
bit_and-one a = omega (arith, bit_and_digit a 1, bit_and-zero (a / 2) (a / 2) (omega arith))

-- Masking the low bits is the remainder.
pub bit_and-low_mask : (w x : ℕ) → bit_and x (2 ^ w - 1) ≡ x % 2 ^ w
bit_and-low_mask zero x = omega (arith, bit_and-zero x x (omega arith))
bit_and-low_mask (suc w) x =
    let e : (2 ^ suc w - 1) / 2 ≡ 2 ^ w - 1 = omega (arith, pow-suc 2 w) in
    omega (
      arith,
      bit_and_digit x (2 ^ suc w - 1),
      ap (bit_and (x / 2)) e,
      bit_and-low_mask w (x / 2),
      mod-pow-suc w x,
      pow-suc 2 w,
      one-le-pow w 2 (omega arith),
    )

-- `&` goes below both operands and `|` above both.
pub bit_and-le : (a b : ℕ) → a < 2 ^ 64 → b < 2 ^ 64 → (bit_and a b ≤ a) × (bit_and a b ≤ b)
bit_and-le a b p q = (
  le_of_bits 64 _ _ (bit_and-lt 64 a b p) (λ i. omega (arith, bit-bit_and i a b)),
  le_of_bits 64 _ _ (bit_and-lt 64 a b p) (λ i. omega (arith, bit-bit_and i a b)),
)

pub le-bit_or : (a b : ℕ) → a < 2 ^ 64 → b < 2 ^ 64 → (a ≤ bit_or a b) × (b ≤ bit_or a b)
le-bit_or a b p q = (
  le_of_bits 64 _ _ p (λ i. omega (arith, bit-bit_or i a b)),
  le_of_bits 64 _ _ q (λ i. omega (arith, bit-bit_or i a b)),
)

pub pow-add : (m n : ℕ) → 2 ^ (m + n) ≡ 2 ^ m * 2 ^ n
pow-add zero n = rw zero-add (omega arith)
pow-add (suc m) n =
    let e : suc m + n ≡ suc (m + n) = omega arith in
    rw e (omega (arith, pow-suc 2 (m + n), ap (λ (t : ℕ). t * 2 ^ n) (pow-suc 2 m), pow-add m n))
