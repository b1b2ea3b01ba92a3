-- ===== src/Tnum/Mul.antt =====
-- `mul` of src/tnum.rs: the long multiplication over the bits of the left factor.
use Prim.Native.Nat.add
use native.Mathlib.Decide.{dec_lt}
use native.Mathlib.Nat.{div-add-mod}
use native.Mathlib.Nat.{pow-suc, add-mul-mod_self_left, mod-add-mod}
use rand_verifier.Prelude.{
  ℕ, zero, suc, ◌+◌, ◌*◌, ◌/◌, ◌%◌, ◌^◌, ◌≤◌, ◌<◌, bit_and, ◌≡◌, refl, arith, ap, sym, ◌∙◌, true,
  false, inl, inr, Bool-cases, ◌==◌, ==_iff, ==-false→ne, not, ◌&&◌, if◌then◌else◌,
}
use rand_verifier.Word.{wrapping_add, wrapping_mul, shl_or_zero, shr_or_zero}
use rand_verifier.Word.Bits.{bit, bit-zero, le_of_bits, bit_lowest, bit_and-one}
use rand_verifier.Tnum.{Tnum, mul, mul_loop, add, union, lshift, rshift, constant}
use rand_verifier.Tnum.Members.{Contains, IsNormal, Contains-Agrees, IsNormal-bit}
use rand_verifier.Tnum.Bitwise.{union-IsNormal, union-left, union-right}
use rand_verifier.Tnum.Order.{value-Contains}
use rand_verifier.Tnum.Arith.{add-IsNormal, add-Contains}
use rand_verifier.Tnum.Shift.{lshift-IsNormal, lshift-Contains, rshift-IsNormal, rshift-Contains}

-- One round's accumulator.
round : Tnum → Tnum → Tnum → Tnum
round acc a b =
    if not (bit_and a.value 1 == 0)
    then add acc b
    else if not (bit_and a.mask 1 == 0)
    then union acc (add acc b)
    else acc

-- The loop as its test and one round.
mul_loop-suc :
    (fuel : ℕ) (acc a b : Tnum)
    → mul_loop (suc fuel) acc a b ≡ (
        if (a.value == 0) && (a.mask == 0)
        then acc
        else mul_loop fuel (round acc a b) (rshift a 1) (lshift b 1))
unfolding mul_loop round
mul_loop-suc fuel acc a b = refl

mul-mod_inside : (s q z m : ℕ) → (s + q * (z % m)) % m ≡ (s + q * z) % m
mul-mod_inside s q z m =
    sym (add-mul-mod_self_left (s + q * (z % m)) m (q * (z / m)))
    ∙ ap (λ (t : ℕ). t % m) (omega (arith, ap (λ (t : ℕ). q * t) (div-add-mod z m)))

-- The wrapping product by the lowest bit of its left factor.
product_step : (m s x y : ℕ) → ((s + x % 2 * y) % m + x / 2 * (y * 2 % m)) % m ≡ (s + x * y) % m
product_step m s x y =
    mul-mod_inside ((s + x % 2 * y) % m) (x / 2) (y * 2) m
    ∙ mod-add-mod (s + x % 2 * y) m (x / 2 * (y * 2))
    ∙ ap (λ (t : ℕ). t % m) (omega (arith, ap (λ (t : ℕ). t * y) halves))
  where
    halves : x ≡ x / 2 * 2 + x % 2
    halves = omega arith

round-IsNormal :
    (acc a b : Tnum) → IsNormal acc → IsNormal a → IsNormal b → IsNormal (round acc a b)
unfolding round
round-IsNormal acc a b nacc na nb = elim (Bool-cases (bit_and a.value 1 == 0)) [
  | inr e ↦ rw e (add-IsNormal acc b nacc nb)
  | inl e ↦ elim (Bool-cases (bit_and a.mask 1 == 0)) [
    | inr f ↦ rw (e, f) (union-IsNormal acc (add acc b) nacc (add-IsNormal acc b nacc nb))
    | inl f ↦ rw (e, f) nacc
  ]
]

round-Contains :
    (acc a b : Tnum)
    → IsNormal acc
    → IsNormal a
    → IsNormal b
    → (s x y : ℕ) → Contains acc s
    → Contains a x
    → Contains b y
    → Contains (round acc a b) ((s + x % 2 * y) % 2 ^ 64)
unfolding round
round-Contains acc a b nacc na nb s x y cs cx cy = elim (Bool-cases (bit_and a.value 1 == 0)) [
  | inr e ↦ rw (e, odd e, once) (add-Contains acc b nacc nb s y cs cy)
  | inl e ↦ elim (Bool-cases (bit_and a.mask 1 == 0)) [
    | inl f ↦ rw (e, f, even e f, rest) cs
    | inr f ↦
        rw (e, f)
          (elim (dec_lt 0 (x % 2)) [
            | yes p ↦
                let o : x % 2 ≡ 1 = omega arith in
                rw (o, once)
                  (union-right acc (add acc b) nacc nsum _ (add-Contains acc b nacc nb s y cs cy))
            | no p ↦
                let z : x % 2 ≡ 0 = omega arith in
                rw (z, rest) (union-left acc (add acc b) nacc nsum s cs)
          ])
  ]
]
  where
    nsum : IsNormal (add acc b)
    nsum = add-IsNormal acc b nacc nb

    lowest : (x % 2 ≤ a.value % 2 + a.mask % 2) × (a.value % 2 ≤ x % 2)
    lowest = omega (
      arith,
      Contains-Agrees na cx 0,
      IsNormal-bit na 0,
      bit_lowest x,
      bit_lowest a.value,
      bit_lowest a.mask,
    )

    odd : (bit_and a.value 1 == 0) ≡ false → x % 2 ≡ 1
    odd e = omega (arith, lowest, ==-false→ne _ 0 e, bit_and-one a.value)

    even : (bit_and a.value 1 == 0) ≡ true → (bit_and a.mask 1 == 0) ≡ true → x % 2 ≡ 0
    even e f =
        omega (
          arith,
          lowest,
          (==_iff _ 0).0 e,
          (==_iff _ 0).0 f,
          bit_and-one a.value,
          bit_and-one a.mask,
        )

    once : (s + 1 * y) % 2 ^ 64 ≡ wrapping_add s y
    once = omega arith

    rest : (s + 0 * y) % 2 ^ 64 ≡ s
    rest = omega (arith, cs.fits)

half : (x k : ℕ) → x < 2 ^ suc k → x / 2 < 2 ^ k
half x k h = omega (arith, pow-suc 2 k)

-- Only 0 is a member when no bit is set or unknown.
zero_member : (a : Tnum) (x : ℕ) → IsNormal a → Contains a x → a.value ≡ 0 → a.mask ≡ 0 → x ≡ 0
zero_member a x n c v m = omega (
  arith,
  le_of_bits 64 x 0 c.fits
      λ i. omega (arith, Contains-Agrees n c i, bit-zero i, ap (bit i) v, ap (bit i) m),
)

-- The loop multiplies, whatever members it is run for, when its fuel is the width of `a`.
abbrev Multiplies : Tnum → ℕ → ℕ → ℕ → Type 0
Multiplies r s x y = IsNormal r × Contains r ((s + x * y) % 2 ^ 64)

done-Multiplies :
    (acc : Tnum) (s x y : ℕ) → IsNormal acc → Contains acc s → x ≡ 0 → Multiplies acc s x y
done-Multiplies acc s x y n c e = rw (e, same) (n, c)
  where
    same : (s + 0 * y) % 2 ^ 64 ≡ s
    same = omega (arith, c.fits)

zero_test : (a : Tnum) → ((a.value == 0) && (a.mask == 0)) ≡ true → (a.value ≡ 0) × (a.mask ≡ 0)
zero_test a h = ground arith

shr_one : (x : ℕ) → shr_or_zero x 1 ≡ x / 2
unfolding shr_or_zero
shr_one x = refl

shl_one : (x : ℕ) → shl_or_zero x 1 ≡ x * 2 % 2 ^ 64
unfolding shl_or_zero
shl_one x = refl

-- The left factor of the next round fits one bit less.
rshift-one-fits :
    (a : Tnum) (k : ℕ)
    → a.value < 2 ^ suc k
    → a.mask < 2 ^ suc k
    → ((rshift a 1).value < 2 ^ k) × ((rshift a 1).mask < 2 ^ k)
unfolding rshift shr_or_zero
rshift-one-fits a k p q = (half a.value k p, half a.mask k q)

mul_loop-Multiplies :
    (fuel : ℕ) (acc a b : Tnum)
    → IsNormal acc
    → IsNormal a
    → IsNormal b
    → a.value < 2 ^ fuel
    → a.mask < 2 ^ fuel
    → (s x y : ℕ) → Contains acc s
    → Contains a x
    → Contains b y
    → Multiplies (mul_loop fuel acc a b) s x y
mul_loop-Multiplies zero acc a b nacc na nb p q s x y cs cx cy =
    unfold mul_loop in
    done-Multiplies acc s x y nacc cs (zero_member a x na cx (omega arith) (omega arith))
mul_loop-Multiplies (suc fuel) acc a b nacc na nb p q s x y cs cx cy =
    let (p', q') = rshift-one-fits a fuel p q in
    let cx' = rw (shr_one x) at (rshift-Contains a na 1 x cx) in
    let cy' = rw (shl_one y) at (lshift-Contains b nb 1 y cy) in
    let rest =
      mul_loop-Multiplies fuel (round acc a b) (rshift a 1) (lshift b 1)
        (round-IsNormal acc a b nacc na nb) (rshift-IsNormal a na 1) (lshift-IsNormal b nb 1) p' q'
        ((s + x % 2 * y) % 2 ^ 64) (x / 2) (y * 2 % 2 ^ 64)
        (round-Contains acc a b nacc na nb s x y cs cx cy) cx' cy' in
    rw (mul_loop-suc fuel acc a b) (elim (Bool-cases ((a.value == 0) && (a.mask == 0))) [
      | inl e ↦ rw e (
          done-Multiplies acc s x y nacc cs
            (zero_member a x na cx (zero_test a e).0 (zero_test a e).1))
      | inr e ↦ rw (e, ← product_step (2 ^ 64) s x y) rest
    ])

zero-IsNormal : IsNormal (record { value = 0; mask = 0 })
zero-IsNormal = record { value_fits = omega arith; mask_fits = omega arith; disjoint = refl }

-- The product of two tracked numbers with disjoint u64 fields has disjoint u64 fields, and
-- contains the wrapped product of any two members.
pub mul-Contains :
    (a b : Tnum)
    → IsNormal a
    → IsNormal b
    → (x y : ℕ) → Contains a x
    → Contains b y
    → IsNormal (mul a b) × Contains (mul a b) (wrapping_mul x y)
unfolding mul constant
mul-Contains a b na nb x y cx cy = rw (add.zero (x * y)) at (
    mul_loop-Multiplies 64 (record { value = 0; mask = 0 }) a b zero-IsNormal na nb na.value_fits
      na.mask_fits 0 x y (value-Contains _ zero-IsNormal) cx cy)
