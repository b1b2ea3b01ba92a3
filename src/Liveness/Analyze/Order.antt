-- ===== src/Liveness/Analyze/Order.antt =====
-- Masks of src/liveness.rs by inclusion.
use rand_verifier.Prelude.{
  ℕ, zero, suc, ◌+◌, ◌-◌, ◌*◌, ◌^◌, ◌≤◌, ◌<◌, ◌≡◌, refl, List, [], ◌∷◌, length, get_or, set,
  bit_and, bit_or, arith, ap,
}
use rand_verifier.Word.Bits.{bit, bit-bit_and, bit-bit_or, bit-zero, bit_or-lt, bit_and-lt}
use rand_verifier.Liveness.Analyze.{joined, transfer}

-- Every register or slot of the first mask is in the second.
abbrev pub IsWithin : ℕ → ℕ → Type 0
IsWithin a b = (k : ℕ) → bit k a ≤ bit k b

-- Each mask of the first list is within the second list's.
abbrev pub AreWithin : List ℕ → List ℕ → Type 0
AreWithin xs ys = (j : ℕ) → IsWithin (get_or xs j 0) (get_or ys j 0)

pub IsWithin-refl : (a : ℕ) → IsWithin a a
IsWithin-refl a k = omega arith

pub IsWithin-trans : (a b c : ℕ) → IsWithin a b → IsWithin b c → IsWithin a c
IsWithin-trans a b c p q k = omega (arith, p k, q k)

pub zero-IsWithin : (a : ℕ) → IsWithin 0 a
zero-IsWithin a k = omega (arith, bit-zero k)

bit_or-IsWithin : (a b c d : ℕ) → IsWithin a b → IsWithin c d → IsWithin (bit_or a c) (bit_or b d)
bit_or-IsWithin a b c d p q k = omega (arith, bit-bit_or k a c, bit-bit_or k b d, p k, q k)

pub transfer-IsWithin :
    (w a b defined used : ℕ)
    → IsWithin a b
    → IsWithin (transfer w a defined used) (transfer w b defined used)
transfer-IsWithin w a b defined used p =
    let keep = 2 ^ w - 1 - defined in
    bit_or-IsWithin (bit_and a keep) (bit_and b keep) used used
      (λ k. omega (arith, bit-bit_and k a keep, bit-bit_and k b keep, p k)) (IsWithin-refl used)

pub joined-IsWithin :
    (xs ys ss : List ℕ) (o p : ℕ)
    → AreWithin xs ys
    → IsWithin o p
    → IsWithin (joined xs ss o) (joined ys ss p)
unfolding joined
joined-IsWithin xs ys [] o p h l = l
joined-IsWithin xs ys (s ∷ ss) o p h l =
    joined-IsWithin xs ys ss (bit_or o (get_or xs s 0)) (bit_or p (get_or ys s 0)) h
      (bit_or-IsWithin o p (get_or xs s 0) (get_or ys s 0) l (h s))

-- The masks keep their width.
pub joined-lt :
    (w : ℕ) (xs ss : List ℕ) (o : ℕ)
    → ((j : ℕ) → get_or xs j 0 < 2 ^ w)
    → o < 2 ^ w
    → joined xs ss o < 2 ^ w
unfolding joined
joined-lt w xs [] o h l = l
joined-lt w xs (s ∷ ss) o h l =
    joined-lt w xs ss (bit_or o (get_or xs s 0)) h (bit_or-lt w o (get_or xs s 0) l (h s))

pub transfer-lt :
    (w o defined used : ℕ) → o < 2 ^ w → used < 2 ^ w → transfer w o defined used < 2 ^ w
transfer-lt w o defined used l k =
    bit_or-lt w (bit_and o (2 ^ w - 1 - defined)) used (bit_and-lt w o (2 ^ w - 1 - defined) l) k

-- The sum of the masks, which grows with them.
abbrev pub total : List ℕ → ℕ
total [] = 0
total (x ∷ xs) = x + total xs

pub total-set :
    (xs : List ℕ) (i v : ℕ) → i < length xs → total (set xs i v) + get_or xs i 0 ≡ total xs + v
total-set [] i v h = absurd (omega arith)
total-set (x ∷ xs) zero v h = omega arith
total-set (x ∷ xs) (suc i) v h = omega (arith, total-set xs i v (omega arith))

pub total-le :
    (w : ℕ) (xs : List ℕ) → ((j : ℕ) → get_or xs j 0 < 2 ^ w) → total xs ≤ length xs * 2 ^ w
total-le w [] h = omega arith
total-le w (x ∷ xs) h = omega (arith, h 0, total-le w xs (λ j. h (suc j)))

pub set-same : (xs : List ℕ) (i v : ℕ) → v ≡ get_or xs i 0 → set xs i v ≡ xs
set-same [] i v e = refl
set-same (x ∷ xs) zero v e = ap (λ (t : ℕ). t ∷ xs) e
set-same (x ∷ xs) (suc i) v e = ap (λ (t : List ℕ). x ∷ t) (set-same xs i v e)
