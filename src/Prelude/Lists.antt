-- ===== src/Prelude/Lists.antt =====
-- Arrays as lists over the native numbers, under the library's names.
use Prim.Native.Nat.{ℕ, zero, suc, ◌<◌}
use mathlib.Core.Path.{◌≡◌, refl, ap}
use mathlib.Core.Logic.{◌≢◌}
use mathlib.Core.List.{List, [], ◌∷◌}
use mathlib.Core.Option.{Option, none, some}
use native.Mathlib.Omega.{arith}

module _ {ℓ} {A : Type ℓ} where
  abbrev pub length : List A → ℕ
  length [] = 0
  length (x ∷ xs) = suc (length xs)

  abbrev pub get_elem? : List A → ℕ → Option A
  get_elem? [] i = none
  get_elem? (x ∷ xs) zero = some x
  get_elem? (x ∷ xs) (suc i) = get_elem? xs i

  -- An element, or `d` where the index is out of range.
  abbrev pub get_or : List A → ℕ → A → A
  get_or [] i d = d
  get_or (x ∷ xs) zero d = x
  get_or (x ∷ xs) (suc i) d = get_or xs i d

  -- A write out of range changes nothing.
  abbrev pub set : List A → ℕ → A → List A
  set [] i v = []
  set (x ∷ xs) zero v = v ∷ xs
  set (x ∷ xs) (suc i) v = x ∷ set xs i v

  abbrev pub replicate : ℕ → A → List A
  replicate zero v = []
  replicate (suc n) v = v ∷ replicate n v

  abbrev pub take : ℕ → List A → List A
  take zero xs = []
  take (suc n) [] = []
  take (suc n) (x ∷ xs) = x ∷ take n xs

  -- `v` at the `n` indices from `i` on.
  abbrev pub fill : List A → ℕ → ℕ → A → List A
  fill xs i zero v = xs
  fill xs i (suc n) v = fill (set xs i v) (suc i) n v

module _ {ℓ} {A : Type ℓ} where
  pub length-set : (xs : List A) (i : ℕ) (v : A) → length (set xs i v) ≡ length xs
  length-set [] i v = refl
  length-set (x ∷ xs) zero v = refl
  length-set (x ∷ xs) (suc i) v = ap suc (length-set xs i v)

  pub length-replicate : (n : ℕ) (v : A) → length (replicate n v) ≡ n
  length-replicate zero v = refl
  length-replicate (suc n) v = ap suc (length-replicate n v)

  pub length-fill : (xs : List A) (i n : ℕ) (v : A) → length (fill xs i n v) ≡ length xs
  length-fill xs i zero v = refl
  length-fill xs i (suc n) v = rw (length-fill (set xs i v) (suc i) n v) (length-set xs i v)

  pub get_or-set_self :
      (xs : List A) (i : ℕ) (v d : A) → i < length xs → get_or (set xs i v) i d ≡ v
  get_or-set_self [] i v d h = elim h [ ]
  get_or-set_self (x ∷ xs) zero v d h = refl
  get_or-set_self (x ∷ xs) (suc i) v d h = get_or-set_self xs i v d (omega arith)

  pub get_or-set_ne :
      (xs : List A) {i j : ℕ} (v d : A) → i ≢ j → get_or (set xs i v) j d ≡ get_or xs j d
  get_or-set_ne [] v d h = refl
  get_or-set_ne (x ∷ xs) {i = zero} {j = zero} v d h = absurd (h refl)
  get_or-set_ne (x ∷ xs) {i = zero} {j = suc j} v d h = refl
  get_or-set_ne (x ∷ xs) {i = suc i} {j = zero} v d h = refl
  get_or-set_ne (x ∷ xs) {i = suc i} {j = suc j} v d h = get_or-set_ne xs v d (λ e. h (ap suc e))
