-- ===== src/Spec/Refine/Unsigned.antt =====
-- The unsigned refinement against what the comparison means.
use rand_verifier.Prelude.{
  ◌≤◌, ◌-◌, ◌+◌, min, max, false, not, refl, ap, ◌∙◌, ℕ, ◌^◌, ◌<◌, ◌≡◌, ◌↔◌, ◌⊎◌, inl, inr, Bool,
  true, not, ◌==◌, ltb, leb, List, [], ◌∷◌, arith, ◌++◌, ◌&&◌, ◌||◌, Bool-cases,
}
use native.Mathlib.Decide.{dec_lt}
use rand_verifier.Spec.Value.{Range}
use rand_verifier.Spec.Value.Interval.{IsRange, InRange}
use rand_verifier.Spec.Refine.{
  unsigned_cmp_refine, negate, Cmp, cmp_eq, cmp_ne, cmp_lt, cmp_le, cmp_gt, cmp_ge, take_unsigned,
  only_if,
}

-- What a comparison of two `u64` means.
unfoldable pub holds : Cmp → ℕ → ℕ → Bool
holds cmp_eq x y = x == y
holds cmp_ne x y = not (x == y)
holds cmp_lt x y = ltb x y
holds cmp_le x y = leb x y
holds cmp_gt x y = ltb y x
holds cmp_ge x y = leb y x

-- A number is in one of the intervals of a successor.
abbrev pub InAny : ℕ → List Range → Type 0
InAny x [] = ⊥
InAny x (r ∷ rs) = InRange x r ⊎ InAny x rs

InAny-only_if : (x : ℕ) (b : Bool) (r : Range) → InAny x (only_if b r) ↔ ((b ≡ true) × InRange x r)
InAny-only_if x b r = ground arith

InAny-append : (x : ℕ) (rs qs : List Range) → InAny x (rs ++ qs) ↔ (InAny x rs ⊎ InAny x qs)
InAny-append x [] qs = ground arith
InAny-append x (r ∷ rs) qs = ground (arith, InAny-append x rs qs)

module _ (d : Range) (v : IsRange d) (y : ℕ) (fits : y < 2 ^ 64) (x : ℕ) where
  Exact : Cmp → Type 0
  Exact cmp = InAny x (take_unsigned d (y, y) cmp) ↔ (InRange x d × (holds cmp x y ≡ true))

  Exact-eq : Exact cmp_eq
  unfolding take_unsigned holds Exact
  Exact-eq = (
    λ h. let p = (InAny-only_if x _ _).0 h in ground arith,
    λ h. (InAny-only_if x _ _).1 (ground arith),
  )

  Exact-lt : Exact cmp_lt
  unfolding take_unsigned holds Exact
  Exact-lt = elim (Bool-cases ((y == 0) || ltb y d.0)) [
    | inl none_left ↦ rw none_left (ground arith)
    | inr some_left ↦ rw some_left (
      λ h. let p = (InAny-only_if x _ _).0 h in ground arith,
      λ h. (InAny-only_if x _ _).1 (ground arith),
    )
  ]

  keeps-ne : InRange x d × (holds cmp_ne x y ≡ true) → InAny x (take_unsigned d (y, y) cmp_ne)
  unfolding take_unsigned holds
  keeps-ne h = elim (Bool-cases (leb y d.0 && leb d.1 y)) [
    | inl none_left ↦ absurd (ground arith)
    | inr some_left ↦ rw some_left (
        (InAny-append x (only_if (ltb d.0 y) (d.0, min d.1 (y - 1)))
            (only_if (ltb y d.1) (y + 1, d.1))).1
          (elim (dec_lt x y) [
            | yes l ↦ inl ((InAny-only_if x (ltb d.0 y) (d.0, min d.1 (y - 1))).1 (ground arith))
            | no g ↦ inr ((InAny-only_if x (ltb y d.1) (y + 1, d.1)).1 (ground arith))
          ]))
  ]

  apart-ne : InAny x (take_unsigned d (y, y) cmp_ne) → holds cmp_ne x y ≡ true
  unfolding take_unsigned holds
  apart-ne m = elim (Bool-cases (leb y d.0 && leb d.1 y)) [
    | inl none_left ↦ absurd (rw none_left at m)
    | inr some_left ↦
        elim ((InAny-append x (only_if (ltb d.0 y) (d.0, min d.1 (y - 1)))
            (only_if (ltb y d.1) (y + 1, d.1))).0
          (rw some_left at m)) [
            | inl l ↦
                let p = (InAny-only_if x (ltb d.0 y) (d.0, min d.1 (y - 1))).0 l in ground arith
            | inr r ↦ let p = (InAny-only_if x (ltb y d.1) (y + 1, d.1)).0 r in ground arith
          ]
  ]

  -- What the intervals of a successor must be: every member of the left interval for which the
  -- comparison holds is in one, and it holds of all that is in one.
  record IsFaithful (cmp : Cmp) : Type 0 where
    keeps : InRange x d × (holds cmp x y ≡ true) → InAny x (take_unsigned d (y, y) cmp)
    true_of : InAny x (take_unsigned d (y, y) cmp) → holds cmp x y ≡ true

  IsFaithful-of_Exact : {cmp : Cmp} → Exact cmp → IsFaithful cmp
  unfolding Exact
  IsFaithful-of_Exact e = record { keeps = e.1; true_of = λ m. (e.0 m).1 }

  take-IsFaithful : (cmp : Cmp) → IsFaithful cmp
  unfolding take_unsigned holds Exact
  take-IsFaithful cmp_eq = IsFaithful-of_Exact Exact-eq
  take-IsFaithful cmp_ne = record { keeps = keeps-ne; true_of = apart-ne }
  take-IsFaithful cmp_lt = IsFaithful-of_Exact Exact-lt
  take-IsFaithful cmp_le = record { keeps = ground arith; true_of = ground arith }
  take-IsFaithful cmp_gt = record { keeps = ground arith; true_of = ground arith }
  take-IsFaithful cmp_ge = record { keeps = ground arith; true_of = ground arith }

-- The comparisons that the refinement reads right whatever the source's interval.
unfoldable pub interval_exact : Cmp → Bool
interval_exact cmp_eq = true
interval_exact cmp_le = true
interval_exact cmp_gt = true
interval_exact cmp_ge = true
interval_exact _ = false

-- A member of the left interval that makes ==, <=, > or >= true with some member of the source's
-- u64 interval is kept on the taken successor.
pub take-keeps :
    (cmp : Cmp) (d s : Range) (x y : ℕ)
    → interval_exact cmp ≡ true
    → IsRange s
    → InRange x d
    → InRange y s
    → holds cmp x y ≡ true
    → x < 2 ^ 64
    → InAny x (take_unsigned d s cmp)
unfolding take_unsigned holds interval_exact
take-keeps cmp_eq d s x y e v hx hy h l =
    (InAny-only_if x _ (max d.0 s.0, min d.1 s.1)).1 (ground arith)
take-keeps cmp_ne d s x y e v hx hy h l = absurd (ground arith)
take-keeps cmp_lt d s x y e v hx hy h l = absurd (ground arith)
take-keeps cmp_le d s x y e v hx hy h l = ground arith
take-keeps cmp_gt d s x y e v hx hy h l = ground arith
take-keeps cmp_ge d s x y e v hx hy h l = ground arith

-- Where the source interval is [0, n] with n above the left interval's lower end, the taken
-- successor of < is dropped, although that end and n make the comparison true.
pub take-lt-dropped :
    (d : Range) (n : ℕ)
    → d.0 < n
    → (take_unsigned d (0, n) cmp_lt ≡ []) × (holds cmp_lt d.0 n ≡ true)
unfolding take_unsigned holds
take-lt-dropped d n l = ground arith

holds-negate : (cmp : Cmp) (x y : ℕ) → holds (negate cmp) x y ≡ not (holds cmp x y)
unfolding holds negate
holds-negate cmp_eq x y = refl
holds-negate cmp_ne x y = ground arith
holds-negate cmp_lt x y = ground arith
holds-negate cmp_le x y = ground arith
holds-negate cmp_gt x y = ground arith
holds-negate cmp_ge x y = ground arith

-- Against a constant of u64, a member of a u64 interval is kept on the taken successor just where
-- the comparison holds of it and the constant, and on the other just where it does not.
pub unsigned_cmp_refine-splits :
    (d : Range) (y x : ℕ) (cmp : Cmp)
    → IsRange d
    → y < 2 ^ 64
    → InRange x d
    → (InAny x ((unsigned_cmp_refine d (y, y) cmp).0) ↔ (holds cmp x y ≡ true))
      × (InAny x ((unsigned_cmp_refine d (y, y) cmp).1) ↔ (holds cmp x y ≡ false))
unfolding unsigned_cmp_refine
unsigned_cmp_refine-splits d y x cmp v l h =
    let taken = take-IsFaithful d v y l x cmp in
    let fall = take-IsFaithful d v y l x (negate cmp) in
    (
      (taken.true_of, λ e. taken.keeps (h, e)),
      (
        λ m. ground (arith, holds-negate cmp x y, fall.true_of m),
        λ e. fall.keeps (h, holds-negate cmp x y ∙ ap not e),
      ),
    )

-- The taken successor of != against a constant below a left interval of u64 starts right behind
-- the constant, at a number that may lie below the left interval.
pub take-ne-widens :
    (d : Range) (y : ℕ)
    → IsRange d
    → y + 1 < d.0
    → (take_unsigned d (y, y) cmp_ne ≡ (y + 1, d.1) ∷ []) × ¬ InRange (y + 1) d
unfolding take_unsigned
take-ne-widens d y v l = ground arith

-- Where the source's interval covers the left one and ends above its lower end, the taken
-- successor of != is dropped, although that lower end and the source's upper end make the
-- comparison true.
pub take-ne-dropped :
    (d s : Range)
    → s.0 ≤ d.0
    → d.1 ≤ s.1
    → d.0 < s.1
    → (take_unsigned d s cmp_ne ≡ []) × (holds cmp_ne d.0 s.1 ≡ true)
unfolding take_unsigned holds
take-ne-dropped d s p q l = ground arith
