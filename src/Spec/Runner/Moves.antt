-- ===== src/Spec/Runner/Moves.antt =====
-- The 32-bit move of a register, against the cut of its members.
use rand_verifier.Prelude.{ℕ, ◌+◌, ◌^◌, ◌≤◌, ◌<◌, ◌≡◌, [], ◌∷◌, ok, refl, arith, bit_and, min}
use rand_verifier.Word.Bits.{bit_and-low_mask}
use rand_verifier.Spec.Value.{Range, scalar, truncate32}
use rand_verifier.Spec.Value.Interval.{IsRange, InRange, truncate32-mod}
use rand_verifier.Spec.State.{SpecState, reg, set_reg}
use rand_verifier.Spec.Runner.Branch.{item}
use rand_verifier.Spec.Runner.Step.{mov32_step}

-- The interval that the move writes.
abbrev pub mov32_range : Range → Range
mov32_range a = (bit_and a.0 0xFFFF_FFFF, min a.1 0xFFFF_FFFF)

-- A 32-bit move of a scalar writes the low half of its lower end and its upper end, at most 2^32 - 1.
mov32_step-range :
    (st : SpecState) (pc dst src : ℕ) (a : Range)
    → reg st src ≡ scalar a.0 a.1
    → mov32_step st pc dst src
      ≡ ok (item (pc + 1) (set_reg st dst (scalar (mov32_range a).0 (mov32_range a).1)) ∷ [])
unfolding mov32_step
mov32_step-range st pc dst src a h = rw h refl

-- The 32-bit move is right for intervals whose ends have one upper half equal to 0.
pub mov32_range-InRange :
    (a : Range) (x : ℕ)
    → IsRange a
    → a.1 < 2 ^ 32
    → InRange x a
    → InRange (truncate32 x) (mov32_range a)
mov32_range-InRange a x v l h = ground (arith, truncate32-mod x, bit_and-low_mask 32 a.0)

-- A 32-bit move of a scalar whose interval starts above 0 and below 2^32 and reaches 2^32 writes
-- an interval that does not have the low half of its member 2^32.
pub mov32_step-loses :
    (st : SpecState) (pc dst src : ℕ) (a : Range)
    → reg st src ≡ scalar a.0 a.1
    → 0 < a.0
    → a.0 < 2 ^ 32
    → 2 ^ 32 ≤ a.1
    → (mov32_step st pc dst src
        ≡ ok (item (pc + 1) (set_reg st dst (scalar (mov32_range a).0 (mov32_range a).1)) ∷ []))
      × InRange (2 ^ 32) a
      × (truncate32 (2 ^ 32) < (mov32_range a).0)
mov32_step-loses st pc dst src a h p q l = (
  mov32_step-range st pc dst src a h,
  omega arith,
  omega (arith, truncate32-mod (2 ^ 32), bit_and-low_mask 32 a.0),
)
