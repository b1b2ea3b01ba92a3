-- ===== src/Spec/Refine/Signed/Branches.antt =====
-- Both successors of a signed comparison.
use rand_verifier.Prelude.{
  true, false, not, some, List, [], ◌∷◌, Bool-cases, Option-cases, inl, inr, ℕ, ◌≡◌, Bool, arith,
  refl, ap, ◌∙◌,
}
use rand_verifier.Prelude.Int.{ℤ}
use rand_verifier.Spec.Value.{Range, as_signed}
use rand_verifier.Spec.Value.Interval.{InRange, IsRange}
use rand_verifier.Spec.Value.Shift.{as_signed_bounds}
use rand_verifier.Spec.Refine.{
  take_signed, Cmp, cmp_eq, cmp_ne, cmp_lt, cmp_le, cmp_gt, cmp_ge, signed_cmp_refine, negate,
  Successors,
}
use rand_verifier.Spec.Refine.Unsigned.{InAny}
use rand_verifier.Spec.Refine.Signed.{
  take_signed-keeps, as_signed-IsSigned, bound_only, holds_signed,
}

holds_signed-negate :
    (cmp : Cmp) (x y : ℕ) → holds_signed (negate cmp) x y ≡ not (holds_signed cmp x y)
unfolding holds_signed negate
holds_signed-negate cmp_eq x y = refl
holds_signed-negate cmp_ne x y = ground arith
holds_signed-negate cmp_lt x y = ground arith
holds_signed-negate cmp_le x y = ground arith
holds_signed-negate cmp_gt x y = ground arith
holds_signed-negate cmp_ge x y = ground arith

-- The comparisons that order two numbers.
unfoldable pub orders : Cmp → Bool
orders cmp_eq = false
orders cmp_ne = false
orders _ = true

orders-bound_only : (cmp : Cmp) → orders cmp ≡ true → bound_only cmp ≡ true
unfolding orders bound_only
orders-bound_only cmp_eq h = refl
orders-bound_only cmp_ne h = h
orders-bound_only cmp_lt h = h
orders-bound_only cmp_le h = h
orders-bound_only cmp_gt h = h
orders-bound_only cmp_ge h = h

orders-negate : (cmp : Cmp) → orders cmp ≡ true → orders (negate cmp) ≡ true
unfolding orders negate
orders-negate cmp_eq h = absurd cc
orders-negate cmp_ne h = absurd cc
orders-negate cmp_lt h = h
orders-negate cmp_le h = h
orders-negate cmp_gt h = h
orders-negate cmp_ge h = h

-- The successor of a branch that is taken, or not.
unfoldable pub successor : Bool → Successors → List Range
successor true r = r.0
successor false r = r.1

-- For u64 intervals and an order comparison, a member of the left interval that a signed
-- comparison with some member of the source sends to a successor is kept on that successor.
pub signed_cmp_refine-keeps :
    (d s : Range) (x y : ℕ) (cmp : Cmp)
    → IsRange d
    → IsRange s
    → InRange x d
    → InRange y s
    → orders cmp ≡ true
    → InAny x (successor (holds_signed cmp x y) (signed_cmp_refine d s cmp))
unfolding signed_cmp_refine successor
signed_cmp_refine-keeps d s x y cmp vd vs hx hy o = elim (Option-cases (as_signed d)) [
  | inl e ↦ rw (signed_cmp_refine, e) (kept_whole (holds_signed cmp x y))
  | inr (sd, e) ↦ elim (Option-cases (as_signed s)) [
    | inl g ↦ rw (signed_cmp_refine, e, g) (kept_whole (holds_signed cmp x y))
    | inr (ss, g) ↦
        rw (signed_cmp_refine, e, g)
          (elim (Bool-cases (holds_signed cmp x y)) [
            | inl h ↦ rw h (kept sd ss e g cmp o h)
            | inr h ↦ rw h (
                kept sd ss e g (negate cmp) (orders-negate cmp o)
                  (holds_signed-negate cmp x y ∙ ap not h))
          ])
  ]
]
  where
    kept_whole : (b : Bool) → InAny x (successor b (d ∷ [], d ∷ []))
    kept_whole true = inl hx
    kept_whole false = inl hx

    kept :
        (sd ss : ℤ × ℤ)
        → as_signed d ≡ some sd
        → as_signed s ≡ some ss
        → (c : Cmp) → orders c ≡ true
        → holds_signed c x y ≡ true
        → InAny x (take_signed sd ss c)
    kept sd ss e g c oc h =
        take_signed-keeps sd ss x y (as_signed-IsSigned d sd vd e) (omega arith)
          (as_signed_bounds d sd.0 sd.1 x vd e hx) (as_signed_bounds s ss.0 ss.1 y vs g hy) c
          (orders-bound_only c oc) h
