-- ===== src/Spec/Refine.antt =====
-- src/spec/runner.rs: how a comparison cuts the interval of its left register, on both successors.
pub mod Unsigned
pub mod Signed
use rand_verifier.Prelude.{
  ℕ, ◌+◌, ◌-◌, ◌^◌, min, max, Bool, true, false, ◌&&◌, ◌||◌, ◌==◌, ltb, leb, if◌then◌else◌, Option,
  some, none, List, [], ◌∷◌, ◌++◌,
}
use rand_verifier.Prelude.Int.{
  ℤ, pos, negsuc, ◌+ℤ◌, ◌-ℤ◌, ltb_ℤ, leb_ℤ, eqb_ℤ, max_ℤ, min_ℤ, neg_ℤ, rem_euclid,
}
use rand_verifier.Word.{u64_max}
use rand_verifier.Spec.Value.{SpecValue, scalar, unknown_scalar, Range, full, as_signed, as_scalar}

pub data Cmp : Type 0 where
  cmp_eq cmp_ne cmp_lt cmp_le cmp_gt cmp_ge : Cmp

unfoldable pub negate : Cmp → Cmp
negate cmp_eq = cmp_ne
negate cmp_ne = cmp_eq
negate cmp_lt = cmp_ge
negate cmp_ge = cmp_lt
negate cmp_gt = cmp_le
negate cmp_le = cmp_gt

-- The intervals left on the taken successor and on the other; an empty list is an infeasible one.
abbrev pub Successors : Type 0
Successors = List Range × List Range

unfoldable pub self_compare_refine : Cmp → Successors
self_compare_refine cmp_eq = (full ∷ [], [])
self_compare_refine cmp_le = (full ∷ [], [])
self_compare_refine cmp_ge = (full ∷ [], [])
self_compare_refine _ = ([], full ∷ [])

-- `z as u64`.
abbrev pub as_u64 : ℤ → ℕ
as_u64 z = rem_euclid z (2 ^ 64)

unfoldable pub negate_scalar : SpecValue → SpecValue
unfolding unknown_scalar
negate_scalar v = elim (as_scalar v) [
  | none ↦ v
  | some a ↦ elim (as_signed a) [
    | none ↦ unknown_scalar
    | some s ↦ scalar (as_u64 (neg_ℤ s.1)) (as_u64 (neg_ℤ s.0))
  ]
]

-- One interval, where it is not empty.
abbrev pub only_if : Bool → Range → List Range
only_if b r = if b then r ∷ [] else []

unfoldable pub take_unsigned : Range → Range → Cmp → List Range
take_unsigned d s cmp_eq =
    let lo = max d.0 s.0 in let hi = min d.1 s.1 in only_if (leb lo hi) (lo, hi)
take_unsigned d s cmp_ne =
    if leb s.0 d.0 && leb d.1 s.1
    then []
    else only_if (ltb d.0 s.0) (d.0, min d.1 (s.0 - 1)) ++ only_if (ltb s.1 d.1) (s.1 + 1, d.1)
take_unsigned d s cmp_lt =
    if (s.0 == 0) || ltb s.1 d.0
    then []
    else let hi = min d.1 (s.1 - 1) in only_if (leb d.0 hi) (d.0, hi)
take_unsigned d s cmp_le = if ltb s.1 d.0 then [] else (d.0, min d.1 s.1) ∷ []
take_unsigned d s cmp_gt =
    if (s.0 == u64_max) || leb d.1 s.0 then [] else (max d.0 (s.0 + 1), d.1) ∷ []
take_unsigned d s cmp_ge = if ltb d.1 s.0 then [] else (max d.0 s.0, d.1) ∷ []

unfoldable pub unsigned_cmp_refine : Range → Range → Cmp → Successors
unsigned_cmp_refine d s cmp = (take_unsigned d s cmp, take_unsigned d s (negate cmp))

unfoldable pub i64_min : ℤ
i64_min = negsuc (2 ^ 63 - 1)

unfoldable pub i64_max : ℤ
i64_max = pos (2 ^ 63 - 1)

-- An interval of signed ends, back in `u64`.
abbrev pub unsigned_ends : ℤ → ℤ → Range
unsigned_ends lo hi = (as_u64 lo, as_u64 hi)

unfoldable pub take_signed : ℤ × ℤ → ℤ × ℤ → Cmp → List Range
unfolding i64_min i64_max
take_signed d s cmp_eq =
    let lo = max_ℤ d.0 s.0 in let hi = min_ℤ d.1 s.1 in only_if (leb_ℤ lo hi) (unsigned_ends lo hi)
take_signed d s cmp_ne =
    if leb_ℤ s.0 d.0 && leb_ℤ d.1 s.1
    then []
    else only_if (ltb_ℤ d.0 s.0) (unsigned_ends d.0 (min_ℤ d.1 (s.0 -ℤ pos 1)))
      ++ only_if (ltb_ℤ s.1 d.1) (unsigned_ends (s.1 +ℤ pos 1) d.1)
take_signed d s cmp_lt =
    if ltb_ℤ s.1 d.0 || eqb_ℤ s.1 i64_min
    then []
    else let hi = min_ℤ d.1 (s.1 -ℤ pos 1) in only_if (leb_ℤ d.0 hi) (unsigned_ends d.0 hi)
take_signed d s cmp_le = if ltb_ℤ s.1 d.0 then [] else unsigned_ends d.0 (min_ℤ d.1 s.1) ∷ []
take_signed d s cmp_gt =
    if leb_ℤ d.1 s.0 || eqb_ℤ s.0 i64_max
    then []
    else unsigned_ends (max_ℤ d.0 (s.0 +ℤ pos 1)) d.1 ∷ []
take_signed d s cmp_ge = if ltb_ℤ d.1 s.0 then [] else unsigned_ends (max_ℤ d.0 s.0) d.1 ∷ []

unfoldable pub signed_cmp_refine : Range → Range → Cmp → Successors
signed_cmp_refine d s cmp = elim (as_signed d) [
  | none ↦ (d ∷ [], d ∷ [])
  | some sd ↦ elim (as_signed s) [
    | none ↦ (d ∷ [], d ∷ [])
    | some ss ↦ (take_signed sd ss cmp, take_signed sd ss (negate cmp))
  ]
]
