-- ===== src/Spec/Refine/Signed.antt =====
-- The signed refinement against what a signed comparison means.
pub mod Branches
use rand_verifier.Prelude.{
  true, false, not, some, List, [], ◌∷◌, Bool-cases, Option-cases, inl, inr, ◌||◌, ℕ, ◌-◌, ◌^◌, ◌<◌,
  ◌≡◌, Bool, arith, if◌then◌else◌, refl, ap, ◌∙◌,
}
use rand_verifier.Prelude.Int.{
  ◌+ℤ◌, ◌-ℤ◌, +ℤ_parts, -ℤ_parts, max_ℤ, min_ℤ, ltb_ℤ, leb_ℤ, eqb_ℤ, ℤ, pos, negsuc, ◌≤ℤ◌,
}
use rand_verifier.Spec.Value.{as_i64, Range, as_signed}
use rand_verifier.Spec.Value.Interval.{InRange, IsRange}
use rand_verifier.Spec.Value.Shift.{as_signed_bounds}
use rand_verifier.Spec.Refine.{
  take_signed, only_if, i64_min, i64_max, Cmp, cmp_eq, cmp_ne, cmp_lt, cmp_le, cmp_gt, cmp_ge,
  unsigned_ends, signed_cmp_refine, negate, Successors,
}
use rand_verifier.Spec.Refine.Unsigned.{InAny}

-- What a signed comparison of two `u64` means.
unfoldable pub holds_signed : Cmp → ℕ → ℕ → Bool
holds_signed cmp_eq x y = eqb_ℤ (as_i64 x) (as_i64 y)
holds_signed cmp_ne x y = not (eqb_ℤ (as_i64 x) (as_i64 y))
holds_signed cmp_lt x y = ltb_ℤ (as_i64 x) (as_i64 y)
holds_signed cmp_le x y = leb_ℤ (as_i64 x) (as_i64 y)
holds_signed cmp_gt x y = ltb_ℤ (as_i64 y) (as_i64 x)
holds_signed cmp_ge x y = leb_ℤ (as_i64 y) (as_i64 x)

-- A number between two signed ends of one sign lies between their unsigned forms.
between_ends :
    (lo hi : ℤ) (x : ℕ)
    → x < 2 ^ 64
    → lo ≤ℤ as_i64 x
    → as_i64 x ≤ℤ hi
    → negsuc (2 ^ 63 - 1) ≤ℤ lo
    → hi ≤ℤ pos (2 ^ 63 - 1)
    → leb_ℤ (pos 0) lo ≡ leb_ℤ (pos 0) hi
    → InRange x (unsigned_ends lo hi)
between_ends lo hi x f p q a b s = ground arith

abbrev pub InSigned : ℕ → ℤ × ℤ → Type 0
InSigned x a = (a.0 ≤ℤ as_i64 x) × (as_i64 x ≤ℤ a.1)

-- The signed ends of an interval: they fit an `i64` and have one sign.
pub record IsSigned (a : ℤ × ℤ) : Type 0 where
  above : negsuc (2 ^ 63 - 1) ≤ℤ a.0
  below : a.1 ≤ℤ pos (2 ^ 63 - 1)
  one_sign : leb_ℤ (pos 0) a.0 ≡ leb_ℤ (pos 0) a.1

pub as_signed-IsSigned : (a : Range) (s : ℤ × ℤ) → IsRange a → as_signed a ≡ some s → IsSigned s
unfolding as_signed
as_signed-IsSigned a s v e = record {
  above = ground arith;
  below = ground arith;
  one_sign = ground arith;
}

-- A part of such an interval around a member, in unsigned form.
part-InRange :
    (d : ℤ × ℤ) (lo hi : ℤ) (x : ℕ)
    → IsSigned d
    → x < 2 ^ 64
    → d.0 ≤ℤ lo
    → lo ≤ℤ as_i64 x
    → as_i64 x ≤ℤ hi
    → hi ≤ℤ d.1
    → InRange x (unsigned_ends lo hi)
part-InRange d lo hi x v f p q r s =
    between_ends lo hi x f q r (omega (arith, v.above)) (omega (arith, v.below))
      (ground (arith, v.one_sign))

-- The end of two that is nearer to the inside.
below-max : (a b z : ℤ) → a ≤ℤ z → b ≤ℤ z → (max_ℤ a b ≤ℤ z) × (a ≤ℤ max_ℤ a b)
below-max a b z p q = ground arith

above-min : (a b z : ℤ) → z ≤ℤ a → z ≤ℤ b → (z ≤ℤ min_ℤ a b) × (min_ℤ a b ≤ℤ a)
above-min a b z p q = ground arith

-- A smaller number is at most the one before.
before : (a b : ℤ) → ltb_ℤ a b ≡ true → a ≤ℤ (b -ℤ pos 1)
before a b h = ground (arith, -ℤ_parts b (pos 1))

after : (a b : ℤ) → ltb_ℤ a b ≡ true → (a +ℤ pos 1) ≤ℤ b
after a b h = ground (arith, +ℤ_parts a (pos 1))

leb-true : (a b c : ℤ) → a ≤ℤ b → b ≤ℤ c → leb_ℤ a c ≡ true
leb-true a b c p q = ground arith

InAny-kept : (x : ℕ) (b : Bool) (r : Range) → b ≡ true → InRange x r → InAny x (only_if b r)
InAny-kept x b r e h = rw e (inl h)

-- Both ends of a list that a test guards.
InAny-guarded :
    (x : ℕ) (b : Bool) (rs : List Range) → b ≡ false → InAny x rs → InAny x (if b then [] else rs)
InAny-guarded x b rs e h = rw e h

-- The comparisons whose source's interval is used as a bound alone.
unfoldable pub bound_only : Cmp → Bool
bound_only cmp_ne = false
bound_only _ = true

module _ (d s : ℤ × ℤ) (x y : ℕ) (vd : IsSigned d) (f : x < 2 ^ 64) (hx : InSigned x d)
    (hy : InSigned y s) where
  within :
      (lo hi : ℤ)
      → d.0 ≤ℤ lo
      → lo ≤ℤ as_i64 x
      → as_i64 x ≤ℤ hi
      → hi ≤ℤ d.1
      → InRange x (unsigned_ends lo hi)
  within lo hi p q r t = part-InRange d lo hi x vd f p q r t

  below_top : (n : ℤ) → as_i64 x ≤ℤ n → InRange x (unsigned_ends d.0 (min_ℤ d.1 n))
  below_top n h =
      let (r, t) = above-min d.1 n (as_i64 x) hx.1 h in
      within d.0 (min_ℤ d.1 n) (omega arith) hx.0 r t

  above_bottom : (n : ℤ) → n ≤ℤ as_i64 x → InRange x (unsigned_ends (max_ℤ d.0 n) d.1)
  above_bottom n h =
      let (q, p) = below-max d.0 n (as_i64 x) hx.0 h in
      within (max_ℤ d.0 n) d.1 p q hx.1 (omega arith)

  keeps_eq : eqb_ℤ (as_i64 x) (as_i64 y) ≡ true → InAny x (take_signed d s cmp_eq)
  unfolding take_signed
  keeps_eq h =
      let same : (s.0 ≤ℤ as_i64 x) × (as_i64 x ≤ℤ s.1) = ground arith in
      let (q, p) = below-max d.0 s.0 (as_i64 x) hx.0 same.0 in
      let (r, t) = above-min d.1 s.1 (as_i64 x) hx.1 same.1 in
      InAny-kept x _ _ (leb-true (max_ℤ d.0 s.0) (as_i64 x) (min_ℤ d.1 s.1) q r)
        (within (max_ℤ d.0 s.0) (min_ℤ d.1 s.1) p q r t)

  keeps_lt : ltb_ℤ (as_i64 x) (as_i64 y) ≡ true → InAny x (take_signed d s cmp_lt)
  unfolding take_signed i64_min
  keeps_lt h =
      let l : ltb_ℤ (as_i64 x) s.1 ≡ true = ground arith in
      let r = before (as_i64 x) s.1 l in
      let (m, t) = above-min d.1 (s.1 -ℤ pos 1) (as_i64 x) hx.1 r in
      InAny-guarded x _ _ (ground (arith, vd.above)) (
        InAny-kept x _ _ (leb-true d.0 (as_i64 x) (min_ℤ d.1 (s.1 -ℤ pos 1)) hx.0 m)
          (below_top (s.1 -ℤ pos 1) r))

  keeps_le : leb_ℤ (as_i64 x) (as_i64 y) ≡ true → InAny x (take_signed d s cmp_le)
  unfolding take_signed
  keeps_le h =
      let l : as_i64 x ≤ℤ s.1 = ground arith in
      InAny-guarded x (ltb_ℤ s.1 d.0) _ (ground arith) (inl (below_top s.1 l))

  keeps_gt : ltb_ℤ (as_i64 y) (as_i64 x) ≡ true → InAny x (take_signed d s cmp_gt)
  unfolding take_signed i64_max
  keeps_gt h =
      let l : ltb_ℤ s.0 (as_i64 x) ≡ true = ground arith in
      InAny-guarded x (leb_ℤ d.1 s.0 || eqb_ℤ s.0 i64_max) _ (ground (arith, vd.below))
        (inl (above_bottom (s.0 +ℤ pos 1) (after s.0 (as_i64 x) l)))

  keeps_ge : leb_ℤ (as_i64 y) (as_i64 x) ≡ true → InAny x (take_signed d s cmp_ge)
  unfolding take_signed
  keeps_ge h =
      let l : s.0 ≤ℤ as_i64 x = ground arith in
      InAny-guarded x (ltb_ℤ d.1 s.0) _ (ground arith) (inl (above_bottom s.0 l))

  pub take_signed-keeps :
      (cmp : Cmp)
      → bound_only cmp ≡ true
      → holds_signed cmp x y ≡ true
      → InAny x (take_signed d s cmp)
  unfolding holds_signed bound_only
  take_signed-keeps cmp_eq b h = keeps_eq h
  take_signed-keeps cmp_ne b h = absurd (cc)
  take_signed-keeps cmp_lt b h = keeps_lt h
  take_signed-keeps cmp_le b h = keeps_le h
  take_signed-keeps cmp_gt b h = keeps_gt h
  take_signed-keeps cmp_ge b h = keeps_ge h
