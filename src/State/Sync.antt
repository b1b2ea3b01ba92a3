-- ===== src/State/Sync.antt =====
-- The sync of src/state.rs against the members of the bounds.
use rand_verifier.Tnum.{from_range}
use rand_verifier.Tnum.Members.{Contains, IsNormal}
use rand_verifier.Tnum.Range.{from_range-IsNormal, from_range-Contains}
use rand_verifier.Tnum.Bitwise.{intersect-Contains}
use rand_verifier.Prelude.{
  Bool, ℕ, ◌-◌, ◌/◌, ◌%◌, ◌^◌, ◌≤◌, ◌<◌, ◌≡◌, ◌↔◌, ◌==◌, ltb, leb, ◌||◌, refl, arith, Bool-cases,
  inl, inr, false,
}
use rand_verifier.Prelude.Int.{ℤ, pos, ◌≤ℤ◌, leb_ℤ, ltb_ℤ}
use rand_verifier.Insn.Fields.{of_bits, to_bits}
use rand_verifier.State.{
  ScalarBounds, combined, with_u32, with_s32, with_tnum, synced, i64_min, i64_max, i32_min, i32_max,
}

-- The ends are of the source's types.
abbrev pub Fits : ScalarBounds → Type 0
Fits b =
    (i64_min ≤ℤ b.smin)
    × (b.smin ≤ℤ i64_max)
    × (i64_min ≤ℤ b.smax)
    × (b.smax ≤ℤ i64_max)
    × (b.umin < 2 ^ 64)
    × (b.umax < 2 ^ 64)

-- `x`, a `u64`, is in both ranges.
abbrev pub InRanges : ScalarBounds → ℕ → Type 0
InRanges b x = (b.smin ≤ℤ of_bits 64 x) × (of_bits 64 x ≤ℤ b.smax) × (b.umin ≤ x) × (x ≤ b.umax)

module _ (b : ScalarBounds) (x : ℕ) (f : Fits b) (l : x < 2 ^ 64) where
  -- `combined` keeps the members of ranges that are not empty.
  combined-InRanges : b.smin ≤ℤ b.smax → InRanges b x ↔ InRanges (combined b) x
  unfolding combined
  combined-InRanges p = elim (Bool-cases (leb_ℤ (pos 0) b.smin || ltb_ℤ b.smax (pos 0))) [
    | inl e ↦ rw (combined, e) (λ v. ground (arith, f, v), λ v. ground (arith, f, v))
    | inr e ↦ elim (Bool-cases (ltb b.umax (2 ^ 63))) [
      | inl g ↦ rw (combined, e, g) (λ v. ground (arith, f, v), λ v. ground (arith, f, v))
      | inr g ↦ elim (Bool-cases (leb (2 ^ 63) b.umin)) [
        | inl h ↦ rw (combined, e, g, h) (λ v. ground (arith, f, v), λ v. ground (arith, f, v))
        | inr h ↦ rw (combined, e, g, h) (λ v. v, λ v. v)
      ]
    ]
  ]

  combined-Fits : Fits (combined b)
  unfolding combined
  combined-Fits = elim (Bool-cases (leb_ℤ (pos 0) b.smin || ltb_ℤ b.smax (pos 0))) [
    | inl e ↦ rw (combined, e) (ground (arith, f))
    | inr e ↦ elim (Bool-cases (ltb b.umax (2 ^ 63))) [
      | inl g ↦ rw (combined, e, g) (ground (arith, f))
      | inr g ↦ elim (Bool-cases (leb (2 ^ 63) b.umin)) [
        | inl h ↦ rw (combined, e, g, h) (ground (arith, f))
        | inr h ↦ rw (combined, e, g, h) f
      ]
    ]
  ]

  combined-tnum : (combined b).tnum ≡ b.tnum
  unfolding combined
  combined-tnum = ground arith

  -- The views, with what holds of a member's halves.
  with_u32-holds :
      InRanges b x
      → (low high : ℕ) × (with_u32 b ≡ record b { u32_min = low; u32_max = high })
        × (low ≤ x % 2 ^ 32)
        × (x % 2 ^ 32 ≤ high)
  unfolding with_u32
  with_u32-holds v = elim (Bool-cases (b.umin / 2 ^ 32 == b.umax / 2 ^ 32)) [
    | inl e ↦ (
      b.umin % 2 ^ 32,
      b.umax % 2 ^ 32,
      rw (with_u32, e) refl,
      ground (arith, f, v),
      ground (arith, f, v),
    )
    | inr e ↦ (0, 2 ^ 32 - 1, rw (with_u32, e) refl, omega arith, omega arith)
  ]

  with_s32-holds :
      InRanges b x
      → (low high : ℤ) × (with_s32 b ≡ record b { s32_min = low; s32_max = high })
        × (low ≤ℤ of_bits 32 (x % 2 ^ 32))
        × (of_bits 32 (x % 2 ^ 32) ≤ℤ high)
  unfolding with_s32
  with_s32-holds v =
      let low = of_bits 32 (to_bits 64 b.smin % 2 ^ 32) in
      let high = of_bits 32 (to_bits 64 b.smax % 2 ^ 32) in
      elim (Bool-cases (to_bits 64 b.smin / 2 ^ 32 == to_bits 64 b.smax / 2 ^ 32)) [
        | inl e ↦ elim (Bool-cases (leb_ℤ low high)) [
          | inl g ↦
              (low, high, rw (with_s32, e, g) refl, ground (arith, f, v), ground (arith, f, v))
          | inr g ↦ (
            i32_min,
            i32_max,
            rw (with_s32, e, g) refl,
            ground (arith, f, v),
            ground (arith, f, v),
          )
        ]
        | inr e ↦
            (i32_min, i32_max, rw (with_s32, e) refl, ground (arith, f, v), ground (arith, f, v))
      ]

-- All that is tracked of a scalar holds of `x`.
pub record InBounds (b : ScalarBounds) (x : ℕ) : Type 0 where
  pub ranges : InRanges b x
  pub unsigned32 : (b.u32_min ≤ x % 2 ^ 32) × (x % 2 ^ 32 ≤ b.u32_max)
  pub signed32 : (b.s32_min ≤ℤ of_bits 32 (x % 2 ^ 32)) × (of_bits 32 (x % 2 ^ 32) ≤ℤ b.s32_max)
  pub member : Contains b.tnum x

abbrev is_empty_range : ScalarBounds → Bool
is_empty_range b = ltb_ℤ b.smax b.smin || ltb b.umax b.umin

-- For 64-bit ends and a tracked number with disjoint u64 fields, a number in both ranges that the
-- tracked number contains is in all that `synced` gives: both 64-bit ranges, the 32-bit views of
-- its low half, and the tracked number.
pub synced-InBounds :
    (b : ScalarBounds) (x : ℕ)
    → Fits b
    → IsNormal b.tnum
    → InRanges b x
    → Contains b.tnum x
    → InBounds (synced b) x
unfolding synced
synced-InBounds b x f n v c =
    let l : x < 2 ^ 64 = c.fits in
    let full : is_empty_range b ≡ false = ground (arith, v) in
    let c1 = combined b in
    let v1 : InRanges c1 x = (combined-InRanges b x f l (ground (arith, v))).0 v in
    let f1 : Fits c1 = combined-Fits b x f l in
    let (ulow, uhigh, ue, u0, u1) = with_u32-holds c1 x f1 l v1 in
    let c2 = record c1 { u32_min = ulow; u32_max = uhigh } in
    let (slow, shigh, se, s0, s1) = with_s32-holds c2 x f1 l v1 in
    let same : c1.tnum ≡ b.tnum = combined-tnum b x f l in
    let range = from_range c1.umin c1.umax in
    let lo : c1.umin < 2 ^ 64 = ground (arith, f1) in
    let hi : c1.umax < 2 ^ 64 = ground (arith, f1) in
    rw (synced, full, ue, se, with_tnum)
      (record {
        ranges = v1;
        unsigned32 = (u0, u1);
        signed32 = (s0, s1);
        member =
            intersect-Contains c1.tnum range (rw same n) (from_range-IsNormal c1.umin c1.umax lo hi)
              x (rw same c)
              (from_range-Contains c1.umin c1.umax lo hi x (ground (arith, v1))
                (ground (arith, v1)));
      })

-- The views change no other field.
with_u32-shape :
    (b : ScalarBounds) → (low high : ℕ) × (with_u32 b ≡ record b { u32_min = low; u32_max = high })
unfolding with_u32
with_u32-shape b = elim (Bool-cases (b.umin / 2 ^ 32 == b.umax / 2 ^ 32)) [
  | inl e ↦ (b.umin % 2 ^ 32, b.umax % 2 ^ 32, rw (with_u32, e) refl)
  | inr e ↦ (0, 2 ^ 32 - 1, rw (with_u32, e) refl)
]

with_s32-shape :
    (b : ScalarBounds) → (low high : ℤ) × (with_s32 b ≡ record b { s32_min = low; s32_max = high })
unfolding with_s32
with_s32-shape b =
    let low = of_bits 32 (to_bits 64 b.smin % 2 ^ 32) in
    let high = of_bits 32 (to_bits 64 b.smax % 2 ^ 32) in
    elim (Bool-cases (to_bits 64 b.smin / 2 ^ 32 == to_bits 64 b.smax / 2 ^ 32)) [
      | inl e ↦ elim (Bool-cases (leb_ℤ low high)) [
        | inl g ↦ (low, high, rw (with_s32, e, g) refl)
        | inr g ↦ (i32_min, i32_max, rw (with_s32, e, g) refl)
      ]
      | inr e ↦ (i32_min, i32_max, rw (with_s32, e) refl)
    ]

not_empty : (b : ScalarBounds) → is_empty_range b ≡ false → b.smin ≤ℤ b.smax
not_empty b e = ground arith

-- For 64-bit ends, `synced` neither adds nor removes a u64 of the two 64-bit ranges, and leaves an
-- empty range empty.
pub synced-InRanges :
    (b : ScalarBounds) (x : ℕ) → Fits b → x < 2 ^ 64 → InRanges b x ↔ InRanges (synced b) x
unfolding synced with_u32 with_s32 with_tnum
synced-InRanges b x f l = elim (Bool-cases (is_empty_range b)) [
  | inl e ↦ rw (synced, e) (λ v. v, λ v. v)
  | inr e ↦
      let c = combined b in
      let (low, high, p) = with_u32-shape c in
      let (low', high', q) = with_s32-shape (record c { u32_min = low; u32_max = high }) in
      rw (synced, e, p, q, with_tnum) (combined-InRanges b x f l (not_empty b e))
]
