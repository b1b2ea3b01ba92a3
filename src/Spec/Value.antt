-- ===== src/Spec/Value.antt =====
-- src/spec/value.rs: the dynamic values of the safety spec, and its wrapping `u64` intervals.
pub mod Interval
pub mod Shift
use rand_verifier.Prelude.{
  ℕ, ◌+◌, ◌-◌, ◌*◌, ◌/◌, ◌%◌, ◌^◌, min, max, bit_and, Bool, true, false, ◌&&◌, ◌||◌, ◌==◌, ltb, leb,
  if◌then◌else◌, Option, some, none,
}
use rand_verifier.Prelude.Int.{ℤ, pos, negsuc, sub_ℕ, ◌+ℤ◌, ◌-ℤ◌, ltb_ℤ, rem_euclid}
use rand_verifier.Word.{u64_max, shl, shr, sar, is_negative, wrapping_mul}

-- The dynamic value of one register or spilled slot. Scalars are intervals of `u64`; offsets are
-- signed.
pub data SpecValue : Type 0 where
  uninit : SpecValue
  scalar : (lo hi : ℕ) → SpecValue
  ptr_to_stack : (lo hi : ℤ) → SpecValue
  ptr_to_ctx : (off : ℤ) → SpecValue
  ptr_to_map : (key_size value_size map_type : ℕ) → SpecValue
  ptr_to_map_value : (lo hi : ℤ) (size : ℕ) → SpecValue
  ptr_to_map_value_or_null : (size id : ℕ) → SpecValue
  ptr_to_mem : (lo hi : ℤ) (size id : ℕ) → SpecValue
  ptr_to_mem_or_null : (size id : ℕ) → SpecValue

-- An interval of `u64`, its two ends included.
abbrev pub Range : Type 0
Range = ℕ × ℕ

abbrev pub full : Range
full = (0, u64_max)

unfoldable pub unknown_scalar : SpecValue
unknown_scalar = scalar 0 u64_max

unfoldable pub const_scalar : ℕ → SpecValue
const_scalar v = scalar v v

unfoldable pub is_scalar : SpecValue → Bool
is_scalar (scalar lo hi) = true
is_scalar _ = false

unfoldable pub as_scalar : SpecValue → Option Range
as_scalar (scalar lo hi) = some (lo, hi)
as_scalar _ = none

unfoldable pub is_pointer : SpecValue → Bool
is_pointer uninit = false
is_pointer (scalar lo hi) = false
is_pointer _ = true

unfoldable pub rng_add : Range → Range → Range
rng_add a b =
    let lo = a.0 + b.0 in
    let hi = a.1 + b.1 in if lo / 2 ^ 64 == hi / 2 ^ 64 then (lo % 2 ^ 64, hi % 2 ^ 64) else full

-- In signed 128-bit arithmetic, where nothing wraps. `span` is not negative for intervals.
unfoldable pub rng_sub : Range → Range → Range
rng_sub a b =
    let lo = sub_ℕ a.0 b.1 in
    let hi = sub_ℕ a.1 b.0 in
    let span = hi -ℤ lo in
    let folded_lo = rem_euclid lo (2 ^ 64) in
    let folded_hi = pos folded_lo +ℤ span in
    if ltb_ℤ span (pos (2 ^ 64))
    then if ltb_ℤ folded_hi (pos (2 ^ 64)) then (folded_lo, rem_euclid folded_hi (2 ^ 64)) else full
    else full

unfoldable pub rng_and : Range → Range → Range
rng_and a b = (0, min a.1 b.1)

unfoldable pub rng_or : Range → Range → Range
rng_or a b = (max a.0 b.0, u64_max)

unfoldable pub rng_xor : Range → Range → Range
rng_xor a b = full

unfoldable pub rng_lsh : Range → ℕ → Range
rng_lsh a k =
    if k == 0
    then a
    else if leb 64 k
    then (0, 0)
    else if shr a.0 (64 - k) == shr a.1 (64 - k)
    then (shl a.0 k, shl a.1 k)
    else full

unfoldable pub rng_rsh : Range → ℕ → Range
rng_rsh a k = if leb 64 k then (0, 0) else (shr a.0 k, shr a.1 k)

unfoldable pub rng_arsh : Range → ℕ → Range
rng_arsh a k =
    if leb 64 k
    then if is_negative a.0 then (u64_max, u64_max) else (0, 0)
    else (sar a.0 k, sar a.1 k)

unfoldable pub rng_mul : Range → Range → Range
rng_mul a b = let v = wrapping_mul a.0 b.0 in if (a.0 == a.1) && (b.0 == b.1) then (v, v) else full

unfoldable pub truncate32 : ℕ → ℕ
truncate32 x = bit_and x 0xFFFF_FFFF

unfoldable pub range32 : Range → Range
unfolding truncate32
range32 a = if shr a.0 32 == shr a.1 32 then (truncate32 a.0, truncate32 a.1) else (0, 2 ^ 32 - 1)

-- `x as i64`.
abbrev pub as_i64 : ℕ → ℤ
as_i64 x = if is_negative x then negsuc (u64_max - x) else pos x

unfoldable pub as_signed : Range → Option (ℤ × ℤ)
as_signed a = if ltb a.1 (2 ^ 63) || leb (2 ^ 63) a.0 then some (as_i64 a.0, as_i64 a.1) else none
