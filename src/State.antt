-- ===== src/State.antt =====
-- src/state.rs: the scalar bounds of the main verifier. An `i64` is an integer and a `u64` a number, with
-- the casts between them written out.
pub mod Sync
pub mod Signed
pub mod Frames
pub mod Equal
use rand_verifier.Prelude.{
  ℕ, ◌-◌, ◌/◌, ◌%◌, ◌^◌, min, max, Bool, false, ◌&&◌, ◌||◌, ◌==◌, ltb, leb, if◌then◌else◌,
}
use rand_verifier.Prelude.Int.{ℤ, pos, negsuc, leb_ℤ, ltb_ℤ, eqb_ℤ, min_ℤ, max_ℤ}
use rand_verifier.Insn.Fields.{of_bits, to_bits}
use rand_verifier.Word.{u64_max}
use rand_verifier.Tnum.{Tnum, constant, unknown, is_constant, intersect, from_range}

-- The 64-bit ranges, their 32-bit views and the tracked number of a scalar.
pub record ScalarBounds : Type 0 where
  pub smin : ℤ
  pub smax : ℤ
  pub umin : ℕ
  pub umax : ℕ
  pub s32_min : ℤ
  pub s32_max : ℤ
  pub u32_min : ℕ
  pub u32_max : ℕ
  pub tnum : Tnum
  pub precise : Bool
  pub id : ℕ
  pub delta : ℤ

abbrev pub i64_min : ℤ
i64_min = negsuc (2 ^ 63 - 1)

abbrev pub i64_max : ℤ
i64_max = pos (2 ^ 63 - 1)

abbrev pub i32_min : ℤ
i32_min = negsuc (2 ^ 31 - 1)

abbrev pub i32_max : ℤ
i32_max = pos (2 ^ 31 - 1)

abbrev pub u32_max_value : ℕ
u32_max_value = 2 ^ 32 - 1

-- `ScalarBounds::constant`.
unfoldable pub constant_bounds : ℤ → ScalarBounds
constant_bounds value = record {
  smin = value;
  smax = value;
  umin = to_bits 64 value;
  umax = to_bits 64 value;
  s32_min = of_bits 32 (to_bits 64 value % 2 ^ 32);
  s32_max = of_bits 32 (to_bits 64 value % 2 ^ 32);
  u32_min = to_bits 64 value % 2 ^ 32;
  u32_max = to_bits 64 value % 2 ^ 32;
  tnum = constant (to_bits 64 value);
  precise = false;
  id = 0;
  delta = pos 0;
}

-- `ScalarBounds::unknown`.
unfoldable pub unknown_bounds : ScalarBounds
unknown_bounds = record {
  smin = i64_min;
  smax = i64_max;
  umin = 0;
  umax = u64_max;
  s32_min = i32_min;
  s32_max = i32_max;
  u32_min = 0;
  u32_max = u32_max_value;
  tnum = unknown;
  precise = false;
  id = 0;
  delta = pos 0;
}

-- `ScalarBounds::is_constant` and `is_zero`.
unfoldable pub is_constant_scalar : ScalarBounds → Bool
unfolding is_constant
is_constant_scalar b = eqb_ℤ b.smin b.smax && b.umin == b.umax && is_constant b.tnum

unfoldable pub is_zero_scalar : ScalarBounds → Bool
is_zero_scalar b = eqb_ℤ b.smin (pos 0) && eqb_ℤ b.smax (pos 0) && b.umin == 0 && b.umax == 0

-- One range of bits in both interpretations.
abbrev pub same_bits : ScalarBounds → ℕ → ℕ → ScalarBounds
same_bits b lo hi = record b { smin = of_bits 64 lo; smax = of_bits 64 hi; umin = lo; umax = hi }

-- `synced`: the 64-bit ranges by each other.
unfoldable pub combined : ScalarBounds → ScalarBounds
combined b =
    if leb_ℤ (pos 0) b.smin || ltb_ℤ b.smax (pos 0)
    then same_bits b (max (to_bits 64 b.smin) b.umin) (min (to_bits 64 b.smax) b.umax)
    else if ltb b.umax (2 ^ 63)
    then record b { smin = of_bits 64 b.umin; smax = min_ℤ b.smax (of_bits 64 b.umax) }
    else if leb (2 ^ 63) b.umin
    then record b { smin = max_ℤ b.smin (of_bits 64 b.umin); smax = of_bits 64 b.umax }
    else b

-- The 32-bit views.
unfoldable pub with_u32 : ScalarBounds → ScalarBounds
with_u32 b =
    if b.umin / 2 ^ 32 == b.umax / 2 ^ 32
    then record b { u32_min = b.umin % 2 ^ 32; u32_max = b.umax % 2 ^ 32 }
    else record b { u32_min = 0; u32_max = u32_max_value }

unfoldable pub with_s32 : ScalarBounds → ScalarBounds
with_s32 b =
    let low = to_bits 64 b.smin in
    let high = to_bits 64 b.smax in
    let lo = of_bits 32 (low % 2 ^ 32) in
    let hi = of_bits 32 (high % 2 ^ 32) in
    if low / 2 ^ 32 == high / 2 ^ 32
    then if leb_ℤ lo hi
      then record b { s32_min = lo; s32_max = hi }
      else record b { s32_min = i32_min; s32_max = i32_max }
    else record b { s32_min = i32_min; s32_max = i32_max }

unfoldable pub with_tnum : ScalarBounds → ScalarBounds
unfolding intersect from_range
with_tnum b = record b { tnum = intersect b.tnum (from_range b.umin b.umax) }

-- An empty range is left as it is.
unfoldable pub synced : ScalarBounds → ScalarBounds
unfolding combined with_u32 with_s32 with_tnum
synced b =
    if ltb_ℤ b.smax b.smin || ltb b.umax b.umin
    then b
    else with_tnum (with_s32 (with_u32 (combined b)))

-- The bounds that `from_signed` hands to the sync.
unfoldable pub signed_bounds : ℤ → ℤ → ScalarBounds
unfolding unknown_bounds
signed_bounds min max =
    if ltb_ℤ min (pos 0) && leb_ℤ (pos 0) max
    then record unknown_bounds { smin = min; smax = max }
    else record unknown_bounds {
      smin = min;
      smax = max;
      umin = to_bits 64 min;
      umax = to_bits 64 max;
    }

unfoldable pub from_signed : ℤ → ℤ → ScalarBounds
unfolding signed_bounds synced
from_signed min max = synced (signed_bounds min max)
