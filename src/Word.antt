-- ===== src/Word.antt =====
-- Rust's `u64` as numbers below 2 ^ 64: the operators that the tracked numbers and the intervals use.
pub mod Digit
pub mod Bits
use rand_verifier.Prelude.{ℕ, ◌+◌, ◌-◌, ◌*◌, ◌/◌, ◌%◌, ◌^◌, Bool, ltb, leb, if◌then◌else◌}

-- `u64::MAX`.
abbrev pub u64_max : ℕ
u64_max = 2 ^ 64 - 1

-- `!x`.
abbrev pub not64 : ℕ → ℕ
not64 x = 2 ^ 64 - 1 - x

abbrev pub wrapping_add : ℕ → ℕ → ℕ
wrapping_add a b = (a + b) % 2 ^ 64

abbrev pub wrapping_sub : ℕ → ℕ → ℕ
wrapping_sub a b = (a + 2 ^ 64 - b) % 2 ^ 64

abbrev pub wrapping_mul : ℕ → ℕ → ℕ
wrapping_mul a b = (a * b) % 2 ^ 64

-- `x << k` and `x >> k` for `k < 64`.
abbrev pub shl : ℕ → ℕ → ℕ
shl x k = (x * 2 ^ k) % 2 ^ 64

abbrev pub shr : ℕ → ℕ → ℕ
shr x k = x / 2 ^ k

-- `(x as i64) < 0`.
abbrev pub is_negative : ℕ → Bool
is_negative x = leb (2 ^ 63) x

-- `((x as i64) >> k) as u64` for `k < 64`: rounds down, so a negative value is shifted by its
-- complement.
abbrev pub sar : ℕ → ℕ → ℕ
sar x k = if is_negative x then not64 (not64 x / 2 ^ k) else x / 2 ^ k

-- `checked_shl(k).unwrap_or(0)` and `checked_shr(k).unwrap_or(0)`.
unfoldable pub shl_or_zero : ℕ → ℕ → ℕ
shl_or_zero x k = if ltb k 64 then shl x k else 0

unfoldable pub shr_or_zero : ℕ → ℕ → ℕ
shr_or_zero x k = if ltb k 64 then shr x k else 0

-- The signed shift of one field, saturated by its sign from 64 on.
unfoldable pub sar_or_sign : ℕ → ℕ → ℕ
sar_or_sign x k = if ltb k 64 then sar x k else if is_negative x then u64_max else 0
