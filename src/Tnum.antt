-- ===== src/Tnum.antt =====
-- src/tnum.rs: tracked numbers. `value` holds the known bits and `mask` the unknown ones. Both are
-- numbers below 2 ^ 64.
pub mod Members
pub mod Bitwise
pub mod Arith
pub mod Shift
pub mod Order
pub mod Range
pub mod Mul
pub mod Sound
use rand_verifier.Prelude.{
  ℕ, zero, suc, ◌+◌, ◌-◌, ◌*◌, ◌/◌, ◌%◌, ◌^◌, bit_and, bit_or, bit_xor, Bool, true, false, ◌&&◌,
  not, ◌==◌, ltb, if◌then◌else◌,
}
use rand_verifier.Word.{
  u64_max, not64, wrapping_add, wrapping_sub, shl_or_zero, shr_or_zero, sar_or_sign,
}

pub record Tnum : Type 0 where
  pub value : ℕ
  pub mask : ℕ

unfoldable pub constant : ℕ → Tnum
constant value = record { value = value; mask = 0 }

unfoldable pub unknown : Tnum
unknown = record { value = 0; mask = u64_max }

unfoldable pub is_constant : Tnum → Bool
is_constant t = t.mask == 0

unfoldable pub is_unknown : Tnum → Bool
is_unknown t = t.mask == u64_max

unfoldable pub known_ones : Tnum → ℕ
known_ones t = bit_and t.value (not64 t.mask)

unfoldable pub add : Tnum → Tnum → Tnum
add a b =
    let sm = wrapping_add a.mask b.mask in
    let sv = wrapping_add a.value b.value in
    let sigma = wrapping_add sm sv in
    let chi = bit_xor sigma sv in
    let mu = bit_or (bit_or chi a.mask) b.mask in
    record { value = bit_and sv (not64 mu); mask = mu }

unfoldable pub sub : Tnum → Tnum → Tnum
sub a b =
    let dv = wrapping_sub a.value b.value in
    let alpha = wrapping_add dv a.mask in
    let beta = wrapping_sub dv b.mask in
    let chi = bit_xor alpha beta in
    let mu = bit_or (bit_or chi a.mask) b.mask in
    record { value = bit_and dv (not64 mu); mask = mu }

unfoldable pub xor : Tnum → Tnum → Tnum
xor a b =
    let value = bit_xor a.value b.value in
    let mask = bit_or a.mask b.mask in record { value = bit_and value (not64 mask); mask = mask }

unfoldable pub lshift : Tnum → ℕ → Tnum
unfolding shl_or_zero
lshift t k = record { value = shl_or_zero t.value k; mask = shl_or_zero t.mask k }

unfoldable pub rshift : Tnum → ℕ → Tnum
unfolding shr_or_zero
rshift t k = record { value = shr_or_zero t.value k; mask = shr_or_zero t.mask k }

unfoldable pub arshift : Tnum → ℕ → Tnum
unfolding sar_or_sign
arshift t k = record { value = sar_or_sign t.value k; mask = sar_or_sign t.mask k }

unfoldable pub subreg : Tnum → Tnum
subreg t = record { value = t.value % 2 ^ 32; mask = t.mask % 2 ^ 32 }

-- `64 - chi.leading_zeros()`, the number of bits that `x` takes. The fuel is the width.
unfoldable pub bit_length : ℕ → ℕ → ℕ
bit_length zero x = 0
bit_length (suc w) x = if x == 0 then 0 else suc (bit_length w (x / 2))

unfoldable pub from_range : ℕ → ℕ → Tnum
unfolding constant
from_range min max =
    let chi = bit_xor min max in
    let bits = bit_length 64 chi in
    let mask = if bits == 64 then u64_max else 2 ^ bits - 1 in
    if chi == 0 then constant min else record { value = bit_and min (not64 mask); mask = mask }

unfoldable pub and : Tnum → Tnum → Tnum
and a b =
    let alpha = bit_or a.value a.mask in
    let beta = bit_or b.value b.mask in
    let value = bit_and a.value b.value in
    record { value = value; mask = bit_xor (bit_and alpha beta) value }

unfoldable pub or : Tnum → Tnum → Tnum
unfolding known_ones
or a b =
    let known_one = bit_or (known_ones a) (known_ones b) in
    let known_zero =
      bit_and (bit_and (not64 a.value) (not64 a.mask)) (bit_and (not64 b.value) (not64 b.mask)) in
    record { value = known_one; mask = not64 (bit_or known_one known_zero) }

unfoldable pub union : Tnum → Tnum → Tnum
union a b =
    let v = bit_and a.value b.value in
    let mu = bit_or (bit_or (bit_xor a.value b.value) a.mask) b.mask in
    record { value = bit_and v (not64 mu); mask = mu }

unfoldable pub intersect : Tnum → Tnum → Tnum
intersect a b =
    let v = bit_or a.value b.value in
    let mu = bit_and a.mask b.mask in record { value = bit_and v (not64 mu); mask = mu }

unfoldable pub subsumes : Tnum → Tnum → Bool
subsumes a b =
    (bit_and b.mask (not64 a.mask) == 0)
    && (bit_and b.value (not64 a.mask) == bit_and a.value (not64 a.mask))

-- The loop of `mul`, on fuel: `a` loses a bit in each round.
unfoldable pub mul_loop : ℕ → Tnum → Tnum → Tnum → Tnum
mul_loop zero acc a b = acc
mul_loop (suc fuel) acc a b =
    let rest =
      mul_loop fuel
        (if not (bit_and a.value 1 == 0)
          then add acc b
          else if not (bit_and a.mask 1 == 0)
          then union acc (add acc b)
          else acc)
        (rshift a 1) (lshift b 1) in
    if (a.value == 0) && (a.mask == 0) then acc else rest

unfoldable pub mul : Tnum → Tnum → Tnum
mul a b = mul_loop 64 (constant 0) a b
