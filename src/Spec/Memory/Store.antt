-- ===== src/Spec/Memory/Store.antt =====
-- src/spec/runner.rs `store`: a store through every kind of pointer.
use rand_verifier.Prelude.{
  ℕ, zero, suc, ◌+◌, ◌-◌, ◌/◌, ◌%◌, Bool, true, false, ◌&&◌, ◌||◌, not, ◌==◌, leb, if◌then◌else◌,
  Option, some, none, List, Result, ok, ◌>>◌, get_or, set, fill,
}
use rand_verifier.Prelude.Int.{ℤ, pos, pos_part, eqb_ℤ, rem_euclid}
use rand_verifier.Insn.{MemSize}
use rand_verifier.Spec.Value.{
  SpecValue, scalar, ptr_to_stack, ptr_to_map_value, ptr_to_mem, ptr_to_map_value_or_null,
}
use rand_verifier.Spec.State.{
  SpecState, SpecStack, Spill, spilled_scalar, spilled_ptr, reg, with_stack, slots,
}
use rand_verifier.Spec.Verdict.{
  Refusal, fail, stack_slot_out_of_frame, corrupt_spilled_pointer, indirect_write_to_spill,
  null_not_refined, non_pointer_base,
}
use rand_verifier.Spec.Memory.{
  size_bytes, byte_of, slot_of, mark_range_init, check_stack_range, check_map_range, access_start,
  access_end,
}

-- The low `n` bytes of `v`, from the lowest on.
unfoldable pub write_bytes : List ℕ → ℕ → ℕ → ℕ → List ℕ
write_bytes bs i zero v = bs
write_bytes bs i (suc n) v = write_bytes (set bs i (v % 256)) (suc i) n (v / 256)

-- A constant scalar's value.
unfoldable pub spec_const : SpecValue → Option ℕ
spec_const (scalar lo hi) = if lo == hi then some lo else none
spec_const _ = none

-- Whether a slot holds a spill, and whether that spill is a pointer.
unfoldable pub is_spilled : SpecStack → ℕ → Bool
is_spilled stack slot = elim (get_or stack.spill slot none) [ none ↦ false | some s ↦ true ]

is_ptr : Option Spill → Bool
is_ptr none = false
is_ptr (some (spilled_scalar lo hi)) = false
is_ptr (some (spilled_ptr p)) = true

unfoldable pub is_spilled_ptr : SpecStack → ℕ → Bool
unfolding is_ptr
is_spilled_ptr stack slot = is_ptr (get_or stack.spill slot none)

unfoldable pub any_spilled : SpecStack → ℕ → ℕ → Bool
unfolding is_spilled
any_spilled stack first zero = false
any_spilled stack first (suc n) = is_spilled stack first || any_spilled stack (suc first) n

unfoldable pub spill_of : SpecValue → Spill
spill_of (scalar lo hi) = spilled_scalar lo hi
spill_of v = spilled_ptr v

unfoldable pub with_spill : SpecStack → ℕ → Option Spill → SpecStack
with_spill stack slot spill = record {
  bytes = stack.bytes;
  init = stack.init;
  spill = set stack.spill slot spill;
  dynptr = stack.dynptr;
}

-- The stack with the 8 bytes of a constant in place.
unfoldable pub constant_written : SpecStack → ℕ → Option ℕ → SpecStack
constant_written stack abs none = stack
constant_written stack abs (some v) = record {
  bytes = write_bytes stack.bytes abs 8 v;
  init = stack.init;
  spill = stack.spill;
  dynptr = stack.dynptr;
}

unfoldable pub filled : SpecState → ℕ → ℤ → SpecValue → SpecState
filled st slot start value =
    let marked =
      mark_range_init (with_spill st.cur.stack slot (some (spill_of value))) start (pos 8) in
    with_stack st (constant_written marked (pos_part (byte_of start)) (spec_const value))

-- A full 8-byte store at a known offset: the slot takes the value, whole. Only a constant reaches the
-- bytes.
unfoldable pub store_full : SpecState → ℕ → ℤ → SpecValue → Result Refusal SpecState
store_full st pc start value = elim (slot_of (byte_of start)) [
  | none ↦ fail pc stack_slot_out_of_frame
  | some slot ↦ ok (filled st slot start value)
]

-- The bytes that a narrow store writes: zeros for a value that is not constant.
const_or_zero : SpecValue → ℕ
const_or_zero v = elim (spec_const v) [ none ↦ 0 | some n ↦ n ]

-- A 4-byte store to the low half of an empty slot initializes the other half too.
widened : SpecStack → ℕ → ℤ → ℕ → Bool → SpecStack
widened stack abs start bytes had_spill =
    if (bytes == 4) && ((rem_euclid start 8 == 0) && not had_spill)
    then record {
      bytes = fill stack.bytes (abs + 4) 4 0;
      init = fill stack.init (abs + 4) 4 true;
      spill = stack.spill;
      dynptr = stack.dynptr;
    }
    else stack

unfoldable pub store_narrow : SpecState → ℕ → ℤ → ℕ → SpecValue → Result Refusal SpecState
unfolding widened const_or_zero with_spill
store_narrow st pc start bytes value =
    let stack = st.cur.stack in
    let abs = pos_part (byte_of start) in
    let slot = abs / 8 in
    let had_spill = is_spilled stack slot in
    let other_half = widened (with_spill stack slot none) abs start bytes had_spill in
    if leb slots slot
    then fail pc stack_slot_out_of_frame
    else if is_spilled_ptr stack slot
    then fail pc corrupt_spilled_pointer
    else ok (
        with_stack st (record {
          bytes = write_bytes other_half.bytes abs bytes (const_or_zero value);
          init = fill other_half.init abs bytes true;
          spill = other_half.spill;
          dynptr = other_half.dynptr;
        }))

-- A store at an unknown offset, over all the bytes that it may reach.
unfoldable pub store_variable : SpecState → ℕ → ℤ → ℤ → Result Refusal SpecState
store_variable st pc start end =
    let stack = st.cur.stack in
    let first = pos_part (byte_of start) in
    let last = pos_part (byte_of end) in
    if any_spilled stack (first / 8) ((last - 1) / 8 + 1 - first / 8)
    then fail pc indirect_write_to_spill
    else ok (
        with_stack st (record {
          bytes = fill stack.bytes first (last - first) 0;
          init = fill stack.init first (last - first) true;
          spill = stack.spill;
          dynptr = stack.dynptr;
        }))

unfoldable pub store_stack : SpecState → ℕ → ℤ → ℤ → ℤ → ℕ → SpecValue → Result Refusal SpecState
store_stack st pc lo hi off bytes value =
    let start = access_start lo off in
    let end = access_end hi off bytes in
    check_stack_range pc start end bytes
    >> (if (bytes == 8) && eqb_ℤ lo hi
        then store_full st pc start value
        else if eqb_ℤ lo hi
        then store_narrow st pc start bytes value
        else store_variable st pc start end)

-- A map value or a referenced buffer: its bytes are not tracked.
unfoldable pub store_buffer : SpecState → ℕ → ℤ → ℤ → ℤ → ℕ → ℕ → Result Refusal SpecState
store_buffer st pc lo hi off bound bytes =
    check_map_range pc (access_start lo off) (access_end hi off bytes) bound bytes >> ok st

unfoldable pub store_at : SpecValue → SpecState → ℕ → ℤ → ℕ → SpecValue → Result Refusal SpecState
store_at (ptr_to_stack lo hi) st pc off bytes value = store_stack st pc lo hi off bytes value
store_at (ptr_to_map_value lo hi size) st pc off bytes value =
    store_buffer st pc lo hi off size bytes
store_at (ptr_to_mem lo hi size id) st pc off bytes value = store_buffer st pc lo hi off size bytes
store_at (ptr_to_map_value_or_null size id) st pc off bytes value = fail pc null_not_refined
store_at _ st pc off bytes value = fail pc non_pointer_base

unfoldable pub store : SpecState → ℕ → ℕ → ℤ → MemSize → SpecValue → Result Refusal SpecState
unfolding store_at
store st pc base off size value = store_at (reg st base) st pc off (size_bytes size) value
