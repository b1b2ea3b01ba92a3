-- ===== src/Spec/Memory.antt =====
-- src/spec/runner.rs: the checks of an access. The children are the loads and the stores.
pub mod Load
pub mod Safe
pub mod Spilled
pub mod Store
use rand_verifier.Prelude.{
  ℕ, zero, suc, ◌+◌, ◌-◌, ◌*◌, ◌/◌, ◌%◌, ◌^◌, Bool, true, false, ◌&&◌, ◌||◌, not, ◌==◌, ltb, leb,
  if◌then◌else◌, Option, some, none, List, [], ◌∷◌, Result, ok, err, ◌>>=◌, ◌>>◌, get_or, set, fill,
}
use rand_verifier.Prelude.Int.{
  ℤ, pos, negsuc, pos_part, ◌+ℤ◌, ◌-ℤ◌, ltb_ℤ, leb_ℤ, eqb_ℤ, max_ℤ, min_ℤ, neg_ℤ, rem_euclid,
}
use rand_verifier.Insn.{MemSize, size_b, size_h, size_w, size_dw}
use rand_verifier.Insn.Fields.{of_bits, to_bits}
use rand_verifier.Word.{u64_max}
use rand_verifier.ProgType.{ProgType}
use rand_verifier.Ctx.{read, invalid, unmodeled, scalar_field, pointer_field}
use rand_verifier.Spec.Value.{
  SpecValue, scalar, uninit, ptr_to_stack, ptr_to_ctx, ptr_to_map_value, ptr_to_mem,
  ptr_to_map_value_or_null, unknown_scalar, const_scalar,
}
use rand_verifier.Spec.State.{
  SpecState, SpecStack, Spill, spilled_scalar, spilled_ptr, reg, with_stack, stack_size, slots,
}
use rand_verifier.Spec.Verdict.{
  Refusal, fail, failure, invalid_stack_access, misaligned_stack_access, invalid_map_access,
  misaligned_access,
}

unfoldable pub size_bytes : MemSize → ℕ
size_bytes size_b = 1
size_bytes size_h = 2
size_bytes size_w = 4
size_bytes size_dw = 8

unfoldable pub width_max : ℕ → ℕ
width_max bytes = if leb 8 bytes then u64_max else 2 ^ (bytes * 8) - 1

-- `x as iN as u64` for an N-bit `x`.
abbrev pub sign_extend_from : ℕ → ℕ → ℕ
sign_extend_from n v = let x = v % 2 ^ n in if leb (2 ^ (n - 1)) x then x + (2 ^ 64 - 2 ^ n) else x

unfoldable pub apply_sign : ℕ → ℕ → Bool → ℕ
apply_sign v bytes sign_extend =
    if not sign_extend
    then v
    else if bytes == 1
    then sign_extend_from 8 v
    else if bytes == 2
    then sign_extend_from 16 v
    else if bytes == 4
    then sign_extend_from 32 v
    else v

-- `i64::saturating_add`.
unfoldable pub saturating_add : ℤ → ℤ → ℤ
saturating_add a b = max_ℤ (negsuc (2 ^ 63 - 1)) (min_ℤ (pos (2 ^ 63 - 1)) (a +ℤ b))

-- The last remainder is tested against zero, where Rust's `%` and `rem_euclid` agree.
unfoldable pub aligned_across : ℤ → ℤ → ℕ → Bool
aligned_across lo hi align =
    if eqb_ℤ lo hi
    then rem_euclid lo align == 0
    else (rem_euclid lo align == 0)
      && ((rem_euclid hi align == 0) && (rem_euclid (hi -ℤ lo) align == 0))

-- `SPEC_STACK_SIZE as i64 + off`: the index of a stack offset. Offsets that passed
-- `check_stack_range` give none below 0.
abbrev pub byte_of : ℤ → ℤ
byte_of off = pos stack_size +ℤ off

unfoldable pub slot_of : ℤ → Option ℕ
slot_of abs =
    if leb_ℤ (pos 0) abs && ((pos_part abs % 8 == 0) && leb (pos_part abs + 8) stack_size)
    then some (pos_part abs / 8)
    else none

unfoldable pub check_stack_range : ℕ → ℤ → ℤ → ℕ → Result Refusal Unit
check_stack_range pc start end size =
    if ltb_ℤ start (neg_ℤ (pos stack_size)) || ltb_ℤ (pos 0) end
    then fail pc invalid_stack_access
    else if leb 4 size && not (aligned_across start (end -ℤ pos size) size)
    then fail pc misaligned_stack_access
    else ok tt

unfoldable pub check_map_range : ℕ → ℤ → ℤ → ℕ → ℕ → Result Refusal Unit
check_map_range pc start end bound size =
    if ltb_ℤ start (pos 0) || ltb_ℤ (pos bound) end
    then fail pc invalid_map_access
    else if leb 4 size && not (aligned_across start (end -ℤ pos size) size)
    then fail pc misaligned_access
    else ok tt

-- The two ends of an access of `bytes` bytes at `[base + off]`.
abbrev pub access_start : ℤ → ℤ → ℤ
access_start lo off = saturating_add lo off

abbrev pub access_end : ℤ → ℤ → ℕ → ℤ
access_end hi off bytes = saturating_add (saturating_add hi off) (pos bytes)

-- A sum of `i64`s, which wraps.
abbrev pub wrapping_add : ℤ → ℤ → ℤ
wrapping_add a b = of_bits 64 (to_bits 64 (a +ℤ b))

-- `base.max(0)..(base + len).min(SPEC_STACK_SIZE)`.
unfoldable pub mark_range_init : SpecStack → ℤ → ℤ → SpecStack
mark_range_init stack off len =
    let base = wrapping_add (pos stack_size) off in
    let first = pos_part base in
    let last = pos_part (min_ℤ (wrapping_add base len) (pos stack_size)) in
    record {
      bytes = stack.bytes;
      init = fill stack.init first (last - first) true;
      spill = stack.spill;
      dynptr = stack.dynptr;
    }
