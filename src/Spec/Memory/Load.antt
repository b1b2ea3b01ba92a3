-- ===== src/Spec/Memory/Load.antt =====
-- src/spec/runner.rs `load`: a load through every kind of pointer.
use rand_verifier.Prelude.{
  ℕ, zero, suc, ◌+◌, ◌-◌, ◌*◌, ◌/◌, ◌^◌, Bool, true, false, ◌&&◌, not, ◌==◌, if◌then◌else◌, Option,
  some, none, Result, ok, err, ◌>>◌, get_or,
}
use rand_verifier.Prelude.Int.{ℤ, pos, negsuc, pos_part, leb_ℤ, eqb_ℤ}
use rand_verifier.Insn.{MemSize}
use rand_verifier.ProgType.{ProgType}
use rand_verifier.Ctx.{CtxError, CtxAccess, read, invalid, unmodeled, scalar_field, pointer_field}
use rand_verifier.Spec.Value.{
  SpecValue, scalar, uninit, ptr_to_stack, ptr_to_ctx, ptr_to_map_value, ptr_to_mem,
  ptr_to_map_value_or_null, unknown_scalar, const_scalar,
}
use rand_verifier.Spec.State.{SpecState, SpecStack, Spill, spilled_scalar, spilled_ptr, reg}
use rand_verifier.Spec.Verdict.{
  Refusal, fail, indirect_read_uninitialized, indirect_read_spilled, narrow_fill,
  read_uninitialized, ctx_offset_out_of_range, ctx_pointer_field, ctx_unmodeled_field, ctx_invalid,
  null_not_refined, non_pointer_base, uninitialized_base,
}
use rand_verifier.Spec.Memory.{
  size_bytes, width_max, apply_sign, byte_of, slot_of, check_stack_range, check_map_range,
  access_start, access_end, saturating_add,
}
use rand_verifier.Spec.Memory.Store.{any_spilled}

unfoldable pub all_init : SpecStack → ℕ → ℕ → Bool
all_init stack first zero = true
all_init stack first (suc n) = get_or stack.init first false && all_init stack (suc first) n

-- `n` bytes from the lowest on; `none` where one is not initialized.
unfoldable pub read_bytes : SpecStack → ℕ → ℕ → Option ℕ
read_bytes stack i zero = some 0
read_bytes stack i (suc n) =
    let rest = read_bytes stack (suc i) n in
    if get_or stack.init i false
    then elim rest [ none ↦ none | some v ↦ some (get_or stack.bytes i 0 + 256 * v) ]
    else none

unfoldable pub spill_value : Spill → SpecValue
spill_value (spilled_scalar lo hi) = scalar lo hi
spill_value (spilled_ptr p) = p

-- The spill that starts at a byte.
unfoldable pub spill_at : SpecStack → ℤ → Option Spill
spill_at stack abs = elim (slot_of abs) [ none ↦ none | some slot ↦ get_or stack.spill slot none ]

-- At an unknown offset every byte in reach must be initialized and free of spills.
unfoldable pub load_variable : SpecStack → ℕ → ℤ → ℤ → Result Refusal SpecValue
load_variable stack pc start end =
    let first = pos_part (byte_of start) in
    let last = pos_part (byte_of end) in
    if not (all_init stack first (last - first))
    then fail pc indirect_read_uninitialized
    else if any_spilled stack (first / 8) ((last - 1) / 8 + 1 - first / 8)
    then fail pc indirect_read_spilled
    else ok unknown_scalar

load_bytes : SpecStack → ℕ → ℤ → ℕ → Bool → Result Refusal SpecValue
load_bytes stack pc start bytes sign_extend =
    elim (read_bytes stack (pos_part (byte_of start)) bytes) [
      | none ↦ fail pc read_uninitialized
      | some v ↦ ok (const_scalar (apply_sign v bytes sign_extend))
    ]

-- At a known offset: a whole slot gives its spill back, a part of a spilled pointer is refused.
unfoldable pub load_exact : SpecStack → ℕ → ℤ → ℕ → Bool → Result Refusal SpecValue
unfolding spill_value load_bytes
load_exact stack pc start bytes sign_extend = elim (spill_at stack (byte_of start)) [
  | none ↦ load_bytes stack pc start bytes sign_extend
  | some spill ↦ if bytes == 8 then ok (spill_value spill) else elim spill [
    | spilled_scalar lo hi ↦ load_bytes stack pc start bytes sign_extend
    | spilled_ptr p ↦ fail pc narrow_fill
  ]
]

unfoldable pub load_stack : SpecStack → ℕ → ℤ → ℤ → ℤ → ℕ → Bool → Result Refusal SpecValue
load_stack stack pc lo hi off bytes sign_extend =
    let start = access_start lo off in
    let end = access_end hi off bytes in
    check_stack_range pc start end bytes
    >> (if not (eqb_ℤ lo hi)
        then load_variable stack pc start end
        else load_exact stack pc start bytes sign_extend)

unfoldable pub of_ctx_read : ℕ → ℕ → Bool → Result CtxError CtxAccess → Result Refusal SpecValue
of_ctx_read pc bytes sign_extend (ok scalar_field) =
    ok (if sign_extend then unknown_scalar else scalar 0 (width_max bytes))
of_ctx_read pc bytes sign_extend (ok (pointer_field f)) = fail pc ctx_pointer_field
of_ctx_read pc bytes sign_extend (err (unmodeled f)) = fail pc ctx_unmodeled_field
of_ctx_read pc bytes sign_extend (err invalid) = fail pc ctx_invalid

-- `i32::try_from`.
abbrev pub fits_i32 : ℤ → Bool
fits_i32 z = leb_ℤ (negsuc (2 ^ 31 - 1)) z && leb_ℤ z (pos (2 ^ 31 - 1))

unfoldable pub load_ctx : ProgType → ℕ → ℤ → ℤ → ℕ → Bool → Result Refusal SpecValue
unfolding of_ctx_read
load_ctx prog pc base_off off bytes sign_extend =
    let total = saturating_add base_off off in
    if not (fits_i32 total)
    then fail pc ctx_offset_out_of_range
    else of_ctx_read pc bytes sign_extend (read prog total bytes)

unfoldable pub load_buffer : ℕ → ℤ → ℤ → ℤ → ℕ → ℕ → Result Refusal SpecValue
load_buffer pc lo hi off bound bytes =
    check_map_range pc (access_start lo off) (access_end hi off bytes) bound bytes
    >> ok unknown_scalar

unfoldable pub load_at :
    SpecValue → ProgType → SpecState → ℕ → ℤ → ℕ → Bool → Result Refusal SpecValue
load_at (ptr_to_stack lo hi) prog st pc off bytes ext =
    load_stack st.cur.stack pc lo hi off bytes ext
load_at (ptr_to_ctx base_off) prog st pc off bytes ext = load_ctx prog pc base_off off bytes ext
load_at (ptr_to_map_value lo hi size) prog st pc off bytes ext = load_buffer pc lo hi off size bytes
load_at (ptr_to_mem lo hi size id) prog st pc off bytes ext = load_buffer pc lo hi off size bytes
load_at (ptr_to_map_value_or_null size id) prog st pc off bytes ext = fail pc null_not_refined
load_at uninit prog st pc off bytes ext = fail pc uninitialized_base
load_at _ prog st pc off bytes ext = fail pc non_pointer_base

unfoldable pub load : ProgType → SpecState → ℕ → ℕ → ℤ → MemSize → Bool → Result Refusal SpecValue
unfolding load_at
load prog st pc base off size ext = load_at (reg st base) prog st pc off (size_bytes size) ext
