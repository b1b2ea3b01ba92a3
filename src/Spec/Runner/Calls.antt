-- ===== src/Spec/Runner/Calls.antt =====
-- src/spec/runner.rs `helper_call`, `check_arg`: a helper call against its contract.
use rand_verifier.Prelude.{
  ℕ, zero, suc, ◌+◌, ◌-◌, ◌%◌, ◌^◌, Bool, true, false, ◌&&◌, ◌||◌, ◌==◌, if◌then◌else◌, Option,
  some, none, List, [], ◌∷◌, map, Result, ok, err, ◌>>=◌, ◌>>◌, get_or, set, fill,
}
use rand_verifier.Prelude.Int.{ℤ, pos, pos_part, ◌+ℤ◌, leb_ℤ, ltb_ℤ, eqb_ℤ, neg_ℤ}
use rand_verifier.Spec.Value.{
  SpecValue, scalar, uninit, ptr_to_stack, ptr_to_map, ptr_to_map_value, ptr_to_mem,
  ptr_to_map_value_or_null, ptr_to_mem_or_null, const_scalar, unknown_scalar, is_scalar, as_i64,
}
use rand_verifier.Word.{u64_max}
use rand_verifier.Spec.State.{
  SpecState, SpecStack, Spill, spilled_scalar, spilled_ptr, reg, set_reg, with_regs, with_stack,
  stack_size, acquire_ref, release_ref,
}
use rand_verifier.Spec.Helper.{
  SpecArg, SpecRet, spec_helper, dynptr_slots_of, arg_map, arg_stack, arg_scalar, arg_map_value,
  arg_mem, arg_dynptr, arg_dynptr_write, arg_stack_init, ret_zero, ret_unknown_scalar,
  ret_unknown_u32, ret_map_value_or_null, ret_mem_or_null,
}
use rand_verifier.Spec.Memory.{mark_range_init, byte_of, wrapping_add}
use rand_verifier.Spec.Memory.Store.{spec_const}
use rand_verifier.Spec.Verdict.{
  Refusal, unsupported, Reason, fail, argument_mismatch, dynptr_out_of_frame, dynptr_length,
  dynptr_buffer_out_of_frame, unacquired_reference,
}

-- The known offset of a stack pointer.
unfoldable pub stack_offset : SpecValue → Option ℤ
stack_offset (ptr_to_stack lo hi) = if eqb_ℤ lo hi then some lo else none
stack_offset _ = none

-- The `n` bytes from `abs` on are in the frame and initialized.
unfoldable pub buffer_init : SpecStack → ℤ → ℕ → Bool
buffer_init stack abs zero = true
buffer_init stack abs (suc n) =
    (leb_ℤ (pos 0) abs && (ltb_ℤ abs (pos stack_size) && get_or stack.init (pos_part abs) false))
    && buffer_init stack (abs +ℤ pos 1) n

-- The size that the map in R1 gives a buffer: its value's for the third argument of map_update, its
-- key's for the others.
map_size : SpecValue → ℤ → ℕ → ℕ
map_size (ptr_to_map key_size value_size map_type) id i =
    if eqb_ℤ id (pos 2) && (i == 2)
    then value_size
    else if eqb_ℤ id (pos 1) || eqb_ℤ id (pos 2)
    then key_size
    else 0
map_size _ id i = 0

is_map : SpecValue → Bool
is_map (ptr_to_map key_size value_size map_type) = true
is_map _ = false

is_stack : SpecValue → Bool
is_stack (ptr_to_stack lo hi) = true
is_stack _ = false

is_map_value : SpecValue → Bool
is_map_value (ptr_to_map_value lo hi size) = true
is_map_value _ = false

is_mem : SpecValue → Bool
is_mem (ptr_to_mem lo hi size id) = true
is_mem _ = false

is_dynptr : SpecStack → Option (ℕ × ℕ) → Bool
is_dynptr stack none = false
is_dynptr stack (some s) = get_or stack.dynptr s.0 false && get_or stack.dynptr s.1 false

-- Whether a value fits an argument.
unfoldable pub arg_ok : SpecState → ℕ → SpecArg → SpecValue → ℤ → Bool
unfolding map_size is_map is_stack is_map_value is_mem is_dynptr
arg_ok st i arg_map v id = is_map v
arg_ok st i arg_stack v id = is_stack v
arg_ok st i (arg_stack_init size) v id = elim (stack_offset v) [
  | none ↦ false
  | some lo ↦
      buffer_init st.cur.stack (byte_of lo) (if size == 0 then map_size (reg st 1) id i else size)
]
arg_ok st i arg_scalar v id = is_scalar v
arg_ok st i arg_map_value v id = is_map_value v
arg_ok st i arg_mem v id = is_mem v
arg_ok st i arg_dynptr v id = elim (stack_offset v) [
  | none ↦ false
  | some lo ↦ is_dynptr st.cur.stack (dynptr_slots_of lo)
]
arg_ok st i arg_dynptr_write v id = elim (stack_offset v) [
  | none ↦ false
  | some lo ↦ elim (dynptr_slots_of lo) [ none ↦ false | some s ↦ true ]
]

-- The arguments from the `i`-th on, in R(i + 1) and the registers that follow.
unfoldable pub check_args : SpecState → ℕ → ℤ → ℕ → List SpecArg → Result Refusal Unit
check_args st pc id i [] = ok tt
check_args st pc id i (arg ∷ args) =
    (if arg_ok st i arg (reg st (i + 1)) id then ok tt else fail pc argument_mismatch)
    >> check_args st pc id (suc i) args

mark_dynptr : SpecStack → ℕ × ℕ → ℤ → SpecStack
mark_dynptr stack s off =
    mark_range_init
      (record {
        bytes = stack.bytes;
        init = stack.init;
        spill = stack.spill;
        dynptr = set (set stack.dynptr s.0 true) s.1 true;
      })
      off (pos 16)

-- dynptr_from_mem fills the dynptr at R4.
write_dynptr : SpecState → ℕ → Result Refusal SpecState
write_dynptr st pc = elim (stack_offset (reg st 4)) [
  | none ↦ ok st
  | some lo ↦ elim (dynptr_slots_of lo) [
    | none ↦ fail pc dynptr_out_of_frame
    | some s ↦ ok (with_stack st (mark_dynptr st.cur.stack s lo))
  ]
]

-- dynptr_read fills the buffer at R1, of a length that is read as an `i64`.
write_buffer : SpecState → ℕ → Result Refusal SpecState
write_buffer st pc = elim (stack_offset (reg st 1)) [
  | none ↦ ok st
  | some lo ↦ elim (spec_const (reg st 2)) [
    | none ↦ fail pc dynptr_length
    | some n ↦
        if ltb_ℤ lo (neg_ℤ (pos stack_size)) || ltb_ℤ (pos 0) (wrapping_add lo (as_i64 n))
        then fail pc dynptr_buffer_out_of_frame
        else ok (with_stack st (mark_range_init st.cur.stack lo (as_i64 n)))
  ]
]

-- ringbuf submit and discard release the reference in R1.
release_mem : SpecValue → SpecState → ℕ → Result Refusal SpecState
release_mem (ptr_to_mem lo hi size ref_id) st pc = elim (release_ref st ref_id) [
  | none ↦ fail pc unacquired_reference
  | some st' ↦ ok st'
]
release_mem _ st pc = ok st

unfoldable pub stack_effects : SpecState → ℕ → ℤ → Result Refusal SpecState
unfolding write_dynptr write_buffer release_mem mark_dynptr
stack_effects st pc id = (if eqb_ℤ id (pos 197) then write_dynptr st pc else ok st) >>= λ st.
    (if eqb_ℤ id (pos 201) then write_buffer st pc else ok st) >>= λ st.
    (if eqb_ℤ id (pos 132) || eqb_ℤ id (pos 133) then release_mem (reg st 1) st pc else ok st)

value_size_of : SpecValue → ℕ
value_size_of (ptr_to_map key_size value_size map_type) = value_size
value_size_of _ = 0

-- `lo as u32` of a constant, else 0.
mem_size_of : SpecValue → ℕ
mem_size_of v = elim (spec_const v) [ none ↦ 0 | some n ↦ n % 2 ^ 32 ]

reject_with : {A : Type 0} → ℕ → Result Reason A → Result Refusal A
reject_with pc (ok a) = ok a
reject_with pc (err why) = fail pc why

-- R0 after the call, and the next free reference id (`next_ref_id` is increased before its use).
unfoldable pub call_result : SpecState → ℕ → ℕ → SpecRet → Result Refusal (SpecState × ℕ)
unfolding value_size_of mem_size_of reject_with unknown_scalar const_scalar
call_result st pc next_id ret_zero = ok (set_reg st 0 (const_scalar 0), next_id)
call_result st pc next_id ret_unknown_scalar = ok (set_reg st 0 unknown_scalar, next_id)
call_result st pc next_id ret_unknown_u32 = ok (set_reg st 0 (scalar 0 (2 ^ 32 - 1)), next_id)
call_result st pc next_id ret_map_value_or_null =
    ok (
      set_reg st 0 (ptr_to_map_value_or_null (value_size_of (reg st 1)) (next_id + 1)),
      next_id + 1,
    )
call_result st pc next_id ret_mem_or_null =
    reject_with pc (
      acquire_ref (set_reg st 0 (ptr_to_mem_or_null (mem_size_of (reg st 2)) (next_id + 1)))
        (next_id + 1))
    >>= λ st. ok (st, next_id + 1)

-- After a call a spilled pointer counts as an unknown scalar.
demote : Option Spill → Option Spill
demote none = none
demote (some (spilled_scalar lo hi)) = some (spilled_scalar lo hi)
demote (some (spilled_ptr p)) = some (spilled_scalar 0 u64_max)

-- R1 to R5 are clobbered, and spilled pointers are demoted.
unfoldable pub clobber : SpecState → SpecState
unfolding demote
clobber st =
    let stack = st.cur.stack in
    with_stack (with_regs st (fill st.cur.regs 1 5 uninit)) (record {
      bytes = stack.bytes;
      init = stack.init;
      spill = map demote stack.spill;
      dynptr = stack.dynptr;
    })

unfoldable pub helper_call : SpecState → ℕ → ℕ → ℤ → Result Refusal (SpecState × ℕ)
helper_call st pc next_id id = elim (spec_helper id) [
  | none ↦ err unsupported
  | some proto ↦ check_args st pc id 0 proto.args >> stack_effects st pc id >>= λ st.
      call_result st pc next_id proto.ret >>= λ r. ok (clobber r.0, r.1)
]
