-- ===== src/Spec/Verdict.antt =====
-- src/spec/runner.rs: verdicts. A reason stands for the text of a message, one for each text.
use rand_verifier.Prelude.{ℕ, Result, err}

pub data Reason : Type 0 where
  budget_exceeded state_budget_exceeded pc_out_of_range infinite_loop : Reason
  uninitialized_mov mov32_non_scalar ld_abs_not_allowed uninitialized_ld_ind : Reason
  uninitialized_alu uninitialized_alu32 pointer_alu32 : Reason
  math_between_pointers sub_from_stack_pointer non_add_on_pointer scalar_and_pointer : Reason
  unbounded_addend addend_out_of_bounds untracked_pointer variable_ctx_addend : Reason
  arithmetic_not_allowed : Reason
  stack_slot_out_of_frame corrupt_spilled_pointer indirect_write_to_spill : Reason
  null_not_refined non_pointer_base uninitialized_base : Reason
  indirect_read_uninitialized indirect_read_spilled narrow_fill read_uninitialized : Reason
  ctx_offset_out_of_range ctx_pointer_field ctx_unmodeled_field ctx_invalid : Reason
  invalid_stack_access misaligned_stack_access invalid_map_access misaligned_access : Reason
  middle_of_ld_imm64 : Reason
  misaligned_atomic uninitialized_atomic non_atomic_pointer : Reason
  uninitialized_jset uninitialized_jmp32 : Reason
  uninitialized_compare uninitialized_compare_src signed_on_pointer : Reason
  uninitialized_signed uninitialized_signed_src : Reason
  ordering_nullable ordering_nullable_mem ordering_pointers different_pointer_kinds : Reason
  argument_mismatch dynptr_out_of_frame dynptr_length dynptr_buffer_out_of_frame : Reason
  unacquired_reference too_many_references : Reason
  call_depth_exceeded kfunc_not_allowed : Reason
  r0_uninitialized r0_not_scalar unreleased_reference return_stack_pointer : Reason

pub record SpecFailure : Type 0 where
  pub pc : ℕ
  pub reason : Reason

pub data SpecVerdict : Type 0 where
  accept : SpecVerdict
  reject : SpecFailure → SpecVerdict
  inconclusive : SpecVerdict

-- The verdicts that the instructions return as errors: `failure`, and a helper outside the table.
pub data Refusal : Type 0 where
  failure : SpecFailure → Refusal
  unsupported : Refusal

unfoldable pub verdict_of : Refusal → SpecVerdict
verdict_of (failure f) = reject f
verdict_of unsupported = inconclusive

abbrev pub failed : ℕ → Reason → SpecVerdict
failed pc reason = reject (record { pc = pc; reason = reason })

abbrev pub fail : {A : Type 0} → ℕ → Reason → Result Refusal A
fail pc reason = err (failure (record { pc = pc; reason = reason }))
