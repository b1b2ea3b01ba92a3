-- ===== src/Tests/Machine.antt =====
-- Frames, references, the stack and the context at small values.
use rand_verifier.Prelude.{◌-◌, ◌^◌, ◌<◌, arith, ◌≡◌, refl, false, [], ◌∷◌, some, none, ok}
use rand_verifier.Prelude.Int.{◌-ℤ◌, pos, negsuc, ◌+ℤ◌}
use rand_verifier.Insn.{size_dw}
use rand_verifier.ProgType.{socket_filter, ctx_model}
use rand_verifier.Ctx.{skb_read, read}
use rand_verifier.Ctx.Bounds.{InContext, read-InContext}
use rand_verifier.Spec.Value.{ptr_to_ctx, scalar, const_scalar, truncate32, is_scalar}
use rand_verifier.Spec.Value.Interval.{InRange}
use rand_verifier.Spec.Runner.Branch.{item, branch_target}
use rand_verifier.Spec.Runner.Moves.{mov32_step-loses}
use rand_verifier.Spec.Runner.Return.{exit_step-call_sub_step}
use rand_verifier.Spec.Runner.Step.{mov32_step, call_sub_step, called, exit_step, returned}
use rand_verifier.Spec.State.{
  SpecState, initial, main_frame, callee_frame, reg, set_reg, acquire_ref, acquired, release_ref,
  position,
}
use rand_verifier.Spec.State.Refs.{active, release_ref-acquire_ref}
use rand_verifier.Spec.Memory.{
  size_bytes, saturating_add, check_stack_range, slot_of, aligned_across,
}
use rand_verifier.Spec.Memory.Store.{store, store_at, store_stack, store_full, filled}
use rand_verifier.Spec.Memory.Load.{load}
use rand_verifier.Spec.Memory.Spilled.{load-store}
use rand_verifier.Spec.Runner.Frames.{Saved, push_frame, caller_exists, IsStack, all_free, in_use}

-- Seven slots, the first in use.
abbrev one_saved : Saved
one_saved = some main_frame ∷ none ∷ none ∷ none ∷ none ∷ none ∷ none ∷ []

abbrev two_saved : Saved
two_saved = some main_frame ∷ some callee_frame ∷ none ∷ none ∷ none ∷ none ∷ none ∷ []

one_saved-IsStack : IsStack one_saved
unfolding caller_exists
one_saved-IsStack = in_use (all_free refl)

release_ref-acquire_ref_example :
    (st : SpecState) × (release_ref (acquired initial 7) 7 ≡ some st) × (active st ≡ active initial)
unfolding acquire_ref position initial
release_ref-acquire_ref_example = release_ref-acquire_ref initial (acquired initial 7) 7 refl refl

-- The initial state with the context pointer spilled at R10 - 8.
abbrev spilled : SpecState
spilled = filled initial 63 (negsuc 7) (ptr_to_ctx (pos 0))

store_ctx : store initial 0 10 (negsuc 7) size_dw (ptr_to_ctx (pos 0)) ≡ ok spilled
unfolding store store_at store_stack store_full check_stack_range saturating_add ◌+ℤ◌ ◌-ℤ◌ slot_of
    reg initial main_frame size_bytes aligned_across
store_ctx = refl

load-store_example :
    load socket_filter spilled 1 10 (negsuc 7) size_dw false ≡ ok (ptr_to_ctx (pos 0))
unfolding initial main_frame reg
load-store_example =
    load-store socket_filter initial spilled 0 1 10 (pos 0) (negsuc 7) false (ptr_to_ctx (pos 0))
      refl refl store_ctx

read-InContext_example : InContext socket_filter (pos 4) 2
unfolding read skb_read ctx_model
read-InContext_example = read-InContext socket_filter (pos 4) 2 refl

-- A register that holds a member with 1 as its upper half.
abbrev wide : SpecState
wide = set_reg initial 2 (scalar 5 (2 ^ 32))

mov32_step-loses_example :
    (mov32_step wide 7 3 2 ≡ ok (item 8 (set_reg wide 3 (scalar 5 (2 ^ 32 - 1))) ∷ []))
    × InRange (2 ^ 32) (5, 2 ^ 32)
    × (truncate32 (2 ^ 32) < 5)
unfolding reg set_reg initial main_frame
mov32_step-loses_example =
    mov32_step-loses wide 7 3 2 (5, 2 ^ 32) refl (omega arith) (omega arith) (omega arith)

-- The initial state calls the subprogram at 10, which leaves 3 in R0.
abbrev saved_initial : Saved
saved_initial = some initial.cur ∷ none ∷ none ∷ none ∷ none ∷ none ∷ none ∷ []

abbrev in_callee : SpecState
in_callee = called initial 4 saved_initial

abbrev at_exit : SpecState
at_exit = set_reg in_callee 0 (const_scalar 3)

initial-IsStack : IsStack initial.saved
unfolding caller_exists initial
initial-IsStack = all_free refl

exit_step-call_sub_step_example :
    exit_step at_exit 12 ≡ ok (item 5 (returned at_exit (initial.cur, initial.saved)) ∷ [])
unfolding call_sub_step called push_frame initial reg set_reg const_scalar is_scalar branch_target
    ◌+ℤ◌
exit_step-call_sub_step_example =
    exit_step-call_sub_step initial in_callee at_exit 4 12 10 (pos 5) initial-IsStack refl refl refl
      refl refl
