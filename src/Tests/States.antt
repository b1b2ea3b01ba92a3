-- ===== src/Tests/States.antt =====
-- Scalar bounds, calls and returns of src/state.rs at small values.
use rand_verifier.Prelude.{if◌then◌else◌, [], inr, ◌≡◌, refl, true, arith, ◌↔◌, set}
use rand_verifier.Prelude.Int.{pos}
use rand_verifier.Tnum.{unknown, constant, subsumes}
use rand_verifier.State.{
  ScalarBounds, constant_bounds, unknown_bounds, synced, is_zero_scalar, is_constant_scalar,
}
use rand_verifier.State.Sync.{InBounds, InRanges, synced-InBounds, synced-InRanges}
use rand_verifier.State.Signed.{unknown-IsNormal, unknown-Contains}
use rand_verifier.State.Frames.{
  reg_at, uninit, VerifierState, initial_state, callee_state, call_subprog, return_from_subprog,
  scalar,
}
use rand_verifier.State.Equal.{
  not_exact, regsafe, ranges_safe, check_scalar_ids, scalar_range_within,
}
use rand_verifier.State.Equal.Stack.{clean_state}
use rand_verifier.State.Equal.Clean.{is_dead, clean_state-regs}
use rand_verifier.State.Equal.Scalars.{regsafe-InBounds}
use rand_verifier.State.Frames.Return.{resumed, return_from_subprog-call_subprog}

-- An unsigned range that is known, and a signed one that is not.
abbrev unsigned_known : ScalarBounds
unfolding unknown_bounds
unsigned_known = record unknown_bounds { umin = 5; umax = 9 }

five_to_nine : (synced unsigned_known).smin ≡ pos 5
unfolding synced unknown_bounds unknown
five_to_nine = refl

synced-InBounds_example : InBounds (synced unsigned_known) 7
unfolding unknown_bounds
synced-InBounds_example =
    synced-InBounds unsigned_known 7 (ground arith) unknown-IsNormal (ground arith)
      (unknown-Contains 7 (omega arith))

synced-InRanges_example : InRanges unsigned_known 12 ↔ InRanges (synced unsigned_known) 12
unfolding unknown_bounds
synced-InRanges_example = synced-InRanges unsigned_known 12 (ground arith) (omega arith)

zero_is_constant :
    is_zero_scalar (constant_bounds (pos 0)) ≡ is_constant_scalar (constant_bounds (pos 0))
unfolding is_zero_scalar is_constant_scalar constant_bounds constant
zero_is_constant = refl

-- A subprogram that sets R0 and returns.
abbrev in_callee : VerifierState
in_callee = callee_state initial_state 3

abbrev at_exit : VerifierState
at_exit = record in_callee { regs = set in_callee.regs 0 (scalar (constant_bounds (pos 1))) }

return_from_subprog-call_subprog_example :
    return_from_subprog at_exit ≡ (resumed initial_state at_exit, true)
unfolding initial_state call_subprog
return_from_subprog-call_subprog_example =
    return_from_subprog-call_subprog initial_state in_callee at_exit 3 refl refl refl refl

-- Seen before: any scalar, and precise.
abbrev seen : ScalarBounds
unfolding unknown_bounds
seen = record unknown_bounds { precise = true }

seven-InBounds : InBounds unsigned_known 7
unfolding unknown_bounds
seven-InBounds = record {
  ranges = ground arith;
  unsigned32 = ground arith;
  signed32 = ground arith;
  member = unknown-Contains 7 (omega arith);
}

regsafe-InBounds_example : InBounds seen 7
unfolding regsafe ranges_safe check_scalar_ids scalar_range_within subsumes unknown_bounds unknown
regsafe-InBounds_example =
    regsafe-InBounds seen unsigned_known unknown-IsNormal unknown-IsNormal not_exact
      (record { pairs = []; tmp_id_gen = 0 }) 7 (inr refl) refl seven-InBounds

-- R1 is dead where only R2 is live.
clean_state-regs_example :
    reg_at (clean_state initial_state 4 0).regs 1
    ≡ (if is_dead 4 1 then uninit else reg_at initial_state.regs 1)
unfolding initial_state
clean_state-regs_example = clean_state-regs initial_state 4 0 1 refl (omega arith)
