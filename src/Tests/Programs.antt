-- ===== src/Tests/Programs.antt =====
-- Small programs through the exploration of src/spec/runner.rs.
use native.Mathlib.Decide.{ℕ_discrete}
use rand_verifier.Prelude.{ℕ, Option, none, List, [], ◌∷◌, ◌≡◌, refl, true, false}
use rand_verifier.Prelude.Int.{pos, negsuc, ◌+ℤ◌, ◌-ℤ◌}
use rand_verifier.Insn.{BpfInsn, mov_imm, st_mem, ld_mem, exit, size_dw}
use rand_verifier.ProgType.{socket_filter}
use rand_verifier.Spec.Value.{const_scalar, ptr_to_ctx, is_scalar, is_pointer}
use rand_verifier.Spec.State.{SpecState, initial, main_frame, set_reg, reg}
use rand_verifier.Spec.Verdict.{accept}
use rand_verifier.Spec.Memory.{
  size_bytes, saturating_add, check_stack_range, slot_of, mark_range_init, aligned_across,
}
use rand_verifier.Spec.Memory.Store.{
  spec_const, store, store_at, store_stack, store_full, filled, with_spill, constant_written,
  spill_of,
}
use rand_verifier.Spec.Memory.Load.{load, load_at, load_stack, load_exact, spill_at, spill_value}
use rand_verifier.Spec.Memory.Safe.{IsReadable, IsWritable, SizesFit}
use rand_verifier.Spec.Runner.Arith.{operand, initialized_or}
use rand_verifier.Spec.Runner.Frames.{caller_exists}
use rand_verifier.Spec.Runner.Branch.{WorkItem, item}
use rand_verifier.Spec.Runner.Step.{MapInfo, step, exit_step}
use rand_verifier.Spec.Runner.Run.{
  SpecLimits, verify_spec_limited, explored, run, push_all, Item-discrete, State-discrete,
  Frame-discrete, Stack-discrete, Spill-discrete, Value-discrete,
}
use rand_verifier.Spec.Runner.Run.Closed.{
  Certificate, IsJustified-of, AllJustified, accept-Certificate, explored_self, explored-later,
}
use rand_verifier.Spec.Runner.Run.Safety.{of_reg, load-in-bounds, store-in-bounds, exit-releases}

abbrev no_maps : ℕ → Option MapInfo
no_maps fd = none

abbrev return_zero : List BpfInsn
return_zero = mov_imm 0 (pos 0) ∷ exit ∷ []

abbrev limits : SpecLimits
limits = record { max_states = 8; max_steps = 8 }

-- A program that returns zero is accepted.
return_zero-accept : verify_spec_limited return_zero no_maps limits socket_filter ≡ accept
unfolding verify_spec_limited run explored push_all step Item-discrete State-discrete Frame-discrete
    Stack-discrete Spill-discrete Value-discrete set_reg initial main_frame const_scalar ℕ_discrete
    exit_step operand initialized_or reg is_pointer caller_exists spec_const
return_zero-accept = refl

accept-Certificate_example : Certificate socket_filter no_maps return_zero
accept-Certificate_example =
    accept-Certificate return_zero no_maps limits socket_filter return_zero-accept

-- Spill the context pointer, fill it back, and return zero.
abbrev spill_ctx : List BpfInsn
spill_ctx =
    st_mem 1 10 (negsuc 7) size_dw
    ∷ ld_mem 2 10 (negsuc 7) size_dw false
    ∷ mov_imm 0 (pos 0)
    ∷ exit
    ∷ []

abbrev stored : SpecState
stored = filled initial 63 (negsuc 7) (ptr_to_ctx (pos 0))

abbrev loaded : SpecState
loaded = set_reg stored 2 (ptr_to_ctx (pos 0))

abbrev zeroed : SpecState
zeroed = set_reg loaded 0 (const_scalar 0)

abbrev visited : List WorkItem
visited = item 3 zeroed ∷ item 2 loaded ∷ item 1 stored ∷ item 0 initial ∷ []

in3 : explored visited (item 3 zeroed) ≡ true
in3 = explored_self _ _

in2 : explored visited (item 2 loaded) ≡ true
in2 = explored-later _ _ _ (explored_self _ _)

in1 : explored visited (item 1 stored) ≡ true
in1 = explored-later _ _ _ (explored-later _ _ _ (explored_self _ _))

in0 : explored visited (item 0 initial) ≡ true
in0 = explored-later _ _ _ (explored-later _ _ _ (explored-later _ _ _ (explored_self _ _)))

justified : AllJustified socket_filter no_maps spill_ctx visited visited
unfolding step store store_at store_stack store_full check_stack_range saturating_add ◌+ℤ◌ ◌-ℤ◌
    slot_of reg set_reg initial main_frame size_bytes aligned_across load load_at load_stack
    load_exact spill_at spill_value filled with_spill constant_written spill_of mark_range_init
    const_scalar exit_step operand initialized_or is_pointer caller_exists spec_const
justified = (
  record {
    insn = exit;
    next = [];
    first_id = 0;
    last_id = 0;
    fetched = refl;
    stepped = refl;
    covered = tt;
  },
  (
    record {
      insn = mov_imm 0 (pos 0);
      next = item 3 zeroed ∷ [];
      first_id = 0;
      last_id = 0;
      fetched = refl;
      stepped = refl;
      covered = (in3, tt);
    },
    (
      record {
        insn = ld_mem 2 10 (negsuc 7) size_dw false;
        next = item 2 loaded ∷ [];
        first_id = 0;
        last_id = 0;
        fetched = refl;
        stepped = refl;
        covered = (in2, tt);
      },
      (
        record {
          insn = st_mem 1 10 (negsuc 7) size_dw;
          next = item 1 stored ∷ [];
          first_id = 0;
          last_id = 0;
          fetched = refl;
          stepped = refl;
          covered = (in1, tt);
        },
        tt,
      ),
    ),
  ),
)

abbrev spill_ctx-Certificate : Certificate socket_filter no_maps spill_ctx
spill_ctx-Certificate = record {
  states = visited;
  starts = in0;
  justified = IsJustified-of socket_filter no_maps spill_ctx visited visited justified;
}

load-in-bounds_example : IsReadable socket_filter (reg stored 10) (negsuc 7) (size_bytes size_dw)
unfolding SizesFit reg filled initial main_frame
load-in-bounds_example =
    load-in-bounds socket_filter no_maps spill_ctx spill_ctx-Certificate (item 1 stored) in1 2 10
      (negsuc 7) size_dw false refl tt

store-in-bounds_example : IsWritable (reg initial 10) (negsuc 7) (size_bytes size_dw)
unfolding SizesFit reg initial main_frame
store-in-bounds_example =
    store-in-bounds socket_filter no_maps spill_ctx spill_ctx-Certificate (item 0 initial) in0
      (st_mem 1 10 (negsuc 7) size_dw) 10 (negsuc 7) size_dw (of_reg 1 10 (negsuc 7) size_dw) refl
      tt

exit-releases_example : (is_scalar (reg zeroed 0) ≡ true) × (zeroed.refs_cnt ≡ 0)
exit-releases_example =
    exit-releases socket_filter no_maps spill_ctx spill_ctx-Certificate (item 3 zeroed) in3 refl
