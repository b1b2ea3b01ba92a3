-- ===== src/State/Frames.antt =====
-- src/state.rs: registers, stack, frames and the whole state of the main verifier, with its calls and
-- returns. Arrays are lists.
pub mod Return
use rand_verifier.Prelude.{
  ℕ, ◌+◌, ◌-◌, Bool, true, false, ◌==◌, leb, if◌then◌else◌, List, [], ◌∷◌, Option, some, none,
  Result, ok, err, ◌>>=◌, get_or, set, replicate,
}
use rand_verifier.Prelude.Int.{ℤ, pos}
use rand_verifier.ProgType.{ProgType, socket_filter}
use rand_verifier.Cfg.Stack.{stack_size, max_call_frames}
use rand_verifier.State.{ScalarBounds}

abbrev pub num_regs : ℕ
num_regs = 11

abbrev pub stack_slots : ℕ
stack_slots = 64

abbrev pub max_refs : ℕ
max_refs = 8

pub data RegState : Type 0 where
  uninit : RegState
  scalar : ScalarBounds → RegState
  ptr_to_stack : (min_offset max_offset : ℤ) (align_off frameno : ℕ) → RegState
  ptr_to_ctx : (off : ℤ) → RegState
  ptr_to_map : (key_size value_size map_type : ℕ) → RegState
  ptr_to_map_value : (min_offset max_offset : ℤ) (align_off value_size id : ℕ) → RegState
  ptr_to_map_value_or_null : (value_size id : ℕ) → RegState
  ptr_to_mem : (min_offset max_offset : ℤ) (align_off id parent_id : ℕ) → RegState
  ptr_to_mem_or_null : (id parent_id size : ℕ) → RegState
  ptr_to_btf_id : (btf_id ref_obj_id : ℕ) → RegState

pub record DynptrState : Type 0 where
  pub size : ℕ
  pub id : ℕ

pub data StackByte : Type 0 where
  invalid misc zero_byte spill dynptr_byte : StackByte

pub record StackState : Type 0 where
  pub bytes : List StackByte
  pub spilled : List (Option RegState)
  pub dynptr : List (Option DynptrState)

unfoldable pub new_stack : StackState
new_stack = record {
  bytes = replicate stack_size invalid;
  spilled = replicate stack_slots none;
  dynptr = replicate stack_slots none;
}

-- R1 is the context, R10 the frame pointer.
unfoldable pub initial_reg_state : List RegState
initial_reg_state =
    set (set (replicate num_regs uninit) 1 (ptr_to_ctx (pos 0))) 10
      (ptr_to_stack (pos 0) (pos 0) 0 0)

pub record FrameState : Type 0 where
  pub regs : List RegState
  pub stack : StackState
  pub ret_pc : ℕ

unfoldable pub new_frame : FrameState
unfolding initial_reg_state new_stack
new_frame = record { regs = initial_reg_state; stack = new_stack; ret_pc = 0 }

pub record VerifierState : Type 0 where
  pub regs : List RegState
  pub stack : StackState
  pub saved : List (Option FrameState)
  pub curframe : ℕ
  pub ret_pc : ℕ
  pub refs : List ℕ
  pub refs_cnt : ℕ
  pub prog_type : ProgType

unfoldable pub initial_with : ProgType → VerifierState
unfolding initial_reg_state new_stack
initial_with prog_type = record {
  regs = initial_reg_state;
  stack = new_stack;
  saved = replicate (max_call_frames - 1) none;
  curframe = 0;
  ret_pc = 0;
  refs = replicate max_refs 0;
  refs_cnt = 0;
  prog_type = prog_type;
}

unfoldable pub initial_state : VerifierState
unfolding initial_with
initial_state = initial_with socket_filter

abbrev pub reg_at : List RegState → ℕ → RegState
reg_at regs r = get_or regs r uninit

-- R1 to R5 of a file in place of another's.
abbrev pub with_args : List RegState → List RegState → List RegState
with_args args regs =
    set
      (set (set (set (set regs 1 (reg_at args 1)) 2 (reg_at args 2)) 3 (reg_at args 3)) 4
        (reg_at args 4))
      5 (reg_at args 5)

abbrev pub without_args : List RegState → List RegState
without_args regs = set (set (set (set (set regs 1 uninit) 2 uninit) 3 uninit) 4 uninit) 5 uninit

unfoldable pub with_frameno : ℕ → RegState → RegState
with_frameno frameno (ptr_to_stack min_offset max_offset align_off old) =
    ptr_to_stack min_offset max_offset align_off frameno
with_frameno frameno other = other

unfoldable pub callee_regs : List RegState → ℕ → List RegState
unfolding with_frameno new_frame
callee_regs caller depth =
    let regs = with_args caller new_frame.regs in set regs 10 (with_frameno depth (reg_at regs 10))

-- The whole state in the callee.
unfoldable pub callee_state : VerifierState → ℕ → VerifierState
unfolding callee_regs new_stack
callee_state s return_pc = record s {
  saved =
      set s.saved s.curframe (some (record { regs = s.regs; stack = s.stack; ret_pc = s.ret_pc }));
  curframe = s.curframe + 1;
  regs = callee_regs s.regs (s.curframe + 1);
  stack = new_stack;
  ret_pc = return_pc;
}

pub data TooDeep : Type 0 where
  too_deep : TooDeep

unfoldable pub call_subprog : VerifierState → ℕ → Result TooDeep VerifierState
unfolding callee_state
call_subprog s return_pc =
    if leb (max_call_frames - 1) s.curframe then err too_deep else ok (callee_state s return_pc)

-- The state, which a missing frame leaves with the lower depth, and whether there was a caller.
unfoldable pub return_from_subprog : VerifierState → VerifierState × Bool
return_from_subprog s =
    let depth = s.curframe - 1 in
    let taken = set s.saved depth none in
    if s.curframe == 0 then (s, false) else elim (get_or s.saved depth none) [
      | none ↦ (record s { saved = taken; curframe = depth }, false)
      | some caller ↦ (
        record s {
          saved = taken;
          curframe = depth;
          ret_pc = caller.ret_pc;
          stack = caller.stack;
          regs = without_args (set caller.regs 0 (reg_at s.regs 0));
        },
        true,
      )
    ]

pub data RegFailure : Type 0 where
  invalid_register uninitialized register_offset_arithmetic : RegFailure

unfoldable pub check_reg : ℕ → Result RegFailure Bool
check_reg r = if leb num_regs r then err invalid_register else ok true

abbrev pub written : RegState → Result RegFailure RegState
written uninit = err uninitialized
written other = ok other

unfoldable pub read_reg : VerifierState → ℕ → Result RegFailure RegState
unfolding check_reg
read_reg s r = check_reg r >>= (λ u. written (reg_at s.regs r))

abbrev pub only_scalar : RegState → Result RegFailure ScalarBounds
only_scalar (scalar bounds) = ok bounds
only_scalar other = err register_offset_arithmetic

unfoldable pub read_scalar : VerifierState → ℕ → Result RegFailure ScalarBounds
unfolding read_reg
read_scalar s r = read_reg s r >>= only_scalar
