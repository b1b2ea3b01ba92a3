-- ===== src/Spec/State.antt =====
-- src/spec/state.rs: registers, the stack, frames, and the acquired references.
pub mod Refs
use rand_verifier.Prelude.{
  ℕ, zero, suc, ◌+◌, ◌-◌, Bool, true, false, ◌==◌, leb, if◌then◌else◌, Option, some, none, List, [],
  ◌∷◌, Result, ok, err, get_or, set, replicate, length, take,
}
use rand_verifier.Prelude.Int.{ℤ, pos}
use rand_verifier.Spec.Value.{SpecValue, uninit, ptr_to_ctx, ptr_to_stack}
use rand_verifier.Spec.Verdict.{Reason, too_many_references}

abbrev pub stack_size : ℕ
stack_size = 512

abbrev pub slots : ℕ
slots = 64

pub data Spill : Type 0 where
  spilled_scalar : (lo hi : ℕ) → Spill
  spilled_ptr : SpecValue → Spill

-- Bytes and their initialization, the spill slots, and the markers of dynptr slots.
pub record SpecStack : Type 0 where
  pub bytes : List ℕ
  pub init : List Bool
  pub spill : List (Option Spill)
  pub dynptr : List Bool

pub record SpecFrame : Type 0 where
  pub regs : List SpecValue
  pub stack : SpecStack
  pub ret_pc : ℕ

pub record SpecState : Type 0 where
  pub cur : SpecFrame
  pub saved : List (Option SpecFrame)
  pub refs : List ℕ
  pub refs_cnt : ℕ

abbrev pub empty_stack : SpecStack
empty_stack = record {
  bytes = replicate stack_size 0;
  init = replicate stack_size false;
  spill = replicate slots none;
  dynptr = replicate slots false;
}

unfoldable pub main_frame : SpecFrame
main_frame = record {
  regs = set (set (replicate 11 uninit) 1 (ptr_to_ctx (pos 0))) 10 (ptr_to_stack (pos 0) (pos 0));
  stack = empty_stack;
  ret_pc = 0;
}

unfoldable pub callee_frame : SpecFrame
callee_frame = record {
  regs = set (replicate 11 uninit) 10 (ptr_to_stack (pos 0) (pos 0));
  stack = empty_stack;
  ret_pc = 0;
}

unfoldable pub initial : SpecState
initial = record { cur = main_frame; saved = replicate 7 none; refs = replicate 8 0; refs_cnt = 0 }

-- Decoded registers are below 11; the array would panic beyond.
unfoldable pub reg : SpecState → ℕ → SpecValue
reg st r = get_or st.cur.regs r uninit

abbrev pub with_regs : SpecState → List SpecValue → SpecState
with_regs st regs = record {
  cur = record { regs = regs; stack = st.cur.stack; ret_pc = st.cur.ret_pc };
  saved = st.saved;
  refs = st.refs;
  refs_cnt = st.refs_cnt;
}

abbrev pub with_stack : SpecState → SpecStack → SpecState
with_stack st stack = record {
  cur = record { regs = st.cur.regs; stack = stack; ret_pc = st.cur.ret_pc };
  saved = st.saved;
  refs = st.refs;
  refs_cnt = st.refs_cnt;
}

unfoldable pub set_reg : SpecState → ℕ → SpecValue → SpecState
set_reg st r v = with_regs st (set st.cur.regs r v)

-- The state with one more reference, after the others.
abbrev pub acquired : SpecState → ℕ → SpecState
acquired st id = record {
  cur = st.cur;
  saved = st.saved;
  refs = set st.refs st.refs_cnt id;
  refs_cnt = st.refs_cnt + 1;
}

unfoldable pub acquire_ref : SpecState → ℕ → Result Reason SpecState
acquire_ref st id =
    if leb (length st.refs) st.refs_cnt then err too_many_references else ok (acquired st id)

-- `iter().position(|r| *r == id)`.
unfoldable pub position : List ℕ → ℕ → Option ℕ
position [] id = none
position (r ∷ rs) id =
    let rest = position rs id in
    if r == id then some 0 else elim rest [ none ↦ none | some i ↦ some (suc i) ]

-- The state without the reference at an index: the last one takes its place.
abbrev pub released_at : SpecState → ℕ → SpecState
released_at st i = record {
  cur = st.cur;
  saved = st.saved;
  refs = set st.refs i (get_or st.refs (st.refs_cnt - 1) 0);
  refs_cnt = st.refs_cnt - 1;
}

-- `none` is the source's `false`.
unfoldable pub release_ref : SpecState → ℕ → Option SpecState
release_ref st id = elim (position (take st.refs_cnt st.refs) id) [
  | none ↦ none
  | some i ↦ some (released_at st i)
]
