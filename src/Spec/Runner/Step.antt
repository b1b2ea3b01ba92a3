-- ===== src/Spec/Runner/Step.antt =====
-- src/spec/runner.rs, the body of `run`'s match: what each instruction checks and where it goes.
pub mod Writes
use rand_verifier.Prelude.{
  ℕ, ◌+◌, ◌-◌, ◌/◌, ◌%◌, ◌^◌, min, Bool, true, false, ◌&&◌, ◌||◌, not, ◌==◌, ltb, leb,
  if◌then◌else◌, Option, some, none, List, [], ◌∷◌, Result, ok, ◌>>=◌, ◌>>◌, set, fill, bit_and,
}
use rand_verifier.Prelude.Int.{ℤ, pos, negsuc, pos_part, rem_euclid, eqb_ℤ, ltb_ℤ, leb_ℤ}
use rand_verifier.Insn.{
  BpfInsn, mov_imm, mov_reg, mov32_imm, mov32_reg, mul_imm, mul_reg, neg, neg32, add_imm, add_reg,
  sub_imm, sub_reg, and_imm, and_reg, or_imm, or_reg, xor_imm, xor_reg, lsh_imm, lsh_reg, rsh_imm,
  rsh_reg, arsh_imm, arsh_reg, div_imm, div_reg, mod_imm, mod_reg, add32_imm, add32_reg, sub32_imm,
  sub32_reg, and32_imm, and32_reg, or32_imm, or32_reg, xor32_imm, xor32_reg, lsh32_imm, lsh32_reg,
  rsh32_imm, rsh32_reg, arsh32_imm, arsh32_reg, mul32_imm, mul32_reg, div32_imm, div32_reg,
  mod32_imm, mod32_reg, jeq, jeq_imm, jne, jne_imm, jgt, jgt_imm, jge, jge_imm, jlt, jlt_imm, jle,
  jle_imm, jsgt, jsgt_imm, jsge, jsge_imm, jslt, jslt_imm, jsle, jsle_imm, ld_mem, st_mem,
  st_mem_imm, ld_imm64, ld_map_fd, ld_map_value, ld_imm64_second, jmp, jset, jset_imm, jmp32,
  atomic, ld_abs, ld_ind, call, call_sub, call_kfunc, exit, MulHigh, low, unsigned_high,
  signed_high, AtomicOp, atomic_cmpxchg, Jmp32Op, eq32, ne32, gt32, ge32, lt32, le32, sgt32, sge32,
  slt32, sle32, MemSize,
}
use rand_verifier.ProgType.{ProgType, socket_filter, sched_cls, sched_act, cgroup_skb, ctx_model}
use rand_verifier.Exec.Alu.{
  AluOp, op_add, op_sub, op_and, op_or, op_xor, op_lsh, op_rsh, op_arsh, op_mul, op_div, op_mod,
  op_neg,
}
use rand_verifier.Spec.Value.{
  SpecValue, scalar, uninit, ptr_to_stack, ptr_to_map, ptr_to_map_value, const_scalar,
  unknown_scalar, is_pointer,
}
use rand_verifier.Spec.State.{
  SpecState, SpecStack, SpecFrame, reg, set_reg, with_stack, callee_frame,
}
use rand_verifier.Spec.Refine.{Cmp, cmp_eq, cmp_ne, cmp_lt, cmp_le, cmp_gt, cmp_ge, as_u64}
use rand_verifier.Spec.Memory.{
  size_bytes, byte_of, check_stack_range, check_map_range, access_start, access_end,
}
use rand_verifier.Spec.Memory.Store.{store, spec_const}
use rand_verifier.Spec.Memory.Load.{load, spill_at, spill_value}
use rand_verifier.Spec.Verdict.{
  Refusal, fail, uninitialized_mov, mov32_non_scalar, ld_abs_not_allowed, uninitialized_ld_ind,
  middle_of_ld_imm64, misaligned_atomic, uninitialized_atomic, non_atomic_pointer,
  uninitialized_jset, uninitialized_jmp32, call_depth_exceeded, kfunc_not_allowed, r0_uninitialized,
  r0_not_scalar, unreleased_reference, return_stack_pointer,
}
use rand_verifier.Spec.Runner.Arith.{Rhs, imm, from_reg, operand, alu64, alu32}
use rand_verifier.Spec.Runner.Frames.{push_frame, pop_frame, caller_exists}
use rand_verifier.Spec.Runner.Calls.{helper_call}
use rand_verifier.Spec.Runner.Branch.{WorkItem, Pushed, item, branch_target, branch, branch_signed}

-- src/env.rs `MapInfo`, the part that is read, and `MapType`.
pub record MapInfo : Type 0 where
  pub is_ringbuf : Bool
  pub key_size : ℕ
  pub value_size : ℕ

-- What the items pushed by a step are: one state at `pc`.
abbrev pub go : ℕ → SpecState → Pushed
go pc st = ok (item pc st ∷ [])

-- `mov` of a register.
unfoldable pub mov_step : SpecState → ℕ → ℕ → ℕ → Pushed
mov_step st pc dst src =
    operand uninitialized_mov st pc (from_reg src) >>= λ v. go (pc + 1) (set_reg st dst v)

mov32_value : SpecValue → ℕ → Result Refusal SpecValue
mov32_value uninit pc = fail pc uninitialized_mov
mov32_value (scalar lo hi) pc = ok (scalar (bit_and lo 0xFFFF_FFFF) (min hi 0xFFFF_FFFF))
mov32_value _ pc = fail pc mov32_non_scalar

unfoldable pub mov32_step : SpecState → ℕ → ℕ → ℕ → Pushed
unfolding mov32_value
mov32_step st pc dst src = mov32_value (reg st src) pc >>= λ v. go (pc + 1) (set_reg st dst v)

reads_packets : ProgType → Bool
reads_packets socket_filter = true
reads_packets sched_cls = true
reads_packets sched_act = true
reads_packets cgroup_skb = true
reads_packets _ = false

has_ctx_model : ProgType → Bool
has_ctx_model prog = elim (ctx_model prog) [ none ↦ false | some m ↦ true ]

unfoldable pub ld_abs_step : ProgType → SpecState → ℕ → Pushed
unfolding reads_packets has_ctx_model unknown_scalar
ld_abs_step prog st pc =
    if not (has_ctx_model prog) || not (reads_packets prog)
    then fail pc ld_abs_not_allowed
    else go (pc + 1) (set_reg st 0 unknown_scalar)

unfoldable pub ld_ind_step : ProgType → SpecState → ℕ → ℕ → Pushed
ld_ind_step prog st pc src =
    ld_abs_step prog st pc >>= λ next. operand uninitialized_ld_ind st pc (from_reg src) >> ok next

abbrev pub Alu : Type 0
Alu = SpecState → ℕ → ℕ → AluOp → Rhs → Result Refusal SpecState

unfoldable pub alu_step : Alu → SpecState → ℕ → ℕ → AluOp → Rhs → Pushed
alu_step alu st pc dst op rhs = alu st pc dst op rhs >>= λ st. go (pc + 1) st

is_low : MulHigh → Bool
is_low low = true
is_low unsigned_high = false
is_low signed_high = false

-- A high half is unknown.
unfoldable pub mul_step : SpecState → ℕ → ℕ → MulHigh → Rhs → Pushed
unfolding is_low unknown_scalar
mul_step st pc dst high rhs = alu64 st pc dst op_mul rhs >>= λ st.
    go (pc + 1) (if is_low high then st else set_reg st dst unknown_scalar)

-- What the spill that starts at an offset holds.
old_value : SpecStack → ℤ → SpecValue
old_value stack start = elim (spill_at stack (byte_of start)) [
  | none ↦ unknown_scalar
  | some s ↦ spill_value s
]

-- An atomic operation on the stack: the old value where a whole spill is known, and the state after.
unfoldable atomic_stack : SpecState → ℕ → ℤ → ℤ → ℤ → ℕ → Result Refusal (SpecValue × SpecState)
atomic_stack st pc lo hi offset bytes =
    let start = access_start lo offset in
    let end = access_end hi offset bytes in
    let stack = st.cur.stack in
    let first = pos_part (byte_of start) in
    let last = pos_part (byte_of end) in
    check_stack_range pc start end bytes
    >> ok (
      if (bytes == 8) && eqb_ℤ lo hi then old_value stack start else unknown_scalar,
      with_stack st (record {
        bytes = stack.bytes;
        init = fill stack.init first (last - first) true;
        spill = fill stack.spill (first / 8) ((last - 1) / 8 + 1 - first / 8) none;
        dynptr = stack.dynptr;
      }),
    )

unfoldable atomic_at : SpecValue → SpecState → ℕ → ℤ → ℕ → Result Refusal (SpecValue × SpecState)
atomic_at (ptr_to_stack lo hi) st pc offset bytes = atomic_stack st pc lo hi offset bytes
atomic_at (ptr_to_map_value lo hi size) st pc offset bytes =
    check_map_range pc (access_start lo offset) (access_end hi offset bytes) size bytes
    >> ok (unknown_scalar, st)
atomic_at _ st pc offset bytes = fail pc non_atomic_pointer

-- `compare_exchange` leaves the old value in R0, a fetching operation in its source.
atomic_result : AtomicOp → Bool → ℕ → SpecValue → SpecState → SpecState
atomic_result atomic_cmpxchg fetch src old st = set_reg st 0 old
atomic_result _ fetch src old st = if fetch then set_reg st src old else st

unfoldable pub atomic_step : SpecState → ℕ → ℕ → ℕ → ℤ → MemSize → AtomicOp → Bool → Pushed
unfolding old_value atomic_stack atomic_at atomic_result
atomic_step st pc dst src offset size op fetch =
    let bytes = size_bytes size in
    (if rem_euclid offset bytes == 0 then ok tt else fail pc misaligned_atomic)
    >> operand uninitialized_atomic st pc (from_reg src)
    >> atomic_at (reg st dst) st pc offset bytes
    >>= λ r. go (pc + 1) (atomic_result op fetch src r.0 r.1)

-- A decided test has one successor; an undecided one has both.
abbrev pub both_or_decided : SpecState → ℕ → ℤ → Option Bool → Pushed
both_or_decided st pc offset none = ok (item (branch_target pc offset) st ∷ item (pc + 1) st ∷ [])
both_or_decided st pc offset (some taken) =
    go (if taken then branch_target pc offset else pc + 1) st

-- The test of two constants.
abbrev on_constants : (ℕ → ℕ → Bool) → SpecValue → SpecValue → Option Bool
on_constants test d s = elim (spec_const d) [
  | none ↦ none
  | some a ↦ elim (spec_const s) [ none ↦ none | some b ↦ some (test a b) ]
]

any_common : ℕ → ℕ → Bool
any_common a b = not (bit_and a b == 0)

unfoldable pub jset_step : SpecState → ℕ → ℕ → Rhs → ℤ → Pushed
unfolding any_common
jset_step st pc dst rhs offset = operand uninitialized_jset st pc (from_reg dst) >>= λ d.
    operand uninitialized_jset st pc rhs >>= λ s.
    both_or_decided st pc offset (on_constants any_common d s)

-- `x as i32` for a `u32`.
as_i32 : ℕ → ℤ
as_i32 x = if leb (2 ^ 31) x then negsuc (2 ^ 32 - 1 - x) else pos x

unfoldable pub test32 : Jmp32Op → ℕ → ℕ → Bool
unfolding as_i32
test32 eq32 d s = d == s
test32 ne32 d s = not (d == s)
test32 gt32 d s = ltb s d
test32 ge32 d s = leb s d
test32 lt32 d s = ltb d s
test32 le32 d s = leb d s
test32 sgt32 d s = ltb_ℤ (as_i32 s) (as_i32 d)
test32 sge32 d s = leb_ℤ (as_i32 s) (as_i32 d)
test32 slt32 d s = ltb_ℤ (as_i32 d) (as_i32 s)
test32 sle32 d s = leb_ℤ (as_i32 d) (as_i32 s)

-- The right operand of a 32-bit jump.
jmp32_source : SpecState → Option ℕ → Option ℤ → SpecValue
jmp32_source st (some src) i = reg st src
jmp32_source st none (some i) = const_scalar (rem_euclid i (2 ^ 32))
jmp32_source st none none = uninit

initialized : SpecValue → Bool
initialized uninit = false
initialized _ = true

unfoldable pub jmp32_step : SpecState → ℕ → ℕ → Option ℕ → Option ℤ → ℤ → Jmp32Op → Pushed
unfolding jmp32_source initialized
jmp32_step st pc dst src i offset op =
    let s = jmp32_source st src i in
    if not (initialized (reg st dst)) || not (initialized s)
    then fail pc uninitialized_jmp32
    else both_or_decided st pc offset
        (on_constants (λ a b. test32 op (a % 2 ^ 32) (b % 2 ^ 32)) (reg st dst) s)

map_ptr : Option MapInfo → SpecValue
map_ptr none = ptr_to_map 0 0 0
map_ptr (some m) = ptr_to_map m.key_size m.value_size (if m.is_ringbuf then 1 else 0)

map_value_size : Option MapInfo → ℕ
map_value_size none = 0
map_value_size (some m) = m.value_size

-- A call of a subprogram: R1 to R9 are passed, on a fresh stack, and the caller's frame is saved.
unfoldable pub callee_of : SpecState → ℕ → SpecFrame
callee_of st pc = record {
  regs =
      set
        (set
          (set
            (set
              (set
                (set (set (set (set callee_frame.regs 1 (reg st 1)) 2 (reg st 2)) 3 (reg st 3)) 4
                  (reg st 4))
                5 (reg st 5))
              6 (reg st 6))
            7 (reg st 7))
          8 (reg st 8))
        9 (reg st 9);
  stack = callee_frame.stack;
  ret_pc = pc + 1;
}

-- The state in the callee.
unfoldable pub called : SpecState → ℕ → List (Option SpecFrame) → SpecState
called st pc saved = record {
  cur = callee_of st pc;
  saved = saved;
  refs = st.refs;
  refs_cnt = st.refs_cnt;
}

unfoldable pub call_sub_step : SpecState → ℕ → ℤ → Pushed
unfolding callee_of callee_frame called
call_sub_step st pc offset = elim (push_frame st.saved st.cur) [
  | none ↦ fail pc call_depth_exceeded
  | some saved ↦ go (branch_target pc offset) (called st pc saved)
]

-- The state after a return: the caller's frame with R0 the result and R1 to R5 clobbered.
unfoldable pub returned : SpecState → SpecFrame × List (Option SpecFrame) → SpecState
returned st r = record {
  cur = record {
    regs = fill (set r.0.regs 0 (reg st 0)) 1 5 uninit;
    stack = r.0.stack;
    ret_pc = r.0.ret_pc;
  };
  saved = r.1;
  refs = st.refs;
  refs_cnt = st.refs_cnt;
}

unfoldable pub is_stack_ptr : SpecValue → Bool
is_stack_ptr (ptr_to_stack lo hi) = true
is_stack_ptr _ = false

-- Where no frame can be popped the source would panic; `caller_exists` rules that out.
unfoldable pub return_step : SpecState → ℕ → Pushed
return_step st pc = elim (pop_frame st.saved) [
  | none ↦ ok []
  | some r ↦
      if is_stack_ptr (reg st 0)
      then fail pc return_stack_pointer
      else go st.cur.ret_pc (returned st r)
]

unfoldable pub exit_step : SpecState → ℕ → Pushed
unfolding return_step returned is_stack_ptr
exit_step st pc = operand r0_uninitialized st pc (from_reg 0) >>= λ v.
    (if is_pointer v
      then fail pc r0_not_scalar
      else if ltb 0 st.refs_cnt
      then fail pc unreleased_reference
      else if caller_exists st.saved
      then return_step st pc
      else ok [])

abbrev pub Step : Type 0
Step = Result Refusal (List WorkItem × ℕ)

-- The program type, the maps by their fd, and the last reference id given out.
module _ (prog : ProgType) (maps : ℕ → Option MapInfo) (next_id : ℕ) where
  -- A step that gives out no reference.
  abbrev pub plain : Pushed → Step
  plain p = p >>= λ next. ok (next, next_id)

  step_branch :
      (SpecState → ℕ → ℕ → Cmp → SpecValue → ℤ → Bool → Pushed)
      → SpecState
      → ℕ
      → ℕ
      → Cmp
      → ℕ
      → ℤ
      → Step
  step_branch f st pc dst cmp src offset = plain (f st pc dst cmp (reg st src) offset (dst == src))

  step_branch_imm :
      (SpecState → ℕ → ℕ → Cmp → SpecValue → ℤ → Bool → Pushed)
      → SpecState
      → ℕ
      → ℕ
      → Cmp
      → ℤ
      → ℤ
      → Step
  step_branch_imm f st pc dst cmp i offset =
      plain (f st pc dst cmp (const_scalar (as_u64 i)) offset false)

  step_alu : Alu → SpecState → ℕ → ℕ → AluOp → Rhs → Step
  step_alu alu st pc dst op rhs = plain (alu_step alu st pc dst op rhs)

  -- One instruction at `pc`: the successors in the order in which they are pushed.
  unfoldable pub step : SpecState → ℕ → BpfInsn → Step
  unfolding step_branch step_branch_imm step_alu map_ptr map_value_size const_scalar
  step st pc (mov_imm dst i) = plain (go (pc + 1) (set_reg st dst (const_scalar (as_u64 i))))
  step st pc (mov_reg dst src) = plain (mov_step st pc dst src)
  step st pc (mov32_imm dst i) =
      plain (go (pc + 1) (set_reg st dst (const_scalar (rem_euclid i (2 ^ 32)))))
  step st pc (mov32_reg dst src) = plain (mov32_step st pc dst src)
  step st pc (ld_abs size i) = plain (ld_abs_step prog st pc)
  step st pc (ld_ind src size i) = plain (ld_ind_step prog st pc src)
  step st pc (add_imm dst i) = step_alu alu64 st pc dst op_add (imm i)
  step st pc (add_reg dst src) = step_alu alu64 st pc dst op_add (from_reg src)
  step st pc (sub_imm dst i) = step_alu alu64 st pc dst op_sub (imm i)
  step st pc (sub_reg dst src) = step_alu alu64 st pc dst op_sub (from_reg src)
  step st pc (and_imm dst i) = step_alu alu64 st pc dst op_and (imm i)
  step st pc (and_reg dst src) = step_alu alu64 st pc dst op_and (from_reg src)
  step st pc (or_imm dst i) = step_alu alu64 st pc dst op_or (imm i)
  step st pc (or_reg dst src) = step_alu alu64 st pc dst op_or (from_reg src)
  step st pc (xor_imm dst i) = step_alu alu64 st pc dst op_xor (imm i)
  step st pc (xor_reg dst src) = step_alu alu64 st pc dst op_xor (from_reg src)
  step st pc (lsh_imm dst i) = step_alu alu64 st pc dst op_lsh (imm i)
  step st pc (lsh_reg dst src) = step_alu alu64 st pc dst op_lsh (from_reg src)
  step st pc (rsh_imm dst i) = step_alu alu64 st pc dst op_rsh (imm i)
  step st pc (rsh_reg dst src) = step_alu alu64 st pc dst op_rsh (from_reg src)
  step st pc (arsh_imm dst i) = step_alu alu64 st pc dst op_arsh (imm i)
  step st pc (arsh_reg dst src) = step_alu alu64 st pc dst op_arsh (from_reg src)
  step st pc (div_imm dst i) = step_alu alu64 st pc dst op_div (imm i)
  step st pc (div_reg dst src) = step_alu alu64 st pc dst op_div (from_reg src)
  step st pc (mod_imm dst i) = step_alu alu64 st pc dst op_mod (imm i)
  step st pc (mod_reg dst src) = step_alu alu64 st pc dst op_mod (from_reg src)
  step st pc (add32_imm dst i) = step_alu alu32 st pc dst op_add (imm i)
  step st pc (add32_reg dst src) = step_alu alu32 st pc dst op_add (from_reg src)
  step st pc (sub32_imm dst i) = step_alu alu32 st pc dst op_sub (imm i)
  step st pc (sub32_reg dst src) = step_alu alu32 st pc dst op_sub (from_reg src)
  step st pc (and32_imm dst i) = step_alu alu32 st pc dst op_and (imm i)
  step st pc (and32_reg dst src) = step_alu alu32 st pc dst op_and (from_reg src)
  step st pc (or32_imm dst i) = step_alu alu32 st pc dst op_or (imm i)
  step st pc (or32_reg dst src) = step_alu alu32 st pc dst op_or (from_reg src)
  step st pc (xor32_imm dst i) = step_alu alu32 st pc dst op_xor (imm i)
  step st pc (xor32_reg dst src) = step_alu alu32 st pc dst op_xor (from_reg src)
  step st pc (lsh32_imm dst i) = step_alu alu32 st pc dst op_lsh (imm i)
  step st pc (lsh32_reg dst src) = step_alu alu32 st pc dst op_lsh (from_reg src)
  step st pc (rsh32_imm dst i) = step_alu alu32 st pc dst op_rsh (imm i)
  step st pc (rsh32_reg dst src) = step_alu alu32 st pc dst op_rsh (from_reg src)
  step st pc (arsh32_imm dst i) = step_alu alu32 st pc dst op_arsh (imm i)
  step st pc (arsh32_reg dst src) = step_alu alu32 st pc dst op_arsh (from_reg src)
  step st pc (mul32_imm dst i) = step_alu alu32 st pc dst op_mul (imm i)
  step st pc (mul32_reg dst src) = step_alu alu32 st pc dst op_mul (from_reg src)
  step st pc (div32_imm dst i) = step_alu alu32 st pc dst op_div (imm i)
  step st pc (div32_reg dst src) = step_alu alu32 st pc dst op_div (from_reg src)
  step st pc (mod32_imm dst i) = step_alu alu32 st pc dst op_mod (imm i)
  step st pc (mod32_reg dst src) = step_alu alu32 st pc dst op_mod (from_reg src)
  step st pc (mul_imm dst i high) = plain (mul_step st pc dst high (imm i))
  step st pc (mul_reg dst src high) = plain (mul_step st pc dst high (from_reg src))
  step st pc (neg dst) = step_alu alu64 st pc dst op_neg (imm (pos 0))
  step st pc (neg32 dst) = step_alu alu32 st pc dst op_neg (imm (pos 0))
  step st pc (ld_mem dst base offset size ext) =
      plain (load prog st pc base offset size ext >>= λ v. go (pc + 1) (set_reg st dst v))
  step st pc (st_mem src base offset size) =
      plain (store st pc base offset size (reg st src) >>= λ st. go (pc + 1) st)
  step st pc (st_mem_imm i base offset size) =
      plain (store st pc base offset size (const_scalar (as_u64 i)) >>= λ st. go (pc + 1) st)
  step st pc (ld_imm64 dst i) = plain (go (pc + 2) (set_reg st dst (const_scalar i)))
  step st pc (ld_map_fd dst fd key_size value_size map_type) =
      plain (go (pc + 2) (set_reg st dst (map_ptr (maps fd))))
  step st pc (ld_map_value dst fd offset key_size value_size) = plain (
      go (pc + 2)
        (set_reg st dst (ptr_to_map_value (pos offset) (pos offset) (map_value_size (maps fd)))))
  step st pc (ld_imm64_second imm_hi) = fail pc middle_of_ld_imm64
  step st pc (jmp offset) = plain (go (branch_target pc offset) st)
  step st pc (atomic dst src offset size op fetch) =
      plain (atomic_step st pc dst src offset size op fetch)
  step st pc (jset dst src offset) = plain (jset_step st pc dst (from_reg src) offset)
  step st pc (jset_imm dst i offset) = plain (jset_step st pc dst (imm i) offset)
  step st pc (jmp32 dst src i offset op) = plain (jmp32_step st pc dst src i offset op)
  step st pc (jeq dst src offset) = step_branch branch st pc dst cmp_eq src offset
  step st pc (jeq_imm dst i offset) = step_branch_imm branch st pc dst cmp_eq i offset
  step st pc (jne dst src offset) = step_branch branch st pc dst cmp_ne src offset
  step st pc (jne_imm dst i offset) = step_branch_imm branch st pc dst cmp_ne i offset
  step st pc (jgt dst src offset) = step_branch branch st pc dst cmp_gt src offset
  step st pc (jgt_imm dst i offset) = step_branch_imm branch st pc dst cmp_gt i offset
  step st pc (jge dst src offset) = step_branch branch st pc dst cmp_ge src offset
  step st pc (jge_imm dst i offset) = step_branch_imm branch st pc dst cmp_ge i offset
  step st pc (jlt dst src offset) = step_branch branch st pc dst cmp_lt src offset
  step st pc (jlt_imm dst i offset) = step_branch_imm branch st pc dst cmp_lt i offset
  step st pc (jle dst src offset) = step_branch branch st pc dst cmp_le src offset
  step st pc (jle_imm dst i offset) = step_branch_imm branch st pc dst cmp_le i offset
  step st pc (jsgt dst src offset) = step_branch branch_signed st pc dst cmp_gt src offset
  step st pc (jsgt_imm dst i offset) = step_branch_imm branch_signed st pc dst cmp_gt i offset
  step st pc (jsge dst src offset) = step_branch branch_signed st pc dst cmp_ge src offset
  step st pc (jsge_imm dst i offset) = step_branch_imm branch_signed st pc dst cmp_ge i offset
  step st pc (jslt dst src offset) = step_branch branch_signed st pc dst cmp_lt src offset
  step st pc (jslt_imm dst i offset) = step_branch_imm branch_signed st pc dst cmp_lt i offset
  step st pc (jsle dst src offset) = step_branch branch_signed st pc dst cmp_le src offset
  step st pc (jsle_imm dst i offset) = step_branch_imm branch_signed st pc dst cmp_le i offset
  step st pc (call id) = helper_call st pc next_id id >>= λ r. ok (item (pc + 1) r.0 ∷ [], r.1)
  step st pc (call_sub offset) = plain (call_sub_step st pc offset)
  step st pc (call_kfunc btf_id) = fail pc kfunc_not_allowed
  step st pc exit = plain (exit_step st pc)
