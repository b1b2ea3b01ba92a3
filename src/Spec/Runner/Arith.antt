-- ===== src/Spec/Runner/Arith.antt =====
-- src/spec/runner.rs `alu64`, `alu32`, `ptr_add`, `scalar_plus_pointer`: arithmetic on registers.
use rand_verifier.Prelude.{
  ℕ, ◌-◌, ◌^◌, Bool, false, ◌&&◌, ◌||◌, if◌then◌else◌, some, none, Result, ok, ◌>>=◌,
}
use rand_verifier.Prelude.Int.{ℤ, pos, negsuc, leb_ℤ, eqb_ℤ}
use rand_verifier.Exec.Alu.{AluOp, op_add, op_sub}
use rand_verifier.Spec.Value.{
  SpecValue, scalar, uninit, ptr_to_stack, ptr_to_ctx, ptr_to_map_value, const_scalar, is_scalar,
  is_pointer, as_scalar, as_signed, Range,
}
use rand_verifier.Spec.Alu.{alu_range, alu32_range}
use rand_verifier.Spec.Refine.{negate_scalar, as_u64}
use rand_verifier.Spec.Memory.{saturating_add}
use rand_verifier.Spec.State.{SpecState, reg, set_reg}
use rand_verifier.Spec.Verdict.{
  Refusal, fail, uninitialized_alu, uninitialized_alu32, pointer_alu32, math_between_pointers,
  sub_from_stack_pointer, non_add_on_pointer, scalar_and_pointer, unbounded_addend,
  addend_out_of_bounds, untracked_pointer, variable_ctx_addend, arithmetic_not_allowed, Reason,
}

pub data Rhs : Type 0 where
  imm : ℤ → Rhs
  from_reg : ℕ → Rhs

abbrev pub Signed : Type 0
Signed = ℤ × ℤ

-- `i64::MIN` lies below the lower bound, so its own test adds nothing.
unfoldable pub sane_addend : ℕ → Range → Result Refusal Signed
sane_addend pc a = elim (as_signed a) [
  | none ↦ fail pc unbounded_addend
  | some s ↦
      if leb_ℤ s.0 (negsuc (2 ^ 29 - 1))
        || eqb_ℤ s.0 (negsuc (2 ^ 63 - 1))
        || leb_ℤ (pos (2 ^ 29)) s.1
      then fail pc addend_out_of_bounds
      else ok s
]

shift_pointer : SpecValue → ℕ → Signed → Result Refusal SpecValue
shift_pointer (ptr_to_stack lo hi) pc s =
    ok (ptr_to_stack (saturating_add lo s.0) (saturating_add hi s.1))
shift_pointer (ptr_to_map_value lo hi size) pc s =
    ok (ptr_to_map_value (saturating_add lo s.0) (saturating_add hi s.1) size)
shift_pointer (ptr_to_ctx off) pc s =
    if eqb_ℤ s.0 s.1 then ok (ptr_to_ctx (saturating_add off s.0)) else fail pc variable_ctx_addend
shift_pointer _ pc s = fail pc arithmetic_not_allowed

-- `ptr += addend`, where the addend is known to be a scalar.
unfoldable pub ptr_add : SpecState → ℕ → ℕ → Range → Result Refusal SpecState
unfolding shift_pointer
ptr_add st pc dst a =
    sane_addend pc a >>= λ s. shift_pointer (reg st dst) pc s >>= λ v. ok (set_reg st dst v)

shift_source : SpecValue → ℕ → Signed → Result Refusal SpecValue
shift_source (ptr_to_stack lo hi) pc s =
    ok (ptr_to_stack (saturating_add lo s.0) (saturating_add hi s.1))
shift_source (ptr_to_map_value lo hi size) pc s =
    ok (ptr_to_map_value (saturating_add lo s.0) (saturating_add hi s.1) size)
shift_source _ pc s = fail pc untracked_pointer

-- `scalar += ptr`: the result is the pointer, shifted.
unfoldable pub scalar_plus_pointer :
    SpecState → ℕ → ℕ → SpecValue → Range → Result Refusal SpecState
unfolding shift_source
scalar_plus_pointer st pc dst ptr a =
    sane_addend pc a >>= λ s. shift_source ptr pc s >>= λ v. ok (set_reg st dst v)

-- A value, which must be initialized.
unfoldable pub initialized_or : Reason → ℕ → SpecValue → Result Refusal SpecValue
initialized_or why pc uninit = fail pc why
initialized_or why pc v = ok v

-- The right operand.
unfoldable pub operand : Reason → SpecState → ℕ → Rhs → Result Refusal SpecValue
unfolding const_scalar initialized_or
operand why st pc (imm i) = ok (const_scalar (as_u64 i))
operand why st pc (from_reg src) = initialized_or why pc (reg st src)

is_stack_base : SpecValue → Bool
is_stack_base (ptr_to_stack lo hi) = eqb_ℤ lo (pos 0) && eqb_ℤ hi (pos 0)
is_stack_base _ = false

-- The operand's interval; the operand is a scalar where this is read (`as_scalar().unwrap()`).
abbrev range_of : SpecValue → Range
range_of v = elim (as_scalar v) [ none ↦ (0, 0) | some a ↦ a ]

-- The left operand is a pointer.
unfoldable pub pointer_alu : AluOp → SpecState → ℕ → ℕ → SpecValue → Result Refusal SpecState
unfolding is_stack_base
pointer_alu op_add st pc dst r =
    if is_scalar r then ptr_add st pc dst (range_of r) else fail pc non_add_on_pointer
pointer_alu op_sub st pc dst r =
    if is_pointer r
    then fail pc math_between_pointers
    else if is_stack_base (reg st dst)
    then fail pc sub_from_stack_pointer
    else ptr_add st pc dst (range_of (negate_scalar r))
pointer_alu _ st pc dst r = fail pc non_add_on_pointer

-- The left operand is a scalar, the right one a pointer.
unfoldable pub scalar_pointer_alu :
    AluOp → SpecState → ℕ → ℕ → SpecValue → SpecValue → Result Refusal SpecState
scalar_pointer_alu op_add st pc dst d r = scalar_plus_pointer st pc dst r (range_of d)
scalar_pointer_alu _ st pc dst d r = fail pc scalar_and_pointer

abbrev of_range : Range → SpecValue
of_range a = scalar a.0 a.1

unfoldable pub alu64 : SpecState → ℕ → ℕ → AluOp → Rhs → Result Refusal SpecState
alu64 st pc dst op rhs = operand uninitialized_alu st pc (from_reg dst) >>= λ d.
    operand uninitialized_alu st pc rhs >>= λ r.
    (if is_pointer d
      then pointer_alu op st pc dst r
      else if is_pointer r
      then scalar_pointer_alu op st pc dst d r
      else ok (set_reg st dst (of_range (alu_range op (range_of d) (range_of r)))))

-- An operand of the 32-bit path: neither uninitialized nor a pointer.
scalar_operand : SpecState → ℕ → Rhs → Result Refusal Range
scalar_operand st pc rhs = operand uninitialized_alu32 st pc rhs >>= λ v.
    (if is_pointer v then fail pc pointer_alu32 else ok (range_of v))

unfoldable pub alu32 : SpecState → ℕ → ℕ → AluOp → Rhs → Result Refusal SpecState
unfolding scalar_operand
alu32 st pc dst op rhs = scalar_operand st pc (from_reg dst) >>= λ d.
    scalar_operand st pc rhs >>= λ r. ok (set_reg st dst (of_range (alu32_range op d r)))
