-- ===== src/Spec/Runner/Branch.antt =====
-- src/spec/runner.rs `branch`, `branch_signed`, `pointer_branch`: the successors of a comparison.
use rand_verifier.Prelude.{
  ℕ, ◌+◌, ◌^◌, Bool, true, false, ◌&&◌, ◌||◌, ◌==◌, if◌then◌else◌, some, none, List, [], ◌∷◌, ◌++◌,
  map, Result, ok,
}
use rand_verifier.Prelude.Int.{ℤ, pos, ◌+ℤ◌, rem_euclid}
use rand_verifier.Spec.Value.{
  SpecValue, scalar, ptr_to_stack, ptr_to_ctx, ptr_to_map_value, ptr_to_mem,
  ptr_to_map_value_or_null, ptr_to_mem_or_null, const_scalar, is_scalar, is_pointer, as_scalar,
  Range,
}
use rand_verifier.Spec.State.{SpecState, reg, set_reg, with_regs, release_ref}
use rand_verifier.Spec.Refine.{
  Cmp, cmp_eq, cmp_ne, cmp_lt, cmp_le, cmp_gt, cmp_ge, Successors, self_compare_refine,
  unsigned_cmp_refine, signed_cmp_refine,
}
use rand_verifier.Spec.Verdict.{
  Refusal, Reason, fail, uninitialized_compare, uninitialized_compare_src, signed_on_pointer,
  uninitialized_signed, uninitialized_signed_src, ordering_nullable, ordering_nullable_mem,
  ordering_pointers, different_pointer_kinds,
}

pub record WorkItem : Type 0 where
  pub pc : ℕ
  pub state : SpecState

-- The items in the order in which they are pushed.
abbrev pub Pushed : Type 0
Pushed = Result Refusal (List WorkItem)

abbrev pub item : ℕ → SpecState → WorkItem
item pc st = record { pc = pc; state = st }

unfoldable pub branch_target : ℕ → ℤ → ℕ
branch_target pc offset = rem_euclid (pos (pc + 1) +ℤ offset) (2 ^ 32)

-- The state with the interval of `dst` refined.
abbrev pub refined : ℕ → ℕ → SpecState → Range → WorkItem
refined pc dst st r = item pc (set_reg st dst (scalar r.0 r.1))

unfoldable pub emit_refined : SpecState → ℕ → Successors → ℕ → ℕ → List WorkItem
emit_refined st dst s target fall_pc =
    map (refined target dst st) (s.0) ++ map (refined fall_pc dst st) (s.1)

-- Every register that holds the nullable pointer `id` takes the value `v`.
refine_alias : ℕ → SpecValue → SpecValue → SpecValue
refine_alias id v (ptr_to_map_value_or_null size rid) =
    if rid == id then v else ptr_to_map_value_or_null size rid
refine_alias id v r = r

unfoldable pub refine_aliases : SpecState → ℕ → SpecValue → SpecState
unfolding refine_alias
refine_aliases st id v = with_regs st (map (refine_alias id v) st.cur.regs)

-- `let _ = release_ref(id)`.
released : SpecState → ℕ → SpecState
released st id = elim (release_ref st id) [ none ↦ st | some st' ↦ st' ]

-- A nullable map value against zero: one successor sees zero, the other the pointer.
unfoldable pub map_null_branch : SpecState → ℕ → ℕ → Cmp → ℕ → ℕ → Pushed
unfolding const_scalar
map_null_branch st pc target cmp size id =
    let null = refine_aliases st id (const_scalar 0) in
    let value = refine_aliases st id (ptr_to_map_value (pos 0) (pos 0) size) in
    elim cmp [
      | cmp_eq ↦ ok (item target null ∷ item (pc + 1) value ∷ [])
      | cmp_ne ↦ ok (item target value ∷ item (pc + 1) null ∷ [])
      | cmp_lt ↦ fail pc ordering_nullable
      | cmp_le ↦ fail pc ordering_nullable
      | cmp_gt ↦ fail pc ordering_nullable
      | cmp_ge ↦ fail pc ordering_nullable
    ]

-- A nullable buffer against zero: where it is null its reference is released.
unfoldable pub mem_null_branch : SpecState → ℕ → ℕ → ℕ → Cmp → ℕ → ℕ → Pushed
unfolding released const_scalar
mem_null_branch st pc dst target cmp size id =
    let null = released (set_reg st dst (const_scalar 0)) id in
    let buffer = set_reg st dst (ptr_to_mem (pos 0) (pos 0) size id) in
    elim cmp [
      | cmp_eq ↦ ok (item target null ∷ item (pc + 1) buffer ∷ [])
      | cmp_ne ↦ ok (item target buffer ∷ item (pc + 1) null ∷ [])
      | cmp_lt ↦ fail pc ordering_nullable_mem
      | cmp_le ↦ fail pc ordering_nullable_mem
      | cmp_gt ↦ fail pc ordering_nullable_mem
      | cmp_ge ↦ fail pc ordering_nullable_mem
    ]

-- Two pointers to the stack or the context, taken for equal.
frame_pointer_branch : SpecState → ℕ → ℕ → Cmp → Pushed
frame_pointer_branch st pc target cmp_eq = ok (item target st ∷ [])
frame_pointer_branch st pc target cmp_ne = ok (item (pc + 1) st ∷ [])
frame_pointer_branch st pc target _ = fail pc ordering_pointers

is_frame_pointer : SpecValue → Bool
is_frame_pointer (ptr_to_stack lo hi) = true
is_frame_pointer (ptr_to_ctx off) = true
is_frame_pointer _ = false

-- The cases after the two of a nullable pointer against zero.
unfoldable pub other_pointer_branch : SpecState → ℕ → ℕ → Cmp → SpecValue → SpecValue → Pushed
unfolding frame_pointer_branch is_frame_pointer
other_pointer_branch st pc target cmp d s =
    if is_frame_pointer d && is_frame_pointer s
    then frame_pointer_branch st pc target cmp
    else if (is_pointer d && is_scalar s) || (is_scalar d && is_pointer s)
    then ok (item target st ∷ item (pc + 1) st ∷ [])
    else fail pc different_pointer_kinds

is_zero : SpecValue → Bool
is_zero (scalar lo hi) = (lo == 0) && (hi == 0)
is_zero _ = false

pointer_branch_at : SpecValue → SpecState → ℕ → ℕ → Cmp → SpecValue → ℕ → Pushed
pointer_branch_at (ptr_to_map_value_or_null size id) st pc dst cmp src target =
    if is_zero src
    then map_null_branch st pc target cmp size id
    else other_pointer_branch st pc target cmp (ptr_to_map_value_or_null size id) src
pointer_branch_at (ptr_to_mem_or_null size id) st pc dst cmp src target =
    if is_zero src
    then mem_null_branch st pc dst target cmp size id
    else other_pointer_branch st pc target cmp (ptr_to_mem_or_null size id) src
pointer_branch_at d st pc dst cmp src target = other_pointer_branch st pc target cmp d src

unfoldable pub pointer_branch : SpecState → ℕ → ℕ → Cmp → SpecValue → ℕ → Pushed
unfolding pointer_branch_at is_zero
pointer_branch st pc dst cmp src target = pointer_branch_at (reg st dst) st pc dst cmp src target

-- Both operands are scalars or uninitialized: refine by `f`, or by the register itself.
refine_branch :
    (Range → Range → Cmp → Successors)
    → Reason
    → Reason
    → SpecState
    → ℕ
    → ℕ
    → Cmp
    → SpecValue
    → ℕ
    → Bool
    → Pushed
refine_branch f why_dst why_src st pc dst cmp src target same_reg = elim (as_scalar (reg st dst)) [
  | none ↦ fail pc why_dst
  | some d ↦
      if same_reg
      then ok (emit_refined st dst (self_compare_refine cmp) target (pc + 1))
      else elim (as_scalar src) [
        | none ↦ fail pc why_src
        | some s ↦ ok (emit_refined st dst (f d s cmp) target (pc + 1))
      ]
]

unfoldable pub branch : SpecState → ℕ → ℕ → Cmp → SpecValue → ℤ → Bool → Pushed
unfolding refine_branch
branch st pc dst cmp src offset same_reg =
    let target = branch_target pc offset in
    if is_pointer (reg st dst) || is_pointer src
    then pointer_branch st pc dst cmp src target
    else refine_branch unsigned_cmp_refine uninitialized_compare uninitialized_compare_src st pc dst
        cmp src target same_reg

unfoldable pub branch_signed : SpecState → ℕ → ℕ → Cmp → SpecValue → ℤ → Bool → Pushed
unfolding refine_branch
branch_signed st pc dst cmp src offset same_reg =
    let target = branch_target pc offset in
    if is_pointer (reg st dst) || is_pointer src
    then fail pc signed_on_pointer
    else refine_branch signed_cmp_refine uninitialized_signed uninitialized_signed_src st pc dst cmp
        src target same_reg
