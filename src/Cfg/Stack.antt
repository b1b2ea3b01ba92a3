-- ===== src/Cfg/Stack.antt =====
-- src/cfg.rs: the stack depths of the subprograms and the check of every static call chain. Each call of
-- `visit_chain` makes the chain longer, and a chain of more than `max_call_frames` is refused, so the
-- recursion runs on the frames that are left.
pub mod Chains
use rand_verifier.Prelude.{
  ℕ, zero, suc, ◌+◌, ◌-◌, ◌*◌, ◌/◌, max, Bool, true, false, ◌==◌, ltb, if◌then◌else◌, List, [], ◌∷◌,
  ◌++◌, Option, some, none, Result, ok, err, ◌>>=◌, length, get_elem?, get_or, set,
}
use rand_verifier.Prelude.Int.{ℤ, pos, pos_part, neg_ℤ, ◌+ℤ◌}
use rand_verifier.Insn.{BpfInsn, MemSize, ld_mem, st_mem, st_mem_imm}
use rand_verifier.Insn.Fields.{of_bits, to_bits}
use rand_verifier.Insn.Control.{call_offset, target_of}
use rand_verifier.Spec.Memory.{size_bytes}
use rand_verifier.Cfg.{
  Checked, fail, listed, find_subprog_range, recursive_call, too_many_frames, stack_too_large,
  out_of_range,
}

abbrev pub stack_size : ℕ
stack_size = 512

abbrev pub max_call_frames : ℕ
max_call_frames = 16

-- The base, the offset and the bytes of an access to memory.
unfoldable pub stack_access : BpfInsn → Option (ℕ × ℤ × ℕ)
unfolding size_bytes
stack_access (ld_mem dst base offset size sign_extend) = some (base, offset, size_bytes size)
stack_access (st_mem src base offset size) = some (base, offset, size_bytes size)
stack_access (st_mem_imm imm base offset size) = some (base, offset, size_bytes size)
stack_access _ = none

-- `(-off as i64 + size as i64).max(0)`, in whole slots. The negation is that of an `i16`, which wraps.
abbrev pub used_bytes : ℤ → ℕ → ℕ
used_bytes off size =
    let negated = of_bits 16 (to_bits 16 (neg_ℤ off)) in
    (pos_part (negated +ℤ pos size) + 7) / 8 * 8

-- The depth after the instruction at `pc`, which counts through R10 alone.
unfoldable pub deepen : Option (ℕ × ℤ × ℕ) → ℕ → ℕ
deepen none d = d
deepen (some (base, off, size)) d = if base == 10 then max d (used_bytes off size) else d

abbrev pub access_at : List BpfInsn → ℕ → Option (ℕ × ℤ × ℕ)
access_at insns pc = elim (get_elem? insns pc) [ none ↦ none | some insn ↦ stack_access insn ]

-- The depth of the `n` instructions from `pc` on.
unfoldable pub depth_from : List BpfInsn → ℕ → ℕ → ℕ → ℕ
unfolding deepen stack_access
depth_from insns pc zero d = d
depth_from insns pc (suc n) d = depth_from insns (suc pc) n (deepen (access_at insns pc) d)

unfoldable pub direct_stack_depths : List BpfInsn → List ℕ → List ℕ
unfolding depth_from
direct_stack_depths insns [] = []
direct_stack_depths insns (start ∷ later) =
    let end = get_or later 0 (length insns) in
    depth_from insns start (end - start) 0 ∷ direct_stack_depths insns later

-- `position`: the first index with the value.
abbrev pub index_of : List ℕ → ℕ → Option ℕ
index_of [] x = none
index_of (y ∷ ys) x =
    let later = index_of ys x in
    if y == x then some 0 else elim later [ none ↦ none | some i ↦ some (suc i) ]

abbrev pub chain_total : List ℕ → List ℕ → ℕ
chain_total depth [] = 0
chain_total depth (c ∷ chain) = get_or depth c 0 + chain_total depth chain

-- The checks of a call at `pc` that makes the chain `chain`, its last frame first.
unfoldable pub check_chain : ℕ → List ℕ → List ℕ → ℕ → Checked (List ℕ)
check_chain pc depth chain callee =
    if listed chain callee
    then fail pc recursive_call
    else if ltb max_call_frames (length (callee ∷ chain))
    then fail pc too_many_frames
    else if ltb stack_size (chain_total depth (callee ∷ chain))
    then fail pc stack_too_large
    else ok (callee ∷ chain)

-- The subprogram that the instruction at `pc` calls.
unfoldable pub callee_at : List BpfInsn → List ℕ → ℕ → Option ℕ
unfolding call_offset
callee_at insns subprogs pc = elim (get_elem? insns pc) [
  | none ↦ none
  | some insn ↦ elim (call_offset insn) [
    | none ↦ none
    | some offset ↦ index_of subprogs (target_of pc offset)
  ]
]

-- The calls among the `n` instructions from `pc` on; `visit_chain` is the check of a longer chain.
unfoldable pub visit_calls :
    (List ℕ → ℕ → Checked ℕ) → List BpfInsn → List ℕ → List ℕ → List ℕ → ℕ → ℕ → Checked ℕ
unfolding callee_at check_chain
visit_calls visit_chain insns subprogs depth chain pc zero = ok 0
visit_calls visit_chain insns subprogs depth chain pc (suc n) =
    let later = visit_calls visit_chain insns subprogs depth chain (suc pc) n in
    elim (callee_at insns subprogs pc) [
      | none ↦ later
      | some callee ↦
          check_chain pc depth chain callee
          >>= (λ longer. visit_chain longer callee >>= (λ u. later))
    ]

-- `visit_chain`, with the frames that are left.
unfoldable pub visit_chain : ℕ → List BpfInsn → List ℕ → List ℕ → List ℕ → ℕ → Checked ℕ
unfolding visit_calls find_subprog_range
visit_chain zero insns subprogs depth chain idx = fail 0 out_of_range
visit_chain (suc frames) insns subprogs depth chain idx =
    let range = find_subprog_range (get_or subprogs idx 0) subprogs (length insns) in
    visit_calls (visit_chain frames insns subprogs depth) insns subprogs depth chain range.0
      (range.1 - range.0)

unfoldable pub check_stack_call_chains : List BpfInsn → List ℕ → List ℕ → Checked ℕ
unfolding visit_chain
check_stack_call_chains insns subprogs depth =
    visit_chain (max_call_frames + 1) insns subprogs depth (0 ∷ []) 0

unfoldable pub check_combined_stack_depth : List BpfInsn → List ℕ → Checked ℕ
unfolding check_stack_call_chains direct_stack_depths
check_combined_stack_depth insns subprogs =
    check_stack_call_chains insns subprogs (direct_stack_depths insns subprogs)
