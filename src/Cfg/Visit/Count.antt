-- ===== src/Cfg/Visit/Count.antt =====
-- How many successors `visit_insn` may give.
use rand_verifier.Prelude.{
  ◌&&◌, leb, ℕ, suc, ◌+◌, ◌≤◌, ◌≡◌, List, [], ◌∷◌, Option, some, none, ok, >>=-eq-ok, length,
  get_elem?, arith, inl, inr, Option-cases, sym, Bool-cases, ◌==◌,
}
use rand_verifier.Prelude.Int.{ℤ}
use rand_verifier.Insn.{BpfInsn, exit, jmp, call_sub}
use rand_verifier.Insn.Control.{call_offset, branch_offset, target_of}
use rand_verifier.Cfg.{listed, find_subprog_range, jump_crosses, branch_crosses}
use rand_verifier.Cfg.Visit.{
  visit_insn, returns_to, nexts_of, branch_nexts, stays_inside, checked_target,
}

returns_to-length :
    (start pc : ℕ) (insns : List BpfInsn) → length (returns_to start pc insns) ≤ length insns
unfolding returns_to
returns_to-length start pc [] = omega arith
returns_to-length start pc (insn ∷ insns) = elim (Option-cases (call_offset insn)) [
  | inl e ↦ rw (returns_to, e) (omega (arith, returns_to-length start (suc pc) insns))
  | inr (offset, e) ↦ elim (Bool-cases (target_of pc offset == start)) [
    | inl t ↦ rw (returns_to, e, t) (omega (arith, returns_to-length start (suc pc) insns))
    | inr t ↦ rw (returns_to, e, t) (omega (arith, returns_to-length start (suc pc) insns))
  ]
]

branch_nexts-length :
    (idx : ℕ) (range : ℕ × ℕ) (insns : List BpfInsn) (o : Option ℤ) (nexts : List ℕ)
    → branch_nexts idx range insns o ≡ ok nexts
    → length nexts ≤ length insns + 2
unfolding branch_nexts
branch_nexts-length idx range insns none nexts h =
    let same : (idx + 1) ∷ [] ≡ nexts = cc in rw (sym same) (omega arith)
branch_nexts-length idx range insns (some offset) nexts h =
    let (t, c, e) =
      >>=-eq-ok (checked_target branch_crosses idx range (target_of idx offset) insns) _ h in
    let same : t ∷ (idx + 1) ∷ [] ≡ nexts = cc e in rw (sym same) (omega arith)

nexts_of-length :
    (idx : ℕ) (range : ℕ × ℕ) (insns : List BpfInsn) (subprogs : List ℕ) (insn : BpfInsn)
    (nexts : List ℕ)
    → nexts_of idx range insns subprogs insn ≡ ok nexts
    → length nexts ≤ length insns + 2
unfolding nexts_of
nexts_of-length idx range insns subprogs exit nexts h = elim (Bool-cases (range.0 == 0)) [
  | inl t ↦ let same : [] ≡ nexts = cc (rw (nexts_of, t) at h) in rw (sym same) (omega arith)
  | inr t ↦
      let same : returns_to range.0 0 insns ≡ nexts = cc (rw (nexts_of, t) at h) in
      rw (sym same) (omega (arith, returns_to-length range.0 0 insns))
]
nexts_of-length idx range insns subprogs (jmp offset) nexts h =
    let (t, c, e) =
      >>=-eq-ok (checked_target jump_crosses idx range (target_of idx offset) insns) _ h in
    let same : t ∷ [] ≡ nexts = cc e in rw (sym same) (omega arith)
nexts_of-length idx range insns subprogs (call_sub offset) nexts h =
    elim (Bool-cases (listed subprogs (target_of idx offset))) [
      | inl t ↦
          let same : target_of idx offset ∷ [] ≡ nexts = cc (rw (nexts_of, t) at h) in
          rw (sym same) (omega arith)
      | inr t ↦ absurd (cc (rw (nexts_of, t) at h))
    ]
nexts_of-length idx range insns subprogs insn nexts h =
    branch_nexts-length idx range insns (branch_offset insn) nexts h

stays_inside-same :
    (idx : ℕ) (range : ℕ × ℕ) (found nexts : List ℕ)
    → stays_inside idx range found ≡ ok nexts
    → found ≡ nexts
unfolding stays_inside
stays_inside-same idx range found nexts h =
    elim (Bool-cases (listed found (idx + 1) && leb range.1 (idx + 1))) [
      | inl e ↦ absurd (cc (rw (stays_inside, e) at h))
      | inr e ↦ cc (rw (stays_inside, e) at h)
    ]

-- An instruction has at most two successors more than the program has instructions.
pub visit_insn-length :
    (idx : ℕ) (insns : List BpfInsn) (subprogs nexts : List ℕ)
    → visit_insn idx insns subprogs ≡ ok nexts
    → length nexts ≤ length insns + 2
unfolding visit_insn
visit_insn-length idx insns subprogs nexts h =
    let range = find_subprog_range idx subprogs (length insns) in
    elim (Option-cases (get_elem? insns idx)) [
      | inl e ↦ absurd (cc (rw (visit_insn, e) at h))
      | inr (insn, e) ↦
          let (found, f, inside) =
            >>=-eq-ok (nexts_of idx range insns subprogs insn) (stays_inside idx range)
              (rw (visit_insn, e) at h) in
          let same : found ≡ nexts = stays_inside-same idx range found nexts inside in
          rw (sym same) (nexts_of-length idx range insns subprogs insn found f)
    ]
