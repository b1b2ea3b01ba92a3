-- ===== src/Cfg/Stack/Chains.antt =====
-- The call chains of src/cfg.rs, `check_stack_call_chains`.
use rand_verifier.Prelude.{
  ℕ, zero, suc, ◌+◌, ◌-◌, ◌≤◌, ◌<◌, ◌≡◌, false, List, [], ◌∷◌, some, Option-cases, inl, inr, ok,
  >>=-eq-ok, length, get_or, arith, Bool-cases, ltb, sym, ap, ◌∙◌,
}
use rand_verifier.Insn.{BpfInsn}
use rand_verifier.Cfg.{Checked, listed, find_subprog_range}
use rand_verifier.Cfg.Stack.{
  stack_size, max_call_frames, chain_total, check_chain, callee_at, visit_calls, visit_chain,
  check_stack_call_chains,
}

-- What `check_chain` checks.
pub record IsLegal (depth chain : List ℕ) (callee : ℕ) : Type 0 where
  pub fresh : listed chain callee ≡ false
  pub frames : length (callee ∷ chain) ≤ max_call_frames
  pub room : chain_total depth (callee ∷ chain) ≤ stack_size

check_chain-IsLegal :
    (pc : ℕ) (depth chain longer : List ℕ) (callee : ℕ)
    → check_chain pc depth chain callee ≡ ok longer
    → (callee ∷ chain ≡ longer) × IsLegal depth chain callee
unfolding check_chain
check_chain-IsLegal pc depth chain longer callee h = elim (Bool-cases (listed chain callee)) [
  | inl a ↦ absurd (cc (rw (check_chain, a) at h))
  | inr a ↦ elim (Bool-cases (ltb max_call_frames (length (callee ∷ chain)))) [
    | inl b ↦ absurd (cc (rw (check_chain, a, b) at h))
    | inr b ↦ elim (Bool-cases (ltb stack_size (chain_total depth (callee ∷ chain)))) [
      | inl c ↦ absurd (cc (rw (check_chain, a, b, c) at h))
      | inr c ↦ (
        cc (rw (check_chain, a, b, c) at h),
        record { fresh = a; frames = ground arith; room = ground arith },
      )
    ]
  ]
]

-- Each call among the instructions is legal, and its chain is checked.
visit_calls-each :
    (check : List ℕ → ℕ → Checked ℕ) (insns : List BpfInsn) (subprogs depth chain : List ℕ)
    (pc n k callee u : ℕ)
    → visit_calls check insns subprogs depth chain pc n ≡ ok u
    → k < n
    → callee_at insns subprogs (pc + k) ≡ some callee
    → IsLegal depth chain callee × ((v : ℕ) × (check (callee ∷ chain) callee ≡ ok v))
unfolding visit_calls
visit_calls-each check insns subprogs depth chain pc zero k callee u h l c = absurd (omega arith)
visit_calls-each check insns subprogs depth chain pc (suc n) zero callee u h l c =
    let here : callee_at insns subprogs pc ≡ some callee =
      ap (callee_at insns subprogs) (omega arith) ∙ c in
    let (longer, legal, rest) =
      >>=-eq-ok (check_chain pc depth chain callee) _ (rw (visit_calls, here) at h) in
    let (same, v) = check_chain-IsLegal pc depth chain longer callee legal in
    let (w, checked, rest2) = >>=-eq-ok (check longer callee) _ rest in
    (v, (w, rw (sym same) at checked))
visit_calls-each check insns subprogs depth chain pc (suc n) (suc k) callee u h l c =
    let there : callee_at insns subprogs (suc pc + k) ≡ some callee =
      ap (callee_at insns subprogs) (omega arith) ∙ c in
    elim (Option-cases (callee_at insns subprogs pc)) [
      | inl e ↦
          visit_calls-each check insns subprogs depth chain (suc pc) n k callee u
            (rw (visit_calls, e) at h) (omega arith) there
      | inr (first, e) ↦
          let (longer, legal, rest) =
            >>=-eq-ok (check_chain pc depth chain first) _ (rw (visit_calls, e) at h) in
          let (w, checked, later) = >>=-eq-ok (check longer first) _ rest in
          visit_calls-each check insns subprogs depth chain (suc pc) n k callee u later
            (omega arith) there
    ]

-- The chains of calls from the main program, the last subprogram first.
pub data CallChain (insns : List BpfInsn) (subprogs : List ℕ) : List ℕ → Type 0 where
  main : CallChain insns subprogs (0 ∷ [])
  calls :
      (caller : ℕ) (chain : List ℕ) (pc callee : ℕ)
      → CallChain insns subprogs (caller ∷ chain)
      → (find_subprog_range (get_or subprogs caller 0) subprogs (length insns)).0 ≤ pc
      → pc < (find_subprog_range (get_or subprogs caller 0) subprogs (length insns)).1
      → callee_at insns subprogs pc ≡ some callee
      → CallChain insns subprogs (callee ∷ caller ∷ chain)

module _ (insns : List BpfInsn) (subprogs depth : List ℕ) (u : ℕ)
    (accepted : check_stack_call_chains insns subprogs depth ≡ ok u) where
  -- The chain's last subprogram is checked, and its call is legal.
  abbrev IsChecked : List ℕ → Type 0
  IsChecked [] = ⊥
  IsChecked (c ∷ chain) =
      (frames : ℕ) × (v : ℕ) × (visit_chain frames insns subprogs depth (c ∷ chain) c ≡ ok v)

  abbrev Legal : List ℕ → Type 0
  Legal [] = Unit
  Legal (c ∷ []) = Unit
  Legal (callee ∷ c ∷ chain) = IsLegal depth (c ∷ chain) callee

  visit_chain-call :
      (frames caller : ℕ) (chain : List ℕ) (pc callee v : ℕ)
      → visit_chain frames insns subprogs depth (caller ∷ chain) caller ≡ ok v
      → (find_subprog_range (get_or subprogs caller 0) subprogs (length insns)).0 ≤ pc
      → pc < (find_subprog_range (get_or subprogs caller 0) subprogs (length insns)).1
      → callee_at insns subprogs pc ≡ some callee
      → IsChecked (callee ∷ caller ∷ chain) × IsLegal depth (caller ∷ chain) callee
  unfolding visit_chain
  visit_chain-call zero caller chain pc callee v h l r c = absurd (cc)
  visit_chain-call (suc frames) caller chain pc callee v h l r c =
      let range = find_subprog_range (get_or subprogs caller 0) subprogs (length insns) in
      let here : callee_at insns subprogs (range.0 + (pc - range.0)) ≡ some callee =
        ap (callee_at insns subprogs) (omega arith) ∙ c in
      let (legal, (w, checked)) =
        visit_calls-each (visit_chain frames insns subprogs depth) insns subprogs depth
          (caller ∷ chain) range.0 (range.1 - range.0) (pc - range.0) callee v h (omega arith)
          here in
      ((frames, w, checked), legal)

  chain-IsChecked : {cs : List ℕ} → CallChain insns subprogs cs → IsChecked cs × Legal cs
  unfolding check_stack_call_chains
  chain-IsChecked main = ((max_call_frames + 1, u, accepted), tt)
  chain-IsChecked (calls caller chain pc callee before l r c) =
      let ((frames, v, checked), legal) = chain-IsChecked before in
      visit_chain-call frames caller chain pc callee v checked l r c

  -- Where the check of the call chains accepts, every chain of calls from the main program has at
  -- most 16 frames and 512 bytes of stack, and its last subprogram does not stand in it before.
  pub chain-IsLegal :
      (callee caller : ℕ) (chain : List ℕ)
      → CallChain insns subprogs (callee ∷ caller ∷ chain)
      → IsLegal depth (caller ∷ chain) callee
  chain-IsLegal callee caller chain c = (chain-IsChecked c).1
