-- ===== src/State/Frames/Return.antt =====
-- A call and its return in src/state.rs.
use rand_verifier.Prelude.{
  sym, ℕ, suc, ◌≡◌, ◌∙◌, ap, true, some, none, ok, length, get_or, set, ◌==◌, false, ◌-◌,
  get_or-set_self, arith, leb, if-err-eq-ok,
}
use rand_verifier.State.Frames.{
  VerifierState, FrameState, reg_at, without_args, callee_state, call_subprog, return_from_subprog,
}

-- The caller's state behind the call: its registers with R0 of the callee and no arguments, its stack
-- and return address, and what the callee has left of the rest.
abbrev resumed_at : ℕ → VerifierState → VerifierState → VerifierState
resumed_at depth caller callee = record callee {
  saved = set callee.saved depth none;
  curframe = depth;
  ret_pc = caller.ret_pc;
  stack = caller.stack;
  regs = without_args (set caller.regs 0 (reg_at callee.regs 0));
}

abbrev pub resumed : VerifierState → VerifierState → VerifierState
resumed caller callee = resumed_at caller.curframe caller callee

-- After a call that is not refused, a state at the callee's depth with the frames that the call
-- saved returns to the caller's registers without the arguments and with R0 of the callee, its
-- stack, its return address and its depth, the caller's slot freed.
pub return_from_subprog-call_subprog :
    (s entered t : VerifierState) (return_pc : ℕ)
    → length s.saved ≡ 15
    → call_subprog s return_pc ≡ ok entered
    → t.curframe ≡ entered.curframe
    → t.saved ≡ entered.saved
    → return_from_subprog t ≡ (resumed s t, true)
unfolding call_subprog callee_state return_from_subprog
return_from_subprog-call_subprog s entered t return_pc n h d e =
    let (low, accepted) = if-err-eq-ok (leb 15 s.curframe) _ _ h in
    let same : callee_state s return_pc ≡ entered = cc accepted in
    let frame : FrameState = record { regs = s.regs; stack = s.stack; ret_pc = s.ret_pc } in
    let depth : t.curframe ≡ suc s.curframe =
      d ∙ sym (ap (λ (u : VerifierState). u.curframe) same) ∙ omega arith in
    let found : get_or t.saved s.curframe none ≡ some frame =
      ap (λ xs. get_or xs s.curframe none) (e ∙ sym (ap (λ (u : VerifierState). u.saved) same))
      ∙ get_or-set_self s.saved s.curframe (some frame) none (ground arith) in
    let not_main : (t.curframe == 0) ≡ false = ground (arith, depth) in
    let lower : t.curframe - 1 ≡ s.curframe = omega (arith, depth) in
    let found' : get_or t.saved (t.curframe - 1) none ≡ some frame = rw lower found in
    rw (return_from_subprog, not_main, found') (ap (λ depth. (resumed_at depth s t, true)) lower)
