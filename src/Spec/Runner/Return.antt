-- ===== src/Spec/Runner/Return.antt =====
-- What `exit` demands, and that a subprogram's return restores its caller.
use rand_verifier.Prelude.{
  ap, ◌∙◌, ltb, false, err, ◌∷◌, [], Option, some, Option-cases, inl, inr, true, sym, ◌+◌, ℕ, ◌≡◌,
  true, false, ltb, List, ok, arith, refl, if-err-eq-ok, >>=-eq-ok,
}
use rand_verifier.Spec.Value.{
  SpecValue, scalar, uninit, ptr_to_stack, ptr_to_ctx, ptr_to_map, ptr_to_map_value, ptr_to_mem,
  ptr_to_map_value_or_null, ptr_to_mem_or_null, is_scalar, is_pointer,
}
use rand_verifier.Spec.State.{SpecFrame, SpecState, reg}
use rand_verifier.Spec.Verdict.{Reason, r0_uninitialized}
use rand_verifier.Spec.Runner.Arith.{initialized_or, operand, from_reg}
use rand_verifier.Spec.Runner.Branch.{Pushed, item, WorkItem}
use rand_verifier.Prelude.Int.{ℤ}
use rand_verifier.Spec.Runner.Frames.{
  Saved, push_frame, pop_frame, caller_exists, IsStack, pop_frame-push_frame,
  push_frame-caller_exists,
}
use rand_verifier.Spec.Runner.Step.{
  called, call_sub_step, returned, is_stack_ptr, return_step, callee_of, exit_step,
}

-- A value that passes is as it was, and is initialized.
initialized_or-ok :
    (why : Reason) (pc : ℕ) (u : SpecValue) {v : SpecValue}
    → initialized_or why pc u ≡ ok v
    → (v ≡ u) × ¬ (u ≡ uninit)
unfolding initialized_or
initialized_or-ok why pc uninit h = absurd (cc)
initialized_or-ok why pc (scalar lo hi) h = (cc, λ e. cc)
initialized_or-ok why pc (ptr_to_stack lo hi) h = (cc, λ e. cc)
initialized_or-ok why pc (ptr_to_ctx off) h = (cc, λ e. cc)
initialized_or-ok why pc (ptr_to_map k v t) h = (cc, λ e. cc)
initialized_or-ok why pc (ptr_to_map_value lo hi size) h = (cc, λ e. cc)
initialized_or-ok why pc (ptr_to_map_value_or_null size id) h = (cc, λ e. cc)
initialized_or-ok why pc (ptr_to_mem lo hi size id) h = (cc, λ e. cc)
initialized_or-ok why pc (ptr_to_mem_or_null size id) h = (cc, λ e. cc)

scalar_of : (v : SpecValue) → ¬ (v ≡ uninit) → is_pointer v ≡ false → is_scalar v ≡ true
unfolding is_scalar is_pointer
scalar_of uninit n h = absurd (n refl)
scalar_of (scalar lo hi) n h = refl
scalar_of (ptr_to_stack lo hi) n h = cc
scalar_of (ptr_to_ctx off) n h = cc
scalar_of (ptr_to_map k v t) n h = cc
scalar_of (ptr_to_map_value lo hi size) n h = cc
scalar_of (ptr_to_map_value_or_null size id) n h = cc
scalar_of (ptr_to_mem lo hi size id) n h = cc
scalar_of (ptr_to_mem_or_null size id) n h = cc

-- An exit that is not refused leaves a scalar in R0 and no reference in use.
pub exit_step-released :
    (st : SpecState) (pc : ℕ) {next : List WorkItem}
    → exit_step st pc ≡ ok next
    → (is_scalar (reg st 0) ≡ true) × (st.refs_cnt ≡ 0)
unfolding exit_step operand
exit_step-released st pc h =
    let (v, read, rest) = >>=-eq-ok (operand r0_uninitialized st pc (from_reg 0)) _ h in
    let (same, init) = initialized_or-ok r0_uninitialized pc (reg st 0) read in
    let (no_ptr, rest2) = if-err-eq-ok (is_pointer v) _ _ rest in
    let (no_refs, rest3) = if-err-eq-ok (ltb 0 st.refs_cnt) _ _ rest2 in
    (scalar_of (reg st 0) init (rw same at no_ptr), ground arith)

-- A scalar passes every test that an exit makes of R0.
record IsReturnable (u : SpecValue) (pc : ℕ) : Type 0 where
  operand_ok : initialized_or r0_uninitialized pc u ≡ ok u
  no_ptr : is_pointer u ≡ false
  no_stack : is_stack_ptr u ≡ false

scalar-IsReturnable : (u : SpecValue) (pc : ℕ) → is_scalar u ≡ true → IsReturnable u pc
unfolding is_scalar initialized_or is_pointer is_stack_ptr
scalar-IsReturnable (scalar lo hi) pc h = record {
  operand_ok = refl;
  no_ptr = refl;
  no_stack = refl;
}
scalar-IsReturnable (ptr_to_stack lo hi) pc h = absurd (cc)
scalar-IsReturnable (ptr_to_ctx off) pc h = absurd (cc)
scalar-IsReturnable (ptr_to_map k v t) pc h = absurd (cc)
scalar-IsReturnable (ptr_to_map_value lo hi size) pc h = absurd (cc)
scalar-IsReturnable (ptr_to_map_value_or_null size id) pc h = absurd (cc)
scalar-IsReturnable (ptr_to_mem lo hi size id) pc h = absurd (cc)
scalar-IsReturnable (ptr_to_mem_or_null size id) pc h = absurd (cc)
scalar-IsReturnable uninit pc h = absurd (cc)

-- An exit with a saved caller goes back to it.
exit_step-returns :
    (st : SpecState) (pc : ℕ) (r : SpecFrame × List (Option SpecFrame))
    → is_scalar (reg st 0) ≡ true
    → st.refs_cnt ≡ 0
    → caller_exists st.saved ≡ true
    → pop_frame st.saved ≡ some r
    → exit_step st pc ≡ ok (item st.cur.ret_pc (returned st r) ∷ [])
unfolding exit_step operand return_step
exit_step-returns st pc r s n c p =
    let v = scalar-IsReturnable (reg st 0) pc s in
    let none_held : ltb 0 st.refs_cnt ≡ false = ground arith in
    rw (v.operand_ok, v.no_ptr, none_held, c, return_step, p, v.no_stack) refl

-- The state of the first item that is pushed.
first_state : SpecState → Pushed → SpecState
first_state d (ok (w ∷ ws)) = w.state
first_state d (ok []) = d
first_state d (err why) = d

abbrev one_item : ℕ → SpecState → Pushed
one_item pc st = ok (item pc st ∷ [])

go-state : {a b : ℕ} {x y : SpecState} → one_item a x ≡ one_item b y → x ≡ y
unfolding first_state
go-state {x = x} h = ap (first_state x) h

call_sub_step-called :
    (st st' : SpecState) (pc target : ℕ) (offset : ℤ) (gs : Saved)
    → push_frame st.saved st.cur ≡ some gs
    → call_sub_step st pc offset ≡ ok (item target st' ∷ [])
    → called st pc gs ≡ st'
unfolding call_sub_step
call_sub_step-called st st' pc target offset gs e h = go-state (rw (e, call_sub_step) at h)

-- A subprogram is called where the slots in use come first. When it exits with the frames that
-- were saved for it, a scalar in R0 and no reference, the caller goes on behind the call with the
-- state `returned` gives for its own frame and its saved frames.
pub exit_step-call_sub_step :
    (st st' callee : SpecState) (pc pc' target : ℕ) (offset : ℤ)
    → IsStack st.saved
    → call_sub_step st pc offset ≡ ok (item target st' ∷ [])
    → callee.saved ≡ st'.saved
    → callee.cur.ret_pc ≡ st'.cur.ret_pc
    → is_scalar (reg callee 0) ≡ true
    → callee.refs_cnt ≡ 0
    → exit_step callee pc' ≡ ok (item (pc + 1) (returned callee (st.cur, st.saved)) ∷ [])
unfolding call_sub_step callee_of called
exit_step-call_sub_step st st' callee pc pc' target offset v h saved ret s n =
    elim (Option-cases (push_frame st.saved st.cur)) [
      | inl e ↦ absurd (cc (rw (e, call_sub_step) at h))
      | inr (gs, e) ↦
          let same = call_sub_step-called st st' pc target offset gs e h in
          let same_saved : callee.saved ≡ gs = saved ∙ ap (λ (t : SpecState). t.saved) (sym same) in
          let same_ret : callee.cur.ret_pc ≡ pc + 1 =
            ret ∙ ap (λ (t : SpecState). t.cur.ret_pc) (sym same) in
          exit_step-returns callee pc' (st.cur, st.saved) s n
            (ap caller_exists same_saved ∙ push_frame-caller_exists st.saved gs st.cur e)
            (ap pop_frame same_saved ∙ pop_frame-push_frame st.saved gs st.cur v e)
          ∙ ap (λ (t : ℕ). one_item t (returned callee (st.cur, st.saved))) same_ret
    ]
