-- ===== src/Tests/Graphs.antt =====
-- The control-flow checks of src/cfg.rs on small programs.
use rand_verifier.Prelude.{ℕ, ◌≡◌, ◌≢◌, refl, List, [], ◌∷◌, some, none, ok, arith}
use rand_verifier.Prelude.Int.{pos}
use rand_verifier.Insn.{BpfInsn, mov_imm, exit, call_sub, jeq_imm}
use rand_verifier.Insn.Control.{target_of}
use rand_verifier.Cfg.{add_subprog, find_subprog_range}
use rand_verifier.Cfg.Range.{Brackets}
use rand_verifier.Cfg.Entries.{find_subprog_range-add_subprog}
use rand_verifier.Cfg.Visit.{visit_insn}
use rand_verifier.Cfg.Search.{check_cfg}
use rand_verifier.Cfg.Search.Ends.{check_cfg-ends}
use rand_verifier.Cfg.Search.Reached.{Reached, check_cfg-Reached}
use rand_verifier.Cfg.Visit.Targets.{HasTargets}
use rand_verifier.Cfg.Stack.{check_stack_call_chains, callee_at}
use rand_verifier.Cfg.Stack.Chains.{CallChain, IsLegal, main, calls, chain-IsLegal}

-- A branch over one instruction.
abbrev branching : List BpfInsn
branching = jeq_imm 1 (pos 0) (pos 1) ∷ mov_imm 0 (pos 1) ∷ exit ∷ []

branching-accepted : check_cfg branching (0 ∷ []) ≡ some (ok [])
unfolding check_cfg visit_insn target_of
branching-accepted = refl

check_cfg-Reached_example :
    Reached branching (0 ∷ []) 0
    × (nexts : List ℕ) × (visit_insn 0 branching (0 ∷ []) ≡ ok nexts)
    × HasTargets branching (0 ∷ []) 0 nexts
check_cfg-Reached_example =
    check_cfg-Reached branching (0 ∷ []) [] 0 branching-accepted (omega arith)

check_cfg-ends_example : check_cfg branching (0 ∷ []) ≢ none
check_cfg-ends_example = check_cfg-ends branching (0 ∷ [])

-- A call of the subprogram at 2.
abbrev calling : List BpfInsn
calling = call_sub (pos 1) ∷ exit ∷ exit ∷ []

calling-entries : add_subprog calling ≡ ok (0 ∷ 2 ∷ [])
unfolding add_subprog target_of
calling-entries = refl

find_subprog_range-add_subprog_example :
    Brackets 1
      (find_subprog_range 1 (0 ∷ 2 ∷ []) 3).0
      (find_subprog_range 1 (0 ∷ 2 ∷ []) 3).1
      (0 ∷ 2 ∷ [])
find_subprog_range-add_subprog_example =
    find_subprog_range-add_subprog calling (0 ∷ 2 ∷ []) 1 calling-entries (omega arith)

calling-chains : check_stack_call_chains calling (0 ∷ 2 ∷ []) (8 ∷ 16 ∷ []) ≡ ok 0
unfolding check_stack_call_chains target_of
calling-chains = refl

calling-chain : CallChain calling (0 ∷ 2 ∷ []) (1 ∷ 0 ∷ [])
unfolding find_subprog_range callee_at target_of
calling-chain = calls 0 [] 0 1 main (omega arith) (omega arith) refl

chain-IsLegal_example : IsLegal (8 ∷ 16 ∷ []) (0 ∷ []) 1
chain-IsLegal_example =
    chain-IsLegal calling (0 ∷ 2 ∷ []) (8 ∷ 16 ∷ []) 0 calling-chains 1 0 [] calling-chain
