-- ===== src/Cfg/Search.antt =====
-- src/cfg.rs: `check_cfg`, the depth-first search for unreachable instructions and loop heads. The
-- search runs on fuel, more than one round for each successor of each instruction.
pub mod Ends
pub mod Reached
use rand_verifier.Prelude.{
  ◌≡◌, ◌⊎◌, inl, inr, refl, ℕ, zero, suc, ◌+◌, ◌-◌, ◌*◌, Bool, true, false, ◌==◌, if◌then◌else◌,
  List, [], ◌∷◌, ◌++◌, Option, some, none, Result, ok, err, ◌>>=◌, ◌>>◌, length, get_elem?, get_or,
  set, replicate,
}
use rand_verifier.Insn.{BpfInsn, exit, jmp}
use rand_verifier.Cfg.{
  Checked, fail, listed, empty_program, no_exit_at_end, unreachable, out_of_range,
}
use rand_verifier.Cfg.Visit.{visit_insn}

pub data VisitState : Type 0 where
  not_visited discovering explored : VisitState

-- The instructions' marks, the stack of (instruction, next child), and the loop heads.
pub record Search : Type 0 where
  pub marks : List VisitState
  pub stack : List (ℕ × ℕ)
  pub loop_heads : List ℕ

-- An edge to `nxt`, by its mark.
unfoldable pub follow : ℕ → Search → VisitState → Search
follow nxt s not_visited = record s {
  marks = set s.marks nxt discovering;
  stack = (nxt, 0) ∷ s.stack;
}
follow nxt s discovering =
    if listed s.loop_heads nxt then s else record s { loop_heads = s.loop_heads ++ (nxt ∷ []) }
follow nxt s explored = s

-- One round, with the popped entry and the successors of its instruction.
unfoldable pub process : ℕ → ℕ → Search → List ℕ → Checked Search
unfolding follow
process idx child s nexts = elim (get_elem? nexts child) [
  | none ↦ ok (record s { marks = set s.marks idx explored })
  | some nxt ↦ elim (get_elem? s.marks nxt) [
    | none ↦ fail idx out_of_range
    | some mark ↦ ok (follow nxt (record s { stack = (idx, child + 1) ∷ s.stack }) mark)
  ]
]

-- The stack is empty, or has a top.
pub Stack-cases :
    (xs : List (ℕ × ℕ))
    → (xs ≡ []) ⊎ ((idx child : ℕ) × (rest : List (ℕ × ℕ)) × (xs ≡ (idx, child) ∷ rest))
Stack-cases [] = inl refl
Stack-cases ((idx, child) ∷ rest) = inr (idx, child, rest, refl)

-- `while let Some((idx, child)) = stack.pop()`; `none` means that the fuel ran out.
unfoldable pub search_loop : ℕ → List BpfInsn → List ℕ → Search → Option (Checked Search)
unfolding process
search_loop zero insns subprogs s = none
search_loop (suc fuel) insns subprogs s = elim s.stack [
  | [] ↦ some (ok s)
  | (idx, child) ∷ rest ↦
      elim (visit_insn idx insns subprogs >>= process idx child (record s { stack = rest })) [
        | err failure ↦ some (err failure)
        | ok s' ↦ search_loop fuel insns subprogs s'
      ]
]

abbrev ends_flow : BpfInsn → Bool
ends_flow exit = true
ends_flow (jmp offset) = true
ends_flow _ = false

-- `insns[end - 1]` of one subprogram. An end of 0, or one behind the program, is an index out of range.
unfoldable check_end : List BpfInsn → ℕ → Checked Unit
check_end insns zero = fail 0 out_of_range
check_end insns (suc last) = elim (get_elem? insns last) [
  | none ↦ fail last out_of_range
  | some insn ↦ if ends_flow insn then ok tt else fail last no_exit_at_end
]

-- Every subprogram ends with an exit or a jump.
unfoldable pub check_ends : List BpfInsn → List ℕ → Checked (List ℕ)
unfolding check_end
check_ends insns [] = ok []
check_ends insns (start ∷ later) =
    let rest = check_ends insns later in check_end insns (get_or later 0 (length insns)) >> rest

-- No instruction is left unvisited.
unfoldable pub check_visited : ℕ → List VisitState → Checked (List ℕ)
check_visited i [] = ok []
check_visited i (not_visited ∷ marks) = fail i unreachable
check_visited i (discovering ∷ marks) = check_visited (suc i) marks
check_visited i (explored ∷ marks) = check_visited (suc i) marks

abbrev pub start_search : List BpfInsn → Search
start_search insns = record {
  marks = set (replicate (length insns) not_visited) 0 discovering;
  stack = (0, 0) ∷ [];
  loop_heads = [];
}

-- More rounds than the search can take: each instruction once for each successor, and once more.
abbrev pub search_fuel : List BpfInsn → ℕ
search_fuel insns = (length insns + 4) * (length insns + 1) + 1

unfoldable pub heads_of : Option (Checked Search) → Option (Checked (List ℕ))
unfolding check_visited
heads_of none = none
heads_of (some (err failure)) = some (err failure)
heads_of (some (ok s)) = some (check_visited 0 s.marks >> ok s.loop_heads)

unfoldable pub check_cfg : List BpfInsn → List ℕ → Option (Checked (List ℕ))
unfolding check_ends search_loop heads_of
check_cfg [] subprogs = some (fail 0 empty_program)
check_cfg (insn ∷ insns) subprogs = elim (check_ends (insn ∷ insns) subprogs) [
  | err failure ↦ some (err failure)
  | ok u ↦ heads_of (
      search_loop (search_fuel (insn ∷ insns)) (insn ∷ insns) subprogs
        (start_search (insn ∷ insns)))
]
