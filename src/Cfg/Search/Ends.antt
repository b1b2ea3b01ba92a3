-- ===== src/Cfg/Search/Ends.antt =====
-- The rounds of the search of src/cfg.rs: each uses up a successor of an instruction, or ends one.
use rand_verifier.Prelude.{
  ℕ, zero, suc, ◌+◌, ◌-◌, ◌*◌, ◌≤◌, ◌<◌, ◌≡◌, ◌≢◌, refl, List, [], ◌∷◌, Option, some, none, ok, err,
  ◌>>=◌, >>=-eq-ok, length, get_elem?, set, replicate, arith, inl, inr, Option-cases, Result-cases,
  sym, ap, Bool-cases,
}
use rand_verifier.Insn.{BpfInsn}
use rand_verifier.Cfg.{Checked, listed}
use rand_verifier.Cfg.Visit.{visit_insn}
use rand_verifier.Cfg.Visit.Count.{visit_insn-length}
use rand_verifier.Cfg.Search.{
  Stack-cases, VisitState, not_visited, discovering, explored, Search, follow, process, search_loop,
  start_search, search_fuel, heads_of, check_cfg, check_ends,
}

abbrev unvisited : List VisitState → ℕ
unvisited [] = 0
unvisited (not_visited ∷ marks) = suc (unvisited marks)
unvisited (discovering ∷ marks) = unvisited marks
unvisited (explored ∷ marks) = unvisited marks

unvisited-explored :
    (marks : List VisitState) (i : ℕ) → unvisited (set marks i explored) ≤ unvisited marks
unvisited-explored [] i = omega arith
unvisited-explored (not_visited ∷ marks) zero = omega arith
unvisited-explored (discovering ∷ marks) zero = omega arith
unvisited-explored (explored ∷ marks) zero = omega arith
unvisited-explored (not_visited ∷ marks) (suc i) = omega (arith, unvisited-explored marks i)
unvisited-explored (discovering ∷ marks) (suc i) = unvisited-explored marks i
unvisited-explored (explored ∷ marks) (suc i) = unvisited-explored marks i

unvisited-discovering :
    (marks : List VisitState) (i : ℕ)
    → get_elem? marks i ≡ some not_visited
    → unvisited (set marks i discovering) + 1 ≡ unvisited marks
unvisited-discovering [] i h = absurd (cc)
unvisited-discovering (not_visited ∷ marks) zero h = omega arith
unvisited-discovering (discovering ∷ marks) zero h = absurd (cc)
unvisited-discovering (explored ∷ marks) zero h = absurd (cc)
unvisited-discovering (not_visited ∷ marks) (suc i) h =
    omega (arith, unvisited-discovering marks i h)
unvisited-discovering (discovering ∷ marks) (suc i) h = unvisited-discovering marks i h
unvisited-discovering (explored ∷ marks) (suc i) h = unvisited-discovering marks i h

-- The rounds that the entries of the stack may still take, with `w` successors at most.
abbrev rounds : ℕ → List (ℕ × ℕ) → ℕ
rounds w [] = 0
rounds w ((idx, child) ∷ rest) = 1 + (w - child) + rounds w rest

abbrev rounds_left : ℕ → Search → ℕ
rounds_left w s = (w + 1) * unvisited s.marks + rounds w s.stack

times_step : (a u u' : ℕ) → u' + 1 ≡ u → a * u ≡ a * u' + a
times_step a u u' e = rw (sym e) (grind arith)

follow-rounds :
    (w nxt : ℕ) (s : Search) (m : VisitState)
    → get_elem? s.marks nxt ≡ some m
    → rounds_left w (follow nxt s m) ≤ rounds_left w s
unfolding follow
follow-rounds w nxt s not_visited g =
    let e : (w + 1) * unvisited s.marks
        ≡ (w + 1) * unvisited (set s.marks nxt discovering) + (w + 1) =
      times_step (w + 1) (unvisited s.marks) (unvisited (set s.marks nxt discovering))
        (unvisited-discovering s.marks nxt g) in
    omega (arith, e)
follow-rounds w nxt s discovering g = elim (Bool-cases (listed s.loop_heads nxt)) [
  | inl e ↦ rw e (omega arith)
  | inr e ↦ rw e (omega arith)
]
follow-rounds w nxt s explored g = omega arith

times_mono : (a u u' : ℕ) → u' ≤ u → a * u' ≤ a * u
times_mono a u u' h = grind arith

get_elem?-lt : (xs : List ℕ) (i x : ℕ) → get_elem? xs i ≡ some x → i < length xs
get_elem?-lt [] i x h = absurd (cc)
get_elem?-lt (y ∷ ys) zero x h = omega arith
get_elem?-lt (y ∷ ys) (suc i) x h = omega (arith, get_elem?-lt ys i x h)

process-rounds :
    (w idx child : ℕ) (s s' : Search) (nexts : List ℕ)
    → length nexts ≤ w
    → process idx child s nexts ≡ ok s'
    → rounds_left w s' < rounds_left w (record s { stack = (idx, child) ∷ s.stack })
unfolding process
process-rounds w idx child s s' nexts l h = elim (Option-cases (get_elem? nexts child)) [
  | inl e ↦
      let same : record s { marks = set s.marks idx explored } ≡ s' = cc (rw (process, e) at h) in
      let less =
        times_mono (w + 1) (unvisited s.marks) (unvisited (set s.marks idx explored))
          (unvisited-explored s.marks idx) in
      rw (sym same) (omega (arith, less))
  | inr (nxt, e) ↦ elim (Option-cases (get_elem? s.marks nxt)) [
    | inl g ↦ absurd (cc (rw (process, e, g) at h))
    | inr (m, g) ↦
        let s1 : Search = record s { stack = (idx, child + 1) ∷ s.stack } in
        let same : follow nxt s1 m ≡ s' = cc (rw (process, e, g) at h) in
        rw (sym same) (omega (arith, follow-rounds w nxt s1 m g, get_elem?-lt nexts child nxt e))
  ]
]

search_loop-ends :
    (w fuel : ℕ) (insns : List BpfInsn) (subprogs : List ℕ) (s : Search)
    → length insns + 2 ≤ w
    → rounds_left w s < fuel
    → search_loop fuel insns subprogs s ≢ none
unfolding search_loop
search_loop-ends w zero insns subprogs s b l h = absurd (omega arith)
search_loop-ends w (suc fuel) insns subprogs s b l h = elim (Stack-cases s.stack) [
  | inl e ↦ absurd (cc (rw (search_loop, e) at h))
  | inr (idx, child, rest, e) ↦
      let s0 : Search = record s { stack = rest } in
      elim (Result-cases (visit_insn idx insns subprogs >>= process idx child s0)) [
        | inr (f, g) ↦ absurd (cc (rw (search_loop, e, g) at h))
        | inl (s1, g) ↦
            let (nexts, visited, processed) = >>=-eq-ok (visit_insn idx insns subprogs) _ g in
            let bound = visit_insn-length idx insns subprogs nexts visited in
            let less = process-rounds w idx child s0 s1 nexts (omega (arith, bound)) processed in
            let same : rounds w s.stack ≡ rounds w ((idx, child) ∷ rest) = ap (rounds w) e in
            search_loop-ends w fuel insns subprogs s1 b (omega (arith, less, same))
              (rw (search_loop, e, g) at h)
      ]
]

heads_of-some : (r : Option (Checked Search)) → r ≢ none → heads_of r ≢ none
unfolding heads_of
heads_of-some none h = absurd (h refl)
heads_of-some (some (ok s)) h = λ e. cc
heads_of-some (some (err f)) h = λ e. cc

unvisited-start : (n : ℕ) → unvisited (replicate n not_visited) ≡ n
unvisited-start zero = refl
unvisited-start (suc n) = ap suc (unvisited-start n)

start-rounds :
    (insn : BpfInsn) (insns : List BpfInsn)
    → rounds_left (length (insn ∷ insns) + 2) (start_search (insn ∷ insns))
      < search_fuel (insn ∷ insns)
start-rounds insn insns = grind (arith, unvisited-start (length insns))

-- The search of `check_cfg` ends within its fuel, whatever the program and its subprograms.
pub check_cfg-ends : (insns : List BpfInsn) (subprogs : List ℕ) → check_cfg insns subprogs ≢ none
unfolding check_cfg
check_cfg-ends [] subprogs h = cc
check_cfg-ends (insn ∷ rest) subprogs h =
    let insns = insn ∷ rest in
    elim (Result-cases (check_ends insns subprogs)) [
      | inr (f, e) ↦ absurd (cc (rw (check_cfg, e) at h))
      | inl (u, e) ↦
          heads_of-some (search_loop (search_fuel insns) insns subprogs (start_search insns))
            (search_loop-ends (length insns + 2) (search_fuel insns) insns subprogs
              (start_search insns) (omega arith) (start-rounds insn rest))
            (rw (check_cfg, e) at h)
    ]
