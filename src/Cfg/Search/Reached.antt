-- ===== src/Cfg/Search/Reached.antt =====
-- The marks that the search of src/cfg.rs leaves.
use rand_verifier.Prelude.{
  ℕ, zero, suc, ◌+◌, ◌<◌, ◌≡◌, ◌≢◌, refl, List, [], ◌∷◌, some, ok, ◌>>=◌, ◌>>◌, >>=-eq-ok, length,
  get_elem?, set, replicate, arith, ◌⊎◌, inl, inr, Option-cases, Result-cases, sym, ap, ◌∙◌,
  Bool-cases, length-set, length-replicate,
}
use rand_verifier.Insn.{BpfInsn}
use rand_verifier.Cfg.{listed}
use rand_verifier.Cfg.Visit.{visit_insn}
use rand_verifier.Cfg.Visit.Targets.{HasTargets, visit_insn-HasTargets}
use rand_verifier.Cfg.Search.{
  Stack-cases, VisitState, not_visited, discovering, explored, Search, follow, process, search_loop,
  check_visited, check_ends, start_search, search_fuel, heads_of, check_cfg,
}

module _ (insns : List BpfInsn) (subprogs : List ℕ) where
  pub data Reached : ℕ → Type 0 where
    entry : Reached 0
    along :
        {i : ℕ} (nexts : List ℕ) (child j : ℕ)
        → Reached i
        → visit_insn i insns subprogs ≡ ok nexts
        → get_elem? nexts child ≡ some j
        → Reached j

  -- The checks of an instruction pass.
  abbrev Passes : ℕ → Type 0
  Passes i = (nexts : List ℕ) × (visit_insn i insns subprogs ≡ ok nexts)

  abbrev OnStack : ℕ → List (ℕ × ℕ) → Type 0
  OnStack i [] = ⊥
  OnStack i ((j, c) ∷ rest) = (i ≡ j) ⊎ OnStack i rest

  abbrev AllReached : List (ℕ × ℕ) → Type 0
  AllReached [] = Unit
  AllReached ((j, c) ∷ rest) = Reached j × AllReached rest

  -- A marked instruction is reached, and passes or waits.
  abbrev Marked : Search → ℕ → Type 0
  Marked s i = Reached i × (Passes i ⊎ OnStack i s.stack)

  record IsSound (s : Search) : Type 0 where
    sized : length s.marks ≡ length insns
    waiting : AllReached s.stack
    marked : (i : ℕ) (m : VisitState) → get_elem? s.marks i ≡ some m → m ≢ not_visited → Marked s i

  get_elem?-set-inv :
      (xs : List VisitState) (i j : ℕ) (v m : VisitState)
      → get_elem? (set xs i v) j ≡ some m
      → (i ≡ j) ⊎ (get_elem? xs j ≡ some m)
  get_elem?-set-inv [] i j v m h = inr h
  get_elem?-set-inv (x ∷ xs) zero zero v m h = inl refl
  get_elem?-set-inv (x ∷ xs) zero (suc j) v m h = inr h
  get_elem?-set-inv (x ∷ xs) (suc i) zero v m h = inr h
  get_elem?-set-inv (x ∷ xs) (suc i) (suc j) v m h = elim (get_elem?-set-inv xs i j v m h) [
    | inl e ↦ inl (ap suc e)
    | inr e ↦ inr e
  ]

  -- The entry that is popped passes, so the others may be read without it.
  popped :
      (s : Search) (idx child : ℕ) (rest : List (ℕ × ℕ)) (nexts : List ℕ)
      → IsSound s
      → s.stack ≡ (idx, child) ∷ rest
      → visit_insn idx insns subprogs ≡ ok nexts
      → IsSound (record s { stack = rest })
  popped s idx child rest nexts v e p = record {
    sized = v.sized;
    waiting = (rw e at v.waiting).1;
    marked = λ i m g n.
        let (r, o) = v.marked i m g n in
        (
          r,
          elim o [
            | inl q ↦ inl q
            | inr q ↦ elim (rw e at q) [ inl same ↦ inl (nexts, rw same p) | inr q' ↦ inr q' ]
          ],
        );
  }

  mark_explored :
      (s : Search) (idx : ℕ)
      → IsSound s
      → Reached idx
      → Passes idx
      → IsSound (record s { marks = set s.marks idx explored })
  mark_explored s idx v r p = record {
    sized = length-set s.marks idx explored ∙ v.sized;
    waiting = v.waiting;
    marked = λ i m g n. elim (get_elem?-set-inv s.marks idx i explored m g) [
      | inl e ↦ (rw (sym e) r, inl (rw (sym e) p))
      | inr e ↦ v.marked i m e n
    ];
  }

  push_again :
      (s : Search) (idx child : ℕ)
      → IsSound s
      → Reached idx
      → IsSound (record s { stack = (idx, child) ∷ s.stack })
  push_again s idx child v r = record {
    sized = v.sized;
    waiting = (r, v.waiting);
    marked = λ i m g n.
        let (q, o) = v.marked i m g n in (q, elim o [ inl p ↦ inl p | inr p ↦ inr (inr p) ]);
  }

  push_new :
      (s : Search) (nxt : ℕ)
      → IsSound s
      → Reached nxt
      → IsSound (record s { marks = set s.marks nxt discovering; stack = (nxt, 0) ∷ s.stack })
  push_new s nxt v r = record {
    sized = length-set s.marks nxt discovering ∙ v.sized;
    waiting = (r, v.waiting);
    marked = λ i m g n. elim (get_elem?-set-inv s.marks nxt i discovering m g) [
      | inl e ↦ (rw (sym e) r, inr (inl (sym e)))
      | inr e ↦ let (q, o) = v.marked i m e n in (q, elim o [ inl p ↦ inl p | inr p ↦ inr (inr p) ])
    ];
  }

  follow-IsSound :
      (nxt : ℕ) (s : Search) (m : VisitState) → IsSound s → Reached nxt → IsSound (follow nxt s m)
  unfolding follow
  follow-IsSound nxt s not_visited v r = push_new s nxt v r
  follow-IsSound nxt s discovering v r = elim (Bool-cases (listed s.loop_heads nxt)) [
    | inl e ↦ rw e v
    | inr e ↦ rw e (record { sized = v.sized; waiting = v.waiting; marked = v.marked })
  ]
  follow-IsSound nxt s explored v r = v

  process-IsSound :
      (idx child : ℕ) (s s' : Search) (nexts : List ℕ)
      → IsSound s
      → Reached idx
      → visit_insn idx insns subprogs ≡ ok nexts
      → process idx child s nexts ≡ ok s'
      → IsSound s'
  unfolding process
  process-IsSound idx child s s' nexts v r p h = elim (Option-cases (get_elem? nexts child)) [
    | inl e ↦
        let same : record s { marks = set s.marks idx explored } ≡ s' = cc (rw (process, e) at h) in
        rw (sym same) (mark_explored s idx v r (nexts, p))
    | inr (nxt, e) ↦ elim (Option-cases (get_elem? s.marks nxt)) [
      | inl g ↦ absurd (cc (rw (process, e, g) at h))
      | inr (m, g) ↦
          let s1 : Search = record s { stack = (idx, child + 1) ∷ s.stack } in
          let same : follow nxt s1 m ≡ s' = cc (rw (process, e, g) at h) in
          rw (sym same) (
            follow-IsSound nxt s1 m (push_again s idx (child + 1) v r)
              (along nexts child nxt r p e))
    ]
  ]

  search_loop-IsSound :
      (fuel : ℕ) (s s' : Search)
      → IsSound s
      → search_loop fuel insns subprogs s ≡ some (ok s')
      → IsSound s' × (s'.stack ≡ [])
  unfolding search_loop
  search_loop-IsSound zero s s' v h = absurd (cc)
  search_loop-IsSound (suc fuel) s s' v h = elim (Stack-cases s.stack) [
    | inl e ↦
        let same : s ≡ s' = cc (rw (search_loop, e) at h) in
        (rw (sym same) v, ap (λ (t : Search). t.stack) (sym same) ∙ e)
    | inr (idx, child, rest, e) ↦
        let popped_state : Search = record s { stack = rest } in
        elim (Result-cases (visit_insn idx insns subprogs >>= process idx child popped_state)) [
          | inr (f, g) ↦ absurd (cc (rw (search_loop, e, g) at h))
          | inl (s1, g) ↦
              let (nexts, visited, processed) = >>=-eq-ok (visit_insn idx insns subprogs) _ g in
              search_loop-IsSound fuel s1 s'
                (process-IsSound idx child popped_state s1 nexts
                  (popped s idx child rest nexts v e visited) (rw e at v.waiting).0 visited
                  processed)
                (rw (search_loop, e, g) at h)
        ]
  ]

  get_elem?-replicate : (n i : ℕ) (v m : VisitState) → get_elem? (replicate n v) i ≡ some m → m ≡ v
  get_elem?-replicate zero i v m h = absurd (cc)
  get_elem?-replicate (suc n) zero v m h = cc
  get_elem?-replicate (suc n) (suc i) v m h = get_elem?-replicate n i v m h

  start-IsSound : IsSound (start_search insns)
  start-IsSound = record {
    sized =
        length-set (replicate (length insns) not_visited) 0 discovering
        ∙ length-replicate (length insns) not_visited;
    waiting = (entry, tt);
    marked = λ i m g n.
        elim (get_elem?-set-inv (replicate (length insns) not_visited) 0 i discovering m g) [
          | inl e ↦ (rw (sym e) entry, inr (inl (sym e)))
          | inr e ↦ absurd (n (get_elem?-replicate (length insns) i not_visited m e))
        ];
  }

  check_visited-all :
      (k : ℕ) (marks : List VisitState) (r : List ℕ) (i : ℕ)
      → check_visited k marks ≡ ok r
      → i < length marks
      → (m : VisitState) × (get_elem? marks i ≡ some m) × (m ≢ not_visited)
  unfolding check_visited
  check_visited-all k [] r i h l = absurd (omega arith)
  check_visited-all k (not_visited ∷ marks) r i h l = absurd (cc)
  check_visited-all k (discovering ∷ marks) r zero h l = (discovering, refl, λ e. cc)
  check_visited-all k (explored ∷ marks) r zero h l = (explored, refl, λ e. cc)
  check_visited-all k (discovering ∷ marks) r (suc i) h l =
      check_visited-all (suc k) marks r i h (omega arith)
  check_visited-all k (explored ∷ marks) r (suc i) h l =
      check_visited-all (suc k) marks r i h (omega arith)

  search-Reached :
      (fuel : ℕ) (heads : List ℕ) (i : ℕ)
      → heads_of (search_loop fuel insns subprogs (start_search insns)) ≡ some (ok heads)
      → i < length insns
      → Reached i × Passes i
  unfolding heads_of
  search-Reached fuel heads i h l =
      elim (Option-cases (search_loop fuel insns subprogs (start_search insns))) [
        | inl e ↦ absurd (cc (rw e at h))
        | inr (r, e) ↦ elim (Result-cases r) [
          | inr (f, g) ↦ absurd (cc (rw (e, g) at h))
          | inl (s, g) ↦
              let (v, empty) =
                search_loop-IsSound fuel (start_search insns) s start-IsSound (e ∙ ap some g) in
              let accepted : (check_visited 0 s.marks >> ok s.loop_heads) ≡ ok heads =
                cc (rw (e, g) at h) in
              let (u, all, rest) = >>=-eq-ok (check_visited 0 s.marks) _ accepted in
              let (m, at_i, not_new) =
                check_visited-all 0 s.marks u i all (omega (arith, v.sized)) in
              let (r', o) = v.marked i m at_i not_new in
              (r', elim o [ inl p ↦ p | inr q ↦ absurd (rw empty at q) ])
        ]
      ]

-- Where check_cfg accepts a program, every instruction is reached from the first one along the
-- successors of `visit_insn`. A jump there stays in its subprogram and does not lead to the second
-- slot of an ldimm64, a call leads to an entry, and what falls through stays in the subprogram.
pub check_cfg-Reached :
    (insns : List BpfInsn) (subprogs heads : List ℕ) (i : ℕ)
    → check_cfg insns subprogs ≡ some (ok heads)
    → i < length insns
    → Reached insns subprogs i
      × (nexts : List ℕ) × (visit_insn i insns subprogs ≡ ok nexts)
      × HasTargets insns subprogs i nexts
unfolding check_cfg
check_cfg-Reached [] subprogs heads i h l = absurd (omega arith)
check_cfg-Reached (insn ∷ rest) subprogs heads i h l =
    let insns = insn ∷ rest in
    elim (Result-cases (check_ends insns subprogs)) [
      | inr (f, e) ↦ absurd (cc (rw (check_cfg, e) at h))
      | inl (u, e) ↦
          let (r, (nexts, p)) =
            search-Reached insns subprogs (search_fuel insns) heads i (rw (check_cfg, e) at h) l in
          (r, nexts, p, visit_insn-HasTargets i insns subprogs nexts p)
    ]
