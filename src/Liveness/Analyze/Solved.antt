-- ===== src/Liveness/Analyze/Solved.antt =====
-- The equations of the data flow of src/liveness.rs and the masks that `analyze` returns.
use rand_verifier.Prelude.{
  ℕ, zero, suc, ◌+◌, ◌*◌, ◌^◌, ◌≤◌, ◌<◌, ◌≡◌, refl, List, length, get_or, replicate,
  length-replicate, some, Bool, false, Bool-cases, inl, inr, arith, ◌||◌,
}
use native.Mathlib.Nat.{one-le-pow}
use rand_verifier.Insn.{BpfInsn}
use rand_verifier.Liveness.Analyze.{
  Masks, LivenessMasks, update_at, update_from, solve, solve_fuel, no_masks, analyze,
  live_regs_before, live_stack_before,
}
use rand_verifier.Liveness.Analyze.Order.{IsWithin, AreWithin, zero-IsWithin}
use rand_verifier.Liveness.Analyze.Grow.{IsGrowing, write-AreWithin}
use rand_verifier.Liveness.Analyze.Round.{
  MasksFit, AreGrowing, IsSolvedAt, weight, weight-le, regs_in_of, slots_in_of, successors, defs,
  uses, writes, reads, update_from-quiet, update_from-AreGrowing, update_from-grows,
  update_at-AreGrowing,
}

-- Masks that hold at least what each equation gives.
pub record IsClosed (program : List BpfInsn) (l : LivenessMasks) : Type 0 where
  pub regs : (i : ℕ) → IsWithin (regs_in_of program l.live_regs i) (live_regs_before l i)
  pub slots : (i : ℕ) → IsWithin (slots_in_of program l.live_stack i) (live_stack_before l i)

-- Each mask is what its equation gives, and is within every closed assignment.
pub record IsLeastSolution (program : List BpfInsn) (l : LivenessMasks) : Type 0 where
  pub regs : (i : ℕ) → i < length program → live_regs_before l i ≡ regs_in_of program l.live_regs i
  pub slots :
      (i : ℕ) → i < length program → live_stack_before l i ≡ slots_in_of program l.live_stack i
  pub least :
      (sol : LivenessMasks)
      → IsClosed program sol
      → (i : ℕ)
      → IsWithin (live_regs_before l i) (live_regs_before sol i)
        × IsWithin (live_stack_before l i) (live_stack_before sol i)

module _ (program : List BpfInsn) (fit : MasksFit program) where
  IsBelow : LivenessMasks → Masks → Type 0
  IsBelow sol m = AreWithin m.in_regs sol.live_regs × AreWithin m.in_slots sol.live_stack

  update_at-IsBelow :
      (i : ℕ) (m : Masks) (sol : LivenessMasks)
      → i < length program
      → AreGrowing program m
      → IsClosed program sol
      → IsBelow sol m
      → IsBelow sol (update_at program i m).0
  unfolding update_at IsBelow live_regs_before live_stack_before
  update_at-IsBelow i m sol l v closed (r, s) = (
    write-AreWithin 16 (successors program) (defs program) (uses program) (length program) i
        m.in_regs sol.live_regs (omega (arith, v.regs.in_size)) (closed.regs i) r,
    write-AreWithin 64 (successors program) (writes program) (reads program) (length program) i
        m.in_slots sol.live_stack (omega (arith, v.slots.in_size)) (closed.slots i) s,
  )

  update_from-IsBelow :
      (i n : ℕ) (m : Masks) (b : Bool) (sol : LivenessMasks)
      → i + n ≤ length program
      → AreGrowing program m
      → IsClosed program sol
      → IsBelow sol m
      → IsBelow sol (update_from program i n (m, b)).0
  unfolding update_from
  update_from-IsBelow i zero m b sol l v closed h = h
  update_from-IsBelow i (suc n) m b sol l v closed h =
      let step = update_at program i m in
      update_from-IsBelow (suc i) n step.0 (b || step.1) sol (omega arith)
        (update_at-AreGrowing program fit i m (omega arith) v) closed
        (update_at-IsBelow i m sol (omega arith) v closed h)

  record IsSolution (m final : Masks) : Type 0 where
    solved : (i : ℕ) → i < length program → IsSolvedAt program final i
    below : (sol : LivenessMasks) → IsClosed program sol → IsBelow sol m → IsBelow sol final

  solve-IsSolution :
      (fuel : ℕ) (m : Masks)
      → AreGrowing program m
      → length program * (2 * 2 ^ 16 + 2 * 2 ^ 64) < weight program m + fuel
      → (final : Masks) × (solve fuel program m ≡ some final) × IsSolution m final
  unfolding solve
  solve-IsSolution zero m v h = absurd (omega (arith, weight-le program m v))
  solve-IsSolution (suc fuel) m v h =
      let round = update_from program 0 (length program) (m, false) in
      elim (Bool-cases round.1) [
        | inl e ↦
            let v' =
              update_from-AreGrowing program fit 0 (length program) m false (omega arith) v in
            let more = update_from-grows program fit 0 (length program) m (omega arith) v e in
            let (final, r, s) = solve-IsSolution fuel round.0 v' (omega (arith, more)) in
            (
              final,
              rw (solve, e) r,
              record {
                solved = s.solved;
                below = λ sol closed b.
                    s.below sol closed
                      (update_from-IsBelow 0 (length program) m false sol (omega arith) v closed b);
              },
            )
        | inr e ↦
            let (same, all) = update_from-quiet program 0 (length program) m e in
            (
              m,
              rw (solve, e, same) refl,
              record {
                solved = λ i l. all i (omega arith) (omega arith);
                below = λ sol closed b. b;
              },
            )
      ]

  get_or-replicate : (n i v : ℕ) → get_or (replicate n v) i v ≡ v
  get_or-replicate zero i v = refl
  get_or-replicate (suc n) zero v = refl
  get_or-replicate (suc n) (suc i) v = get_or-replicate n i v

  zeros-IsGrowing :
      (w : ℕ) (succs : ℕ → List ℕ) (ds us : ℕ → ℕ) (n : ℕ)
      → IsGrowing w succs ds us n (replicate n 0) (replicate n 0)
  zeros-IsGrowing w succs ds us n = record {
    in_size = length-replicate n 0;
    out_size = length-replicate n 0;
    in_fits = λ j. rw (get_or-replicate n j 0) (one-le-pow w 2 (omega arith));
    out_fits = λ j. rw (get_or-replicate n j 0) (one-le-pow w 2 (omega arith));
    in_below = λ j. rw (get_or-replicate n j 0) (zero-IsWithin _);
    out_below = λ j. rw (get_or-replicate n j 0) (zero-IsWithin _);
  }

  -- Where the registers that each instruction reads fit 16 bits, and the slots 64, `analyze` ends
  -- within its fuel, and its masks solve the equations of the data flow at every instruction and
  -- are within all masks that are closed under them.
  pub analyze-IsLeastSolution :
      (l : LivenessMasks) × (analyze program ≡ some l) × IsLeastSolution program l
  unfolding analyze solve_fuel live_regs_before live_stack_before IsBelow
  analyze-IsLeastSolution =
      let n = length program in
      let start : AreGrowing program (no_masks program) = record {
        regs = zeros-IsGrowing 16 (successors program) (defs program) (uses program) n;
        slots = zeros-IsGrowing 64 (successors program) (writes program) (reads program) n;
      } in
      let (m, r, s) =
        solve-IsSolution (solve_fuel program) (no_masks program) start (omega arith) in
      let zeros_below : (xs : List ℕ) → AreWithin (replicate n 0) xs =
        λ xs j. rw (get_or-replicate n j 0) (zero-IsWithin (get_or xs j 0)) in
      (
        record { live_regs = m.in_regs; live_stack = m.in_slots },
        rw (analyze, r) refl,
        record {
          regs = λ i k. (s.solved i k).regs;
          slots = λ i k. (s.solved i k).slots;
          least = λ sol closed i.
              let below =
                s.below sol closed (zeros_below sol.live_regs, zeros_below sol.live_stack) in
              (below.0 i, below.1 i);
        },
      )
