-- ===== src/Liveness/Analyze/Round.antt =====
-- A round of `analyze` of src/liveness.rs over the instructions.
use rand_verifier.Prelude.{
  ap, zero, suc, ◌==◌, ==_iff, ==-false→ne, Bool, true, false, Bool-cases, inl, inr, ◌||◌, refl, ℕ,
  ◌+◌, ◌*◌, ◌^◌, ◌≤◌, ◌<◌, ◌≡◌, refl, sym, List, length, get_or, true, false, arith,
}
use rand_verifier.Insn.{BpfInsn}
use rand_verifier.Liveness.Successors.{static_successors}
use rand_verifier.Liveness.Analyze.{joined, transfer, Masks, use_def_at, update_at, update_from}
use rand_verifier.Liveness.Analyze.Order.{total, total-le, set-same}
use rand_verifier.Liveness.Analyze.Grow.{IsGrowing, write-IsGrowing, total-write}

-- What the source's types give: the registers read are of 16 bits, the slots read of 64.
pub record MasksFit (program : List BpfInsn) : Type 0 where
  pub regs_fit : (i : ℕ) → (use_def_at program i).use_regs < 2 ^ 16
  pub slots_fit : (i : ℕ) → (use_def_at program i).read_slots < 2 ^ 64

-- The right-hand sides of the equations at `i`: in[s] over the successors, and what is left of that
-- before the instruction with what it reads.
abbrev pub out_of : List BpfInsn → List ℕ → ℕ → ℕ
out_of program ins i = joined ins (static_successors i program) 0

abbrev pub regs_in_of : List BpfInsn → List ℕ → ℕ → ℕ
regs_in_of program ins i =
    transfer 16 (out_of program ins i) (use_def_at program i).def_regs
      (use_def_at program i).use_regs

abbrev pub slots_in_of : List BpfInsn → List ℕ → ℕ → ℕ
slots_in_of program ins i =
    transfer 64 (out_of program ins i) (use_def_at program i).write_slots
      (use_def_at program i).read_slots

module _ (program : List BpfInsn) where
  abbrev pub successors : ℕ → List ℕ
  successors i = static_successors i program

  abbrev pub defs : ℕ → ℕ
  defs i = (use_def_at program i).def_regs

  abbrev pub uses : ℕ → ℕ
  uses i = (use_def_at program i).use_regs

  abbrev pub writes : ℕ → ℕ
  writes i = (use_def_at program i).write_slots

  abbrev pub reads : ℕ → ℕ
  reads i = (use_def_at program i).read_slots

  pub record AreGrowing (m : Masks) : Type 0 where
    pub regs : IsGrowing 16 successors defs uses (length program) m.in_regs m.out_regs
    pub slots : IsGrowing 64 successors writes reads (length program) m.in_slots m.out_slots

  -- The equations of the data flow at `i`.
  pub record IsSolvedAt (m : Masks) (i : ℕ) : Type 0 where
    pub regs : get_or m.in_regs i 0 ≡ regs_in_of program m.in_regs i
    pub slots : get_or m.in_slots i 0 ≡ slots_in_of program m.in_slots i

  abbrev pub weight : Masks → ℕ
  weight m = total m.in_regs + total m.out_regs + total m.in_slots + total m.out_slots

  pub weight-le : (m : Masks) → AreGrowing m → weight m ≤ length program * (2 * 2 ^ 16 + 2 * 2 ^ 64)
  weight-le m v = omega (
    arith,
    total-le 16 m.in_regs v.regs.in_fits,
    total-le 16 m.out_regs v.regs.out_fits,
    total-le 64 m.in_slots v.slots.in_fits,
    total-le 64 m.out_slots v.slots.out_fits,
    v.regs.in_size,
    v.regs.out_size,
    v.slots.in_size,
    v.slots.out_size,
  )

  -- Where a write changes nothing, the masks are the same and the equations hold.
  update_at-quiet :
      (i : ℕ) (m : Masks)
      → (update_at program i m).1 ≡ false
      → ((update_at program i m).0 ≡ m) × IsSolvedAt m i
  unfolding update_at
  update_at-quiet i m h =
      let in_regs : regs_in_of program m.in_regs i ≡ get_or m.in_regs i 0 = ground arith in
      let out_regs : out_of program m.in_regs i ≡ get_or m.out_regs i 0 = ground arith in
      let in_slots : slots_in_of program m.in_slots i ≡ get_or m.in_slots i 0 = ground arith in
      let out_slots : out_of program m.in_slots i ≡ get_or m.out_slots i 0 = ground arith in
      (
        rw
            (
              set-same m.in_regs i _ in_regs,
              set-same m.out_regs i _ out_regs,
              set-same m.in_slots i _ in_slots,
              set-same m.out_slots i _ out_slots,
            )
            refl,
        record { regs = sym in_regs; slots = sym in_slots },
      )

  module _ (fit : MasksFit program) where
    pub update_at-AreGrowing :
        (i : ℕ) (m : Masks)
        → i < length program
        → AreGrowing m
        → AreGrowing (update_at program i m).0
    unfolding update_at
    update_at-AreGrowing i m l v = record {
      regs =
          write-IsGrowing 16 successors defs uses fit.regs_fit (length program) i m.in_regs
            m.out_regs l v.regs;
      slots =
          write-IsGrowing 64 successors writes reads fit.slots_fit (length program) i m.in_slots
            m.out_slots l v.slots;
    }

    update_at-weight :
        (i : ℕ) (m : Masks)
        → i < length program
        → AreGrowing m
        → (weight m ≤ weight (update_at program i m).0)
          × ((update_at program i m).1 ≡ true → weight m < weight (update_at program i m).0)
    unfolding update_at
    update_at-weight i m l v =
        let regs =
          total-write 16 successors defs uses fit.regs_fit (length program) i m.in_regs m.out_regs l
            v.regs in
        let slots =
          total-write 64 successors writes reads fit.slots_fit (length program) i m.in_slots
            m.out_slots l v.slots in
        (omega (arith, regs, slots), λ h. ground (arith, regs, slots))

  update_from-flag : (i n : ℕ) (m : Masks) → (update_from program i n (m, true)).1 ≡ true
  unfolding update_from
  update_from-flag i zero m = refl
  update_from-flag i (suc n) m = update_from-flag (suc i) n (update_at program i m).0

  -- A round without a change.
  pub update_from-quiet :
      (i n : ℕ) (m : Masks)
      → (update_from program i n (m, false)).1 ≡ false
      → ((update_from program i n (m, false)).0 ≡ m)
        × ((j : ℕ) → i ≤ j → j < i + n → IsSolvedAt m j)
  unfolding update_from
  update_from-quiet i zero m h = (refl, λ j l k. absurd (omega arith))
  update_from-quiet i (suc n) m h = elim (Bool-cases (update_at program i m).1) [
    | inl e ↦
        absurd (cc (rw (update_from, e) at h, update_from-flag (suc i) n (update_at program i m).0))
    | inr e ↦
        let (same, here) = update_at-quiet i m e in
        let (kept, later) = update_from-quiet (suc i) n m (rw (update_from, e, same) at h) in
        (
          rw (update_from, e, same) kept,
          λ j l k. elim (Bool-cases (j == i)) [
            | inl q ↦ rw ((==_iff j i).0 q) here
            | inr q ↦ let far = ==-false→ne j i q in later j (ground arith) (omega arith)
          ],
        )
  ]

  module _ (fit : MasksFit program) where
    pub update_from-AreGrowing :
        (i n : ℕ) (m : Masks) (b : Bool)
        → i + n ≤ length program
        → AreGrowing m
        → AreGrowing (update_from program i n (m, b)).0
    unfolding update_from
    update_from-AreGrowing i zero m b l v = v
    update_from-AreGrowing i (suc n) m b l v =
        let step = update_at program i m in
        update_from-AreGrowing (suc i) n step.0 (b || step.1) (omega arith)
          (update_at-AreGrowing fit i m (omega arith) v)

    update_from-weight :
        (i n : ℕ) (m : Masks) (b : Bool)
        → i + n ≤ length program
        → AreGrowing m
        → weight m ≤ weight (update_from program i n (m, b)).0
    unfolding update_from
    update_from-weight i zero m b l v = omega arith
    update_from-weight i (suc n) m b l v =
        let step = update_at program i m in
        omega (
          arith,
          update_at-weight fit i m (omega arith) v,
          update_from-weight (suc i) n step.0 (b || step.1) (omega arith)
              (update_at-AreGrowing fit i m (omega arith) v),
        )

    -- A round with a change makes the masks greater.
    pub update_from-grows :
        (i n : ℕ) (m : Masks)
        → i + n ≤ length program
        → AreGrowing m
        → (update_from program i n (m, false)).1 ≡ true
        → weight m < weight (update_from program i n (m, false)).0
    unfolding update_from
    update_from-grows i zero m l v h = absurd (cc)
    update_from-grows i (suc n) m l v h =
        let step = update_at program i m in
        let (low, more) = update_at-weight fit i m (omega arith) v in
        let v' = update_at-AreGrowing fit i m (omega arith) v in
        let kept = update_from-weight (suc i) n step.0 (false || step.1) (omega arith) v' in
        elim (Bool-cases step.1) [
          | inl e ↦ omega (arith, more e, kept)
          | inr e ↦
              let same : (update_from program (suc i) n step).0
                  ≡ (update_from program (suc i) n (step.0, false)).0 =
                ap (λ (b : Bool). (update_from program (suc i) n (step.0, b)).0) e in
              omega (
                arith,
                low,
                ap weight same,
                update_from-grows (suc i) n step.0 (omega arith) v' (rw (update_from, e) at h),
              )
        ]
