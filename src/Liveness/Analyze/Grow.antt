-- ===== src/Liveness/Analyze/Grow.antt =====
-- One write of `analyze` of src/liveness.rs to the masks of one kind, registers or slots.
use rand_verifier.Prelude.{
  ℕ, ◌+◌, ◌^◌, ◌≤◌, ◌<◌, ◌≡◌, ◌≢◌, sym, ◌∙◌, List, length, get_or, set, ◌==◌, ==_iff, ==-false→ne,
  Bool-cases, inl, inr, arith, length-set, get_or-set_self, get_or-set_ne,
}
use rand_verifier.Liveness.Analyze.{joined, transfer}
use rand_verifier.Liveness.Analyze.Order.{
  IsWithin, AreWithin, IsWithin-refl, IsWithin-trans, joined-IsWithin, transfer-IsWithin, joined-lt,
  transfer-lt, total, total-set,
}
use rand_verifier.Word.Bits.{le_of_bits}

-- What holds of a mask before and of the one written holds behind the write.
get_or-set-any :
    (P : ℕ → Type 0) (xs : List ℕ) (i j v : ℕ)
    → i < length xs
    → (j ≡ i → P v)
    → P (get_or xs j 0)
    → P (get_or (set xs i v) j 0)
get_or-set-any P xs i j v l new old = elim (Bool-cases (j == i)) [
  | inl e ↦ let same : j ≡ i = (==_iff j i).0 e in rw (same, get_or-set_self xs i v 0 l) (new same)
  | inr e ↦ let far : i ≢ j = λ q. ==-false→ne j i e (sym q) in rw (get_or-set_ne xs v 0 far) old
]

module _ (w : ℕ) (succs : ℕ → List ℕ) (defs uses : ℕ → ℕ) where
  -- The right-hand sides of the equations.
  abbrev pub next_out : List ℕ → ℕ → ℕ
  next_out ins i = joined ins (succs i) 0

  abbrev pub next_in : List ℕ → ℕ → ℕ
  next_in ins i = transfer w (next_out ins i) (defs i) (uses i)

  pub next_out-IsWithin :
      (xs ys : List ℕ) (i : ℕ) → AreWithin xs ys → IsWithin (next_out xs i) (next_out ys i)
  next_out-IsWithin xs ys i h = joined-IsWithin xs ys (succs i) 0 0 h (IsWithin-refl 0)

  pub next_in-IsWithin :
      (xs ys : List ℕ) (i : ℕ) → AreWithin xs ys → IsWithin (next_in xs i) (next_in ys i)
  next_in-IsWithin xs ys i h =
      transfer-IsWithin w (next_out xs i) (next_out ys i) (defs i) (uses i)
        (next_out-IsWithin xs ys i h)

  -- The masks fit their width, and none is above what its equation gives.
  pub record IsGrowing (n : ℕ) (ins outs : List ℕ) : Type 0 where
    pub in_size : length ins ≡ n
    pub out_size : length outs ≡ n
    pub in_fits : (j : ℕ) → get_or ins j 0 < 2 ^ w
    pub out_fits : (j : ℕ) → get_or outs j 0 < 2 ^ w
    pub in_below : (j : ℕ) → IsWithin (get_or ins j 0) (next_in ins j)
    pub out_below : (j : ℕ) → IsWithin (get_or outs j 0) (next_out ins j)

  module _ (fits : (i : ℕ) → uses i < 2 ^ w) where
    pub next_out-lt :
        {n : ℕ} {ins outs : List ℕ} (i : ℕ) → IsGrowing n ins outs → next_out ins i < 2 ^ w
    next_out-lt {ins = ins} i v = joined-lt w ins (succs i) 0 v.in_fits (omega (arith, fits i))

    pub next_in-lt :
        {n : ℕ} {ins outs : List ℕ} (i : ℕ) → IsGrowing n ins outs → next_in ins i < 2 ^ w
    next_in-lt {ins = ins} i v =
        transfer-lt w (next_out ins i) (defs i) (uses i) (next_out-lt i v) (fits i)

    pub write-IsGrowing :
        (n i : ℕ) (ins outs : List ℕ)
        → i < n
        → IsGrowing n ins outs
        → IsGrowing n (set ins i (next_in ins i)) (set outs i (next_out ins i))
    write-IsGrowing n i ins outs l v =
        let at_in : i < length ins = omega (arith, v.in_size) in
        let at_out : i < length outs = omega (arith, v.out_size) in
        let ins' = set ins i (next_in ins i) in
        let grown : AreWithin ins ins' = λ j.
          get_or-set-any (λ x. IsWithin (get_or ins j 0) x) ins i j (next_in ins i) at_in
            (λ e. rw e (v.in_below i)) (IsWithin-refl (get_or ins j 0)) in
        record {
          in_size = length-set ins i (next_in ins i) ∙ v.in_size;
          out_size = length-set outs i (next_out ins i) ∙ v.out_size;
          in_fits = λ j.
              get_or-set-any (λ x. x < 2 ^ w) ins i j (next_in ins i) at_in (λ e. next_in-lt i v)
                (v.in_fits j);
          out_fits = λ j.
              get_or-set-any (λ x. x < 2 ^ w) outs i j (next_out ins i) at_out
                (λ e. next_out-lt i v) (v.out_fits j);
          in_below = λ j.
              get_or-set-any (λ x. IsWithin x (next_in ins' j)) ins i j (next_in ins i) at_in
                (λ e. rw e (next_in-IsWithin ins ins' i grown))
                (IsWithin-trans (get_or ins j 0) (next_in ins j) (next_in ins' j) (v.in_below j)
                  (next_in-IsWithin ins ins' j grown));
          out_below = λ j.
              get_or-set-any (λ x. IsWithin x (next_out ins' j)) outs i j (next_out ins i) at_out
                (λ e. rw e (next_out-IsWithin ins ins' i grown))
                (IsWithin-trans (get_or outs j 0) (next_out ins j) (next_out ins' j) (v.out_below j)
                  (next_out-IsWithin ins ins' j grown));
        }

    -- No mask shrinks, so their sum tells whether one has changed.
    pub total-write :
        (n i : ℕ) (ins outs : List ℕ)
        → i < n
        → IsGrowing n ins outs
        → (total (set ins i (next_in ins i)) + get_or ins i 0 ≡ total ins + next_in ins i)
          × (get_or ins i 0 ≤ next_in ins i)
          × (total (set outs i (next_out ins i)) + get_or outs i 0 ≡ total outs + next_out ins i)
          × (get_or outs i 0 ≤ next_out ins i)
    total-write n i ins outs l v = (
      total-set ins i (next_in ins i) (omega (arith, v.in_size)),
      le_of_bits w (get_or ins i 0) (next_in ins i) (v.in_fits i) (v.in_below i),
      total-set outs i (next_out ins i) (omega (arith, v.out_size)),
      le_of_bits w (get_or outs i 0) (next_out ins i) (v.out_fits i) (v.out_below i),
    )

  -- Masks within a solution stay within it.
  pub write-AreWithin :
      (n i : ℕ) (ins sol : List ℕ)
      → i < length ins
      → IsWithin (next_in sol i) (get_or sol i 0)
      → AreWithin ins sol
      → AreWithin (set ins i (next_in ins i)) sol
  write-AreWithin n i ins sol l closed h j =
      get_or-set-any (λ x. IsWithin x (get_or sol j 0)) ins i j (next_in ins i) l
        (λ e. rw e (
          IsWithin-trans (next_in ins i) (next_in sol i) (get_or sol i 0)
            (next_in-IsWithin ins sol i h) closed))
        (h j)
