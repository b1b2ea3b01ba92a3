-- ===== src/Reduce/Minimal.antt =====
-- The rounds of `ddmin` of src/fuzz/reduce/ddmin.rs and what it returns.
use mathlib.Core.Path.{subst}
use native.Mathlib.Nat.{div-eq_of_lt-le, mul-le-mul_right}
use rand_verifier.Prelude.{
  ℕ, zero, suc, ◌+◌, ◌-◌, ◌*◌, ◌/◌, min, max, ◌≤◌, ◌<◌, ◌≡◌, ◌⊎◌, inl, inr, refl, sym, ap, ◌∙◌,
  ◌&&◌, not, Bool, true, Bool-cases, leb, leb-false→lt, ltb, List, some, length, arith,
}
use rand_verifier.Reduce.{OracleCache, answer_of, budget_exhausted}
use rand_verifier.Reduce.Fixup.{deleted, panics}
use rand_verifier.Reduce.Ddmin.{
  Tried, reduced, unchanged, exhausted, panicked, Outcome, found, not_preserved, panic, range,
  without_chunk, delete_all_but, try_chunks, ddmin_loop, ddmin_fuel, ddmin,
}
use rand_verifier.Reduce.Chunks.{
  remove_at, length-remove_at, without_chunk-one, IsTrue, IsRefused, answer_of-Checked,
}
use rand_verifier.Reduce.Attempts.{IsTried, try_chunks-IsTried}

one_chunk_each : (l n : ℕ) → 2 ≤ l → l ≤ n → (l + n - 1) / n ≡ 1
one_chunk_each l n p q = div-eq_of_lt-le {k = 1} n (omega arith) (omega arith)

-- A round that keeps fewer instructions, whatever the chunks.
fewer_kept :
    (a l len n fuel : ℕ)
    → a < l
    → l * (len + 1) + (len - n) < suc fuel
    → a * (len + 1) + (len - max (n - 1) 2) < fuel
fewer_kept a l len n fuel h k =
    let less : suc a * (len + 1) ≤ l * (len + 1) = mul-le-mul_right (len + 1) h in
    omega (arith, less)

length-range : (n i : ℕ) → length (range n i) ≡ n
length-range zero i = refl
length-range (suc n) i = ap suc (length-range n (suc i))

module _ (bytes : List ℕ) (oracle : List ℕ → Bool) where
  -- A program that the oracle accepts, built from the kept instructions; it is as small as single
  -- deletions can make it, or there is a budget.
  pub record IsReduced (budget : ℕ) (best : List ℕ) : Type 0 where
    pub keep : List ℕ
    pub accepted : oracle best ≡ true
    pub built :
        ((keep ≡ range (length bytes / 8) 0) × (best ≡ bytes))
        ⊎ (delete_all_but bytes oracle keep ≡ deleted best)
    pub smallest :
        (0 < budget)
        ⊎ (length keep < 2)
        ⊎ ((i : ℕ) → i < length keep → IsRefused bytes oracle (remove_at i keep))

  -- The outcomes: such a program, or a panic of the encoder on the way.
  abbrev pub IsOutcome : ℕ → Outcome → Type 0
  IsOutcome budget (found best c) = IsReduced budget best
  IsOutcome budget (not_preserved c) = ⊥
  IsOutcome budget panic = (candidate : List ℕ) × (delete_all_but bytes oracle candidate ≡ panics)

  -- The state of the loop, with the rounds that it can still take.
  record IsLoop (fuel budget : ℕ) (keep best : List ℕ) (n : ℕ) (c : OracleCache) : Type 0 where
    answers : IsTrue bytes oracle c
    same_budget : c.max_checks ≡ budget
    at_most : length keep ≤ length bytes / 8
    chunks : 2 ≤ n
    rounds : length keep * (length bytes / 8 + 1) + (length bytes / 8 - n) < fuel
    accepted : oracle best ≡ true
    built :
        ((keep ≡ range (length bytes / 8) 0) × (best ≡ bytes))
        ⊎ (delete_all_but bytes oracle keep ≡ deleted best)

  abbrev Ends : ℕ → ℕ → Type 0
  Ends fuel budget =
      (keep best : List ℕ) (n : ℕ) (c : OracleCache)
      → IsLoop fuel budget keep best n c
      → (o : Outcome) × (ddmin_loop bytes oracle fuel keep best n c ≡ some o) × IsOutcome budget o

  -- A round that the loop's condition lets run, by what its pass over the chunks ends with.
  round-Ends :
      (fuel budget : ℕ) (keep best : List ℕ) (n : ℕ) (c : OracleCache) (t : Tried)
      → Ends fuel budget
      → IsLoop (suc fuel) budget keep best n c
      → (leb 2 (length keep) && not (budget_exhausted c)) ≡ true
      → try_chunks bytes oracle n 0 ((length keep + n - 1) / n) keep c ≡ t
      → IsTried bytes oracle ((length keep + n - 1) / n) keep 0 n c t
      → (o : Outcome) × (ddmin_loop bytes oracle (suc fuel) keep best n c ≡ some o)
        × IsOutcome budget o
  unfolding ddmin_loop
  round-Ends fuel budget keep best n c (reduced candidate b c') ih v g e (l, o, d, h, m) =
      let fewer : suc (length candidate) ≤ length keep = l in
      let (out, r, k) = ih candidate b (max (n - 1) 2) c' (record {
        answers = h;
        same_budget = m ∙ v.same_budget;
        at_most = omega (arith, v.at_most);
        chunks = omega arith;
        rounds = fewer_kept (length candidate) (length keep) (length bytes / 8) n fuel l v.rounds;
        accepted = o;
        built = inr d;
      }) in
      (out, rw (ddmin_loop, g, e) r, k)
  round-Ends fuel budget keep best n c (exhausted c') ih v g e t = (
    found best c',
    rw (ddmin_loop, g, e) refl,
    record {
      keep = keep;
      accepted = v.accepted;
      built = v.built;
      smallest = inl (rw (sym v.same_budget) t);
    },
  )
  round-Ends fuel budget keep best n c panicked ih v g e t = (panic, rw (ddmin_loop, g, e) refl, t)
  round-Ends fuel budget keep best n c (unchanged c') ih v g e (h, m, all) =
      elim (Bool-cases (leb (length keep) n)) [
        | inl q ↦ (
          found best c',
          rw (ddmin_loop, g, e, q) refl,
          record {
            keep = keep;
            accepted = v.accepted;
            built = v.built;
            smallest = inr (
                inr (λ i l.
                  let one =
                    one_chunk_each (length keep) n (ground (arith, g)) (ground (arith, q)) in
                  let shift : i ≡ 0 + i = omega arith in
                  let same : without_chunk ((length keep + n - 1) / n) i 0 keep ≡ remove_at i keep =
                    ap (λ g. without_chunk g i 0 keep) one
                    ∙ ap (λ c. without_chunk 1 c 0 keep) shift
                    ∙ without_chunk-one 0 i keep in
                  elim (all i (omega arith) (ground (arith, q, l))) [
                    | inl s ↦ absurd (omega (arith, s, ap length same, length-remove_at i keep l))
                    | inr s ↦ subst (IsRefused bytes oracle) same s
                  ]));
          },
        )
        | inr q ↦
            let more = leb-false→lt (length keep) n q in
            let (out, r, k) = ih keep best (min (n * 2) (length keep)) c' (record {
              answers = h;
              same_budget = m ∙ v.same_budget;
              at_most = v.at_most;
              chunks = omega (arith, v.chunks, more);
              rounds = omega (arith, v.rounds, v.at_most, v.chunks, more);
              accepted = v.accepted;
              built = v.built;
            }) in
            (out, rw (ddmin_loop, g, e, q) r, k)
      ]

  ddmin_loop-Ends : (fuel budget : ℕ) → Ends fuel budget
  unfolding ddmin_loop budget_exhausted
  ddmin_loop-Ends zero budget keep best n c v = absurd (omega (arith, v.rounds))
  ddmin_loop-Ends (suc fuel) budget keep best n c v =
      elim (Bool-cases (leb 2 (length keep) && not (budget_exhausted c))) [
        | inl running ↦
            let g = (length keep + n - 1) / n in
            round-Ends fuel budget keep best n c _ (ddmin_loop-Ends fuel budget) v running refl
              (try_chunks-IsTried bytes oracle g keep n 0 c v.answers)
        | inr g ↦ (
          found best c,
          rw (ddmin_loop, g) refl,
          record {
            keep = keep;
            accepted = v.accepted;
            built = v.built;
            smallest = elim (Bool-cases (leb 2 (length keep))) [
              | inl p ↦ inl (ground (arith, g, p, v.same_budget))
              | inr p ↦ inr (inl (leb-false→lt 2 (length keep) p))
            ];
          },
        )
      ]

  -- Where the cache's answers are the oracle's and the oracle accepts the bytes, `ddmin` ends
  -- within its fuel. It panics where `encode` does, and else finds a program that the oracle
  -- accepts, which is the bytes or what a deletion leaves of them; without a budget, and with two
  -- instructions or more kept, no single further deletion gives an accepted program.
  pub ddmin-IsOutcome :
      (cache : OracleCache)
      → IsTrue bytes oracle cache
      → oracle bytes ≡ true
      → (o : Outcome) × (ddmin bytes oracle cache ≡ some o) × IsOutcome cache.max_checks o
  unfolding ddmin
  ddmin-IsOutcome cache h a =
      let len = length bytes / 8 in
      let c = answer_of-Checked bytes oracle cache bytes h in
      let r = answer_of cache bytes oracle in
      elim (Bool-cases (ltb len 2)) [
        | inl e ↦ (
          found bytes cache,
          rw (ddmin, e) refl,
          record {
            keep = range len 0;
            accepted = a;
            built = inl (refl, refl);
            smallest = inr (inl (rw (length-range len 0) (ground (arith, e))));
          },
        )
        | inr e ↦ elim c.answer [
          | inl (n, m) ↦ (
            found bytes r.0,
            rw (ddmin, e, n) refl,
            record { keep = range len 0; accepted = a; built = inl (refl, refl); smallest = inl m },
          )
          | inr n ↦
              let (o, g, k) =
                ddmin_loop-Ends (ddmin_fuel bytes oracle) cache.max_checks (range len 0) bytes 2 r.0
                  (record {
                    answers = c.true_still;
                    same_budget = c.same_budget;
                    at_most = rw (length-range len 0) (omega arith);
                    chunks = omega arith;
                    rounds = rw (length-range len 0) (omega arith);
                    accepted = a;
                    built = inl (refl, refl);
                  }) in
              (o, rw (ddmin, e, n, a) g, k)
        ]
      ]
