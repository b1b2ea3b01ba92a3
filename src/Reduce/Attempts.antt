-- ===== src/Reduce/Attempts.antt =====
-- One pass of `ddmin` of src/fuzz/reduce/ddmin.rs over the chunks.
use rand_verifier.Prelude.{
  ℕ, zero, suc, ◌+◌, ◌≤◌, ◌<◌, ◌≡◌, ◌⊎◌, inl, inr, refl, sym, ◌∙◌, ◌==◌, ==_iff, ==-false→ne, Bool,
  true, Bool-cases, List, length, arith,
}
use rand_verifier.Reduce.{OracleCache, answer_of}
use rand_verifier.Reduce.Fixup.{deleted, panics}
use rand_verifier.Reduce.Ddmin.{
  Tried, reduced, unchanged, exhausted, panicked, without_chunk, delete_all_but, try_chunks,
}
use rand_verifier.Reduce.Chunks.{
  length-without_chunk, Deletion-cases, IsTrue, IsRefused, answer_of-Checked,
}

module _ (bytes : List ℕ) (oracle : List ℕ → Bool) where
  -- A chunk that is empty or whose removal is refused.
  abbrev pub IsStuck : ℕ → List ℕ → ℕ → Type 0
  IsStuck g keep j =
      (length (without_chunk g j 0 keep) ≡ length keep)
      ⊎ IsRefused bytes oracle (without_chunk g j 0 keep)

  -- What the loop over the `k` chunks from `chunk` on ends with.
  abbrev pub IsTried : ℕ → List ℕ → ℕ → ℕ → OracleCache → Tried → Type 0
  IsTried g keep chunk k cache (reduced candidate best c) =
      (length candidate < length keep)
      × (oracle best ≡ true)
      × (delete_all_but bytes oracle candidate ≡ deleted best)
      × IsTrue bytes oracle c
      × (c.max_checks ≡ cache.max_checks)
  IsTried g keep chunk k cache (unchanged c) =
      IsTrue bytes oracle c
      × (c.max_checks ≡ cache.max_checks)
      × ((j : ℕ) → chunk ≤ j → j < chunk + k → IsStuck g keep j)
  IsTried g keep chunk k cache (exhausted c) = 0 < cache.max_checks
  IsTried g keep chunk k cache panicked =
      (candidate : List ℕ) × (delete_all_but bytes oracle candidate ≡ panics)

  -- One chunk more in front.
  IsTried-front :
      (g : ℕ) (keep : List ℕ) (chunk k : ℕ) (cache c : OracleCache) (t : Tried)
      → c.max_checks ≡ cache.max_checks
      → IsStuck g keep chunk
      → IsTried g keep (suc chunk) k c t
      → IsTried g keep chunk (suc k) cache t
  IsTried-front g keep chunk k cache c (reduced candidate best c') m s (l, o, d, h, e) =
      (l, o, d, h, e ∙ m)
  IsTried-front g keep chunk k cache c (unchanged c') m s (h, e, all) = (
    h,
    e ∙ m,
    λ j p q. elim (Bool-cases (j == chunk)) [
      | inl r ↦ rw ((==_iff j chunk).0 r) s
      | inr r ↦ let far = ==-false→ne j chunk r in all j (ground arith) (omega arith)
    ],
  )
  IsTried-front g keep chunk k cache c (exhausted c') m s h = rw (sym m) h
  IsTried-front g keep chunk k cache c panicked m s h = h

  pub try_chunks-IsTried :
      (g : ℕ) (keep : List ℕ) (k chunk : ℕ) (cache : OracleCache)
      → IsTrue bytes oracle cache
      → IsTried g keep chunk k cache (try_chunks bytes oracle k chunk g keep cache)
  unfolding try_chunks
  try_chunks-IsTried g keep zero chunk cache h = (h, refl, λ j p q. absurd (omega arith))
  try_chunks-IsTried g keep (suc k) chunk cache h =
      let candidate = without_chunk g chunk 0 keep in
      let later = try_chunks-IsTried g keep k (suc chunk) in
      elim (Bool-cases (length candidate == length keep)) [
        | inl e ↦
            rw (try_chunks, e)
              (IsTried-front g keep chunk k cache cache _ refl (inl ((==_iff _ _).0 e))
                (later cache h))
        | inr e ↦ elim (Deletion-cases (delete_all_but bytes oracle candidate)) [
          | inl d ↦
              rw (try_chunks, e, d)
                (IsTried-front g keep chunk k cache cache _ refl (inr (inl d)) (later cache h))
          | inr (inl d) ↦ rw (try_chunks, e, d) (candidate, d)
          | inr (inr (b, d)) ↦
              let c = answer_of-Checked bytes oracle cache b h in
              let smaller : length candidate < length keep =
                ground (arith, length-without_chunk g chunk 0 keep, ==-false→ne _ _ e) in
              elim c.answer [
                | inl (a, m) ↦ rw (try_chunks, e, d, a) m
                | inr a ↦ elim (Bool-cases (oracle b)) [
                  | inl o ↦ rw (try_chunks, e, d, a, o) (smaller, o, d, c.true_still, c.same_budget)
                  | inr o ↦
                      rw (try_chunks, e, d, a, o)
                        (IsTried-front g keep chunk k cache (answer_of cache b oracle).0 _
                          c.same_budget (inr (inr (b, d, o)))
                          (later (answer_of cache b oracle).0 c.true_still))
                ]
              ]
        ]
      ]
