-- ===== src/Reduce/Chunks.antt =====
-- The chunks of `ddmin` of src/fuzz/reduce/ddmin.rs, and the answers of its cache.
use rand_verifier.Prelude.{
  ℕ, zero, suc, ◌+◌, ◌/◌, ◌≤◌, ◌<◌, ◌≡◌, ◌⊎◌, inl, inr, refl, sym, ap, ap₂, ◌∙◌, ◌==◌, ==_iff, Bool,
  true, false, Bool-cases, Option-cases, List, [], ◌∷◌, Option, some, none, length, arith,
}
use rand_verifier.Reduce.{OracleCache, answer_of, budget_exhausted, lookup, same_bytes}
use rand_verifier.Reduce.Fixup.{Deletion, deleted, rejected, panics}
use rand_verifier.Reduce.Ddmin.{without_chunk, delete_all_but}

same_bytes_sound : (xs ys : List ℕ) → same_bytes xs ys ≡ true → xs ≡ ys
same_bytes_sound [] [] h = refl
same_bytes_sound [] (y ∷ ys) h = absurd (cc)
same_bytes_sound (x ∷ xs) [] h = absurd (cc)
same_bytes_sound (x ∷ xs) (y ∷ ys) h = elim (Bool-cases (x == y)) [
  | inl e ↦ ap₂ (λ (a : ℕ) b. a ∷ b) ((==_iff x y).0 e) (same_bytes_sound xs ys (rw e at h))
  | inr e ↦ absurd (cc (rw e at h))
]

-- One instruction less.
abbrev pub remove_at : ℕ → List ℕ → List ℕ
remove_at i [] = []
remove_at zero (x ∷ keep) = keep
remove_at (suc i) (x ∷ keep) = x ∷ remove_at i keep

pub length-remove_at :
    (i : ℕ) (keep : List ℕ) → i < length keep → suc (length (remove_at i keep)) ≡ length keep
length-remove_at i [] h = absurd (omega arith)
length-remove_at zero (x ∷ keep) h = refl
length-remove_at (suc i) (x ∷ keep) h = ap suc (length-remove_at i keep (omega arith))

pub length-without_chunk :
    (g c i : ℕ) (keep : List ℕ) → length (without_chunk g c i keep) ≤ length keep
unfolding without_chunk
length-without_chunk g c i [] = omega arith
length-without_chunk g c i (x ∷ keep) = ground (arith, length-without_chunk g c (suc i) keep)

without_chunk-past : (c i : ℕ) (keep : List ℕ) → c < i → without_chunk 1 c i keep ≡ keep
unfolding without_chunk
without_chunk-past c i [] h = refl
without_chunk-past c i (x ∷ keep) h =
    let far : (i / 1 == c) ≡ false = ground arith in
    rw (without_chunk, far)
      (ap (λ (t : List ℕ). x ∷ t) (without_chunk-past c (suc i) keep (omega arith)))

-- Chunks of one instruction.
pub without_chunk-one :
    (i k : ℕ) (keep : List ℕ) → without_chunk 1 (i + k) i keep ≡ remove_at k keep
unfolding without_chunk
without_chunk-one i k [] = refl
without_chunk-one i zero (x ∷ keep) =
    let here : (i / 1 == i + 0) ≡ true = ground arith in
    rw (without_chunk, here) (without_chunk-past (i + 0) (suc i) keep (omega arith))
without_chunk-one i (suc k) (x ∷ keep) =
    let far : (i / 1 == i + suc k) ≡ false = ground arith in
    let next : i + suc k ≡ suc i + k = omega arith in
    rw (without_chunk, far)
      (ap (λ (t : List ℕ). x ∷ t)
        (ap (λ c. without_chunk 1 c (suc i) keep) next ∙ without_chunk-one (suc i) k keep))

pub Deletion-cases :
    (d : Deletion) → (d ≡ rejected) ⊎ (d ≡ panics) ⊎ ((bytes : List ℕ) × (d ≡ deleted bytes))
Deletion-cases (deleted bytes) = inr (inr (bytes, refl))
Deletion-cases rejected = inl refl
Deletion-cases panics = inr (inl refl)

module _ (bytes : List ℕ) (oracle : List ℕ → Bool) where
  -- The cache has answers of the oracle.
  abbrev pub IsTrue : OracleCache → Type 0
  IsTrue c = (b : List ℕ) (r : Bool) → lookup c.results b ≡ some r → oracle b ≡ r

  -- The deletion fails, or the oracle does not accept what it leaves.
  abbrev pub IsRefused : List ℕ → Type 0
  IsRefused candidate =
      (delete_all_but bytes oracle candidate ≡ rejected)
      ⊎ ((b : List ℕ) × (delete_all_but bytes oracle candidate ≡ deleted b) × (oracle b ≡ false))

  pub record Checked (c : OracleCache) (b : List ℕ) (r : OracleCache × Option Bool) : Type 0 where
    pub true_still : IsTrue r.0
    pub same_budget : r.0.max_checks ≡ c.max_checks
    pub answer : (r.1 ≡ none) × (0 < c.max_checks) ⊎ (r.1 ≡ some (oracle b))

  pub answer_of-Checked :
      (c : OracleCache) (b : List ℕ) → IsTrue c → Checked c b (answer_of c b oracle)
  unfolding answer_of budget_exhausted
  answer_of-Checked c b h = elim (Option-cases (lookup c.results b)) [
    | inr (r, e) ↦
        rw (answer_of, e)
          (record { true_still = h; same_budget = refl; answer = inr (ap some (sym (h b r e))) })
    | inl e ↦ elim (Bool-cases (budget_exhausted c)) [
      | inl g ↦
          rw (answer_of, e, g)
            (record { true_still = h; same_budget = refl; answer = inl (refl, ground arith) })
      | inr g ↦
          rw (answer_of, e, g)
            (record {
              true_still = λ b' r k. elim (Bool-cases (same_bytes b b')) [
                | inl s ↦ ap oracle (sym (same_bytes_sound b b' s)) ∙ cc (rw s at k)
                | inr s ↦ h b' r (rw s at k)
              ];
              same_budget = refl;
              answer = inr refl;
            })
    ]
  ]
