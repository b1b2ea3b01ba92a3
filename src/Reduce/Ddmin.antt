-- ===== src/Reduce/Ddmin.antt =====
-- src/fuzz/reduce/ddmin.rs: `ddmin`. The loop runs on fuel: a round keeps fewer instructions or
-- cuts more chunks.
use rand_verifier.Prelude.{
  ℕ, zero, suc, ◌+◌, ◌-◌, ◌*◌, ◌/◌, min, max, ◌==◌, ◌&&◌, not, leb, ltb, if◌then◌else◌, Bool, List,
  [], ◌∷◌, Option, some, none, length,
}
use rand_verifier.Cfg.{listed}
use rand_verifier.Reduce.{OracleCache, answer_of, budget_exhausted}
use rand_verifier.Reduce.Fixup.{Deletion, deleted, rejected, panics, delete_insns}

-- `0..len`, from `i` on.
abbrev pub range : ℕ → ℕ → List ℕ
range zero i = []
range (suc n) i = i ∷ range n (suc i)

-- The kept indices without those of a chunk; `i` is the place of the first.
unfoldable pub without_chunk : ℕ → ℕ → ℕ → List ℕ → List ℕ
without_chunk granularity chunk i [] = []
without_chunk granularity chunk i (idx ∷ keep) =
    let rest = without_chunk granularity chunk (suc i) keep in
    if i / granularity == chunk then rest else idx ∷ rest

-- The numbers of a list that are not in another.
abbrev pub removed_of : List ℕ → List ℕ → List ℕ
removed_of [] candidate = []
removed_of (i ∷ is) candidate =
    let rest = removed_of is candidate in if listed candidate i then rest else i ∷ rest

-- How the loop over the chunks ends.
pub data Tried : Type 0 where
  reduced : (keep best : List ℕ) (cache : OracleCache) → Tried
  unchanged : (cache : OracleCache) → Tried
  exhausted : (cache : OracleCache) → Tried
  panicked : Tried

pub data Outcome : Type 0 where
  found : (best : List ℕ) (cache : OracleCache) → Outcome
  not_preserved : (cache : OracleCache) → Outcome
  panic : Outcome

module _ (bytes : List ℕ) (oracle : List ℕ → Bool) where
  abbrev pub delete_all_but : List ℕ → Deletion
  delete_all_but candidate = delete_insns bytes (removed_of (range (length bytes / 8) 0) candidate)

  -- The `k` chunks from `chunk` on.
  unfoldable pub try_chunks : ℕ → ℕ → ℕ → List ℕ → OracleCache → Tried
  unfolding without_chunk answer_of delete_insns
  try_chunks zero chunk granularity keep cache = unchanged cache
  try_chunks (suc k) chunk granularity keep cache =
      let candidate = without_chunk granularity chunk 0 keep in
      if length candidate == length keep
      then try_chunks k (suc chunk) granularity keep cache
      else elim (delete_all_but candidate) [
        | rejected ↦ try_chunks k (suc chunk) granularity keep cache
        | panics ↦ panicked
        | deleted candidate_bytes ↦
            let r = answer_of cache candidate_bytes oracle in
            elim r.1 [
              | none ↦ exhausted r.0
              | some result ↦
                  if result
                  then reduced candidate candidate_bytes r.0
                  else try_chunks k (suc chunk) granularity keep r.0
            ]
      ]

  -- `while keep.len() >= 2 && !cache.budget_exhausted()`; `none` means that the fuel ran out.
  unfoldable pub ddmin_loop : ℕ → List ℕ → List ℕ → ℕ → OracleCache → Option Outcome
  unfolding try_chunks budget_exhausted
  ddmin_loop zero keep best n cache = none
  ddmin_loop (suc fuel) keep best n cache =
      if leb 2 (length keep) && not (budget_exhausted cache)
      then elim (try_chunks n 0 ((length keep + n - 1) / n) keep cache) [
        | reduced candidate candidate_bytes c ↦
            ddmin_loop fuel candidate candidate_bytes (max (n - 1) 2) c
        | exhausted c ↦ some (found best c)
        | panicked ↦ some panic
        | unchanged c ↦
            if leb (length keep) n
            then some (found best c)
            else ddmin_loop fuel keep best (min (n * 2) (length keep)) c
      ]
      else some (found best cache)

  abbrev pub ddmin_fuel : ℕ
  ddmin_fuel = (length bytes / 8 + 1) * (length bytes / 8 + 1)

  unfoldable pub ddmin : OracleCache → Option Outcome
  unfolding ddmin_loop answer_of
  ddmin cache =
      let len = length bytes / 8 in
      if ltb len 2
      then some (found bytes cache)
      else let r = answer_of cache bytes oracle in
        elim r.1 [
          | none ↦ some (found bytes r.0)
          | some preserved ↦
              if preserved
              then ddmin_loop ddmin_fuel (range len 0) bytes 2 r.0
              else some (not_preserved r.0)
        ]
