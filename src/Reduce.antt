-- ===== src/Reduce.antt =====
-- src/fuzz/reduce/ddmin.rs: `OracleCache`, the oracle's answers with a budget. The oracle is a parameter, a
-- function of the bytes; the hash map is a list of pairs.
pub mod Fixup
pub mod Ddmin
pub mod Chunks
pub mod Attempts
pub mod Minimal
use rand_verifier.Prelude.{
  ℕ, ◌+◌, Bool, true, false, ◌&&◌, ◌==◌, ltb, leb, if◌then◌else◌, List, [], ◌∷◌, Option, some, none,
}

pub record OracleCache : Type 0 where
  pub results : List (List ℕ × Bool)
  pub max_checks : ℕ
  pub checks : ℕ
  pub hits : ℕ

unfoldable pub new_cache : ℕ → OracleCache
new_cache max_checks = record { results = []; max_checks = max_checks; checks = 0; hits = 0 }

abbrev pub same_bytes : List ℕ → List ℕ → Bool
same_bytes [] [] = true
same_bytes (x ∷ xs) (y ∷ ys) = x == y && same_bytes xs ys
same_bytes _ _ = false

abbrev pub lookup : List (List ℕ × Bool) → List ℕ → Option Bool
lookup [] bytes = none
lookup ((key, result) ∷ rest) bytes =
    let later = lookup rest bytes in if same_bytes key bytes then some result else later

unfoldable pub budget_exhausted : OracleCache → Bool
budget_exhausted c = ltb 0 c.max_checks && leb c.max_checks c.checks

unfoldable pub answer_of : OracleCache → List ℕ → (List ℕ → Bool) → OracleCache × Option Bool
unfolding budget_exhausted
answer_of c bytes oracle = elim (lookup c.results bytes) [
  | some result ↦ (record c { hits = c.hits + 1 }, some result)
  | none ↦ if budget_exhausted c then (c, none) else (
    record c { checks = c.checks + 1; results = (bytes, oracle bytes) ∷ c.results },
    some (oracle bytes),
  )
]
