-- ===== src/ProgType/Ids.antt =====
-- The ABI number of a type decodes to the type, and every number is a type's.
use rand_verifier.Prelude.{ℕ, ◌≡◌, arith}
use rand_verifier.ProgType.{id, from_id}

-- Every number is the ABI number of the program type it decodes to.
pub id-from_id : (n : ℕ) → id (from_id n) ≡ n
unfolding id from_id
id-from_id n = ground arith
