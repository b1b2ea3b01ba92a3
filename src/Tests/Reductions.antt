-- ===== src/Tests/Reductions.antt =====
-- Deletion and delta debugging of src/fuzz/reduce/ on small programs.
use rand_verifier.Prelude.{ℕ, ◌≡◌, refl, ◌==◌, not, Bool, List, [], ◌∷◌, Option, some, length}
use rand_verifier.Insn.Parse.{parse_insn, decode_op}
use rand_verifier.Insn.Decode.Alu.{decode_alu}
use rand_verifier.Insn.Decode.Jump.{decode_exit, decode_jset}
use rand_verifier.Reduce.{new_cache}
use rand_verifier.Reduce.Fixup.{deleted, delete_insns}
use rand_verifier.Reduce.Ddmin.{Outcome, found, ddmin}
use rand_verifier.Reduce.Minimal.{IsOutcome, ddmin-IsOutcome}

-- `r0 = 1; r0 = 0; exit`
abbrev two_moves : List ℕ
two_moves =
    0xb7 ∷ 0 ∷ 0 ∷ 0 ∷ 1 ∷ 0 ∷ 0 ∷ 0 ∷ 0xb7 ∷ 0 ∷ 0 ∷ 0 ∷ 0 ∷ 0 ∷ 0 ∷ 0 ∷ 0x95 ∷ 0 ∷ 0 ∷ 0 ∷ 0 ∷ 0
    ∷ 0 ∷ 0 ∷ []

abbrev is_not_empty : List ℕ → Bool
is_not_empty bytes = not (length bytes == 0)

abbrev best_of : Option Outcome → List ℕ
best_of (some (found best c)) = best
best_of _ = []

only_exit :
    best_of (ddmin two_moves is_not_empty (new_cache 0)) ≡ 0x95 ∷ 0 ∷ 0 ∷ 0 ∷ 0 ∷ 0 ∷ 0 ∷ 0 ∷ []
unfolding ddmin new_cache parse_insn decode_op decode_alu decode_exit
only_exit = refl

ddmin-IsOutcome_example :
    (o : Outcome) × (ddmin two_moves is_not_empty (new_cache 0) ≡ some o)
    × IsOutcome two_moves is_not_empty 0 o
unfolding new_cache
ddmin-IsOutcome_example =
    ddmin-IsOutcome two_moves is_not_empty (new_cache 0) (λ b r h. absurd (cc)) refl

-- `if r1 & 1 goto +1; r0 = 1; r0 = 0; exit` without the first move: the offset stays.
jset_not_rebased :
    delete_insns (0x45 ∷ 1 ∷ 1 ∷ 0 ∷ 1 ∷ 0 ∷ 0 ∷ 0 ∷ two_moves) (1 ∷ [])
    ≡ deleted (
        0x45 ∷ 1 ∷ 1 ∷ 0 ∷ 1 ∷ 0 ∷ 0 ∷ 0 ∷ 0xb7 ∷ 0 ∷ 0 ∷ 0 ∷ 0 ∷ 0 ∷ 0 ∷ 0 ∷ 0x95 ∷ 0 ∷ 0 ∷ 0 ∷ 0
        ∷ 0 ∷ 0 ∷ 0 ∷ [])
unfolding delete_insns parse_insn decode_op decode_jset decode_alu decode_exit
jset_not_rebased = refl
