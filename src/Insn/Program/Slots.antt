-- ===== src/Insn/Program/Slots.antt =====
-- The slots that `decode_program` of src/insn.rs goes through.
use rand_verifier.Prelude.{
  if◌then◌else◌, Bool, ℕ, suc, ◌+◌, ◌*◌, ◌≤◌, ◌<◌, ◌≡◌, List, [], ◌∷◌, Result, ok, err, ◌>>=◌,
  length, arith, ◌==◌, true, false,
}
use rand_verifier.Insn.{BpfInsn}
use rand_verifier.Insn.Opcode
use rand_verifier.Insn.Read.{indexed, le_u32}
use rand_verifier.Insn.Decode.{DecodeError}
use rand_verifier.Insn.Parse.{parse_insn}
use rand_verifier.Insn.Program.{
  as_chunks, Slots, at_slot, decode_slots, decode_program, parse_ldimm64, with_insn, with_second,
  without_remainder,
}

-- The chunks are whole slots, and less than a slot is left.
as_chunks-length :
    (bytes : List ℕ)
    → (length bytes ≡ 8 * length (as_chunks bytes).0 + length (as_chunks bytes).1)
      × (length (as_chunks bytes).1 < 8)
unfolding as_chunks
as_chunks-length (a ∷ b ∷ c ∷ d ∷ e ∷ f ∷ g ∷ h ∷ rest) = omega (arith, as_chunks-length rest)
as_chunks-length [] = omega arith
as_chunks-length (a ∷ []) = omega arith
as_chunks-length (a ∷ b ∷ []) = omega arith
as_chunks-length (a ∷ b ∷ c ∷ []) = omega arith
as_chunks-length (a ∷ b ∷ c ∷ d ∷ []) = omega arith
as_chunks-length (a ∷ b ∷ c ∷ d ∷ e ∷ []) = omega arith
as_chunks-length (a ∷ b ∷ c ∷ d ∷ e ∷ f ∷ []) = omega arith
as_chunks-length (a ∷ b ∷ c ∷ d ∷ e ∷ f ∷ g ∷ []) = omega arith

-- What the loop returns behind `idx` for `n` slots: an instruction for each, or the slot of an error.
abbrev Counted : ℕ → ℕ → Slots (List BpfInsn × ℕ) → Type 0
Counted idx n (ok r) = (length r.0 ≡ n) × (r.1 ≡ idx + n)
Counted idx n (err e) = (idx ≤ e.0) × (e.0 < idx + n)

with_insn-Counted :
    (idx n : ℕ) (insn : BpfInsn) (later : Slots (List BpfInsn × ℕ))
    → Counted (idx + 1) n later
    → Counted idx (suc n) (with_insn insn later)
with_insn-Counted idx n insn (ok r) h = omega arith
with_insn-Counted idx n insn (err e) h = omega arith

with_second-Counted :
    (idx n : ℕ) (insn : BpfInsn) (imm_hi : ℕ) (later : Slots (List BpfInsn × ℕ))
    → Counted (idx + 2) n later
    → Counted idx (suc (suc n)) (with_second insn imm_hi later)
with_second-Counted idx n insn imm_hi (ok r) h = omega arith
with_second-Counted idx n insn imm_hi (err e) h = omega arith

at_slot-Counted :
    {A : Type 0} (idx n : ℕ) (r : Result DecodeError A) (next : A → Slots (List BpfInsn × ℕ))
    → ((a : A) → Counted idx (suc n) (next a))
    → Counted idx (suc n) (at_slot idx r >>= next)
at_slot-Counted idx n (ok a) next h = h a
at_slot-Counted idx n (err e) next h = omega arith

if-Counted :
    (idx n : ℕ) (b : Bool) (x y : Slots (List BpfInsn × ℕ))
    → Counted idx n x
    → Counted idx n y
    → Counted idx n (if b then x else y)
if-Counted idx n true x y h k = h
if-Counted idx n false x y h k = k

decode_slots-Counted :
    (idx : ℕ) (chunks : List (List ℕ)) → Counted idx (length chunks) (decode_slots idx chunks)
unfolding decode_slots
decode_slots-Counted idx [] = omega arith
decode_slots-Counted idx (chunk ∷ []) = at_slot-Counted idx 0 (indexed chunk 0) _ (λ op.
    if-Counted idx 1 (op == Opcode.ld_imm64) _ _ (omega arith)
      (at_slot-Counted idx 0 (parse_insn chunk) _ (λ insn. omega arith)))
decode_slots-Counted idx (chunk ∷ second ∷ rest) =
    let n = length (second ∷ rest) in
    at_slot-Counted idx n (indexed chunk 0) _ (λ op.
      if-Counted idx (suc n) (op == Opcode.ld_imm64) _ _
        (at_slot-Counted idx n (parse_ldimm64 chunk second) _ (λ insn.
          at_slot-Counted idx n (le_u32 second 4) _ (λ imm_hi.
            with_second-Counted idx (length rest) insn imm_hi (decode_slots (idx + 2) rest)
              (decode_slots-Counted (idx + 2) rest))))
        (at_slot-Counted idx n (parse_insn chunk) _ (λ insn.
          with_insn-Counted idx n insn (decode_slots (idx + 1) (second ∷ rest))
            (decode_slots-Counted (idx + 1) (second ∷ rest)))))

finish-ok :
    (n : ℕ) (left : List ℕ) (s : Slots (List BpfInsn × ℕ)) (insns : List BpfInsn)
    → Counted 0 n s
    → (s >>= without_remainder left) ≡ ok insns
    → (length insns ≡ n) × (length left ≡ 0)
finish-ok n [] (ok r) insns c h = ground arith
finish-ok n (b ∷ bs) (ok r) insns c h = absurd (ground arith)
finish-ok n left (err e) insns c h = absurd (ground arith)

finish-error :
    (n : ℕ) (left : List ℕ) (s : Slots (List BpfInsn × ℕ)) (idx : ℕ) (e : DecodeError)
    → Counted 0 n s
    → (s >>= without_remainder left) ≡ err (idx, e)
    → 8 * idx < 8 * n + length left
finish-error n [] (ok r) idx e c h = absurd (ground arith)
finish-error n (b ∷ bs) (ok r) idx e c h = ground arith
finish-error n left (err why) idx e c h = ground arith

-- A program that decodes has whole slots, one for each instruction.
pub decode_program-length :
    (bytes : List ℕ) (insns : List BpfInsn)
    → decode_program bytes ≡ ok insns
    → length bytes ≡ 8 * length insns
unfolding decode_program
decode_program-length bytes insns h =
    let chunks = as_chunks bytes in
    let counted =
      finish-ok (length chunks.0) chunks.1 (decode_slots 0 chunks.0) insns
        (decode_slots-Counted 0 chunks.0) h in
    omega (arith, as_chunks-length bytes, counted)

-- An error of the decoder of programs is at a slot of the program, or behind its last whole slot.
pub decode_program-error :
    (bytes : List ℕ) (idx : ℕ) (e : DecodeError)
    → decode_program bytes ≡ err (idx, e)
    → 8 * idx < length bytes
unfolding decode_program
decode_program-error bytes idx e h =
    let chunks = as_chunks bytes in
    let counted =
      finish-error (length chunks.0) chunks.1 (decode_slots 0 chunks.0) idx e
        (decode_slots-Counted 0 chunks.0) h in
    omega (arith, as_chunks-length bytes, counted)
