-- ===== src/Insn/NoPanic.antt =====
-- The `unreachable!` arms, the `expect` and the indices of `parse_insn`, `parse_ldimm64` and
-- `decode_program` of src/insn.rs.
use rand_verifier.Prelude.{
  ◌/◌, ◌^◌, ◌+◌, Result, ok, ltb, length, Bool, List, [], arith, bit_and, err, false, not, refl,
  true, ℕ, ◌&&◌, ◌==◌, ◌∷◌, ◌≡◌, ◌≢◌,
}
use rand_verifier.Insn.{BpfInsn}
use rand_verifier.Insn.Opcode
use rand_verifier.Insn.Fields.{of_bits}
use rand_verifier.Insn.Read.{indexed, le_u16, le_u32, read_fields}
use rand_verifier.Insn.Safe.{
  Avoids, Safe, guard-Safe, if-Avoids, >>=-Avoids, indexed-Safe, le_u16-Safe, le_u32-Safe,
  read_fields-Safe,
}
use rand_verifier.Insn.Program.{
  Slots, as_chunks, at_slot, decode_program, decode_slots, parse_ldimm64, pseudo_load,
  second_reserved, with_insn, without_remainder,
}
use rand_verifier.Insn.Decode.{invalid_instruction_length, DecodeError, panicked, is_zero}
use rand_verifier.Insn.Parse.{decode_fields, parse_insn}
use rand_verifier.Insn.Safe.Arms.{decode_fields-Safe}

whole : (bytes : List ℕ) → not (length bytes == 8) ≡ false → length bytes ≡ 8
whole bytes h = ground arith

parse_insn-Safe : (bytes : List ℕ) → Safe (parse_insn bytes)
unfolding parse_insn
parse_insn-Safe bytes =
    guard-Safe (not (length bytes == 8)) (invalid_instruction_length (length bytes)) _ refl (λ e.
      let l = whole bytes e in
      >>=-Avoids panicked (read_fields bytes) decode_fields
        (read_fields-Safe bytes (omega (arith, l))) decode_fields-Safe)

pseudo_load-Safe : (dst src imm_lo imm_hi : ℕ) → Safe (pseudo_load dst src imm_lo imm_hi)
unfolding pseudo_load
pseudo_load-Safe dst src imm_lo imm_hi e = ground arith

second_reserved-Safe : (second : List ℕ) → length second ≡ 8 → Safe (second_reserved second)
unfolding second_reserved
second_reserved-Safe second l =
    >>=-Avoids panicked (indexed second 0) _ (indexed-Safe second 0 (omega arith)) (λ code.
      if-Avoids panicked (not (code == 0)) _ _ (λ t p. cc)
        (λ z.
          >>=-Avoids panicked (indexed second 1) _ (indexed-Safe second 1 (omega arith)) (λ regs.
            if-Avoids panicked (not (regs == 0)) _ _ (λ t p. cc)
              (λ z'.
                >>=-Avoids panicked (le_u16 second 2) _ (le_u16-Safe second 2 (omega arith))
                  (λ off p. cc)))))

parse_ldimm64-Safe : (first second : List ℕ) → Safe (parse_ldimm64 first second)
unfolding parse_ldimm64
parse_ldimm64-Safe first second = guard-Safe (not (length first == 8)) _ _ refl (λ e.
    guard-Safe (not (length second == 8)) _ _ refl (λ e'.
      let l = whole first e in
      let l' = whole second e' in
      >>=-Avoids panicked (indexed first 1) _ (indexed-Safe first 1 (omega (arith, l))) (λ regs.
        >>=-Avoids panicked (le_u16 first 2) _ (le_u16-Safe first 2 (omega (arith, l))) (λ offset.
          >>=-Avoids panicked (le_u32 first 4) _ (le_u32-Safe first 4 (omega (arith, l))) (λ imm_lo.
            >>=-Avoids panicked (le_u32 second 4) _ (le_u32-Safe second 4 (omega (arith, l')))
              (λ imm_hi. guard-Safe (ltb 10 (bit_and regs 0x0F)) _ _ refl (λ d.
                guard-Safe (not (is_zero (of_bits 16 offset))) _ _ refl (λ o.
                  >>=-Avoids panicked (second_reserved second) _ (second_reserved-Safe second l')
                    (λ r. guard-Safe r _ _ refl (λ n.
                      pseudo_load-Safe (bit_and regs 0x0F) (bit_and (regs / 2 ^ 4) 0x0F) imm_lo
                        imm_hi))))))))))

-- Every chunk is a slot of 8 bytes.
all_whole : List (List ℕ) → Bool
all_whole [] = true
all_whole (chunk ∷ chunks) = (length chunk == 8) && all_whole chunks

as_chunks-all_whole : (bytes : List ℕ) → all_whole (as_chunks bytes).0 ≡ true
unfolding as_chunks all_whole
as_chunks-all_whole (a ∷ b ∷ c ∷ d ∷ e ∷ f ∷ g ∷ h ∷ rest) = as_chunks-all_whole rest
as_chunks-all_whole [] = refl
as_chunks-all_whole (a ∷ []) = refl
as_chunks-all_whole (a ∷ b ∷ []) = refl
as_chunks-all_whole (a ∷ b ∷ c ∷ []) = refl
as_chunks-all_whole (a ∷ b ∷ c ∷ d ∷ []) = refl
as_chunks-all_whole (a ∷ b ∷ c ∷ d ∷ e ∷ []) = refl
as_chunks-all_whole (a ∷ b ∷ c ∷ d ∷ e ∷ f ∷ []) = refl
as_chunks-all_whole (a ∷ b ∷ c ∷ d ∷ e ∷ f ∷ g ∷ []) = refl

at_slot-Avoids :
    {A : Type 0} (k idx : ℕ) (r : Result DecodeError A)
    → Safe r
    → Avoids (k, panicked) (at_slot idx r)
at_slot-Avoids k idx (ok a) h = λ p. cc
at_slot-Avoids k idx (err e) h = λ p. h (ground arith)

with_insn-Avoids :
    (k : ℕ) (insn : BpfInsn) (later : Slots (List BpfInsn × ℕ))
    → Avoids (k, panicked) later
    → Avoids (k, panicked) (with_insn insn later)
with_insn-Avoids k insn later h = >>=-Avoids (k, panicked) later _ h (λ r p. cc)

-- The loop has no panic at the slot `k`, whatever `k` is.
decode_slots-Avoids :
    (k idx : ℕ) (chunks : List (List ℕ))
    → all_whole chunks ≡ true
    → Avoids (k, panicked) (decode_slots idx chunks)
unfolding decode_slots all_whole
decode_slots-Avoids k idx [] h = λ p. cc
decode_slots-Avoids k idx (chunk ∷ []) h =
    let l : length chunk ≡ 8 = ground arith in
    >>=-Avoids (k, panicked) (at_slot idx (indexed chunk 0)) _
      (at_slot-Avoids k idx _ (indexed-Safe chunk 0 (omega (arith, l))))
      (λ op.
        if-Avoids (k, panicked) (op == Opcode.ld_imm64) _ _ (λ t p. ground arith)
          (λ e.
            >>=-Avoids (k, panicked) (at_slot idx (parse_insn chunk)) _
              (at_slot-Avoids k idx _ (parse_insn-Safe chunk)) (λ insn p. cc)))
decode_slots-Avoids k idx (chunk ∷ second ∷ rest) h =
    let l : length chunk ≡ 8 = ground arith in
    let l' : length second ≡ 8 = ground arith in
    let tail : all_whole (second ∷ rest) ≡ true = ground arith in
    let tail' : all_whole rest ≡ true = ground arith in
    >>=-Avoids (k, panicked) (at_slot idx (indexed chunk 0)) _
      (at_slot-Avoids k idx _ (indexed-Safe chunk 0 (omega (arith, l))))
      (λ op.
        if-Avoids (k, panicked) (op == Opcode.ld_imm64) _ _
          (λ t.
            >>=-Avoids (k, panicked) (at_slot idx (parse_ldimm64 chunk second)) _
              (at_slot-Avoids k idx _ (parse_ldimm64-Safe chunk second))
              (λ insn.
                >>=-Avoids (k, panicked) (at_slot idx (le_u32 second 4)) _
                  (at_slot-Avoids k idx _ (le_u32-Safe second 4 (omega (arith, l'))))
                  (λ imm_hi.
                    with_insn-Avoids k insn _
                      (with_insn-Avoids k _ _ (decode_slots-Avoids k (idx + 2) rest tail')))))
          (λ e.
            >>=-Avoids (k, panicked) (at_slot idx (parse_insn chunk)) _
              (at_slot-Avoids k idx _ (parse_insn-Safe chunk))
              (λ insn.
                with_insn-Avoids k insn _ (decode_slots-Avoids k (idx + 1) (second ∷ rest) tail))))

without_remainder-Avoids :
    (k : ℕ) (left : List ℕ) (r : List BpfInsn × ℕ) → Avoids (k, panicked) (without_remainder left r)
without_remainder-Avoids k [] r p = cc
without_remainder-Avoids k (b ∷ bs) r p = ground arith

-- The decoders of an instruction, of an ldimm64's two slots and of a program do not panic,
-- whatever the bytes: each index is inside its slice, and no `unreachable!` or failing `expect` is
-- reached.
pub parse_insn-ne-panicked :
    (slot first second program : List ℕ) (idx : ℕ)
    → (parse_insn slot ≢ err panicked)
      × (parse_ldimm64 first second ≢ err panicked)
      × (decode_program program ≢ err (idx, panicked))
unfolding decode_program
parse_insn-ne-panicked slot first second program idx = (
  parse_insn-Safe slot,
  parse_ldimm64-Safe first second,
  >>=-Avoids (idx, panicked) (decode_slots 0 (as_chunks program).0) _
      (decode_slots-Avoids idx 0 (as_chunks program).0 (as_chunks-all_whole program))
      (without_remainder-Avoids idx (as_chunks program).1),
)
