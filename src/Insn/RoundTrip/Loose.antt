-- ===== src/Insn/RoundTrip/Loose.antt =====
-- Encodings outside the round trip of `parse_insn` and `encode`.
use rand_verifier.Prelude.{ℕ, ◌≤◌, ◌≡◌, refl, true, some, none, ok, arith, ◌∙◌}
use rand_verifier.Prelude.Int.{ℤ, pos}
use rand_verifier.Insn.{neg, ld_mem, size_dw}
use rand_verifier.Insn.Opcode
use rand_verifier.Insn.Fields.{Fields}
use rand_verifier.Insn.Decode.Alu.{decode_alu}
use rand_verifier.Insn.Decode.Memory.{decode_memory}
use rand_verifier.Insn.Parse.{decode_op, decode_fields}
use rand_verifier.Insn.Encode.{fields_of, encode}
use rand_verifier.Insn.RoundTrip.Bytes.{decode_fields-within}

abbrev pub neg_fields : ℕ → ℤ → Fields
neg_fields dst imm = record { op = Opcode.neg; dst = dst; src = 0; offset = pos 0; imm = imm }

abbrev pub ld_dw_fields : ℕ → ℕ → ℤ → Fields
ld_dw_fields dst base offset = record {
  op = 0x99;
  dst = dst;
  src = base;
  offset = offset;
  imm = pos 0;
}

decode_op-neg : (dst : ℕ) (imm : ℤ) → decode_op (neg_fields dst imm) ≡ ok (neg dst)
unfolding decode_op decode_alu
decode_op-neg dst imm = refl

decode_op-ld_dw :
    (dst base : ℕ) (offset : ℤ)
    → decode_op (ld_dw_fields dst base offset) ≡ ok (ld_mem dst base offset size_dw true)
unfolding decode_op decode_memory
decode_op-ld_dw dst base offset = refl

-- A negation with an immediate decodes to the same instruction as one without, whose encoding has
-- the immediate 0.
pub decode_fields-neg :
    (dst : ℕ) (imm : ℤ)
    → dst ≤ 10
    → (decode_fields (neg_fields dst imm) ≡ ok (neg dst))
      × (fields_of (neg dst) ≡ some (neg_fields dst (pos 0)))
unfolding fields_of
decode_fields-neg dst imm l =
    (decode_fields-within (neg_fields dst imm) l (omega arith) ∙ decode_op-neg dst imm, refl)

-- A sign-extending load of 8 bytes is decoded, and has no encoding.
pub decode_fields-ld_dw :
    (dst base : ℕ) (offset : ℤ)
    → dst ≤ 10
    → base ≤ 10
    → (decode_fields (ld_dw_fields dst base offset) ≡ ok (ld_mem dst base offset size_dw true))
      × (encode (ld_mem dst base offset size_dw true) ≡ none)
unfolding encode
decode_fields-ld_dw dst base offset l k = (
  decode_fields-within (ld_dw_fields dst base offset) l k ∙ decode_op-ld_dw dst base offset,
  refl,
)
