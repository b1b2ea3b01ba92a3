-- ===== src/Tests/Decoder.antt =====
-- The decoder and the encoder of src/insn.rs and src/fuzz/insn_lib.rs on small programs.
use rand_verifier.Prelude.{
  ℕ, ◌*◌, ◌<◌, ◌≡◌, ◌≢◌, refl, true, List, [], ◌∷◌, ◌++◌, some, none, ok, err, length, arith,
}
use rand_verifier.Prelude.Int.{pos, negsuc}
use rand_verifier.Insn.{add_imm, mov_imm, exit, ld_imm64, ld_imm64_second, neg, ld_mem, size_dw}
use rand_verifier.Insn.Opcode
use rand_verifier.Insn.Fields.{Fields}
use rand_verifier.Insn.Decode.{invalid_instruction_length, panicked}
use rand_verifier.Insn.Decode.Alu.{decode_alu}
use rand_verifier.Insn.Decode.Jump.{decode_exit}
use rand_verifier.Insn.Read.{read_fields}
use rand_verifier.Insn.Parse.{parse_insn, decode_fields, decode_op}
use rand_verifier.Insn.Encode.{encode, fields_of}
use rand_verifier.Insn.Program.{decode_program, parse_ldimm64}
use rand_verifier.Insn.Program.Slots.{decode_program-length, decode_program-error}
use rand_verifier.Insn.RoundTrip.{decodable}
use rand_verifier.Insn.RoundTrip.Bytes.{Fit, parse_insn-encode}
use rand_verifier.Insn.RoundTrip.Loose.{
  neg_fields, ld_dw_fields, decode_fields-neg, decode_fields-ld_dw,
}
use rand_verifier.Insn.NoPanic.{parse_insn-ne-panicked}

abbrev minus_eight : Fields
minus_eight = record { op = Opcode.add_imm; dst = 2; src = 0; offset = pos 0; imm = negsuc 7 }

minus_eight-Fit : Fit minus_eight
minus_eight-Fit = record {
  dst_fits = omega arith;
  src_fits = omega arith;
  offset_low = omega arith;
  offset_high = omega arith;
  imm_low = omega arith;
  imm_high = omega arith;
}

parse_insn-encode_example :
    (bytes : List ℕ) × (encode (add_imm 2 (negsuc 7)) ≡ some bytes)
    × (parse_insn bytes ≡ ok (add_imm 2 (negsuc 7)))
unfolding fields_of decodable
parse_insn-encode_example =
    parse_insn-encode (add_imm 2 (negsuc 7)) minus_eight refl refl minus_eight-Fit

-- `r0 = 0; exit`
abbrev return_zero_bytes : List ℕ
return_zero_bytes = 0xb7 ∷ 0 ∷ 0 ∷ 0 ∷ 0 ∷ 0 ∷ 0 ∷ 0 ∷ 0x95 ∷ 0 ∷ 0 ∷ 0 ∷ 0 ∷ 0 ∷ 0 ∷ 0 ∷ []

return_zero_decoded : decode_program return_zero_bytes ≡ ok (mov_imm 0 (pos 0) ∷ exit ∷ [])
unfolding decode_program parse_insn decode_op decode_alu decode_exit
return_zero_decoded = refl

decode_program-length_example :
    length return_zero_bytes ≡ 8 * length (mov_imm 0 (pos 0) ∷ exit ∷ [])
decode_program-length_example =
    decode_program-length return_zero_bytes (mov_imm 0 (pos 0) ∷ exit ∷ []) return_zero_decoded

-- An exit and one byte more.
abbrev cut_short : List ℕ
cut_short = 0x95 ∷ 0 ∷ 0 ∷ 0 ∷ 0 ∷ 0 ∷ 0 ∷ 0 ∷ 0xb7 ∷ []

cut_short-refused : decode_program cut_short ≡ err (1, invalid_instruction_length 1)
unfolding decode_program parse_insn decode_op decode_exit
cut_short-refused = refl

decode_program-error_example : 8 * 1 < length cut_short
decode_program-error_example =
    decode_program-error cut_short 1 (invalid_instruction_length 1) cut_short-refused

-- `r1 = 5`, an ldimm64, and `exit`.
abbrev wide_first : List ℕ
wide_first = 0x18 ∷ 1 ∷ 0 ∷ 0 ∷ 5 ∷ 0 ∷ 0 ∷ 0 ∷ []

abbrev wide_second : List ℕ
wide_second = 0 ∷ 0 ∷ 0 ∷ 0 ∷ 0 ∷ 0 ∷ 0 ∷ 0 ∷ []

abbrev exit_slot : List ℕ
exit_slot = 0x95 ∷ 0 ∷ 0 ∷ 0 ∷ 0 ∷ 0 ∷ 0 ∷ 0 ∷ []

abbrev wide_bytes : List ℕ
wide_bytes = wide_first ++ wide_second ++ exit_slot

wide_decoded : decode_program wide_bytes ≡ ok (ld_imm64 1 5 ∷ ld_imm64_second 0 ∷ exit ∷ [])
unfolding decode_program parse_insn parse_ldimm64 read_fields decode_op decode_exit
wide_decoded = refl

wide_parsed : parse_ldimm64 wide_first wide_second ≡ ok (ld_imm64 1 5)
unfolding parse_ldimm64 read_fields
wide_parsed = refl

-- A read behind the end of a slice is a panic.
read_fields-short : read_fields (0x95 ∷ 0 ∷ []) ≡ err panicked
unfolding read_fields
read_fields-short = refl

parse_insn-ne-panicked_example :
    (parse_insn exit_slot ≢ err panicked)
    × (parse_ldimm64 wide_first wide_second ≢ err panicked)
    × (decode_program wide_bytes ≢ err (2, panicked))
parse_insn-ne-panicked_example =
    parse_insn-ne-panicked exit_slot wide_first wide_second wide_bytes 2

decode_fields-neg_example :
    (decode_fields (neg_fields 3 (pos 5)) ≡ ok (neg 3))
    × (fields_of (neg 3) ≡ some (neg_fields 3 (pos 0)))
decode_fields-neg_example = decode_fields-neg 3 (pos 5) (omega arith)

decode_fields-ld_dw_example :
    (decode_fields (ld_dw_fields 3 10 (negsuc 7)) ≡ ok (ld_mem 3 10 (negsuc 7) size_dw true))
    × (encode (ld_mem 3 10 (negsuc 7) size_dw true) ≡ none)
decode_fields-ld_dw_example = decode_fields-ld_dw 3 10 (negsuc 7) (omega arith) (omega arith)
