-- ===== src/Insn/RoundTrip/Bytes.antt =====
-- The bytes between `encode` of src/fuzz/insn_lib.rs and `parse_insn` of src/insn.rs.
use rand_verifier.Prelude.{
  Bool-cases, leb, leb→le, leb-false→lt, inl, inr, ℕ, zero, suc, ◌+◌, ◌^◌, ◌*◌, ◌%◌, ◌/◌, ◌≤◌, ◌<◌,
  ◌-◌, Bool, true, ◌&&◌, ◌==◌, ◌≡◌, refl, List, some, ok, ◌>>=◌, arith, bit_and, bit_or, le→ltb,
  ◌∙◌, ap,
}
use rand_verifier.Prelude.Int.{ℤ, pos, negsuc, ◌≤ℤ◌}
use rand_verifier.Insn.{BpfInsn}
use rand_verifier.Insn.Fields.{Fields, of_bits, to_bits, write_fields}
use rand_verifier.Insn.Read.{read_fields}
use rand_verifier.Insn.Parse.{decode_op, decode_fields, parse_insn}
use rand_verifier.Insn.Encode.{fields_of, encode}
use rand_verifier.Insn.RoundTrip.{decodable, redecode_lem}

-- The fields fit their places: registers that exist, 16 bits of offset and 32 of immediate.
pub record Fit (f : Fields) : Type 0 where
  pub dst_fits : f.dst ≤ 10
  pub src_fits : f.src ≤ 10
  pub offset_low : negsuc (2 ^ 15 - 1) ≤ℤ f.offset
  pub offset_high : f.offset ≤ℤ pos (2 ^ 15 - 1)
  pub imm_low : negsuc (2 ^ 31 - 1) ≤ℤ f.imm
  pub imm_high : f.imm ≤ℤ pos (2 ^ 31 - 1)

-- Two register numbers share a byte: checked for every byte.
every_upto : (ℕ → Bool) → ℕ → Bool
every_upto test zero = test 0
every_upto test (suc last) = every_upto test last && test (suc last)

every_upto-at :
    (test : ℕ → Bool) (last : ℕ)
    → every_upto test last ≡ true
    → (byte : ℕ) → byte ≤ last
    → test byte ≡ true
unfolding every_upto
every_upto-at test zero all byte l = ground arith
every_upto-at test (suc last) all byte l =
    let below : every_upto test last ≡ true = ground (arith, all) in
    let top : test (suc last) ≡ true = ground (arith, all) in
    elim (Bool-cases (leb byte last)) [
      | inl e ↦ every_upto-at test last below byte (leb→le byte last e)
      | inr e ↦ let same : byte ≡ suc last = omega (arith, leb-false→lt byte last e) in rw same top
    ]

abbrev regs_byte : ℕ → ℕ → ℕ
regs_byte dst src = bit_or (src * 2 ^ 4 % 256) (bit_and dst 0x0F)

nibbles_table :
    every_upto
      (λ x.
        (bit_and (regs_byte (x % 16) (x / 16)) 0x0F == x % 16)
        && (bit_and (regs_byte (x % 16) (x / 16) / 2 ^ 4) 0x0F == x / 16))
      255
    ≡ true
unfolding every_upto
nibbles_table = refl

nibbles :
    (dst src : ℕ)
    → dst < 16
    → src < 16
    → (bit_and (regs_byte dst src) 0x0F ≡ dst) × (bit_and (regs_byte dst src / 2 ^ 4) 0x0F ≡ src)
nibbles dst src p q =
    let d : (dst + 16 * src) % 16 ≡ dst = omega arith in
    let s : (dst + 16 * src) / 16 ≡ src = omega arith in
    let row = every_upto-at _ 255 nibbles_table (dst + 16 * src) (omega arith) in
    let row' = rw (d, s) at row in ground arith

of_bits-to_bits16 :
    (z : ℤ)
    → negsuc (2 ^ 15 - 1) ≤ℤ z
    → z ≤ℤ pos (2 ^ 15 - 1)
    → of_bits 16 (to_bits 16 z % 256 + 256 * (to_bits 16 z / 256)) ≡ z
of_bits-to_bits16 (pos n) h k = ground arith
of_bits-to_bits16 (negsuc n) h k = ground arith

of_bits-to_bits32 :
    (z : ℤ)
    → negsuc (2 ^ 31 - 1) ≤ℤ z
    → z ≤ℤ pos (2 ^ 31 - 1)
    → of_bits 32 (
        to_bits 32 z % 256
        + 256 * (to_bits 32 z / 256 % 256)
        + 65536 * (to_bits 32 z / 65536 % 256 + 256 * (to_bits 32 z / 16777216)))
      ≡ z
of_bits-to_bits32 (pos n) h k = ground arith
of_bits-to_bits32 (negsuc n) h k = ground arith

read_fields-write_fields : (f : Fields) → Fit f → read_fields (write_fields f) ≡ ok f
unfolding read_fields write_fields
read_fields-write_fields f v =
    let regs = nibbles f.dst f.src (omega (arith, v.dst_fits)) (omega (arith, v.src_fits)) in
    ground (
      arith,
      regs,
      of_bits-to_bits16 f.offset v.offset_low v.offset_high,
      of_bits-to_bits32 f.imm v.imm_low v.imm_high,
    )

pub decode_fields-within : (f : Fields) → f.dst ≤ 10 → f.src ≤ 10 → decode_fields f ≡ decode_op f
unfolding decode_fields
decode_fields-within f p q = rw (le→ltb 10 f.dst p, le→ltb 10 f.src q) refl

parse_insn-write_fields :
    (f : Fields) → parse_insn (write_fields f) ≡ (read_fields (write_fields f) >>= decode_fields)
unfolding parse_insn write_fields
parse_insn-write_fields f = refl

-- An instruction that the decoder can read back, with fields that fit their places, is encoded,
-- and what is encoded decodes to the same instruction.
pub parse_insn-encode :
    (i : BpfInsn) (f : Fields)
    → decodable i ≡ true
    → fields_of i ≡ some f
    → Fit f
    → (bytes : List ℕ) × (encode i ≡ some bytes) × (parse_insn bytes ≡ ok i)
unfolding encode
parse_insn-encode i f h e v = (
  write_fields f,
  rw (encode, e) refl,
  parse_insn-write_fields f
      ∙ ap (λ r. r >>= decode_fields) (read_fields-write_fields f v)
      ∙ decode_fields-within f v.dst_fits v.src_fits
      ∙ rw e at (redecode_lem i h),
)
