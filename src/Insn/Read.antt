-- ===== src/Insn/Read.antt =====
-- src/insn.rs: the reads of `parse_insn` and `parse_ldimm64` from a slice. A read behind the end of the
-- slice is the panic of the index.
use rand_verifier.Prelude.{
  ℕ, ◌+◌, ◌*◌, ◌/◌, ◌^◌, List, none, some, Result, ok, err, ◌>>=◌, bit_and, get_elem?,
}
use rand_verifier.Insn.Fields.{Fields, of_bits}
use rand_verifier.Insn.Decode.{DecodeError, panicked}

-- `bytes[i]`
unfoldable pub indexed : List ℕ → ℕ → Result DecodeError ℕ
indexed bytes i = elim (get_elem? bytes i) [ none ↦ err panicked | some b ↦ ok b ]

-- `from_le_bytes` of the bytes from `i` on.
unfoldable pub le_u16 : List ℕ → ℕ → Result DecodeError ℕ
unfolding indexed
le_u16 bytes i = do low ← indexed bytes i; high ← indexed bytes (i + 1); ok (low + 256 * high)

unfoldable pub le_u32 : List ℕ → ℕ → Result DecodeError ℕ
unfolding le_u16
le_u32 bytes i = do low ← le_u16 bytes i; high ← le_u16 bytes (i + 2); ok (low + 65536 * high)

-- The first lines of `parse_insn`.
unfoldable pub read_fields : List ℕ → Result DecodeError Fields
unfolding le_u32
read_fields bytes = do
  op ← indexed bytes 0
  regs ← indexed bytes 1
  offset ← le_u16 bytes 2
  imm ← le_u32 bytes 4
  ok (record {
    op = op;
    dst = bit_and regs 0x0F;
    src = bit_and (regs / 2 ^ 4) 0x0F;
    offset = of_bits 16 offset;
    imm = of_bits 32 imm;
  })
