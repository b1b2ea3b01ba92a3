-- ===== src/Insn/Fields.antt =====
-- src/insn.rs and src/fuzz/insn_lib.rs: the fields of the kernel's 8-byte `struct bpf_insn`.
use rand_verifier.Prelude.{
  ℕ, ◌-◌, ◌*◌, ◌/◌, ◌%◌, ◌^◌, ltb, if◌then◌else◌, List, [], ◌∷◌, bit_and, bit_or,
}
use rand_verifier.Prelude.Int.{ℤ, pos, negsuc}

-- Two's complement of `w` bits.
abbrev pub of_bits : ℕ → ℕ → ℤ
of_bits w n = if ltb n (2 ^ (w - 1)) then pos n else negsuc (2 ^ w - 1 - n)

abbrev pub to_bits : ℕ → ℤ → ℕ
to_bits w (pos n) = n % 2 ^ w
to_bits w (negsuc n) = 2 ^ w - 1 - n % 2 ^ w

pub record Fields : Type 0 where
  pub op : ℕ
  pub dst : ℕ
  pub src : ℕ
  pub offset : ℤ
  pub imm : ℤ

-- The last lines of `encode`.
unfoldable pub write_fields : Fields → List ℕ
write_fields f =
    let off = to_bits 16 f.offset in
    let imm = to_bits 32 f.imm in
    f.op
    ∷ bit_or (f.src * 2 ^ 4 % 256) (bit_and f.dst 0x0F)
    ∷ (off % 256)
    ∷ (off / 256)
    ∷ (imm % 256)
    ∷ (imm / 256 % 256)
    ∷ (imm / 65536 % 256)
    ∷ (imm / 16777216)
    ∷ []
