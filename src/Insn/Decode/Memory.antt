-- ===== src/Insn/Decode/Memory.antt =====
-- src/insn.rs: the loads, stores and atomic operations of `parse_insn`.
use rand_verifier.Prelude.{
  ℕ, ◌/◌, ◌^◌, Bool, true, false, not, ◌&&◌, ◌||◌, ◌==◌, ltb, leb, if◌then◌else◌, List, [], ◌∷◌,
  Option, some, none, ok, err, bit_and,
}
use rand_verifier.Prelude.Int.{ℤ}
use rand_verifier.Insn.{
  AtomicOp, MemSize, atomic, atomic_add, atomic_and, atomic_cmpxchg, atomic_or, atomic_xchg,
  atomic_xor, ld_abs, ld_ind, ld_mem, size_b, size_dw, size_h, size_w, st_mem, st_mem_imm,
}
use rand_verifier.Insn.Opcode
use rand_verifier.Insn.Fields.{Fields}
use rand_verifier.Insn.Decode.{
  Decoded, pick, is_zero, masked, ld_abs_ind_fields, ld_abs_fields, memory_fields, atomic_fields,
  memory_modifier, atomic_operation, unsupported, reserved_fields,
}

unfoldable pub from_imm : ℤ → Option AtomicOp
from_imm imm = pick (masked imm 0xf0) (
    (0x00, atomic_add)
    ∷ (0x40, atomic_or)
    ∷ (0x50, atomic_and)
    ∷ (0xa0, atomic_xor)
    ∷ (0xe0, atomic_xchg)
    ∷ (0xf0, atomic_cmpxchg)
    ∷ [])

unfoldable pub to_imm : AtomicOp → ℕ
to_imm atomic_add = 0x00
to_imm atomic_or = 0x40
to_imm atomic_and = 0x50
to_imm atomic_xor = 0xa0
to_imm atomic_xchg = 0xe0
to_imm atomic_cmpxchg = 0xf0

unfoldable pub requires_fetch : AtomicOp → Bool
requires_fetch atomic_xchg = true
requires_fetch atomic_cmpxchg = true
requires_fetch _ = false

abbrev pub packet_loads : List ℕ
packet_loads =
    Opcode.ld_abs ∷ Opcode.ld_abs_h ∷ Opcode.ld_abs_b ∷ Opcode.ld_ind ∷ Opcode.ld_ind_h
    ∷ Opcode.ld_ind_b ∷ []

unfoldable pub access_size : ℕ → MemSize
access_size op =
    let size = bit_and (op / 2 ^ 3) 0x3 in
    if size == 0
    then size_w
    else if size == 1
    then size_h
    else if size == 2
    then size_b
    else size_dw

unfoldable pub decode_packet_load : Fields → Decoded
unfolding access_size
decode_packet_load f =
    if not (f.dst == 0)
    then err (reserved_fields ld_abs_ind_fields)
    else if ltb f.op 0x40
    then if not (f.src == 0)
      then err (reserved_fields ld_abs_fields)
      else ok (ld_abs (access_size f.op) f.imm)
    else ok (ld_ind f.src (access_size f.op) f.imm)

-- The guard of the loads and stores.
unfoldable pub is_memory : ℕ → Bool
is_memory op =
    let mode = bit_and op 0xe0 in
    let class = bit_and op 0x07 in
    (mode == 0x60 && leb 1 class && leb class 3) || (mode == 0x80 && class == 1)

unfoldable pub decode_memory : Fields → Decoded
unfolding access_size
decode_memory f =
    let class = bit_and f.op 0x07 in
    if not (is_zero f.imm) && not (class == 2)
    then err (reserved_fields memory_fields)
    else if class == 1
    then ok (ld_mem f.dst f.src f.offset (access_size f.op) (bit_and f.op 0xe0 == 0x80))
    else if class == 2
    then ok (st_mem_imm f.imm f.dst f.offset (access_size f.op))
    else if class == 3
    then ok (st_mem f.src f.dst f.offset (access_size f.op))
    else err (unsupported f.op memory_modifier)

unfoldable pub decode_atomic : Fields → Decoded
unfolding from_imm requires_fetch
decode_atomic f =
    if not (masked f.imm 0x0e == 0)
    then err (reserved_fields atomic_fields)
    else elim (from_imm f.imm) [
      | none ↦ err (unsupported f.op atomic_operation)
      | some aop ↦
          let size = if f.op == Opcode.atomic_w then size_w else size_dw in
          let fetch = not (masked f.imm Opcode.fetch_flag == 0) in
          if requires_fetch aop && not fetch
          then err (reserved_fields atomic_fields)
          else ok (atomic f.dst f.src f.offset size aop fetch)
    ]
