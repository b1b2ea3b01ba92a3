-- ===== src/Insn/Safe/Arms.antt =====
-- The arms of `parse_insn` of src/insn.rs, and its `expect`.
use rand_verifier.Prelude.{
  ltb, Bool, Bool-cases, List, Option, [], arith, bit_and, err, false, if◌then◌else◌, inl, inr,
  none, refl, some, true, ℕ, ◌&&◌, ◌==◌, ◌||◌, ◌∷◌, ◌≡◌,
}
use rand_verifier.Insn.{MulHigh, BpfInsn}
use rand_verifier.Insn.Opcode
use rand_verifier.Insn.Fields.{Fields}
use rand_verifier.Insn.Safe.{Safe, is_some, error-Safe, guard-Safe, if-Avoids}
use rand_verifier.Insn.Decode.{
  division_by_zero, ld_imm64_truncated, invalid_register, Decoded, pick, among, or_panic, panicked,
  operand_reserved, is_none,
}
use rand_verifier.Insn.Decode.Alu.{
  supported_alu, is_supported_alu, alu_insns, mul_high, divides_by_zero, decode_alu,
}
use rand_verifier.Insn.Decode.Jump.{
  compares, compares32, compare_insns, jmp32_ops, decode_compare, decode_jset, decode_jmp32,
  decode_jmp, decode_call, decode_exit,
}
use rand_verifier.Insn.Decode.Memory.{
  is_memory, packet_loads, decode_packet_load, decode_memory, decode_atomic,
}
use rand_verifier.Insn.Parse.{decode_other, decode_op, decode_fields}

-- Every key of a list is in a table.
abbrev covers {ℓ} : {A : Type ℓ} → (ℕ → ℕ) → List ℕ → List (ℕ × A) → Bool
covers g [] table = true
covers g (k ∷ keys) table = is_some (pick (g k) table) && covers g keys table

covers-among {ℓ} :
    {A : Type ℓ} (g : ℕ → ℕ) (keys : List ℕ) (table : List (ℕ × A)) (op : ℕ)
    → covers g keys table ≡ true
    → among op keys ≡ true
    → is_some (pick (g op) table) ≡ true
covers-among g [] table op c h = absurd (cc)
covers-among g (k ∷ keys) table op c h = elim (Bool-cases (op == k)) [
  | inl e ↦ let same : op ≡ k = ground arith in rw same (ground arith)
  | inr e ↦ covers-among g keys table op (ground arith) (ground arith)
]

-- An arm of the match on the opcode.
if-Safe : (b : Bool) (x y : Decoded) → (b ≡ true → Safe x) → Safe y → Safe (if b then x else y)
if-Safe b x y h k = if-Avoids panicked b x y h (λ e. k)

elim-Safe :
    {A : Type 0} (o : Option A) (n : Decoded) (s : A → Decoded)
    → (is_some o ≡ false → Safe n)
    → ((a : A) → Safe (s a))
    → Safe (elim o [ none ↦ n | some a ↦ s a ])
elim-Safe none n s h k = h refl
elim-Safe (some a) n s h k = k a

or_panic-Safe : (o : Option BpfInsn) → is_some o ≡ true → Safe (or_panic o)
or_panic-Safe none h = absurd (cc)
or_panic-Safe (some i) h = λ e. cc

alu_insns-covers :
    (f : Fields) (high : MulHigh) → covers (λ k. k) supported_alu (alu_insns f high) ≡ true
alu_insns-covers f high = refl

-- What the check of the fields says of the multiplication selector.
no_selector : (b : Bool) (o : Option MulHigh) → (b || is_none o) ≡ false → is_some o ≡ false → ⊥
no_selector true o h k = cc
no_selector false none h k = cc
no_selector false (some high) h k = cc

decode_alu-Safe : (f : Fields) → is_supported_alu f.op ≡ true → Safe (decode_alu f)
unfolding decode_alu is_supported_alu
decode_alu-Safe f h = guard-Safe (operand_reserved f || is_none (mul_high f)) _ _ refl (λ allowed.
    guard-Safe (divides_by_zero f) division_by_zero _ refl (λ divisible.
      elim-Safe (mul_high f) _ _
        (λ missing. absurd (no_selector (operand_reserved f) (mul_high f) allowed missing))
        (λ high. or_panic-Safe (pick f.op (alu_insns f high)) (
          covers-among (λ k. k) supported_alu (alu_insns f high) f.op (alu_insns-covers f high)
            h))))

compare_insns-covers : (f : Fields) → covers (λ k. k) compares (compare_insns f) ≡ true
compare_insns-covers f = refl

decode_compare-Safe : (f : Fields) → among f.op compares ≡ true → Safe (decode_compare f)
unfolding decode_compare
decode_compare-Safe f h =
    if-Safe (operand_reserved f) _ _ (λ t. error-Safe _ refl)
      (or_panic-Safe _
        (covers-among (λ k. k) compares (compare_insns f) f.op (compare_insns-covers f) h))

jmp32_found :
    (op : ℕ) → among op compares32 ≡ true → is_some (pick (bit_and op 0xf0) jmp32_ops) ≡ true
jmp32_found op h = covers-among (λ k. bit_and k 0xf0) compares32 jmp32_ops op refl h

decode_jmp32-Safe : (f : Fields) → among f.op compares32 ≡ true → Safe (decode_jmp32 f)
unfolding decode_jmp32
decode_jmp32-Safe f h =
    if-Safe (operand_reserved f) _ _ (λ t. error-Safe _ refl)
      (elim-Safe (pick (bit_and f.op 0xf0) jmp32_ops) _ _
        (λ missing. absurd (ground (arith, jmp32_found f.op h))) (λ jop e. cc))

decode_jset-Safe : (f : Fields) → Safe (decode_jset f)
unfolding decode_jset
decode_jset-Safe f = if-Safe (operand_reserved f) _ _ (λ t. error-Safe _ refl) (λ e. cc)

decode_packet_load-Safe : (f : Fields) → Safe (decode_packet_load f)
unfolding decode_packet_load
decode_packet_load-Safe f e = ground arith

decode_jmp-Safe : (f : Fields) → Safe (decode_jmp f)
unfolding decode_jmp
decode_jmp-Safe f e = ground arith

decode_call-Safe : (f : Fields) → Safe (decode_call f)
unfolding decode_call
decode_call-Safe f e = ground arith

decode_exit-Safe : (f : Fields) → Safe (decode_exit f)
unfolding decode_exit
decode_exit-Safe f e = ground arith

decode_memory-Safe : (f : Fields) → Safe (decode_memory f)
unfolding decode_memory
decode_memory-Safe f e = ground arith

decode_atomic-Safe : (f : Fields) → Safe (decode_atomic f)
unfolding decode_atomic
decode_atomic-Safe f e = ground arith

decode_other-Safe : (op : ℕ) → Safe (decode_other op)
unfolding decode_other
decode_other-Safe op e = ground arith

decode_op-Safe : (f : Fields) → Safe (decode_op f)
unfolding decode_op
decode_op-Safe f = if-Safe (is_supported_alu f.op) _ _ (decode_alu-Safe f) (
    if-Safe (among f.op compares) _ _ (decode_compare-Safe f) (
      if-Safe (f.op == Opcode.jset || f.op == Opcode.jset_imm) _ _ (λ t. decode_jset-Safe f)
        (if-Safe (among f.op compares32) _ _ (decode_jmp32-Safe f) (
          if-Safe (among f.op packet_loads) _ _ (λ t. decode_packet_load-Safe f)
            (if-Safe (f.op == Opcode.jmp) _ _ (λ t. decode_jmp-Safe f)
              (if-Safe (f.op == Opcode.call) _ _ (λ t. decode_call-Safe f)
                (if-Safe (f.op == Opcode.exit) _ _ (λ t. decode_exit-Safe f)
                  (if-Safe (f.op == Opcode.ld_imm64) (err ld_imm64_truncated) _
                    (λ t. error-Safe ld_imm64_truncated refl)
                    (if-Safe (is_memory f.op) _ _ (λ t. decode_memory-Safe f)
                      (if-Safe (f.op == Opcode.atomic_w || f.op == Opcode.atomic_dw) _ _
                        (λ t. decode_atomic-Safe f) (decode_other-Safe f.op)))))))))))

pub decode_fields-Safe : (f : Fields) → Safe (decode_fields f)
unfolding decode_fields
decode_fields-Safe f =
    guard-Safe (ltb 10 f.dst) (invalid_register f.dst) _ refl
      (λ d. guard-Safe (ltb 10 f.src) (invalid_register f.src) _ refl (λ s. decode_op-Safe f))
