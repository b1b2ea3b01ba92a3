-- ===== src/Insn/Control.antt =====
-- src/insn.rs: which instructions branch, and where they lead.
use rand_verifier.Prelude.{ℕ, ◌+◌, Bool, true, false, Option, some, none}
use rand_verifier.Prelude.Int.{ℤ, pos, ◌+ℤ◌}
use rand_verifier.Insn.{
  BpfInsn, exit, jmp, call_sub, jeq, jne, jgt, jge, jlt, jle, jsgt, jsge, jslt, jsle, jeq_imm,
  jne_imm, jgt_imm, jge_imm, jlt_imm, jle_imm, jsgt_imm, jsge_imm, jslt_imm, jsle_imm, jset,
  jset_imm, jmp32,
}
use rand_verifier.Insn.Fields.{to_bits}

unfoldable pub is_conditional_branch : BpfInsn → Bool
is_conditional_branch (jeq dst src offset) = true
is_conditional_branch (jne dst src offset) = true
is_conditional_branch (jgt dst src offset) = true
is_conditional_branch (jge dst src offset) = true
is_conditional_branch (jlt dst src offset) = true
is_conditional_branch (jle dst src offset) = true
is_conditional_branch (jsgt dst src offset) = true
is_conditional_branch (jsge dst src offset) = true
is_conditional_branch (jslt dst src offset) = true
is_conditional_branch (jsle dst src offset) = true
is_conditional_branch (jeq_imm dst imm offset) = true
is_conditional_branch (jne_imm dst imm offset) = true
is_conditional_branch (jgt_imm dst imm offset) = true
is_conditional_branch (jge_imm dst imm offset) = true
is_conditional_branch (jlt_imm dst imm offset) = true
is_conditional_branch (jle_imm dst imm offset) = true
is_conditional_branch (jsgt_imm dst imm offset) = true
is_conditional_branch (jsge_imm dst imm offset) = true
is_conditional_branch (jslt_imm dst imm offset) = true
is_conditional_branch (jsle_imm dst imm offset) = true
is_conditional_branch (jset dst src offset) = true
is_conditional_branch (jset_imm dst imm offset) = true
is_conditional_branch (jmp32 dst src imm offset op) = true
is_conditional_branch _ = false

unfoldable pub is_control_flow : BpfInsn → Bool
unfolding is_conditional_branch
is_control_flow exit = true
is_control_flow (jmp offset) = true
is_control_flow insn = is_conditional_branch insn

-- The offset that the patterns of a conditional branch bind.
unfoldable pub branch_offset : BpfInsn → Option ℤ
branch_offset (jeq dst src offset) = some offset
branch_offset (jne dst src offset) = some offset
branch_offset (jgt dst src offset) = some offset
branch_offset (jge dst src offset) = some offset
branch_offset (jlt dst src offset) = some offset
branch_offset (jle dst src offset) = some offset
branch_offset (jsgt dst src offset) = some offset
branch_offset (jsge dst src offset) = some offset
branch_offset (jslt dst src offset) = some offset
branch_offset (jsle dst src offset) = some offset
branch_offset (jeq_imm dst imm offset) = some offset
branch_offset (jne_imm dst imm offset) = some offset
branch_offset (jgt_imm dst imm offset) = some offset
branch_offset (jge_imm dst imm offset) = some offset
branch_offset (jlt_imm dst imm offset) = some offset
branch_offset (jle_imm dst imm offset) = some offset
branch_offset (jsgt_imm dst imm offset) = some offset
branch_offset (jsge_imm dst imm offset) = some offset
branch_offset (jslt_imm dst imm offset) = some offset
branch_offset (jsle_imm dst imm offset) = some offset
branch_offset (jset dst src offset) = some offset
branch_offset (jset_imm dst imm offset) = some offset
branch_offset (jmp32 dst src imm offset op) = some offset
branch_offset _ = none

-- The offset of a BPF-to-BPF call.
unfoldable pub call_offset : BpfInsn → Option ℤ
call_offset (call_sub offset) = some offset
call_offset _ = none

-- `(idx as i32 + 1 + offset) as u32`, with its wrapping.
unfoldable pub target_of : ℕ → ℤ → ℕ
unfolding ◌+ℤ◌
target_of idx offset = to_bits 32 (pos (idx + 1) +ℤ offset)
