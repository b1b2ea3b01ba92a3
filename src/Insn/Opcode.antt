-- ===== src/Insn/Opcode.antt =====
-- src/insn.rs: the opcodes of the kernel's encoding, `code = class | op | source`.
use rand_verifier.Prelude.{ℕ}

abbrev pub mov_imm : ℕ
mov_imm = 0xb7

abbrev pub ld_imm64 : ℕ
ld_imm64 = 0x18

abbrev pub pseudo_map_fd : ℕ
pseudo_map_fd = 1

abbrev pub pseudo_map_value : ℕ
pseudo_map_value = 2

abbrev pub mov_reg : ℕ
mov_reg = 0xbf

abbrev pub add_imm : ℕ
add_imm = 0x07

abbrev pub add_reg : ℕ
add_reg = 0x0f

abbrev pub sub_imm : ℕ
sub_imm = 0x17

abbrev pub sub_reg : ℕ
sub_reg = 0x1f

abbrev pub and_imm : ℕ
and_imm = 0x57

abbrev pub and_reg : ℕ
and_reg = 0x5f

abbrev pub or_imm : ℕ
or_imm = 0x47

abbrev pub or_reg : ℕ
or_reg = 0x4f

abbrev pub xor_imm : ℕ
xor_imm = 0xa7

abbrev pub xor_reg : ℕ
xor_reg = 0xaf

abbrev pub lsh_imm : ℕ
lsh_imm = 0x67

abbrev pub lsh_reg : ℕ
lsh_reg = 0x6f

abbrev pub rsh_imm : ℕ
rsh_imm = 0x77

abbrev pub rsh_reg : ℕ
rsh_reg = 0x7f

abbrev pub arsh_imm : ℕ
arsh_imm = 0xc7

abbrev pub arsh_reg : ℕ
arsh_reg = 0xcf

abbrev pub mul_imm : ℕ
mul_imm = 0x27

abbrev pub mul_reg : ℕ
mul_reg = 0x2f

abbrev pub div_imm : ℕ
div_imm = 0x37

abbrev pub div_reg : ℕ
div_reg = 0x3f

abbrev pub mod_imm : ℕ
mod_imm = 0x97

abbrev pub mod_reg : ℕ
mod_reg = 0x9f

abbrev pub neg : ℕ
neg = 0x87

abbrev pub add32_imm : ℕ
add32_imm = 0x04

abbrev pub add32_reg : ℕ
add32_reg = 0x0c

abbrev pub sub32_imm : ℕ
sub32_imm = 0x14

abbrev pub sub32_reg : ℕ
sub32_reg = 0x1c

abbrev pub and32_imm : ℕ
and32_imm = 0x54

abbrev pub and32_reg : ℕ
and32_reg = 0x5c

abbrev pub or32_imm : ℕ
or32_imm = 0x44

abbrev pub or32_reg : ℕ
or32_reg = 0x4c

abbrev pub xor32_imm : ℕ
xor32_imm = 0xa4

abbrev pub xor32_reg : ℕ
xor32_reg = 0xac

abbrev pub lsh32_imm : ℕ
lsh32_imm = 0x64

abbrev pub lsh32_reg : ℕ
lsh32_reg = 0x6c

abbrev pub rsh32_imm : ℕ
rsh32_imm = 0x74

abbrev pub rsh32_reg : ℕ
rsh32_reg = 0x7c

abbrev pub arsh32_imm : ℕ
arsh32_imm = 0xc4

abbrev pub arsh32_reg : ℕ
arsh32_reg = 0xcc

abbrev pub mul32_imm : ℕ
mul32_imm = 0x24

abbrev pub mul32_reg : ℕ
mul32_reg = 0x2c

abbrev pub div32_imm : ℕ
div32_imm = 0x34

abbrev pub div32_reg : ℕ
div32_reg = 0x3c

abbrev pub mod32_imm : ℕ
mod32_imm = 0x94

abbrev pub mod32_reg : ℕ
mod32_reg = 0x9c

abbrev pub neg32 : ℕ
neg32 = 0x84

abbrev pub mov32_imm : ℕ
mov32_imm = 0xb4

abbrev pub mov32_reg : ℕ
mov32_reg = 0xbc

abbrev pub jmp : ℕ
jmp = 0x05

abbrev pub jeq : ℕ
jeq = 0x1d

abbrev pub jeq_imm : ℕ
jeq_imm = 0x15

abbrev pub jne : ℕ
jne = 0x5d

abbrev pub jne_imm : ℕ
jne_imm = 0x55

abbrev pub jgt : ℕ
jgt = 0x2d

abbrev pub jgt_imm : ℕ
jgt_imm = 0x25

abbrev pub jge : ℕ
jge = 0x3d

abbrev pub jge_imm : ℕ
jge_imm = 0x35

abbrev pub jlt : ℕ
jlt = 0xad

abbrev pub jlt_imm : ℕ
jlt_imm = 0xa5

abbrev pub jle : ℕ
jle = 0xbd

abbrev pub jle_imm : ℕ
jle_imm = 0xb5

abbrev pub jsgt : ℕ
jsgt = 0x6d

abbrev pub jsgt_imm : ℕ
jsgt_imm = 0x65

abbrev pub jsge : ℕ
jsge = 0x7d

abbrev pub jsge_imm : ℕ
jsge_imm = 0x75

abbrev pub jslt : ℕ
jslt = 0xcd

abbrev pub jslt_imm : ℕ
jslt_imm = 0xc5

abbrev pub jsle : ℕ
jsle = 0xdd

abbrev pub jsle_imm : ℕ
jsle_imm = 0xd5

abbrev pub jset : ℕ
jset = 0x4d

abbrev pub jset_imm : ℕ
jset_imm = 0x45

abbrev pub call : ℕ
call = 0x85

abbrev pub exit : ℕ
exit = 0x95

abbrev pub jmp32_jeq_imm : ℕ
jmp32_jeq_imm = 0x16

abbrev pub jmp32_jeq : ℕ
jmp32_jeq = 0x1e

abbrev pub jmp32_jgt_imm : ℕ
jmp32_jgt_imm = 0x26

abbrev pub jmp32_jgt : ℕ
jmp32_jgt = 0x2e

abbrev pub jmp32_jge_imm : ℕ
jmp32_jge_imm = 0x36

abbrev pub jmp32_jge : ℕ
jmp32_jge = 0x3e

abbrev pub jmp32_jne_imm : ℕ
jmp32_jne_imm = 0x56

abbrev pub jmp32_jne : ℕ
jmp32_jne = 0x5e

abbrev pub jmp32_jsgt_imm : ℕ
jmp32_jsgt_imm = 0x66

abbrev pub jmp32_jsgt : ℕ
jmp32_jsgt = 0x6e

abbrev pub jmp32_jsge_imm : ℕ
jmp32_jsge_imm = 0x76

abbrev pub jmp32_jsge : ℕ
jmp32_jsge = 0x7e

abbrev pub jmp32_jlt_imm : ℕ
jmp32_jlt_imm = 0xa6

abbrev pub jmp32_jlt : ℕ
jmp32_jlt = 0xae

abbrev pub jmp32_jle_imm : ℕ
jmp32_jle_imm = 0xb6

abbrev pub jmp32_jle : ℕ
jmp32_jle = 0xbe

abbrev pub jmp32_jslt_imm : ℕ
jmp32_jslt_imm = 0xc6

abbrev pub jmp32_jslt : ℕ
jmp32_jslt = 0xce

abbrev pub jmp32_jsle_imm : ℕ
jmp32_jsle_imm = 0xd6

abbrev pub jmp32_jsle : ℕ
jmp32_jsle = 0xde

abbrev pub atomic_w : ℕ
atomic_w = 0xc3

abbrev pub atomic_dw : ℕ
atomic_dw = 0xdb

abbrev pub fetch_flag : ℕ
fetch_flag = 0x01

abbrev pub ld_abs : ℕ
ld_abs = 0x20

abbrev pub ld_abs_h : ℕ
ld_abs_h = 0x28

abbrev pub ld_abs_b : ℕ
ld_abs_b = 0x30

abbrev pub ld_abs_dw : ℕ
ld_abs_dw = 0x38

abbrev pub ld_ind : ℕ
ld_ind = 0x40

abbrev pub ld_ind_h : ℕ
ld_ind_h = 0x48

abbrev pub ld_ind_b : ℕ
ld_ind_b = 0x50

abbrev pub ld_ind_dw : ℕ
ld_ind_dw = 0x58
