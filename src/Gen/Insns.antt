-- ===== src/Gen/Insns.antt =====
-- harness/diffharness.c, the instruction macros. An offset or an immediate is given as its 16-bit
-- or 32-bit pattern.
use verifierloop.Base.{ℕ, ◌+◌, ◌-◌, ◌%◌, ◌^◌, bit_and, bit_or}
use verifierloop.Insn.{Insn}

abbrev pub bpf_add : ℕ
bpf_add = 0x00

abbrev pub bpf_sub : ℕ
bpf_sub = 0x10

abbrev pub bpf_mul : ℕ
bpf_mul = 0x20

abbrev pub bpf_div : ℕ
bpf_div = 0x30

abbrev pub bpf_or : ℕ
bpf_or = 0x40

abbrev pub bpf_and : ℕ
bpf_and = 0x50

abbrev pub bpf_lsh : ℕ
bpf_lsh = 0x60

abbrev pub bpf_rsh : ℕ
bpf_rsh = 0x70

abbrev pub bpf_mod : ℕ
bpf_mod = 0x90

abbrev pub bpf_xor : ℕ
bpf_xor = 0xa0

abbrev pub bpf_arsh : ℕ
bpf_arsh = 0xc0

abbrev pub jeq : ℕ
jeq = 0x10

abbrev pub jgt : ℕ
jgt = 0x20

abbrev pub jne : ℕ
jne = 0x50

abbrev pub jslt : ℕ
jslt = 0xc0

abbrev pub size_w : ℕ
size_w = 0x00

abbrev pub size_b : ℕ
size_b = 0x10

abbrev pub size_dw : ℕ
size_dw = 0x18

-- -k as a pattern.
abbrev pub neg16 : ℕ → ℕ
neg16 k = (2 ^ 16 - k) % 2 ^ 16

abbrev pub neg32 : ℕ → ℕ
neg32 k = (2 ^ 32 - k) % 2 ^ 32

-- BPF_OP(op).
abbrev pub op_bits : ℕ → ℕ
op_bits op = bit_and op 0xf0

abbrev pub alu64_imm : ℕ → ℕ → ℕ → Insn
alu64_imm op dst imm = record {
  code = bit_or 0x07 (op_bits op);
  dst_reg = dst;
  src_reg = 0;
  off = 0;
  imm = imm;
}

abbrev pub mov64_imm : ℕ → ℕ → Insn
mov64_imm dst imm = record { code = 0xb7; dst_reg = dst; src_reg = 0; off = 0; imm = imm }

abbrev pub mov32_reg : ℕ → ℕ → Insn
mov32_reg dst src = record { code = 0xbc; dst_reg = dst; src_reg = src; off = 0; imm = 0 }

abbrev pub mov64_reg : ℕ → ℕ → Insn
mov64_reg dst src = record { code = 0xbf; dst_reg = dst; src_reg = src; off = 0; imm = 0 }

abbrev pub jmp_imm : ℕ → ℕ → ℕ → ℕ → Insn
jmp_imm op dst imm off = record {
  code = bit_or 0x05 (op_bits op);
  dst_reg = dst;
  src_reg = 0;
  off = off;
  imm = imm;
}

abbrev pub alu32_imm : ℕ → ℕ → ℕ → Insn
alu32_imm op dst imm = record {
  code = bit_or 0x04 (op_bits op);
  dst_reg = dst;
  src_reg = 0;
  off = 0;
  imm = imm;
}

abbrev pub jmp32_imm : ℕ → ℕ → ℕ → ℕ → Insn
jmp32_imm op dst imm off = record {
  code = bit_or 0x06 (op_bits op);
  dst_reg = dst;
  src_reg = 0;
  off = off;
  imm = imm;
}

abbrev pub alu64_reg : ℕ → ℕ → ℕ → Insn
alu64_reg op dst src = record {
  code = bit_or 0x0f (op_bits op);
  dst_reg = dst;
  src_reg = src;
  off = 0;
  imm = 0;
}

abbrev pub jmp_reg : ℕ → ℕ → ℕ → ℕ → Insn
jmp_reg op dst src off = record {
  code = bit_or 0x0d (op_bits op);
  dst_reg = dst;
  src_reg = src;
  off = off;
  imm = 0;
}

abbrev pub alu32_reg : ℕ → ℕ → ℕ → Insn
alu32_reg op dst src = record {
  code = bit_or 0x0c (op_bits op);
  dst_reg = dst;
  src_reg = src;
  off = 0;
  imm = 0;
}

abbrev pub jmp32_reg : ℕ → ℕ → ℕ → ℕ → Insn
jmp32_reg op dst src off = record {
  code = bit_or 0x0e (op_bits op);
  dst_reg = dst;
  src_reg = src;
  off = off;
  imm = 0;
}

abbrev pub ldx_mem : ℕ → ℕ → ℕ → ℕ → Insn
ldx_mem size dst src off = record {
  code = bit_or 0x61 size;
  dst_reg = dst;
  src_reg = src;
  off = off;
  imm = 0;
}

abbrev pub st_mem : ℕ → ℕ → ℕ → ℕ → Insn
st_mem size dst off imm = record {
  code = bit_or 0x62 size;
  dst_reg = dst;
  src_reg = 0;
  off = off;
  imm = imm;
}

abbrev pub stx_mem : ℕ → ℕ → ℕ → ℕ → Insn
stx_mem size dst src off = record {
  code = bit_or 0x63 size;
  dst_reg = dst;
  src_reg = src;
  off = off;
  imm = 0;
}

-- BPF_LD_MAP_FD, and the second slot after it.
abbrev pub ld_map_fd : ℕ → ℕ → Insn
ld_map_fd dst fd = record { code = 0x18; dst_reg = dst; src_reg = 1; off = 0; imm = fd }

abbrev pub second_slot : Insn
second_slot = record { code = 0; dst_reg = 0; src_reg = 0; off = 0; imm = 0 }

abbrev pub jmp_a : ℕ → Insn
jmp_a off = record { code = 0x05; dst_reg = 0; src_reg = 0; off = off; imm = 0 }

abbrev pub emit_call : ℕ → Insn
emit_call func = record { code = 0x85; dst_reg = 0; src_reg = 0; off = 0; imm = func }

abbrev pub kfunc_call : ℕ → Insn
kfunc_call btf_id = record { code = 0x85; dst_reg = 0; src_reg = 2; off = 0; imm = btf_id }

abbrev pub exit_insn : Insn
exit_insn = record { code = 0x95; dst_reg = 0; src_reg = 0; off = 0; imm = 0 }

-- `ins[from].off = to - from - 1`, the displacement from one index to another.
abbrev pub displacement : ℕ → ℕ → ℕ
displacement from to = (to + 2 ^ 16 - from - 1) % 2 ^ 16

abbrev pub with_off : Insn → ℕ → Insn
with_off x off = record x { off = off }
