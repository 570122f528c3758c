-- ===== src/Gen/Traps.antt =====
-- harness/diffharness.c, livetrap_build: programs that pin a rule of the liveness analysis each.
use verifierloop.Base.{ℕ, bit_or, List, [], ◌∷◌, Option, none, some}
use verifierloop.Insn.{Insn}
use verifierloop.Gen.Insns.{
  alu64_imm, alu64_reg, mov64_imm, mov64_reg, jmp_imm, jmp_reg, jmp_a, ldx_mem, st_mem, stx_mem,
}
use verifierloop.Gen.Insns.{
  ld_map_fd, second_slot, emit_call, exit_insn, neg16, neg32, bpf_add, bpf_mul, jeq, jgt, size_w,
  size_dw,
}

abbrev pub jset : ℕ
jset = 0x40

abbrev pub bpf_fetch : ℕ
bpf_fetch = 0x01

abbrev pub bpf_xchg : ℕ
bpf_xchg = bit_or 0xe0 bpf_fetch

abbrev pub bpf_cmpxchg : ℕ
bpf_cmpxchg = bit_or 0xf0 bpf_fetch

abbrev pub bpf_load_acq : ℕ
bpf_load_acq = 0x100

abbrev pub bpf_store_rel : ℕ
bpf_store_rel = 0x110

abbrev pub lt_map_lookup_elem : ℕ
lt_map_lookup_elem = 1

abbrev pub lt_trace_printk : ℕ
lt_trace_printk = 6

abbrev pub lt_atomic : ℕ → ℕ → ℕ → ℕ → ℕ → Insn
lt_atomic size op dst src off = record {
  code = bit_or (bit_or 0x03 size) 0xc0;
  dst_reg = dst;
  src_reg = src;
  off = off;
  imm = op;
}

abbrev pub lt_end : ℕ → ℕ → ℕ → ℕ → Insn
lt_end class to dst len = record {
  code = bit_or (bit_or class 0xd0) to;
  dst_reg = dst;
  src_reg = 0;
  off = 0;
  imm = len;
}

abbrev pub lt_gotol : ℕ → Insn
lt_gotol disp = record { code = 0x06; dst_reg = 0; src_reg = 0; off = 0; imm = disp }

abbrev pub lt_may_goto : ℕ → Insn
lt_may_goto off = record { code = 0xe5; dst_reg = 0; src_reg = 0; off = off; imm = 0 }

abbrev pub lt_ld_imm64 : ℕ → ℕ → Insn
lt_ld_imm64 dst imm = record { code = 0x18; dst_reg = dst; src_reg = 0; off = 0; imm = imm }

-- enum livetrap_id, in its order.
pub data Trap : Type 0 where
  lt_assign_chain lt_arithmetics lt_store lt_load lt_endian lt_atomic_rmw lt_atomic_acq_rel : Trap
  lt_regular_call lt_if1 lt_if2 lt_if3_jset_bug lt_loop lt_gotol_case lt_may_goto_case lt_ldimm64 :
      Trap

unfoldable pub trap_assign_chain : List Insn
trap_assign_chain =
    mov64_imm 0 42
    ∷ mov64_reg 1 0
    ∷ mov64_reg 2 1
    ∷ mov64_reg 3 2
    ∷ mov64_reg 4 3
    ∷ mov64_reg 5 4
    ∷ mov64_reg 6 5
    ∷ mov64_reg 7 6
    ∷ mov64_reg 8 7
    ∷ mov64_reg 9 8
    ∷ mov64_reg 0 9
    ∷ exit_insn
    ∷ []

unfoldable pub trap_arithmetics : List Insn
trap_arithmetics =
    mov64_imm 1 7
    ∷ alu64_imm bpf_add 1 7
    ∷ mov64_imm 2 7
    ∷ mov64_imm 3 42
    ∷ alu64_reg bpf_add 2 3
    ∷ mov64_imm 0 0
    ∷ exit_insn
    ∷ []

unfoldable pub trap_store_rows : List Insn
trap_store_rows =
    mov64_reg 1 10
    ∷ alu64_imm bpf_add 1 (neg32 8)
    ∷ st_mem size_dw 1 0 7
    ∷ mov64_imm 2 42
    ∷ stx_mem size_dw 1 2 0
    ∷ stx_mem size_dw 1 2 0
    ∷ mov64_imm 0 0
    ∷ exit_insn
    ∷ []

unfoldable pub trap_load_rows : List Insn
trap_load_rows =
    mov64_reg 4 10
    ∷ alu64_imm bpf_add 4 (neg32 8)
    ∷ ldx_mem size_dw 5 4 0
    ∷ alu64_imm bpf_add 4 (neg32 8)
    ∷ mov64_reg 0 5
    ∷ exit_insn
    ∷ []

unfoldable pub trap_endian : List Insn
trap_endian = ldx_mem size_w 2 1 0 ∷ lt_end 4 0 2 64 ∷ mov64_reg 0 2 ∷ exit_insn ∷ []

unfoldable pub trap_atomic_rmw : ℕ → List Insn
trap_atomic_rmw map_fd =
    mov64_reg 2 10
    ∷ alu64_imm bpf_add 2 (neg32 8)
    ∷ mov64_imm 1 0
    ∷ stx_mem size_dw 2 1 0
    ∷ ld_map_fd 1 map_fd
    ∷ second_slot
    ∷ emit_call lt_map_lookup_elem
    ∷ jmp_imm jeq 0 0 7
    ∷ mov64_imm 1 1
    ∷ lt_atomic size_dw (bit_or bpf_add bpf_fetch) 0 1 0
    ∷ lt_atomic size_w bpf_add 0 1 0
    ∷ lt_atomic size_dw bpf_xchg 0 1 0
    ∷ mov64_reg 2 0
    ∷ mov64_reg 0 1
    ∷ lt_atomic size_dw bpf_cmpxchg 2 1 0
    ∷ exit_insn
    ∷ []

unfoldable pub trap_atomic_acq_rel : List Insn
trap_atomic_acq_rel =
    mov64_imm 1 42
    ∷ mov64_reg 2 10
    ∷ lt_atomic size_dw bpf_store_rel 2 1 (neg16 8)
    ∷ mov64_reg 3 10
    ∷ lt_atomic size_dw bpf_load_acq 4 3 (neg16 8)
    ∷ mov64_reg 0 4
    ∷ exit_insn
    ∷ []

unfoldable pub trap_regular_call : List Insn
trap_regular_call =
    mov64_imm 7 1
    ∷ mov64_reg 1 10
    ∷ alu64_imm bpf_add 1 (neg32 8)
    ∷ mov64_imm 2 1
    ∷ emit_call lt_trace_printk
    ∷ alu64_reg bpf_add 0 7
    ∷ exit_insn
    ∷ []

unfoldable pub trap_if1 : List Insn
trap_if1 = mov64_imm 0 1 ∷ mov64_imm 2 2 ∷ jmp_imm jgt 1 7 1 ∷ mov64_reg 0 2 ∷ exit_insn ∷ []

unfoldable pub trap_if2 : List Insn
trap_if2 =
    mov64_imm 0 1
    ∷ mov64_imm 2 2
    ∷ mov64_imm 3 7
    ∷ jmp_reg jgt 1 3 1
    ∷ mov64_reg 0 2
    ∷ exit_insn
    ∷ []

unfoldable pub trap_if3_jset_bug : List Insn
trap_if3_jset_bug =
    mov64_imm 0 1 ∷ mov64_imm 2 2 ∷ jmp_imm jset 1 7 1 ∷ exit_insn ∷ mov64_reg 0 2 ∷ exit_insn ∷ []

unfoldable pub trap_loop_rows : List Insn
trap_loop_rows =
    mov64_imm 1 0
    ∷ mov64_imm 2 7
    ∷ jmp_imm jgt 1 7 4
    ∷ alu64_imm bpf_add 1 1
    ∷ alu64_imm bpf_mul 2 2
    ∷ jmp_a 0
    ∷ jmp_a (neg16 5)
    ∷ mov64_imm 0 0
    ∷ exit_insn
    ∷ []

unfoldable pub trap_gotol : List Insn
trap_gotol =
    mov64_imm 2 42
    ∷ mov64_imm 3 24
    ∷ jmp_imm jgt 1 7 2
    ∷ mov64_reg 0 2
    ∷ lt_gotol 1
    ∷ mov64_reg 0 3
    ∷ exit_insn
    ∷ []

unfoldable pub trap_may_goto : List Insn
trap_may_goto = mov64_imm 1 1 ∷ lt_may_goto 1 ∷ jmp_a (neg16 3) ∷ mov64_reg 0 1 ∷ exit_insn ∷ []

unfoldable pub trap_ldimm64 : List Insn
trap_ldimm64 =
    mov64_imm 0 0 ∷ lt_ld_imm64 2 7 ∷ second_slot ∷ alu64_reg bpf_add 0 2 ∷ exit_insn ∷ []

-- The program of a case; `none` is a map that could not be created, and the empty list the count 0.
unfoldable pub livetrap_build : Trap → Option ℕ → List Insn
livetrap_build lt_assign_chain fd = trap_assign_chain
livetrap_build lt_arithmetics fd = trap_arithmetics
livetrap_build lt_store fd = trap_store_rows
livetrap_build lt_load fd = trap_load_rows
livetrap_build lt_endian fd = trap_endian
livetrap_build lt_atomic_rmw none = []
livetrap_build lt_atomic_rmw (some map_fd) = trap_atomic_rmw map_fd
livetrap_build lt_atomic_acq_rel fd = trap_atomic_acq_rel
livetrap_build lt_regular_call fd = trap_regular_call
livetrap_build lt_if1 fd = trap_if1
livetrap_build lt_if2 fd = trap_if2
livetrap_build lt_if3_jset_bug fd = trap_if3_jset_bug
livetrap_build lt_loop fd = trap_loop_rows
livetrap_build lt_gotol_case fd = trap_gotol
livetrap_build lt_may_goto_case fd = trap_may_goto
livetrap_build lt_ldimm64 fd = trap_ldimm64
