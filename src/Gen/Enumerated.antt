-- ===== src/Gen/Enumerated.antt =====
-- harness/diffharness.c, the enumerated programs: GEN_ALU and GEN_CMP, and what run_generated,
-- run_mixed, run_movsx, run_upper_half, run_generated_rr, run_generated_mb, run_generated_ptr and
-- run_generated_pkt build before they load it.
pub mod Lookup
use verifierloop.Base.{ℕ, Bool, true, false, List, [], ◌∷◌, not, ◌++◌, ◌+◌}
use verifierloop.Insn.{Insn}
use verifierloop.Gen.Program.{map_lookup}
use verifierloop.Gen.Insns.{
  alu64_reg, alu32_reg, jmp32_reg, jmp_reg, mov64_imm, mov64_reg, st_mem, stx_mem, ld_map_fd,
  second_slot, emit_call, neg16, jeq, jgt, size_b,
}
use verifierloop.Gen.Insns.{
  alu64_imm, alu32_imm, jmp_imm, jmp32_imm, jmp_a, ldx_mem, exit_insn, neg32, size_w,
}
use verifierloop.Gen.Insns.{
  bpf_add, bpf_sub, bpf_mul, bpf_or, bpf_and, bpf_xor, bpf_lsh, bpf_rsh, bpf_arsh,
}

abbrev bpf_div : ℕ
bpf_div = 0x30

abbrev bpf_mod : ℕ
bpf_mod = 0x90

-- The rows of GEN_ALU and of GEN_CMP, by their names.
pub data GenAlu : Type 0 where
  gen_and gen_or gen_xor gen_lsh gen_rsh gen_arsh gen_add gen_sub gen_mul gen_div gen_mod : GenAlu

pub data GenCmp : Type 0 where
  gen_jeq gen_jne gen_jgt gen_jge gen_jlt gen_jle gen_jsgt gen_jsge gen_jslt gen_jsle gen_jset :
      GenCmp

-- struct gen_alu and struct gen_cmp, without the name.
pub record AluRow : Type 0 where
  pub op : ℕ
  pub imm1 : ℕ
  pub imm2 : ℕ
  pub imm3 : ℕ

pub record CmpRow : Type 0 where
  pub op : ℕ
  pub imm : ℕ

unfoldable pub alu_row : GenAlu → AluRow
alu_row gen_and = record { op = bpf_and; imm1 = 0x0f0f; imm2 = 0x00ff; imm3 = 0xff00 }
alu_row gen_or = record { op = bpf_or; imm1 = 0x00f0; imm2 = 0x0003; imm3 = 0x1000 }
alu_row gen_xor = record { op = bpf_xor; imm1 = 0xff00; imm2 = 0x0f0f; imm3 = 0x00f0 }
alu_row gen_lsh = record { op = bpf_lsh; imm1 = 5; imm2 = 3; imm3 = 9 }
alu_row gen_rsh = record { op = bpf_rsh; imm1 = 3; imm2 = 7; imm3 = 2 }
alu_row gen_arsh = record { op = bpf_arsh; imm1 = 7; imm2 = 2; imm3 = 11 }
alu_row gen_add = record { op = bpf_add; imm1 = 0x100; imm2 = 0x40; imm3 = neg32 17 }
alu_row gen_sub = record { op = bpf_sub; imm1 = 0x40; imm2 = 23; imm3 = neg32 64 }
alu_row gen_mul = record { op = bpf_mul; imm1 = 12; imm2 = 3; imm3 = 7 }
alu_row gen_div = record { op = bpf_div; imm1 = 7; imm2 = 3; imm3 = 5 }
alu_row gen_mod = record { op = bpf_mod; imm1 = 9; imm2 = 16; imm3 = 6 }

unfoldable pub cmp_row : GenCmp → CmpRow
cmp_row gen_jeq = record { op = 0x10; imm = 64 }
cmp_row gen_jne = record { op = 0x50; imm = 64 }
cmp_row gen_jgt = record { op = 0x20; imm = 100 }
cmp_row gen_jge = record { op = 0x30; imm = 100 }
cmp_row gen_jlt = record { op = 0xa0; imm = 100 }
cmp_row gen_jle = record { op = 0xb0; imm = 100 }
cmp_row gen_jsgt = record { op = 0x60; imm = neg32 5 }
cmp_row gen_jsge = record { op = 0x70; imm = neg32 5 }
cmp_row gen_jslt = record { op = 0xc0; imm = neg32 5 }
cmp_row gen_jsle = record { op = 0xd0; imm = neg32 5 }
cmp_row gen_jset = record { op = 0x40; imm = 0x10 }

abbrev pub alu_imm_of : Bool → ℕ → ℕ → ℕ → Insn
alu_imm_of true r op imm = alu32_imm op r imm
alu_imm_of false r op imm = alu64_imm op r imm

abbrev pub jmp_imm_of : Bool → ℕ → ℕ → ℕ → Insn
jmp_imm_of true r op imm = jmp32_imm op r imm 2
jmp_imm_of false r op imm = jmp_imm op r imm 2

abbrev pub alu_reg_of : Bool → ℕ → Insn
alu_reg_of true op = alu32_reg op 0 6
alu_reg_of false op = alu64_reg op 0 6

abbrev pub jmp_reg_of : Bool → ℕ → Insn
jmp_reg_of true op = jmp32_reg op 0 6 2
jmp_reg_of false op = jmp_reg op 0 6 2

abbrev pub load_first : Insn
load_first = ldx_mem size_w 0 1 0

abbrev pub mask_and_exit : List Insn
mask_and_exit = alu64_imm bpf_and 0 0xffff ∷ exit_insn ∷ []

-- Register `r` is shaped, compared, and shaped once more on either path.
abbrev pub shape_and_split : GenAlu → GenCmp → Bool → ℕ → List Insn
shape_and_split alu cmp w32 r =
    let a = alu_row alu in
    let c = cmp_row cmp in
    alu_imm_of w32 r a.op a.imm1
    ∷ jmp_imm_of w32 r c.op c.imm
    ∷ alu_imm_of w32 r a.op a.imm2
    ∷ jmp_a 1
    ∷ alu_imm_of w32 r a.op a.imm3
    ∷ []

unfoldable pub generated_program : GenAlu → GenCmp → Bool → List Insn
generated_program alu cmp w32 = (load_first ∷ shape_and_split alu cmp w32 0) ++ mask_and_exit

unfoldable pub mixed_program : GenAlu → GenCmp → Bool → List Insn
mixed_program alu cmp wide_first =
    let a = alu_row alu in
    load_first
    ∷ alu_imm_of (not wide_first) 0 a.op a.imm1
    ∷ alu_imm_of wide_first 0 a.op a.imm2
    ∷ jmp_imm_of wide_first 0 (cmp_row cmp).op (cmp_row cmp).imm
    ∷ alu_imm_of (not wide_first) 0 a.op a.imm3
    ∷ jmp_a 1
    ∷ alu_imm_of (not wide_first) 0 a.op a.imm2
    ∷ mask_and_exit

-- BPF_MOVSX64_REG.
abbrev pub movsx64_reg : ℕ → ℕ → ℕ → Insn
movsx64_reg dst src sz = record { code = 0xbf; dst_reg = dst; src_reg = src; off = sz; imm = 0 }

unfoldable pub movsx_program : ℕ → GenCmp → List Insn
movsx_program sz cmp =
    load_first
    ∷ alu32_imm bpf_or 0 0x80
    ∷ movsx64_reg 0 0 sz
    ∷ jmp_imm_of false 0 (cmp_row cmp).op (cmp_row cmp).imm
    ∷ alu64_imm bpf_add 0 7
    ∷ jmp_a 1
    ∷ alu64_imm bpf_sub 0 3
    ∷ mask_and_exit

unfoldable pub upper_half_program : GenAlu → GenCmp → List Insn
upper_half_program alu cmp =
    let a = alu_row alu in
    load_first
    ∷ alu64_imm bpf_lsh 0 32
    ∷ alu64_imm a.op 0 a.imm1
    ∷ jmp_imm_of true 0 (cmp_row cmp).op (cmp_row cmp).imm
    ∷ alu64_imm a.op 0 a.imm2
    ∷ jmp_a 1
    ∷ alu64_imm a.op 0 a.imm3
    ∷ mask_and_exit

unfoldable pub rr_program : GenAlu → GenCmp → Bool → List Insn
rr_program alu cmp w32 =
    let a = alu_row alu in
    load_first
    ∷ ldx_mem size_w 6 1 4
    ∷ alu_imm_of w32 6 a.op a.imm1
    ∷ alu_imm_of w32 0 a.op a.imm1
    ∷ jmp_reg_of w32 (cmp_row cmp).op
    ∷ alu_reg_of w32 a.op
    ∷ jmp_a 1
    ∷ alu_reg_of w32 a.op
    ∷ mask_and_exit

unfoldable pub mb_program : GenAlu → GenCmp → Bool → List Insn
mb_program alu cmp w32 =
    let a = alu_row alu in
    (load_first ∷ shape_and_split alu cmp w32 0)
    ++ jmp_imm_of w32 0 (cmp_row cmp).op a.imm2
      ∷ alu_imm_of w32 0 a.op a.imm2
      ∷ jmp_a 1
      ∷ alu_imm_of w32 0 a.op a.imm3
      ∷ mask_and_exit

unfoldable pub ptr_program : GenAlu → GenCmp → Bool → ℕ → List Insn
ptr_program alu cmp w32 map_fd =
    (st_mem size_w 10 (neg16 4) 0
      ∷ mov64_reg 2 10
      ∷ alu64_imm bpf_add 2 (neg32 4)
      ∷ ld_map_fd 1 map_fd
      ∷ second_slot
      ∷ emit_call map_lookup
      ∷ jmp_imm jeq 0 0 8
      ∷ ldx_mem size_w 1 0 0
      ∷ shape_and_split alu cmp w32 1)
    ++ alu64_reg bpf_add 0 1 ∷ stx_mem size_b 0 1 0 ∷ mov64_imm 0 0 ∷ exit_insn ∷ []

unfoldable pub pkt_program : GenAlu → GenCmp → Bool → List Insn
pkt_program alu cmp w32 =
    (ldx_mem size_w 2 1 76
      ∷ ldx_mem size_w 3 1 80
      ∷ ldx_mem size_w 4 1 0
      ∷ shape_and_split alu cmp w32 4)
    ++ alu64_reg bpf_add 2 4
      ∷ mov64_reg 5 2
      ∷ alu64_imm bpf_add 5 1
      ∷ jmp_reg jgt 5 3 1
      ∷ stx_mem size_b 2 4 0
      ∷ mov64_imm 0 0
      ∷ exit_insn
      ∷ []
