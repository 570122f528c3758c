-- ===== src/Gen/Loops.antt =====
-- harness/diffharness.c, the bodies of the bounded loops: emit_loop_body and emit_iter_loop.
use verifierloop.Base.{ℕ, ◌+◌, List, [], ◌∷◌, ◌++◌, length}
use verifierloop.Insn.{Insn}
use verifierloop.Gen.Insns.{
  alu64_imm, mov64_imm, mov64_reg, jmp_imm, jmp_a, kfunc_call, displacement, neg32,
}
use verifierloop.Gen.Insns.{bpf_add, bpf_and, bpf_lsh, bpf_rsh, bpf_xor, jeq}
use verifierloop.Gen.Body.{IterIds}

abbrev pub jle : ℕ
jle = 0xb0

-- BPF_MAY_GOTO_INSN.
abbrev pub may_goto : ℕ → Insn
may_goto off = record { code = 0xe5; dst_reg = 0; src_reg = 0; off = off; imm = 0 }

-- enum loop_body.
pub data LoopBody : Type 0 where
  lb_nop lb_mask lb_incmask lb_maskinc lb_shr lb_xor3 lb_cond lb_inc lb_shl lb_add8 : LoopBody

unfoldable pub emit_loop_body : LoopBody → List Insn
emit_loop_body lb_nop = []
emit_loop_body lb_mask = alu64_imm bpf_and 6 7 ∷ []
emit_loop_body lb_incmask = alu64_imm bpf_add 6 1 ∷ alu64_imm bpf_and 6 7 ∷ []
emit_loop_body lb_maskinc = alu64_imm bpf_and 6 7 ∷ alu64_imm bpf_add 6 1 ∷ []
emit_loop_body lb_shr = alu64_imm bpf_rsh 6 1 ∷ []
emit_loop_body lb_xor3 = alu64_imm bpf_xor 6 3 ∷ []
emit_loop_body lb_cond = jmp_imm jle 6 3 1 ∷ mov64_imm 6 0 ∷ []
emit_loop_body lb_inc = alu64_imm bpf_add 6 1 ∷ []
emit_loop_body lb_shl = alu64_imm bpf_lsh 6 1 ∷ []
emit_loop_body lb_add8 = alu64_imm bpf_add 6 8 ∷ []

-- ITER_SLOT.
abbrev pub loop_slot : ℕ
loop_slot = 8

-- `head` is index 5 of the list and `jdone` index 8; the jump back stands after the body.
unfoldable pub emit_iter_loop : IterIds → ℕ → ℕ → LoopBody → List Insn
emit_iter_loop ids start end shape =
    let body = emit_loop_body shape in
    let back = 9 + length body in
    (mov64_reg 1 10
      ∷ alu64_imm bpf_add 1 (neg32 loop_slot)
      ∷ mov64_imm 2 start
      ∷ mov64_imm 3 end
      ∷ kfunc_call ids.new_id
      ∷ mov64_reg 1 10
      ∷ alu64_imm bpf_add 1 (neg32 loop_slot)
      ∷ kfunc_call ids.next_id
      ∷ jmp_imm jeq 0 0 (displacement 8 (back + 1))
      ∷ [])
    ++ (body
        ++ (jmp_a (displacement back 5)
            ∷ mov64_reg 1 10
            ∷ alu64_imm bpf_add 1 (neg32 loop_slot)
            ∷ kfunc_call ids.destroy_id
            ∷ []))
