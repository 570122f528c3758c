-- ===== src/Gen/Comp/Code.antt =====
-- harness/diffharness.c, comp_emit: the instructions of each piece, once its draws are made.
use verifierloop.Base.{bit_and, ◌==◌, ◌^◌, if◌then◌else◌}
use verifierloop.Base.{ℕ, ◌+◌, ◌-◌, List, [], ◌∷◌, ◌++◌, length, none, some, true}
use verifierloop.Insn.{Insn}
use verifierloop.Gen.Insns.{
  alu64_imm, alu32_imm, mov64_imm, mov64_reg, jmp_imm, jmp_reg, jmp_a, ldx_mem, st_mem, stx_mem,
}
use verifierloop.Gen.Insns.{
  ld_map_fd, second_slot, emit_call, kfunc_call, displacement, neg16, neg32,
}
use verifierloop.Gen.Insns.{bpf_add, bpf_and, jeq, jgt, size_w, size_b, size_dw}
use verifierloop.Gen.Loops.{may_goto, emit_iter_loop, lb_mask}
use verifierloop.Gen.Body.{IterIds}
use verifierloop.Gen.Comp.{Ctx}

-- The ids of the functions in the kernel, and the descriptor of the ring buffer.
pub record Kernel : Type 0 where
  pub iterator : IterIds
  pub slice_rdwr : ℕ
  pub slice_ro : ℕ
  pub from_skb : ℕ
  pub ringbuf_fd : ℕ

-- The array so far, `jexit[0 .. *nx)`, and the context.
pub record Draft : Type 0 where
  pub ins : List Insn
  pub jexit : List ℕ
  pub ctx : Ctx

-- `ins[n++] = ..` for each of a list. A jump within the list has its offset already.
abbrev pub put : List Insn → Draft → Draft
put xs w = record w { ins = w.ins ++ xs }

-- `jexit[(*nx)++] = n`.
abbrev pub park : Draft → Draft
park w = record w { jexit = w.jexit ++ length w.ins ∷ [] }

abbrev pub forget_bound : Draft → Draft
forget_bound w = record w { ctx = record w.ctx { narrowed_max = none } }

abbrev pub prove_bound : ℕ → ℕ → Draft → Draft
prove_bound r bound w = record w {
  ctx = record w.ctx { narrowed_max = some bound; narrow_reg = some r };
}

-- `c->stack_next -= k`.
abbrev pub take_stack : ℕ → Draft → Draft
take_stack k w = record w { ctx = record w.ctx { stack = w.ctx.stack + k } }

abbrev pub link_delta : ℕ
link_delta = 4

unfoldable pub put_relink : ℕ → ℕ → ℕ → ℕ → ℕ → Draft → Draft
put_relink base off_reg dst k1 k2 w =
    let linked = put (mov64_reg off_reg base ∷ alu64_imm bpf_add off_reg link_delta ∷ []) w in
    let synced =
      put (jmp_imm jgt off_reg (k1 + link_delta) 0 ∷ mov64_reg dst base ∷ []) (park linked) in
    prove_bound base k2 (put (jmp_imm jgt off_reg (k2 + link_delta) 0 ∷ []) (park synced))

unfoldable pub put_shape : ℕ → ℕ → ℕ → Draft → Draft
put_shape op r imm w = forget_bound (put (alu64_imm op r imm ∷ []) w)

unfoldable pub put_link : ℕ → ℕ → ℕ → Draft → Draft
put_link a b coin w =
    forget_bound
      (put (mov64_reg b a ∷ (if coin == 0 then [] else alu64_imm bpf_add b link_delta ∷ [])) w)

unfoldable pub put_narrow : ℕ → ℕ → Draft → Draft
put_narrow r bound w = prove_bound r bound (put (jmp_imm jgt r bound 0 ∷ []) (park w))

unfoldable pub put_spill : ℕ → Draft → Draft
put_spill r w =
    let v = take_stack 8 w in
    let at = neg16 v.ctx.stack in put (stx_mem size_dw 10 r at ∷ ldx_mem size_dw r 10 at ∷ []) v

-- `head` and `jbreak` are index 0 of the list.
unfoldable pub put_loop : ℕ → Draft → Draft
put_loop r w =
    forget_bound
      (put (may_goto (displacement 0 3) ∷ alu64_imm bpf_and r 7 ∷ jmp_a (displacement 2 0) ∷ []) w)

-- r`reg` = fp - `slot`.
abbrev pub slot_in : ℕ → ℕ → List Insn → List Insn
slot_in reg slot rest = mov64_reg reg 10 ∷ alu64_imm bpf_add reg (neg32 slot) ∷ rest

abbrev pub dynptr_from_mem : ℕ
dynptr_from_mem = 197

-- `m` is the register of the map value.
unfoldable pub put_dynptr : Kernel → ℕ → ℕ → Draft → Draft
put_dynptr k m off w =
    let slot = w.ctx.stack + 16 in
    let v = take_stack 80 w in
    let made =
      put
        (mov64_reg 1 m
          ∷ mov64_imm 2 32
          ∷ mov64_imm 3 0
          ∷ slot_in 4 slot (
              emit_call dynptr_from_mem
              ∷ slot_in 1 slot (
                  mov64_imm 2 off
                  ∷ slot_in 3 v.ctx.stack (mov64_imm 4 8 ∷ kfunc_call k.slice_rdwr ∷ []))))
        v in
    let checked = put (jmp_imm jeq 0 0 0 ∷ mov64_reg 8 0 ∷ []) (park made) in
    record checked {
      ctx = record checked.ctx {
        scalar_regs = clear_r8 checked.ctx.scalar_regs;
        mem_reg = some 8;
        mem_size = 8;
        store_base_off = off;
      };
    }
  where
    clear_r8 : ℕ → ℕ
    clear_r8 regs = bit_and regs (0xffffffff - 2 ^ 8)

unfoldable pub put_alu32 : ℕ → ℕ → ℕ → Draft → Draft
put_alu32 op r imm w = forget_bound (put (alu32_imm op r imm ∷ []) w)

unfoldable pub put_iter : Kernel → Draft → Draft
put_iter k w =
    let v = forget_bound (put (emit_iter_loop k.iterator 0 4 lb_mask) w) in
    record v { ctx = record v.ctx { used_iter = true } }

abbrev pub sk_lookup_tcp : ℕ
sk_lookup_tcp = 84

abbrev pub sk_release : ℕ
sk_release = 86

-- `jnull` is index 10 of the list.
unfoldable pub put_skref : ℕ → Draft → Draft
put_skref r w =
    let v = take_stack 16 w in
    let tup = v.ctx.stack in
    let u = forget_bound (
      put
        (st_mem size_w 10 (neg16 tup) 0
          ∷ st_mem size_w 10 (neg16 (tup - 4)) 0
          ∷ st_mem size_w 10 (neg16 (tup - 8)) 0
          ∷ ldx_mem size_dw 1 10 (neg16 v.ctx.ctx_slot)
          ∷ slot_in 2 tup (
              mov64_imm 3 12
              ∷ mov64_imm 4 (neg32 1)
              ∷ mov64_imm 5 0
              ∷ emit_call sk_lookup_tcp
              ∷ jmp_imm jeq 0 0 (displacement 10 14)
              ∷ ldx_mem size_w r 0 0
              ∷ mov64_reg 1 0
              ∷ emit_call sk_release
              ∷ []))
        v) in
    record u { ctx = record u.ctx { used_skref = true } }

abbrev pub ringbuf_reserve_dynptr : ℕ
ringbuf_reserve_dynptr = 198

abbrev pub ringbuf_submit_dynptr : ℕ
ringbuf_submit_dynptr = 199

-- `jnull` is index 14 of the list.
unfoldable pub put_ringbuf : Kernel → ℕ → ℕ → Draft → Draft
put_ringbuf k r at w =
    let slot = w.ctx.stack + 16 in
    let v = take_stack 48 w in
    let u = forget_bound (
      put
        (ld_map_fd 1 k.ringbuf_fd
          ∷ second_slot
          ∷ mov64_imm 2 16
          ∷ mov64_imm 3 0
          ∷ slot_in 4 slot (
              emit_call ringbuf_reserve_dynptr
              ∷ slot_in 1 slot (
                  mov64_imm 2 0
                  ∷ slot_in 3 v.ctx.stack (
                      mov64_imm 4 8
                      ∷ kfunc_call k.slice_ro
                      ∷ jmp_imm jeq 0 0 (displacement 14 16)
                      ∷ ldx_mem size_b r 0 at
                      ∷ slot_in 1 slot (mov64_imm 2 0 ∷ emit_call ringbuf_submit_dynptr ∷ [])))))
        v) in
    record u { ctx = record u.ctx { used_ringbuf = true } }

unfoldable pub put_dynskb : Kernel → ℕ → ℕ → Draft → Draft
put_dynskb k r at w =
    let slot = w.ctx.stack + 16 in
    let v = take_stack 48 w in
    let made =
      put
        (ldx_mem size_dw 1 10 (neg16 v.ctx.ctx_slot)
          ∷ mov64_imm 2 0
          ∷ slot_in 3 slot (
              kfunc_call k.from_skb
              ∷ slot_in 1 slot (
                  mov64_imm 2 0
                  ∷ slot_in 3 v.ctx.stack (mov64_imm 4 8 ∷ kfunc_call k.slice_ro ∷ []))))
        v in
    let u = forget_bound (put (jmp_imm jeq 0 0 0 ∷ ldx_mem size_b r 0 at ∷ []) (park made)) in
    record u { ctx = record u.ctx { used_dynskb = true } }

-- BPF_PSEUDO_CALL, the target still open.
abbrev pub pseudo_call : ℕ → Insn
pseudo_call imm = record { code = 0x85; dst_reg = 0; src_reg = 1; off = 0; imm = imm }

unfoldable pub put_call : ℕ → Draft → Draft
put_call r w =
    let u = prove_bound r 15 (put (mov64_reg 1 r ∷ pseudo_call 0 ∷ mov64_reg r 0 ∷ []) w) in
    record u { ctx = record u.ctx { call_site = some (length w.ins + 1) } }

unfoldable pub put_pkt : ℕ → ℕ → Draft → Draft
put_pkt r at w =
    let ranged =
      put
        (ldx_mem size_dw 1 10 (neg16 w.ctx.ctx_slot)
          ∷ ldx_mem size_w 2 1 76
          ∷ ldx_mem size_w 3 1 80
          ∷ mov64_reg 4 2
          ∷ alu64_imm bpf_add 4 8
          ∷ [])
        w in
    forget_bound (put (jmp_reg jgt 4 3 0 ∷ ldx_mem size_b r 2 at ∷ []) (park ranged))
