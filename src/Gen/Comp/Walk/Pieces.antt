-- ===== src/Gen/Comp/Walk/Pieces.antt =====
-- The array, the exits and the context after the instructions of each piece.
use verifierloop.Base.{ℕ, suc, ◌+◌, ◌≤◌, ◌<◌, ◌≡◌, true, inl, inr}
use verifierloop.Base.{some, ◌==◌, arith, refl, [], ◌∷◌, ◌*◌, length, Bool-cases}
use verifierloop.Insn.{class_of}
use verifierloop.Gen.Insns.{alu64_imm, alu32_imm, jmp_imm, jmp_reg, mov64_reg, bpf_add, jgt, jeq}
use verifierloop.Gen.Layout.Kinds.{is_branch, branch_class}
use verifierloop.Gen.Loops.{emit_iter_loop, emit_loop_body, lb_mask}
use verifierloop.Gen.Comp.{spill, dynptr, iter, dynskb, ringbuf, skref, comp_can}
use verifierloop.Gen.Comp.Draw.Gives.{IsScalar}
use verifierloop.Gen.Comp.Code.{Kernel, Draft, link_delta}
use verifierloop.Gen.Comp.Code.{
  put_relink, put_shape, put_link, put_narrow, put_spill, put_loop, put_dynptr, put_alu32, put_iter,
  put_skref, put_ringbuf, put_dynskb, put_call, put_pkt,
}
use verifierloop.Gen.Comp.Walk.Frame.{
  second_after, IsCtx, IsDraft, put-Grows, park-Grows, Grows-trans, advance, leaves,
}
use verifierloop.Gen.Comp.Walk.Keeps.{IsCtx-bound, IsCtx-forget, IsCtx-stack, IsCtx-marks}

jgt_branch : (r i o : ℕ) → is_branch (jmp_imm jgt r i o) ≡ true
unfolding is_branch branch_class class_of
jgt_branch r i o = refl

jeq_branch : (r i o : ℕ) → is_branch (jmp_imm jeq r i o) ≡ true
unfolding is_branch branch_class class_of
jeq_branch r i o = refl

jgt_reg_branch : is_branch (jmp_reg jgt 4 3 0) ≡ true
unfolding is_branch branch_class class_of
jgt_reg_branch = refl

pub shape-IsDraft :
    (m op r imm : ℕ) (w : Draft) → IsDraft m w → IsDraft (suc m) (put_shape op r imm w)
unfolding put_shape
shape-IsDraft m op r imm w h =
    leaves m w _ h (put-Grows (alu64_imm op r imm ∷ []) w.ins w.jexit) (IsCtx-forget w.ctx h.ctx)
      (omega arith) (omega arith) refl

pub alu32-IsDraft :
    (m op r imm : ℕ) (w : Draft) → IsDraft m w → IsDraft (suc m) (put_alu32 op r imm w)
unfolding put_alu32
alu32-IsDraft m op r imm w h =
    leaves m w _ h (put-Grows (alu32_imm op r imm ∷ []) w.ins w.jexit) (IsCtx-forget w.ctx h.ctx)
      (omega arith) (omega arith) refl

pub loop-IsDraft : (m r : ℕ) (w : Draft) → IsDraft m w → IsDraft (suc m) (put_loop r w)
unfolding put_loop
loop-IsDraft m r w h =
    leaves m w _ h (put-Grows _ w.ins w.jexit) (IsCtx-forget w.ctx h.ctx) (omega arith)
      (omega arith) refl

pub link-IsDraft :
    (m a b coin : ℕ) (w : Draft) → IsDraft m w → IsDraft (suc m) (put_link a b coin w)
unfolding put_link
link-IsDraft m a b coin w h = elim (Bool-cases (coin == 0)) [
  | inl e ↦ rw e (
      leaves m w _ h (put-Grows (mov64_reg b a ∷ []) w.ins w.jexit) (IsCtx-forget w.ctx h.ctx)
        (omega arith) (omega arith) refl)
  | inr e ↦ rw e (
      leaves m w _ h (put-Grows (mov64_reg b a ∷ alu64_imm bpf_add b link_delta ∷ []) w.ins w.jexit)
        (IsCtx-forget w.ctx h.ctx) (omega arith) (omega arith) refl)
]

pub spill-IsDraft :
    (m r : ℕ) (w : Draft)
    → IsDraft m w
    → comp_can w.ctx spill ≡ true
    → IsDraft (suc m) (put_spill r w)
unfolding put_spill comp_can
spill-IsDraft m r w h can =
    leaves m w _ h (put-Grows _ w.ins w.jexit)
      (IsCtx-stack w.ctx 8 h.ctx (omega arith) (grind (arith, can))) (omega arith) (omega arith)
      refl

pub iter-IsDraft :
    (m : ℕ) (k : Kernel) (w : Draft)
    → IsDraft m w
    → comp_can w.ctx iter ≡ true
    → IsDraft (suc m) (put_iter k w)
unfolding put_iter comp_can emit_iter_loop emit_loop_body
iter-IsDraft m k w h can =
    leaves m w _ h (put-Grows (emit_iter_loop k.iterator 0 4 lb_mask) w.ins w.jexit)
      (IsCtx-marks _ true w.ctx.used_dynskb w.ctx.used_ringbuf w.ctx.used_skref w.ctx.call_site
        (IsCtx-forget w.ctx h.ctx))
      (grind (arith, can)) (omega arith) refl

pub skref-IsDraft :
    (m r : ℕ) (w : Draft)
    → IsDraft m w
    → comp_can w.ctx skref ≡ true
    → IsDraft (suc m) (put_skref r w)
unfolding put_skref comp_can
skref-IsDraft m r w h can =
    leaves m w _ h (put-Grows _ w.ins w.jexit)
      (IsCtx-marks _ w.ctx.used_iter w.ctx.used_dynskb w.ctx.used_ringbuf true w.ctx.call_site
        (IsCtx-forget _ (IsCtx-stack w.ctx 16 h.ctx (omega arith) (grind (arith, can)))))
      (grind (arith, can)) (omega arith) refl

pub ringbuf-IsDraft :
    (m : ℕ) (k : Kernel) (r at : ℕ) (w : Draft)
    → IsDraft m w
    → comp_can w.ctx ringbuf ≡ true
    → IsDraft (suc m) (put_ringbuf k r at w)
unfolding put_ringbuf comp_can
ringbuf-IsDraft m k r at w h can =
    leaves m w _ h (put-Grows _ w.ins w.jexit)
      (IsCtx-marks _ w.ctx.used_iter w.ctx.used_dynskb true w.ctx.used_skref w.ctx.call_site
        (IsCtx-forget _ (IsCtx-stack w.ctx 48 h.ctx (omega arith) (grind (arith, can)))))
      (grind (arith, can)) (omega arith) refl

pub dynskb-IsDraft :
    (m : ℕ) (k : Kernel) (r at : ℕ) (w : Draft)
    → IsDraft m w
    → comp_can w.ctx dynskb ≡ true
    → IsDraft (suc m) (put_dynskb k r at w)
unfolding put_dynskb comp_can
dynskb-IsDraft m k r at w h can =
    leaves m w _ h
      (Grows-trans (put-Grows _ w.ins w.jexit)
        (park-Grows (jmp_imm jeq 0 0 0) _ _ _ (jeq_branch 0 0 0)))
      (IsCtx-marks _ w.ctx.used_iter true w.ctx.used_ringbuf w.ctx.used_skref w.ctx.call_site
        (IsCtx-forget _ (IsCtx-stack w.ctx 48 h.ctx (omega arith) (grind (arith, can)))))
      (grind (arith, can)) (omega arith) refl

pub pkt-IsDraft : (m r at : ℕ) (w : Draft) → IsDraft m w → IsDraft (suc m) (put_pkt r at w)
unfolding put_pkt
pkt-IsDraft m r at w h =
    leaves m w _ h
      (Grows-trans (put-Grows _ w.ins w.jexit)
        (park-Grows (jmp_reg jgt 4 3 0) _ _ _ jgt_reg_branch))
      (IsCtx-forget w.ctx h.ctx) (omega arith) (omega arith) refl

pub narrow-IsDraft :
    (m r bound : ℕ) (w : Draft)
    → IsDraft m w
    → IsScalar r
    → bound ≤ 15
    → IsDraft (suc m) (put_narrow r bound w)
unfolding put_narrow
narrow-IsDraft m r bound w h scalar few =
    leaves m w _ h (park-Grows (jmp_imm jgt r bound 0) [] w.ins w.jexit (jgt_branch r bound 0))
      (IsCtx-bound w.ctx (some bound) (some r) h.ctx (few, scalar)) (omega arith) (omega arith) refl

pub relink-IsDraft :
    (m base off_reg dst k1 k2 : ℕ) (w : Draft)
    → IsDraft m w
    → IsScalar base
    → k2 ≤ 15
    → IsDraft (suc m) (put_relink base off_reg dst k1 k2 w)
unfolding put_relink
relink-IsDraft m base off_reg dst k1 k2 w h scalar few =
    leaves m w _ h
      (Grows-trans (put-Grows _ w.ins w.jexit) (
        Grows-trans
          (park-Grows (jmp_imm jgt off_reg (k1 + link_delta) 0) _ _ _
            (jgt_branch off_reg (k1 + link_delta) 0))
          (park-Grows (jmp_imm jgt off_reg (k2 + link_delta) 0) [] _ _
            (jgt_branch off_reg (k2 + link_delta) 0))))
      (IsCtx-bound w.ctx (some k2) (some base) h.ctx (few, scalar)) (omega arith) (omega arith) refl

pub call-IsDraft : (m r : ℕ) (w : Draft) → IsDraft m w → IsScalar r → IsDraft (suc m) (put_call r w)
unfolding put_call
call-IsDraft m r w h scalar =
    advance m w _ h (put-Grows _ w.ins w.jexit)
      (IsCtx-marks _ w.ctx.used_iter w.ctx.used_dynskb w.ctx.used_ringbuf w.ctx.used_skref _
        (IsCtx-bound w.ctx (some 15) (some r) h.ctx (omega arith, scalar)))
      (omega arith) (omega arith) (second_after w.ins _ _ _ (length w.ins + 1) refl)

pub dynptr-IsDraft :
    (m : ℕ) (k : Kernel) (i : ℕ) (w : Draft)
    → IsDraft m w
    → comp_can w.ctx dynptr ≡ true
    → i < 3
    → IsDraft (suc m) (put_dynptr k 8 (8 * i) w)
unfolding put_dynptr comp_can
dynptr-IsDraft m k i w h can few =
    leaves m w _ h
      (Grows-trans (put-Grows _ w.ins w.jexit)
        (park-Grows (jmp_imm jeq 0 0 0) _ _ _ (jeq_branch 0 0 0)))
      (record {
        regs = rw h.ctx.regs refl;
        low = s.low;
        high = s.high;
        aligned = s.aligned;
        map = s.map;
        mem = inr (refl, (refl, omega (arith, few)));
        bound = s.bound;
      })
      (grind (arith, can)) (omega arith) refl
  where
    s : IsCtx (record w.ctx { stack = w.ctx.stack + 80 })
    s = IsCtx-stack w.ctx 80 h.ctx (omega arith) (grind (arith, can))
