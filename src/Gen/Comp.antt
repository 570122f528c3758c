-- ===== src/Gen/Comp.antt =====
-- harness/diffharness.c, the composing generator (--gen-comp): the typed context of its walk, and
-- which pieces may run in it.
pub mod Draw
pub mod Code
pub mod Walk
pub mod Finish
use verifierloop.Base.{
  ℕ, zero, suc, ◌+◌, ◌/◌, ◌%◌, ◌^◌, bit_and, Bool, true, false, ◌&&◌, not, List, [], ◌∷◌,
}
use verifierloop.Base.{Option, none, some, ◌==◌, ltb, leb, if◌then◌else◌}

-- enum comp_piece, in its order.
pub data Piece : Type 0 where
  shape link narrow spill loop dynptr alu32 iter pkt call dynskb ringbuf skref relink : Piece

abbrev pub pieces : List Piece
pieces =
    shape ∷ link ∷ narrow ∷ spill ∷ loop ∷ dynptr ∷ alu32 ∷ iter ∷ pkt ∷ call ∷ dynskb ∷ ringbuf
    ∷ skref ∷ relink ∷ []

-- struct comp_ctx, without its generator. `stack` is -stack_next, and `none` stands for -1.
pub record Ctx : Type 0 where
  pub scalar_regs : ℕ
  pub mapval_reg : Option ℕ
  pub mem_reg : Option ℕ
  pub mem_size : ℕ
  pub store_base_off : ℕ
  pub stack : ℕ
  pub narrowed_max : Option ℕ
  pub narrow_reg : Option ℕ
  pub ctx_slot : ℕ
  pub iter_slot : ℕ
  pub used_iter : Bool
  pub call_site : Option ℕ
  pub used_dynskb : Bool
  pub used_ringbuf : Bool
  pub used_skref : Bool

-- __builtin_popcount, of the low bits that are left.
unfoldable pub popcount : ℕ → ℕ → ℕ
popcount zero v = 0
popcount (suc n) v = v % 2 + popcount n (v / 2)

abbrev pub is_set : {A : Type 0} → Option A → Bool
is_set none = false
is_set (some a) = true

unfoldable pub comp_can : Ctx → Piece → Bool
comp_can c shape = not (c.scalar_regs == 0)
comp_can c link = leb 2 (popcount 32 c.scalar_regs)
comp_can c narrow = not (c.scalar_regs == 0)
comp_can c spill = not (c.scalar_regs == 0) && ltb c.stack 200
comp_can c loop = not (c.scalar_regs == 0)
comp_can c dynptr = is_set c.mapval_reg && not (is_set c.mem_reg) && ltb c.stack 160
comp_can c alu32 = not (c.scalar_regs == 0)
comp_can c iter = not (c.scalar_regs == 0) && not c.used_iter
comp_can c pkt = not (c.scalar_regs == 0)
comp_can c call = not (c.scalar_regs == 0) && not (is_set c.call_site)
comp_can c dynskb = not (c.scalar_regs == 0) && not c.used_dynskb && ltb c.stack 300
comp_can c ringbuf = not (c.scalar_regs == 0) && not c.used_ringbuf && ltb c.stack 380
comp_can c skref = not (c.scalar_regs == 0) && not c.used_skref && ltb c.stack 420
comp_can c relink = leb 3 (popcount 32 c.scalar_regs)
