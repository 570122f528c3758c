-- ===== src/Gen/Comp/Walk.antt =====
-- harness/diffharness.c, comp_emit, and the walk of run_comp_prog: the draws of a piece, and how the
-- pieces are chosen.
pub mod Frame
pub mod Keeps
pub mod Pieces
pub mod Draws
pub mod Whole
pub mod Prefers
use verifierloop.Base.{
  ℕ, zero, suc, ◌+◌, ◌*◌, ◌-◌, ◌%◌, ◌^◌, Bool, true, false, ◌&&◌, ◌||◌, not, List, [], ◌∷◌, ◌++◌,
  length, get_or,
}
use verifierloop.Base.{Option, none, some, ◌==◌, ltb, if◌then◌else◌}
use verifierloop.Insn.{Insn}
use verifierloop.Gen.Insns.{
  alu64_imm, alu64_reg, mov64_imm, mov64_reg, jmp_imm, ldx_mem, st_mem, stx_mem, ld_map_fd,
  second_slot,
}
use verifierloop.Gen.Insns.{
  emit_call, exit_insn, displacement, neg16, neg32, bpf_add, bpf_and, bpf_or, bpf_xor, bpf_lsh,
  bpf_rsh, jeq, jgt, size_w, size_b, size_dw,
}
use verifierloop.Gen.Body.{choose4, choose6}
use verifierloop.Gen.Layout.{adjust}
use verifierloop.Gen.Program.{map_lookup, patch, patch_all}
use verifierloop.Gen.Comp.{
  Piece, shape, link, narrow, spill, loop, dynptr, alu32, iter, pkt, call, dynskb, ringbuf, skref,
  relink, pieces, Ctx, comp_can,
}
use verifierloop.Gen.Comp.Draw.{
  Draw, give, give_up, follow, ◌>>=◌, comp_pick, comp_scalar_reg, redraw,
}
use verifierloop.Gen.Comp.Code.{Kernel, Draft, put, park, pseudo_call}
use verifierloop.Gen.Comp.Code.{
  put_relink, put_shape, put_link, put_narrow, put_spill, put_loop, put_dynptr, put_alu32, put_iter,
  put_skref, put_ringbuf, put_dynskb, put_call, put_pkt,
}

unfoldable pub emit_relink : ℕ → Draft → Draw Draft
emit_relink tries w = do
  base ← comp_scalar_reg w.ctx.scalar_regs
  off_reg ← redraw tries w.ctx.scalar_regs (base ∷ [])
  dst ← redraw tries w.ctx.scalar_regs (base ∷ off_reg ∷ [])
  i ← comp_pick 8
  j ← comp_pick (8 + i - 1)
  give (put_relink base off_reg dst (8 + i) (1 + j) w)

unfoldable pub emit_shape : Draft → Draw Draft
emit_shape w = do
  r ← comp_scalar_reg w.ctx.scalar_regs
  i ← comp_pick 6
  v ← comp_pick (if i == 3 || i == 4 then 3 else 15)
  give (put_shape (choose6 i bpf_and bpf_or bpf_xor bpf_lsh bpf_rsh bpf_add) r (1 + v) w)

unfoldable pub emit_link : ℕ → Draft → Draw Draft
emit_link tries w = do
  a ← comp_scalar_reg w.ctx.scalar_regs
  b ← redraw tries w.ctx.scalar_regs (a ∷ [])
  coin ← comp_pick 2
  give (put_link a b coin w)

unfoldable pub emit_narrow : Draft → Draw Draft
emit_narrow w = do
  r ← comp_scalar_reg w.ctx.scalar_regs
  bound ← comp_pick 15
  give (put_narrow r (1 + bound) w)

unfoldable pub emit_alu32 : Draft → Draw Draft
emit_alu32 w = do
  r ← comp_scalar_reg w.ctx.scalar_regs
  i ← comp_pick 4
  v ← comp_pick 15
  give (put_alu32 (choose4 i bpf_and bpf_or bpf_add bpf_lsh) r (1 + v) w)

-- A piece that draws a scalar register only, and one that draws an offset below 8 after it.
abbrev pub on_scalar : (ℕ → Draft → Draft) → Draft → Draw Draft
on_scalar f w = do r ← comp_scalar_reg w.ctx.scalar_regs; give (f r w)

abbrev pub on_byte : (ℕ → ℕ → Draft → Draft) → Draft → Draw Draft
on_byte f w = do r ← comp_scalar_reg w.ctx.scalar_regs; at ← comp_pick 8; give (f r at w)

-- comp_can has seen that there is a map value.
unfoldable pub emit_dynptr : Kernel → Option ℕ → Draft → Draw Draft
emit_dynptr k none w = give w
emit_dynptr k (some m) w = do i ← comp_pick 3; give (put_dynptr k m (8 * i) w)

unfoldable pub comp_emit : ℕ → Kernel → Piece → Draft → Draw Draft
comp_emit tries k shape = emit_shape
comp_emit tries k link = emit_link tries
comp_emit tries k narrow = emit_narrow
comp_emit tries k spill = on_scalar put_spill
comp_emit tries k loop = on_scalar put_loop
comp_emit tries k dynptr = λ w. emit_dynptr k w.ctx.mapval_reg w
comp_emit tries k alu32 = emit_alu32
comp_emit tries k iter = on_scalar (λ r. put_iter k)
comp_emit tries k pkt = on_byte put_pkt
comp_emit tries k call = on_scalar put_call
comp_emit tries k dynskb = on_byte (put_dynskb k)
comp_emit tries k ringbuf = on_byte (put_ringbuf k)
comp_emit tries k skref = on_scalar put_skref
comp_emit tries k relink = emit_relink tries

-- g_seen_pair and g_seen_triple, by the numbers of the pieces.
pub record Tables : Type 0 where
  pub pair : ℕ → ℕ → Bool
  pub triple : ℕ → ℕ → ℕ → Bool

abbrev pub number : Piece → ℕ
number shape = 0
number link = 1
number narrow = 2
number spill = 3
number loop = 4
number dynptr = 5
number alu32 = 6
number iter = 7
number pkt = 8
number call = 9
number dynskb = 10
number ringbuf = 11
number skref = 12
number relink = 13

-- What the walk carries; the recipe is held as its pieces, the last one first.
pub record Walk : Type 0 where
  pub draft : Draft
  pub seen : Tables
  pub recipe : List Piece

abbrev pub select : (Piece → Bool) → List Piece → List Piece
select f [] = []
select f (p ∷ ps) = let rest = select f ps in if f p then p ∷ rest else rest

unfoldable pub avail : Ctx → List Piece
avail c = select (comp_can c) pieces

abbrev pub or_else : List Piece → List Piece → List Piece
or_else [] qs = qs
or_else (p ∷ ps) qs = p ∷ ps

-- `best`, by the last piece and the one before it.
unfoldable pub best : Tables → List Piece → List Piece → List Piece
best seen [] ps = ps
best seen (prev ∷ []) ps = or_else (select (λ p. not (seen.pair (number prev) (number p))) ps) ps
best seen (prev ∷ prev2 ∷ rest) ps =
    or_else (select (λ p. not (seen.triple (number prev2) (number prev) (number p))) ps)
      (or_else (select (λ p. not (seen.pair (number prev) (number p))) ps) ps)

-- The marks of a choice.
unfoldable pub mark : Piece → List Piece → Tables → Tables
mark p [] seen = seen
mark p (prev ∷ []) seen = record seen {
  pair = λ a b. (a == number prev && b == number p) || seen.pair a b;
}
mark p (prev ∷ prev2 ∷ rest) seen = record {
  pair = λ a b. (a == number prev && b == number p) || seen.pair a b;
  triple = λ a b c. (a == number prev2 && (b == number prev && c == number p)) || seen.triple a b c;
}

abbrev pub nth : List Piece → ℕ → Piece
nth [] i = shape
nth (p ∷ ps) zero = p
nth (p ∷ ps) (suc i) = nth ps i

-- One round, for the pieces that `best` holds.
unfoldable pub choose : ℕ → Kernel → List Piece → Walk → Draw Walk
choose tries k ps w = do
  i ← comp_pick (length ps)
  let p = nth ps i
  v ← comp_emit tries k p w.draft
  give (record { draft = v; seen = mark p w.recipe w.seen; recipe = p ∷ w.recipe })

-- The rounds that are left: the walk stops where nothing may run or 130 instructions are written.
unfoldable pub rounds : ℕ → Kernel → ℕ → Walk → Draw Walk
rounds tries k zero w = give w
rounds tries k (suc n) w =
    let ps = best w.seen w.recipe (avail w.draft.ctx) in
    let more = (do v ← choose tries k ps w; rounds tries k n v) in
    if not (ltb (length w.draft.ins) 130)
    then give w
    else if length (avail w.draft.ctx) == 0
    then give w
    else more

unfoldable pub comp_prologue : ℕ → ℕ → List Insn
comp_prologue map_in map_out =
    stx_mem size_dw 10 1 (neg16 16)
    ∷ st_mem size_w 10 (neg16 4) 0
    ∷ mov64_reg 2 10
    ∷ alu64_imm bpf_add 2 (neg32 4)
    ∷ ld_map_fd 1 map_in
    ∷ second_slot
    ∷ emit_call map_lookup
    ∷ jmp_imm jeq 0 0 0
    ∷ ldx_mem size_w 6 0 0
    ∷ ldx_mem size_w 7 0 4
    ∷ ldx_mem size_dw 9 0 8
    ∷ st_mem size_w 10 (neg16 4) 0
    ∷ mov64_reg 2 10
    ∷ alu64_imm bpf_add 2 (neg32 4)
    ∷ ld_map_fd 1 map_out
    ∷ second_slot
    ∷ emit_call map_lookup
    ∷ jmp_imm jeq 0 0 0
    ∷ mov64_reg 8 0
    ∷ []

unfoldable pub start_ctx : Ctx
start_ctx = record {
  scalar_regs = 2 ^ 6 + 2 ^ 7 + 2 ^ 9;
  mapval_reg = some 8;
  mem_reg = none;
  mem_size = 0;
  store_base_off = 0;
  stack = 32;
  narrowed_max = none;
  narrow_reg = none;
  ctx_slot = 16;
  iter_slot = 24;
  used_iter = false;
  call_site = none;
  used_dynskb = false;
  used_ringbuf = false;
  used_skref = false;
}

unfoldable pub start_draft : ℕ → ℕ → Draft
start_draft map_in map_out = record {
  ins = comp_prologue map_in map_out;
  jexit = 7 ∷ 17 ∷ [];
  ctx = start_ctx;
}

abbrev pub max_steps : ℕ
max_steps = 8

-- The walk of a program, with the number of its rounds.
pub record Walked : Type 0 where
  pub steps : ℕ
  pub walk : Walk

unfoldable pub comp_walk : ℕ → Kernel → ℕ → ℕ → Tables → Draw Walked
comp_walk tries k map_in map_out seen = do
  i ← comp_pick (max_steps - 2)
  let start : Walk = record { draft = start_draft map_in map_out; seen = seen; recipe = [] }
  w ← rounds tries k (3 + i) start
  give (record { steps = 3 + i; walk = w })
