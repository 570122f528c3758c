-- ===== src/Gen/Comp/Finish.antt =====
-- harness/diffharness.c, run_comp_prog: the store that ends a program, its exits and its callee.
pub mod Exits
pub mod Runs
pub mod Sealed
pub mod Composes
use verifierloop.Base.{
  ℕ, ◌+◌, ◌-◌, Bool, false, List, [], ◌∷◌, ◌++◌, length, Option, none, some, ◌==◌, if◌then◌else◌,
}
use verifierloop.Insn.{Insn}
use verifierloop.Gen.Insns.{
  alu64_reg, mov64_imm, mov64_reg, jmp_imm, st_mem, exit_insn, displacement, bpf_add, jgt, size_b,
}
use verifierloop.Gen.Layout.{adjust}
use verifierloop.Gen.Program.{patch_all}
use verifierloop.Gen.Genome.{Drawn}
use verifierloop.Gen.Comp.{Piece, Ctx}
use verifierloop.Gen.Comp.Draw.{Draw, give, follow, ◌>>=◌, comp_pick, comp_scalar_reg}
use verifierloop.Gen.Comp.Code.{Kernel, Draft, put, put_narrow}
use verifierloop.Gen.Comp.Walk.{Tables, comp_walk}

-- COMP_VALUE.
abbrev pub comp_value : ℕ
comp_value = 64

-- The store that ends the program: its register, its offset, and where its base sits in the value.
pub record Store : Type 0 where
  pub reg : ℕ
  pub off : ℕ
  pub base_off : ℕ

pub record Target : Type 0 where
  pub draft : Draft
  pub store : Store

abbrev pub prove_again : ℕ → Option ℕ → Draft → Draft
prove_again r none w = w
prove_again r (some b) w = put_narrow r b w

-- The branch that proves a bound anew, three times in four where none is proven.
unfoldable pub rebound : ℕ → Option ℕ → Draft → Draw Draft
rebound r (some b) w = give w
rebound r none w = do
  coin ← comp_pick 4
  bound ← (if coin == 0 then give none else (do b ← comp_pick 15; give (some (1 + b))))
  give (prove_again r bound w)

abbrev pub same_reg : ℕ → Option ℕ → Bool
same_reg r none = false
same_reg r (some s) = s == r

abbrev pub store_off : ℕ → Option ℕ → Option ℕ → ℕ
store_off r none reg = 0
store_off r (some b) reg = if same_reg r reg then comp_value - 1 - b else 0

unfoldable pub comp_target : Option ℕ → Draft → Draw Target
comp_target (some m) w = do
  off ← comp_pick w.ctx.mem_size
  give
      (record { draft = w; store = record { reg = m; off = off; base_off = w.ctx.store_base_off } })
comp_target none w = do
  r ← comp_scalar_reg w.ctx.scalar_regs
  v ← rebound r w.ctx.narrowed_max w
  give (record {
    draft = put (alu64_reg bpf_add 8 r ∷ []) v;
    store = record { reg = 8; off = store_off r v.ctx.narrowed_max v.ctx.narrow_reg; base_off = 0 };
  })

-- The callee, whose `jhigh` is index 0 of the list.
unfoldable pub callee : List Insn
callee =
    jmp_imm jgt 1 15 (displacement 0 3) ∷ mov64_reg 0 1 ∷ exit_insn ∷ mov64_imm 0 0 ∷ exit_insn ∷ []

unfoldable pub add_callee : Option ℕ → List Insn → List Insn
add_callee none ins = ins
add_callee (some at) ins = adjust at (λ x. record x { imm = length ins - at - 1 }) ins ++ callee

unfoldable pub comp_finish : Target → List Insn
comp_finish t =
    let body =
      t.draft.ins
      ++ st_mem size_b t.store.reg t.store.off 0xffffffff ∷ mov64_imm 0 1 ∷ exit_insn ∷ [] in
    let exit0 = length body in
    add_callee t.draft.ctx.call_site
      (patch_all t.draft.jexit exit0 (body ++ mov64_imm 0 0 ∷ exit_insn ∷ []))

-- What run_comp_prog loads and reports.
pub record Composed : Type 0 where
  pub ins : List Insn
  pub store : Store
  pub steps : ℕ
  pub recipe : List Piece
  pub final : Draft
  pub seen : Tables

unfoldable pub compose : ℕ → Kernel → ℕ → ℕ → Tables → Draw Composed
compose tries k map_in map_out seen = do
  d ← comp_walk tries k map_in map_out seen
  t ← comp_target d.walk.draft.ctx.mem_reg d.walk.draft
  give (record {
    ins = comp_finish t;
    store = t.store;
    steps = d.steps;
    recipe = d.walk.recipe;
    final = t.draft;
    seen = d.walk.seen;
  })

-- `c.rng = seed ? seed : 1`.
abbrev pub first_rng : ℕ → ℕ
first_rng seed = if seed == 0 then 1 else seed

unfoldable pub run_comp_prog : ℕ → Kernel → ℕ → ℕ → Tables → ℕ → Option (Drawn Composed)
run_comp_prog tries k map_in map_out seen seed =
    compose tries k map_in map_out seen (first_rng seed)
