-- ===== src/Gen/Comp/Finish/Composes.antt =====
-- What run_comp_prog composes, where the random numbers keep drawing each register.
use verifierloop.Base.{ℕ, ◌+◌, ◌*◌, ◌<◌, ◌≤◌, ◌≡◌, true, length, some}
use verifierloop.Base.{arith, refl}
use verifierloop.Gen.Genome.{Drawn}
use verifierloop.Gen.Comp.Draw.Fair.{Fair, Fair-weaken, steady}
use verifierloop.Gen.Comp.Draw.Gives.{Gives, Gives-give, Gives-bind}
use verifierloop.Gen.Comp.Code.{Kernel}
use verifierloop.Gen.Comp.Walk.{Tables, comp_walk, max_steps}
use verifierloop.Gen.Comp.Walk.Whole.{walk_draws}
use verifierloop.Gen.Comp.Finish.{
  Target, comp_target, comp_finish, Composed, compose, run_comp_prog, first_rng,
}
use verifierloop.Gen.Comp.Finish.Runs.{
  IsWalked, IsTarget, IsInside, comp_walk-IsWalk, comp_target-IsTarget,
}
use verifierloop.Gen.Comp.Finish.Sealed.{IsSealed, comp_finish-IsSealed}

abbrev pub target_of : Composed → Target
target_of c = record { draft = c.final; store = c.store }

record IsComposed (c : Composed) : Type 0 where
  low : 3 ≤ c.steps
  high : c.steps ≤ max_steps
  recipe : length c.recipe ≡ c.steps
  target : IsTarget c.steps (target_of c)
  ins : c.ins ≡ comp_finish (target_of c)

is_sealed : (c : Composed) → IsComposed c → IsSealed (target_of c) c.ins
is_sealed c x = rw x.ins (
    comp_finish-IsSealed (target_of c) x.target.jumps x.target.site
      (omega (arith, x.target.size, x.high)))

module _ (limit : ℕ) (some_try : 0 < limit) (k : Kernel) (map_in map_out : ℕ) (seen : Tables) where
  compose-IsComposed :
      Gives limit IsComposed
        ((1 + walk_draws limit max_steps) + (3 + 0))
        (compose limit k map_in map_out seen)
  unfolding compose
  compose-IsComposed =
      Gives-bind limit IsWalked IsComposed (1 + walk_draws limit max_steps) (3 + 0)
        (comp_walk limit k map_in map_out seen) _
        (comp_walk-IsWalk limit some_try k map_in map_out seen)
        (λ d (low, high, h).
          Gives-bind limit (IsTarget d.steps) IsComposed 3 0
            (comp_target d.walk.draft.ctx.mem_reg d.walk.draft) _
            (comp_target-IsTarget limit some_try k d.steps d.walk.draft d.walk.draft.ctx.mem_reg
              h.draft refl)
            (λ t x.
              Gives-give limit IsComposed _
                (record { low = low; high = high; recipe = h.recipe; target = x; ins = refl })))

  -- The numbers from the seed on are steady for as long as a program draws.
  abbrev IsSteady : ℕ → Type 0
  IsSteady seed = steady limit (36 + 16 * limit) limit limit limit (first_rng seed) ≡ true

  composed :
      (seed : ℕ)
      → IsSteady seed
      → (d : Drawn Composed) × (run_comp_prog limit k map_in map_out seen seed ≡ some d)
        × IsComposed d.value
  unfolding run_comp_prog
  composed seed h =
      let fair : Fair limit (36 + 16 * limit) (first_rng seed) = record {
        first = limit;
        second = limit;
        third = limit;
        first_le = omega arith;
        second_le = omega arith;
        third_le = omega arith;
        is_steady = h;
      } in
      let (d, e, x, _) = compose-IsComposed 0 (first_rng seed) (Fair-weaken _ (omega arith) fair) in
      (d, e, x)

  -- Where the numbers from the seed on are steady, run_comp_prog composes a program with that limit of
  -- tries: no round of the walk ends it early, so that the recipe has as many pieces as the walk has
  -- rounds, three to eight.
  pub run_comp_prog_runs :
      (seed : ℕ)
      → IsSteady seed
      → (d : Drawn Composed) × (run_comp_prog limit k map_in map_out seen seed ≡ some d)
        × (3 ≤ d.value.steps)
        × (d.value.steps ≤ max_steps)
        × (length d.value.recipe ≡ d.value.steps)
  run_comp_prog_runs seed h = let (d, e, x) = composed seed h in (d, e, x.low, x.high, x.recipe)

  -- Where the numbers from the seed on are steady, the program fits into `ins[160]` and its exits into
  -- `jexit[2 * COMP_MAXSTEPS + 4]`, the stack that it takes into 512 bytes. The store goes through r8.
  -- Either r8 is the slice, and the byte lies in the slice and in the map value; or the last instruction
  -- before the store adds a scalar register to r8, and the store's offset is 63 less the bound that is
  -- recorded for this register, so that a register within that bound stays in the 64 bytes of the map
  -- value, and 0 where no bound is recorded for it.
  pub run_comp_prog_fits :
      (seed : ℕ)
      → IsSteady seed
      → (d : Drawn Composed) × (run_comp_prog limit k map_in map_out seen seed ≡ some d)
        × (length d.value.ins ≤ 160)
        × (length d.value.final.jexit ≤ 2 * max_steps + 4)
        × (d.value.final.ctx.stack ≤ 512)
        × (d.value.store.reg ≡ 8)
        × IsInside d.value.final d.value.store
  run_comp_prog_fits seed h =
      let (d, e, x) = composed seed h in
      (
        d,
        e,
        omega (arith, (is_sealed d.value x).size, x.target.size, x.high),
        omega (arith, x.target.exits, x.high),
        omega (arith, x.target.ctx.high),
        x.target.reg,
        x.target.inside,
      )

  -- Where the numbers from the seed on are steady, each branch that was left open is a conditional jump
  -- to the common exit, which returns 0, and the call, where there is one, leads to the callee.
  pub run_comp_prog-IsSealed :
      (seed : ℕ)
      → IsSteady seed
      → (d : Drawn Composed) × (run_comp_prog limit k map_in map_out seen seed ≡ some d)
        × IsSealed (target_of d.value) d.value.ins
  run_comp_prog-IsSealed seed h = let (d, e, x) = composed seed h in (d, e, is_sealed d.value x)
