-- ===== src/Tests/Comp.antt =====
-- The composing generator at a seed of its corpus, the 225th.
use verifierloop.Base.{ℕ, ◌+◌, ◌*◌, ◌≤◌, ◌≡◌, true, false, [], ◌∷◌, length, All, some, refl, arith}
use verifierloop.Gen.Genome.{Drawn, xorshift}
use verifierloop.Gen.Comp.{link, loop, pieces}
use verifierloop.Gen.Comp.Draw.Fair.{steady}
use verifierloop.Gen.Comp.Code.{Kernel}
use verifierloop.Gen.Comp.Walk.{Tables, best, max_steps}
use verifierloop.Gen.Comp.Walk.Prefers.{First, Any, new_pair, new_triple, best-First}
use verifierloop.Gen.Comp.Finish.{Composed, run_comp_prog, first_rng}
use verifierloop.Gen.Comp.Finish.Runs.{IsInside}
use verifierloop.Gen.Comp.Finish.Sealed.{IsSealed}
use verifierloop.Gen.Comp.Finish.Composes.{
  target_of, run_comp_prog_runs, run_comp_prog_fits, run_comp_prog-IsSealed,
}

-- 0x9E3779B9 * 225; each register comes within nine draws.
abbrev seed : ℕ
seed = 247593881

abbrev kernel : Kernel
kernel = record {
  iterator = record { new_id = 1; next_id = 2; destroy_id = 3 };
  slice_rdwr = 4;
  slice_ro = 5;
  from_skb = 6;
  ringbuf_fd = 7;
}

abbrev nothing_seen : Tables
nothing_seen = record { pair = λ a b. false; triple = λ a b c. false }

seed-steady : steady 9 180 9 9 9 (first_rng seed) ≡ true
unfolding steady xorshift
seed-steady = refl

run_comp_prog_runs_example :
    (d : Drawn Composed) × (run_comp_prog 9 kernel 3 4 nothing_seen seed ≡ some d)
    × (3 ≤ d.value.steps)
    × (d.value.steps ≤ max_steps)
    × (length d.value.recipe ≡ d.value.steps)
run_comp_prog_runs_example =
    run_comp_prog_runs 9 (omega arith) kernel 3 4 nothing_seen seed seed-steady

run_comp_prog_fits_example :
    (d : Drawn Composed) × (run_comp_prog 9 kernel 3 4 nothing_seen seed ≡ some d)
    × (length d.value.ins ≤ 160)
    × (length d.value.final.jexit ≤ 2 * max_steps + 4)
    × (d.value.final.ctx.stack ≤ 512)
    × (d.value.store.reg ≡ 8)
    × IsInside d.value.final d.value.store
run_comp_prog_fits_example =
    run_comp_prog_fits 9 (omega arith) kernel 3 4 nothing_seen seed seed-steady

run_comp_prog-IsSealed_example :
    (d : Drawn Composed) × (run_comp_prog 9 kernel 3 4 nothing_seen seed ≡ some d)
    × IsSealed (target_of d.value) d.value.ins
run_comp_prog-IsSealed_example =
    run_comp_prog-IsSealed 9 (omega arith) kernel 3 4 nothing_seen seed seed-steady

best-First_example :
    All
      (First
        (new_triple nothing_seen loop link)
        pieces
        (First (new_pair nothing_seen link) pieces Any))
      (best nothing_seen (link ∷ loop ∷ []) pieces)
best-First_example = best-First nothing_seen link loop [] pieces
