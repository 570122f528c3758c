-- ===== src/Live/Flow/Correct.antt =====
-- What a run of bpflive_run returns, on a program that it accepts and on one that it refuses.
use verifierloop.Base.{ℕ, ◌≤◌, ◌<◌, ◌≡◌, ◌↔◌, refl, sym, ◌∙◌, inl, inr}
use verifierloop.Base.{arith, false, true, List, length, replicate}
use verifierloop.Base.{get_or-replicate, Bool-cases, ltb, ◌==◌, ◌||◌}
use verifierloop.Base.{Bool-ext}
use verifierloop.Base.Bits.{testbit, testbit-zero, testbit_ext}
use mathlib.Core.Bool.{false≢true}
use verifierloop.Insn.{Insn}
use verifierloop.Live.Usedef.{Kfunc, tracked}
use verifierloop.Live.Flow.{Node, live_at, rounds, guard_limit, max_insn}
use verifierloop.Live.Flow.{Scan, nodes, refused, scan}
use verifierloop.Live.Flow.{analysed, solve, run}
use verifierloop.Live.Flow.Fixpoint.{Solves, rounds-Solves}
use verifierloop.Live.Flow.Paths.{LivePath, IsGraph, IsSound, rounds-IsSound, LivePath-live}
use verifierloop.Live.Flow.Scanned.{Scanned, scan-Scanned, Scanned-IsGraph, Scanned-length}

-- The nodes and the masks of an accepted program.
pub record IsRun (ks : List Kfunc) (ins : List Insn) (live : List ℕ) (g : List Node) : Type 0 where
  pub scanned : Scanned ks (length ins) 0 false ins g
  pub found : live ≡ rounds g guard_limit (replicate (length g) 0)
  pub small : length ins ≤ max_insn

pub run-IsRun :
    (ks : List Kfunc) (ins : List Insn) (live : List ℕ)
    → run ks ins ≡ analysed live
    → (g : List Node) × IsRun ks ins live g
unfolding run
run-IsRun ks ins live h = elim (Bool-cases (length ins == 0 || ltb max_insn (length ins))) [
  | inl out ↦ cc (rw out at h)
  | inr fits ↦ go (scan ks (length ins) 0 false ins) refl (rw fits at h)
]
  where
    go :
        (s : Scan)
        → scan ks (length ins) 0 false ins ≡ s
        → solve s ≡ analysed live
        → (g : List Node) × IsRun ks ins live g
    go (nodes g) e q = (
      g,
      record {
        scanned = scan-Scanned ks (length ins) 0 false ins g e;
        found = unfold solve in cc q;
        small = ground arith;
      },
    )
    go (refused i w) e q = unfold solve in cc q

blank-IsSound :
    (g : List Node) (n i r : ℕ)
    → testbit (live_at (replicate n 0) i) r ≡ true
    → LivePath g r i × (testbit tracked r ≡ true)
blank-IsSound g n i r t =
    let t' : testbit 0 r ≡ true = rw (get_or-replicate {A = ℕ} n i 0) at t in
    absurd (false≢true (sym (testbit-zero r) ∙ t'))

module _ {ks : List Kfunc} {ins : List Insn} {live : List ℕ} {g : List Node} where
  pub IsRun-Solves : IsRun ks ins live g → Solves g live
  IsRun-Solves v = rw v.found (rounds-Solves g guard_limit few)
    where
      few : length g < guard_limit
      few = omega (arith, Scanned-length v.scanned, v.small)

  pub IsRun-IsSound : IsRun ks ins live g → IsSound g live
  IsRun-IsSound v =
      rw v.found
        (rounds-IsSound g guard_limit (replicate (length g) 0) (blank-IsSound g (length g)))

live_iff_path :
    (g : List Node) (fuel i r : ℕ)
    → IsGraph g
    → length g < fuel
    → (testbit (live_at (rounds g fuel (replicate (length g) 0)) i) r ≡ true)
      ↔ (LivePath g r i × (testbit tracked r ≡ true))
live_iff_path g fuel i r ok h = (
  rounds-IsSound g fuel (replicate (length g) 0) (blank-IsSound g (length g)) i r,
  λ (p, low). LivePath-live g _ r i ok (rounds-Solves g fuel h) low p,
)

-- Any two bounds above the number of instructions give the same masks at every instruction.
pub rounds_guard :
    (g : List Node) (fuel fuel' i : ℕ)
    → IsGraph g
    → length g < fuel
    → length g < fuel'
    → live_at (rounds g fuel (replicate (length g) 0)) i
      ≡ live_at (rounds g fuel' (replicate (length g) 0)) i
rounds_guard g fuel fuel' i ok h h' = testbit_ext _ _ λ r.
    let p = live_iff_path g fuel i r ok h in
    let q = live_iff_path g fuel' i r ok h' in Bool-ext _ _ (λ t. q.1 (p.0 t)) (λ t. p.1 (q.0 t))

-- On an accepted program, bit `r` of the mask before instruction `i` is set exactly when `r` is
-- one of r0 .. r9 and some path from `i` reads `r` before it writes it.
pub run-live_iff :
    (ks : List Kfunc) (ins : List Insn) (live : List ℕ)
    → run ks ins ≡ analysed live
    → (g : List Node) × Scanned ks (length ins) 0 false ins g
      × ((i r : ℕ)
          → (testbit (live_at live i) r ≡ true) ↔ (LivePath g r i × (testbit tracked r ≡ true)))
run-live_iff ks ins live h =
    let (g, v) = run-IsRun ks ins live h in
    let few : length g < guard_limit = omega (arith, Scanned-length v.scanned, v.small) in
    (
      g,
      v.scanned,
      λ i r. rw v.found (live_iff_path g guard_limit i r (Scanned-IsGraph v.scanned) few),
    )
