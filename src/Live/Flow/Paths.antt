-- ===== src/Live/Flow/Paths.antt =====
-- What liveness means, without the sweeps: a register is live where a path leads to a read of it
-- that no write precedes. The fixed point that the sweeps reach is exactly that.
use verifierloop.Base.{ℕ, zero, suc, ◌<◌, ◌≡◌, refl, sym, ◌∙◌, ◌⊎◌, inl, inr, arith}
use verifierloop.Base.{true, List, [], ◌∷◌, length, Bool-cases}
use verifierloop.Base.{get_or-set, ltb, ◌==◌, ◌&&◌, bit_xor}
use mathlib.Core.Path.{subst}
use verifierloop.Base.{get_or_out, ltb→lt}
use verifierloop.Base.Bits.{testbit, testbit-zero, testbit-bit_or}
use mathlib.Core.Bool.{false≢true}
use verifierloop.Live.Usedef.{tracked}
use verifierloop.Live.Flow.{Node, node_at, live_at, transfer, rounds, live_after, tail_node}
use verifierloop.Live.Flow.Sweep.{step, pass, swept, rounds_more, rounds_done}
use verifierloop.Live.Flow.Order.{testbit-transfer}
use verifierloop.Live.Flow.Fixpoint.{Solves}

abbrev pub Occurs : ℕ → List ℕ → Type 0
Occurs j [] = ⊥
Occurs j (s ∷ ss) = (j ≡ s) ⊎ Occurs j ss

-- From instruction `i` some path reads register `r` before it writes it.
pub data LivePath (g : List Node) (r : ℕ) : ℕ → Type 0 where
  reads : (i : ℕ) → testbit (node_at g i).uses r ≡ true → LivePath g r i
  passes :
      (i j : ℕ)
      → testbit (bit_xor (node_at g i).defs 0xffff) r ≡ true
      → Occurs j (node_at g i).succs
      → LivePath g r j
      → LivePath g r i

live_after-Occurs :
    (live : List ℕ) (ss : List ℕ) (r : ℕ)
    → testbit (live_after live ss) r ≡ true
    → (j : ℕ) × Occurs j ss × (testbit (live_at live j) r ≡ true)
unfolding live_after
live_after-Occurs live [] r t = absurd (false≢true (sym (testbit-zero r) ∙ t))
live_after-Occurs live (s ∷ ss) r t = elim (Bool-cases (testbit (live_at live s) r)) [
  | inl e ↦ (s, inl refl, e)
  | inr e ↦
      let both = testbit-bit_or (live_at live s) (live_after live ss) r in
      let (j, o, b) = live_after-Occurs live ss r (ground arith) in (j, inr o, b)
]

pub Occurs-live_after :
    (live : List ℕ) (ss : List ℕ) (r j : ℕ)
    → Occurs j ss
    → testbit (live_at live j) r ≡ true
    → testbit (live_after live ss) r ≡ true
unfolding live_after
Occurs-live_after live [] r j o t = absurd o
Occurs-live_after live (s ∷ ss) r j (inl e) t =
    let both = testbit-bit_or (live_at live s) (live_after live ss) r in
    let t' : testbit (live_at live s) r ≡ true = rw e at t in ground arith
Occurs-live_after live (s ∷ ss) r j (inr o) t = ground (
  arith,
  testbit-bit_or (live_at live s) (live_after live ss) r,
  Occurs-live_after live ss r j o t,
)

module _ (g : List Node) where
  -- Every set bit stands for a path.
  abbrev pub IsSound : List ℕ → Type 0
  IsSound live =
      (i r : ℕ) → testbit (live_at live i) r ≡ true → LivePath g r i × (testbit tracked r ≡ true)

  transfer-IsSound :
      (i r : ℕ) (live : List ℕ)
      → IsSound live
      → testbit (transfer (node_at g i) live) r ≡ true
      → LivePath g r i × (testbit tracked r ≡ true)
  transfer-IsSound i r live s t =
      let parts = testbit-transfer (node_at g i) live r in
      elim (Bool-cases (testbit (node_at g i).uses r)) [
        | inl u ↦ (reads i u, ground arith)
        | inr u ↦
            let (j, o, b) = live_after-Occurs live (node_at g i).succs r (ground arith) in
            (passes i j (ground arith) o ((s j r b).0), ground arith)
      ]

  step-IsSound : (i : ℕ) (live : List ℕ) → IsSound live → IsSound (step g i live)
  unfolding step
  step-IsSound i live s j r t =
      let at = get_or-set live i j (transfer (node_at g i) live) 0 in
      elim (Bool-cases (node_at g i).skip) [
        | inl e ↦ s j r (ground arith)
        | inr e ↦ elim (Bool-cases (i == j && ltb j (length live))) [
          | inl here ↦
              let ij : i ≡ j = ground arith in
              subst (λ k. LivePath g r k × (testbit tracked r ≡ true)) ij
                (transfer-IsSound i r live s (ground arith))
          | inr other ↦ s j r (ground arith)
        ]
      ]

  pass-IsSound : (k : ℕ) (live : List ℕ) → IsSound live → IsSound (pass g k live)
  unfolding pass
  pass-IsSound zero live s = s
  pass-IsSound (suc k) live s = pass-IsSound k (step g k live) (step-IsSound k live s)

  pub rounds-IsSound : (fuel : ℕ) (live : List ℕ) → IsSound live → IsSound (rounds g fuel live)
  unfolding rounds
  rounds-IsSound zero live s = s
  rounds-IsSound (suc fuel) live s = elim (Bool-cases (swept g live).changed) [
    | inl c ↦
        rw (rounds_more g fuel live c)
          (rounds-IsSound fuel (pass g (length g) live) (pass-IsSound (length g) live s))
    | inr c ↦ rw ((rounds_done g fuel live c).0) s
  ]

  -- What the first loop of bpflive_run makes sure of.
  pub record IsGraph : Type 0 where
    pub tails : (i : ℕ) → (node_at g i).skip ≡ true → node_at g i ≡ tail_node
    pub inside : (i j : ℕ) → Occurs j (node_at g i).succs → j < length g

  live_slot :
      IsGraph
      → (live : List ℕ) (i : ℕ) → Solves g live
      → (live_at live i ≡ transfer (node_at g i) live) ⊎ (node_at g i ≡ tail_node)
  live_slot ok live i solved = elim (Bool-cases (node_at g i).skip) [
    | inl e ↦ inr (ok.tails i e)
    | inr e ↦ elim (Bool-cases (ltb i (length g))) [
      | inl lt ↦ inl (solved i (ltb→lt i (length g) lt) e)
      | inr ge ↦ inr (get_or_out g i tail_node (ground arith))
    ]
  ]

  -- Every path to a read sets its bit, for the registers that are tracked.
  pub LivePath-live :
      (live : List ℕ) (r i : ℕ)
      → IsGraph
      → Solves g live
      → testbit tracked r ≡ true
      → LivePath g r i
      → testbit (live_at live i) r ≡ true
  LivePath-live live r i ok solved low (reads _ u) = elim (live_slot ok live i solved) [
    | inl e ↦ rw e (ground (arith, testbit-transfer (node_at g i) live r))
    | inr e ↦
        absurd (false≢true (sym (testbit-zero r) ∙ (subst (λ x. testbit x.uses r ≡ true) e u)))
  ]
  LivePath-live live r i ok solved low (passes _ j d o p) = elim (live_slot ok live i solved) [
    | inl e ↦
        let after =
          Occurs-live_after live (node_at g i).succs r j o
            (LivePath-live live r j ok solved low p) in
        rw e (ground (arith, testbit-transfer (node_at g i) live r))
    | inr e ↦ absurd (subst (λ x. Occurs j x.succs) e o)
  ]
