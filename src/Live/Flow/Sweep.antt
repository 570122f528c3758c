-- ===== src/Live/Flow/Sweep.antt =====
-- One sweep of bpflive_run as a function on the masks alone, without the flag `changed`.
use verifierloop.Base.{ℕ, zero, suc, ◌≤◌, ◌<◌, ◌≡◌, refl, sym, ap, ◌∙◌, ◌≢◌, inl, inr, arith}
use verifierloop.Base.{false, true, List, length, set, if◌then◌else◌, ◌==◌, ==_iff}
use verifierloop.Base.{Bool-cases, length-set, get_or-set, set-get_or, get_or_ext}
use verifierloop.Live.Flow.{Node, node_at, live_at, transfer, Pass, visit, sweep, rounds}

unfoldable pub step : List Node → ℕ → List ℕ → List ℕ
step g i live = if (node_at g i).skip then live else set live i (transfer (node_at g i) live)

unfoldable pub pass : List Node → ℕ → List ℕ → List ℕ
pass g zero live = live
pass g (suc i) live = pass g i (step g i live)

module _ (g : List Node) where
  visit-live : (i : ℕ) (p : Pass) → (visit g i p).live ≡ step g i p.live
  unfolding visit step
  visit-live i p = elim (Bool-cases (node_at g i).skip) [
    | inl e ↦ rw e
    | inr e ↦
        let same = set-get_or p.live i 0 in
        let test = ==_iff (transfer (node_at g i) p.live) (live_at p.live i) in ground arith
  ]

  visit-changed :
      (i : ℕ) (p : Pass)
      → (visit g i p).changed ≡ false
      → (p.changed ≡ false) × ((visit g i p).live ≡ p.live)
  unfolding visit
  visit-changed i p h = ground arith

  pub sweep-live : (k : ℕ) (p : Pass) → (sweep g k p).live ≡ pass g k p.live
  unfolding sweep pass
  sweep-live zero p = refl
  sweep-live (suc k) p = sweep-live k (visit g k p) ∙ ap (pass g k) (visit-live k p)

  -- A sweep that reports no change made none.
  pub sweep-changed :
      (k : ℕ) (p : Pass)
      → (sweep g k p).changed ≡ false
      → (p.changed ≡ false) × ((sweep g k p).live ≡ p.live)
  unfolding sweep
  sweep-changed zero p h = (h, refl)
  sweep-changed (suc k) p h =
      let later = sweep-changed k (visit g k p) h in
      let now = visit-changed k p later.0 in (now.0, later.1 ∙ now.1)

  pub length-step : (i : ℕ) (live : List ℕ) → length (step g i live) ≡ length live
  unfolding step
  length-step i live = ground (arith, length-set live i (transfer (node_at g i) live))

  pub length-pass : (k : ℕ) (live : List ℕ) → length (pass g k live) ≡ length live
  unfolding pass
  length-pass zero live = refl
  length-pass (suc k) live = length-pass k (step g k live) ∙ length-step k live

  step_ne : (i j : ℕ) (live : List ℕ) → i ≢ j → live_at (step g i live) j ≡ live_at live j
  unfolding step
  step_ne i j live ne = ground (arith, get_or-set live i j (transfer (node_at g i) live) 0)

  pass_above : (k j : ℕ) (live : List ℕ) → k ≤ j → live_at (pass g k live) j ≡ live_at live j
  unfolding pass
  pass_above zero j live h = refl
  pass_above (suc k) j live h =
      pass_above k j (step g k live) (omega arith) ∙ step_ne k j live (omega arith)

  step-eq_self :
      (k : ℕ) (live : List ℕ) → live_at (step g k live) k ≡ live_at live k → step g k live ≡ live
  step-eq_self k live e = get_or_ext 0 (step g k live) live (length-step k live) λ j.
      elim (Bool-cases (k == j)) [
        | inl p ↦ rw (← (==_iff k j).0 p) e
        | inr p ↦ step_ne k j live (ground arith)
      ]

  -- If a sweep gives its own argument back, so did each of its steps.
  pub pass_fixed : (k i : ℕ) (live : List ℕ) → pass g k live ≡ live → i < k → step g i live ≡ live
  unfolding pass
  pass_fixed zero i live e h = absurd (omega arith)
  pass_fixed (suc k) i live e h =
      let top : step g k live ≡ live =
        step-eq_self k live
          (sym (pass_above k k (step g k live) (omega arith)) ∙ ap (λ l. live_at l k) e) in
      elim (Bool-cases (i == k)) [
        | inl p ↦ rw ((==_iff i k).0 p) top
        | inr p ↦ pass_fixed k i live (rw top at e) (ground arith)
      ]

  pub step-eq-transfer :
      (i : ℕ) (live : List ℕ)
      → step g i live ≡ live
      → i < length live
      → (node_at g i).skip ≡ false
      → live_at live i ≡ transfer (node_at g i) live
  unfolding step
  step-eq-transfer i live e h s =
      let at = get_or-set live i i (transfer (node_at g i) live) 0 in
      let e' : set live i (transfer (node_at g i) live) ≡ live = rw s at e in
      sym (ap (λ l. live_at l i) e') ∙ ground arith

  abbrev pub swept : List ℕ → Pass
  swept live = sweep g (length g) (record { live = live; changed = false })

  pub rounds_more :
      (fuel : ℕ) (live : List ℕ)
      → (swept live).changed ≡ true
      → rounds g (suc fuel) live ≡ rounds g fuel (pass g (length g) live)
  unfolding rounds
  rounds_more fuel live c =
      rw (c, rounds)
        (ap (rounds g fuel) (sweep-live (length g) (record { live = live; changed = false })))

  -- When a sweep changes nothing, the masks stay and a further sweep gives them back.
  pub rounds_done :
      (fuel : ℕ) (live : List ℕ)
      → (swept live).changed ≡ false
      → (rounds g (suc fuel) live ≡ live) × (pass g (length g) live ≡ live)
  unfolding rounds
  rounds_done fuel live c =
      let p : Pass = record { live = live; changed = false } in
      let same : (swept live).live ≡ live = (sweep-changed (length g) p c).1 in
      (rw (c, rounds) same, sym (sweep-live (length g) p) ∙ same)
