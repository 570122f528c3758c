-- ===== src/Gate/Dead.antt =====
-- Registers that bpflive_run calls dead: a run of the interpreter does not depend on them.
use verifierloop.Base.{ℕ, zero, suc, ◌+◌, ◌≤◌, ◌<◌, ◌≡◌, refl, inl, inr, arith, ◌||◌, ◌∙◌}
use verifierloop.Base.{
  sym, ap, true, false, List, length, ltb, ◌==◌, ==_iff, Bool-cases, some, Option,
}
use verifierloop.Base.{none, Option-cases, ℤ, pos, negsuc, get_elem?, get_or_out}
use verifierloop.Base.{get_elem?_beyond, get_elem?_inside, bit_xor}
use verifierloop.Base.Bits.{testbit, testbit-bit_and, testbit-bit_xor, all_below_sound}
use mathlib.Core.Bool.{xor}
use verifierloop.Insn.{Insn, class_of}
use verifierloop.Live
use verifierloop.Live.Flow.Correct.{run-IsRun, IsRun-Solves, IsRun-IsSound}
use verifierloop.Live.{
  analysed, Masks, Kfunc, usedef, succ, tracked, node_at, live_at, Node, transfer,
}
use verifierloop.Live.Flow.Fixpoint.{Solves}
use verifierloop.Live.Flow.Order.{testbit-transfer}
use verifierloop.Live.Flow.Paths.{Occurs, IsSound, Occurs-live_after}
use verifierloop.Live.Flow.Scanned.{Scanned, Scanned-length, Scanned-Stands, Stands, slot, fits}
use verifierloop.Ref.{State, exec, exec_class, reg, stopped, returned, fetch, finish, round}
use verifierloop.Ref.{
  run_from, Outcome, val, fault, goes, exits, Next, index, unsupported, exec_ld, out_of_budget,
}
use verifierloop.Gate.Encoding.{encoded, atomic_ok, Scanned-encoded}
use verifierloop.Gate.Follows.{AgreeOn, Follows, Kept}
use verifierloop.Gate.Exec.{exec-Follows}
use verifierloop.Gate.Control.{exec-Occurs}

tracked_below : (k : ℕ) → k < 10 → testbit tracked k ≡ true
tracked_below k h = all_below_sound 10 (testbit tracked) k refl h

tracked_low : (k : ℕ) → testbit tracked k ≡ true → testbit 0xffff k ≡ true
tracked_low k h = ground (arith, testbit-bit_and tracked 0xffff k)

-- Two register files that may differ in dead registers only; r10 is the frame pointer.
pub record Agree (live : ℕ) (r r' : List ℕ) : Type 0 where
  pub size : length r ≡ 11
  pub size' : length r' ≡ 11
  pub alive : AgreeOn live r r'
  pub frame : reg r 10 ≡ reg r' 10

module _ (ks : List Kfunc) (ins : List Insn) (live : List ℕ) (g : List Node)
    (scanned : Scanned ks (length ins) 0 false ins g) (solved : Solves g live)
    (sound : IsSound g live) (enc : encoded false ins ≡ true) where
  module _ (i : ℕ) (inside : i < length ins) (m : Masks) (ss : List ℕ)
      (at : node_at g i ≡ record { uses = m.uses; defs = m.defs; succs = ss; skip = false }) where
    bits : (k : ℕ) → testbit (live_at live i) k ≡ testbit (transfer (node_at g i) live) k
    bits k =
        ap (λ w. testbit w k)
          (solved i (omega (arith, Scanned-length scanned)) (ap (λ (y : Node). y.skip) at))

    uses_live :
        (k : ℕ)
        → testbit tracked k ≡ true
        → testbit m.uses k ≡ true
        → testbit (live_at live i) k ≡ true
    uses_live k low u =
        let u' : testbit (node_at g i).uses k ≡ true = rw at u in
        ground (arith, bits k, testbit-transfer (node_at g i) live k)

    after_live :
        (j k : ℕ)
        → Occurs j ss
        → testbit (live_at live j) k ≡ true
        → testbit m.defs k ≡ false
        → testbit (live_at live i) k ≡ true
    after_live j k o b undefined_ =
        let low : testbit tracked k ≡ true = (sound j k b).1 in
        let after = Occurs-live_after live (node_at g i).succs k j (rw at o) b in
        let through : testbit (bit_xor (node_at g i).defs 0xffff) k ≡ true =
          rw at
            (unfold xor in ground (arith, testbit-bit_xor m.defs 0xffff k, tracked_low k low)) in
        ground (arith, bits k, testbit-transfer (node_at g i) live k)

    uses-Agree : (r r' : List ℕ) → Agree (live_at live i) r r' → AgreeOn m.uses r r'
    uses-Agree r r' a k u = elim (Bool-cases (ltb k 10)) [
      | inl low ↦ a.alive k (uses_live k (tracked_below k (ground arith)) u)
      | inr high ↦ elim (Bool-cases (k == 10)) [
        | inl e ↦ rw ((==_iff k 10).0 e) a.frame
        | inr e ↦
            let above : 11 ≤ k = ground arith in
            let a_size = a.size in
            let a_size' = a.size' in
            get_or_out r k 0 (omega arith) ∙ sym (get_or_out r' k 0 (omega arith))
      ]
    ]

    next-Agree :
        (r r' t t' : List ℕ) (j : ℕ)
        → Agree (live_at live i) r r'
        → Kept m.defs r r' t t'
        → length t ≡ length r
        → length t' ≡ length r'
        → Occurs j ss
        → Agree (live_at live j) t t'
    next-Agree r r' t t' j a kept e e' o = record {
      size = e ∙ a.size;
      size' = e' ∙ a.size';
      alive = λ k b. kept k (elim (Bool-cases (testbit m.defs k)) [
        | inl d ↦ inl d
        | inr d ↦ inr (a.alive k (after_live j k o b d))
      ]);
      frame = kept 10 (inr a.frame);
    }

  -- What the theorem says for one amount of budget.
  abbrev Insensitive : ℕ → Type 0
  Insensitive fuel =
      (s : State) (r' : List ℕ) (i v : ℕ)
      → s.pc ≡ pos i
      → Agree (live_at live i) s.regs r'
      → run_from ins fuel s ≡ returned v
      → run_from ins fuel (record s { regs = r' }) ≡ returned v

  run_from-outside :
      (fuel : ℕ) (s : State) (v : ℕ) → fetch ins s.pc ≡ none → run_from ins fuel s ≡ returned v → ⊥
  unfolding run_from round
  run_from-outside zero s v e h = cc (rw (e, run_from) at h)
  run_from-outside (suc fuel) s v e h = cc (rw (e, run_from) at h)

  finish-Insensitive :
      (fuel : ℕ) (s : State) (r' : List ℕ) (i code v : ℕ) (o o' : Outcome Next) (m : Masks)
      (ss : List ℕ)
      → i < length ins
      → node_at g i ≡ record { uses = m.uses; defs = m.defs; succs = ss; skip = false }
      → Agree (live_at live i) s.regs r'
      → Insensitive fuel
      → ((t : State) (j : ℕ) → o ≡ val (goes t) → t.pc ≡ pos j → j < length ins → Occurs j ss)
      → Follows m.defs s.regs r' o o'
      → finish s.pc code o (run_from ins fuel) ≡ returned v
      → finish s.pc code o' (run_from ins fuel) ≡ returned v
  finish-Insensitive fuel s r' i code v (fault f) o' m ss lt at a rest next fo h = cc
  finish-Insensitive fuel s r' i code v (val (exits w)) o' m ss lt at a rest next fo h = rw fo h
  finish-Insensitive fuel s r' i code v (val (goes t)) o' m ss lt at a rest next fo h =
      let (u, e, kept, size', size) = fo in rw e (go t.pc refl u kept size' size)
    where
      go :
          (z : ℤ)
          → t.pc ≡ z
          → (u : List ℕ) → Kept m.defs s.regs r' t.regs u
          → length u ≡ length r'
          → length t.regs ≡ length s.regs
          → run_from ins fuel (record t { regs = u }) ≡ returned v
      go (negsuc j) e u kept size' size = absurd (run_from-outside fuel t v (rw e refl) h)
      go (pos j) e u kept size' size = elim (Bool-cases (ltb j (length ins))) [
        | inr out ↦
            absurd (
              run_from-outside fuel t v (ap (fetch ins) e ∙ get_elem?_beyond ins j (ground arith))
                h)
        | inl inside ↦
            rest t u j v e
              (next-Agree i lt m ss at s.regs r' t.regs u j a kept size size'
                (next t j refl e (ground arith)))
              h
      ]

  run_from-round :
      (fuel : ℕ) (s : State) (i : ℕ) (x : Insn)
      → s.pc ≡ pos i
      → get_elem? ins i ≡ some x
      → run_from ins (suc fuel) s ≡ finish s.pc x.code (exec ins i x s) (run_from ins fuel)
  unfolding run_from round
  run_from-round fuel s i x e at =
      ap (λ q. round ins s q (run_from ins fuel)) (ap (fetch ins) e ∙ at)
      ∙ ap (λ z. finish s.pc x.code (exec ins (index z) x s) (run_from ins fuel)) e

  -- The second slot of a LD_IMM64 does not execute.
  exec_slot : (i : ℕ) (x : Insn) (s : State) → x.code ≡ 0 → exec ins i x s ≡ fault unsupported
  unfolding exec exec_class exec_ld class_of
  exec_slot i x s e = elim (Bool-cases (ltb 10 x.dst_reg || ltb 10 x.src_reg)) [
    | inl b ↦ rw b refl
    | inr b ↦ rw (b, e) refl
  ]

  exec_small :
      (i : ℕ) (x : Insn) (s : State)
      → (ltb 10 x.dst_reg || ltb 10 x.src_reg) ≡ false
      → exec ins i x s ≡ exec_class ins (class_of x.code) i x s
  unfolding exec
  exec_small i x s b = rw b refl

  exec_big :
      (i : ℕ) (x : Insn) (s : State)
      → (ltb 10 x.dst_reg || ltb 10 x.src_reg) ≡ true
      → exec ins i x s ≡ fault unsupported
  unfolding exec
  exec_big i x s b = rw b refl

  round-Insensitive :
      (fuel : ℕ) (s : State) (r' : List ℕ) (i k v : ℕ) (x : Insn) (y : Node)
      → i < length ins
      → Stands ks (length ins) k x y
      → k ≡ i
      → node_at g i ≡ y
      → (y.skip ≡ true → x.code ≡ 0)
      → (y.skip ≡ false → atomic_ok (class_of x.code) x ≡ true)
      → Agree (live_at live i) s.regs r'
      → Insensitive fuel
      → finish s.pc x.code (exec ins i x s) (run_from ins fuel) ≡ returned v
      → finish s.pc x.code (exec ins i x (record s { regs = r' })) (run_from ins fuel) ≡ returned v
  round-Insensitive fuel s r' i k v x y lt slot ki at blank good a rest h =
      let h' : stopped unsupported s.pc x.code ≡ returned v =
        rw (exec_slot i x s (blank refl)) at h in
      cc
  round-Insensitive fuel s r' i k v x y lt (fits m ss u w) ki at blank good a rest h =
      elim (Bool-cases (ltb 10 x.dst_reg || ltb 10 x.src_reg)) [
        | inl big ↦ cc (rw (exec_big i x s big) at h)
        | inr small ↦
            let dst_small : x.dst_reg < 11 = ground arith in
            let src_small : x.src_reg < 11 = ground arith in
            rw (exec_small i x (record s { regs = r' }) small) (
              finish-Insensitive fuel s r' i x.code v (exec_class ins (class_of x.code) i x s) _ m
                ss lt at a rest
                (λ t j e e' inside.
                  exec-Occurs x s (length ins) i j ss inside ins t e e' (rw ki at w))
                (exec-Follows x s r' a.size a.size' dst_small src_small ks ins i m (good refl) u
                  (uses-Agree i lt m ss at s.regs r' a))
                (rw (exec_small i x s small) at h))
      ]

  run_from-Insensitive : (fuel : ℕ) → Insensitive fuel
  unfolding run_from
  run_from-Insensitive zero s r' i v e a h = absurd (no_budget (fetch ins s.pc) h)
    where
      no_budget : (o : Option Insn) → out_of_budget s o ≡ returned v → ⊥
      no_budget none h = cc
      no_budget (some x) h = cc
  run_from-Insensitive (suc fuel) s r' i v e a h = elim (Option-cases (get_elem? ins i)) [
    | inl out ↦ absurd (run_from-outside (suc fuel) s v (ap (fetch ins) e ∙ out) h)
    | inr (x, at) ↦
        let (blank, good) = Scanned-encoded i x scanned (omega arith) enc at in
        let inside : i < length ins = get_elem?_inside ins i x at in
        run_from-round fuel (record s { regs = r' }) i x e at
        ∙ round-Insensitive fuel s r' i (0 + i) v x (node_at g i) inside
            (Scanned-Stands i x scanned at) (omega arith) refl blank good a
            (run_from-Insensitive fuel) (sym (run_from-round fuel s i x e at) ∙ h)
  ]

-- A program that the analysis accepts, run by the interpreter from any of its instructions: if
-- the run returns a value, it returns the same value from registers that differ only where
-- `live_before` has no bit. The program is encoded as the instruction set says: the second slot
-- of each LD_IMM64 is blank, and what runs as CMPXCHG has the opcode 0xf1.
pub dead_registers :
    (ks : List Kfunc) (ins : List Insn) (live : List ℕ)
    → Live.run ks ins ≡ analysed live
    → encoded false ins ≡ true
    → (budget : ℕ) (s : State) (r' : List ℕ) (i v : ℕ) → s.pc ≡ pos i
    → Agree (live_at live i) s.regs r'
    → run_from ins budget s ≡ returned v
    → run_from ins budget (record s { regs = r' }) ≡ returned v
dead_registers ks ins live ran enc budget =
    let (g, v) = run-IsRun ks ins live ran in
    run_from-Insensitive ks ins live g v.scanned (IsRun-Solves v) (IsRun-IsSound v) enc budget
