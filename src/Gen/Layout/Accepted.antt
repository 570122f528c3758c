-- ===== src/Gen/Layout/Accepted.antt =====
-- The analysis accepts a program that is laid out well, and its encoding is that of the ISA.
use verifierloop.Base.{
  ℕ, suc, ◌+◌, ◌≤◌, ◌<◌, ◌≡◌, Bool, true, false, ◌&&◌, ◌||◌, List, [], ◌∷◌, length,
}
use verifierloop.Base.{replicate, ◌==◌, ltb, arith, refl, sym, Bool-cases, inl, inr}
use verifierloop.Insn.{Insn, ld_imm64}
use verifierloop.Live
use verifierloop.Live.{
  Kfunc, Node, Scan, nodes, scan, solve, analysed, max_insn, tail_node, cons_node, node_or_refuse,
  usedef, succ, rounds, guard_limit,
}
use verifierloop.Gate.{encoded}
use verifierloop.Gen.Coding.{coded}
use verifierloop.Gen.Layout.{AllAt, At}

-- `slot` is false at the start, and no two slots stand side by side.
pub record IsSlots (slot : ℕ → Bool) : Type 0 where
  pub first : slot 0 ≡ false
  pub apart : (i : ℕ) → slot i ≡ true → slot (suc i) ≡ false

module _ (slot : ℕ → Bool) (slots : IsSlots slot) (ks : List Kfunc) (last n : ℕ)
    (lt : last < n) where
  scan-slot :
      (i : ℕ) (x : Insn) (xs : List Insn)
      → suc i + length xs ≡ n
      → (x.code == ld_imm64) ≡ slot (suc i)
      → scan ks n (i + 1) (x.code == ld_imm64 && ltb (i + 1) n) xs
        ≡ scan ks n (suc i) (slot (suc i)) xs
  unfolding scan
  scan-slot i x [] e s = refl
  scan-slot i x (y ∷ xs) e s =
      let inside : ltb (i + 1) n ≡ true = ground arith in
      let index : i + 1 ≡ suc i = omega arith in
      let flag : (x.code == ld_imm64 && ltb (i + 1) n) ≡ slot (suc i) = ground arith in
      rw (flag, index) refl

  scan_accepts :
      (i : ℕ) (xs : List Insn)
      → i + length xs ≡ n
      → AllAt (At slot ks last) i xs
      → (g : List Node) × (scan ks n i (slot i) xs ≡ nodes g)
  unfolding scan
  scan_accepts i [] e h = ([], refl)
  scan_accepts i (x ∷ xs) e (at, h) = elim (Bool-cases (slot i)) [
    | inl s ↦
        let (g, r) = scan_accepts (suc i) xs (omega arith) h in
        let r' : scan ks n (suc i) false xs ≡ nodes g = rw (slots.apart i s) at r in
        let index : i + 1 ≡ suc i = omega arith in (tail_node ∷ g, rw (s, index, r') refl)
    | inr s ↦
        let (g, r) = scan_accepts (suc i) xs (omega arith) h in
        let good = at.good s in
        let (m, known) = good.known in
        let (ss, flow) = good.flow n lt in
        (
          record { uses = m.uses; defs = m.defs; succs = ss; skip = false } ∷ g,
          rw (s, known, flow, scan-slot i x xs (omega arith) (at.next s), r) refl,
        )
  ]

  encoded_accepts :
      (i : ℕ) (xs : List Insn) → AllAt (At slot ks last) i xs → encoded (slot i) xs ≡ true
  encoded_accepts i [] h = refl
  encoded_accepts i (x ∷ xs) (at, h) = elim (Bool-cases (slot i)) [
    | inl s ↦
        let rest : encoded false xs ≡ true =
          rw (slots.apart i s) at (encoded_accepts (suc i) xs h) in
        let blank : (x.code == 0) ≡ true = let z = at.blank s in ground arith in
        rw (s, blank, rest) refl
    | inr s ↦
        let rest : encoded (x.code == ld_imm64) xs ≡ true =
          rw (sym (at.next s)) at (encoded_accepts (suc i) xs h) in
        rw (s, (at.good s).encoding, rest) refl
  ]

  coded_accepts : (i : ℕ) (xs : List Insn) → AllAt (At slot ks last) i xs → coded (slot i) xs ≡ true
  coded_accepts i [] h = refl
  coded_accepts i (x ∷ xs) (at, h) = elim (Bool-cases (slot i)) [
    | inl s ↦
        let rest : coded false xs ≡ true = rw (slots.apart i s) at (coded_accepts (suc i) xs h) in
        rw (s, rest) refl
    | inr s ↦
        let rest : coded (x.code == ld_imm64) xs ≡ true =
          rw (sym (at.next s)) at (coded_accepts (suc i) xs h) in
        rw (s, (at.good s).coding, rest) refl
  ]

-- A program of at most 8192 instructions that is laid out well, up to its end.
pub accepted :
    (slot : ℕ → Bool) (ks : List Kfunc) (last : ℕ) (ins : List Insn)
    → IsSlots slot
    → AllAt (At slot ks last) 0 ins
    → last < length ins
    → length ins ≤ max_insn
    → ((live : List ℕ) × (Live.run ks ins ≡ analysed live))
      × (encoded false ins ≡ true)
      × (coded false ins ≡ true)
unfolding Live.run solve
accepted slot ks last ins slots h lt small =
    let (g, r) = scan_accepts slot slots ks last (length ins) lt 0 ins (omega arith) h in
    let r' : scan ks (length ins) 0 false ins ≡ nodes g = rw slots.first at r in
    let fits : (length ins == 0 || ltb max_insn (length ins)) ≡ false = ground arith in
    let code : encoded false ins ≡ true =
      rw slots.first at (encoded_accepts slot slots ks last (length ins) lt 0 ins h) in
    let coding : coded false ins ≡ true =
      rw slots.first at (coded_accepts slot slots ks last (length ins) lt 0 ins h) in
    ((rounds g guard_limit (replicate (length g) 0), rw (fits, r') refl), code, coding)
