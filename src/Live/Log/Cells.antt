-- ===== src/Live/Log/Cells.antt =====
-- bpflive_compare_log: what the cells of a row add to its counters, and the first that overreaches.
use verifierloop.Base.{ℕ, zero, suc, ◌+◌, ◌≤◌, ◌<◌, ◌≡◌, ◌≢◌, ◌↔◌, Bool, true, ◌&&◌, not}
use verifierloop.Base.{Option, none, some, ◌==◌, if◌then◌else◌, arith, refl, sym, ap, ◌∙◌}
use verifierloop.Base.{Bool-cases, inl, inr, bit_and}
use verifierloop.Base.Bits.{
  testbit, testbit-bit_and, testbit-zero, testbit_ext, testbit-two_pow_self, testbit-two_pow_ne,
  two_pow_mod,
}
use verifierloop.Base.First.{or_first, or_first-none, or_first_assoc}
use mathlib.Core.Bool.{false≢true}
use verifierloop.Live.Usedef.{bl_bit}
use verifierloop.Live.Log.{Cmp, First, cell, cells, first_of}

bit_test : (m r : ℕ) → r < 16 → (bit_and m (bl_bit r) == 0) ≡ not (testbit m r)
bit_test m r h = elim (Bool-cases (testbit m r)) [
  | inl e ↦
      let set : testbit (bit_and m (bl_bit r)) r ≡ true =
        testbit-bit_and m (bl_bit r) r ∙ rw (e, two_pow_mod r h, testbit-two_pow_self r) refl in
      let nonzero : bit_and m (bl_bit r) ≢ 0 =
        λ z. false≢true (sym (testbit-zero r) ∙ (rw z at set)) in
      rw e (ground (arith, nonzero))
  | inr e ↦
      let z : bit_and m (bl_bit r) ≡ 0 = testbit_ext _ _ (λ k. elim (Bool-cases (r == k)) [
        | inl s ↦
            let same : r ≡ k = ground arith in
            rw (testbit-bit_and m (bl_bit r) k, sym same, e) (sym (testbit-zero r))
        | inr d ↦
            let ne = testbit-two_pow_ne r k (λ q. ground arith) in
            rw (testbit-bit_and m (bl_bit r) k, two_pow_mod r h, ne)
              (ground (arith, testbit-zero k))
      ]) in
      rw (e, z) refl
]

-- The registers `r`, .., `r + k - 1` that pass a test.
abbrev pub count_regs : ℕ → ℕ → (ℕ → Bool) → ℕ
count_regs zero r t = 0
count_regs (suc k) r t = (if t r then 1 else 0) + count_regs k (suc r) t

-- Registers that the analysis calls live in a mask, and those of them that the kernel calls dead.
abbrev pub live_regs : ℕ → ℕ
live_regs ours = count_regs 10 0 (testbit ours)

abbrev pub overreached : ℕ → ℕ → ℕ
overreached ours kmask = count_regs 10 0 (λ r. testbit ours r && not (testbit kmask r))

-- The first of the registers `r`, .., `r + k - 1` that overreaches.
abbrev pub first_reg : ℕ → ℕ → ℕ → ℕ → ℕ → Option First
first_reg zero r idx kmask ours = none
first_reg (suc k) r idx kmask ours =
    if testbit ours r && not (testbit kmask r)
    then some (record { insn = idx; reg = r; kmask = kmask; omask = ours })
    else first_reg k (suc r) idx kmask ours

or_first_of : (f : Option First) (g : First) → first_of f g ≡ or_first f (some g)
or_first_of none g = refl
or_first_of (some f) g = refl

pub record Adds (t u : Cmp) (c o : ℕ) (g : Option First) : Type 0 where
  pub same_rows : u.rows ≡ t.rows
  pub more_checked : u.checked ≡ t.checked + c
  pub more_overreach : u.overreach ≡ t.overreach + o
  pub told : ((t.first ≡ none) ↔ (t.overreach ≡ 0)) → ((u.first ≡ none) ↔ (u.overreach ≡ 0))
  pub found : u.first ≡ or_first t.first g

first_of-some : (f : Option First) (g : First) → (first_of f g ≡ none) → ⊥
first_of-some none g e = cc
first_of-some (some f) g e = cc

cell-Adds :
    (idx kmask ours r : ℕ) (t : Cmp)
    → r < 16
    → Adds t
        (cell idx kmask ours r t)
        (if testbit ours r then 1 else 0)
        (if testbit ours r && not (testbit kmask r) then 1 else 0)
        (first_reg 1 r idx kmask ours)
unfolding cell
cell-Adds idx kmask ours r t h = elim (Bool-cases (testbit ours r)) [
  | inr e ↦
      rw (bit_test ours r h, e)
        (record {
          same_rows = refl;
          more_checked = omega arith;
          more_overreach = omega arith;
          told = λ p. p;
          found = sym (or_first-none t.first);
        })
  | inl e ↦ elim (Bool-cases (testbit kmask r)) [
    | inl k ↦
        rw (bit_test ours r h, bit_test kmask r h, e, k)
          (record {
            same_rows = refl;
            more_checked = omega arith;
            more_overreach = omega arith;
            told = λ p. p;
            found = sym (or_first-none t.first);
          })
    | inr k ↦
        rw (bit_test ours r h, bit_test kmask r h, e, k)
          (record {
            same_rows = refl;
            more_checked = omega arith;
            more_overreach = omega arith;
            told = λ p. (λ q. absurd (first_of-some t.first _ q), λ q. absurd (omega (arith, q)));
            found = or_first_of t.first _;
          })
  ]
]

first_reg-suc :
    (k r idx kmask ours : ℕ)
    → or_first (first_reg 1 r idx kmask ours) (first_reg k (suc r) idx kmask ours)
      ≡ first_reg (suc k) r idx kmask ours
first_reg-suc k r idx kmask ours = elim (Bool-cases (testbit ours r && not (testbit kmask r))) [
  | inl e ↦ rw e refl
  | inr e ↦ rw e refl
]

pub cells-Adds :
    (k idx kmask ours r : ℕ) (t : Cmp)
    → k + r ≤ 16
    → Adds t
        (cells k idx kmask ours r t)
        (count_regs k r (testbit ours))
        (count_regs k r (λ j. testbit ours j && not (testbit kmask j)))
        (first_reg k r idx kmask ours)
unfolding cells
cells-Adds zero idx kmask ours r t h = record {
  same_rows = refl;
  more_checked = omega arith;
  more_overreach = omega arith;
  told = λ p. p;
  found = sym (or_first-none t.first);
}
cells-Adds (suc k) idx kmask ours r t h =
    let now = cell-Adds idx kmask ours r t (omega arith) in
    let later = cells-Adds k idx kmask ours (suc r) (cell idx kmask ours r t) (omega arith) in
    record {
      same_rows = later.same_rows ∙ now.same_rows;
      more_checked = omega (arith, now.more_checked, later.more_checked);
      more_overreach = omega (arith, now.more_overreach, later.more_overreach);
      told = λ p. later.told (now.told p);
      found =
          later.found
          ∙ ap (λ f. or_first f (first_reg k (suc r) idx kmask ours)) now.found
          ∙ or_first_assoc t.first (first_reg 1 r idx kmask ours)
              (first_reg k (suc r) idx kmask ours)
          ∙ ap (or_first t.first) (first_reg-suc k r idx kmask ours);
    }
