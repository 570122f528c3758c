-- ===== src/Subs/Log/Counts.antt =====
-- bpfsubs_compare_log: how its counters relate, and what they count.
use verifierloop.Base.{
  starts, ℕ, ◌+◌, ◌≤◌, ◌≡◌, ◌↔◌, Bool, true, false, ◌&&◌, not, List, [], ◌∷◌, length,
}
use verifierloop.Base.{Option, none, some, ltb, ◌==◌, arith, Bool-cases, inl, inr, refl, ◌||◌}
use verifierloop.Subs.Eval.{Reg, Verdict, agree, unmodelled, broken, eval, Evaluated}
use verifierloop.Subs.Log.{Scanner, Totals, Walk, Row, Pfx, First, max_line, pfx_word, row_word}
use verifierloop.Subs.Log.{
  add_verdict, add_counts, close_pair, close_open, turn_pair, put_reg, take_row,
}
use verifierloop.Subs.Log.{
  take_pfx, take_line, walk, lines, start_walk, no_totals, compare_log, first_of,
}
use verifierloop.Subs.Log.Closed.{Adds, closed}
use verifierloop.Subs.Log.Steps.{compare_log-Adds}

-- Every closed pair has one verdict; the first disagreement is kept exactly if there is one; no
-- more pairs are nontrivial than agree.
pub record IsBalanced (s : Totals) : Type 0 where
  pub verdicts : s.pairs ≡ s.agreed + s.disagree + s.unmodelled
  pub reported : (s.first ≡ none) ↔ (s.disagree ≡ 0)
  pub useful : s.nontrivial ≤ s.agreed

first_of-some : (f : Option First) (g : First) → (first_of f g ≡ none) → ⊥
first_of-some none g e = cc
first_of-some (some f) g e = cc

add_verdict-IsBalanced :
    (insn exact : ℕ) (e : Evaluated) (v : Verdict) (s : Totals)
    → IsBalanced s
    → IsBalanced (add_verdict insn exact e.progress.ran v (add_counts s e.progress))
unfolding add_verdict
add_verdict-IsBalanced insn exact e (broken a) s b = record {
  verdicts = omega (arith, b.verdicts);
  reported = (λ h. absurd (first_of-some s.first _ h), λ h. absurd (omega (arith, h)));
  useful = b.useful;
}
add_verdict-IsBalanced insn exact e unmodelled s b = record {
  verdicts = omega (arith, b.verdicts);
  reported = b.reported;
  useful = b.useful;
}
add_verdict-IsBalanced insn exact e agree s b = record {
  verdicts = omega (arith, b.verdicts);
  reported = b.reported;
  useful = ground (arith, b.useful);
}

close_open-IsBalanced : (w : Walk) → IsBalanced w.totals → IsBalanced (close_open w)
unfolding close_open close_pair
close_open-IsBalanced w b = elim (Bool-cases w.open_pair) [
  | inl e ↦ rw e (
      add_verdict-IsBalanced w.insn w.exact (eval w.old w.cur w.exact)
        (eval w.old w.cur w.exact).verdict w.totals b)
  | inr e ↦ rw e b
]

put_reg-totals : (x : Reg) (is_old : Bool) (w : Walk) → (put_reg x is_old w).totals ≡ w.totals
unfolding put_reg
put_reg-totals x true w = refl
put_reg-totals x false w = refl

take_pfx-totals : (p : Option Pfx) (w : Walk) → (take_pfx p w).totals ≡ w.totals
unfolding take_pfx
take_pfx-totals none w = refl
take_pfx-totals (some p) w = refl

turn_pair-IsBalanced :
    (r : Row) (is_old : Bool) (w : Walk)
    → IsBalanced w.totals
    → IsBalanced (turn_pair r is_old w).totals
unfolding turn_pair
turn_pair-IsBalanced r is_old w b =
    elim (Bool-cases (is_old && (not w.open_pair || not w.prev_old))) [
      | inl e ↦ rw e (close_open-IsBalanced w b)
      | inr e ↦ rw e b
    ]

take_row-IsBalanced :
    (r : Option Row) (w : Walk) → IsBalanced w.totals → IsBalanced (take_row r w).totals
unfolding take_row
take_row-IsBalanced none w b = record {
  verdicts = b.verdicts;
  reported = b.reported;
  useful = b.useful;
}
take_row-IsBalanced (some r) w b =
    rw (put_reg-totals _ (r.side == b'o') _) (turn_pair-IsBalanced r (r.side == b'o') _ b)

take_line-IsBalanced :
    (sc : Scanner) (l : List ℕ) (w : Walk)
    → IsBalanced w.totals
    → IsBalanced (take_line sc l w).totals
unfolding take_line
take_line-IsBalanced sc l w b = elim (Bool-cases (ltb (length l) max_line)) [
  | inr e ↦ rw e b
  | inl e ↦ elim (Bool-cases (starts pfx_word l)) [
    | inl p ↦ rw (e, p, take_pfx-totals (sc.scan_pfx l) w) b
    | inr p ↦ elim (Bool-cases (starts row_word l)) [
      | inl q ↦
          rw (e, p, q)
            (take_row-IsBalanced (sc.scan_row l) _
              (record { verdicts = b.verdicts; reported = b.reported; useful = b.useful }))
      | inr q ↦ rw (e, p, q) b
    ]
  ]
]

walk-IsBalanced :
    (sc : Scanner) (ls : List (List ℕ)) (w : Walk)
    → IsBalanced w.totals
    → IsBalanced (walk sc ls w).totals
unfolding walk
walk-IsBalanced sc [] w b = b
walk-IsBalanced sc (l ∷ ls) w b =
    walk-IsBalanced sc ls (take_line sc l w) (take_line-IsBalanced sc l w b)

-- On every log: the counters are those of the pairs that its lines close, in order: `pairs` is their
-- number; `agreed`, `disagree` and `unmodelled` count those with each verdict, and sum up to `pairs`;
-- `nontrivial` counts those that agree after a comparison was run; and the counters of comparisons are
-- sums over them. What is reported is the first pair that disagrees, and nothing exactly if none does.
pub compare_log-IsBalanced :
    (sc : Scanner) (log : List ℕ)
    → IsBalanced (compare_log sc log)
      × Adds (closed sc (lines log) start_walk) no_totals (compare_log sc log)
unfolding compare_log
compare_log-IsBalanced sc log = (
  close_open-IsBalanced (walk sc (lines log) start_walk) (
      walk-IsBalanced sc (lines log) start_walk
        (record { verdicts = refl; reported = (λ e. refl, λ e. refl); useful = omega arith })),
  compare_log-Adds sc log,
)
