-- ===== src/Subs/Log/Steps.antt =====
-- bpfsubs_compare_log: each of its steps adds the pair that it closes.
use verifierloop.Base.{
  starts, ℕ, ◌≡◌, Bool, true, false, ◌&&◌, not, List, [], ◌∷◌, length, Option, none, some, ltb,
  ◌==◌,
}
use verifierloop.Base.{arith, Bool-cases, inl, inr, refl, sym}
use verifierloop.Base.First.{or_first, or_first-none}
use verifierloop.Subs.Eval.{Reg, Verdict, agree, broken}
use verifierloop.Subs.Log.{
  Scanner, Totals, Walk, Row, Pfx, First, max_line, pfx_word, row_word, add_verdict, close_pair,
  close_open, turn_pair, put_reg, take_row, take_pfx, take_line, walk, lines, start_walk, no_totals,
  compare_log, first_of, row_reg, count_row, refuse_row,
}
use verifierloop.Subs.Log.Closed.{
  Pair, pair_of, pair_if, is_old_row, ends_pair, closed, verdict_of, Adds, Adds-nil, Adds-append,
}

first_of-or_first : (f : Option First) (g : First) → first_of f g ≡ or_first f (some g)
first_of-or_first none g = refl
first_of-or_first (some f) g = refl

close_pair-Adds : (w : Walk) → Adds (pair_of w ∷ []) w.totals (close_pair w)
unfolding close_pair add_verdict
close_pair-Adds w = with_verdict (verdict_of (pair_of w)) refl
  where
    with_verdict :
        (v : Verdict) → verdict_of (pair_of w) ≡ v → Adds (pair_of w ∷ []) w.totals (close_pair w)
    with_verdict (broken a) e = record {
      pairs = rw e (omega arith);
      agreed = rw e (omega arith);
      disagree = rw e (omega arith);
      unmodelled = rw e (omega arith);
      nontrivial = rw e (omega arith);
      scalar_cmp = rw e (omega arith);
      ptr_cmp = rw e (omega arith);
      shortcircuit = rw e (omega arith);
      first = rw e (first_of-or_first w.totals.first _);
    }
    with_verdict Verdict.unmodelled e = record {
      pairs = rw e (omega arith);
      agreed = rw e (omega arith);
      disagree = rw e (omega arith);
      unmodelled = rw e (omega arith);
      nontrivial = rw e (omega arith);
      scalar_cmp = rw e (omega arith);
      ptr_cmp = rw e (omega arith);
      shortcircuit = rw e (omega arith);
      first = rw e (sym (or_first-none w.totals.first));
    }
    with_verdict agree e = record {
      pairs = rw e (omega arith);
      agreed = rw e (omega arith);
      disagree = rw e (omega arith);
      unmodelled = rw e (omega arith);
      nontrivial = rw e (omega arith);
      scalar_cmp = rw e (omega arith);
      ptr_cmp = rw e (omega arith);
      shortcircuit = rw e (omega arith);
      first = rw e (sym (or_first-none w.totals.first));
    }

close_open-Adds : (w : Walk) → Adds (pair_if w.open_pair w) w.totals (close_open w)
unfolding close_open
close_open-Adds w = elim (Bool-cases w.open_pair) [
  | inl e ↦ rw e (close_pair-Adds w)
  | inr e ↦ rw e (Adds-nil w.totals)
]

turn_pair-Adds :
    (r : Row) (is_old : Bool) (w : Walk)
    → Adds
        (pair_if (is_old && (w.open_pair && not w.prev_old)) w)
        w.totals
        (turn_pair r is_old w).totals
unfolding turn_pair close_open
turn_pair-Adds r false w = Adds-nil w.totals
turn_pair-Adds r true w = elim (Bool-cases w.open_pair) [
  | inr e ↦ rw e (Adds-nil w.totals)
  | inl e ↦ elim (Bool-cases w.prev_old) [
    | inl p ↦ rw (e, p) (Adds-nil w.totals)
    | inr p ↦ rw (e, p) (close_pair-Adds w)
  ]
]

put_reg-Adds :
    (x : Reg) (is_old : Bool) (w : Walk) (ps : List Pair) (s : Totals)
    → Adds ps s w.totals
    → Adds ps s (put_reg x is_old w).totals
unfolding put_reg
put_reg-Adds x true w ps s h = h
put_reg-Adds x false w ps s h = h

-- Counters that no pair changes.
count_row-Adds : (s : Totals) → Adds [] s (count_row s)
count_row-Adds s =
    let h = Adds-nil s in
    record {
      pairs = h.pairs;
      agreed = h.agreed;
      disagree = h.disagree;
      unmodelled = h.unmodelled;
      nontrivial = h.nontrivial;
      scalar_cmp = h.scalar_cmp;
      ptr_cmp = h.ptr_cmp;
      shortcircuit = h.shortcircuit;
      first = h.first;
    }

refuse_row-Adds : (s : Totals) → Adds [] s (refuse_row s)
refuse_row-Adds s =
    let h = Adds-nil s in
    record {
      pairs = h.pairs;
      agreed = h.agreed;
      disagree = h.disagree;
      unmodelled = h.unmodelled;
      nontrivial = h.nontrivial;
      scalar_cmp = h.scalar_cmp;
      ptr_cmp = h.ptr_cmp;
      shortcircuit = h.shortcircuit;
      first = h.first;
    }

take_row-Adds :
    (o : Option Row) (w : Walk)
    → Adds
        (pair_if (is_old_row o && (w.open_pair && not w.prev_old)) w)
        w.totals
        (take_row o w).totals
unfolding take_row
take_row-Adds none w = refuse_row-Adds w.totals
take_row-Adds (some r) w =
    put_reg-Adds (row_reg r w.pend) (r.side == b'o') _ _ w.totals
      (turn_pair-Adds r (r.side == b'o') (record w { pend = none }))

take_pfx-Adds : (p : Option Pfx) (w : Walk) → Adds [] w.totals (take_pfx p w).totals
unfolding take_pfx
take_pfx-Adds none w = Adds-nil w.totals
take_pfx-Adds (some p) w = Adds-nil w.totals

take_line-Adds :
    (sc : Scanner) (l : List ℕ) (w : Walk)
    → Adds (pair_if (ends_pair sc l w) w) w.totals (take_line sc l w).totals
unfolding take_line
take_line-Adds sc l w = elim (Bool-cases (ltb (length l) max_line)) [
  | inr e ↦ rw e (Adds-nil w.totals)
  | inl e ↦ elim (Bool-cases (starts pfx_word l)) [
    | inl p ↦ rw (e, p) (take_pfx-Adds (sc.scan_pfx l) w)
    | inr p ↦ elim (Bool-cases (starts row_word l)) [
      | inr q ↦ rw (e, p, q) (Adds-nil w.totals)
      | inl q ↦
          let counted = record w { totals = count_row w.totals } in
          rw (e, p, q)
            (Adds-append [] _ w.totals _ _ (count_row-Adds w.totals)
              (take_row-Adds (sc.scan_row l) counted))
    ]
  ]
]

walk-Adds :
    (sc : Scanner) (ls : List (List ℕ)) (w : Walk)
    → Adds (closed sc ls w) w.totals (close_open (walk sc ls w))
unfolding walk
walk-Adds sc [] w = close_open-Adds w
walk-Adds sc (l ∷ ls) w =
    Adds-append (pair_if (ends_pair sc l w) w) (closed sc ls (take_line sc l w)) w.totals _ _
      (take_line-Adds sc l w) (walk-Adds sc ls (take_line sc l w))

pub compare_log-Adds :
    (sc : Scanner) (log : List ℕ)
    → Adds (closed sc (lines log) start_walk) no_totals (compare_log sc log)
unfolding compare_log
compare_log-Adds sc log = walk-Adds sc (lines log) start_walk
