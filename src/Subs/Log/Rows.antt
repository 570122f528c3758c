-- ===== src/Subs/Log/Rows.antt =====
-- bpfsubs_compare_log: what `rows` and `unsupported` count.
use verifierloop.Base.{
  starts, ℕ, ◌+◌, ◌≡◌, Bool, true, false, ◌&&◌, ◌||◌, not, List, [], ◌∷◌, length,
}
use verifierloop.Base.{Option, none, some, ltb, ◌==◌, arith, Bool-cases, inl, inr, refl}
use verifierloop.Subs.Eval.{Reg, Verdict, agree, unmodelled, broken, eval}
use verifierloop.Subs.Log.{Scanner, Totals, Walk, Row, Pfx, max_line, pfx_word, row_word, flag}
use verifierloop.Subs.Log.{
  add_verdict, add_counts, close_pair, close_open, turn_pair, put_reg, take_row,
}
use verifierloop.Subs.Log.{take_pfx, take_line, walk, lines, start_walk, compare_log, row_reg}

-- A line that is read as a PRUNEPAIR row.
abbrev pub is_row : List ℕ → Bool
is_row l = ltb (length l) max_line && not (starts pfx_word l) && starts row_word l

abbrev is_none : Option Row → Bool
is_none none = true
is_none (some r) = false

-- Such a line that sscanf does not read in full.
abbrev pub is_refused : Scanner → List ℕ → Bool
is_refused sc l = is_row l && is_none (sc.scan_row l)

-- The number of the lines that pass a test.
abbrev pub tally : (List ℕ → Bool) → List (List ℕ) → ℕ
tally t [] = 0
tally t (l ∷ ls) = flag (t l) + tally t ls

-- Both counters of two totals are the same.
abbrev SameRows : Totals → Totals → Type 0
SameRows s s' = (s.rows ≡ s'.rows) × (s.unsupported ≡ s'.unsupported)

close_open-SameRows : (w : Walk) → SameRows (close_open w) w.totals
unfolding close_open close_pair add_verdict
close_open-SameRows w = elim (Bool-cases w.open_pair) [
  | inr e ↦ rw e (refl, refl)
  | inl e ↦ rw e (added (eval w.old w.cur w.exact).verdict)
]
  where
    added :
        (v : Verdict)
        → SameRows
            (add_verdict w.insn w.exact
              (eval w.old w.cur w.exact).progress.ran
              v
              (add_counts w.totals (eval w.old w.cur w.exact).progress))
            w.totals
    added (broken a) = (refl, refl)
    added unmodelled = (refl, refl)
    added agree = (refl, refl)

turn_pair-SameRows :
    (r : Row) (is_old : Bool) (w : Walk) → SameRows (turn_pair r is_old w).totals w.totals
unfolding turn_pair
turn_pair-SameRows r is_old w = elim (Bool-cases (is_old && (not w.open_pair || not w.prev_old))) [
  | inl e ↦ rw e (close_open-SameRows w)
  | inr e ↦ rw e (refl, refl)
]

put_reg-SameRows : (x : Reg) (is_old : Bool) (w : Walk) → (put_reg x is_old w).totals ≡ w.totals
unfolding put_reg
put_reg-SameRows x true w = refl
put_reg-SameRows x false w = refl

take_row-rows :
    (r : Option Row) (w : Walk)
    → ((take_row r w).totals.rows ≡ w.totals.rows)
      × ((take_row r w).totals.unsupported ≡ w.totals.unsupported + flag (is_none r))
unfolding take_row
take_row-rows none w = (refl, refl)
take_row-rows (some r) w =
    let turned = turn_pair-SameRows r (r.side == b'o') (record w { pend = none }) in
    let put =
      put_reg-SameRows (row_reg r w.pend) (r.side == b'o')
        (turn_pair r (r.side == b'o') (record w { pend = none })) in
    (rw put turned.0, rw put (omega (arith, turned.1)))

take_pfx-SameRows : (p : Option Pfx) (w : Walk) → SameRows (take_pfx p w).totals w.totals
unfolding take_pfx
take_pfx-SameRows none w = (refl, refl)
take_pfx-SameRows (some p) w = (refl, refl)

take_line-rows :
    (sc : Scanner) (l : List ℕ) (w : Walk)
    → ((take_line sc l w).totals.rows ≡ w.totals.rows + flag (is_row l))
      × ((take_line sc l w).totals.unsupported ≡ w.totals.unsupported + flag (is_refused sc l))
unfolding take_line
take_line-rows sc l w = elim (Bool-cases (ltb (length l) max_line)) [
  | inr e ↦ rw e (omega arith, omega arith)
  | inl e ↦ elim (Bool-cases (starts pfx_word l)) [
    | inl p ↦
        let same = take_pfx-SameRows (sc.scan_pfx l) w in
        rw (e, p) (omega (arith, same.0), omega (arith, same.1))
    | inr p ↦ elim (Bool-cases (starts row_word l)) [
      | inr q ↦ rw (e, p, q) (omega arith, omega arith)
      | inl q ↦
          let t =
            take_row-rows (sc.scan_row l)
              (record w { totals = record (w.totals) { rows = w.totals.rows + 1 } }) in
          rw (e, p, q) (omega (arith, t.0), omega (arith, t.1))
    ]
  ]
]

walk-rows :
    (sc : Scanner) (ls : List (List ℕ)) (w : Walk)
    → ((walk sc ls w).totals.rows ≡ w.totals.rows + tally is_row ls)
      × ((walk sc ls w).totals.unsupported ≡ w.totals.unsupported + tally (is_refused sc) ls)
unfolding walk
walk-rows sc [] w = (omega arith, omega arith)
walk-rows sc (l ∷ ls) w =
    let first = take_line-rows sc l w in
    let rest = walk-rows sc ls (take_line sc l w) in
    (omega (arith, first.0, rest.0), omega (arith, first.1, rest.1))

-- On every log: `rows` is the number of the lines below 512 bytes that start with the words of a
-- PRUNEPAIR row, and `unsupported` the number of those of them that sscanf does not read in full.
pub compare_log-rows :
    (sc : Scanner) (log : List ℕ)
    → ((compare_log sc log).rows ≡ tally is_row (lines log))
      × ((compare_log sc log).unsupported ≡ tally (is_refused sc) (lines log))
unfolding compare_log
compare_log-rows sc log =
    let all = walk-rows sc (lines log) start_walk in
    let same = close_open-SameRows (walk sc (lines log) start_walk) in
    (omega (arith, same.0, all.0), omega (arith, same.1, all.1))
