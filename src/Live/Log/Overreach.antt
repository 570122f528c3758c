-- ===== src/Live/Log/Overreach.antt =====
-- bpflive_compare_log: what its counters count over the rows of the table.
use verifierloop.Base.{ℕ, zero, suc, ◌+◌, ◌^◌, ◌≡◌, ◌↔◌, Bool, ◌&&◌}
use verifierloop.Base.{
  List, [], ◌∷◌, length, Option, none, some, ltb, if◌then◌else◌, arith, refl, sym, ap, ◌∙◌,
}
use verifierloop.Base.{Bool-cases, inl, inr}
use verifierloop.Base.First.{or_first, or_first-none, or_first_assoc}
use verifierloop.Live.Usedef.{Kfunc}
use verifierloop.Insn.{Insn}
use verifierloop.Live.Flow
use verifierloop.Live.Flow.{live_at, analysed, unsupported}
use verifierloop.Live.Log.{
  Cmp, First, Row, cells, take_row, table, compare_log, compare_table, compare_result, find_table,
  find_heading, rows_from, parse_row, next_line, no_cmp,
}
use verifierloop.Live.Log.Cells.{live_regs, overreached, first_reg, cells-Adds}

-- The rows of the table, in order.
abbrev pub rows_onward : (List ℕ → List Row) → Option Row → List Row
rows_onward rest none = []
rows_onward rest (some r) = r ∷ next_line rest [] r.rest

unfoldable pub table_rows : ℕ → List ℕ → List Row
table_rows zero text = []
table_rows (suc fuel) text = rows_onward (table_rows fuel) (parse_row text)

abbrev pub within : ℕ → Row → Bool
within n r = ltb r.idx n && ltb r.idx (2 ^ 31)

-- The sum of a count over the rows of the program's instructions.
abbrev pub total : ℕ → (Row → ℕ) → List Row → ℕ
total n f [] = 0
total n f (r ∷ rs) = (if within n r then f r else 0) + total n f rs

-- The first cell that overreaches, over the rows of the program's instructions.
abbrev first_cell : List ℕ → ℕ → List Row → Option First
first_cell live n [] = none
first_cell live n (r ∷ rs) =
    or_first (if within n r then first_reg 10 0 r.idx r.mask (live_at live r.idx) else none)
      (first_cell live n rs)

-- The counters of `u`, from those of `t` and the rows taken between.
record Progressed (live : List ℕ) (n : ℕ) (rs : List Row) (t u : Cmp) : Type 0 where
  rows : u.rows ≡ t.rows + total n (λ r. 1) rs
  checked : u.checked ≡ t.checked + total n (λ r. live_regs (live_at live r.idx)) rs
  overreach : u.overreach ≡ t.overreach + total n (λ r. overreached (live_at live r.idx) r.mask) rs
  first : ((t.first ≡ none) ↔ (t.overreach ≡ 0)) → ((u.first ≡ none) ↔ (u.overreach ≡ 0))
  found : u.first ≡ or_first t.first (first_cell live n rs)

Progressed-nil : (live : List ℕ) (n : ℕ) (t : Cmp) → Progressed live n [] t t
Progressed-nil live n t = record {
  rows = omega arith;
  checked = omega arith;
  overreach = omega arith;
  first = λ p. p;
  found = sym (or_first-none t.first);
}

Progressed-cons :
    (live : List ℕ) (n : ℕ) (r : Row) (rs : List Row) (t u : Cmp)
    → Progressed live n rs (take_row live n r t) u
    → Progressed live n (r ∷ rs) t u
unfolding take_row
Progressed-cons live n r rs t u c = elim (Bool-cases (within n r)) [
  | inr e ↦
      let d : Progressed live n rs t u = rw e at c in
      record {
        rows = rw e (omega (arith, d.rows));
        checked = rw e (omega (arith, d.checked));
        overreach = rw e (omega (arith, d.overreach));
        first = d.first;
        found = rw e d.found;
      }
  | inl e ↦
      let start = record t { rows = t.rows + 1 } in
      let now = cells-Adds 10 r.idx r.mask (live_at live r.idx) 0 start (omega arith) in
      let d : Progressed live n rs (cells 10 r.idx r.mask (live_at live r.idx) 0 start) u =
        rw e at c in
      record {
        rows = rw e (omega (arith, d.rows, now.same_rows));
        checked = rw e (omega (arith, d.checked, now.more_checked));
        overreach = rw e (omega (arith, d.overreach, now.more_overreach));
        first = λ p. d.first (now.told p);
        found = rw e (
            d.found
            ∙ ap (λ f. or_first f (first_cell live n rs)) now.found
            ∙ or_first_assoc t.first (first_reg 10 0 r.idx r.mask (live_at live r.idx))
                (first_cell live n rs));
      }
]

table-Progressed :
    (fuel : ℕ) (live : List ℕ) (n : ℕ) (text : List ℕ) (t : Cmp)
    → Progressed live n (table_rows fuel text) t (table fuel live n text t)
unfolding table table_rows
table-Progressed zero live n text t = Progressed-nil live n t
table-Progressed (suc fuel) live n text t =
    onward (λ cs u. table-Progressed fuel live n cs u) (parse_row text)
  where
    Rest : Type 0
    Rest =
        (cs : List ℕ) (u : Cmp) → Progressed live n (table_rows fuel cs) u (table fuel live n cs u)

    line :
        Rest
        → (r : Row) (cs : List ℕ) (u : Cmp)
        → Progressed live n
            (next_line (table_rows fuel) [] cs)
            u
            (next_line (λ ds. table fuel live n ds u) u cs)
    line rest r [] u = Progressed-nil live n u
    line rest r (c ∷ cs) u = rest cs u

    onward :
        Rest
        → (o : Option Row)
        → Progressed live n
            (rows_onward (table_rows fuel) o)
            t
            (rows_from (table fuel live n) live n o t)
    onward rest none = Progressed-nil live n t
    onward rest (some r) = Progressed-cons live n r _ t _ (line rest r r.rest (take_row live n r t))

-- What the rows of a table give: the counters, and the first cell that is reported.
pub record Counted (live : List ℕ) (n : ℕ) (rs : List Row) (u : Cmp) : Type 0 where
  pub rows : u.rows ≡ total n (λ r. 1) rs
  pub checked : u.checked ≡ total n (λ r. live_regs (live_at live r.idx)) rs
  pub overreach : u.overreach ≡ total n (λ r. overreached (live_at live r.idx) r.mask) rs
  pub first : u.first ≡ first_cell live n rs

-- When bpflive_compare_log accepts: the program is one that the analysis accepts and the log has a
-- table. Over the rows of that table whose index is in the program, `rows` counts them, `checked`
-- the registers that the analysis calls live there, and `overreach` those of them that the kernel
-- calls dead. What is reported is the first of these in the order of the rows and, in a row, of the
-- registers, with its index, register and masks; nothing is reported exactly if there is none.
pub compare_log-Counted :
    (ks : List Kfunc) (ins : List Insn) (log : List ℕ) (u : Cmp)
    → compare_log ks ins log ≡ some u
    → (live text : List ℕ) × (Flow.run ks ins ≡ analysed live)
      × (find_table (find_heading log) ≡ some text)
      × Counted live (length ins) (table_rows (suc (length text)) text) u
      × ((u.first ≡ none) ↔ (u.overreach ≡ 0))
unfolding compare_log
compare_log-Counted ks ins log u h = accepted (Flow.run ks ins) refl h
  where
    tabled :
        (live : List ℕ) (o : Option (List ℕ))
        → compare_table live (length ins) o ≡ some u
        → (text : List ℕ) × (o ≡ some text)
          × Counted live (length ins) (table_rows (suc (length text)) text) u
          × ((u.first ≡ none) ↔ (u.overreach ≡ 0))
    tabled live none e = cc
    tabled live (some text) e =
        let same : table (suc (length text)) live (length ins) text no_cmp ≡ u = cc e in
        let all : Progressed live (length ins) (table_rows (suc (length text)) text) no_cmp u =
          rw (sym same) (table-Progressed (suc (length text)) live (length ins) text no_cmp) in
        let counted : Counted live (length ins) (table_rows (suc (length text)) text) u = record {
          rows = omega (arith, all.rows);
          checked = omega (arith, all.checked);
          overreach = omega (arith, all.overreach);
          first = all.found;
        } in
        (text, refl, counted, all.first ((λ p. refl), (λ p. refl)))

    accepted :
        (r : Flow.Result)
        → Flow.run ks ins ≡ r
        → compare_result r (length ins) log ≡ some u
        → (live text : List ℕ) × (Flow.run ks ins ≡ analysed live)
          × (find_table (find_heading log) ≡ some text)
          × Counted live (length ins) (table_rows (suc (length text)) text) u
          × ((u.first ≡ none) ↔ (u.overreach ≡ 0))
    accepted (unsupported i w) q e = cc
    accepted (analysed live) q e =
        let (text, f, c, first) = tabled live (find_table (find_heading log)) e in
        (live, text, q, f, c, first)
