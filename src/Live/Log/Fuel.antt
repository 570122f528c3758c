-- ===== src/Live/Log/Fuel.antt =====
-- bpflive_compare_log: the fuel of the loop over the rows is enough.
use verifierloop.Base.{
  false, sym, ℕ, zero, suc, ◌≤◌, ◌<◌, ◌≡◌, List, [], ◌∷◌, length, Option, none, some, ◌==◌,
}
use verifierloop.Base.{arith, refl, Bool-cases, inl, inr, get_or, ◌&&◌}
use native.Mathlib.Nat.{le_refl}
use verifierloop.Live.Log.{
  Cmp, Row, line_end, after_colon, columns, make_row, row_columns, row_index, parse_row, take_row,
}
use verifierloop.Live.Log.{next_line, rows_from, table}

length-line_end : (cs : List ℕ) → length (line_end cs) ≤ length cs
unfolding line_end
length-line_end [] = le_refl 0
length-line_end (c ∷ cs) = ground (arith, length-line_end cs, le_refl (length (c ∷ cs)))

length-after_colon : (cs : List ℕ) → length (after_colon cs) ≤ length cs
unfolding after_colon
length-after_colon [] = le_refl 0
length-after_colon (c ∷ cs) = ground (arith, length-after_colon cs)

make_row-rest :
    (cols : List ℕ) (v m : Option ℕ) (r : Row)
    → make_row cols v m ≡ some r
    → length r.rest ≤ length cols
make_row-rest cols none none r h = cc
make_row-rest cols none (some m) r h = cc
make_row-rest cols (some v) none r h = cc
make_row-rest cols (some v) (some m) r h =
    let e : line_end cols ≡ r.rest = cc h in rw (sym e) (length-line_end cols)

row_columns-rest :
    (v : Option ℕ) (cs : List ℕ) (r : Row) → row_columns v cs ≡ some r → length r.rest ≤ length cs
unfolding row_columns
row_columns-rest v [] r h = cc
row_columns-rest v (c ∷ cols) r h = elim (Bool-cases (c == b' ' && get_or cols 10 0 == b' ')) [
  | inr e ↦ cc (rw e at h)
  | inl e ↦ omega (arith, make_row-rest cols v (columns 10 0 cols) r (rw e at h))
]

parse_row-rest : (text : List ℕ) (r : Row) → parse_row text ≡ some r → length r.rest ≤ length text
unfolding parse_row
parse_row-rest [] r h = cc
parse_row-rest (c ∷ cs) r h = elim (Bool-cases (c == b' ')) [
  | inr e ↦ cc (rw e at h)
  | inl e ↦ omega (
    arith,
    row_columns-rest (row_index (c ∷ cs) false 0) (after_colon (c ∷ cs)) r (rw e at h),
    length-after_colon (c ∷ cs),
  )
]

-- Any two amounts of fuel above the length of the text give the same counters.
pub table_fuel :
    (fuel fuel' : ℕ) (live : List ℕ) (n : ℕ) (text : List ℕ) (t : Cmp)
    → length text < fuel
    → length text < fuel'
    → table fuel live n text t ≡ table fuel' live n text t
unfolding table
table_fuel zero fuel' live n text t h k = absurd (omega arith)
table_fuel (suc fuel) zero live n text t h k = absurd (omega arith)
table_fuel (suc fuel) (suc fuel') live n text t h k =
    onward (λ cs u less. table_fuel fuel fuel' live n cs u (omega arith) (omega arith))
      (parse_row text) refl
  where
    Rest : Type 0
    Rest =
        (cs : List ℕ) (u : Cmp)
        → length cs < length text
        → table fuel live n cs u ≡ table fuel' live n cs u

    line :
        Rest
        → (cs : List ℕ) (u : Cmp) → length cs ≤ length text
        → next_line (λ ds. table fuel live n ds u) u cs
          ≡ next_line (λ ds. table fuel' live n ds u) u cs
    line rest [] u h = refl
    line rest (c ∷ cs) u h = rest cs u (omega arith)

    onward :
        Rest
        → (o : Option Row) → parse_row text ≡ o
        → rows_from (table fuel live n) live n o t ≡ rows_from (table fuel' live n) live n o t
    onward rest none e = refl
    onward rest (some r) e = line rest r.rest (take_row live n r t) (parse_row-rest text r e)
