-- ===== src/Tests/Rows.antt =====
-- The comparison of the analysis with the kernel's table, on a table that calls r6 dead.
use verifierloop.Base.{ℕ, suc, ◌≡◌, ◌↔◌, refl, arith, List, [], ◌∷◌, ◌++◌, some, none, length}
use verifierloop.Insn.{class_of, target}
use verifierloop.Live.Flow
use verifierloop.Live.Flow.{analysed, scan, solve, rounds, sweep, visit, transfer, live_after}
use verifierloop.Live.Usedef.{
  usedef, usedef_class, usedef_alu, usedef_jmp, succ, succ_class, succ_jmp,
}
use verifierloop.Live.Log.{
  Cmp, compare_log, heading, find_table, find_heading, table, no_cmp, parse_row, row_index,
  after_colon,
}
use verifierloop.Live.Log.{columns, line_end, row_columns, take_row, cells, cell}
use verifierloop.Live.Log.Overreach.{Counted, compare_log-Counted, table_rows}
use verifierloop.Live.Log.Fuel.{table_fuel}
use verifierloop.Tests.{copy, copy_live}

abbrev log : List ℕ
log =
    heading
    ++ 10 ∷ b' ' ∷ b'0' ∷ b':' ∷ b' ' ∷ b'.' ∷ b'.' ∷ b'.' ∷ b'.' ∷ b'.' ∷ b'.' ∷ b'.' ∷ b'.' ∷ b'.'
      ∷ b'.' ∷ b' ' ∷ b'x' ∷ 10 ∷ []

abbrev found : Cmp
found = record {
  rows = 1;
  checked = 1;
  overreach = 1;
  first = some (record { insn = 0; reg = 6; kmask = 0; omask = 64 });
}

log-compare : compare_log [] copy log ≡ some found
unfolding compare_log Flow.run scan solve rounds sweep visit transfer live_after usedef usedef_class
    usedef_alu usedef_jmp succ succ_class succ_jmp class_of target find_heading table parse_row
    row_index after_colon columns line_end row_columns take_row cells cell
log-compare = refl

compare_log-Counted_example :
    (live text : List ℕ) × (Flow.run [] copy ≡ analysed live)
    × (find_table (find_heading log) ≡ some text)
    × Counted live 2 (table_rows (suc (length text)) text) found
    × ((found.first ≡ none) ↔ (found.overreach ≡ 0))
compare_log-Counted_example = compare_log-Counted [] copy log found log-compare

table_fuel_example :
    table 3 copy_live 2 (b' ' ∷ 10 ∷ []) no_cmp ≡ table 9 copy_live 2 (b' ' ∷ 10 ∷ []) no_cmp
table_fuel_example = table_fuel 3 9 copy_live 2 (b' ' ∷ 10 ∷ []) no_cmp (omega arith) (omega arith)
