-- ===== src/Live/Log.antt =====
-- harness/bpflive.h, bpflive_parse_row and bpflive_compare_log: the analysis against the table of
-- live registers that the kernel prints. Text is a list of bytes, which ends where C has the 0.
pub mod Cells
pub mod Overreach
pub mod Fuel
use verifierloop.Base.{ℕ, zero, suc, ◌+◌, ◌*◌, ◌-◌, ◌%◌, ◌^◌, Bool, true, false, ◌&&◌, ◌||◌, not}
use verifierloop.Base.{starts, List, [], ◌∷◌, length, get_or, Option, none, some, ◌==◌, leb, ltb}
use verifierloop.Base.{if◌then◌else◌, bit_and, bit_or}
use verifierloop.Insn.{Insn}
use verifierloop.Live.Usedef.{Kfunc, bl_bit}
use verifierloop.Live.Flow
use verifierloop.Live.Flow.{live_at, analysed, unsupported}

-- struct bpflive_cmp; `none` in `first` stands for first_insn = -1.
pub record First : Type 0 where
  pub insn : ℕ
  pub reg : ℕ
  pub kmask : ℕ
  pub omask : ℕ

pub record Cmp : Type 0 where
  pub rows : ℕ
  pub checked : ℕ
  pub overreach : ℕ
  pub first : Option First

abbrev pub is_digit : ℕ → Bool
is_digit c = leb b'0' c && leb c b'9'

-- The number that the digits right before the colon spell, as an `int`; `seen` says whether the
-- last character was a digit, and `none` that none stood before the colon.
unfoldable pub row_index : List ℕ → Bool → ℕ → Option ℕ
row_index [] seen v = none
row_index (c ∷ cs) seen v =
    if c == b':'
    then if seen then some v else none
    else if c == 10
    then none
    else if is_digit c
    then row_index cs true ((if seen then v * 10 + (c - b'0') else c - b'0') % 2 ^ 32)
    else row_index cs false 0

-- What stands after the colon.
unfoldable pub after_colon : List ℕ → List ℕ
after_colon [] = []
after_colon (c ∷ cs) = if c == b':' then cs else after_colon cs

-- The mask of columns j .. 9, or `none` where one is neither a dot nor a digit.
abbrev pub add_column : ℕ → Bool → Option ℕ → Option ℕ
add_column j dot none = none
add_column j dot (some m) = some (if dot then m else bit_or (bl_bit j) m)

unfoldable pub columns : ℕ → ℕ → List ℕ → Option ℕ
columns zero j cs = some 0
columns (suc k) j [] = none
columns (suc k) j (c ∷ cs) =
    if c == b'.' || is_digit c then add_column j (c == b'.') (columns k (suc j) cs) else none

-- The text from the end of the line on.
unfoldable pub line_end : List ℕ → List ℕ
line_end [] = []
line_end (c ∷ cs) = if c == 10 then c ∷ cs else line_end cs

-- A row of the table: its index, its mask, and the text from the end of its line on.
pub record Row : Type 0 where
  pub idx : ℕ
  pub mask : ℕ
  pub rest : List ℕ

abbrev pub make_row : List ℕ → Option ℕ → Option ℕ → Option Row
make_row cols (some v) (some m) = some (record { idx = v; mask = m; rest = line_end cols })
make_row cols _ _ = none

-- The columns stand after one space, and a space after them.
unfoldable pub row_columns : Option ℕ → List ℕ → Option Row
row_columns v [] = none
row_columns v (c ∷ cols) =
    if c == b' ' && get_or cols 10 0 == b' ' then make_row cols v (columns 10 0 cols) else none

unfoldable pub parse_row : List ℕ → Option Row
parse_row [] = none
parse_row (c ∷ cs) =
    if c == b' ' then row_columns (row_index (c ∷ cs) false 0) (after_colon (c ∷ cs)) else none

-- One cell, register `reg` of row `idx`.
abbrev pub first_of : Option First → First → Option First
first_of none f = some f
first_of (some g) f = some g

unfoldable pub cell : ℕ → ℕ → ℕ → ℕ → Cmp → Cmp
cell idx kmask ours reg t =
    if bit_and ours (bl_bit reg) == 0
    then t
    else if bit_and kmask (bl_bit reg) == 0
    then record {
      rows = t.rows;
      checked = t.checked + 1;
      overreach = t.overreach + 1;
      first = first_of t.first (record { insn = idx; reg = reg; kmask = kmask; omask = ours });
    }
    else record t { checked = t.checked + 1 }

-- The loop over the registers `reg` ..
unfoldable pub cells : ℕ → ℕ → ℕ → ℕ → ℕ → Cmp → Cmp
cells zero idx kmask ours reg t = t
cells (suc k) idx kmask ours reg t = cells k idx kmask ours (suc reg) (cell idx kmask ours reg t)

-- The body of the loop over the rows; a negative index is out of the program too.
unfoldable pub take_row : List ℕ → ℕ → Row → Cmp → Cmp
take_row live n r t =
    if ltb r.idx n && ltb r.idx (2 ^ 31)
    then cells 10 r.idx r.mask (live_at live r.idx) 0 (record t { rows = t.rows + 1 })
    else t

-- Past the newline, or the end of the text.
abbrev pub next_line {ℓ} : {A : Type ℓ} → (List ℕ → A) → A → List ℕ → A
next_line rest stop [] = stop
next_line rest stop (c ∷ cs) = rest cs

abbrev pub rows_from : (List ℕ → Cmp → Cmp) → List ℕ → ℕ → Option Row → Cmp → Cmp
rows_from rest live n none t = t
rows_from rest live n (some r) t =
    let u = take_row live n r t in next_line (λ cs. rest cs u) u r.rest

-- The rows, one a line, on fuel: each row takes at least one character.
unfoldable pub table : ℕ → List ℕ → ℕ → List ℕ → Cmp → Cmp
table zero live n text t = t
table (suc fuel) live n text t = rows_from (table fuel live n) live n (parse_row text) t

abbrev pub heading : List ℕ
heading =
    b'L' ∷ b'i' ∷ b'v' ∷ b'e' ∷ b' ' ∷ b'r' ∷ b'e' ∷ b'g' ∷ b's' ∷ b' ' ∷ b'b' ∷ b'e' ∷ b'f' ∷ b'o'
    ∷ b'r' ∷ b'e' ∷ b' ' ∷ b'i' ∷ b'n' ∷ b's' ∷ b'n' ∷ b':' ∷ []

-- strstr(log, heading), and strchr(.., '\n') from there: the text after that line.
unfoldable pub find_heading : List ℕ → Option (List ℕ)
find_heading [] = none
find_heading (c ∷ cs) = if starts heading (c ∷ cs) then some (c ∷ cs) else find_heading cs

abbrev pub after_newline : List ℕ → Option (List ℕ)
after_newline [] = none
after_newline (c ∷ cs) = some cs

abbrev pub find_table : Option (List ℕ) → Option (List ℕ)
find_table none = none
find_table (some text) = after_newline (line_end text)

abbrev pub no_cmp : Cmp
no_cmp = record { rows = 0; checked = 0; overreach = 0; first = none }

abbrev pub compare_table : List ℕ → ℕ → Option (List ℕ) → Option Cmp
compare_table live n none = none
compare_table live n (some text) = some (table (suc (length text)) live n text no_cmp)

abbrev pub compare_result : Flow.Result → ℕ → List ℕ → Option Cmp
compare_result (unsupported i w) n log = none
compare_result (analysed live) n log = compare_table live n (find_table (find_heading log))

-- `none` stands for the status BPFLIVE_UNSUPPORTED.
unfoldable pub compare_log : List Kfunc → List Insn → List ℕ → Option Cmp
unfolding find_heading table
compare_log ks ins log = compare_result (Flow.run ks ins) (length ins) log
