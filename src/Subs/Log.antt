-- ===== src/Subs/Log.antt =====
-- harness/bpfsubs.h, bpfsubs_compare_log: the walk over the lines of a verifier log.
pub mod Closed
pub mod Steps
pub mod Counts
pub mod Rows
use verifierloop.Base.{ℕ, zero, suc, ◌+◌, ◌*◌, ◌%◌, ◌^◌, Bool, true, false, ◌&&◌, ◌||◌, not}
use verifierloop.Base.{
  starts, List, [], ◌∷◌, ◌++◌, length, Option, none, some, ◌==◌, ltb, if◌then◌else◌,
}
use verifierloop.Subs.Eval.{Reg, Arm, Verdict, agree, unmodelled, broken, Progress, Evaluated, eval}

-- What sscanf reads from a PRUNEPAIR_PFX line: the prefix' length in bytes, and its hex digits.
pub record Pfx : Type 0 where
  pub vo : ℕ
  pub text : List ℕ

-- What sscanf reads from a PRUNEPAIR line, all 17 fields; of `side`, its first character.
pub record Row : Type 0 where
  pub insn : ℕ
  pub exact : ℕ
  pub side : ℕ
  pub fr : ℕ
  pub rn : ℕ
  pub t : ℕ
  pub delta : ℕ
  pub vv : ℕ
  pub vm : ℕ
  pub b64 : ℕ
  pub sz64 : ℕ
  pub b32 : ℕ
  pub sz32 : ℕ
  pub id : ℕ
  pub pid : ℕ
  pub fno : ℕ
  pub prec : ℕ

-- The two sscanf calls of the C library; `none` where not all fields are read.
pub record Scanner : Type 0 where
  pub scan_pfx : List ℕ → Option Pfx
  pub scan_row : List ℕ → Option Row

-- `insn=%d exact=%d arm=%s` of the first disagreement.
pub record First : Type 0 where
  pub insn : ℕ
  pub exact : ℕ
  pub arm : Arm

-- struct bpfsubs_cmp; a log that fits in memory keeps its counters far below 2 ^ 64.
pub record Totals : Type 0 where
  pub pairs : ℕ
  pub agreed : ℕ
  pub disagree : ℕ
  pub unmodelled : ℕ
  pub nontrivial : ℕ
  pub scalar_cmp : ℕ
  pub ptr_cmp : ℕ
  pub shortcircuit : ℕ
  pub unsupported : ℕ
  pub rows : ℕ
  pub first : Option First

-- The local variables of the walk; `pend` is `none` where `pend_vo` is negative.
pub record Walk : Type 0 where
  pub totals : Totals
  pub old : List Reg
  pub cur : List Reg
  pub insn : ℕ
  pub exact : ℕ
  pub prev_old : Bool
  pub open_pair : Bool
  pub pend : Option Pfx

abbrev pub max_reg : ℕ
max_reg = 24

abbrev pub max_line : ℕ
max_line = 512

abbrev pub pfx_word : List ℕ
pfx_word =
    b'P' ∷ b'R' ∷ b'U' ∷ b'N' ∷ b'E' ∷ b'P' ∷ b'A' ∷ b'I' ∷ b'R' ∷ b'_' ∷ b'P' ∷ b'F' ∷ b'X' ∷ b' '
    ∷ b'v' ∷ b'o' ∷ b'=' ∷ []

abbrev pub row_word : List ℕ
row_word =
    b'P' ∷ b'R' ∷ b'U' ∷ b'N' ∷ b'E' ∷ b'P' ∷ b'A' ∷ b'I' ∷ b'R' ∷ b' ' ∷ b'i' ∷ b'n' ∷ b's' ∷ b'n'
    ∷ b'=' ∷ []

abbrev pub extend_line : ℕ → List (List ℕ) → List (List ℕ)
extend_line c [] = (c ∷ []) ∷ []
extend_line c (l ∷ ls) = (c ∷ l) ∷ ls

-- The lines of the log; no empty line stands after a last newline.
unfoldable pub lines : List ℕ → List (List ℕ)
lines [] = []
lines (c ∷ cs) = if c == 10 then [] ∷ lines cs else extend_line c (lines cs)

abbrev pub flag : Bool → ℕ
flag b = if b then 1 else 0

abbrev pub first_of : Option First → First → Option First
first_of none f = some f
first_of (some g) f = some g

abbrev pub add_counts : Totals → Progress → Totals
add_counts s p = record s {
  pairs = s.pairs + 1;
  scalar_cmp = s.scalar_cmp + p.scalar_cmp;
  ptr_cmp = s.ptr_cmp + p.ptr_cmp;
  shortcircuit = s.shortcircuit + p.shortcircuit;
}

-- The branches on subs_eval's verdict.
unfoldable pub add_verdict : ℕ → ℕ → Bool → Verdict → Totals → Totals
add_verdict insn exact ran (broken a) s = record s {
  disagree = s.disagree + 1;
  first = first_of s.first (record { insn = insn; exact = exact; arm = a });
}
add_verdict insn exact ran Verdict.unmodelled s = record s { unmodelled = s.unmodelled + 1 }
add_verdict insn exact ran agree s = record s {
  agreed = s.agreed + 1;
  nontrivial = s.nontrivial + flag ran;
}

-- Close the open pair.
unfoldable pub close_pair : Walk → Totals
close_pair w =
    let e = eval w.old w.cur w.exact in
    add_verdict w.insn w.exact e.progress.ran e.verdict (add_counts w.totals e.progress)

unfoldable pub close_open : Walk → Totals
unfolding close_pair
close_open w = if w.open_pair then close_pair w else w.totals

abbrev pub pend_text : Option Pfx → List ℕ
pend_text none = []
pend_text (some p) = p.text

abbrev pub pend_vo : Option Pfx → ℕ
pend_vo none = 0
pend_vo (some p) = p.vo

abbrev pub is_some : Option Pfx → Bool
is_some none = false
is_some (some p) = true

-- The register that a row and the pending prefix describe.
unfoldable pub row_reg : Row → Option Pfx → Reg
row_reg r pend = record {
  key = (r.fr * 16 + r.rn) % 2 ^ 32;
  t = r.t;
  delta = r.delta;
  fno = r.fno;
  prec = r.prec;
  vv = r.vv;
  vm = r.vm;
  b64 = r.b64;
  sz64 = r.sz64;
  b32 = r.b32;
  sz32 = r.sz32;
  id = r.id;
  pid = r.pid;
  have_pfx = is_some pend;
  vo = pend_vo pend;
  pfx = pend_text pend;
}

abbrev pub push : List Reg → Reg → List Reg
push rs r = if ltb (length rs) max_reg then rs ++ r ∷ [] else rs

-- An old row after a current one, or the first, opens a pair.
unfoldable pub turn_pair : Row → Bool → Walk → Walk
turn_pair r is_old w =
    if is_old && (not w.open_pair || not w.prev_old)
    then record w {
      totals = close_open w;
      old = [];
      cur = [];
      open_pair = true;
      insn = r.insn;
      exact = r.exact;
    }
    else w

unfoldable pub put_reg : Reg → Bool → Walk → Walk
put_reg x true w = record w { old = push w.old x; prev_old = true }
put_reg x false w = record w { cur = push w.cur x; prev_old = false }

abbrev pub refuse_row : Totals → Totals
refuse_row s = record s { unsupported = s.unsupported + 1 }

unfoldable pub take_row : Option Row → Walk → Walk
take_row none w = record w { totals = refuse_row w.totals }
take_row (some r) w =
    let is_old = r.side == b'o' in
    put_reg (row_reg r w.pend) is_old (turn_pair r is_old (record w { pend = none }))

-- A negative `vo` is as if there were none.
unfoldable pub take_pfx : Option Pfx → Walk → Walk
take_pfx none w = record w { pend = none }
take_pfx (some p) w = record w { pend = if ltb p.vo (2 ^ 31) then some p else none }

abbrev pub count_row : Totals → Totals
count_row s = record s { rows = s.rows + 1 }

-- One line.
unfoldable pub take_line : Scanner → List ℕ → Walk → Walk
take_line sc l w =
    if not (ltb (length l) max_line)
    then w
    else if starts pfx_word l
    then take_pfx (sc.scan_pfx l) w
    else if starts row_word l
    then take_row (sc.scan_row l) (record w { totals = count_row w.totals })
    else w

unfoldable pub walk : Scanner → List (List ℕ) → Walk → Walk
walk sc [] w = w
walk sc (l ∷ ls) w = walk sc ls (take_line sc l w)

abbrev pub no_totals : Totals
no_totals = record {
  pairs = 0;
  agreed = 0;
  disagree = 0;
  unmodelled = 0;
  nontrivial = 0;
  scalar_cmp = 0;
  ptr_cmp = 0;
  shortcircuit = 0;
  unsupported = 0;
  rows = 0;
  first = none;
}

abbrev pub start_walk : Walk
start_walk = record {
  totals = no_totals;
  old = [];
  cur = [];
  insn = 0;
  exact = 0;
  prev_old = false;
  open_pair = false;
  pend = none;
}

unfoldable pub compare_log : Scanner → List ℕ → Totals
unfolding walk lines close_open
compare_log sc log = close_open (walk sc (lines log) start_walk)
