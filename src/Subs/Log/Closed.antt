-- ===== src/Subs/Log/Closed.antt =====
-- bpfsubs_compare_log: the pairs that it closes, and what each counter and the report say of them.
use verifierloop.Base.{
  ℕ, ◌+◌, ◌≡◌, Bool, true, false, ◌&&◌, not, List, [], ◌∷◌, ◌++◌, Option, none, some, ◌==◌,
  if◌then◌else◌,
}
use verifierloop.Base.{arith, refl, sym, ap, ◌∙◌}
use verifierloop.Base.First.{or_first, or_first-none, or_first_assoc}
use verifierloop.Subs.Eval.{Reg, Verdict, agree, broken, eval}
use verifierloop.Subs.Log.{Scanner, Totals, Walk, Row, First, flag, take_line}
use verifierloop.Subs.Log.Rows.{is_row}

abbrev pub is_old_row : Option Row → Bool
is_old_row none = false
is_old_row (some r) = r.side == b'o'

-- A pair is open, and the line is the row of an old register after that of a current one.
abbrev pub ends_pair : Scanner → List ℕ → Walk → Bool
ends_pair sc l w = is_row l && (is_old_row (sc.scan_row l) && (w.open_pair && not w.prev_old))

-- The registers of a pair, and where the kernel compared them.
pub record Pair : Type 0 where
  pub old : List Reg
  pub cur : List Reg
  pub insn : ℕ
  pub exact : ℕ

abbrev pub pair_of : Walk → Pair
pair_of w = record { old = w.old; cur = w.cur; insn = w.insn; exact = w.exact }

abbrev pub pair_if : Bool → Walk → List Pair
pair_if b w = if b then pair_of w ∷ [] else []

-- The pairs of the log: one at each line that ends a pair, and one at the end of the log where one is
-- still open.
abbrev pub closed : Scanner → List (List ℕ) → Walk → List Pair
closed sc [] w = pair_if w.open_pair w
closed sc (l ∷ ls) w = pair_if (ends_pair sc l w) w ++ closed sc ls (take_line sc l w)

abbrev pub verdict_of : Pair → Verdict
verdict_of w = (eval w.old w.cur w.exact).verdict

abbrev is_agree : Verdict → Bool
is_agree agree = true
is_agree _ = false

abbrev is_unmodelled : Verdict → Bool
is_unmodelled Verdict.unmodelled = true
is_unmodelled _ = false

abbrev is_broken : Verdict → Bool
is_broken (broken a) = true
is_broken _ = false

-- The sum of a number over the pairs.
abbrev total : (Pair → ℕ) → List Pair → ℕ
total f [] = 0
total f (w ∷ ws) = f w + total f ws

-- The report of a pair that disagrees.
abbrev report : ℕ → ℕ → Verdict → Option First
report insn exact (broken a) = some (record { insn = insn; exact = exact; arm = a })
report insn exact _ = none

-- The report of the first pair that disagrees.
abbrev first_report : List Pair → Option First
first_report [] = none
first_report (w ∷ ws) = or_first (report w.insn w.exact (verdict_of w)) (first_report ws)

-- From the totals `s` to the totals `u`, the pairs `ws` are added.
pub record Adds (ws : List Pair) (s u : Totals) : Type 0 where
  pub pairs : u.pairs ≡ s.pairs + total (λ w. 1) ws
  pub agreed : u.agreed ≡ s.agreed + total (λ w. flag (is_agree (verdict_of w))) ws
  pub disagree : u.disagree ≡ s.disagree + total (λ w. flag (is_broken (verdict_of w))) ws
  pub unmodelled : u.unmodelled ≡ s.unmodelled + total (λ w. flag (is_unmodelled (verdict_of w))) ws
  pub nontrivial :
      u.nontrivial
      ≡ s.nontrivial
        + total (λ w. flag (is_agree (verdict_of w) && (eval w.old w.cur w.exact).progress.ran)) ws
  pub scalar_cmp :
      u.scalar_cmp ≡ s.scalar_cmp + total (λ w. (eval w.old w.cur w.exact).progress.scalar_cmp) ws
  pub ptr_cmp : u.ptr_cmp ≡ s.ptr_cmp + total (λ w. (eval w.old w.cur w.exact).progress.ptr_cmp) ws
  pub shortcircuit :
      u.shortcircuit
      ≡ s.shortcircuit + total (λ w. (eval w.old w.cur w.exact).progress.shortcircuit) ws
  pub first : u.first ≡ or_first s.first (first_report ws)

pub Adds-nil : (s : Totals) → Adds [] s s
Adds-nil s = record {
  pairs = omega arith;
  agreed = omega arith;
  disagree = omega arith;
  unmodelled = omega arith;
  nontrivial = omega arith;
  scalar_cmp = omega arith;
  ptr_cmp = omega arith;
  shortcircuit = omega arith;
  first = sym (or_first-none s.first);
}

total-append : (f : Pair → ℕ) (ws vs : List Pair) → total f (ws ++ vs) ≡ total f ws + total f vs
total-append f [] vs = omega arith
total-append f (w ∷ ws) vs = omega (arith, total-append f ws vs)

first_report-append :
    (ws vs : List Pair) → first_report (ws ++ vs) ≡ or_first (first_report ws) (first_report vs)
first_report-append [] vs = refl
first_report-append (w ∷ ws) vs =
    ap (or_first (report w.insn w.exact (verdict_of w))) (first_report-append ws vs)
    ∙ sym
        (or_first_assoc (report w.insn w.exact (verdict_of w)) (first_report ws) (first_report vs))

-- A counter of two lists of pairs, one after the other.
then_count :
    (f : Pair → ℕ) (ws vs : List Pair) (s t u : ℕ)
    → t ≡ s + total f ws
    → u ≡ t + total f vs
    → u ≡ s + total f (ws ++ vs)
then_count f ws vs s t u h k = omega (arith, h, k, total-append f ws vs)

pub Adds-append :
    (ws vs : List Pair) (s t u : Totals) → Adds ws s t → Adds vs t u → Adds (ws ++ vs) s u
Adds-append ws vs s t u h k = record {
  pairs = then_count _ ws vs _ _ _ h.pairs k.pairs;
  agreed = then_count _ ws vs _ _ _ h.agreed k.agreed;
  disagree = then_count _ ws vs _ _ _ h.disagree k.disagree;
  unmodelled = then_count _ ws vs _ _ _ h.unmodelled k.unmodelled;
  nontrivial = then_count _ ws vs _ _ _ h.nontrivial k.nontrivial;
  scalar_cmp = then_count _ ws vs _ _ _ h.scalar_cmp k.scalar_cmp;
  ptr_cmp = then_count _ ws vs _ _ _ h.ptr_cmp k.ptr_cmp;
  shortcircuit = then_count _ ws vs _ _ _ h.shortcircuit k.shortcircuit;
  first =
      k.first
      ∙ ap (λ f. or_first f (first_report vs)) h.first
      ∙ or_first_assoc s.first (first_report ws) (first_report vs)
      ∙ ap (or_first s.first) (sym (first_report-append ws vs));
}
