-- ===== src/Tests/Pairs.antt =====
-- The theorems on the subsumption model at concrete registers and identities.
use verifierloop.Base.{ℕ, ◌^◌, ◌<◌, ◌≡◌, ◌↔◌, inl, true, false}
use verifierloop.Base.{refl, arith, List, [], ◌∷◌, some, none, get_elem?, ◌++◌}
use mathlib.Core.Option
use verifierloop.Subs.Arc.{
  subset64, subset32, InArc64, InArc32, is_empty64, is_empty32, subset64_iff, subset32_iff,
}
use verifierloop.Subs.Tnum.{tnum_in, InTnum, tnum_in_iff}
use verifierloop.Subs.Ids.{Pair, Idmap, check_ids, known, remember}
use verifierloop.Subs.Ids.Injection.{IsIdmap, check_ids-IsIdmap, check_all, check_all-one_to_one}
use verifierloop.Subs.Eval.{
  Reg, agree, eval, eval_regs, check_found, check_reg, check_scalar, scalar_ids_step,
}
use verifierloop.Subs.Eval.{range_within, find, sort, sort_back, insert_back, reverse_onto}
use verifierloop.Subs.Eval.Sound.{Admits, eval-find, eval_sound}
use verifierloop.Subs.Log.{Scanner, Row, row_word, compare_log, lines, start_walk, no_totals}
use verifierloop.Subs.Log.Closed.{Adds, closed}
use verifierloop.Subs.Log.Counts.{IsBalanced, compare_log-IsBalanced}
use verifierloop.Subs.Log.Rows.{tally, is_row, is_refused, compare_log-rows}
use verifierloop.Subs.Ids.{check_scalar_ids}

subset64_iff_example :
    (subset64 10 5 12 1 ≡ true) ↔ ((x : ℕ) → x < 2 ^ 64 → InArc64 12 1 x → InArc64 10 5 x)
subset64_iff_example =
    subset64_iff 10 5 12 1 (omega arith) (omega arith) (omega arith) (omega arith)

-- An arc around the wrap.
subset32_iff_example :
    (subset32 0xfffffff0 0x20 0xfffffffe 4 ≡ true)
    ↔ ((x : ℕ) → x < 2 ^ 32 → InArc32 0xfffffffe 4 x → InArc32 0xfffffff0 0x20 x)
subset32_iff_example =
    subset32_iff 0xfffffff0 0x20 0xfffffffe 4 (omega arith) (omega arith) (omega arith)
      (omega arith)

tnum_in_iff_example :
    (tnum_in 4 3 5 2 ≡ true) ↔ ((x : ℕ) → x < 2 ^ 64 → InTnum 5 2 x → InTnum 4 3 x)
tnum_in_iff_example = tnum_in_iff 4 3 5 2 refl (omega arith) (omega arith)

abbrev blank : Idmap
blank = record { pairs = []; tmp = 2 ^ 20 }

check_ids-IsIdmap_example : IsIdmap (check_ids blank 3 4).map
check_ids-IsIdmap_example =
    check_ids-IsIdmap blank 3 4 (record { distinct = tt; nonzero = tt; bounded = omega arith })

abbrev three_four : Pair
three_four = record { old = 3; cur = 4 }

abbrev nine_eight : Pair
nine_eight = record { old = 9; cur = 8 }

abbrev pairs : List Pair
pairs = three_four ∷ record { old = 0; cur = 0 } ∷ nine_eight ∷ three_four ∷ []

pairs-check : (check_all blank pairs).ok ≡ true
unfolding check_all check_ids remember known
pairs-check = refl

check_all-one_to_one_example : (three_four.old ≡ nine_eight.old) ↔ (three_four.cur ≡ nine_eight.cur)
check_all-one_to_one_example =
    check_all-one_to_one blank pairs pairs-check 3 2 three_four nine_eight refl refl

-- A precise old scalar of 0 .. 15, and a current one that is 5.
abbrev wide_reg : Reg
wide_reg = record {
  key = 1;
  t = 1;
  delta = 0;
  fno = 0;
  prec = 1;
  vv = 0;
  vm = 15;
  b64 = 0;
  sz64 = 15;
  b32 = 0;
  sz32 = 15;
  id = 0;
  pid = 0;
  have_pfx = false;
  vo = 0;
  pfx = [];
}

abbrev five_reg : Reg
five_reg = record wide_reg { vv = 5; vm = 0; b64 = 5; sz64 = 0; b32 = 5; sz32 = 0 }

pair-eval : (eval (wide_reg ∷ []) (five_reg ∷ []) 0).verdict ≡ agree
unfolding eval eval_regs check_found check_reg check_scalar scalar_ids_step range_within find sort
    sort_back insert_back reverse_onto check_scalar_ids subset64 subset32 tnum_in is_empty64
    is_empty32
pair-eval = refl

found : find (five_reg ∷ []) 1 ≡ some five_reg
unfolding find
found = refl

eval-find_example : (c : Reg) × (find (five_reg ∷ []) 1 ≡ some c) × (1 ≡ c.t)
eval-find_example = eval-find (wide_reg ∷ []) (five_reg ∷ []) 0 0 wide_reg pair-eval refl

five-Admits : Admits five_reg 5
unfolding is_empty64 is_empty32
five-Admits = ((refl, omega arith), (refl, omega arith), refl)

eval_sound_example : Admits wide_reg 5
eval_sound_example =
    eval_sound (wide_reg ∷ []) (five_reg ∷ []) 0 0 wide_reg five_reg pair-eval refl found refl
      (inl (λ e. absurd (omega (arith, e)))) (omega arith, omega arith, omega arith, omega arith)
      (omega arith, omega arith, omega arith, omega arith) 5 (omega arith) five-Admits

-- A scanner of rows that give their side as the character after the words of a row.
abbrev row_of : ℕ → Row
row_of side = record {
  insn = 2;
  exact = 0;
  side = side;
  fr = 0;
  rn = 1;
  t = 1;
  delta = 0;
  vv = 5;
  vm = 0;
  b64 = 5;
  sz64 = 0;
  b32 = 5;
  sz32 = 0;
  id = 0;
  pid = 0;
  fno = 0;
  prec = 1;
}

abbrev scanner : Scanner
scanner = record { scan_pfx = λ l. none; scan_row = λ l. Option.map row_of (get_elem? l 15) }

-- One pair of registers, and a row without a side.
abbrev log : List ℕ
log = row_word ++ b'o' ∷ 10 ∷ row_word ++ b'c' ∷ 10 ∷ row_word

compare_log-IsBalanced_example :
    IsBalanced (compare_log scanner log)
    × Adds (closed scanner (lines log) start_walk) no_totals (compare_log scanner log)
compare_log-IsBalanced_example = compare_log-IsBalanced scanner log

compare_log-rows_example :
    ((compare_log scanner log).rows ≡ tally is_row (lines log))
    × ((compare_log scanner log).unsupported ≡ tally (is_refused scanner) (lines log))
compare_log-rows_example = compare_log-rows scanner log
