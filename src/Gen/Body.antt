-- ===== src/Gen/Body.antt =====
-- harness/diffharness.c, gi_emit_body: its local state, and how it appends to the program.
use verifierloop.Base.{ℕ, ◌+◌, ◌/◌, ◌%◌, ◌^◌, Bool, List, [], ◌∷◌, ◌++◌, length, Option}
use verifierloop.Base.{◌==◌, ltb, if◌then◌else◌}
use verifierloop.Insn.{Insn}

-- The ids of the three iterator functions; `none` stands for g_fz_iter_ok == 0.
pub record IterIds : Type 0 where
  pub new_id : ℕ
  pub next_id : ℕ
  pub destroy_id : ℕ

-- struct gi_store_site; `none` stands for a negative `fixed`.
pub record StoreSite : Type 0 where
  pub insn : ℕ
  pub k : ℕ
  pub fixed : Option ℕ

abbrev pub max_stores : ℕ
max_stores = 32

-- The array so far, `jexit[0 .. *nx)`, the local variables of gi_emit_body (`stack_next` is
-- -stack), the store sites and the two counters of iterators.
pub record Body : Type 0 where
  pub ins : List Insn
  pub jexit : List ℕ
  pub stack : ℕ
  pub loops : Bool
  pub iters : Bool
  pub stores : List StoreSite
  pub iter_emitted : ℕ
  pub iter_skipped : ℕ

-- `ins[n++] = ..` for each of a list. A jump within the list has its offset already.
abbrev pub put : List Insn → Body → Body
put xs b = record b { ins = b.ins ++ xs }

-- `jexit[(*nx)++] = n`.
abbrev pub note_exit : Body → Body
note_exit b = record b { jexit = b.jexit ++ length b.ins ∷ [] }

-- `if (stack_next > -200) stack_next -= 8`.
abbrev pub next_slot : Body → Body
next_slot b = record b { stack = if ltb b.stack 200 then b.stack + 8 else b.stack }

abbrev pub add_site : StoreSite → Body → Body
add_site s b = record b {
  stores = if ltb (length b.stores) max_stores then b.stores ++ s ∷ [] else b.stores;
}

-- `(o >> k) & 1`.
abbrev pub bit : ℕ → ℕ → Bool
bit o k = o / 2 ^ k % 2 == 1

-- An entry of a table of four, or of six.
abbrev pub choose4 : ℕ → ℕ → ℕ → ℕ → ℕ → ℕ
choose4 i a b c d = if i == 0 then a else if i == 1 then b else if i == 2 then c else d

abbrev pub choose6 : ℕ → ℕ → ℕ → ℕ → ℕ → ℕ → ℕ → ℕ
choose6 i a b c d e f =
    if i == 0
    then a
    else if i == 1
    then b
    else if i == 2
    then c
    else if i == 3
    then d
    else if i == 4
    then e
    else f

-- REGS[g->a % 3].
unfoldable pub reg_of : ℕ → ℕ
reg_of i = if i % 3 == 0 then 6 else if i % 3 == 1 then 7 else 9

unfoldable pub other_reg : ℕ → ℕ → ℕ
other_reg a b = if b == a then if a == 6 then 7 else 6 else b
