-- ===== src/Subs/Ids.antt =====
-- harness/bpfsubs.h, the map of register identities: subs_check_ids and subs_check_scalar_ids.
pub mod Injection
use verifierloop.Base.{ℕ, ◌+◌, ◌%◌, ◌^◌, Bool, true, false, ◌&&◌, ◌||◌, not, List, [], ◌∷◌, ◌++◌}
use verifierloop.Base.{length, Option, none, some, ◌==◌, leb, if◌then◌else◌, bit_and}

-- o[k] and c[k].
pub record Pair : Type 0 where
  pub old : ℕ
  pub cur : ℕ

-- The entries below `n`, in the order in which they were written, and the next fresh identity.
pub record Idmap : Type 0 where
  pub pairs : List Pair
  pub tmp : ℕ

pub record Checked : Type 0 where
  pub ok : Bool
  pub map : Idmap

abbrev pub max_ids : ℕ
max_ids = 64

-- BPF_ADD_CONST64 and BPF_ADD_CONST32.
abbrev pub add_const : ℕ
add_const = 0xc0000000

abbrev pub no_add_const : ℕ
no_add_const = 0x3fffffff

-- The loop over the entries: what it returns, or `none` at its end.
unfoldable pub known : List Pair → ℕ → ℕ → Option Bool
known [] o c = none
known (p ∷ ps) o c =
    if p.old == o then some (p.cur == c) else if p.cur == c then some false else known ps o c

unfoldable pub remember : Idmap → ℕ → ℕ → Option Bool → Checked
remember m o c (some b) = record { ok = b; map = m }
remember m o c none =
    if leb max_ids (length m.pairs) then record { ok = false; map = m } else record {
      ok = true;
      map = record m { pairs = m.pairs ++ record { old = o; cur = c } ∷ [] };
    }

unfoldable pub check_ids : Idmap → ℕ → ℕ → Checked
check_ids m o c =
    if o == 0
    then record { ok = c == 0; map = m }
    else if c == 0
    then record { ok = false; map = m }
    else remember m o c (known m.pairs o c)

-- A current identity of 0 stands for a fresh one: `c = ++m->tmp`, a uint32_t.
unfoldable pub fresh : Idmap → ℕ → Idmap
fresh m c = if c == 0 then record m { tmp = (m.tmp + 1) % 2 ^ 32 } else m

abbrev pub fresh_id : Idmap → ℕ → ℕ
fresh_id m c = if c == 0 then (m.tmp + 1) % 2 ^ 32 else c

-- The second check of a linked register, on the identities without the flags.
unfoldable pub check_base : ℕ → ℕ → Checked → Checked
check_base o c first =
    if first.ok && not (bit_and o add_const == 0)
    then check_ids first.map (bit_and o no_add_const) (bit_and c no_add_const)
    else first

unfoldable pub check_scalar_ids : Idmap → ℕ → ℕ → Checked
check_scalar_ids m o c =
    if o == 0
    then record { ok = true; map = m }
    else check_base o (fresh_id m c) (check_ids (fresh m c) o (fresh_id m c))
