-- ===== src/Live/Flow.antt =====
-- harness/bpflive.h, bpflive_run: the pass that collects use, def and successors, and the
-- backward sweeps to a fixed point.
pub mod Sweep
pub mod Order
pub mod Fixpoint
pub mod Paths
pub mod Scanned
pub mod Correct
use verifierloop.Base.{ℕ, zero, suc, ◌+◌, ◌*◌, bit_and, bit_or, bit_xor, Bool, true, false}
use verifierloop.Base.{
  ◌&&◌, ◌||◌, Option, none, some, List, [], ◌∷◌, length, get_or, set, replicate,
}
use verifierloop.Base.{◌==◌, ltb, leb, if◌then◌else◌}
use verifierloop.Insn.{Insn, ld_imm64}
use verifierloop.Live.Usedef.{Kfunc, Masks, tracked, usedef, succ}

abbrev pub max_insn : ℕ
max_insn = 8192

-- use[i], def[i], succ[i] and skip[i].
pub record Node : Type 0 where
  pub uses : ℕ
  pub defs : ℕ
  pub succs : List ℕ
  pub skip : Bool

-- The second slot of a LD_IMM64.
abbrev pub tail_node : Node
tail_node = record { uses = 0; defs = 0; succs = []; skip = true }

-- The values of `out->why`.
pub data Why : Type 0 where
  bad_count bad_opcode bad_target : Why

pub data Scan : Type 0 where
  nodes : List Node → Scan
  refused : ℕ → Why → Scan

abbrev pub cons_node : Node → Scan → Scan
cons_node x (nodes xs) = nodes (x ∷ xs)
cons_node x (refused i w) = refused i w

abbrev pub node_or_refuse : ℕ → Option Masks → Option (List ℕ) → Scan → Scan
node_or_refuse i none ss rest = refused i bad_opcode
node_or_refuse i (some m) none rest = refused i bad_target
node_or_refuse i (some m) (some ss) rest =
    cons_node (record { uses = m.uses; defs = m.defs; succs = ss; skip = false }) rest

-- The first loop of bpflive_run from index `i` on; `skip` is skip[i].
unfoldable pub scan : List Kfunc → ℕ → ℕ → Bool → List Insn → Scan
scan ks n i skip [] = nodes []
scan ks n i true (x ∷ xs) = cons_node tail_node (scan ks n (i + 1) false xs)
scan ks n i false (x ∷ xs) =
    node_or_refuse i (usedef ks x) (succ x n i)
      (scan ks n (i + 1) (x.code == ld_imm64 && ltb (i + 1) n) xs)

abbrev pub live_at : List ℕ → ℕ → ℕ
live_at live i = get_or live i 0

abbrev pub node_at : List Node → ℕ → Node
node_at g i = get_or g i tail_node

-- after |= live_before[succ[i][k]], over k.
unfoldable pub live_after : List ℕ → List ℕ → ℕ
live_after live [] = 0
live_after live (s ∷ ss) = bit_or (live_at live s) (live_after live ss)

-- The mask that a node computes from those of its successors.
unfoldable pub transfer : Node → List ℕ → ℕ
transfer x live =
    bit_and (bit_or x.uses (bit_and (live_after live x.succs) (bit_xor x.defs 0xffff))) tracked

-- live_before, and `changed`.
pub record Pass : Type 0 where
  pub live : List ℕ
  pub changed : Bool

-- The body of the inner loop at index `i`.
unfoldable pub visit : List Node → ℕ → Pass → Pass
visit g i p =
    if (node_at g i).skip
    then p
    else let v = transfer (node_at g i) p.live in
      if v == live_at p.live i then p else record { live = set p.live i v; changed = true }

-- The inner loop, `for (i = n - 1; i >= 0; i--)`.
unfoldable pub sweep : List Node → ℕ → Pass → Pass
sweep g zero p = p
sweep g (suc i) p = sweep g i (visit g i p)

-- The outer loop, with the rounds that `guard` leaves.
unfoldable pub rounds : List Node → ℕ → List ℕ → List ℕ
rounds g zero live = live
rounds g (suc fuel) live =
    let p = sweep g (length g) (record { live = live; changed = false }) in
    elim (p.changed) [ true ↦ rounds g fuel p.live | false ↦ p.live ]

abbrev pub guard_limit : ℕ
guard_limit = 4 * max_insn

pub data Result : Type 0 where
  analysed : List ℕ → Result
  unsupported : Option ℕ → Why → Result

unfoldable pub solve : Scan → Result
solve (nodes g) = analysed (rounds g guard_limit (replicate (length g) 0))
solve (refused i w) = unsupported (some i) w

unfoldable pub run : List Kfunc → List Insn → Result
run ks ins =
    if length ins == 0 || ltb max_insn (length ins)
    then unsupported none bad_count
    else solve (scan ks (length ins) 0 false ins)
