-- ===== src/Live/Usedef.antt =====
-- harness/bpflive.h, one instruction: bpflive_helper_argc, the kfunc registry, bpflive_usedef
-- and bpflive_succ. `none` is the -1 (or the 0) by which these functions refuse.
pub mod Registry
use verifierloop.Base.{ℕ, zero, suc, ◌+◌, ◌%◌, ◌^◌, ◌≤◌, bit_and, bit_or, Bool, true, false}
use verifierloop.Base.{◌&&◌, ◌||◌, not, Option, none, some, List, [], ◌∷◌, length}
use verifierloop.Base.{◌==◌, ltb, leb, if◌then◌else◌, ℤ, pos, negsuc, ◌++◌}
use verifierloop.Insn.{Insn, Class, ld, ldx, st, stx, alu, jmp, jmp32, alu64}
use verifierloop.Insn.{class_of, op_of, is_x, mode_of, ld_imm64, target}

unfoldable pub helper_argc : ℕ → Option ℕ
helper_argc imm =
    if imm == 1
    then some 2
    else if imm == 2
    then some 4
    else if imm == 3
    then some 2
    else if imm == 7
    then some 0
    else if imm == 84
    then some 5
    else if imm == 86
    then some 1
    else if imm == 197
    then some 4
    else if imm == 198
    then some 4
    else if imm == 199
    then some 2
    else if imm == 200
    then some 2
    else if imm == 6
    then some 2
    else none

-- The registry in order of registration: `bpflive_kfuncs[0 .. bpflive_nkfunc)`.
pub record Kfunc : Type 0 where
  pub btf_id : ℕ
  pub argc : ℕ

abbrev pub max_kfuncs : ℕ
max_kfuncs = 32

unfoldable pub kfunc_argc : List Kfunc → ℕ → Option ℕ
kfunc_argc [] id = none
kfunc_argc (k ∷ ks) id = if k.btf_id == id then some k.argc else kfunc_argc ks id

unfoldable pub registered : List Kfunc → ℕ → Bool
registered [] id = false
registered (k ∷ ks) id = k.btf_id == id || registered ks id

-- `btf_id` is an `int`, so a pattern of 2 ^ 31 or more is negative.
unfoldable pub register_kfunc : List Kfunc → ℕ → ℕ → List Kfunc
register_kfunc ks id argc =
    if id == 0 || leb (2 ^ 31) id || leb max_kfuncs (length ks)
    then ks
    else if registered ks id
    then ks
    else ks ++ record { btf_id = id; argc = argc } ∷ []

abbrev pub bl_bit : ℕ → ℕ
bl_bit r = 2 ^ r % 2 ^ 16

-- r0 .. r9.
abbrev pub tracked : ℕ
tracked = 0x03ff

pub record Masks : Type 0 where
  pub uses : ℕ
  pub defs : ℕ

-- `for (r = lo; r < lo + count; r++) m |= BL_BIT(r)` on an empty mask.
unfoldable pub bit_range : ℕ → ℕ → ℕ
bit_range lo zero = 0
bit_range lo (suc count) = bit_or (bl_bit lo) (bit_range (suc lo) count)

-- Arguments in r1 .., and r0 .. r5 clobbered.
unfoldable pub call_masks : ℕ → Masks
call_masks argc = record { uses = bit_range 1 argc; defs = bit_range 0 6 }

-- The atomics, for the masks `d` and `s` of the two registers.
unfoldable pub atomic_masks : ℕ → ℕ → ℕ → Masks
atomic_masks imm d s =
    if imm == 0x100
    then record { uses = s; defs = d }
    else if imm == 0x110
    then record { uses = bit_or d s; defs = 0 }
    else let fetch = if bit_and imm 0x01 == 0 then 0 else s in
      if bit_and imm 0xff == 0xf1
      then record { uses = bit_or (bit_or d s) (bl_bit 0); defs = bit_or fetch (bl_bit 0) }
      else record { uses = bit_or d s; defs = fetch }

abbrev masks_of_argc : Option ℕ → Option Masks
masks_of_argc none = none
masks_of_argc (some argc) = some (call_masks argc)

unfoldable pub usedef_call : List Kfunc → Insn → Option Masks
usedef_call ks x =
    if x.src_reg == 1
    then none
    else if x.src_reg == 2
    then masks_of_argc (kfunc_argc ks x.imm)
    else if x.src_reg == 0
    then masks_of_argc (helper_argc x.imm)
    else none

-- A byteswap reads and writes its register; MOV overwrites it without reading it.
unfoldable pub usedef_alu : ℕ → ℕ → ℕ → Masks
usedef_alu code d s = record {
  uses =
      if op_of code == 0xd0
      then d
      else bit_or (if op_of code == 0xb0 then 0 else d) (if is_x code then s else 0);
  defs = d;
}

unfoldable pub usedef_jmp : List Kfunc → Insn → ℕ → ℕ → Option Masks
usedef_jmp ks x d s =
    let op = op_of x.code in
    if op == 0x90
    then some (record { uses = bl_bit 0; defs = 0 })
    else if op == 0x00
    then some (record { uses = 0; defs = 0 })
    else if op == 0xe0
    then some (record { uses = 0; defs = 0 })
    else if op == 0x80
    then usedef_call ks x
    else some (record { uses = bit_or d (if is_x x.code then s else 0); defs = 0 })

-- The switch of bpflive_usedef.
unfoldable pub usedef_class : List Kfunc → Class → Insn → ℕ → ℕ → Option Masks
usedef_class ks alu x d s = some (usedef_alu x.code d s)
usedef_class ks alu64 x d s = some (usedef_alu x.code d s)
usedef_class ks ldx x d s = some (record { uses = s; defs = d })
usedef_class ks st x d s = some (record { uses = d; defs = 0 })
usedef_class ks stx x d s =
    if mode_of x.code == 0xc0
    then some (atomic_masks x.imm d s)
    else some (record { uses = bit_or d s; defs = 0 })
usedef_class ks ld x d s = if x.code == ld_imm64 then some (record { uses = 0; defs = d }) else none
usedef_class ks jmp x d s = usedef_jmp ks x d s
usedef_class ks jmp32 x d s = usedef_jmp ks x d s

unfoldable pub usedef : List Kfunc → Insn → Option Masks
usedef ks x = usedef_class ks (class_of x.code) x (bl_bit x.dst_reg) (bl_bit x.src_reg)

-- The test `t < 0 || t >= n` on a branch target.
unfoldable pub in_program : ℕ → ℤ → Option ℕ
in_program n (pos t) = if ltb t n then some t else none
in_program n (negsuc t) = none

abbrev pub next_of : Insn → ℕ → ℕ
next_of x i = if x.code == ld_imm64 then i + 2 else i + 1

abbrev pub fall_through : ℕ → ℕ → Option (List ℕ)
fall_through n next = if leb n next then none else some (next ∷ [])

abbrev pub one_target : Option ℕ → Option (List ℕ)
one_target none = none
one_target (some t) = some (t ∷ [])

abbrev pub two_targets : ℕ → ℕ → Option ℕ → Option (List ℕ)
two_targets n next none = none
two_targets n next (some t) =
    if ltb n next then none else some (t ∷ (if ltb next n then next ∷ [] else []))

-- The jumps of bpflive_succ; `displacement` is the width and the field that JA reads.
unfoldable pub succ_jmp : Bool → Insn → ℕ → ℕ → Option (List ℕ)
succ_jmp is32 x n i =
    let op = op_of x.code in
    if op == 0x90
    then some []
    else if op == 0x80
    then fall_through n (next_of x i)
    else if op == 0x00
    then if is_x x.code
      then none
      else one_target (in_program n (if is32 then target 32 i x.imm else target 16 i x.off))
    else two_targets n (next_of x i) (in_program n (target 16 i x.off))

unfoldable pub succ_class : Class → Insn → ℕ → ℕ → Option (List ℕ)
succ_class jmp x n i = succ_jmp false x n i
succ_class jmp32 x n i = succ_jmp true x n i
succ_class _ x n i = fall_through n (next_of x i)

unfoldable pub succ : Insn → ℕ → ℕ → Option (List ℕ)
succ x n i = succ_class (class_of x.code) x n i
