-- ===== src/Ref/Step.antt =====
-- harness/bpfref.h, one instruction: the switch on the class in bpfref_run_at2.
use verifierloop.Base.{ℕ, ◌+◌, ◌*◌, ◌/◌, ◌%◌, ◌^◌, bit_and, bit_or, bit_xor}
use verifierloop.Base.{Bool, true, false, not, ◌&&◌, ◌||◌, Option, none, some, List, get_or, set}
use verifierloop.Base.{get_elem?, ◌==◌, ltb, leb, if◌then◌else◌, ℤ, pos}
use verifierloop.Insn.{Insn, Class, ld, ldx, st, stx, alu, jmp, jmp32, alu64, class_of, op_of, is_x}
use verifierloop.Insn.{size_of, mode_of, ld_imm64, target}
use verifierloop.Ref.Alu.{Outcome, val, fault, ◌>>=◌, unsupported, oob, badpc, modulus, sext}
use verifierloop.Ref.Alu.{alu_result}
use verifierloop.Ref.Buffers.{Memory, Pointer, resolve, load, store}

pub record State : Type 0 where
  pub pc : ℤ
  pub regs : List ℕ
  pub memory : Memory

-- An instruction goes on to a state, or EXIT returns r0.
pub data Next : Type 0 where
  goes : State → Next
  exits : ℕ → Next

abbrev pub reg : List ℕ → ℕ → ℕ
reg r k = get_or r k 0

-- To the next instruction, with register `k` set.
abbrev pub advance : ℕ → List ℕ → Memory → Next
advance pc r m = goes (record { pc = pos (pc + 1); regs = r; memory = m })

abbrev pub width_of : ℕ → ℕ
width_of size =
    if size == 0x10 then 1 else if size == 0x08 then 2 else if size == 0x00 then 4 else 8

-- r + off, as uint64_t.
abbrev pub address : Insn → ℕ → ℕ
address x base = (base + sext 16 (2 ^ 64) x.off) % 2 ^ 64

abbrev pub resolved : ℕ → ℕ → Outcome Pointer
resolved addr w = elim (resolve addr w) [ none ↦ fault oob | some p ↦ val p ]

unfoldable pub exec_alu : Bool → ℕ → Insn → State → Outcome Next
exec_alu wide pc x s = do
  res ← alu_result wide x (reg s.regs x.dst_reg) (reg s.regs x.src_reg)
  val (advance pc (set s.regs x.dst_reg res) s.memory)

-- The second slot holds the upper half.
unfoldable pub imm64 : Insn → Option Insn → Outcome ℕ
imm64 x none = fault badpc
imm64 x (some y) = val (bit_or x.imm (y.imm * 2 ^ 32))

unfoldable pub ld_wide : List Insn → ℕ → Insn → State → Outcome Next
ld_wide ins pc x s = do
  v ← imm64 x (get_elem? ins (pc + 1))
  val (goes (record { pc = pos (pc + 2); regs = set s.regs x.dst_reg v; memory = s.memory }))

unfoldable pub exec_ld : List Insn → ℕ → Insn → State → Outcome Next
exec_ld ins pc x s =
    if x.code == ld_imm64 && x.src_reg == 0 then ld_wide ins pc x s else fault unsupported

-- MEM zero-extends, and MEMSX sign-extends to 64 bits.
unfoldable pub extend : ℕ → ℕ → ℕ → Outcome ℕ
extend mode w raw =
    if mode == 0x60
    then val raw
    else if mode == 0x80
    then if w == 1
      then val (sext 8 (2 ^ 64) raw)
      else if w == 2
      then val (sext 16 (2 ^ 64) raw)
      else if w == 4
      then val (sext 32 (2 ^ 64) raw)
      else fault unsupported
    else fault unsupported

unfoldable pub load_value : Insn → ℕ → Memory → Outcome ℕ
load_value x base m =
    let w = width_of (size_of x.code) in
    do p ← resolved (address x base) w; raw ← load m p w; extend (mode_of x.code) w raw

unfoldable pub exec_ldx : ℕ → Insn → State → Outcome Next
exec_ldx pc x s = do
  v ← load_value x (reg s.regs x.src_reg) s.memory
  val (advance pc (set s.regs x.dst_reg v) s.memory)

-- The value that an atomic stores, from the old one, the operand and r0; `m` is 2^64 or 2^32.
unfoldable pub atomic_op : ℕ → ℕ → ℕ → ℕ → Outcome ℕ
atomic_op aop old sv cmp =
    if aop == 0x00
    then val ((old + sv) % 2 ^ 64)
    else if aop == 0x40
    then val (bit_or old sv)
    else if aop == 0x50
    then val (bit_and old sv)
    else if aop == 0xa0
    then val (bit_xor old sv)
    else if aop == 0xe0
    then val sv
    else if aop == 0xf0
    then val (if old == cmp then sv else old)
    else fault unsupported

-- `imm & ~0x01` and `(imm & 0x01) != 0`.
abbrev pub atomic_aop : ℕ → ℕ
atomic_aop imm = bit_and imm 0xfffffffe

abbrev pub atomic_fetch : ℕ → Bool
atomic_fetch imm = not (bit_and imm 0x01 == 0)

-- CMPXCHG leaves the old value in r0, and the other fetching forms in the source register.
unfoldable pub atomic_regs : Insn → ℕ → List ℕ → List ℕ
atomic_regs x old r =
    if atomic_aop x.imm == 0xf0
    then set r 0 old
    else if atomic_fetch x.imm
    then set r x.src_reg old
    else r

-- What an atomic leaves: the old value and the memory after it.
pub record Swapped : Type 0 where
  pub old : ℕ
  pub memory : Memory

unfoldable pub atomic_swap : Bool → Insn → ℕ → ℕ → ℕ → Memory → Outcome Swapped
atomic_swap wide x base src r0 m =
    let w = if wide then 8 else 4 in
    do
      p ← resolved (address x base) w
      old ← load m p w
      res ← atomic_op (atomic_aop x.imm) old (src % modulus wide) (r0 % modulus wide)
      m' ← store m p w (res % modulus wide)
      val (record { old = old % modulus wide; memory = m' })

unfoldable pub atomic_step : Bool → ℕ → Insn → State → Outcome Next
atomic_step wide pc x s = do
  t ← atomic_swap wide x (reg s.regs x.dst_reg) (reg s.regs x.src_reg) (reg s.regs 0) s.memory
  val (advance pc (atomic_regs x t.old s.regs) t.memory)

unfoldable pub exec_atomic : ℕ → Insn → State → Outcome Next
exec_atomic pc x s =
    let size = size_of x.code in
    if size == 0x00
    then atomic_step false pc x s
    else if size == 0x18
    then atomic_step true pc x s
    else fault unsupported

-- What ST stores: the immediate, sign-extended only in an 8-byte store.
abbrev pub st_imm : ℕ → ℕ → ℕ
st_imm w imm = if w == 8 then sext 32 (2 ^ 64) imm else imm

unfoldable pub store_step : ℕ → Insn → ℕ → State → Outcome Next
store_step pc x v s = do
  p ← resolved (address x (reg s.regs x.dst_reg)) (width_of (size_of x.code))
  m ← store s.memory p (width_of (size_of x.code)) v
  val (advance pc s.regs m)

unfoldable pub exec_store : ℕ → Insn → ℕ → State → Outcome Next
exec_store pc x v s = if mode_of x.code == 0x60 then store_step pc x v s else fault unsupported

-- Signed order: the sign bit is flipped.
abbrev pub signed : ℕ → ℕ → ℕ
signed m a = (a + m / 2) % m

-- Whether a conditional jump is taken; `none` is the switch's default.
unfoldable pub taken : ℕ → ℕ → ℕ → ℕ → Option Bool
taken m op a b =
    let sa = signed m a in
    let sb = signed m b in
    if op == 0x10
    then some (a == b)
    else if op == 0x50
    then some (not (a == b))
    else if op == 0x20
    then some (ltb b a)
    else if op == 0x30
    then some (leb b a)
    else if op == 0xa0
    then some (ltb a b)
    else if op == 0xb0
    then some (leb a b)
    else if op == 0x40
    then some (not (bit_and a b == 0))
    else if op == 0x60
    then some (ltb sb sa)
    else if op == 0x70
    then some (leb sb sa)
    else if op == 0xc0
    then some (ltb sa sb)
    else if op == 0xd0
    then some (leb sa sb)
    else none

unfoldable pub branch : ℕ → Insn → State → Option Bool → Outcome Next
branch pc x s none = fault unsupported
branch pc x s (some t) =
    val (goes (record s { pc = if t then target 16 pc x.off else pos (pc + 1) }))

-- The second operand of a comparison, in the width of the class.
unfoldable pub jump_operand : Bool → Insn → List ℕ → ℕ
jump_operand wide x r =
    if is_x x.code
    then reg r x.src_reg % modulus wide
    else if wide
    then sext 32 (2 ^ 64) x.imm
    else x.imm

unfoldable pub exec_jmp : Bool → ℕ → Insn → State → Outcome Next
exec_jmp wide pc x s =
    let op = op_of x.code in
    let m = modulus wide in
    if op == 0x90
    then if wide then val (exits (reg s.regs 0)) else fault unsupported
    else if op == 0x00
    then val (goes (record s { pc = if wide then target 16 pc x.off else target 32 pc x.imm }))
    else branch pc x s (taken m op (reg s.regs x.dst_reg % m) (jump_operand wide x s.regs))

unfoldable pub exec_class : List Insn → Class → ℕ → Insn → State → Outcome Next
exec_class ins alu pc x s = exec_alu false pc x s
exec_class ins alu64 pc x s = exec_alu true pc x s
exec_class ins ld pc x s = exec_ld ins pc x s
exec_class ins ldx pc x s = exec_ldx pc x s
exec_class ins st pc x s = exec_store pc x (st_imm (width_of (size_of x.code)) x.imm) s
exec_class ins stx pc x s =
    if mode_of x.code == 0xc0 then exec_atomic pc x s else exec_store pc x (reg s.regs x.src_reg) s
exec_class ins jmp pc x s = exec_jmp true pc x s
exec_class ins jmp32 pc x s = exec_jmp false pc x s

unfoldable pub exec : List Insn → ℕ → Insn → State → Outcome Next
exec ins pc x s =
    if ltb 10 x.dst_reg || ltb 10 x.src_reg
    then fault unsupported
    else exec_class ins (class_of x.code) pc x s
