-- ===== src/Ref/Alu.antt =====
-- harness/bpfref.h, the ALU and ALU64 classes: one 64-bit or 32-bit operation.
use verifierloop.Base.{ℕ, ◌+◌, ◌-◌, ◌*◌, ◌/◌, ◌%◌, ◌^◌, bit_and, bit_or, bit_xor, Bool, ◌&&◌}
use verifierloop.Base.{◌==◌, ltb, if◌then◌else◌}
use verifierloop.Insn.{Insn, op_of, is_x}

-- The faults of `enum bpfref_status`, and `undefined` where the C code has no defined behaviour:
-- a shift by the width or more, or an access through a pointer outside its buffer.
pub data Fault : Type 0 where
  unsupported oob loop badpc undefined : Fault

pub data Status : Type 0 where
  ok : Status
  failed : Fault → Status

pub data Outcome {ℓ} (A : Type ℓ) : Type ℓ where
  val : A → Outcome A
  fault : Fault → Outcome A

infixl 5 ◌>>=◌
abbrev pub ◌>>=◌ {ℓ κ} : {A : Type ℓ} {B : Type κ} → Outcome A → (A → Outcome B) → Outcome B
val a >>= f = f a
fault s >>= f = fault s

-- 2^64 or 2^32.
abbrev pub modulus : Bool → ℕ
modulus wide = if wide then 2 ^ 64 else 2 ^ 32

abbrev pub width : Bool → ℕ
width wide = if wide then 64 else 32

-- The low `k` bits of `v`, sign-extended to the modulus `m`.
abbrev pub sext : ℕ → ℕ → ℕ → ℕ
sext k m v = if ltb (v % 2 ^ k) (2 ^ k / 2) then v % 2 ^ k else m - 2 ^ k + v % 2 ^ k

-- The two's complement magnitude, and the value of a given sign and magnitude.
abbrev pub negative : ℕ → ℕ → Bool
negative m a = if ltb a (m / 2) then Bool.false else Bool.true

abbrev pub magnitude : ℕ → ℕ → ℕ
magnitude m a = if ltb a (m / 2) then a else m - a

abbrev pub with_sign : ℕ → Bool → ℕ → ℕ
with_sign m minus q = if minus then (m - q) % m else q

-- Signed division and remainder, which truncate: 0 or the dividend on a zero divisor, and the
-- minimum by -1 wraps.
unfoldable pub sdiv : ℕ → ℕ → ℕ → ℕ
sdiv m a b =
    if b == 0
    then 0
    else if b == m - 1 && a == m / 2
    then a
    else let q = magnitude m a / magnitude m b in
      if negative m a
      then with_sign m (if negative m b then Bool.false else Bool.true) q
      else with_sign m (negative m b) q

unfoldable pub smod : ℕ → ℕ → ℕ → ℕ
smod m a b =
    if b == 0
    then a
    else if b == m - 1 && a == m / 2
    then 0
    else with_sign m (negative m a) (magnitude m a % magnitude m b)

-- Shifts to the right of a negative number repeat its sign, as gcc defines them.
unfoldable pub arsh : ℕ → ℕ → ℕ → ℕ
arsh m a s = if ltb a (m / 2) then a / 2 ^ s else m - 1 - (m - 1 - a) / 2 ^ s

-- The amount of a shift, masked only if it comes from a register.
abbrev pub shift_amount : Bool → Bool → ℕ → ℕ
shift_amount wide x v = if x then bit_and v (width wide - 1) else v

unfoldable pub shift : Bool → (ℕ → ℕ) → ℕ → Outcome ℕ
shift wide f s = if ltb s (width wide) then val (f s) else fault undefined

unfoldable pub mov : ℕ → Bool → ℕ → ℕ → Outcome ℕ
mov m x off v =
    if off == 0
    then val (v % m)
    else if x
    then if off == 8
      then val (sext 8 m v)
      else if off == 16
      then val (sext 16 m v)
      else if off == 32
      then val (sext 32 m v)
      else fault unsupported
    else fault unsupported

unfoldable pub div_op : ℕ → ℕ → ℕ → ℕ → Outcome ℕ
div_op m off a b =
    if off == 0
    then val (if b == 0 then 0 else a / b)
    else if off == 1
    then val (sdiv m a b)
    else fault unsupported

unfoldable pub mod_op : ℕ → ℕ → ℕ → ℕ → Outcome ℕ
mod_op m off a b =
    if off == 0
    then val (if b == 0 then a else a % b)
    else if off == 1
    then val (smod m a b)
    else fault unsupported

-- The switch on the operation: `d` is the destination's value and `v` the other operand.
unfoldable pub alu_op : Bool → ℕ → Bool → ℕ → ℕ → ℕ → Outcome ℕ
alu_op wide op x off d v =
    let m = modulus wide in
    let a = d % m in
    let b = v % m in
    let s = shift_amount wide x b in
    if op == 0x00
    then val ((a + b) % m)
    else if op == 0x10
    then val ((a + m - b) % m)
    else if op == 0x20
    then val (a * b % m)
    else if op == 0x40
    then val (bit_or a b)
    else if op == 0x50
    then val (bit_and a b)
    else if op == 0xa0
    then val (bit_xor a b)
    else if op == 0x60
    then shift wide (λ k. a * 2 ^ k % m) s
    else if op == 0x70
    then shift wide (λ k. a / 2 ^ k) s
    else if op == 0xc0
    then shift wide (arsh m a) s
    else if op == 0x80
    then val ((m - a) % m)
    else if op == 0xb0
    then mov m x off v
    else if op == 0x30
    then div_op m off a b
    else if op == 0x90
    then mod_op m off a b
    else fault unsupported

-- The immediate as the second operand: sign-extended in the 64-bit class only.
abbrev pub alu_imm : Bool → ℕ → ℕ
alu_imm wide imm = if wide then sext 32 (2 ^ 64) imm else imm

unfoldable pub alu_result : Bool → Insn → ℕ → ℕ → Outcome ℕ
alu_result wide x d s =
    alu_op wide (op_of x.code) (is_x x.code) x.off d (if is_x x.code then s else alu_imm wide x.imm)
