-- ===== src/Insn.antt =====
-- `struct bpf_insn` of <linux/bpf.h> as the interpreters read it, and the opcode pieces that
-- harness/bpflive.h and harness/bpfref.h each spell for themselves. `off` and `imm` are held as
-- their 16-bit and 32-bit patterns; where the code reads them signed, so do the definitions.
use verifierloop.Base.{ℕ, ◌+◌, ◌/◌, ◌^◌, bit_and, Bool}
use verifierloop.Base.{◌==◌, ltb, if◌then◌else◌, ℤ, pos, sub_ℕ}

pub record Insn : Type 0 where
  pub code : ℕ
  pub dst_reg : ℕ
  pub src_reg : ℕ
  pub off : ℕ
  pub imm : ℕ

-- The three low bits of an opcode; every value is one of these.
pub data Class : Type 0 where
  ld ldx st stx alu jmp jmp32 alu64 : Class

unfoldable pub class_of : ℕ → Class
class_of c =
    let k = bit_and c 0x07 in
    if k == 0x00
    then ld
    else if k == 0x01
    then ldx
    else if k == 0x02
    then st
    else if k == 0x03
    then stx
    else if k == 0x04
    then alu
    else if k == 0x05
    then jmp
    else if k == 0x06
    then jmp32
    else alu64

abbrev pub op_of : ℕ → ℕ
op_of c = bit_and c 0xf0

abbrev pub is_x : ℕ → Bool
is_x c = bit_and c 0x08 == 0x08

abbrev pub size_of : ℕ → ℕ
size_of c = bit_and c 0x18

abbrev pub mode_of : ℕ → ℕ
mode_of c = bit_and c 0xe0

-- LD_IMM64, which occupies two slots.
abbrev pub ld_imm64 : ℕ
ld_imm64 = 0x18

-- i + 1 + d, for a displacement d given as a pattern of `w` bits.
unfoldable pub target : ℕ → ℕ → ℕ → ℤ
target w i d = if ltb d (2 ^ w / 2) then pos (i + 1 + d) else sub_ℕ (i + 1 + d) (2 ^ w)
