-- ===== src/Gen/Coding.antt =====
-- The encodings of the instruction set, as far as bpfref.h runs them: what an arithmetic instruction may
-- say in its opcode and its offset, and a load, a store or an atomic in its opcode and its immediate.
use verifierloop.Base.{
  ℕ, Bool, true, false, not, ◌&&◌, ◌||◌, List, [], ◌∷◌, ◌==◌, ltb, if◌then◌else◌,
}
use verifierloop.Insn.{
  Insn, Class, ldx, st, stx, alu, alu64, class_of, op_of, mode_of, size_of, is_x, ld_imm64,
}

-- DIV and MOD have offset 1 in their signed form; a MOV of a register has the width that it extends
-- from, which is 32 in the 64-bit class only; every other operation that bpfref.h runs has offset 0.
abbrev alu_coded : Bool → Insn → Bool
alu_coded wide x =
    let op = op_of x.code in
    if op == 0x30 || op == 0x90
    then x.off == 0 || x.off == 1
    else if op == 0xb0
    then x.off == 0 || (is_x x.code && (x.off == 8 || x.off == 16 || (wide && x.off == 32)))
    else x.off == 0 && ltb op 0xd0

-- ADD, OR, AND and XOR, with and without FETCH; XCHG and CMPXCHG.
abbrev is_atomic_imm : ℕ → Bool
is_atomic_imm i =
    i == 0x00
    || i == 0x01
    || i == 0x40
    || i == 0x41
    || i == 0x50
    || i == 0x51
    || i == 0xa0
    || i == 0xa1
    || i == 0xe1
    || i == 0xf1

-- An atomic has four or eight bytes, and a load that extends the sign fewer than eight.
abbrev pub is_coded : Class → Insn → Bool
is_coded alu x = alu_coded false x
is_coded alu64 x = alu_coded true x
is_coded ldx x = mode_of x.code == 0x60 || (mode_of x.code == 0x80 && not (size_of x.code == 0x18))
is_coded st x = mode_of x.code == 0x60
is_coded stx x =
    mode_of x.code == 0x60
    || (mode_of x.code == 0xc0
        && ((size_of x.code == 0x00 || size_of x.code == 0x18) && is_atomic_imm x.imm))
is_coded _ x = true

-- The instructions of a stream; `slot` says that it begins with the second slot of a LD_IMM64.
abbrev pub coded : Bool → List Insn → Bool
coded slot [] = true
coded slot (x ∷ xs) =
    (if slot then true else is_coded (class_of x.code) x)
    && coded (not slot && x.code == ld_imm64) xs
