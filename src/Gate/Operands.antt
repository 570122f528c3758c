-- ===== src/Gate/Operands.antt =====
-- The operands of an ALU instruction that bpflive_usedef calls read are all that its result takes.
use verifierloop.Base.{ℕ, ◌<◌, ◌≡◌, refl, ap, inl, inr, arith}
use verifierloop.Base.{true, false, Bool, List, ◌==◌, ==_iff, if◌then◌else◌}
use verifierloop.Base.{Bool-cases, bit_or}
use verifierloop.Base.Bits.{testbit, testbit-bit_or}
use mathlib.Core.Path.{ap₂}
use verifierloop.Insn.{Insn, op_of, is_x}
use verifierloop.Live.{bl_bit, usedef_alu}
use verifierloop.Ref.{reg}
use verifierloop.Ref.{alu_result, alu_op, alu_imm, mov, modulus}
use verifierloop.Gate.Follows.{AgreeOn}
use verifierloop.Gate.Follows.{testbit-bl_bit_self}

-- What a bit of a union says.
pub reads_left : (a b k : ℕ) → testbit a k ≡ true → testbit (bit_or a b) k ≡ true
reads_left a b k h = ground (arith, testbit-bit_or a b k)

pub reads_right : (a b k : ℕ) → testbit b k ≡ true → testbit (bit_or a b) k ≡ true
reads_right a b k h = ground (arith, testbit-bit_or a b k)

module _ (x : Insn) (r r' : List ℕ) (dst_small : x.dst_reg < 16) (src_small : x.src_reg < 16) where
  abbrev pub d : ℕ
  d = bl_bit x.dst_reg

  abbrev pub sr : ℕ
  sr = bl_bit x.src_reg

  pub alu_other :
      (wide : Bool)
      → (is_x x.code ≡ true → reg r x.src_reg ≡ reg r' x.src_reg)
      → (if is_x x.code then reg r x.src_reg else alu_imm wide x.imm)
        ≡ (if is_x x.code then reg r' x.src_reg else alu_imm wide x.imm)
  alu_other wide h = elim (Bool-cases (is_x x.code)) [ inl e ↦ rw e (h e) | inr e ↦ rw e refl ]

  alu_reads :
      AgreeOn (usedef_alu x.code d sr).uses r r'
      → (op_of x.code == 0xd0) ≡ false
      → (is_x x.code ≡ true → reg r x.src_reg ≡ reg r' x.src_reg)
        × ((op_of x.code == 0xb0) ≡ false → reg r x.dst_reg ≡ reg r' x.dst_reg)
  unfolding usedef_alu
  alu_reads h e = (
    λ xx. h x.src_reg (rw (e, xx) (reads_right _ sr x.src_reg (testbit-bl_bit_self _ src_small))),
    λ m. h x.dst_reg (rw (e, m) (reads_left d _ x.dst_reg (testbit-bl_bit_self _ dst_small))),
  )

  alu_op_end :
      (wide b : Bool) (off p q p' q' : ℕ)
      → alu_op wide 0xd0 b off p q ≡ alu_op wide 0xd0 b off p' q'
  unfolding alu_op
  alu_op_end wide b off p q p' q' = refl

  alu_op_mov :
      (wide b : Bool) (off p p' q q' : ℕ)
      → q ≡ q'
      → alu_op wide 0xb0 b off p q ≡ alu_op wide 0xb0 b off p' q'
  unfolding alu_op
  alu_op_mov wide b off p p' q q' e = ap (mov (modulus wide) b off) e

  -- MOV does not read its destination, and an immediate form does not read a source.
  pub alu_result-agree :
      (wide : Bool)
      → AgreeOn (usedef_alu x.code d sr).uses r r'
      → alu_result wide x (reg r x.dst_reg) (reg r x.src_reg)
        ≡ alu_result wide x (reg r' x.dst_reg) (reg r' x.src_reg)
  unfolding alu_result
  alu_result-agree wide h = elim (Bool-cases (op_of x.code == 0xd0)) [
    | inl e ↦ rw ((==_iff (op_of x.code) 0xd0).0 e) (alu_op_end wide (is_x x.code) x.off _ _ _ _)
    | inr e ↦
        let (from_src, from_dst) = alu_reads h e in
        let other = alu_other wide from_src in
        elim (Bool-cases (op_of x.code == 0xb0)) [
          | inl m ↦
              rw ((==_iff (op_of x.code) 0xb0).0 m)
                (alu_op_mov wide (is_x x.code) x.off _ _ _ _ other)
          | inr m ↦
              ap₂ (λ p q. alu_op wide (op_of x.code) (is_x x.code) x.off p q) (from_dst m) other
        ]
  ]
