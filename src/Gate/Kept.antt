-- ===== src/Gate/Kept.antt =====
-- One instruction of the interpreter, from registers that agree on what bpflive_usedef calls read.
use verifierloop.Base.{ℕ, ◌+◌, ◌<◌, ◌≡◌, refl, sym, ap, ◌∙◌, inl, inr, arith}
use verifierloop.Base.{Bool, List, length, set, ◌==◌, ◌&&◌}
use verifierloop.Base.{Bool-cases, bit_or, get_elem?}
use verifierloop.Base.{length-set}
use verifierloop.Base.Bits.{testbit-zero}
use mathlib.Core.Bool.{false≢true}
use verifierloop.Insn.{Insn, mode_of, size_of, ld_imm64}
use verifierloop.Live.{bl_bit, usedef_alu}
use verifierloop.Ref.{val, State, goes, reg}
use verifierloop.Ref.{exec_alu, exec_ldx, exec_ld, ld_wide, imm64, load_value, resolved, address}
use verifierloop.Ref.{store, store_step, exec_store, width_of}
use verifierloop.Ref.{advance}
use verifierloop.Gate.Follows.{AgreeOn, Follows, Follows-bind, Follows-same, Kept-set}
use verifierloop.Gate.Follows.{testbit-bl_bit_self}
use verifierloop.Gate.Operands.{reads_left, reads_right, alu_result-agree}

module _ (x : Insn) (s : State) (r' : List ℕ) (size : length s.regs ≡ 11) (size' : length r' ≡ 11)
    (dst_small : x.dst_reg < 11) (src_small : x.src_reg < 11) where
  abbrev pub d : ℕ
  d = bl_bit x.dst_reg

  abbrev pub sr : ℕ
  sr = bl_bit x.src_reg

  abbrev pub s' : State
  s' = record s { regs = r' }

  pub dst_agrees : AgreeOn d s.regs r' → reg s.regs x.dst_reg ≡ reg r' x.dst_reg
  dst_agrees h = h x.dst_reg (testbit-bl_bit_self x.dst_reg (omega arith))

  pub src_agrees : AgreeOn sr s.regs r' → reg s.regs x.src_reg ≡ reg r' x.src_reg
  src_agrees h = h x.src_reg (testbit-bl_bit_self x.src_reg (omega arith))

  pub both_agree :
      AgreeOn (bit_or d sr) s.regs r'
      → (reg s.regs x.dst_reg ≡ reg r' x.dst_reg) × (reg s.regs x.src_reg ≡ reg r' x.src_reg)
  both_agree h = (
    dst_agrees (λ k b. h k (reads_left d sr k b)),
    src_agrees (λ k b. h k (reads_right d sr k b)),
  )

  -- The destination is written, in both.
  written :
      (pc v : ℕ)
      → Follows d s.regs r'
          (val (advance pc (set s.regs x.dst_reg v) s.memory))
          (val (advance pc (set r' x.dst_reg v) s.memory))
  written pc v = (
    set r' x.dst_reg v,
    refl,
    Kept-set s.regs r' x.dst_reg v (omega arith) (omega arith) (omega arith),
    length-set r' x.dst_reg v,
    length-set s.regs x.dst_reg v,
  )

  pub exec_alu-Follows :
      (wide : Bool) (pc : ℕ)
      → AgreeOn (usedef_alu x.code d sr).uses s.regs r'
      → Follows d s.regs r' (exec_alu wide pc x s) (exec_alu wide pc x s')
  unfolding exec_alu
  exec_alu-Follows wide pc h =
      Follows-bind d s.regs r' _ _ _ _
        (alu_result-agree x s.regs r' (omega arith) (omega arith) wide h) (written pc)

  pub exec_ldx-Follows :
      (pc : ℕ) → AgreeOn sr s.regs r' → Follows d s.regs r' (exec_ldx pc x s) (exec_ldx pc x s')
  unfolding exec_ldx
  exec_ldx-Follows pc h =
      Follows-bind d s.regs r' _ _ _ _ (ap (λ a. load_value x a s.memory) (src_agrees h))
        (written pc)

  pub exec_ld-Follows :
      (ins : List Insn) (pc : ℕ) → Follows d s.regs r' (exec_ld ins pc x s) (exec_ld ins pc x s')
  unfolding exec_ld ld_wide
  exec_ld-Follows ins pc = elim (Bool-cases (x.code == ld_imm64 && x.src_reg == 0)) [
    | inr e ↦ rw e tt
    | inl e ↦ rw e (
        Follows-bind d s.regs r' (imm64 x (get_elem? ins (pc + 1))) _ _ _ refl (λ v. (
          set r' x.dst_reg v,
          refl,
          Kept-set s.regs r' x.dst_reg v (omega arith) (omega arith) (omega arith),
          length-set r' x.dst_reg v,
          length-set s.regs x.dst_reg v,
        )))
  ]

  pub nothing_written :
      (t : State)
      → t.regs ≡ s.regs
      → Follows 0 s.regs r' (val (goes t)) (val (goes (record t { regs = r' })))
  nothing_written t e =
      Follows-same 0 s.regs r' t e (λ k b. absurd (false≢true (sym (testbit-zero k) ∙ b)))

  pub exec_store-Follows :
      (pc v v' : ℕ)
      → v ≡ v'
      → AgreeOn d s.regs r'
      → Follows 0 s.regs r' (exec_store pc x v s) (exec_store pc x v' s')
  unfolding exec_store store_step
  exec_store-Follows pc v v' e h = elim (Bool-cases (mode_of x.code == 0x60)) [
    | inr m ↦ rw m tt
    | inl m ↦
        let w = width_of (size_of x.code) in
        rw m (
          Follows-bind 0 s.regs r' _ _ _ _ (ap (λ a. resolved (address x a) w) (dst_agrees h)) λ p.
            Follows-bind 0 s.regs r' _ _ _ _ (ap (store s.memory p w) e)
              λ m'. nothing_written _ refl)
  ]
