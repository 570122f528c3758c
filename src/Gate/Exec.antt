-- ===== src/Gate/Exec.antt =====
-- One instruction: the interpreter depends on what bpflive_usedef calls read, and no more.
use verifierloop.Base.{ℕ, ◌<◌, ◌≡◌, refl, inl, inr, arith}
use verifierloop.Base.{true, false, List, length, ◌==◌, Bool-cases, some, bit_or}
use verifierloop.Insn.{Insn, Class, ld, ldx, st, stx, alu, alu64, jmp, jmp32, class_of, mode_of}
use verifierloop.Insn.{ld_imm64}
use verifierloop.Live.{bl_bit, Masks, Kfunc, usedef, usedef_class, usedef_alu}
use verifierloop.Ref.{State, exec_class}
use verifierloop.Gate.Follows.{AgreeOn, Follows, Follows-masks}
use verifierloop.Gate.Encoding.{atomic_ok}
use verifierloop.Gate.Kept.{exec_alu-Follows, exec_ldx-Follows, exec_ld-Follows, exec_store-Follows}
use verifierloop.Gate.Kept.{both_agree}
use verifierloop.Gate.Atomics.{exec_atomic-Follows}
use verifierloop.Gate.Operands.{reads_left}
use verifierloop.Gate.Jumps.{exec_jmp-Follows}

module _ (x : Insn) (s : State) (r' : List ℕ) (size : length s.regs ≡ 11) (size' : length r' ≡ 11)
    (dst_small : x.dst_reg < 11) (src_small : x.src_reg < 11) where
  abbrev d : ℕ
  d = bl_bit x.dst_reg

  abbrev sr : ℕ
  sr = bl_bit x.src_reg

  abbrev s' : State
  s' = record s { regs = r' }

  exec_class-Follows :
      (ks : List Kfunc) (ins : List Insn) (c : Class) (pc : ℕ) (m : Masks)
      → atomic_ok c x ≡ true
      → usedef_class ks c x d sr ≡ some m
      → AgreeOn m.uses s.regs r'
      → Follows m.defs s.regs r' (exec_class ins c pc x s) (exec_class ins c pc x s')
  unfolding exec_class usedef_class usedef_alu
  exec_class-Follows ks ins alu pc m a u =
      Follows-masks s.regs r' _ _ _ m u
        (exec_alu-Follows x s r' size size' dst_small src_small false pc)
  exec_class-Follows ks ins alu64 pc m a u =
      Follows-masks s.regs r' _ _ _ m u
        (exec_alu-Follows x s r' size size' dst_small src_small true pc)
  exec_class-Follows ks ins ldx pc m a u =
      Follows-masks s.regs r' _ _ _ m u (exec_ldx-Follows x s r' size size' dst_small src_small pc)
  exec_class-Follows ks ins st pc m a u =
      Follows-masks s.regs r' _ _ _ m u
        (exec_store-Follows x s r' size size' dst_small src_small pc _ _ refl)
  exec_class-Follows ks ins stx pc m a u = elim (Bool-cases (mode_of x.code == 0xc0)) [
    | inl e ↦
        Follows-masks s.regs r' _ _ _ m (rw e at u)
          (λ h. rw e (exec_atomic-Follows x s r' size size' dst_small src_small (rw e at a) pc h))
    | inr e ↦
        Follows-masks s.regs r' _ _ (record { uses = bit_or d sr; defs = 0 }) m (rw e at u)
          (λ h.
            let (_, to_src) = both_agree x s r' size size' dst_small src_small h in
            rw e (
              exec_store-Follows x s r' size size' dst_small src_small pc _ _ to_src
                (λ k b. h k (reads_left d sr k b))))
  ]
  exec_class-Follows ks ins ld pc m a u = elim (Bool-cases (x.code == ld_imm64)) [
    | inl e ↦
        Follows-masks s.regs r' _ _ (record { uses = 0; defs = d }) m (rw e at u)
          (λ _. exec_ld-Follows x s r' size size' dst_small src_small ins pc)
    | inr e ↦ absurd (ground arith)
  ]
  exec_class-Follows ks ins jmp pc m a u =
      exec_jmp-Follows x s r' size size' dst_small src_small ks true pc m u
  exec_class-Follows ks ins jmp32 pc m a u =
      exec_jmp-Follows x s r' size size' dst_small src_small ks false pc m u

  pub exec-Follows :
      (ks : List Kfunc) (ins : List Insn) (pc : ℕ) (m : Masks)
      → atomic_ok (class_of x.code) x ≡ true
      → usedef ks x ≡ some m
      → AgreeOn m.uses s.regs r'
      → Follows m.defs s.regs r'
          (exec_class ins (class_of x.code) pc x s)
          (exec_class ins (class_of x.code) pc x s')
  unfolding usedef
  exec-Follows ks ins pc m a u = exec_class-Follows ks ins (class_of x.code) pc m a u
