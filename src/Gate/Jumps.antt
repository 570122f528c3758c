-- ===== src/Gate/Jumps.antt =====
-- The jumps of the interpreter, from registers that agree on what bpflive_usedef calls read.
use verifierloop.Base.{ℕ, ◌%◌, ◌<◌, ◌≡◌, refl, sym, ap, inl, inr, arith}
use verifierloop.Base.{true, false, Bool, List, length, ◌==◌, ==_iff, if◌then◌else◌}
use verifierloop.Base.{Bool-cases, Option, none, some, bit_or}
use mathlib.Core.Path.{subst, ap₂}
use verifierloop.Insn.{Insn, op_of, is_x}
use verifierloop.Live.{bl_bit, Masks, Kfunc, usedef_jmp}
use verifierloop.Ref.{Outcome, val, fault, State, Next, exits, reg}
use verifierloop.Ref.{exec_jmp, jump_operand, branch, taken, modulus, unsupported}
use verifierloop.Gate.Follows.{AgreeOn, Follows, Follows-masks, testbit-bl_bit_self}
use verifierloop.Gate.Operands.{reads_left, reads_right}
use verifierloop.Gate.Kept.{nothing_written}

module _ (x : Insn) (s : State) (r' : List ℕ) (size : length s.regs ≡ 11) (size' : length r' ≡ 11)
    (dst_small : x.dst_reg < 11) (src_small : x.src_reg < 11) where
  abbrev d : ℕ
  d = bl_bit x.dst_reg

  abbrev sr : ℕ
  sr = bl_bit x.src_reg

  abbrev s' : State
  s' = record s { regs = r' }

  branch-Follows :
      (pc : ℕ) (t t' : Option Bool)
      → t ≡ t'
      → Follows 0 s.regs r' (branch pc x s t) (branch pc x s' t')
  unfolding branch
  branch-Follows pc none t' e = tt
  branch-Follows pc (some b) t' e =
      subst (λ q. Follows 0 s.regs r' (branch pc x s (some b)) (branch pc x s' q)) e
        (nothing_written x s r' size size' dst_small src_small _ refl)

  -- JCOND and CALL have no meaning in the interpreter.
  taken_call : (m a b : ℕ) → taken m 0x80 a b ≡ none
  unfolding taken
  taken_call m a b = refl

  taken_jcond : (m a b : ℕ) → taken m 0xe0 a b ≡ none
  unfolding taken
  taken_jcond m a b = refl

  jump_operand-agree :
      (wide : Bool)
      → (is_x x.code ≡ true → reg s.regs x.src_reg ≡ reg r' x.src_reg)
      → jump_operand wide x s.regs ≡ jump_operand wide x r'
  unfolding jump_operand
  jump_operand-agree wide h = elim (Bool-cases (is_x x.code)) [
    | inl e ↦ rw e (ap (λ v. v % modulus wide) (h e))
    | inr e ↦ rw e refl
  ]

  taken-agree :
      (wide : Bool) (op : ℕ)
      → AgreeOn (bit_or d (if is_x x.code then sr else 0)) s.regs r'
      → taken (modulus wide) op (reg s.regs x.dst_reg % modulus wide) (jump_operand wide x s.regs)
        ≡ taken (modulus wide) op (reg r' x.dst_reg % modulus wide) (jump_operand wide x r')
  taken-agree wide op h =
      ap₂ (λ a b. taken (modulus wide) op (a % modulus wide) b)
        (h x.dst_reg (reads_left d _ x.dst_reg (testbit-bl_bit_self x.dst_reg (omega arith))))
        (jump_operand-agree wide λ e.
          h x.src_reg
            (rw e (reads_right d sr x.src_reg (testbit-bl_bit_self x.src_reg (omega arith)))))

  pub exec_jmp-Follows :
      (ks : List Kfunc) (wide : Bool) (pc : ℕ) (m : Masks)
      → usedef_jmp ks x d sr ≡ some m
      → AgreeOn m.uses s.regs r'
      → Follows m.defs s.regs r' (exec_jmp wide pc x s) (exec_jmp wide pc x s')
  unfolding exec_jmp usedef_jmp
  exec_jmp-Follows ks wide pc m u = elim (Bool-cases (op_of x.code == 0x90)) [
    | inl e ↦
        Follows-masks s.regs r' _ _ (record { uses = bl_bit 0; defs = 0 }) m (rw e at u)
          (λ h. rw e (exit wide (h 0 refl)))
    | inr a ↦ elim (Bool-cases (op_of x.code == 0x00)) [
      | inl e ↦
          Follows-masks s.regs r' _ _ (record { uses = 0; defs = 0 }) m (rw (a, e) at u)
            (λ h. rw (a, e) (nothing_written x s r' size size' dst_small src_small _ refl))
      | inr b ↦ elim (Bool-cases (op_of x.code == 0xe0)) [
        | inl e ↦ λ h. rw (a, b, (==_iff (op_of x.code) 0xe0).0 e, taken_jcond) (no_branch m _)
        | inr c ↦ elim (Bool-cases (op_of x.code == 0x80)) [
          | inl e ↦ λ h. rw (a, b, (==_iff (op_of x.code) 0x80).0 e, taken_call) (no_branch m _)
          | inr f ↦
              Follows-masks s.regs r' _ _
                (record { uses = bit_or d (if is_x x.code then sr else 0); defs = 0 }) m
                (rw (a, b, c, f) at u)
                (λ h. rw (a, b) (branch-Follows pc _ _ (taken-agree wide (op_of x.code) h)))
        ]
      ]
    ]
  ]
    where
      exit :
          (wide : Bool)
          → reg s.regs 0 ≡ reg r' 0
          → Follows 0 s.regs r'
              (if wide then val (exits (reg s.regs 0)) else fault unsupported)
              (if wide then val (exits (reg r' 0)) else fault unsupported)
      exit true e = ap (λ v. val (exits v)) (sym e)
      exit false e = tt

      no_branch : (m : Masks) (o : Outcome Next) → Follows m.defs s.regs r' (branch pc x s none) o
      no_branch m o = unfold branch in tt
