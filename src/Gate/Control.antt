-- ===== src/Gate/Control.antt =====
-- Where the interpreter goes next is among the successors that bpflive_succ lists.
use verifierloop.Base.{ℕ, ◌+◌, ◌<◌, ◌≡◌, refl, inl, inr, arith, ◌∙◌, sym, ap, ◌⊎◌}
use verifierloop.Base.{true, false, Bool, List, [], ◌∷◌, ltb, leb, ◌==◌, ==_iff, Bool-cases}
use verifierloop.Base.{not, ◌%◌, Option-cases, Option, none, some, if◌then◌else◌, ℤ, pos}
use mathlib.Core.Path.{subst}
use verifierloop.Insn.{Insn, Class, ld, ldx, st, stx, alu, alu64, jmp, jmp32, class_of, mode_of}
use verifierloop.Insn.{ld_imm64, size_of, op_of, is_x, target}
use verifierloop.Live.{succ, succ_class, succ_jmp, next_of, in_program, fall_through, two_targets}
use verifierloop.Live.{one_target}
use verifierloop.Live.Flow.Paths.{Occurs}
use verifierloop.Ref.{Outcome, val, fault, ◌>>=◌, Next, goes, exits, State, exec_class, exec_alu}
use verifierloop.Ref.{exec_ld, ld_wide, exec_ldx, exec_store, store_step, exec_atomic, atomic_step}
use verifierloop.Ref.{
  exec_jmp, branch, taken, reg, modulus, jump_operand, unsupported, resolved, address, width_of,
  store,
}

-- An outcome that goes on goes to the instruction at `i`.
abbrev Advances : ℕ → Outcome Next → Type 0
Advances i o = (t : State) → o ≡ val (goes t) → t.pc ≡ pos i

Advances-bind {ℓ} :
    {A : Type ℓ} (i : ℕ) (o : Outcome A) (k : A → Outcome Next)
    → ((a : A) → Advances i (k a))
    → Advances i (o >>= k)
Advances-bind i (fault f) k h t e = cc
Advances-bind i (val a) k h t e = h a t e

Advances-goes : (i : ℕ) (s : State) → s.pc ≡ pos i → Advances i (val (goes s))
Advances-goes i s e t p = let same : s ≡ t = cc in subst (λ q. q.pc ≡ pos i) same e

Advances-fault : (i : ℕ) (f : _) → Advances i (fault f)
Advances-fault i f t e = cc

module _ (x : Insn) (s : State) (i : ℕ) where
  exec_alu-Advances : (wide : Bool) → Advances (i + 1) (exec_alu wide i x s)
  unfolding exec_alu
  exec_alu-Advances wide = Advances-bind (i + 1) _ _ (λ v. Advances-goes (i + 1) _ refl)

  exec_ldx-Advances : Advances (i + 1) (exec_ldx i x s)
  unfolding exec_ldx
  exec_ldx-Advances = Advances-bind (i + 1) _ _ (λ v. Advances-goes (i + 1) _ refl)

  store_step-Advances : (v : ℕ) → Advances (i + 1) (store_step i x v s)
  unfolding store_step
  store_step-Advances v =
      let w = width_of (size_of x.code) in
      Advances-bind (i + 1) (resolved (address x (reg s.regs x.dst_reg)) w) _
        λ p. Advances-bind (i + 1) (store s.memory p w v) _ (λ m. Advances-goes (i + 1) _ refl)

  exec_store-Advances : (v : ℕ) → Advances (i + 1) (exec_store i x v s)
  unfolding exec_store
  exec_store-Advances v = elim (Bool-cases (mode_of x.code == 0x60)) [
    | inl e ↦ rw e (store_step-Advances v)
    | inr e ↦ rw e (Advances-fault (i + 1) _)
  ]

  atomic_step-Advances : (wide : Bool) → Advances (i + 1) (atomic_step wide i x s)
  unfolding atomic_step
  atomic_step-Advances wide = Advances-bind (i + 1) _ _ (λ v. Advances-goes (i + 1) _ refl)

  exec_atomic-Advances : Advances (i + 1) (exec_atomic i x s)
  unfolding exec_atomic
  exec_atomic-Advances = elim (Bool-cases (size_of x.code == 0x00)) [
    | inl e ↦ rw e (atomic_step-Advances false)
    | inr e ↦ elim (Bool-cases (size_of x.code == 0x18)) [
      | inl f ↦ rw (e, f) (atomic_step-Advances true)
      | inr f ↦ rw (e, f) (Advances-fault (i + 1) _)
    ]
  ]

  ld_wide-Advances : (ins : List Insn) → Advances (i + 2) (ld_wide ins i x s)
  unfolding ld_wide
  ld_wide-Advances ins = Advances-bind (i + 2) _ _ (λ v. Advances-goes (i + 2) _ refl)

  exec_ld-Advances : (ins : List Insn) → Advances (next_of x i) (exec_ld ins i x s)
  unfolding exec_ld
  exec_ld-Advances ins = elim (Bool-cases (x.code == ld_imm64)) [
    | inr e ↦ rw e (Advances-fault (i + 1) _)
    | inl e ↦ elim (Bool-cases (x.src_reg == 0)) [
      | inr f ↦ rw (e, f) (Advances-fault (i + 2) _)
      | inl f ↦ rw (e, f) (ld_wide-Advances ins)
    ]
  ]

fall_through-Occurs : (n next : ℕ) (ss : List ℕ) → fall_through n next ≡ some ss → Occurs next ss
fall_through-Occurs n next ss e = elim (Bool-cases (leb n next)) [
  | inl f ↦ absurd (ground arith)
  | inr f ↦ subst (Occurs next) {x = next ∷ []} (ground arith) (inl refl)
]

-- The target of a branch, if the program goes on there.
target-Occurs : (n j : ℕ) (z : ℤ) → z ≡ pos j → j < n → in_program n z ≡ some j
unfolding in_program
target-Occurs n j z e lt = rw e (ground arith)

module _ (x : Insn) (s : State) (n i j : ℕ) (ss : List ℕ) (inside : j < n) where
  Advances-Occurs :
      (next : ℕ) (o : Outcome Next) (t : State)
      → Advances next o
      → o ≡ val (goes t)
      → t.pc ≡ pos j
      → fall_through n next ≡ some ss
      → Occurs j ss
  Advances-Occurs next o t adv e at u =
      let same : next ≡ j = cc (adv t e) in
      subst (λ k. Occurs k ss) same (fall_through-Occurs n next ss u)

  two_targets-Occurs :
      (z : ℤ)
      → (z ≡ pos j) ⊎ (i + 1 ≡ j)
      → two_targets n (i + 1) (in_program n z) ≡ some ss
      → Occurs j ss
  two_targets-Occurs z h u = elim (Option-cases (in_program n z)) [
    | inl none_ ↦ absurd (ground arith)
    | inr (k, e) ↦
        let listed : some (k ∷ (if ltb (i + 1) n then (i + 1) ∷ [] else [])) ≡ some ss =
          ground arith in
        subst (Occurs j) (some-path listed) (elim h [
          | inl to ↦ inl (cc (target-Occurs n j z to inside))
          | inr fall ↦ let lt : i + 1 < n = omega arith in inr (rw (ltb-true lt) (inl (sym fall)))
        ])
  ]
    where
      some-path : {a b : List ℕ} → some a ≡ some b → a ≡ b
      some-path e = cc

      ltb-true : {a b : ℕ} → a < b → ltb a b ≡ true
      ltb-true lt = ground arith

  branch-Occurs :
      (q : Option Bool) (t : State)
      → branch i x s q ≡ val (goes t)
      → t.pc ≡ pos j
      → (target 16 i x.off ≡ pos j) ⊎ (i + 1 ≡ j)
  unfolding branch
  branch-Occurs none t e at = cc
  branch-Occurs (some true) t e at =
      let same : record s { pc = target 16 i x.off } ≡ t = cc in
      inl (ap (λ (v : State). v.pc) same ∙ at)
  branch-Occurs (some false) t e at =
      let same : record s { pc = pos (i + 1) } ≡ t = cc in
      let here : pos (i + 1) ≡ pos j = ap (λ (v : State). v.pc) same ∙ at in inr (cc)

  goes-Occurs :
      (z : ℤ) (t : State)
      → val (goes (record s { pc = z })) ≡ val (goes t)
      → t.pc ≡ pos j
      → one_target (in_program n z) ≡ some ss
      → Occurs j ss
  goes-Occurs z t e at u =
      let same : record s { pc = z } ≡ t = cc in
      let here : in_program n z ≡ some j =
        target-Occurs n j z (ap (λ (v : State). v.pc) same ∙ at) inside in
      let listed : some (j ∷ []) ≡ some ss = rw here at u in
      let same_list : j ∷ [] ≡ ss = cc in subst (Occurs j) same_list (inl refl)

  abbrev ja_target : Bool → ℤ
  ja_target wide = if wide then target 16 i x.off else target 32 i x.imm

  ja_succ :
      (wide : Bool)
      → (op_of x.code == 0x90) ≡ false
      → (op_of x.code == 0x00) ≡ true
      → succ_jmp (not wide) x n i ≡ some ss
      → one_target (in_program n (ja_target wide)) ≡ some ss
  unfolding succ_jmp
  ja_succ wide a b u =
      let c : (op_of x.code == 0x80) ≡ false = ground arith in
      elim (Bool-cases (is_x x.code)) [
        | inl f ↦ absurd (ground arith)
        | inr f ↦ go wide (rw (a, c, b, f) at u)
      ]
    where
      go :
          (wide : Bool)
          → one_target (in_program n (if not wide then target 32 i x.imm else target 16 i x.off))
            ≡ some ss
          → one_target (in_program n (ja_target wide)) ≡ some ss
      go true v = v
      go false v = v

  exec_jmp-Occurs :
      (wide : Bool) (t : State)
      → (x.code == ld_imm64) ≡ false
      → exec_jmp wide i x s ≡ val (goes t)
      → t.pc ≡ pos j
      → succ_jmp (not wide) x n i ≡ some ss
      → Occurs j ss
  unfolding exec_jmp succ_jmp
  exec_jmp-Occurs wide t nld e at u = elim (Bool-cases (op_of x.code == 0x90)) [
    | inl a ↦ absurd (exits_no (rw a at e))
    | inr a ↦ elim (Bool-cases (op_of x.code == 0x00)) [
      | inl b ↦ goes-Occurs (ja_target wide) t (rw (a, b) at e) at (ja_succ wide a b u)
      | inr b ↦ elim (Bool-cases (op_of x.code == 0x80)) [
        | inl f ↦ absurd (call_no (rw (a, b, (==_iff (op_of x.code) 0x80).0 f) at e))
        | inr f ↦
            two_targets-Occurs (target 16 i x.off) (branch-Occurs _ t (rw (a, b) at e) at)
              (rw (a, f, b, nld) at u)
      ]
    ]
  ]
    where
      exits_no : (if wide then val (exits (reg s.regs 0)) else fault unsupported) ≡ val (goes t) → ⊥
      exits_no h = ground arith

      call_no :
          branch i x s (
              taken
                (modulus wide)
                0x80
                (reg s.regs x.dst_reg % modulus wide)
                (jump_operand wide x s.regs))
            ≡ val (goes t)
          → ⊥
      call_no h = unfold branch taken in cc h

  not_wide : ((x.code == ld_imm64) ≡ true → ⊥) → (x.code == ld_imm64) ≡ false
  not_wide h = elim (Bool-cases (x.code == ld_imm64)) [ inl e ↦ absurd (h e) | inr e ↦ e ]

  one_slot :
      {o : Outcome Next} (t : State)
      → ((x.code == ld_imm64) ≡ true → ⊥)
      → Advances (i + 1) o
      → o ≡ val (goes t)
      → t.pc ≡ pos j
      → fall_through n (next_of x i) ≡ some ss
      → Occurs j ss
  one_slot {o} t h adv e at u = Advances-Occurs (i + 1) o t adv e at (rw (not_wide h) at u)

  class_of-ld : (x.code == ld_imm64) ≡ true → class_of x.code ≡ ld
  unfolding class_of
  class_of-ld e = rw ((==_iff x.code ld_imm64).0 e) refl

  exec_class-Occurs :
      (ins : List Insn) (c : Class) (t : State)
      → ((x.code == ld_imm64) ≡ true → c ≡ ld)
      → exec_class ins c i x s ≡ val (goes t)
      → t.pc ≡ pos j
      → succ_class c x n i ≡ some ss
      → Occurs j ss
  unfolding exec_class succ_class
  exec_class-Occurs ins alu t k e at u =
      one_slot t (λ h. cc (k h)) (exec_alu-Advances x s i false) e at u
  exec_class-Occurs ins alu64 t k e at u =
      one_slot t (λ h. cc (k h)) (exec_alu-Advances x s i true) e at u
  exec_class-Occurs ins ld t k e at u = Advances-Occurs _ _ t (exec_ld-Advances x s i ins) e at u
  exec_class-Occurs ins ldx t k e at u = one_slot t (λ h. cc (k h)) (exec_ldx-Advances x s i) e at u
  exec_class-Occurs ins st t k e at u =
      one_slot t (λ h. cc (k h)) (exec_store-Advances x s i _) e at u
  exec_class-Occurs ins stx t k e at u = elim (Bool-cases (mode_of x.code == 0xc0)) [
    | inl f ↦ one_slot t (λ h. cc (k h)) (exec_atomic-Advances x s i) (rw f at e) at u
    | inr f ↦ one_slot t (λ h. cc (k h)) (exec_store-Advances x s i _) (rw f at e) at u
  ]
  exec_class-Occurs ins jmp t k e at u = exec_jmp-Occurs true t (not_wide (λ h. cc (k h))) e at u
  exec_class-Occurs ins jmp32 t k e at u = exec_jmp-Occurs false t (not_wide (λ h. cc (k h))) e at u

  -- The interpreter goes on to a successor, or out of the program.
  pub exec-Occurs :
      (ins : List Insn) (t : State)
      → exec_class ins (class_of x.code) i x s ≡ val (goes t)
      → t.pc ≡ pos j
      → succ x n i ≡ some ss
      → Occurs j ss
  unfolding succ
  exec-Occurs ins t e at u = exec_class-Occurs ins (class_of x.code) t class_of-ld e at u
