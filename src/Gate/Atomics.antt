-- ===== src/Gate/Atomics.antt =====
-- The atomics of the interpreter, from registers that agree on what bpflive_usedef calls read.
use verifierloop.Base.{ℕ, ◌%◌, ◌<◌, ◌≡◌, refl, sym, ◌∙◌, ◌⊎◌, inl, inr, arith}
use verifierloop.Base.{true, false, Bool, List, length, ◌==◌, ==_iff, if◌then◌else◌}
use verifierloop.Base.{Bool-cases, bit_or, bit_and}
use verifierloop.Base.{length-set}
use verifierloop.Base.Bits.{testbit, testbit-zero, testbit-bit_or}
use mathlib.Core.Bool.{false≢true}
use verifierloop.Insn.{Insn, size_of}
use verifierloop.Live.{bl_bit, Masks, atomic_masks}
use verifierloop.Ref.{Outcome, val, fault, ◌>>=◌, State, reg, Memory, Fault, Pointer}
use verifierloop.Ref.{resolved, address, load, unsupported}
use verifierloop.Ref.{store, atomic_swap, atomic_op, atomic_aop}
use verifierloop.Ref.{atomic_regs, atomic_fetch, atomic_step, exec_atomic, modulus, Swapped}
use verifierloop.Gate.Follows.{AgreeOn, Kept, Follows, Follows-bind, Kept-set_agreed}
use verifierloop.Gate.Follows.{testbit-bl_bit_self}
use verifierloop.Gate.Encoding.{cmpxchg_fetches}
use verifierloop.Gate.Operands.{reads_left, reads_right}

-- BPF_LOAD_ACQ and BPF_STORE_REL are outside the interpreter.
atomic_op_rejects :
    (aop old sv cmp : ℕ)
    → (aop ≡ 0x100) ⊎ (aop ≡ 0x110)
    → atomic_op aop old sv cmp ≡ fault unsupported
unfolding atomic_op
atomic_op_rejects aop old sv cmp (inl e) = rw e refl
atomic_op_rejects aop old sv cmp (inr e) = rw e refl

-- Only CMPXCHG compares.
atomic_op_cmp :
    (aop old sv cmp cmp' : ℕ)
    → (aop == 0xf0) ≡ false
    → atomic_op aop old sv cmp ≡ atomic_op aop old sv cmp'
unfolding atomic_op
atomic_op_cmp aop old sv cmp cmp' e = rw e refl

atomic_swap_rejects :
    (wide : Bool) (x : Insn) (base src r0 : ℕ) (m : Memory)
    → (atomic_aop x.imm ≡ 0x100) ⊎ (atomic_aop x.imm ≡ 0x110)
    → (f : Fault) × (atomic_swap wide x base src r0 m ≡ fault f)
unfolding atomic_swap
atomic_swap_rejects wide x base src r0 m h = go (resolved (address x base) (if wide then 8 else 4))
  where
    w : ℕ
    w = if wide then 8 else 4

    rest : Pointer → ℕ → Outcome Swapped
    rest p old = do
      res ← atomic_op (atomic_aop x.imm) old (src % modulus wide) (r0 % modulus wide)
      m' ← store m p w (res % modulus wide)
      val (record { old = old % modulus wide; memory = m' })

    inner : (p : Pointer) (l : Outcome ℕ) → (f : Fault) × ((l >>= rest p) ≡ fault f)
    inner p (fault f) = (f, refl)
    inner p (val old) = (unsupported, rw (atomic_op_rejects (atomic_aop x.imm) old _ _ h) refl)

    go : (q : Outcome Pointer) → (f : Fault) × ((q >>= λ p. load m p w >>= rest p) ≡ fault f)
    go (fault f) = (f, refl)
    go (val p) = inner p (load m p w)

-- The masks of the atomics that the interpreter runs.
record IsRun (imm d sr : ℕ) : Type 0 where
  reads : (k : ℕ) → testbit (bit_or d sr) k ≡ true → testbit (atomic_masks imm d sr).uses k ≡ true
  reads_r0 : (bit_and imm 0xff == 0xf1) ≡ true → testbit (atomic_masks imm d sr).uses 0 ≡ true
  written :
      (k : ℕ)
      → testbit (atomic_masks imm d sr).defs k ≡ true
      → testbit (atomic_masks imm d sr).uses k ≡ true

fetched : ℕ → ℕ → ℕ
fetched imm sr = if bit_and imm 0x01 == 0 then 0 else sr

fetched_sub : (imm d sr k : ℕ) → testbit (fetched imm sr) k ≡ true → testbit (bit_or d sr) k ≡ true
unfolding fetched
fetched_sub imm d sr k h = elim (Bool-cases (bit_and imm 0x01 == 0)) [
  | inl e ↦ absurd (false≢true (sym (testbit-zero k) ∙ (rw e at h)))
  | inr e ↦ reads_right d sr k (rw e at h)
]

masks_of_IsRun : (imm d sr : ℕ) → (imm == 0x100) ≡ false → (imm == 0x110) ≡ false → IsRun imm d sr
unfolding atomic_masks fetched
masks_of_IsRun imm d sr a b = elim (Bool-cases (bit_and imm 0xff == 0xf1)) [
  | inl c ↦ record {
    reads = λ k h. rw (a, b, c) (reads_left (bit_or d sr) 1 k h);
    reads_r0 = λ _. rw (a, b, c) (reads_right (bit_or d sr) 1 0 refl);
    written = λ k h.
        let h' : testbit (bit_or (fetched imm sr) 1) k ≡ true = rw (a, b, c) at h in
        let part = testbit-bit_or (fetched imm sr) 1 k in
        rw (a, b, c)
          (elim (Bool-cases (testbit 1 k)) [
            | inl one ↦ reads_right (bit_or d sr) 1 k one
            | inr no_one ↦ reads_left (bit_or d sr) 1 k (fetched_sub imm d sr k (ground arith))
          ]);
  }
  | inr c ↦ record {
    reads = λ k h. rw (a, b, c) h;
    reads_r0 = λ e. absurd (false≢true (sym c ∙ e));
    written = λ k h. rw (a, b, c) (fetched_sub imm d sr k (rw (a, b, c) at h));
  }
]

module _ (x : Insn) (s : State) (r' : List ℕ) (size : length s.regs ≡ 11) (size' : length r' ≡ 11)
    (dst_small : x.dst_reg < 11) (src_small : x.src_reg < 11)
    (fetches : cmpxchg_fetches x.imm ≡ true) where
  abbrev pub masks : Masks
  masks = atomic_masks x.imm (bl_bit x.dst_reg) (bl_bit x.src_reg)

  atomic_swap-agree :
      (wide : Bool)
      → IsRun x.imm (bl_bit x.dst_reg) (bl_bit x.src_reg)
      → AgreeOn masks.uses s.regs r'
      → atomic_swap wide x (reg s.regs x.dst_reg) (reg s.regs x.src_reg) (reg s.regs 0) s.memory
        ≡ atomic_swap wide x (reg r' x.dst_reg) (reg r' x.src_reg) (reg r' 0) s.memory
  unfolding atomic_swap
  atomic_swap-agree wide v h =
      let dst : reg s.regs x.dst_reg ≡ reg r' x.dst_reg = h x.dst_reg (
        v.reads x.dst_reg
          (reads_left _ _ x.dst_reg (testbit-bl_bit_self x.dst_reg (omega arith)))) in
      let src : reg s.regs x.src_reg ≡ reg r' x.src_reg = h x.src_reg (
        v.reads x.src_reg
          (reads_right _ _ x.src_reg (testbit-bl_bit_self x.src_reg (omega arith)))) in
      elim (Bool-cases (atomic_aop x.imm == 0xf0)) [
        | inl e ↦
            let r0 : reg s.regs 0 ≡ reg r' 0 = h 0 (v.reads_r0 (ground arith)) in
            rw (dst, src, r0) refl
        | inr e ↦
            let any = λ (old sv : ℕ).
              atomic_op_cmp (atomic_aop x.imm) old sv (reg s.regs 0 % modulus wide)
                (reg r' 0 % modulus wide) e in
            rw (dst, src) (simp any)
      ]

  atomic_regs-Kept :
      (old : ℕ)
      → AgreeOn masks.defs s.regs r'
      → Kept masks.defs s.regs r' (atomic_regs x old s.regs) (atomic_regs x old r')
  unfolding atomic_regs
  atomic_regs-Kept old agreed = elim (Bool-cases (atomic_aop x.imm == 0xf0)) [
    | inl e ↦ rw e (Kept-set_agreed masks.defs s.regs r' 0 old (omega arith) agreed)
    | inr e ↦ elim (Bool-cases (atomic_fetch x.imm)) [
      | inl f ↦ rw (e, f) (Kept-set_agreed masks.defs s.regs r' x.src_reg old (omega arith) agreed)
      | inr f ↦ rw (e, f) (λ k same. elim same [ inl b ↦ agreed k b | inr q ↦ q ])
    ]
  ]

  length-atomic_regs : (old : ℕ) (r : List ℕ) → length (atomic_regs x old r) ≡ length r
  unfolding atomic_regs
  length-atomic_regs old r = ground (arith, length-set r 0 old, length-set r x.src_reg old)

  atomic_step-Follows :
      (wide : Bool) (pc : ℕ)
      → AgreeOn masks.uses s.regs r'
      → Follows masks.defs s.regs r'
          (atomic_step wide pc x s)
          (atomic_step wide pc x (record s { regs = r' }))
  unfolding atomic_step
  atomic_step-Follows wide pc h = elim (Bool-cases (x.imm == 0x100)) [
    | inl e ↦ rejected (inl (rw ((==_iff x.imm 0x100).0 e) refl))
    | inr a ↦ elim (Bool-cases (x.imm == 0x110)) [
      | inl e ↦ rejected (inr (rw ((==_iff x.imm 0x110).0 e) refl))
      | inr b ↦
          let v = masks_of_IsRun x.imm (bl_bit x.dst_reg) (bl_bit x.src_reg) a b in
          Follows-bind masks.defs s.regs r' _ _ _ _ (atomic_swap-agree wide v h) λ t. (
            atomic_regs x t.old r',
            refl,
            atomic_regs-Kept t.old (λ k b. h k (v.written k b)),
            length-atomic_regs t.old r',
            length-atomic_regs t.old s.regs,
          )
    ]
  ]
    where
      rejected :
          (atomic_aop x.imm ≡ 0x100) ⊎ (atomic_aop x.imm ≡ 0x110)
          → Follows masks.defs s.regs r'
              (atomic_step wide pc x s)
              (atomic_step wide pc x (record s { regs = r' }))
      rejected bad =
          let (f, e) =
            atomic_swap_rejects wide x (reg s.regs x.dst_reg) (reg s.regs x.src_reg) (reg s.regs 0)
              s.memory bad in
          rw e tt

  pub exec_atomic-Follows :
      (pc : ℕ)
      → AgreeOn masks.uses s.regs r'
      → Follows masks.defs s.regs r'
          (exec_atomic pc x s)
          (exec_atomic pc x (record s { regs = r' }))
  unfolding exec_atomic
  exec_atomic-Follows pc h = elim (Bool-cases (size_of x.code == 0x00)) [
    | inl e ↦ rw e (atomic_step-Follows false pc h)
    | inr e ↦ elim (Bool-cases (size_of x.code == 0x18)) [
      | inl f ↦ rw (e, f) (atomic_step-Follows true pc h)
      | inr f ↦ rw (e, f) tt
    ]
  ]
