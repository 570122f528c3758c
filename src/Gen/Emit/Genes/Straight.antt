-- ===== src/Gen/Emit/Genes/Straight.antt =====
-- The genes that append plain instructions.
use verifierloop.Base.{
  ℕ, zero, suc, ◌+◌, ◌/◌, ◌%◌, ◌^◌, ◌≤◌, ◌<◌, ◌≡◌, Bool, true, false, List, [], ◌∷◌, ◌++◌,
}
use verifierloop.Base.{
  length, some, ◌==◌, ltb, arith, refl, Bool-cases, inl, inr, bit_or, if◌then◌else◌,
}
use verifierloop.Insn.{class_of}
use verifierloop.Live.{Kfunc}
use verifierloop.Gen.Insns.{alu64_imm, alu64_reg, alu32_imm, mov64_reg, st_mem}
use verifierloop.Gen.Insns.{bpf_add, size_b}
use verifierloop.Gen.Layout.Kinds.{is_plain}
use verifierloop.Gen.Body.{Body, put, next_slot, add_site, bit}
use verifierloop.Gen.Emit.{
  emit_link, emit_delta, emit_selfop, emit_clearop, emit_relink, refill, emit_spill, emit_w32,
}
use verifierloop.Gen.Emit.{emit_shift, sdiv_code, emit_sdiv}
use verifierloop.Gen.Emit.{
  emit_store, emit_stackvar, atomic_imm, atomic_pair, add_fixed, emit_atomic, emit_movsx,
  movsx_width,
}
use verifierloop.Gen.Emit.Laid.{put-IsLaid, choose4_elim, if_elim}
use verifierloop.Gen.Emit.Genes.Pieces.{choose6_elim, ◌⨾◌, Laid, fine, one, two}

module _ (ks : List Kfunc) (slot : ℕ → Bool) (base : ℕ) (free : (i : ℕ) → base ≤ i → slot i ≡ false)
    (heads : List ℕ) where
  module _ (a b k o : ℕ) (w : Body) (small : length w.ins + 32 < 2 ^ 14)
      (v : Laid ks slot base free heads w) where
    pub link-Laid : Laid ks slot base free heads (emit_link a b w)
    unfolding emit_link class_of
    link-Laid = one ks slot base free heads (mov64_reg b a) w refl v

    pub delta-Laid : Laid ks slot base free heads (emit_delta b k o w)
    unfolding emit_delta class_of
    delta-Laid =
        one ks slot base free heads _ w (if_elim (λ x. is_plain x ≡ true) (bit o 0) refl refl) v

    pub selfop-Laid : Laid ks slot base free heads (emit_selfop a o w)
    unfolding emit_selfop class_of
    selfop-Laid =
        one ks slot base free heads _ w
          (choose4_elim (λ op. is_plain (alu64_reg op a a) ≡ true) (o % 4) refl refl refl refl) v

    pub clearop-Laid : Laid ks slot base free heads (emit_clearop b k o w)
    unfolding emit_clearop class_of
    clearop-Laid =
        one ks slot base free heads _ w
          (choose4_elim (λ op. is_plain (alu64_imm op b k) ≡ true) (o % 4) refl refl refl refl) v

    pub relink-Laid : Laid ks slot base free heads (emit_relink a w)
    unfolding emit_relink class_of
    relink-Laid = one ks slot base free heads (mov64_reg 9 a) w refl v

    pub spill-Laid : Laid ks slot base free heads (emit_spill a o w)
    unfolding emit_spill refill class_of Laid
    spill-Laid =
        two ks slot base free heads _ _ (next_slot w) refl
          (if_elim (λ x. is_plain x ≡ true) (o % 3 == 0) refl refl) v

    pub w32-Laid : Laid ks slot base free heads (emit_w32 a k o w)
    unfolding emit_w32 class_of
    w32-Laid =
        one ks slot base free heads _ w
          (choose6_elim (λ op. is_plain (alu32_imm op a k) ≡ true) (o % 6) refl refl refl refl refl
            refl)
          v

    pub shift-Laid : Laid ks slot base free heads (emit_shift a o w)
    unfolding emit_shift class_of
    shift-Laid =
        one ks slot base free heads _ w
          (if_elim (λ x. is_plain x ≡ true) (o / 2 ^ 5 % 4 == 0) refl
            (if_elim (λ x. is_plain x ≡ true) (o / 2 ^ 5 % 4 == 1) refl
              (if_elim (λ x. is_plain x ≡ true) (o / 2 ^ 5 % 4 == 2) refl refl)))
          v

    pub sdiv-Laid : Laid ks slot base free heads (emit_sdiv a b o w)
    unfolding emit_sdiv sdiv_code class_of
    sdiv-Laid =
        one ks slot base free heads _ w
          (if_elim
            (λ c. is_plain (record { code = c; dst_reg = a; src_reg = b; off = 1; imm = 0 }) ≡ true)
            (bit o 0)
            (if_elim
              (λ c.
                is_plain (record { code = c; dst_reg = a; src_reg = b; off = 1; imm = 0 }) ≡ true)
              (bit o 1) refl refl)
            (if_elim
              (λ c.
                is_plain (record { code = c; dst_reg = a; src_reg = b; off = 1; imm = 0 }) ≡ true)
              (bit o 1) refl refl))
          v

    pub store-Laid : Laid ks slot base free heads (emit_store a k w)
    unfolding emit_store class_of Laid
    store-Laid =
        let v2 =
          two ks slot base free heads (mov64_reg 1 8) (alu64_reg bpf_add 1 a) w refl refl v in
        put-IsLaid ks slot base free heads (st_mem size_b 1 (k % 8) 0xffffffff ∷ [])
          (w.ins ++ mov64_reg 1 8 ∷ alu64_reg bpf_add 1 a ∷ []) w.jexit
          (fine ks slot base free heads _ _ _ refl (omega arith), tt) v2

    pub stackvar-Laid : Laid ks slot base free heads (emit_stackvar a o w)
    unfolding emit_stackvar class_of Laid
    stackvar-Laid =
        put-IsLaid ks slot base free heads _ w.ins w.jexit
          (fine ks slot base free heads _ _ _ refl (omega arith)
            ⨾ fine ks slot base free heads _ _ _ refl (omega arith)
            ⨾ fine ks slot base free heads _ _ _ refl (omega arith)
            ⨾ fine ks slot base free heads _ _ _ refl (omega arith)
            ⨾ tt)
          v

    -- The 64-bit class has three widths, and the 32-bit class the first two.
    movsx_plain :
        is_plain (record {
          code = if bit o 0 then 0xbf else 0xbc;
          dst_reg = a;
          src_reg = b;
          off = movsx_width o;
          imm = 0;
        })
        ≡ true
    unfolding movsx_width class_of
    movsx_plain = elim (Bool-cases (bit o 0)) [
      | inl e ↦ elim (Bool-cases (o / 2 % 3 == 0)) [
        | inl z ↦ rw (e, z) refl
        | inr z ↦ elim (Bool-cases (o / 2 % 3 == 1)) [
          | inl y ↦ rw (e, z, y) refl
          | inr y ↦ rw (e, z, y) refl
        ]
      ]
      | inr e ↦ elim (Bool-cases (o / 2 % 2 == 0)) [
        | inl z ↦ rw (e, z) refl
        | inr z ↦ let y : (o / 2 % 2 == 1) ≡ true = ground arith in rw (e, z, y) refl
      ]
    ]

    pub movsx-Laid : Laid ks slot base free heads (emit_movsx a b o w)
    unfolding emit_movsx
    movsx-Laid = one ks slot base free heads _ w movsx_plain v

    atomic_imm_elim :
        (P : ℕ → Type 0)
        → P 0
        → P 0x40
        → P 0x50
        → P 0xa0
        → P 1
        → P 0x41
        → P 0x51
        → P 0xa1
        → P 0xe1
        → P 0xf1
        → P (atomic_imm o)
    unfolding atomic_imm
    atomic_imm_elim P p0 p1 p2 p3 q0 q1 q2 q3 x c =
        if_elim P (ltb (o / 2 % 8) 4) (choose4_elim P (o / 2 % 4) p0 p1 p2 p3) (
          if_elim P (ltb (o / 2 % 8) 6)
            (choose4_elim (λ i. P (bit_or i 1)) (o / 2 ^ 4 % 4) q0 q1 q2 q3)
            (if_elim P (o / 2 % 8 == 6) x c))

    atomic_two :
        (dw : Bool) (base_reg off : ℕ) (u : Body)
        → Laid ks slot base free heads u
        → Laid ks slot base free heads (put (atomic_pair dw base_reg a b off (atomic_imm o)) u)
    unfolding atomic_pair class_of
    atomic_two true r off u h =
        two ks slot base free heads _ _ u refl
          (atomic_imm_elim
            (λ i.
              is_plain (record { code = 0xdb; dst_reg = r; src_reg = a; off = off; imm = i })
              ≡ true)
            refl refl refl refl refl refl refl refl refl refl)
          h
    atomic_two false r off u h =
        two ks slot base free heads _ _ u refl
          (atomic_imm_elim
            (λ i.
              is_plain (record { code = 0xc3; dst_reg = r; src_reg = a; off = off; imm = i })
              ≡ true)
            refl refl refl refl refl refl refl refl refl refl)
          h

    pub add_fixed-Laid :
        (q at : ℕ) (u : Body)
        → Laid ks slot base free heads u
        → Laid ks slot base free heads (add_fixed q at u)
    unfolding add_fixed Laid
    add_fixed-Laid zero at u h = h
    add_fixed-Laid (suc q) at u h =
        add_fixed-Laid q (suc at)
          (add_site (record { insn = length u.ins; k = 0; fixed = some at }) u) h

    pub atomic-Laid : Laid ks slot base free heads (emit_atomic a b o w)
    unfolding emit_atomic
    atomic-Laid = elim (Bool-cases (bit o 5)) [
      | inl e ↦ rw e (atomic_two (bit o 0) 10 _ w v)
      | inr e ↦ rw e (atomic_two (bit o 0) 8 _ _ (add_fixed-Laid _ _ w v))
    ]
