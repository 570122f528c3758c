-- ===== src/Gen/Emit/Genes/Jumps.antt =====
-- The genes with a branch.
use verifierloop.Base.{
  ℕ, suc, ◌+◌, ◌/◌, ◌%◌, ◌^◌, ◌≤◌, ◌<◌, ◌≡◌, Bool, true, false, List, [], ◌∷◌, ◌++◌,
}
use verifierloop.Base.{length, ◌==◌, if◌then◌else◌, arith, refl, Bool-cases, inl, inr}
use verifierloop.Insn.{Insn, class_of}
use verifierloop.Live.{Kfunc}
use verifierloop.Gen.Insns.{
  displacement, alu64_imm, alu64_reg, alu32_imm, mov64_reg, jmp_imm, jmp32_imm,
}
use verifierloop.Gen.Insns.{bpf_add, bpf_or, bpf_and, bpf_xor, jgt, jne}
use verifierloop.Gen.Layout.{length-append}
use verifierloop.Gen.Layout.Kinds.{is_plain, is_branch}
use verifierloop.Gen.Body.{Body, next_slot, bit}
use verifierloop.Gen.Emit.{emit_narrow}
use verifierloop.Gen.Emit.{emit_scmp, emit_constant, emit_pin}
use verifierloop.Gen.Emit.{diamond_side, emit_diamond}
use verifierloop.Gen.Emit.{loop_code, emit_loop, pair_head, emit_pair}
use verifierloop.Gen.Emit.Laid.{Fine, IsLaid, put-IsLaid, branch-IsLaid, if_elim}
use verifierloop.Gen.Emit.Genes.Pieces.{◌⨾◌, Laid, fine, two, open_branch, branch1, local_branch}

module _ (ks : List Kfunc) (slot : ℕ → Bool) (base : ℕ) (free : (i : ℕ) → base ≤ i → slot i ≡ false)
    (heads : List ℕ) where
  module _ (a b k o : ℕ) (w : Body) (small : length w.ins + 32 < 2 ^ 14)
      (v : Laid ks slot base free heads w) where
    pub narrow-Laid : Laid ks slot base free heads (emit_narrow b k w)
    unfolding emit_narrow class_of
    narrow-Laid = branch1 ks slot base free heads (jmp_imm jgt b k 0) w refl refl (omega arith) v

    pub scmp-Laid : Laid ks slot base free heads (emit_scmp a k o w)
    unfolding emit_scmp class_of
    scmp-Laid =
        branch1 ks slot base free heads _ w (if_elim (λ x. is_branch x ≡ true) (bit o 0) refl refl)
          (if_elim {A = Insn} (λ x. x.off ≡ 0) (bit o 0) refl refl) (omega arith) v

    pub constant-Laid : Laid ks slot base free heads (emit_constant a o w)
    unfolding emit_constant class_of Laid
    constant-Laid = two ks slot base free heads _ _ (next_slot w) refl refl v

    pub pin-Laid : Laid ks slot base free heads (emit_pin a k o w)
    unfolding emit_pin class_of
    pin-Laid = elim (Bool-cases (bit o 0)) [
      | inl e ↦ rw e constant-Laid
      | inr e ↦
          rw e (branch1 ks slot base free heads (jmp_imm jne a k 0) w refl refl (omega arith) v)
    ]

    pub loop-Laid : Laid ks slot base free heads (emit_loop a k o w)
    unfolding emit_loop loop_code class_of Laid
    loop-Laid = elim (Bool-cases w.loops) [
      | inl e ↦ rw e v
      | inr e ↦ rw e (
          put-IsLaid ks slot base free heads (loop_code a k o) w.ins w.jexit
            (fine ks slot base free heads _ _ _ refl (omega arith)
              ⨾ fine ks slot base free heads _ _ _
                  (if_elim (λ op. is_plain (alu64_imm op a k) ≡ true) (bit o 3) refl refl)
                  (omega arith)
              ⨾ fine ks slot base free heads _ _ _ refl (omega arith)
              ⨾ local_branch ks slot base free heads _ (length w.ins) _ 3 1 _ refl refl
                  (omega arith) (omega arith) (omega arith) (omega arith) (omega arith)
                  (omega arith)
              ⨾ tt)
            v)
    ]

    pub diamond-Laid : Laid ks slot base free heads (emit_diamond a b k o w)
    unfolding emit_diamond diamond_side class_of Laid
    diamond-Laid = elim (Bool-cases (bit o 2)) [
      | inl e ↦ rw e (
          put-IsLaid ks slot base free heads _ w.ins w.jexit
            (branch 3 (omega arith) (omega arith)
              ⨾ side _ _ (omega arith)
              ⨾ fine ks slot base free heads _ _ (alu64_reg bpf_add a b) refl (omega arith)
              ⨾ tt)
            v)
      | inr e ↦ rw e (
          put-IsLaid ks slot base free heads _ w.ins w.jexit
            (branch 2 (omega arith) (omega arith) ⨾ side _ _ (omega arith) ⨾ tt) v)
    ]
      where
        branch :
            (n : ℕ)
            → n < 9
            → 0 < n
            → Fine ks (length w.ins + n) (length w.ins) (
                if bit o 0
                then jmp_imm jgt a k (displacement 0 n)
                else jmp32_imm jgt a k (displacement 0 n))
        branch n lt more =
            local_branch ks slot base free heads (length w.ins + n) (length w.ins) (length w.ins) 0
              n _ (if_elim (λ x. is_branch x ≡ true) (bit o 0) refl refl)
              (if_elim {A = Insn} (λ x. x.off ≡ displacement 0 n) (bit o 0) refl refl) (omega arith)
              (omega arith) (omega arith) (omega arith) (omega arith) (omega arith)

        side :
            (last i : ℕ)
            → suc i ≤ last
            → Fine ks last i (alu64_imm (if bit o 1 then bpf_or else bpf_and) b k)
        side last i le =
            fine ks slot base free heads last i _
              (if_elim (λ op. is_plain (alu64_imm op b k) ≡ true) (bit o 1) refl refl) le

    pair_tail :
        (hs : List Insn)
        → length hs ≤ 3
        → IsLaid ks slot base free heads (w.ins ++ hs) w.jexit
        → IsLaid ks slot base free heads
            ((w.ins ++ hs) ++ jmp_imm jgt b (k + 8) 0 ∷ alu64_reg bpf_add 6 a ∷ [])
            (w.jexit ++ length (w.ins ++ hs) ∷ [])
    unfolding class_of
    pair_tail hs few h =
        let size = length-append w.ins hs in
        branch-IsLaid ks slot base free heads (jmp_imm jgt b (k + 8) 0) (alu64_reg bpf_add 6 a ∷ [])
          (w.ins ++ hs) w.jexit refl
          (open_branch ks slot base free heads _ _ (jmp_imm jgt b (k + 8) 0) refl refl
              (omega (arith, size)) (omega arith)
            ⨾ fine ks slot base free heads _ _ (alu64_reg bpf_add 6 a) refl (omega arith)
            ⨾ tt)
          h

    head : (last i : ℕ) → suc i ≤ last → Fine ks last i (mov64_reg b a)
    unfolding class_of
    head last i le = fine ks slot base free heads last i (mov64_reg b a) refl le

    tagged :
        (last i : ℕ)
        → suc i ≤ last
        → Fine ks last i (if bit o 0 then alu64_imm bpf_add b k else alu32_imm bpf_add b k)
    unfolding class_of
    tagged last i le =
        fine ks slot base free heads last i _ (if_elim (λ x. is_plain x ≡ true) (bit o 0) refl refl)
          le

    pub pair-Laid : Laid ks slot base free heads (emit_pair a b k o w)
    unfolding emit_pair pair_head class_of Laid
    pair-Laid = elim (Bool-cases (o / 2 % 4 == 0)) [
      | inl e ↦ rw e (
          pair_tail _ (omega arith) (
            put-IsLaid ks slot base free heads _ w.ins w.jexit
              (head _ _ (omega arith) ⨾ tagged _ _ (omega arith) ⨾ tt) v))
      | inr e0 ↦ elim (Bool-cases (o / 2 % 4 == 1)) [
        | inl e ↦
            rw (e0, e)
              (pair_tail _ (omega arith) (
                put-IsLaid ks slot base free heads _ w.ins w.jexit
                  (head _ _ (omega arith)
                    ⨾ tagged _ _ (omega arith)
                    ⨾ fine ks slot base free heads _ _ (alu64_reg bpf_add a a) refl (omega arith)
                    ⨾ tt)
                  v))
        | inr e1 ↦ elim (Bool-cases (o / 2 % 4 == 2)) [
          | inl e ↦
              rw (e0, e1, e)
                (pair_tail _ (omega arith) (
                  put-IsLaid ks slot base free heads _ w.ins w.jexit
                    (head _ _ (omega arith)
                      ⨾ tagged _ _ (omega arith)
                      ⨾ fine ks slot base free heads _ _ (alu64_imm bpf_xor b k) refl (omega arith)
                      ⨾ tt)
                    v))
          | inr e2 ↦
              rw (e0, e1, e2)
                (pair_tail _ (omega arith) (
                  put-IsLaid ks slot base free heads _ w.ins w.jexit
                    (head _ _ (omega arith)
                      ⨾ tagged _ _ (omega arith)
                      ⨾ fine ks slot base free heads _ _ (mov64_reg 9 a) refl (omega arith)
                      ⨾ tt)
                    v))
        ]
      ]
    ]
