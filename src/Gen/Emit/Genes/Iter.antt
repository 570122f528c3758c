-- ===== src/Gen/Emit/Genes/Iter.antt =====
-- The gene of the iterator.
use verifierloop.Base.{ℕ, suc, ◌+◌, ◌%◌, ◌^◌, ◌≤◌, ◌<◌, ◌≡◌, Bool, false, ◌||◌, List, [], ◌∷◌}
use verifierloop.Base.{length, Option, some, none, ltb, arith, refl, pos, Bool-cases, inl, inr}
use verifierloop.Insn.{Insn, class_of, target}
use verifierloop.Live.{Kfunc, kfunc_argc}
use verifierloop.Gen.Insns.{
  displacement, alu64_imm, mov64_imm, mov64_reg, jmp_imm, jmp_a, kfunc_call, neg32,
}
use verifierloop.Gen.Insns.{bpf_add, bpf_and, jeq}
use verifierloop.Gen.Layout.{AllAt}
use verifierloop.Gen.Layout.Kinds.{jmp_a-Good, kfunc_call-Good}
use verifierloop.Gen.Body.{IterIds, Body, put, bit}
use verifierloop.Gen.Emit.{iter_body, iter_code, emit_iter}
use verifierloop.Gen.Emit.{iter_slot}
use verifierloop.Gen.Emit.Laid.{Fine, IterKnown, put-IsLaid, if_elim}
use verifierloop.Gen.Emit.Genes.Pieces.{local_target, ◌⨾◌, Laid, fine, local_branch}

module _ (ks : List Kfunc) (slot : ℕ → Bool) (base : ℕ) (free : (i : ℕ) → base ≤ i → slot i ≡ false)
    (heads : List ℕ) where
  module _ (a b k o : ℕ) (w : Body) (small : length w.ins + 32 < 2 ^ 14)
      (v : Laid ks slot base free heads w) where
    abbrev iter_call : ℕ → List Insn
    iter_call id = mov64_reg 1 10 ∷ alu64_imm bpf_add 1 (neg32 iter_slot) ∷ kfunc_call id ∷ []

    known_call :
        (last i id : ℕ)
        → ((n : ℕ) × (kfunc_argc ks id ≡ some n))
        → suc i ≤ last
        → Fine ks last i (kfunc_call id)
    known_call last i id (n, e) le = (kfunc_call-Good ks last i id n e le, refl)

    jump_back :
        (last i j from to : ℕ)
        → j ≡ i + from
        → from < 2 ^ 14
        → to < 2 ^ 14
        → i < 2 ^ 14
        → i + to ≤ last
        → Fine ks last j (jmp_a (displacement from to))
    jump_back last i j from to at x y z le =
        let t : target 16 j (displacement from to) ≡ pos (i + to) =
          rw at (local_target i from to x y z) in
        (jmp_a-Good ks last j (displacement from to) (i + to) t le, refl)

    module _ (ids : IterIds) (known : IterKnown ks (some ids)) where
      iter_head :
          (last i n : ℕ) (rest : List Insn)
          → i < 2 ^ 14
          → n < 2 ^ 13
          → i + n ≤ last
          → 9 ≤ n
          → AllAt (Fine ks last) (suc (suc (suc (suc (suc (suc (suc (suc (suc i))))))))) rest
          → AllAt (Fine ks last) i (
              mov64_reg 1 10
              ∷ alu64_imm bpf_add 1 (neg32 iter_slot)
              ∷ mov64_imm 2 0
              ∷ mov64_imm 3 (1 + o % 4)
              ∷ kfunc_call ids.new_id
              ∷ mov64_reg 1 10
              ∷ alu64_imm bpf_add 1 (neg32 iter_slot)
              ∷ kfunc_call ids.next_id
              ∷ jmp_imm jeq 0 0 (displacement 8 n)
              ∷ rest)
      unfolding class_of
      iter_head last i n rest small few fits more h =
          fine ks slot base free heads _ _ (mov64_reg 1 10) refl (omega arith)
          ⨾ fine ks slot base free heads _ _ (alu64_imm bpf_add 1 (neg32 iter_slot)) refl
              (omega arith)
          ⨾ fine ks slot base free heads _ _ (mov64_imm 2 0) refl (omega arith)
          ⨾ fine ks slot base free heads _ _ (mov64_imm 3 (1 + o % 4)) refl (omega arith)
          ⨾ known_call _ _ ids.new_id known.0 (omega arith)
          ⨾ fine ks slot base free heads _ _ (mov64_reg 1 10) refl (omega arith)
          ⨾ fine ks slot base free heads _ _ (alu64_imm bpf_add 1 (neg32 iter_slot)) refl
              (omega arith)
          ⨾ known_call _ _ ids.next_id known.1 (omega arith)
          ⨾ local_branch ks slot base free heads _ i _ 8 n (jmp_imm jeq 0 0 (displacement 8 n)) refl
              refl (omega arith) (omega arith) (omega arith) small fits (omega arith)
          ⨾ h

      abbrev iter_close : List Insn
      iter_close =
          mov64_reg 1 10 ∷ alu64_imm bpf_add 1 (neg32 iter_slot) ∷ kfunc_call ids.destroy_id ∷ []

      iter_end : (last i : ℕ) → suc (suc (suc i)) ≤ last → AllAt (Fine ks last) i iter_close
      unfolding class_of
      iter_end last i le =
          fine ks slot base free heads _ _ (mov64_reg 1 10) refl (omega arith)
          ⨾ fine ks slot base free heads _ _ (alu64_imm bpf_add 1 (neg32 iter_slot)) refl
              (omega arith)
          ⨾ known_call _ _ ids.destroy_id known.2 (omega arith)
          ⨾ tt

      iter_code-Laid : Laid ks slot base free heads (put (iter_code ids o (iter_body a k o)) w)
      unfolding iter_code iter_body class_of Laid
      iter_code-Laid =
          if_elim (λ body. Laid ks slot base free heads (put (iter_code ids o body) w)) (bit o 0)
            (put-IsLaid ks slot base free heads
              (iter_code ids o (alu64_imm bpf_add a k ∷ alu64_imm bpf_and a 7 ∷ [])) w.ins w.jexit
              (iter_head (length w.ins + 15) (length w.ins) 12
                (alu64_imm bpf_add a k
                  ∷ alu64_imm bpf_and a 7
                  ∷ jmp_a (displacement 11 5)
                  ∷ iter_close)
                (omega arith) (omega arith) (omega arith) (omega arith)
                (fine ks slot base free heads _ _ (alu64_imm bpf_add a k) refl (omega arith)
                  ⨾ fine ks slot base free heads _ _ (alu64_imm bpf_and a 7) refl (omega arith)
                  ⨾ jump_back _ (length w.ins) _ 11 5 (omega arith) (omega arith) (omega arith)
                      (omega arith) (omega arith)
                  ⨾ iter_end _ _ (omega arith)))
              v)
            (put-IsLaid ks slot base free heads (iter_code ids o (alu64_imm bpf_and a 7 ∷ [])) w.ins
              w.jexit
              (iter_head (length w.ins + 14) (length w.ins) 11
                (alu64_imm bpf_and a 7 ∷ jmp_a (displacement 10 5) ∷ iter_close) (omega arith)
                (omega arith) (omega arith) (omega arith)
                (fine ks slot base free heads _ _ (alu64_imm bpf_and a 7) refl (omega arith)
                  ⨾ jump_back _ (length w.ins) _ 10 5 (omega arith) (omega arith) (omega arith)
                      (omega arith) (omega arith)
                  ⨾ iter_end _ _ (omega arith)))
              v)

    pub iter-Laid :
        (ids : Option IterIds)
        → IterKnown ks ids
        → Laid ks slot base free heads (emit_iter ids a k o w)
    unfolding emit_iter Laid
    iter-Laid none known = v
    iter-Laid (some ids) known = elim (Bool-cases (w.iters || ltb 300 (length w.ins + 16))) [
      | inl e ↦ rw e v
      | inr e ↦ rw e (iter_code-Laid ids known)
    ]
