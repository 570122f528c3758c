-- ===== src/Gen/Emit/Genes.antt =====
-- gi_emit_body, gene by gene: the program stays laid out well.
pub mod Pieces
pub mod Straight
pub mod Jumps
pub mod Iter
use verifierloop.Base.{
  ℕ, zero, suc, ◌+◌, ◌-◌, ◌*◌, ◌/◌, ◌%◌, ◌^◌, ◌≤◌, ◌<◌, ◌≡◌, Bool, true, false, ◌||◌, not, List, [],
  ◌∷◌, ◌++◌,
}
use verifierloop.Base.{
  length, get_elem?, get_elem?_inside, All, Option, some, none, ◌==◌, ltb, if◌then◌else◌, arith,
  refl, sym, ap, ◌∙◌, pos, Bool-cases, inl, inr, bit_and, bit_or,
}
use verifierloop.Insn.{Insn, class_of, ld_imm64, target}
use verifierloop.Live.{Kfunc, kfunc_argc}
use verifierloop.Gen.Insns
use verifierloop.Gen.Insns.{
  displacement, with_off, alu64_imm, alu64_reg, alu32_imm, mov64_imm, mov64_reg, jmp_imm, jmp32_imm,
  jmp_a, ldx_mem, st_mem, stx_mem, kfunc_call, neg16, neg32,
}
use verifierloop.Gen.Insns.{
  bpf_add, bpf_sub, bpf_mul, bpf_or, bpf_and, bpf_xor, bpf_lsh, bpf_rsh, bpf_arsh, jeq, jgt, jne,
  jslt, size_w, size_b, size_dw,
}
use verifierloop.Gen.Layout.{AllAt, AllAt-append, AllAt-map, At, At-mono, Good, length-append}
use verifierloop.Gen.Layout.Kinds.{
  is_plain, plain-Good, is_branch, IsBranch, branch-IsBranch, IsBranch-Good, jmp_a-Good,
  kfunc_call-Good, target-displacement,
}
use verifierloop.Gen.Body.{
  IterIds, StoreSite, Body, put, note_exit, next_slot, add_site, bit, choose4, choose6,
}
use verifierloop.Gen.Emit.{
  emit_link, emit_delta, emit_selfop, emit_clearop, emit_narrow, emit_relink, refill, emit_spill,
  emit_w32,
}
use verifierloop.Gen.Emit.{
  emit_shift, emit_scmp, sdiv_code, emit_sdiv, iter_body, iter_code, emit_iter, emit_constant,
  emit_pin,
}
use verifierloop.Gen.Emit.{
  emit_store, emit_stackvar, atomic_imm, atomic_pair, add_fixed, emit_atomic, emit_movsx,
  diamond_side, emit_diamond,
}
use verifierloop.Gen.Emit.{
  loop_code, emit_loop, pair_head, emit_pair, Step, iter_slot, emit_step, emit_gene, emit_genes,
}
use verifierloop.Gen.Genome.{Gene, step_count}
use verifierloop.Gen.Emit.{step_of}
use verifierloop.Gen.Emit.Size.{IsWithin, emit_gene-IsWithin}
use verifierloop.Gen.Emit.Laid.{
  Fine, IterKnown, IsLaid, IsExit, put-IsLaid, branch-IsLaid, choose4_elim, if_elim,
}
use verifierloop.Gen.Emit.Genes.Pieces.{
  choose6_elim, local_target, ◌⨾◌, Laid, fine, one, two, open_branch, branch1, local_branch,
}
use verifierloop.Gen.Emit.Genes.Straight.{
  link-Laid, delta-Laid, selfop-Laid, clearop-Laid, relink-Laid, spill-Laid, w32-Laid, shift-Laid,
  sdiv-Laid, store-Laid, stackvar-Laid, movsx-Laid, atomic-Laid,
}
use verifierloop.Gen.Emit.Genes.Jumps.{
  narrow-Laid, scmp-Laid, pin-Laid, loop-Laid, diamond-Laid, pair-Laid,
}
use verifierloop.Gen.Emit.Genes.Iter.{iter-Laid}

module _ (ks : List Kfunc) (slot : ℕ → Bool) (base : ℕ) (free : (i : ℕ) → base ≤ i → slot i ≡ false)
    (heads : List ℕ) where
  emit_step-Laid :
      (ids : Option IterIds) (s : Step) (a b k o : ℕ) (w : Body)
      → IterKnown ks ids
      → length w.ins + 32 < 2 ^ 14
      → Laid ks slot base free heads w
      → Laid ks slot base free heads (emit_step ids s a b k o w)
  unfolding emit_step
  emit_step-Laid ids Step.link a b k o w known small v =
      link-Laid ks slot base free heads a b k o w small v
  emit_step-Laid ids Step.delta a b k o w known small v =
      delta-Laid ks slot base free heads a b k o w small v
  emit_step-Laid ids Step.selfop a b k o w known small v =
      selfop-Laid ks slot base free heads a b k o w small v
  emit_step-Laid ids Step.clearop a b k o w known small v =
      clearop-Laid ks slot base free heads a b k o w small v
  emit_step-Laid ids Step.narrow a b k o w known small v =
      narrow-Laid ks slot base free heads a b k o w small v
  emit_step-Laid ids Step.relink a b k o w known small v =
      relink-Laid ks slot base free heads a b k o w small v
  emit_step-Laid ids Step.spill a b k o w known small v =
      spill-Laid ks slot base free heads a b k o w small v
  emit_step-Laid ids Step.w32 a b k o w known small v =
      w32-Laid ks slot base free heads a b k o w small v
  emit_step-Laid ids Step.shift a b k o w known small v =
      shift-Laid ks slot base free heads a b k o w small v
  emit_step-Laid ids Step.scmp a b k o w known small v =
      scmp-Laid ks slot base free heads a b k o w small v
  emit_step-Laid ids Step.pair a b k o w known small v =
      pair-Laid ks slot base free heads a b k o w small v
  emit_step-Laid ids Step.store a b k o w known small v =
      store-Laid ks slot base free heads a b k o w small v
  emit_step-Laid ids Step.stackvar a b k o w known small v =
      stackvar-Laid ks slot base free heads a b k o w small v
  emit_step-Laid ids Step.atomic a b k o w known small v =
      atomic-Laid ks slot base free heads a b k o w small v
  emit_step-Laid ids Step.movsx a b k o w known small v =
      movsx-Laid ks slot base free heads a b k o w small v
  emit_step-Laid ids Step.diamond a b k o w known small v =
      diamond-Laid ks slot base free heads a b k o w small v
  emit_step-Laid ids Step.loop a b k o w known small v =
      loop-Laid ks slot base free heads a b k o w small v
  emit_step-Laid ids Step.pin a b k o w known small v =
      pin-Laid ks slot base free heads a b k o w small v
  emit_step-Laid ids Step.sdiv a b k o w known small v =
      sdiv-Laid ks slot base free heads a b k o w small v
  emit_step-Laid ids Step.iter a b k o w known small v =
      iter-Laid ks slot base free heads a b k o w small v ids known

  emit_gene-Laid :
      (ids : Option IterIds) (g : Gene) (w : Body)
      → IterKnown ks ids
      → length w.ins + 32 < 2 ^ 14
      → Laid ks slot base free heads w
      → Laid ks slot base free heads (emit_gene ids g w)
  unfolding emit_gene
  emit_gene-Laid ids g w known small v =
      emit_step-Laid ids (step_of (g.st % step_count)) _ _ _ _ w known small v

  -- The genes that are left, when `m` of them are written.
  pub emit_genes-IsLaid :
      (ids : Option IterIds) (start m n : ℕ) (gs : List Gene) (w : Body)
      → IterKnown ks ids
      → start + 5 * (m + n) + 47 < 2 ^ 14
      → IsWithin start m w
      → IsLaid ks slot base free heads w.ins w.jexit
      → IsLaid ks slot base free heads (emit_genes ids n gs w).ins (emit_genes ids n gs w).jexit
  unfolding emit_genes Laid
  emit_genes-IsLaid ids start m zero gs w known small h v = v
  emit_genes-IsLaid ids start m (suc n) [] w known small h v = v
  emit_genes-IsLaid ids start m (suc n) (g ∷ gs) w known small h v =
      emit_genes-IsLaid ids start (suc m) n gs (emit_gene ids g w) known (omega arith)
        (emit_gene-IsWithin start m ids g w h)
        (emit_gene-Laid ids g w known (omega (arith, h.room)) v)
