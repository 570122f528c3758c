-- ===== src/Gen/Families/Accepted.antt =====
-- The analysis accepts the programs of the families.
use verifierloop.Base.{ℕ, ◌≡◌, Bool, true, List, [], ◌∷◌, All, refl}
use verifierloop.Insn.{class_of, target}
use verifierloop.Live
use verifierloop.Live.{
  Result, analysed, unsupported, scan, solve, rounds, sweep, visit, transfer, live_after, usedef,
  usedef_class, usedef_alu, usedef_jmp, usedef_call, atomic_masks, helper_argc, call_masks,
  bit_range, succ, succ_class, succ_jmp, in_program,
}
use verifierloop.Gen.Program.{patch, patch_all}
use verifierloop.Gen.Loops.{
  LoopBody, lb_nop, lb_mask, lb_incmask, lb_maskinc, lb_shr, lb_xor3, lb_cond, lb_inc, lb_shl,
  lb_add8, emit_loop_body,
}
use verifierloop.Gen.Shapers.{
  Shaper, sh_n7, sh_t6, sh_w63, sh_m39, sh_o19, sh_s56, sh_a32, emit_prune_shaper,
}
use verifierloop.Gen.Links.{
  Idpart, idp_same, idp_chain, idp_addc, idp_swapped, idp_tied8, emit_idpart,
}
use verifierloop.Gen.Checks.{passes, Passes, from_passes, every, every-All, both, both_at}
use verifierloop.Gen.Families.Enumerated.{
  generated_passes, mixed_passes, movsx_passes, upper_half_passes, rr_passes, mb_passes, ptr_passes,
  pkt_passes,
}
use verifierloop.Gen.Families.{
  generated, mixed, movsx, upper_half, rr, mb, ptr, pkt, prec, exact, loopr, ExactArm, inf_r6,
  flat_r7, flat_r6, loop_r7, loop_r6, exact_arm, exact_program, exact_code, prec_program,
  loopr_program, Arm, prune, loop, spill, idpart, idmap, family_program, StoreSource, src_slot,
  src_r7, src_r9, src_r6, spl_none, spl_spill, spl_delta, spl_delta32, idl_none, idl_mov,
  idl_addc64, idl_addc32, emit_spill_shape, emit_idmap_link, SpillShape, IdmapLink, prune_program,
  loop_program, spill_program, idpart_program, idmap_program,
}

abbrev shapers : List Shaper
shapers = sh_n7 ∷ sh_t6 ∷ sh_w63 ∷ sh_m39 ∷ sh_o19 ∷ sh_s56 ∷ sh_a32 ∷ []

shaper_at : (f : Shaper → Bool) → every f shapers ≡ true → (s : Shaper) → f s ≡ true
shaper_at f h s = go s (every-All f shapers h)
  where
    go : (s : Shaper) → All (λ s. f s ≡ true) shapers → f s ≡ true
    go sh_n7 (a, _) = a
    go sh_t6 (_, (a, _)) = a
    go sh_w63 (_, (_, (a, _))) = a
    go sh_m39 (_, (_, (_, (a, _)))) = a
    go sh_o19 (_, (_, (_, (_, (a, _))))) = a
    go sh_s56 (_, (_, (_, (_, (_, (a, _)))))) = a
    go sh_a32 (_, (_, (_, (_, (_, (_, (a, _))))))) = a

abbrev idparts : List Idpart
idparts = idp_same ∷ idp_chain ∷ idp_addc ∷ idp_swapped ∷ idp_tied8 ∷ []

idpart_at : (f : Idpart → Bool) → every f idparts ≡ true → (s : Idpart) → f s ≡ true
idpart_at f h s = go s (every-All f idparts h)
  where
    go : (s : Idpart) → All (λ s. f s ≡ true) idparts → f s ≡ true
    go idp_same (a, _) = a
    go idp_chain (_, (a, _)) = a
    go idp_addc (_, (_, (a, _))) = a
    go idp_swapped (_, (_, (_, (a, _)))) = a
    go idp_tied8 (_, (_, (_, (_, (a, _))))) = a

module _ (map_in map_out : ℕ) where
  prune_every :
      every
        (λ s. every (λ t. both (λ b. passes (prune_program s t b map_in map_out))) shapers)
        shapers
      ≡ true
  unfolding patch_all patch Live.run scan solve rounds sweep visit transfer live_after usedef
      usedef_class usedef_alu usedef_jmp usedef_call atomic_masks helper_argc call_masks bit_range
      succ succ_class succ_jmp in_program class_of target prune_program emit_prune_shaper every
  prune_every = refl

  prune_passes : (s t : Shaper) (b : Bool) → passes (prune_program s t b map_in map_out) ≡ true
  prune_passes s t = both_at _ (shaper_at _ (shaper_at _ prune_every s) t)

  idpart_every :
      (off : ℕ)
      → every (λ s. every (λ t. passes (idpart_program s t off map_in map_out)) idparts) idparts
        ≡ true
  unfolding patch_all patch Live.run scan solve rounds sweep visit transfer live_after usedef
      usedef_class usedef_alu usedef_jmp usedef_call atomic_masks helper_argc call_masks bit_range
      succ succ_class succ_jmp in_program class_of target idpart_program emit_idpart every
  idpart_every off = refl

  idpart_passes : (s t : Idpart) (off : ℕ) → passes (idpart_program s t off map_in map_out) ≡ true
  idpart_passes s t off = idpart_at _ (idpart_at _ (idpart_every off) s) t

  loop_passes : (body : LoopBody) (mask : ℕ) → passes (loop_program body mask map_in map_out) ≡ true
  unfolding patch_all patch Live.run scan solve rounds sweep visit transfer live_after usedef
      usedef_class usedef_alu usedef_jmp usedef_call atomic_masks helper_argc call_masks bit_range
      succ succ_class succ_jmp in_program class_of target loop_program emit_loop_body
  loop_passes lb_nop mask = refl
  loop_passes lb_mask mask = refl
  loop_passes lb_incmask mask = refl
  loop_passes lb_maskinc mask = refl
  loop_passes lb_shr mask = refl
  loop_passes lb_xor3 mask = refl
  loop_passes lb_cond mask = refl
  loop_passes lb_inc mask = refl
  loop_passes lb_shl mask = refl
  loop_passes lb_add8 mask = refl

  spill_every :
      (shape : SpillShape) (src : StoreSource) (off : ℕ)
      → both (λ l. both (λ t. passes (spill_program shape l t src off map_in map_out))) ≡ true
  unfolding patch_all patch Live.run scan solve rounds sweep visit transfer live_after usedef
      usedef_class usedef_alu usedef_jmp usedef_call atomic_masks helper_argc call_masks bit_range
      succ succ_class succ_jmp in_program class_of target spill_program emit_spill_shape
  spill_every spl_none src_slot off = refl
  spill_every spl_none src_r7 off = refl
  spill_every spl_none src_r9 off = refl
  spill_every spl_none src_r6 off = refl
  spill_every spl_spill src_slot off = refl
  spill_every spl_spill src_r7 off = refl
  spill_every spl_spill src_r9 off = refl
  spill_every spl_spill src_r6 off = refl
  spill_every spl_delta src_slot off = refl
  spill_every spl_delta src_r7 off = refl
  spill_every spl_delta src_r9 off = refl
  spill_every spl_delta src_r6 off = refl
  spill_every spl_delta32 src_slot off = refl
  spill_every spl_delta32 src_r7 off = refl
  spill_every spl_delta32 src_r9 off = refl
  spill_every spl_delta32 src_r6 off = refl

  idmap_every :
      (link : IdmapLink) (off : ℕ)
      → both (λ b. both (λ r. passes (idmap_program link b r off map_in map_out))) ≡ true
  unfolding patch_all patch Live.run scan solve rounds sweep visit transfer live_after usedef
      usedef_class usedef_alu usedef_jmp usedef_call atomic_masks helper_argc call_masks bit_range
      succ succ_class succ_jmp in_program class_of target idmap_program emit_idmap_link
  idmap_every idl_none off = refl
  idmap_every idl_mov off = refl
  idmap_every idl_addc64 off = refl
  idmap_every idl_addc32 off = refl

  loopr_passes : (body : LoopBody) → passes (loopr_program body map_in map_out) ≡ true
  unfolding loopr_program
  loopr_passes body = loop_passes body 7

  prec_every : (c d : ℕ) → both (λ src. passes (prec_program c d src map_in map_out)) ≡ true
  unfolding patch_all patch Live.run scan solve rounds sweep visit transfer live_after usedef
      usedef_class usedef_alu usedef_jmp usedef_call atomic_masks helper_argc call_masks bit_range
      succ succ_class succ_jmp in_program class_of target prec_program
  prec_every c d = refl

  exact_passes : (e : ExactArm) → passes (exact_arm e map_in map_out) ≡ true
  unfolding patch_all patch Live.run scan solve rounds sweep visit transfer live_after usedef
      usedef_class usedef_alu usedef_jmp usedef_call atomic_masks helper_argc call_masks bit_range
      succ succ_class succ_jmp in_program class_of target exact_arm exact_program exact_code
  exact_passes inf_r6 = refl
  exact_passes flat_r7 = refl
  exact_passes flat_r6 = refl
  exact_passes loop_r7 = refl
  exact_passes loop_r6 = refl

  arm_passes : (a : Arm) → passes (family_program a map_in map_out) ≡ true
  arm_passes (prune s t b) = prune_passes s t b
  arm_passes (loop body mask) = loop_passes body mask
  arm_passes (spill shape l t src off) =
      both_at (λ t. passes (spill_program shape l t src off map_in map_out))
        (both_at (λ l. both (λ t. passes (spill_program shape l t src off map_in map_out)))
          (spill_every shape src off) l)
        t
  arm_passes (idpart s t off) = idpart_passes s t off
  arm_passes (loopr body) = loopr_passes body
  arm_passes (prec c d src) =
      both_at (λ src. passes (prec_program c d src map_in map_out)) (prec_every c d) src
  arm_passes (exact e) = exact_passes e
  arm_passes (generated a c w) = generated_passes a c w
  arm_passes (mixed a c w) = mixed_passes a c w
  arm_passes (movsx z c) = movsx_passes z c
  arm_passes (rr a c w) = rr_passes a c w
  arm_passes (mb a c w) = mb_passes a c w
  arm_passes (ptr a c w) = ptr_passes map_in a c w
  arm_passes (pkt a c w) = pkt_passes a c w
  arm_passes (upper_half a c) = upper_half_passes a c
  arm_passes (idmap link b r off) =
      both_at (λ r. passes (idmap_program link b r off map_in map_out))
        (both_at (λ b. both (λ r. passes (idmap_program link b r off map_in map_out)))
          (idmap_every link off) b)
        r

  -- The program of each arm of the families, whatever its maps, its offset and its mask are: with no
  -- kernel function registered the analysis accepts it; no register but r1, of those the analysis
  -- tracks, is live at its start; and each of its instructions, those of opcode 0 aside, as the second
  -- slots of LD_IMM64 are, is reached from the first one along the successors that the analysis
  -- computes.
  pub family_program-Passes : (a : Arm) → Passes (family_program a map_in map_out)
  family_program-Passes a = from_passes (family_program a map_in map_out) (arm_passes a)
