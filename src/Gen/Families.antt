-- ===== src/Gen/Families.antt =====
-- harness/diffharness.c, the programs of --gen-prune, --gen-loop, --gen-loopr, --gen-spill,
-- --gen-idpart, --gen-idmap, --gen-prec and --gen-exact: what run_prune_prog, run_loop_prog and the
-- others build before they load it.
pub mod Accepted
pub mod Enumerated
pub mod Inside
use verifierloop.Base.{ℕ, ◌+◌, Bool, true, false, List, [], ◌∷◌, ◌++◌, length, ◌==◌, if◌then◌else◌}
use verifierloop.Insn.{Insn}
use verifierloop.Gen.Insns.{
  alu64_imm, alu64_reg, alu32_imm, mov64_imm, mov64_reg, mov32_reg, jmp_imm, jmp_a, ldx_mem, st_mem,
  stx_mem, ld_map_fd, second_slot, emit_call, exit_insn, displacement, neg16, neg32, bpf_add,
  bpf_and, jeq, jgt, size_w, size_b, size_dw,
}
use verifierloop.Gen.Program.{map_lookup, patch_all}
use verifierloop.Gen.Segments.{
  to_slot, from_slot, find_map, two_paths, store_and_exit, with_exit, opening, narrowed, looked_up,
  masked_opening,
}
use verifierloop.Gen.Loops.{LoopBody, emit_loop_body, may_goto}
use verifierloop.Gen.Shapers.{Shaper, emit_prune_shaper, prune_store_off}
use verifierloop.Gen.Enumerated.{
  GenAlu, GenCmp, generated_program, mixed_program, movsx_program, upper_half_program, rr_program,
  mb_program, ptr_program, pkt_program,
}
use verifierloop.Gen.Links.{Idpart, emit_idpart}

-- enum spill_shape.
pub data SpillShape : Type 0 where
  spl_none spl_spill spl_delta spl_delta32 : SpillShape

-- enum idmap_link.
pub data IdmapLink : Type 0 where
  idl_none idl_mov idl_addc64 idl_addc32 : IdmapLink

unfoldable pub emit_spill_shape : SpillShape → Bool → List Insn
emit_spill_shape spl_none linked = to_slot 7 ∷ []
emit_spill_shape spl_spill true = mov64_reg 7 6 ∷ to_slot 7 ∷ []
emit_spill_shape spl_spill false = to_slot 7 ∷ []
emit_spill_shape spl_delta32 true =
    mov32_reg 7 6 ∷ alu32_imm bpf_add 7 4 ∷ mov32_reg 9 6 ∷ alu32_imm bpf_add 9 12 ∷ []
emit_spill_shape spl_delta32 false = alu32_imm bpf_add 7 4 ∷ alu32_imm bpf_add 9 12 ∷ []
emit_spill_shape spl_delta true =
    mov64_reg 7 6 ∷ alu64_imm bpf_add 7 4 ∷ mov64_reg 9 6 ∷ alu64_imm bpf_add 9 12 ∷ []
emit_spill_shape spl_delta false = alu64_imm bpf_add 7 4 ∷ alu64_imm bpf_add 9 12 ∷ []

unfoldable pub emit_idmap_link : IdmapLink → List Insn
emit_idmap_link idl_none = []
emit_idmap_link idl_mov = mov64_reg 7 6 ∷ []
emit_idmap_link idl_addc64 = mov64_reg 7 6 ∷ alu64_imm bpf_add 7 4 ∷ []
emit_idmap_link idl_addc32 = mov32_reg 7 6 ∷ alu32_imm bpf_add 7 4 ∷ []

abbrev jlt : ℕ
jlt = 0xa0

unfoldable pub prune_program : Shaper → Shaper → Bool → ℕ → ℕ → List Insn
prune_program fall taken use_stack map_in map_out =
    let save = if use_stack then to_slot 6 ∷ mov64_imm 6 0 ∷ [] else [] in
    let merged =
      opening map_in (6 ∷ 9 ∷ [])
      ++ two_paths 9 (emit_prune_shaper fall ++ save) (emit_prune_shaper taken ++ save)
      ++ (if use_stack then from_slot 6 ∷ [] else []) in
    with_exit (6 ∷ (length merged + 5) ∷ [])
      (merged ++ find_map map_out ++ store_and_exit 7 6 prune_store_off 0)

abbrev pub loop_store_off : ℕ
loop_store_off = 56

-- The head of the loop is the may_goto, and `jback` the last instruction of the loop.
unfoldable pub loop_program : LoopBody → ℕ → ℕ → ℕ → List Insn
loop_program body init_mask map_in map_out =
    let inside = emit_loop_body body in
    let looped =
      opening map_in (6 ∷ [])
      ++ alu64_imm bpf_and 6 init_mask ∷ may_goto (displacement 0 (length inside + 2)) ∷ inside
      ++ jmp_a (displacement (length inside + 1) 0) ∷ [] in
    with_exit (6 ∷ (length looped + 5) ∷ [])
      (looped ++ find_map map_out ++ store_and_exit 7 6 loop_store_off 1)

-- `store_src`: the slot that is read back into r8, or a register.
pub data StoreSource : Type 0 where
  src_slot src_r7 src_r9 src_r6 : StoreSource

abbrev pub source_reg : StoreSource → ℕ
source_reg src_slot = 8
source_reg src_r7 = 7
source_reg src_r9 = 9
source_reg src_r6 = 6

abbrev pub reload : StoreSource → List Insn
reload src_slot = from_slot 8 ∷ []
reload _ = []

unfoldable pub spill_program : SpillShape → Bool → Bool → StoreSource → ℕ → ℕ → ℕ → List Insn
spill_program shape link_fall link_taken store_src store_off map_in map_out =
    narrowed
      (opening map_in (6 ∷ 7 ∷ 9 ∷ 8 ∷ [])
        ++ two_paths 8 (emit_spill_shape shape link_fall) (emit_spill_shape shape link_taken))
      (reload store_src) map_out (store_and_exit 2 (source_reg store_src) store_off 1)

unfoldable pub idpart_program : Idpart → Idpart → ℕ → ℕ → ℕ → List Insn
idpart_program fall taken store_off map_in map_out =
    narrowed
      (opening map_in (6 ∷ 7 ∷ 8 ∷ 1 ∷ []) ++ two_paths 1 (emit_idpart fall) (emit_idpart taken)) []
      map_out (store_and_exit 2 9 store_off 1)

unfoldable pub idmap_program : IdmapLink → Bool → Bool → ℕ → ℕ → ℕ → List Insn
idmap_program link both use_r6 store_off map_in map_out =
    narrowed
      (opening map_in (6 ∷ 7 ∷ 9 ∷ [])
        ++ two_paths 9 (emit_idmap_link link) (if both then emit_idmap_link link else []))
      [] map_out (store_and_exit 8 (if use_r6 then 6 else 7) store_off 1)

-- run_loopr_prog has the mask written out.
unfoldable pub loopr_program : LoopBody → ℕ → ℕ → List Insn
loopr_program body = loop_program body 7

abbrev pub exact_store_off : ℕ
exact_store_off = 40

abbrev pub prec_store_off : ℕ
prec_store_off = 40

-- `store_src == 7` of the source is the last argument but two.
unfoldable pub prec_program : ℕ → ℕ → Bool → ℕ → ℕ → List Insn
prec_program c_fall c_taken from_r7 map_in map_out =
    looked_up
      (masked_opening map_in ++ two_paths 8 (mov64_imm 7 c_fall ∷ []) (mov64_imm 7 c_taken ∷ []))
      (if from_r7 then 7 else 6) prec_store_off map_out

-- enum exact_shape.
pub data ExactShape : Type 0 where
  exs_inf exs_flat exs_loop : ExactShape

abbrev pub constant_paths : List Insn
constant_paths = two_paths 8 (mov64_imm 7 8 ∷ []) (mov64_imm 7 16 ∷ [])

-- In EXS_INF the head is index 0 of the list and `jb` index 1; in EXS_LOOP the head is index 1.
unfoldable pub exact_code : ExactShape → List Insn
exact_code exs_inf = alu64_imm bpf_and 6 7 ∷ jmp_imm jlt 6 10 (displacement 1 0) ∷ []
exact_code exs_flat = constant_paths
exact_code exs_loop =
    let jback = 2 + length constant_paths in
    mov64_imm 7 8 ∷ may_goto (displacement 1 (jback + 1)) ∷ constant_paths
    ++ jmp_a (displacement jback 1) ∷ []

unfoldable pub exact_program : ExactShape → Bool → ℕ → ℕ → List Insn
exact_program shape from_r7 map_in map_out =
    looked_up (masked_opening map_in ++ exact_code shape) (if from_r7 then 7 else 6) exact_store_off
      map_out

-- The table `arms` of --gen-exact: where the back edge repeats the state, r7 is not stored.
pub data ExactArm : Type 0 where
  inf_r6 flat_r7 flat_r6 loop_r7 loop_r6 : ExactArm

unfoldable pub exact_arm : ExactArm → ℕ → ℕ → List Insn
exact_arm inf_r6 = exact_program exs_inf false
exact_arm flat_r7 = exact_program exs_flat true
exact_arm flat_r6 = exact_program exs_flat false
exact_arm loop_r7 = exact_program exs_loop true
exact_arm loop_r6 = exact_program exs_loop false

-- An arm of a family, as the tables of --gen-prune and the others list them.
pub data Arm : Type 0 where
  prune : Shaper → Shaper → Bool → Arm
  loop : LoopBody → ℕ → Arm
  spill : SpillShape → Bool → Bool → StoreSource → ℕ → Arm
  idpart : Idpart → Idpart → ℕ → Arm
  idmap : IdmapLink → Bool → Bool → ℕ → Arm
  loopr : LoopBody → Arm
  prec : ℕ → ℕ → Bool → Arm
  exact : ExactArm → Arm
  generated : GenAlu → GenCmp → Bool → Arm
  mixed : GenAlu → GenCmp → Bool → Arm
  movsx : ℕ → GenCmp → Arm
  upper_half : GenAlu → GenCmp → Arm
  rr mb ptr pkt : GenAlu → GenCmp → Bool → Arm

-- The enumerated programs load no map, but for those of run_generated_ptr, which load one.
abbrev pub family_program : Arm → ℕ → ℕ → List Insn
family_program (prune fall taken use_stack) = prune_program fall taken use_stack
family_program (loop body init_mask) = loop_program body init_mask
family_program (spill shape link_fall link_taken src off) =
    spill_program shape link_fall link_taken src off
family_program (idpart fall taken off) = idpart_program fall taken off
family_program (idmap link both use_r6 off) = idmap_program link both use_r6 off
family_program (loopr body) = loopr_program body
family_program (prec c_fall c_taken from_r7) = prec_program c_fall c_taken from_r7
family_program (exact row) = exact_arm row
family_program (generated alu cmp w32) = λ map_in map_out. generated_program alu cmp w32
family_program (mixed alu cmp wide_first) = λ map_in map_out. mixed_program alu cmp wide_first
family_program (movsx sz cmp) = λ map_in map_out. movsx_program sz cmp
family_program (upper_half alu cmp) = λ map_in map_out. upper_half_program alu cmp
family_program (rr alu cmp w32) = λ map_in map_out. rr_program alu cmp w32
family_program (mb alu cmp w32) = λ map_in map_out. mb_program alu cmp w32
family_program (ptr alu cmp w32) = λ map_fd map_out. ptr_program alu cmp w32 map_fd
family_program (pkt alu cmp w32) = λ map_in map_out. pkt_program alu cmp w32
