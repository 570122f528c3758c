-- ===== src/Tests/Traps.antt =====
-- Tests: what the analysis says of the programs that pin its rules.
use verifierloop.Base.{ℕ, ◌≡◌, List, [], ◌∷◌, some, refl}
use verifierloop.Insn.{class_of, target}
use verifierloop.Live
use verifierloop.Live.{
  analysed, scan, solve, rounds, sweep, visit, transfer, live_after, usedef, usedef_class,
  usedef_alu, usedef_jmp, usedef_call, atomic_masks, helper_argc, call_masks, bit_range, succ,
  succ_class, succ_jmp, in_program,
}
use verifierloop.Gen.Traps.{Trap, livetrap_build}
use verifierloop.Gen.Traps.{
  lt_assign_chain, lt_arithmetics, lt_store, lt_load, lt_endian, lt_atomic_rmw, lt_atomic_acq_rel,
  lt_regular_call, lt_if1, lt_if2, lt_if3_jset_bug, lt_loop, lt_gotol_case, lt_may_goto_case,
  lt_ldimm64, trap_assign_chain, trap_arithmetics, trap_store_rows, trap_load_rows, trap_endian,
  trap_atomic_rmw, trap_atomic_acq_rel, trap_regular_call, trap_if1, trap_if2, trap_if3_jset_bug,
  trap_loop_rows, trap_gotol, trap_may_goto, trap_ldimm64,
}

-- The registers that are live before each instruction, bit r for register r. A row is 0 at the
-- second half of a LD_IMM64, for which the kernel prints none.
abbrev expected_rows : Trap → List ℕ
expected_rows lt_assign_chain =
    0x000 ∷ 0x001 ∷ 0x002 ∷ 0x004 ∷ 0x008 ∷ 0x010 ∷ 0x020 ∷ 0x040 ∷ 0x080 ∷ 0x100 ∷ 0x200 ∷ 0x001
    ∷ []
expected_rows lt_arithmetics = 0x000 ∷ 0x002 ∷ 0x000 ∷ 0x004 ∷ 0x00c ∷ 0x000 ∷ 0x001 ∷ []
expected_rows lt_store = 0x000 ∷ 0x002 ∷ 0x002 ∷ 0x002 ∷ 0x006 ∷ 0x006 ∷ 0x000 ∷ 0x001 ∷ []
expected_rows lt_load = 0x000 ∷ 0x010 ∷ 0x010 ∷ 0x030 ∷ 0x020 ∷ 0x001 ∷ []
expected_rows lt_endian = 0x002 ∷ 0x004 ∷ 0x004 ∷ 0x001 ∷ []
expected_rows lt_atomic_rmw =
    0x000 ∷ 0x004 ∷ 0x004 ∷ 0x006 ∷ 0x004 ∷ 0x000 ∷ 0x006 ∷ 0x001 ∷ 0x001 ∷ 0x003 ∷ 0x003 ∷ 0x003
    ∷ 0x003 ∷ 0x006 ∷ 0x007 ∷ 0x001 ∷ []
expected_rows lt_atomic_acq_rel = 0x000 ∷ 0x002 ∷ 0x006 ∷ 0x000 ∷ 0x008 ∷ 0x010 ∷ 0x001 ∷ []
expected_rows lt_regular_call = 0x000 ∷ 0x080 ∷ 0x082 ∷ 0x082 ∷ 0x086 ∷ 0x081 ∷ 0x001 ∷ []
expected_rows lt_if1 = 0x002 ∷ 0x003 ∷ 0x007 ∷ 0x004 ∷ 0x001 ∷ []
expected_rows lt_if2 = 0x002 ∷ 0x003 ∷ 0x007 ∷ 0x00f ∷ 0x004 ∷ 0x001 ∷ []
expected_rows lt_if3_jset_bug = 0x002 ∷ 0x003 ∷ 0x007 ∷ 0x001 ∷ 0x004 ∷ 0x001 ∷ []
expected_rows lt_loop = 0x000 ∷ 0x002 ∷ 0x006 ∷ 0x006 ∷ 0x006 ∷ 0x006 ∷ 0x006 ∷ 0x000 ∷ 0x001 ∷ []
expected_rows lt_gotol_case = 0x002 ∷ 0x006 ∷ 0x00e ∷ 0x004 ∷ 0x001 ∷ 0x008 ∷ 0x001 ∷ []
expected_rows lt_may_goto_case = 0x000 ∷ 0x002 ∷ 0x000 ∷ 0x002 ∷ 0x001 ∷ []
expected_rows lt_ldimm64 = 0x000 ∷ 0x001 ∷ 0x000 ∷ 0x005 ∷ 0x001 ∷ []

-- The analysis accepts every program that pins a rule, whichever map it is given, and its rows are
-- those expected.
livetrap_rows :
    (t : Trap) (map_fd : ℕ)
    → Live.run [] (livetrap_build t (some map_fd)) ≡ analysed (expected_rows t)
unfolding livetrap_build Live.run scan solve rounds sweep visit transfer live_after usedef
    usedef_class usedef_alu usedef_jmp usedef_call atomic_masks helper_argc call_masks bit_range
    succ succ_class succ_jmp in_program class_of target trap_assign_chain trap_arithmetics
    trap_store_rows trap_load_rows trap_endian trap_atomic_rmw trap_atomic_acq_rel trap_regular_call
    trap_if1 trap_if2 trap_if3_jset_bug trap_loop_rows trap_gotol trap_may_goto trap_ldimm64
livetrap_rows lt_assign_chain fd = refl
livetrap_rows lt_arithmetics fd = refl
livetrap_rows lt_store fd = refl
livetrap_rows lt_load fd = refl
livetrap_rows lt_endian fd = refl
livetrap_rows lt_atomic_rmw fd = refl
livetrap_rows lt_atomic_acq_rel fd = refl
livetrap_rows lt_regular_call fd = refl
livetrap_rows lt_if1 fd = refl
livetrap_rows lt_if2 fd = refl
livetrap_rows lt_if3_jset_bug fd = refl
livetrap_rows lt_loop fd = refl
livetrap_rows lt_gotol_case fd = refl
livetrap_rows lt_may_goto_case fd = refl
livetrap_rows lt_ldimm64 fd = refl
