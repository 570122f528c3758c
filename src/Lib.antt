-- ===== src/Lib.antt =====
-- Models of the in-VM oracles of this repository, the headers under harness/ that the difference
-- harness includes: an analysis of live registers, a reference interpreter, a model of the
-- verifier's state subsumption, and a lookup of claims in the verifier's log; of how the first two
-- fit together; and of the generator of harness/diffharness.c, whose programs they judge.
--
-- - Base: the numbers, lists, Boolean tests and bits that the parts share. Insn: `struct bpf_insn`
--   and the opcode pieces that harness/bpflive.h and harness/bpfref.h spell.
-- - Live: harness/bpflive.h. Live/Usedef.antt has bpflive_helper_argc, the kfunc table,
--   bpflive_usedef and bpflive_succ; Live/Flow.antt has bpflive_run: `scan` is its first loop,
--   `sweep` one round of the second and `rounds` the second loop. Live/Log.antt has
--   bpflive_parse_row and bpflive_compare_log.
-- - Ref: harness/bpfref.h. Ref/Alu.antt has the ALU classes, Ref/Buffers.antt the memory and
--   bpfref_resolve, Ref/Step.antt the switch on the class, and Ref/Run.antt the loop of
--   bpfref_run_at2 with the entry points.
-- - Gate: the analysis against the interpreter. Both are written apart from each other in the
--   source, and check_liveness_gate trusts the first to judge the kernel by it.
-- - Subs: harness/bpfsubs.h. Subs/Arc.antt has the circular ranges, Subs/Tnum.antt the known bits,
--   Subs/Ids.antt the map of identities, Subs/Eval.antt subs_eval, and Subs/Log.antt
--   bpfsubs_compare_log.
-- - Claim: harness/bpfclaim.h, bpfclaim_at and the two functions that it calls.
-- - Gen: harness/diffharness.c, the generator of --gen-intent and --fuzz. Gen/Insns.antt has the
--   instruction macros, Gen/Genome.antt gi_rand to gi_genome_random and fz_mutate, Gen/Body.antt
--   and Gen/Emit.antt gi_emit_body, one definition for each gene, Gen/Program.antt the prologue,
--   the tail and the offsets that run_gen_intent_family, run_fuzz_replay and run_fuzz put around
--   it, and Gen/Fuzz.antt kseen_add and the corpus of run_fuzz, Gen/Replay.antt fz_print_genome
--   and the parser of run_fuzz_replay, and Gen/Traps.antt livetrap_build. Gen/Shapers.antt has
--   emit_prune_shaper and Gen/Links.antt emit_idpart, with what the harness holds of each, and
--   Gen/Loops.antt emit_loop_body and emit_iter_loop. Gen/Families.antt has what run_prune_prog,
--   run_loop_prog, run_spill_prog, run_idpart_prog, run_idmap_prog, run_loopr_prog, run_prec_prog
--   and run_exact_prog build before they load it, of the parts in Gen/Segments.antt, and
--   Gen/Enumerated.antt what run_generated, run_mixed, run_movsx, run_upper_half,
--   run_generated_rr, run_generated_mb, run_generated_ptr and run_generated_pkt build.
--   Gen/Layout.antt has the layout that the analysis of Live asks of a program, and the folders
--   Gen/Emit and Gen/Program are about the layout of the generator's. Gen/Coding.antt has the
--   encodings that the instruction set knows, and Gen/Reach.antt which instructions a run reaches.
-- - Gen/Comp: the composing generator of --gen-comp. Gen/Comp.antt has the context and comp_can,
--   Gen/Comp/Draw.antt comp_pick, comp_scalar_reg and the redraws, Gen/Comp/Code.antt the
--   instructions of each piece of comp_emit, Gen/Comp/Walk.antt its draws and the walk of
--   run_comp_prog, and Gen/Comp/Finish.antt the store, the exits and the callee. A draw is a
--   computation on the state of the random numbers that may run out of tries. Of loading the
--   program and of judging it nothing is modelled.
-- - Tests: the theorems at concrete inputs.
--
-- Numbers. A C unsigned integer is a number below its bound, with the wrap-around written out; a
-- signed one is held as its two's complement pattern, and read as signed where the code does so. A
-- program counter is an integer, for a jump can leave the program on either side.
--
-- State. The interpreter's registers, program counter and buffers are a record that each
-- instruction takes and gives back. A fault of the interpreter is a value; one fault more than the
-- source has, `undefined`, stands for what C leaves undefined. The subsumption model threads its
-- map and its counters through the checks in the order of the source.
--
-- Bounds. `rounds` runs on the source's own guard, 4 * 8192 rounds, which is more than the number
-- of nodes of any accepted program; `run_from` runs on the source's own budget, 2 ^ 22
-- instructions, and reports the LOOP status at its end as the source does. `table`, the loop over
-- the rows of the kernel's table, runs on the length of the text and one. The loop over the genes
-- runs on the bound of the source, 24. claim_read_value has eight hops and kseen_add 64 probes, as
-- in the source. A redraw of comp_emit, a do-while loop without a bound, runs on a number of tries, which is
-- enough where `steady` holds of the seed. print_digits has one round more than the number it prints. All other loops are
-- structural.
--
-- A genome is the list of its genes, for the entries of the array from `n` on are never read. The
-- draws of the generator are in the order of the source; where C leaves the order of two draws to
-- the compiler, one of the two is taken. A jump's offset is the displacement between two indices
-- of the list that is being written.
--
-- Not modelled. The sscanf of harness/bpfsubs.h (`Scanner`) and the strtoll, strtoull and snprintf
-- of harness/bpfclaim.h (`Libc`) are parameters, as they are the C library's, and so is what a
-- load covers (`round`); of printf and sscanf Gen/Replay.antt has the conversion %u. The recipe
-- that gi_emit_body prints is left out, and so are the other families of programs of
-- harness/diffharness.c. What only prints (bpflive_print_claim, bpfref_status_name,
-- harness/subsdrv.c), system calls (harness/f2probe.c, harness/syzreplay/shim.c and most of
-- harness/diffharness.c) and the drivers that are not C are left out.
pub mod Base
pub mod Insn
pub mod Live
pub mod Ref
pub mod Gate
pub mod Subs
pub mod Gen
pub mod Claim
mod Tests
