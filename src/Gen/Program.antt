-- ===== src/Gen/Program.antt =====
-- harness/diffharness.c, run_fuzz, run_gen_intent_family and run_fuzz_replay: the program that a
-- genome becomes.
pub mod Sealed
pub mod Prologue
pub mod Accepted
use verifierloop.Base.{ℕ, ◌==◌, List, [], ◌∷◌, ◌++◌, length, Option, if◌then◌else◌, Bool, ◌||◌}
use verifierloop.Insn.{Insn}
use verifierloop.Gen.Insns.{
  alu64_imm, mov64_imm, mov64_reg, jmp_imm, ldx_mem, st_mem, ld_map_fd, second_slot, emit_call,
  exit_insn,
}
use verifierloop.Gen.Insns.{displacement, with_off, neg16, neg32, bpf_add, bpf_rsh, jeq, size_w}
use verifierloop.Gen.Genome.{Genome}
use verifierloop.Gen.Body.{IterIds, Body}
use verifierloop.Gen.Emit.{start_body, emit_body}
use verifierloop.Gen.Layout.{adjust}

abbrev pub null_sentinel : ℕ
null_sentinel = 0xdead

-- BPF_FUNC_map_lookup_elem.
abbrev pub map_lookup : ℕ
map_lookup = 1

-- Three values of one map, and the pointer to a value of the other.
unfoldable pub prologue : ℕ → ℕ → List Insn
prologue map_in map_out =
    st_mem size_w 10 (neg16 4) 0
    ∷ mov64_reg 2 10
    ∷ alu64_imm bpf_add 2 (neg32 4)
    ∷ ld_map_fd 1 map_in
    ∷ second_slot
    ∷ emit_call map_lookup
    ∷ jmp_imm jeq 0 0 0
    ∷ ldx_mem size_w 6 0 0
    ∷ ldx_mem size_w 7 0 4
    ∷ ldx_mem size_w 9 0 8
    ∷ mov64_reg 2 10
    ∷ alu64_imm bpf_add 2 (neg32 4)
    ∷ ld_map_fd 1 map_out
    ∷ second_slot
    ∷ emit_call map_lookup
    ∷ jmp_imm jeq 0 0 0
    ∷ mov64_reg 8 0
    ∷ []

-- The indices `jnull` and `jnull2` of the prologue.
abbrev pub jnull : ℕ
jnull = 6

abbrev pub jnull2 : ℕ
jnull2 = 15

-- What every branch of the body goes to.
unfoldable pub tail_of : ℕ → List Insn
tail_of hi =
    let end = mov64_reg 0 6 ∷ exit_insn ∷ [] in
    if hi == 0 then end else alu64_imm bpf_rsh 6 32 ∷ end

-- `ins[j].off = to - j - 1`.
unfoldable pub patch : ℕ → ℕ → List Insn → List Insn
patch j to = adjust j (λ x. with_off x (displacement j to))

unfoldable pub patch_all : List ℕ → ℕ → List Insn → List Insn
patch_all [] to ins = ins
patch_all (j ∷ js) to ins = patch_all js to (patch j to ins)

-- From the body on: the tail, the sentinel, and the offsets of the branches.
unfoldable pub finish : ℕ → Body → List Insn
finish hi w =
    let tail = length w.ins in
    let rows = w.ins ++ tail_of hi in
    let sentinel = length rows in
    let all = rows ++ mov64_imm 0 null_sentinel ∷ exit_insn ∷ [] in
    patch jnull2 sentinel (patch jnull sentinel (patch_all w.jexit tail all))

-- The counters of iterators go in as `emitted` and `skipped`.
unfoldable pub body_of : Option IterIds → ℕ → ℕ → ℕ → ℕ → Genome → Body
body_of ids map_in map_out emitted skipped g =
    emit_body ids g (start_body (prologue map_in map_out) emitted skipped)

unfoldable pub program : Option IterIds → ℕ → ℕ → ℕ → ℕ → Genome → List Insn
program ids map_in map_out emitted skipped g =
    finish g.hi (body_of ids map_in map_out emitted skipped g)
