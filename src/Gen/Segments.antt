-- ===== src/Gen/Segments.antt =====
-- harness/diffharness.c, the parts that the programs of the families share: the lookups of the maps, the
-- two paths and the ways out.
use verifierloop.Base.{ℕ, ◌+◌, List, [], ◌∷◌, ◌++◌, length}
use verifierloop.Insn.{Insn}
use verifierloop.Gen.Insns.{
  alu64_imm, alu64_reg, mov64_imm, mov64_reg, jmp_imm, jmp_a, ldx_mem, st_mem, stx_mem, ld_map_fd,
  second_slot, emit_call, exit_insn, displacement, neg16, neg32, bpf_add, bpf_and, jeq, jgt, size_w,
  size_b, size_dw,
}
use verifierloop.Gen.Program.{map_lookup, patch_all}

abbrev pub to_slot : ℕ → Insn
to_slot r = stx_mem size_dw 10 r (neg16 16)

abbrev pub from_slot : ℕ → Insn
from_slot r = ldx_mem size_dw r 10 (neg16 16)

abbrev pub key : Insn
key = st_mem size_w 10 (neg16 4) 0

-- The lookup of a map; the branch that its last instruction is leads to the exit.
abbrev pub find_map : ℕ → List Insn
find_map fd =
    mov64_reg 2 10
    ∷ alu64_imm bpf_add 2 (neg32 4)
    ∷ ld_map_fd 1 fd
    ∷ second_slot
    ∷ emit_call map_lookup
    ∷ jmp_imm jeq 0 0 0
    ∷ []

-- The words of the map value, from offset 0 on.
abbrev pub load_words : ℕ → List ℕ → List Insn
load_words off [] = []
load_words off (r ∷ rs) = ldx_mem size_w r 0 off ∷ load_words (off + 4) rs

-- `jsplit` is index 0 of the list, and `jmerge` stands between the two paths.
abbrev pub two_paths : ℕ → List Insn → List Insn → List Insn
two_paths selector fall taken =
    jmp_imm jeq selector 0 (displacement 0 (length fall + 2)) ∷ fall
    ++ jmp_a (displacement 0 (length taken + 1)) ∷ taken

-- The store of a byte at `off` from the map value in `reg`, after `src` is added, and the way out.
abbrev pub store_and_exit : ℕ → ℕ → ℕ → ℕ → List Insn
store_and_exit reg src off result =
    mov64_reg reg 0
    ∷ alu64_reg bpf_add reg src
    ∷ st_mem size_b reg off 0xffffffff
    ∷ mov64_imm 0 result
    ∷ exit_insn
    ∷ []

-- The common exit `exit0`, and the branches that lead to it.
abbrev pub with_exit : List ℕ → List Insn → List Insn
with_exit jexit ins = patch_all jexit (length ins) (ins ++ mov64_imm 0 0 ∷ exit_insn ∷ [])

-- The first lookup, with the words that are loaded; its branch is index 6.
abbrev pub opening : ℕ → List ℕ → List Insn
opening map_in rs = (key ∷ find_map map_in) ++ load_words 0 rs

-- After the two paths of a family of links: the check that names r6, and the second lookup.
abbrev pub narrowed : List Insn → List Insn → ℕ → List Insn → List Insn
narrowed merged again map_out ending =
    let n = length merged in
    let second = n + 1 + length again in
    with_exit (6 ∷ n ∷ (second + 6) ∷ [])
      (merged ++ jmp_imm jgt 6 7 0 ∷ again ++ key ∷ find_map map_out ++ ending)

-- The lookup of the second map with its key, and the store through r2.
abbrev pub looked_up : List Insn → ℕ → ℕ → ℕ → List Insn
looked_up before src off map_out =
    with_exit (6 ∷ (length before + 6) ∷ [])
      (before ++ key ∷ find_map map_out ++ store_and_exit 2 src off 1)

-- r6 is masked, and r8 selects the path.
abbrev pub masked_opening : ℕ → List Insn
masked_opening map_in =
    (key ∷ find_map map_in)
    ++ ldx_mem size_w 6 0 0 ∷ alu64_imm bpf_and 6 7 ∷ ldx_mem size_w 8 0 4 ∷ []
