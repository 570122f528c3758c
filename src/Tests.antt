-- ===== src/Tests.antt =====
-- The theorems at concrete programs, states and logs.
mod Pairs
mod Buffers
mod Rows
mod Generator
mod Claims
mod Comp
mod Traps
use verifierloop.Base.{
  ℕ, zero, suc, ◌+◌, ◌^◌, ◌≤◌, ◌<◌, ◌≡◌, ◌≢◌, ◌↔◌, ◌⊎◌, inl, inr, true, false, Bool, refl, sym, ◌∙◌,
  arith,
}
use verifierloop.Base.{
  List, [], ◌∷◌, length, replicate, set, some, none, pos, bit_and, get_or-set_ne, get_elem?, ℤ,
  Option,
}
use verifierloop.Base.Bits.{testbit}
use verifierloop.Insn.{Insn, class_of, target}
use verifierloop.Live
use verifierloop.Live.{
  Kfunc, analysed, live_at, scan, solve, rounds, sweep, visit, transfer, live_after, usedef,
  usedef_class,
}
use verifierloop.Live.{
  usedef_alu, usedef_jmp, succ, succ_class, succ_jmp, Node, tracked, nodes, register_kfunc,
  kfunc_argc, registered,
}
use mathlib.Core.Bool.{false≢true}
use verifierloop.Live.Usedef.Registry.{
  IsRegistry, register_kfunc-IsRegistry, kfunc_argc-register_kfunc,
}
use verifierloop.Live.Flow.Scanned.{Scanned, Scanned-IsGraph, scan-Scanned}
use verifierloop.Live.Flow.Paths.{LivePath, IsGraph}
use verifierloop.Live.Flow.Correct.{run-live_iff, rounds_guard}
use verifierloop.Ref.{
  State, run_from, returned, round, exec, exec_class, exec_alu, exec_jmp, alu_result, alu_op, mov,
  initial_memory,
}
use verifierloop.Gate.{encoded}
use verifierloop.Gate.Dead.{Agree, dead_registers}

-- r0 = r6; exit.
abbrev pub copy : List Insn
copy =
    record { code = 0xbf; dst_reg = 0; src_reg = 6; off = 0; imm = 0 }
    ∷ record { code = 0x95; dst_reg = 0; src_reg = 0; off = 0; imm = 0 }
    ∷ []

abbrev pub copy_live : List ℕ
copy_live = 64 ∷ 1 ∷ []

copy-run : Live.run [] copy ≡ analysed copy_live
unfolding Live.run scan solve rounds sweep visit transfer live_after usedef usedef_class usedef_alu
    usedef_jmp succ succ_class succ_jmp class_of target
copy-run = refl

abbrev copy_nodes : List Node
copy_nodes =
    record { uses = 64; defs = 1; succs = 1 ∷ []; skip = false }
    ∷ record { uses = 1; defs = 0; succs = []; skip = false }
    ∷ []

copy-scan : scan [] 2 0 false copy ≡ nodes copy_nodes
unfolding scan usedef usedef_class usedef_alu usedef_jmp succ succ_class succ_jmp class_of target
copy-scan = refl

abbrev five : State
five = record {
  pc = pos 0;
  regs = 0 ∷ 0 ∷ 0 ∷ 0 ∷ 0 ∷ 0 ∷ 5 ∷ 0 ∷ 0 ∷ 0 ∷ 0x20000 ∷ [];
  memory = initial_memory;
}

-- r1 is not live before the first instruction.
five-Agree : Agree (live_at copy_live 0) five.regs (set five.regs 1 9)
five-Agree = record {
  size = refl;
  size' = refl;
  alive = λ k t. sym (get_or-set_ne five.regs 1 k 9 0 (λ e. false≢true (rw (sym e) at t)));
  frame = refl;
}

five-run : run_from copy 3 five ≡ returned 5
unfolding run_from round exec exec_class exec_alu exec_jmp alu_result alu_op mov class_of
five-run = refl

dead_registers_example : run_from copy 3 (record five { regs = set five.regs 1 9 }) ≡ returned 5
unfolding class_of
dead_registers_example =
    dead_registers [] copy copy_live copy-run refl 3 five (set five.regs 1 9) 0 5 refl five-Agree
      five-run

run-live_iff_example :
    (g : List Node) × Scanned [] 2 0 false copy g
    × ((i r : ℕ)
        → (testbit (live_at copy_live i) r ≡ true) ↔ (LivePath g r i × (testbit tracked r ≡ true)))
run-live_iff_example = run-live_iff [] copy copy_live copy-run

rounds_guard_example :
    live_at (rounds copy_nodes 3 (0 ∷ 0 ∷ [])) 0 ≡ live_at (rounds copy_nodes 100 (0 ∷ 0 ∷ [])) 0
rounds_guard_example =
    rounds_guard copy_nodes 3 100 0
      (Scanned-IsGraph (scan-Scanned [] 2 0 false copy copy_nodes copy-scan)) (omega arith)
      (omega arith)

one_entry : registered [] 7 ≡ false
unfolding registered
one_entry = refl

register_kfunc-IsRegistry_example :
    IsRegistry (register_kfunc (record { btf_id = 7; argc = 2 } ∷ []) 9 1)
register_kfunc-IsRegistry_example =
    register_kfunc-IsRegistry (record { btf_id = 7; argc = 2 } ∷ []) 9 1 seven
  where
    seven : IsRegistry (record { btf_id = 7; argc = 2 } ∷ [])
    seven = record { distinct = (one_entry, tt); bounded = omega arith }

kfunc_argc-register_kfunc_example :
    kfunc_argc (register_kfunc (record { btf_id = 7; argc = 2 } ∷ []) 9 1) 9 ≡ some 1
unfolding registered
kfunc_argc-register_kfunc_example =
    kfunc_argc-register_kfunc (record { btf_id = 7; argc = 2 } ∷ []) 9 1 9
