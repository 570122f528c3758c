-- ===== src/Ref/Run.antt =====
-- harness/bpfref.h, the loop of bpfref_run_at2 and the entry points.
use verifierloop.Base.{ℕ, zero, suc, ◌^◌, Option, none, some, List, [], ◌∷◌, get_elem?}
use verifierloop.Base.{bit_and, ◌==◌, if◌then◌else◌, ◌+◌, ℤ, pos, negsuc}
use verifierloop.Insn.{Insn}
use verifierloop.Ref.Alu.{Status, Fault, Outcome, val, fault, ok, failed, loop, badpc}
use verifierloop.Ref.Buffers.{initial_memory, stack_base, map_base, pkt_base, pkt_size}
use verifierloop.Ref.Step.{State, Next, goes, exits, exec}

pub record Result : Type 0 where
  pub status : Status
  pub retval : ℕ
  pub fault_pc : ℤ
  pub fault_code : ℕ

abbrev pub stopped : Fault → ℤ → ℕ → Result
stopped s pc code = record { status = failed s; retval = 0; fault_pc = pc; fault_code = code }

abbrev pub returned : ℕ → Result
returned v = record { status = ok; retval = v; fault_pc = pos 0; fault_code = 0 }

abbrev pub fetch : List Insn → ℤ → Option Insn
fetch ins (pos i) = get_elem? ins i
fetch ins (negsuc i) = none

abbrev pub index : ℤ → ℕ
index (pos i) = i
index (negsuc i) = 0

abbrev pub finish : ℤ → ℕ → Outcome Next → (State → Result) → Result
finish pc code (val (goes s)) rest = rest s
finish pc code (val (exits v)) rest = returned v
finish pc code (fault st) rest = stopped st pc code

-- One round of the loop, where `rest` runs what follows it.
unfoldable pub round : List Insn → State → Option Insn → (State → Result) → Result
round ins s none rest = stopped badpc s.pc 0
round ins s (some x) rest = finish s.pc x.code (exec ins (index s.pc) x s) rest

abbrev pub out_of_budget : State → Option Insn → Result
out_of_budget s none = stopped badpc s.pc 0
out_of_budget s (some x) = stopped loop s.pc 0

-- The loop, with the instructions that the budget still allows.
unfoldable pub run_from : List Insn → ℕ → State → Result
run_from ins zero s = out_of_budget s (fetch ins s.pc)
run_from ins (suc budget) s = round ins s (fetch ins s.pc) (run_from ins budget)

abbrev pub budget_limit : ℕ
budget_limit = 2 ^ 22

abbrev pub if_bit : ℕ → ℕ → ℕ → ℕ
if_bit regions bit v = if bit_and regions bit == 0 then 0 else v

-- r0 .. r10 at the start.
unfoldable pub initial_regs : ℕ → ℕ → ℕ → ℕ → ℕ → List ℕ
initial_regs ctx s6 s7 s9 regions =
    0
    ∷ ctx
    ∷ if_bit regions 0x2 pkt_base
    ∷ if_bit regions 0x2 (pkt_base + pkt_size)
    ∷ 0
    ∷ 0
    ∷ s6
    ∷ s7
    ∷ if_bit regions 0x1 map_base
    ∷ s9
    ∷ stack_base
    ∷ []

unfoldable pub initial_state : ℤ → ℕ → ℕ → ℕ → ℕ → ℕ → State
initial_state start ctx s6 s7 s9 regions = record {
  pc = start;
  regs = initial_regs ctx s6 s7 s9 regions;
  memory = initial_memory;
}

unfoldable pub run_at2 : List Insn → ℤ → ℕ → ℕ → ℕ → ℕ → ℕ → Result
run_at2 ins start ctx s6 s7 s9 regions =
    run_from ins budget_limit (initial_state start ctx s6 s7 s9 regions)

unfoldable pub run_at : List Insn → ℤ → ℕ → ℕ → ℕ → ℕ → Result
unfolding run_at2
run_at ins start ctx s6 s7 s9 = run_at2 ins start ctx s6 s7 s9 0

unfoldable pub run : List Insn → ℕ → Result
unfolding run_at
run ins ctx = run_at ins (pos 0) ctx 0 0 0

unfoldable pub run_seeded : List Insn → ℤ → ℕ → ℕ → ℕ → Result
run_seeded ins start r6 r7 r9 = run_at2 ins start 0 r6 r7 r9 0

unfoldable pub run_seeded_map : List Insn → ℤ → ℕ → ℕ → ℕ → Result
run_seeded_map ins start r6 r7 r9 = run_at2 ins start 0 r6 r7 r9 0x1

unfoldable pub run_seeded_pkt : List Insn → ℤ → ℕ → ℕ → ℕ → Result
run_seeded_pkt ins start r6 r7 r9 = run_at2 ins start 0 r6 r7 r9 0x3
