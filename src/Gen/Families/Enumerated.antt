-- ===== src/Gen/Families/Enumerated.antt =====
-- The analysis accepts the enumerated programs.
use verifierloop.Base.{ℕ, ◌≡◌, Bool, true, refl}
use verifierloop.Insn.{class_of, target}
use verifierloop.Live
use verifierloop.Live.{
  scan, solve, rounds, sweep, visit, transfer, live_after, usedef, usedef_class, usedef_alu,
  usedef_jmp, usedef_call, helper_argc, call_masks, bit_range, succ, succ_class, succ_jmp,
  in_program,
}
use verifierloop.Gen.Checks.{passes, every, both, both_at}
use verifierloop.Gen.Enumerated.{
  GenAlu, GenCmp, alu_row, cmp_row, generated_program, mixed_program, movsx_program,
  upper_half_program, rr_program, mb_program, ptr_program, pkt_program,
}
use verifierloop.Gen.Enumerated.Lookup.{gen_alus, gen_cmps, gen_alu_at, gen_cmp_at}

generated_every :
    every (λ a. every (λ c. both (λ w. passes (generated_program a c w))) gen_cmps) gen_alus ≡ true
unfolding Live.run scan solve rounds sweep visit transfer live_after usedef usedef_class usedef_alu
    usedef_jmp succ succ_class succ_jmp in_program class_of target every alu_row cmp_row
    generated_program
generated_every = refl

pub generated_passes :
    (a : GenAlu) (c : GenCmp) (w : Bool) → passes (generated_program a c w) ≡ true
generated_passes a c =
    both_at (λ w. passes (generated_program a c w))
      (gen_cmp_at (λ c. both (λ w. passes (generated_program a c w)))
        (gen_alu_at (λ a. every (λ c. both (λ w. passes (generated_program a c w))) gen_cmps)
          generated_every a)
        c)

mixed_every :
    every (λ a. every (λ c. both (λ w. passes (mixed_program a c w))) gen_cmps) gen_alus ≡ true
unfolding Live.run scan solve rounds sweep visit transfer live_after usedef usedef_class usedef_alu
    usedef_jmp succ succ_class succ_jmp in_program class_of target every alu_row cmp_row
    mixed_program
mixed_every = refl

pub mixed_passes : (a : GenAlu) (c : GenCmp) (w : Bool) → passes (mixed_program a c w) ≡ true
mixed_passes a c =
    both_at (λ w. passes (mixed_program a c w))
      (gen_cmp_at (λ c. both (λ w. passes (mixed_program a c w)))
        (gen_alu_at (λ a. every (λ c. both (λ w. passes (mixed_program a c w))) gen_cmps)
          mixed_every a)
        c)

upper_half_every :
    every (λ a. every (λ c. passes (upper_half_program a c)) gen_cmps) gen_alus ≡ true
unfolding Live.run scan solve rounds sweep visit transfer live_after usedef usedef_class usedef_alu
    usedef_jmp succ succ_class succ_jmp in_program class_of target every alu_row cmp_row
    upper_half_program
upper_half_every = refl

pub upper_half_passes : (a : GenAlu) (c : GenCmp) → passes (upper_half_program a c) ≡ true
upper_half_passes a =
    gen_cmp_at (λ c. passes (upper_half_program a c))
      (gen_alu_at (λ a. every (λ c. passes (upper_half_program a c)) gen_cmps) upper_half_every a)

movsx_every : (sz : ℕ) → every (λ c. passes (movsx_program sz c)) gen_cmps ≡ true
unfolding Live.run scan solve rounds sweep visit transfer live_after usedef usedef_class usedef_alu
    usedef_jmp succ succ_class succ_jmp in_program class_of target every cmp_row movsx_program
movsx_every sz = refl

pub movsx_passes : (sz : ℕ) (c : GenCmp) → passes (movsx_program sz c) ≡ true
movsx_passes sz = gen_cmp_at (λ c. passes (movsx_program sz c)) (movsx_every sz)

rr_every : every (λ a. every (λ c. both (λ w. passes (rr_program a c w))) gen_cmps) gen_alus ≡ true
unfolding Live.run scan solve rounds sweep visit transfer live_after usedef usedef_class usedef_alu
    usedef_jmp succ succ_class succ_jmp in_program class_of target every alu_row cmp_row rr_program
rr_every = refl

pub rr_passes : (a : GenAlu) (c : GenCmp) (w : Bool) → passes (rr_program a c w) ≡ true
rr_passes a c =
    both_at (λ w. passes (rr_program a c w))
      (gen_cmp_at (λ c. both (λ w. passes (rr_program a c w)))
        (gen_alu_at (λ a. every (λ c. both (λ w. passes (rr_program a c w))) gen_cmps) rr_every a)
        c)

mb_every : every (λ a. every (λ c. both (λ w. passes (mb_program a c w))) gen_cmps) gen_alus ≡ true
unfolding Live.run scan solve rounds sweep visit transfer live_after usedef usedef_class usedef_alu
    usedef_jmp succ succ_class succ_jmp in_program class_of target every alu_row cmp_row mb_program
mb_every = refl

pub mb_passes : (a : GenAlu) (c : GenCmp) (w : Bool) → passes (mb_program a c w) ≡ true
mb_passes a c =
    both_at (λ w. passes (mb_program a c w))
      (gen_cmp_at (λ c. both (λ w. passes (mb_program a c w)))
        (gen_alu_at (λ a. every (λ c. both (λ w. passes (mb_program a c w))) gen_cmps) mb_every a)
        c)

pkt_every :
    every (λ a. every (λ c. both (λ w. passes (pkt_program a c w))) gen_cmps) gen_alus ≡ true
unfolding Live.run scan solve rounds sweep visit transfer live_after usedef usedef_class usedef_alu
    usedef_jmp succ succ_class succ_jmp in_program class_of target every alu_row cmp_row pkt_program
pkt_every = refl

pub pkt_passes : (a : GenAlu) (c : GenCmp) (w : Bool) → passes (pkt_program a c w) ≡ true
pkt_passes a c =
    both_at (λ w. passes (pkt_program a c w))
      (gen_cmp_at (λ c. both (λ w. passes (pkt_program a c w)))
        (gen_alu_at (λ a. every (λ c. both (λ w. passes (pkt_program a c w))) gen_cmps) pkt_every a)
        c)

ptr_every :
    (map_fd : ℕ)
    → every (λ a. every (λ c. both (λ w. passes (ptr_program a c w map_fd))) gen_cmps) gen_alus
      ≡ true
unfolding Live.run scan solve rounds sweep visit transfer live_after usedef usedef_class usedef_alu
    usedef_jmp succ succ_class succ_jmp in_program class_of target every alu_row cmp_row usedef_call
    helper_argc call_masks bit_range ptr_program
ptr_every map_fd = refl

pub ptr_passes :
    (map_fd : ℕ) (a : GenAlu) (c : GenCmp) (w : Bool) → passes (ptr_program a c w map_fd) ≡ true
ptr_passes map_fd a c =
    both_at (λ w. passes (ptr_program a c w map_fd))
      (gen_cmp_at (λ c. both (λ w. passes (ptr_program a c w map_fd)))
        (gen_alu_at (λ a. every (λ c. both (λ w. passes (ptr_program a c w map_fd))) gen_cmps)
          (ptr_every map_fd) a)
        c)
