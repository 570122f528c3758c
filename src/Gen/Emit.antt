-- ===== src/Gen/Emit.antt =====
-- harness/diffharness.c, gi_emit_body: the instructions that a genome stands for.
pub mod Laid
pub mod Genes
pub mod Size
use verifierloop.Base.{
  ℕ, zero, suc, ◌+◌, ◌-◌, ◌*◌, ◌/◌, ◌%◌, ◌^◌, bit_and, bit_or, Bool, true, false,
}
use verifierloop.Base.{
  ◌||◌, not, List, [], ◌∷◌, ◌++◌, length, Option, none, some, ◌==◌, leb, ltb, if◌then◌else◌,
}
use verifierloop.Insn.{Insn}
use verifierloop.Gen.Insns.{
  alu64_imm, alu64_reg, alu32_imm, mov64_imm, mov64_reg, jmp_imm, jmp32_imm, jmp_a,
}
use verifierloop.Gen.Insns.{ldx_mem, st_mem, stx_mem, kfunc_call, displacement, neg16, neg32}
use verifierloop.Gen.Insns.{
  bpf_add, bpf_sub, bpf_mul, bpf_or, bpf_and, bpf_xor, bpf_lsh, bpf_rsh, bpf_arsh,
}
use verifierloop.Gen.Insns.{jeq, jgt, jne, jslt, size_w, size_b, size_dw}
use verifierloop.Gen.Genome.{Gene, Genome, step_count, max_genes}
use verifierloop.Gen.Body.{
  IterIds, StoreSite, Body, put, note_exit, next_slot, add_site, bit, choose4, choose6,
}
use verifierloop.Gen.Body.{reg_of, other_reg}

unfoldable pub emit_link : ℕ → ℕ → Body → Body
emit_link a b = put (mov64_reg b a ∷ [])

unfoldable pub emit_delta : ℕ → ℕ → ℕ → Body → Body
emit_delta b k o = put ((if bit o 0 then alu64_imm bpf_add b k else alu32_imm bpf_add b k) ∷ [])

unfoldable pub emit_selfop : ℕ → ℕ → Body → Body
emit_selfop a o = put (alu64_reg (choose4 (o % 4) bpf_add bpf_sub bpf_xor bpf_or) a a ∷ [])

unfoldable pub emit_clearop : ℕ → ℕ → ℕ → Body → Body
emit_clearop b k o = put (alu64_imm (choose4 (o % 4) bpf_xor bpf_or bpf_and bpf_mul) b k ∷ [])

unfoldable pub emit_narrow : ℕ → ℕ → Body → Body
emit_narrow b k w = put (jmp_imm jgt b k 0 ∷ []) (note_exit w)

unfoldable pub emit_relink : ℕ → Body → Body
emit_relink a = put (mov64_reg 9 a ∷ [])

-- The refill, at depth `d`: MEMSX | W, or a plain load.
unfoldable pub refill : ℕ → ℕ → ℕ → Insn
refill a o d =
    if o % 3 == 0
    then record { code = 0x81; dst_reg = a; src_reg = 10; off = neg16 d; imm = 0 }
    else ldx_mem size_dw a 10 (neg16 d)

unfoldable pub emit_spill : ℕ → ℕ → Body → Body
emit_spill a o w =
    let v = next_slot w in put (stx_mem size_dw 10 a (neg16 v.stack) ∷ refill a o v.stack ∷ []) v

unfoldable pub emit_w32 : ℕ → ℕ → ℕ → Body → Body
emit_w32 a k o =
    put (alu32_imm (choose6 (o % 6) bpf_add bpf_sub bpf_mul bpf_and bpf_or bpf_xor) a k ∷ [])

unfoldable pub emit_shift : ℕ → ℕ → Body → Body
emit_shift a o =
    let sh = 1 + o % 31 in
    let kind = o / 2 ^ 5 % 4 in
    put (
      (if kind == 0
        then alu64_imm bpf_lsh a sh
        else if kind == 1
        then alu64_imm bpf_rsh a sh
        else if kind == 2
        then alu64_imm bpf_arsh a sh
        else alu32_imm bpf_arsh a sh)
      ∷ [])

unfoldable pub emit_scmp : ℕ → ℕ → ℕ → Body → Body
emit_scmp a k o w =
    put ((if bit o 0 then jmp_imm jslt a k 0 else jmp32_imm jslt a k 0) ∷ []) (note_exit w)

-- cls | BPF_X | op, with off 1 for the signed form.
unfoldable pub sdiv_code : ℕ → ℕ
sdiv_code o = if bit o 0 then if bit o 1 then 0x3f else 0x9f else if bit o 1 then 0x3c else 0x9c

unfoldable pub emit_sdiv : ℕ → ℕ → ℕ → Body → Body
emit_sdiv a b o =
    put (record { code = sdiv_code o; dst_reg = a; src_reg = b; off = 1; imm = 0 } ∷ [])

abbrev pub iter_slot : ℕ
iter_slot = 256

abbrev pub skip_iter : Body → Body
skip_iter w = record w { iter_skipped = w.iter_skipped + 1 }

abbrev pub count_iter : Body → Body
count_iter w = record w { iters = true; iter_emitted = w.iter_emitted + 1 }

-- The body of the iterator's loop.
unfoldable pub iter_body : ℕ → ℕ → ℕ → List Insn
iter_body a k o =
    if bit o 0
    then alu64_imm bpf_add a k ∷ alu64_imm bpf_and a 7 ∷ []
    else alu64_imm bpf_and a 7 ∷ []

-- `head` is index 5 and `jdone` index 8 of the list, and the jump back stands after the body.
unfoldable pub iter_code : IterIds → ℕ → List Insn → List Insn
iter_code ids o body =
    let back = 9 + length body in
    (mov64_reg 1 10
      ∷ alu64_imm bpf_add 1 (neg32 iter_slot)
      ∷ mov64_imm 2 0
      ∷ mov64_imm 3 (1 + o % 4)
      ∷ kfunc_call ids.new_id
      ∷ mov64_reg 1 10
      ∷ alu64_imm bpf_add 1 (neg32 iter_slot)
      ∷ kfunc_call ids.next_id
      ∷ jmp_imm jeq 0 0 (displacement 8 (back + 1))
      ∷ [])
    ++ (body
        ++ (jmp_a (displacement back 5)
            ∷ mov64_reg 1 10
            ∷ alu64_imm bpf_add 1 (neg32 iter_slot)
            ∷ kfunc_call ids.destroy_id
            ∷ []))

unfoldable pub emit_iter : Option IterIds → ℕ → ℕ → ℕ → Body → Body
emit_iter none a k o w = skip_iter w
emit_iter (some ids) a k o w =
    if w.iters || ltb 300 (length w.ins + 16)
    then skip_iter w
    else put (iter_code ids o (iter_body a k o)) (count_iter w)

unfoldable pub pin_imm : ℕ → ℕ
pin_imm o = let v = 1 + o / 2 ^ 2 % 64 in if bit o 1 then neg32 v else v

unfoldable pub emit_constant : ℕ → ℕ → Body → Body
emit_constant a o w =
    let v = next_slot w in
    put (st_mem size_dw 10 (neg16 v.stack) (pin_imm o) ∷ ldx_mem size_dw a 10 (neg16 v.stack) ∷ [])
      v

unfoldable pub emit_pin : ℕ → ℕ → ℕ → Body → Body
emit_pin a k o w =
    if bit o 0 then emit_constant a o w else put (jmp_imm jne a k 0 ∷ []) (note_exit w)

-- The site asks at the ADD, the instruction before the store.
unfoldable pub emit_store : ℕ → ℕ → Body → Body
emit_store a k w =
    let v = put (mov64_reg 1 8 ∷ alu64_reg bpf_add 1 a ∷ []) w in
    put (st_mem size_b 1 (k % 8) 0xffffffff ∷ [])
      (add_site (record { insn = length v.ins - 1; k = k % 8; fixed = none }) v)

unfoldable pub emit_stackvar : ℕ → ℕ → Body → Body
emit_stackvar a o = put (
    mov64_reg 1 10
    ∷ alu64_reg bpf_add 1 a
    ∷ st_mem size_b 1 (neg16 64) (o % 128)
    ∷ ldx_mem size_b a 1 (neg16 64)
    ∷ [])

unfoldable pub atomic_imm : ℕ → ℕ
atomic_imm o =
    let kind = o / 2 % 8 in
    if ltb kind 4
    then choose4 (o / 2 % 4) bpf_add bpf_or bpf_and bpf_xor
    else if ltb kind 6
    then bit_or (choose4 (o / 2 ^ 4 % 4) bpf_add bpf_or bpf_and bpf_xor) 1
    else if kind == 6
    then 0xe1
    else 0xf1

-- The store that seeds the target, and the atomic.
unfoldable pub atomic_pair : Bool → ℕ → ℕ → ℕ → ℕ → ℕ → List Insn
atomic_pair dw base a b off imm =
    stx_mem (if dw then size_dw else size_w) base b off
    ∷ record { code = if dw then 0xdb else 0xc3; dst_reg = base; src_reg = a; off = off; imm = imm }
    ∷ []

-- The sites of the bytes `q`, .. of an atomic on the map value.
unfoldable pub add_fixed : ℕ → ℕ → Body → Body
add_fixed zero at w = w
add_fixed (suc q) at w =
    add_fixed q (suc at) (add_site (record { insn = length w.ins; k = 0; fixed = some at }) w)

unfoldable pub emit_atomic : ℕ → ℕ → ℕ → Body → Body
emit_atomic a b o w =
    let dw = bit o 0 in
    if bit o 5
    then put (atomic_pair dw 10 a b (neg16 (if dw then 32 else 28)) (atomic_imm o)) w
    else let moff = if dw then 0 else 4 in
      put (atomic_pair dw 8 a b moff (atomic_imm o)) (add_fixed (if dw then 8 else 4) moff w)

-- The width that a sign-extending move reads; the 32-bit class has no 32.
unfoldable pub movsx_width : ℕ → ℕ
movsx_width o =
    let wi = if bit o 0 then o / 2 % 3 else o / 2 % 2 in
    if wi == 0 then 8 else if wi == 1 then 16 else 32

unfoldable pub emit_movsx : ℕ → ℕ → ℕ → Body → Body
emit_movsx a b o = put (
    record {
      code = if bit o 0 then 0xbf else 0xbc;
      dst_reg = a;
      src_reg = b;
      off = movsx_width o;
      imm = 0;
    }
    ∷ [])

-- What the branch of a diamond skips.
unfoldable pub diamond_side : ℕ → ℕ → ℕ → ℕ → List Insn
diamond_side a b k o =
    alu64_imm (if bit o 1 then bpf_or else bpf_and) b k
    ∷ (if bit o 2 then alu64_reg bpf_add a b ∷ [] else [])

unfoldable pub emit_diamond : ℕ → ℕ → ℕ → ℕ → Body → Body
emit_diamond a b k o =
    let side = diamond_side a b k o in
    let off = displacement 0 (1 + length side) in
    put ((if bit o 0 then jmp_imm jgt a k off else jmp32_imm jgt a k off) ∷ side)

-- `head` is index 1 of the list and `jback` index 3.
unfoldable pub loop_code : ℕ → ℕ → ℕ → List Insn
loop_code a k o =
    let ctr = if a == 9 then 7 else 9 in
    mov64_imm ctr (2 + o % 3)
    ∷ alu64_imm (if bit o 3 then bpf_add else bpf_xor) a k
    ∷ alu64_imm bpf_sub ctr 1
    ∷ jmp_imm jgt ctr 0 (displacement 3 1)
    ∷ []

unfoldable pub emit_loop : ℕ → ℕ → ℕ → Body → Body
emit_loop a k o w = if w.loops then w else put (loop_code a k o) (record w { loops = true })

unfoldable pub pair_head : ℕ → ℕ → ℕ → ℕ → List Insn
pair_head base other k o =
    mov64_reg other base
    ∷ (if bit o 0 then alu64_imm bpf_add other k else alu32_imm bpf_add other k)
    ∷ (if o / 2 % 4 == 0
        then []
        else if o / 2 % 4 == 1
        then alu64_reg bpf_add base base ∷ []
        else if o / 2 % 4 == 2
        then alu64_imm bpf_xor other k ∷ []
        else mov64_reg 9 base ∷ [])

unfoldable pub emit_pair : ℕ → ℕ → ℕ → ℕ → Body → Body
emit_pair base other k o w =
    put (jmp_imm jgt other (k + 8) 0 ∷ alu64_reg bpf_add 6 base ∷ [])
      (note_exit (put (pair_head base other k o) w))

-- enum gi_step, in its order.
pub data Step : Type 0 where
  link delta selfop clearop narrow relink spill w32 shift scmp : Step
  pair store stackvar atomic movsx diamond loop pin sdiv iter : Step

unfoldable pub step_of : ℕ → Step
step_of i =
    if i == 0
    then link
    else if i == 1
    then delta
    else if i == 2
    then selfop
    else if i == 3
    then clearop
    else if i == 4
    then narrow
    else if i == 5
    then relink
    else if i == 6
    then spill
    else if i == 7
    then w32
    else if i == 8
    then shift
    else if i == 9
    then scmp
    else if i == 10
    then pair
    else if i == 11
    then store
    else if i == 12
    then stackvar
    else if i == 13
    then atomic
    else if i == 14
    then movsx
    else if i == 15
    then diamond
    else if i == 16
    then loop
    else if i == 17
    then pin
    else if i == 18
    then sdiv
    else iter

-- The switch, for the registers A and B, the constant K and the options.
unfoldable pub emit_step : Option IterIds → Step → ℕ → ℕ → ℕ → ℕ → Body → Body
emit_step ids link a b k o = emit_link a b
emit_step ids delta a b k o = emit_delta b k o
emit_step ids selfop a b k o = emit_selfop a o
emit_step ids clearop a b k o = emit_clearop b k o
emit_step ids narrow a b k o = emit_narrow b k
emit_step ids relink a b k o = emit_relink a
emit_step ids spill a b k o = emit_spill a o
emit_step ids w32 a b k o = emit_w32 a k o
emit_step ids shift a b k o = emit_shift a o
emit_step ids scmp a b k o = emit_scmp a k o
emit_step ids pair a b k o = emit_pair a b k o
emit_step ids store a b k o = emit_store a k
emit_step ids stackvar a b k o = emit_stackvar a o
emit_step ids atomic a b k o = emit_atomic a b o
emit_step ids movsx a b k o = emit_movsx a b o
emit_step ids diamond a b k o = emit_diamond a b k o
emit_step ids loop a b k o = emit_loop a k o
emit_step ids pin a b k o = emit_pin a k o
emit_step ids sdiv a b k o = emit_sdiv a b o
emit_step ids iter a b k o = emit_iter ids a k o

unfoldable pub emit_gene : Option IterIds → Gene → Body → Body
emit_gene ids g =
    let a = reg_of g.a in
    emit_step ids (step_of (g.st % step_count)) a (other_reg a (reg_of g.b)) (1 + g.k % 15) g.opt

-- The loop over the genes, for the rounds that are left.
unfoldable pub emit_genes : Option IterIds → ℕ → List Gene → Body → Body
emit_genes ids zero gs w = w
emit_genes ids (suc n) [] w = w
emit_genes ids (suc n) (g ∷ gs) w = emit_genes ids n gs (emit_gene ids g w)

abbrev pub start_body : List Insn → ℕ → ℕ → Body
start_body ins emitted skipped = record {
  ins = ins;
  jexit = [];
  stack = 8;
  loops = false;
  iters = false;
  stores = [];
  iter_emitted = emitted;
  iter_skipped = skipped;
}

unfoldable pub emit_body : Option IterIds → Genome → Body → Body
unfolding emit_genes
emit_body ids g w = emit_genes ids max_genes g.genes w
