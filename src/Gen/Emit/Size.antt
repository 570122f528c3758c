-- ===== src/Gen/Emit/Size.antt =====
-- How much gi_emit_body writes: into the program, the array of exits and the table of store sites.
use verifierloop.Base.{
  ℕ, zero, suc, ◌+◌, ◌-◌, ◌*◌, ◌/◌, ◌%◌, ◌≤◌, ◌≡◌, Bool, true, false, ◌||◌, List, [], ◌∷◌, ◌++◌,
}
use verifierloop.Base.{
  length, Option, some, none, ◌==◌, ltb, if◌then◌else◌, arith, refl, Bool-cases, inl, inr,
}
use verifierloop.Insn.{Insn}
use verifierloop.Gen.Genome.{Gene, step_count}
use verifierloop.Gen.Insns.{alu64_reg, mov64_reg, jmp_imm, st_mem, bpf_add, jgt, size_b}
use verifierloop.Gen.Layout.{length-append}
use verifierloop.Gen.Body.{
  IterIds, StoreSite, Body, put, note_exit, next_slot, add_site, bit, max_stores,
}
use verifierloop.Gen.Emit.{Step, step_of, emit_step, emit_gene, emit_genes}
use verifierloop.Gen.Emit.{
  emit_link, emit_delta, emit_selfop, emit_clearop, emit_narrow, emit_relink, emit_spill, emit_w32,
}
use verifierloop.Gen.Emit.{
  emit_shift, emit_scmp, emit_sdiv, iter_body, iter_code, emit_iter, emit_constant, emit_pin,
}
use verifierloop.Gen.Emit.{
  emit_store, emit_stackvar, atomic_pair, add_fixed, emit_atomic, emit_movsx, diamond_side,
  emit_diamond,
}
use verifierloop.Gen.Emit.{loop_code, emit_loop, pair_head, emit_pair}
use verifierloop.Gen.Emit.Laid.{if_elim}

pub length-snoc {ℓ} : {A : Type ℓ} (xs : List A) (y : A) → length (xs ++ y ∷ []) ≡ length xs + 1
length-snoc [] y = refl
length-snoc (x ∷ xs) y = omega (arith, length-snoc xs y)

-- What an iterator still may take.
abbrev pub spare : Bool → ℕ
spare iters = if iters then 0 else 15

-- After `m` genes, on a program that started with `start` instructions.
pub record IsWithin (start m : ℕ) (w : Body) : Type 0 where
  pub room : length w.ins + spare w.iters ≤ start + 15 + 5 * m
  pub exits : length w.jexit ≤ m
  pub sites : length w.stores ≤ max_stores

add_site_fits :
    (s : StoreSite) (w : Body)
    → length w.stores ≤ max_stores
    → length (add_site s w).stores ≤ max_stores
add_site_fits s w h = elim (Bool-cases (ltb (length w.stores) max_stores)) [
  | inl e ↦ rw e (let n = length-snoc w.stores s in ground arith)
  | inr e ↦ rw e h
]

add_fixed_fits :
    (q at : ℕ) (w : Body)
    → length w.stores ≤ max_stores
    → length (add_fixed q at w).stores ≤ max_stores
unfolding add_fixed
add_fixed_fits zero at w h = h
add_fixed_fits (suc q) at w h =
    add_fixed_fits q (suc at) _
      (add_site_fits (record { insn = length w.ins; k = 0; fixed = some at }) w h)

-- The sites that an atomic adds, and nothing else.
add_fixed_rest :
    (q at : ℕ) (w : Body) → add_fixed q at w ≡ record w { stores = (add_fixed q at w).stores }
unfolding add_fixed
add_fixed_rest zero at w = refl
add_fixed_rest (suc q) at w =
    add_fixed_rest q (suc at) (add_site (record { insn = length w.ins; k = 0; fixed = some at }) w)

module _ (start m : ℕ) where
  -- Up to five instructions after a body that noted at most one exit.
  appended :
      (xs : List Insn) (u : Body)
      → length xs ≤ 5
      → length u.ins + spare u.iters ≤ start + 15 + 5 * m
      → length u.jexit ≤ suc m
      → length u.stores ≤ max_stores
      → IsWithin start (suc m) (put xs u)
  appended xs u few room exits sites = record {
    room = omega (arith, length-append u.ins xs);
    exits = exits;
    sites = sites;
  }

  module _ (a b k o : ℕ) (w : Body) (h : IsWithin start m w) where
    plain : (xs : List Insn) → length xs ≤ 5 → IsWithin start (suc m) (put xs w)
    plain xs few = appended xs w few h.room (omega (arith, h.exits)) h.sites

    -- After `next_slot`, which leaves the array alone.
    slotted : (xs : List Insn) → length xs ≤ 5 → IsWithin start (suc m) (put xs (next_slot w))
    slotted xs few = appended xs (next_slot w) few h.room (omega (arith, h.exits)) h.sites

    left : (xs : List Insn) → length xs ≤ 5 → IsWithin start (suc m) (put xs (note_exit w))
    left xs few =
        appended xs (note_exit w) few h.room
          (omega (arith, length-snoc w.jexit (length w.ins), h.exits)) h.sites

    same : IsWithin start (suc m) w
    same = record { room = omega (arith, h.room); exits = omega (arith, h.exits); sites = h.sites }

    iter-IsWithin : (ids : Option IterIds) → IsWithin start (suc m) (emit_iter ids a k o w)
    unfolding emit_iter iter_code iter_body
    iter-IsWithin none = record { room = same.room; exits = same.exits; sites = same.sites }
    iter-IsWithin (some ids) = elim (Bool-cases (w.iters || ltb 300 (length w.ins + 16))) [
      | inl e ↦ rw e (record { room = same.room; exits = same.exits; sites = same.sites })
      | inr e ↦
          let unused : w.iters ≡ false = ground (arith, e) in
          let code = iter_code ids o (iter_body a k o) in
          let n : length code ≤ 15 = elim (Bool-cases (bit o 0)) [
            | inl t ↦ rw t (omega arith)
            | inr t ↦ rw t (omega arith)
          ] in
          let before : length w.ins + 15 ≤ start + 15 + 5 * m = rw unused at h.room in
          rw e (record {
            room = omega (arith, length-append w.ins code);
            exits = same.exits;
            sites = h.sites;
          })
    ]

    spill-IsWithin : IsWithin start (suc m) (emit_spill a o w)
    unfolding emit_spill
    spill-IsWithin = slotted _ (omega arith)

    pin-IsWithin : IsWithin start (suc m) (emit_pin a k o w)
    unfolding emit_pin emit_constant
    pin-IsWithin = elim (Bool-cases (bit o 0)) [
      | inl e ↦ rw e (slotted _ (omega arith))
      | inr e ↦ rw e (left _ (omega arith))
    ]

    store-IsWithin : IsWithin start (suc m) (emit_store a k w)
    unfolding emit_store
    store-IsWithin =
        let before = length-append w.ins (mov64_reg 1 8 ∷ alu64_reg bpf_add 1 a ∷ []) in
        let u = put (mov64_reg 1 8 ∷ alu64_reg bpf_add 1 a ∷ []) w in
        let s : StoreSite = record { insn = length u.ins - 1; k = k % 8; fixed = none } in
        record {
          room = omega (
            arith,
            h.room,
            before,
            length-append (w.ins ++ mov64_reg 1 8 ∷ alu64_reg bpf_add 1 a ∷ [])
                (st_mem size_b 1 (k % 8) 0xffffffff ∷ []),
          );
          exits = same.exits;
          sites = add_site_fits s u h.sites;
        }

    atomic-IsWithin : IsWithin start (suc m) (emit_atomic a b o w)
    unfolding emit_atomic atomic_pair
    atomic-IsWithin = elim (Bool-cases (bit o 5)) [
      | inl e ↦ rw e (plain _ (omega arith))
      | inr e ↦ rw e (fixed (if bit o 0 then 8 else 4) (if bit o 0 then 0 else 4) _ (omega arith))
    ]
      where
        fixed :
            (q at : ℕ) (xs : List Insn)
            → length xs ≤ 5
            → IsWithin start (suc m) (put xs (add_fixed q at w))
        fixed q at xs few = rw (add_fixed_rest q at w) (
            appended xs (record w { stores = (add_fixed q at w).stores }) few h.room
              (omega (arith, h.exits)) (add_fixed_fits q at w h.sites))

    diamond-IsWithin : IsWithin start (suc m) (emit_diamond a b k o w)
    unfolding emit_diamond diamond_side
    diamond-IsWithin = elim (Bool-cases (bit o 2)) [
      | inl e ↦ rw e (plain _ (omega arith))
      | inr e ↦ rw e (plain _ (omega arith))
    ]

    loop-IsWithin : IsWithin start (suc m) (emit_loop a k o w)
    unfolding emit_loop loop_code
    loop-IsWithin = elim (Bool-cases w.loops) [
      | inl e ↦ rw e (record { room = same.room; exits = same.exits; sites = same.sites })
      | inr e ↦ rw e (
          appended _ (record w { loops = true }) (omega arith) h.room (omega (arith, h.exits))
            h.sites)
    ]

    pair_head_short : length (pair_head a b k o) ≤ 3
    unfolding pair_head
    pair_head_short =
        if_elim (λ (t : List Insn). suc (suc (length t)) ≤ 3) (o / 2 % 4 == 0) (omega arith)
          (if_elim (λ (t : List Insn). suc (suc (length t)) ≤ 3) (o / 2 % 4 == 1) (omega arith)
            (if_elim (λ (t : List Insn). suc (suc (length t)) ≤ 3) (o / 2 % 4 == 2) (omega arith)
              (omega arith)))

    pair-IsWithin : IsWithin start (suc m) (emit_pair a b k o w)
    unfolding emit_pair
    pair-IsWithin =
        let head = pair_head a b k o in
        let tail = jmp_imm jgt b (k + 8) 0 ∷ alu64_reg bpf_add 6 a ∷ [] in
        record {
          room = omega (
            arith,
            h.room,
            pair_head_short,
            length-append w.ins head,
            length-append (w.ins ++ head) tail,
          );
          exits = omega (arith, h.exits, length-snoc w.jexit (length (w.ins ++ head)));
          sites = h.sites;
        }

  emit_step-IsWithin :
      (ids : Option IterIds) (s : Step) (a b k o : ℕ) (w : Body)
      → IsWithin start m w
      → IsWithin start (suc m) (emit_step ids s a b k o w)
  unfolding emit_step emit_link emit_delta emit_selfop emit_clearop emit_narrow emit_relink emit_w32
      emit_shift emit_scmp emit_stackvar emit_movsx emit_sdiv
  emit_step-IsWithin ids Step.link a b k o w h = plain a b k o w h _ (omega arith)
  emit_step-IsWithin ids Step.delta a b k o w h = plain a b k o w h _ (omega arith)
  emit_step-IsWithin ids Step.selfop a b k o w h = plain a b k o w h _ (omega arith)
  emit_step-IsWithin ids Step.clearop a b k o w h = plain a b k o w h _ (omega arith)
  emit_step-IsWithin ids Step.narrow a b k o w h = left a b k o w h _ (omega arith)
  emit_step-IsWithin ids Step.relink a b k o w h = plain a b k o w h _ (omega arith)
  emit_step-IsWithin ids Step.spill a b k o w h = spill-IsWithin a b k o w h
  emit_step-IsWithin ids Step.w32 a b k o w h = plain a b k o w h _ (omega arith)
  emit_step-IsWithin ids Step.shift a b k o w h = plain a b k o w h _ (omega arith)
  emit_step-IsWithin ids Step.scmp a b k o w h = left a b k o w h _ (omega arith)
  emit_step-IsWithin ids Step.pair a b k o w h = pair-IsWithin a b k o w h
  emit_step-IsWithin ids Step.store a b k o w h = store-IsWithin a b k o w h
  emit_step-IsWithin ids Step.stackvar a b k o w h = plain a b k o w h _ (omega arith)
  emit_step-IsWithin ids Step.atomic a b k o w h = atomic-IsWithin a b k o w h
  emit_step-IsWithin ids Step.movsx a b k o w h = plain a b k o w h _ (omega arith)
  emit_step-IsWithin ids Step.diamond a b k o w h = diamond-IsWithin a b k o w h
  emit_step-IsWithin ids Step.loop a b k o w h = loop-IsWithin a b k o w h
  emit_step-IsWithin ids Step.pin a b k o w h = pin-IsWithin a b k o w h
  emit_step-IsWithin ids Step.sdiv a b k o w h = plain a b k o w h _ (omega arith)
  emit_step-IsWithin ids Step.iter a b k o w h = iter-IsWithin a b k o w h ids

  pub emit_gene-IsWithin :
      (ids : Option IterIds) (g : Gene) (w : Body)
      → IsWithin start m w
      → IsWithin start (suc m) (emit_gene ids g w)
  unfolding emit_gene
  emit_gene-IsWithin ids g w h = emit_step-IsWithin ids (step_of (g.st % step_count)) _ _ _ _ w h

IsWithin-mono : (start m n : ℕ) (w : Body) → m ≤ n → IsWithin start m w → IsWithin start n w
IsWithin-mono start m n w le h = record {
  room = omega (arith, h.room);
  exits = omega (arith, h.exits);
  sites = h.sites;
}

pub emit_genes-IsWithin :
    (ids : Option IterIds) (start m n : ℕ) (gs : List Gene) (w : Body)
    → IsWithin start m w
    → IsWithin start (m + n) (emit_genes ids n gs w)
unfolding emit_genes
emit_genes-IsWithin ids start m zero gs w h = IsWithin-mono start m (m + 0) w (omega arith) h
emit_genes-IsWithin ids start m (suc n) [] w h = IsWithin-mono start m (m + suc n) w (omega arith) h
emit_genes-IsWithin ids start m (suc n) (g ∷ gs) w h =
    let sum : suc m + n ≡ m + suc n = omega arith in
    rw sum at (
      emit_genes-IsWithin ids start (suc m) n gs (emit_gene ids g w)
        (emit_gene-IsWithin start m ids g w h))
