-- ===== src/Gen/Program/Accepted.antt =====
-- Every program of the generator is laid out well, so the analysis accepts it.
use verifierloop.Base.{
  ℕ, suc, ◌+◌, ◌≤◌, ◌<◌, ◌≡◌, ◌^◌, true, false, List, [], ◌∷◌, ◌++◌, length, All,
}
use verifierloop.Base.{Option, ◌==◌, arith, refl, ◌∙◌, inl, inr, Bool-cases, get_elem?_inside}
use verifierloop.Insn.{Insn, class_of}
use verifierloop.Live
use verifierloop.Live.{Kfunc, analysed, helper_argc}
use verifierloop.Gate.{encoded}
use verifierloop.Gen.Coding.{coded}
use verifierloop.Gen.Insns.{alu64_imm, mov64_imm, mov64_reg, exit_insn, bpf_rsh}
use verifierloop.Gen.Genome.{Genome, max_genes}
use verifierloop.Gen.Layout.{AllAt, AllAt-append, AllAt-map, At, At-mono, length-append}
use verifierloop.Gen.Layout.Kinds.{plain-Good, exit_insn-Good}
use verifierloop.Gen.Layout.Accepted.{accepted}
use verifierloop.Gen.Body.{IterIds, Body, max_stores}
use verifierloop.Gen.Emit.{start_body, emit_body}
use verifierloop.Gen.Emit.Laid.{
  IterKnown, Fine, IsHead, IsExit, IsLaid, put-IsLaid, get_elem?_left, All-map,
}
use verifierloop.Gen.Emit.Genes.{emit_genes-IsLaid}
use verifierloop.Gen.Emit.Size.{IsWithin, emit_genes-IsWithin}
use verifierloop.Gen.Program.{
  prologue, null_sentinel, jnull, jnull2, tail_of, patch, patch_all, finish, body_of, program,
}
use verifierloop.Gen.Program.Sealed.{
  IsOpen, patch-IsOpen, patch-AllAt, patch_all-IsOpen, patch_all-AllAt, length-patch,
  length-patch_all,
}
use verifierloop.Gen.Program.Prologue.{slot, free, heads, slot-IsSlots, stands, prologue-IsLaid}
use verifierloop.Gen.Emit.Genes.Pieces.{◌⨾◌}

tail_short : (hi : ℕ) → length (tail_of hi) ≤ 3
unfolding tail_of
tail_short hi = elim (Bool-cases (hi == 0)) [
  | inl e ↦ rw e (omega arith)
  | inr e ↦ rw e (omega arith)
]

module _ (ks : List Kfunc) where
  ended :
      (last i : ℕ) → suc i ≤ last → Fine ks last i (mov64_reg 0 6) × Fine ks last (suc i) exit_insn
  unfolding class_of
  ended last i le =
      (plain-Good ks last i (mov64_reg 0 6) refl le, (exit_insn-Good ks last (suc i), refl))

  tail-IsLaid :
      (hi : ℕ) (ins : List Insn) (js : List ℕ)
      → IsLaid ks slot 17 free heads ins js
      → IsLaid ks slot 17 free heads (ins ++ tail_of hi) js
  unfolding tail_of class_of
  tail-IsLaid hi ins js v = elim (Bool-cases (hi == 0)) [
    | inl e ↦
        let (m, x) = ended (length ins + 2) (length ins) (omega arith) in
        rw e
          (put-IsLaid ks slot 17 free heads (mov64_reg 0 6 ∷ exit_insn ∷ []) ins js (m ⨾ x ⨾ tt) v)
    | inr e ↦
        let (m, x) = ended (length ins + 3) (suc (length ins)) (omega arith) in
        let shift =
          plain-Good ks (length ins + 3) (length ins) (alu64_imm bpf_rsh 6 32) refl (omega arith) in
        rw e (
          put-IsLaid ks slot 17 free heads (alu64_imm bpf_rsh 6 32 ∷ mov64_reg 0 6 ∷ exit_insn ∷ [])
            ins js (shift ⨾ m ⨾ x ⨾ tt) v)
  ]

  -- The sentinel after the rows of the program.
  abbrev sealed : List Insn → List Insn
  sealed rows = rows ++ mov64_imm 0 null_sentinel ∷ exit_insn ∷ []

  sealed-laid :
      (rows : List Insn) (js : List ℕ)
      → IsLaid ks slot 17 free heads rows js
      → AllAt (At slot ks (length rows + 1)) 0 (sealed rows)
  unfolding class_of
  sealed-laid rows js v =
      let n = length rows in
      let (good, no_ld) =
        plain-Good ks (n + 1) (0 + n) (mov64_imm 0 null_sentinel) refl (omega arith) in
      AllAt-append (At slot ks (n + 1)) 0 rows (mov64_imm 0 null_sentinel ∷ exit_insn ∷ [])
        (AllAt-map (At slot ks n) (At slot ks (n + 1)) 0 rows
          (λ j x. At-mono slot ks n (n + 1) j x (omega arith)) v.laid)
        (stands ks (n + 1) (0 + n) (mov64_imm 0 null_sentinel)
            (free (0 + n) (omega (arith, v.started)))
            (free (suc (0 + n)) (omega (arith, v.started))) good no_ld
          ⨾ stands ks (n + 1) (suc (0 + n)) exit_insn
              (free (suc (0 + n)) (omega (arith, v.started)))
              (free (suc (suc (0 + n))) (omega (arith, v.started)))
              (exit_insn-Good ks (n + 1) (suc (0 + n))) refl
          ⨾ tt)

  opened :
      (rows : List Insn) (j : ℕ)
      → slot j ≡ false
      → slot (suc j) ≡ false
      → IsHead ks slot 17 free heads rows j
      → IsOpen slot ks (length rows + 1) (sealed rows) j
  opened rows j s t (x, e, b) = record {
    here = s;
    next = t;
    inside = let lt = get_elem?_inside rows j x e in omega (arith, lt);
    branch = (x, get_elem?_left rows (mov64_imm 0 null_sentinel ∷ exit_insn ∷ []) j x e, b);
  }

  length-sealed : (rows : List Insn) → length (sealed rows) ≡ length rows + 2
  length-sealed rows = length-append rows (mov64_imm 0 null_sentinel ∷ exit_insn ∷ [])

  length-finish : (hi : ℕ) (w : Body) → length (finish hi w) ≡ length (w.ins ++ tail_of hi) + 2
  unfolding finish
  length-finish hi w =
      let rows = w.ins ++ tail_of hi in
      length-patch slot ks (length rows + 1) _ jnull2 (length rows)
      ∙ length-patch slot ks (length rows + 1) _ jnull (length rows)
      ∙ length-patch_all slot ks (length rows + 1) w.jexit (sealed rows) (length w.ins)
      ∙ length-sealed rows

  finish-laid :
      (hi : ℕ) (w : Body)
      → length w.ins + 8 < 2 ^ 15
      → IsLaid ks slot 17 free heads w.ins w.jexit
      → AllAt (At slot ks (length (w.ins ++ tail_of hi) + 1)) 0 (finish hi w)
  unfolding finish
  finish-laid hi w small v =
      let rows = w.ins ++ tail_of hi in
      let size = length-append w.ins (tail_of hi) in
      let r = tail-IsLaid hi w.ins w.jexit v in
      let last = length rows + 1 in
      let short : last < 2 ^ 15 = omega (arith, size, tail_short hi) in
      let (h, (h2, _)) = r.entries in
      let o = opened rows jnull refl refl h in
      let o2 = opened rows jnull2 refl refl h2 in
      let exits : All (IsOpen slot ks last (sealed rows)) w.jexit =
        All-map (IsExit ks slot 17 free heads rows) (IsOpen slot ks last (sealed rows)) w.jexit
          (λ j (lo, b). opened rows j (free j lo) (free (suc j) (omega arith)) b) r.exits in
      let tail = length w.ins in
      let all = patch_all w.jexit tail (sealed rows) in
      let p = patch_all-IsOpen slot ks last w.jexit (sealed rows) jnull tail o in
      let p2 = patch_all-IsOpen slot ks last w.jexit (sealed rows) jnull2 tail o2 in
      patch-AllAt slot ks last (patch jnull (length rows) all) jnull2 (length rows) (omega arith)
        short (patch-IsOpen slot ks last all jnull2 jnull (length rows) p2)
        (patch-AllAt slot ks last all jnull (length rows) (omega arith) short p (
          patch_all-AllAt slot ks last w.jexit (sealed rows) tail (omega (arith, size)) short exits
            (sealed-laid rows w.jexit r)))

module _ (ids : Option IterIds) (map_in map_out emitted skipped : ℕ) (g : Genome) where
  start-IsWithin : IsWithin 17 0 (start_body (prologue map_in map_out) emitted skipped)
  unfolding prologue
  start-IsWithin = record { room = omega arith; exits = omega arith; sites = omega arith }

  body-IsWithin : IsWithin 17 max_genes (body_of ids map_in map_out emitted skipped g)
  unfolding body_of emit_body
  body-IsWithin =
      emit_genes-IsWithin ids 17 0 max_genes g.genes
        (start_body (prologue map_in map_out) emitted skipped) start-IsWithin

  -- A program has at most 157 instructions, which the array `ins[320]` holds; at most 24 branches are
  -- noted for a patch, and `jexit` has 56 entries; at most 32 store sites are recorded.
  pub program_fits :
      (length (program ids map_in map_out emitted skipped g) ≤ 157)
      × (length (body_of ids map_in map_out emitted skipped g).jexit ≤ max_genes)
      × (length (body_of ids map_in map_out emitted skipped g).stores ≤ max_stores)
  unfolding program
  program_fits =
      let w = body_of ids map_in map_out emitted skipped g in
      let h = body-IsWithin in
      let size = length-append w.ins (tail_of g.hi) in
      let n = length-finish [] g.hi w in
      (omega (arith, h.room, size, n, tail_short g.hi), h.exits, h.sites)

  module _ (ks : List Kfunc) (known : IterKnown ks ids) where
    body-IsLaid :
        IsLaid ks slot 17 free heads
          (body_of ids map_in map_out emitted skipped g).ins
          (body_of ids map_in map_out emitted skipped g).jexit
    unfolding body_of emit_body
    body-IsLaid =
        emit_genes-IsLaid ks slot 17 free heads ids 17 0 max_genes g.genes
          (start_body (prologue map_in map_out) emitted skipped) known (omega arith) start-IsWithin
          (prologue-IsLaid ks map_in map_out)

    -- When the analysis knows the iterator's functions, it analyses every program of the generator to
    -- the end, without a refusal. The second slots of LD_IMM64 are blank, and each arithmetic
    -- instruction, load, store and atomic has an opcode, an offset (in arithmetic) and an immediate (in
    -- an atomic) that the instruction set has: offset 0 or 1 in DIV and MOD, 0 or the width in a
    -- MOV of a register, 0 in all other arithmetic; four or eight bytes and a known operation in an atomic, of
    -- which CMPXCHG fetches.
    pub program-IsAccepted :
        ((live : List ℕ) × (Live.run ks (program ids map_in map_out emitted skipped g)
            ≡ analysed live))
        × (encoded false (program ids map_in map_out emitted skipped g) ≡ true)
        × (coded false (program ids map_in map_out emitted skipped g) ≡ true)
    unfolding program
    program-IsAccepted =
        let w = body_of ids map_in map_out emitted skipped g in
        let rows = w.ins ++ tail_of g.hi in
        let size = length-append w.ins (tail_of g.hi) in
        let n = length-finish ks g.hi w in
        let short = tail_short g.hi in
        let room = body-IsWithin.room in
        accepted slot ks (length rows + 1) (finish g.hi w) slot-IsSlots
          (finish-laid ks g.hi w (omega (arith, room)) body-IsLaid) (omega (arith, n))
          (omega (arith, n, size, room, short))
