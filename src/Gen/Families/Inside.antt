-- ===== src/Gen/Families/Inside.antt =====
-- The stores of --gen-spill through the registers that a shape links to r6.
use verifierloop.Base.{
  ℕ, ◌+◌, ◌≤◌, ◌<◌, ◌≡◌, ◌↔◌, Bool, true, false, List, if◌then◌else◌, arith, refl, sym, ap, ◌∙◌,
}
use verifierloop.Insn.{Insn, class_of}
use verifierloop.Ref.{Outcome, val, alu_result, alu_op, reg}
use verifierloop.Ref.Alu.{mov}
use verifierloop.Gen.Links.{alu_run, registers}
use verifierloop.Gen.Families.{SpillShape, spl_delta, spl_delta32, emit_spill_shape}

-- Where r6 is at most 7, as the check after the shape has it, a store at `off` past register `r` is in
-- the 64 bytes of the map value.
abbrev pub StaysIn : List Insn → ℕ → ℕ → Type 0
StaysIn ins r off =
    (r6 r7 r8 r9 : ℕ)
    → r6 ≤ 7
    → (rs : List ℕ) × (alu_run ins (registers r6 r7 r8 r9) ≡ val rs) × (reg rs r + off < 64)

abbrev pub delta_shape : Bool → SpillShape
delta_shape wide = if wide then spl_delta else spl_delta32

abbrev pub delta_reg : Bool → ℕ
delta_reg far = if far then 9 else 7

val-injective : (a b : List ℕ) → ◌≡◌ {A = Outcome (List ℕ)} (val a) (val b) → a ≡ b
val-injective a b e = grind (arith, e)

linked-StaysIn :
    (wide far : Bool) → StaysIn (emit_spill_shape (delta_shape wide) true) (delta_reg far) 44
unfolding emit_spill_shape alu_result alu_op class_of mov
linked-StaysIn true true r6 r7 r8 r9 h = (_, refl, omega (arith, h))
linked-StaysIn true false r6 r7 r8 r9 h = (_, refl, omega (arith, h))
linked-StaysIn false true r6 r7 r8 r9 h = (_, refl, omega (arith, h))
linked-StaysIn false false r6 r7 r8 r9 h = (_, refl, omega (arith, h))

-- Registers for which the store is outside.
escapes :
    (ins : List Insn) (r : ℕ) (rs : List ℕ)
    → alu_run ins (registers 0 60 0 60) ≡ val rs
    → 60 ≤ reg rs r
    → ¬ StaysIn ins r 44
escapes ins r rs e far h =
    let (ss, k, lt) = h 0 60 0 60 (omega arith) in
    let same : reg rs r ≡ reg ss r = ap (λ t. reg t r) (val-injective rs ss (sym e ∙ k)) in
    omega (arith, same, far, lt)

unlinked-escapes :
    (wide far : Bool) → ¬ StaysIn (emit_spill_shape (delta_shape wide) false) (delta_reg far) 44
unfolding emit_spill_shape alu_result alu_op class_of mov
unlinked-escapes true true =
    escapes (emit_spill_shape (delta_shape true) false) 9 (registers 0 64 0 72) refl (omega arith)
unlinked-escapes true false =
    escapes (emit_spill_shape (delta_shape true) false) 7 (registers 0 64 0 72) refl (omega arith)
unlinked-escapes false true =
    escapes (emit_spill_shape (delta_shape false) false) 9 (registers 0 64 0 72) refl (omega arith)
unlinked-escapes false false =
    escapes (emit_spill_shape (delta_shape false) false) 7 (registers 0 64 0 72) refl (omega arith)

-- Of the shapes with two deltas, in their 64-bit and their 32-bit form and for the near and the far
-- register: after the path, the store at 44 past that register stays in the map value for every r6
-- that is at most 7 and every r7, r8 and r9, just where the path forms the link.
pub emit_spill_shape-StaysIn :
    (wide linked far : Bool)
    → (linked ≡ true) ↔ StaysIn (emit_spill_shape (delta_shape wide) linked) (delta_reg far) 44
emit_spill_shape-StaysIn wide true far = (λ _. linked-StaysIn wide far, λ _. refl)
emit_spill_shape-StaysIn wide false far = (λ e. cc, λ h. absurd (unlinked-escapes wide far h))
