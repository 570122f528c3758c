-- ===== src/Gen/Layout/Kinds.antt =====
-- The kinds of instructions that generated programs consist of, by their opcodes.
use verifierloop.Base.{
  ℕ, suc, ◌+◌, ◌^◌, ◌≤◌, ◌<◌, ◌≡◌, Bool, true, false, ◌&&◌, ◌||◌, not, some, and_split,
}
use verifierloop.Base.{
  List, [], ◌∷◌, ◌==◌, ltb, leb, if◌then◌else◌, arith, refl, pos, bit_or, Bool-cases, inl, inr, ◌∙◌,
}
use verifierloop.Insn.{
  Insn, Class, ld, ldx, st, stx, alu, jmp, jmp32, alu64, class_of, op_of, mode_of, is_x, ld_imm64,
  target,
}
use verifierloop.Live.{
  Kfunc, Masks, usedef, atomic_masks, usedef_class, fall_through, next_of, bl_bit, usedef_jmp,
  usedef_call, kfunc_argc, helper_argc, call_masks,
}
use verifierloop.Live.{succ, succ_class, succ_jmp, in_program}
use verifierloop.Gate.{atomic_ok}
use verifierloop.Gen.Coding.{is_coded}
use verifierloop.Gen.Insns.{
  with_off, displacement, jmp_a, kfunc_call, emit_call, exit_insn, ld_map_fd,
}
use verifierloop.Gen.Layout.{Good}

-- Neither a jump nor a LD: falls through. It is encoded as the instruction set says.
abbrev pub plain_class : Class → Insn → Bool
plain_class alu x = is_coded alu x
plain_class alu64 x = is_coded alu64 x
plain_class ldx x = is_coded ldx x
plain_class st x = is_coded st x
plain_class stx x = atomic_ok stx x && is_coded stx x
plain_class _ x = false

abbrev pub is_plain : Insn → Bool
is_plain x = plain_class (class_of x.code) x

-- A conditional jump.
abbrev pub branch_class : Class → Insn → Bool
branch_class jmp x = not (op_of x.code == 0x90 || op_of x.code == 0x80 || op_of x.code == 0x00)
branch_class jmp32 x = not (op_of x.code == 0x90 || op_of x.code == 0x80 || op_of x.code == 0x00)
branch_class _ x = false

abbrev pub is_branch : Insn → Bool
is_branch x = branch_class (class_of x.code) x

class_of-ld_imm64 : (c : ℕ) → (c == ld_imm64) ≡ true → class_of c ≡ ld
unfolding class_of
class_of-ld_imm64 c e = let same : c ≡ ld_imm64 = ground arith in rw same refl

not_ld_imm64 : (c : ℕ) → (class_of c ≡ ld → ⊥) → (c == ld_imm64) ≡ false
not_ld_imm64 c h = elim (Bool-cases (c == ld_imm64)) [
  | inl e ↦ absurd (h (class_of-ld_imm64 c e))
  | inr e ↦ e
]

usedef_of :
    (ks : List Kfunc) (x : Insn) (c : Class)
    → class_of x.code ≡ c
    → usedef ks x ≡ usedef_class ks c x (bl_bit x.dst_reg) (bl_bit x.src_reg)
unfolding usedef
usedef_of ks x c e = rw e refl

succ_of : (x : Insn) (n i : ℕ) (c : Class) → class_of x.code ≡ c → succ x n i ≡ succ_class c x n i
unfolding succ
succ_of x n i c e = rw e refl

pub falls :
    (x : Insn) (n i last : ℕ)
    → (x.code == ld_imm64) ≡ false
    → succ x n i ≡ fall_through n (next_of x i)
    → suc i ≤ last
    → last < n
    → (ss : List ℕ) × (succ x n i ≡ some ss)
falls x n i last e h le lt =
    let inside : leb n (i + 1) ≡ false = ground arith in ((i + 1) ∷ [], h ∙ rw (e, inside) refl)

stx_known :
    (ks : List Kfunc) (x : Insn)
    → (m : Masks) × (usedef_class ks stx x (bl_bit x.dst_reg) (bl_bit x.src_reg) ≡ some m)
unfolding usedef_class
stx_known ks x = elim (Bool-cases (mode_of x.code == 0xc0)) [
  | inl e ↦ (atomic_masks x.imm (bl_bit x.dst_reg) (bl_bit x.src_reg), rw e refl)
  | inr e ↦ (record { uses = bit_or (bl_bit x.dst_reg) (bl_bit x.src_reg); defs = 0 }, rw e refl)
]

pub plain-Good :
    (ks : List Kfunc) (last i : ℕ) (x : Insn)
    → is_plain x ≡ true
    → suc i ≤ last
    → Good ks last i x × ((x.code == ld_imm64) ≡ false)
unfolding usedef_class succ_class
plain-Good ks last i x h le = go (class_of x.code) refl h
  where
    fine :
        (c : Class)
        → class_of x.code ≡ c
        → (x.code == ld_imm64) ≡ false
        → ((n : ℕ) → succ_class c x n i ≡ fall_through n (next_of x i))
        → (m : Masks) × (usedef_class ks c x (bl_bit x.dst_reg) (bl_bit x.src_reg) ≡ some m)
        → atomic_ok c x ≡ true
        → is_coded c x ≡ true
        → Good ks last i x × ((x.code == ld_imm64) ≡ false)
    fine c e no_ld s (m, u) a b = (
      record {
        known = (m, usedef_of ks x c e ∙ u);
        flow = λ n lt. falls x n i last no_ld (succ_of x n i c e ∙ s n) le lt;
        encoding = rw e a;
        coding = rw e b;
      },
      no_ld,
    )

    go :
        (c : Class)
        → class_of x.code ≡ c
        → plain_class c x ≡ true
        → Good ks last i x × ((x.code == ld_imm64) ≡ false)
    go alu e q = fine alu e (not_ld_imm64 x.code (λ f. cc)) (λ n. refl) (_, refl) refl q
    go alu64 e q = fine alu64 e (not_ld_imm64 x.code (λ f. cc)) (λ n. refl) (_, refl) refl q
    go ldx e q = fine ldx e (not_ld_imm64 x.code (λ f. cc)) (λ n. refl) (_, refl) refl q
    go st e q = fine st e (not_ld_imm64 x.code (λ f. cc)) (λ n. refl) (_, refl) refl q
    go stx e q =
        fine stx e (not_ld_imm64 x.code (λ f. cc)) (λ n. refl) (stx_known ks x)
          (and_split (atomic_ok stx x) q).0 (and_split (atomic_ok stx x) q).1
    go ld e q = cc
    go jmp e q = cc
    go jmp32 e q = cc

-- A displacement that fits into 16 bits leads to its target.
pub target-displacement :
    (i t : ℕ) → t < 2 ^ 15 → i < 2 ^ 15 → target 16 i (displacement i t) ≡ pos t
unfolding target
target-displacement i t h k = ground arith

-- What holds of a conditional jump with every offset.
pub record IsBranch (ks : List Kfunc) (x : Insn) : Type 0 where
  pub known : (off : ℕ) → (m : Masks) × (usedef ks (with_off x off) ≡ some m)
  pub reach :
      (off n i t : ℕ)
      → target 16 i off ≡ pos t
      → t < n
      → suc i ≤ n
      → (ss : List ℕ) × (succ (with_off x off) n i ≡ some ss)
  pub no_ld : (x.code == ld_imm64) ≡ false
  pub encoding : (off : ℕ) → atomic_ok (class_of x.code) (with_off x off) ≡ true
  pub coding : (off : ℕ) → is_coded (class_of x.code) (with_off x off) ≡ true

-- The opcodes that usedef and succ single out among the jumps, for a conditional one.
record IsCond (op : ℕ) : Type 0 where
  no_exit : (op == 0x90) ≡ false
  no_call : (op == 0x80) ≡ false
  no_ja : (op == 0x00) ≡ false

cond_known :
    (ks : List Kfunc) (x : Insn) (d s : ℕ)
    → IsCond (op_of x.code)
    → (m : Masks) × (usedef_jmp ks x d s ≡ some m)
unfolding usedef_jmp
cond_known ks x d s c = elim (Bool-cases (op_of x.code == 0xe0)) [
  | inl e ↦ (record { uses = 0; defs = 0 }, rw (c.no_exit, c.no_ja, e) refl)
  | inr e ↦ (
    record { uses = bit_or d (if is_x x.code then s else 0); defs = 0 },
    rw (c.no_exit, c.no_ja, e, c.no_call) refl,
  )
]

cond_reach :
    (is32 : Bool) (x : Insn) (n i t : ℕ)
    → IsCond (op_of x.code)
    → (x.code == ld_imm64) ≡ false
    → target 16 i x.off ≡ pos t
    → t < n
    → suc i ≤ n
    → (ss : List ℕ) × (succ_jmp is32 x n i ≡ some ss)
unfolding succ_jmp in_program
cond_reach is32 x n i t c no_ld at lt le =
    let inside : ltb t n ≡ true = ground arith in
    let next : ltb n (i + 1) ≡ false = ground arith in
    (
      t ∷ (if ltb (i + 1) n then (i + 1) ∷ [] else []),
      rw (c.no_exit, c.no_call, c.no_ja, at, inside, no_ld, next) refl,
    )

pub branch-IsBranch : (ks : List Kfunc) (x : Insn) → is_branch x ≡ true → IsBranch ks x
unfolding usedef_class succ_class
branch-IsBranch ks x h = go (class_of x.code) refl h
  where
    cond :
        not (op_of x.code == 0x90 || op_of x.code == 0x80 || op_of x.code == 0x00) ≡ true
        → IsCond (op_of x.code)
    cond q = record { no_exit = ground arith; no_call = ground arith; no_ja = ground arith }

    go : (c : Class) → class_of x.code ≡ c → branch_class c x ≡ true → IsBranch ks x
    go jmp e q =
        let no_ld = not_ld_imm64 x.code (λ f. cc) in
        record {
          known = λ off.
              let (m, k) =
                cond_known ks (with_off x off) (bl_bit x.dst_reg) (bl_bit x.src_reg) (cond q) in
              (m, usedef_of ks (with_off x off) jmp e ∙ k);
          reach = λ off n i t at lt le.
              let (ss, k) = cond_reach false (with_off x off) n i t (cond q) no_ld at lt le in
              (ss, succ_of (with_off x off) n i jmp e ∙ k);
          no_ld = no_ld;
          encoding = λ off. rw e refl;
          coding = λ off. rw e refl;
        }
    go jmp32 e q =
        let no_ld = not_ld_imm64 x.code (λ f. cc) in
        record {
          known = λ off.
              let (m, k) =
                cond_known ks (with_off x off) (bl_bit x.dst_reg) (bl_bit x.src_reg) (cond q) in
              (m, usedef_of ks (with_off x off) jmp32 e ∙ k);
          reach = λ off n i t at lt le.
              let (ss, k) = cond_reach true (with_off x off) n i t (cond q) no_ld at lt le in
              (ss, succ_of (with_off x off) n i jmp32 e ∙ k);
          no_ld = no_ld;
          encoding = λ off. rw e refl;
          coding = λ off. rw e refl;
        }
    go alu e q = cc
    go alu64 e q = cc
    go ldx e q = cc
    go st e q = cc
    go stx e q = cc
    go ld e q = cc

-- A branch whose target is in reach stands well.
pub IsBranch-Good :
    (ks : List Kfunc) (last i off t : ℕ) (x : Insn)
    → IsBranch ks x
    → target 16 i off ≡ pos t
    → t ≤ last
    → suc i ≤ last
    → Good ks last i (with_off x off)
IsBranch-Good ks last i off t x b at lt le = record {
  known = b.known off;
  flow = λ n more. b.reach off n i t at (omega arith) (omega arith);
  encoding = b.encoding off;
  coding = b.coding off;
}

-- A jump without condition, a call of a known function, and EXIT.
pub jmp_a-Good :
    (ks : List Kfunc) (last i off t : ℕ)
    → target 16 i off ≡ pos t
    → t ≤ last
    → Good ks last i (jmp_a off)
unfolding usedef usedef_class usedef_jmp succ succ_class succ_jmp class_of in_program
jmp_a-Good ks last i off t at le = record {
  known = (_, refl);
  flow = λ n lt. let inside : ltb t n ≡ true = ground arith in (t ∷ [], rw (at, inside) refl);
  encoding = refl;
  coding = refl;
}

pub kfunc_call-Good :
    (ks : List Kfunc) (last i id argc : ℕ)
    → kfunc_argc ks id ≡ some argc
    → suc i ≤ last
    → Good ks last i (kfunc_call id)
unfolding usedef usedef_class usedef_jmp usedef_call succ succ_class succ_jmp class_of
kfunc_call-Good ks last i id argc known le = record {
  known = (call_masks argc, rw known refl);
  flow = λ n lt. falls (kfunc_call id) n i last refl refl le lt;
  encoding = refl;
  coding = refl;
}

pub emit_call-Good :
    (ks : List Kfunc) (last i func argc : ℕ)
    → helper_argc func ≡ some argc
    → suc i ≤ last
    → Good ks last i (emit_call func)
unfolding usedef usedef_class usedef_jmp usedef_call succ succ_class succ_jmp class_of
emit_call-Good ks last i func argc known le = record {
  known = (call_masks argc, rw known refl);
  flow = λ n lt. falls (emit_call func) n i last refl refl le lt;
  encoding = refl;
  coding = refl;
}

pub exit_insn-Good : (ks : List Kfunc) (last i : ℕ) → Good ks last i exit_insn
unfolding usedef usedef_class usedef_jmp succ succ_class succ_jmp class_of
exit_insn-Good ks last i = record {
  known = (_, refl);
  flow = λ n lt. ([], refl);
  encoding = refl;
  coding = refl;
}

pub ld_map_fd-Good :
    (ks : List Kfunc) (last i dst fd : ℕ) → i + 2 ≤ last → Good ks last i (ld_map_fd dst fd)
unfolding usedef usedef_class succ succ_class class_of
ld_map_fd-Good ks last i dst fd le = record {
  known = (_, refl);
  flow =
      λ n lt. let inside : leb n (i + 2) ≡ false = ground arith in ((i + 2) ∷ [], rw inside refl);
  encoding = refl;
  coding = refl;
}
