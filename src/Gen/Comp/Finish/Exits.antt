-- ===== src/Gen/Comp/Finish/Exits.antt =====
-- The jumps to the common exit and the call, once they are patched.
use verifierloop.Base.{
  ℕ, zero, suc, ◌≡◌, ◌≢◌, ◌⊎◌, inl, inr, true, false, List, [], ◌∷◌, get_elem?, All, some, ◌==◌,
}
use verifierloop.Base.{arith, refl, sym, ◌∙◌, Bool-cases}
use mathlib.Core.Bool.{false≢true}
use verifierloop.Insn.{Insn, Class, ld, ldx, st, stx, alu, jmp, jmp32, alu64, class_of}
use verifierloop.Gen.Insns.{displacement, with_off}
use verifierloop.Gen.Layout.{adjust}
use verifierloop.Gen.Layout.Kinds.{is_branch, branch_class}
use verifierloop.Gen.Program.{patch, patch_all}
use verifierloop.Gen.Comp.Walk.Frame.{IsJump}

pub get_elem?-adjust :
    (xs : List Insn) (j : ℕ) (f : Insn → Insn) (x : Insn)
    → get_elem? xs j ≡ some x
    → get_elem? (adjust j f xs) j ≡ some (f x)
get_elem?-adjust [] j f x h = absurd (grind (arith, h))
get_elem?-adjust (y ∷ xs) zero f x h = let e : y ≡ x = grind (arith, h) in rw e refl
get_elem?-adjust (y ∷ xs) (suc j) f x h = get_elem?-adjust xs j f x h

pub get_elem?-adjust_ne :
    (xs : List Insn) (i j : ℕ) (f : Insn → Insn)
    → j ≢ i
    → get_elem? (adjust j f xs) i ≡ get_elem? xs i
get_elem?-adjust_ne [] i j f h = refl
get_elem?-adjust_ne (y ∷ xs) zero zero f h = absurd (h refl)
get_elem?-adjust_ne (y ∷ xs) (suc i) zero f h = refl
get_elem?-adjust_ne (y ∷ xs) zero (suc j) f h = refl
get_elem?-adjust_ne (y ∷ xs) (suc i) (suc j) f h = get_elem?-adjust_ne xs i j f (λ e. h (rw e refl))

-- The instruction at `j` is a conditional jump to `to`.
abbrev pub Lands : ℕ → List Insn → ℕ → Type 0
Lands to ins j =
    (x : Insn) × (get_elem? ins j ≡ some x) × (is_branch x ≡ true) × (x.off ≡ displacement j to)

branch_class-with_off :
    (c : Class) (x : Insn) (off : ℕ) → branch_class c (with_off x off) ≡ branch_class c x
branch_class-with_off ld x off = refl
branch_class-with_off ldx x off = refl
branch_class-with_off st x off = refl
branch_class-with_off stx x off = refl
branch_class-with_off alu x off = refl
branch_class-with_off jmp x off = refl
branch_class-with_off jmp32 x off = refl
branch_class-with_off alu64 x off = refl

is_branch-with_off : (x : Insn) (off : ℕ) → is_branch x ≡ true → is_branch (with_off x off) ≡ true
is_branch-with_off x off h = branch_class-with_off (class_of x.code) x off ∙ h

pub eq_or_ne : (i j : ℕ) → (i ≡ j) ⊎ (i ≢ j)
eq_or_ne i j = elim (Bool-cases (i == j)) [
  | inl e ↦ inl (ground (arith, e))
  | inr e ↦ inr (λ same. ground (arith, e, same))
]

-- A conditional jump stands elsewhere than another instruction.
jump_apart :
    (ins : List Insn) (i j : ℕ) (x y : Insn)
    → get_elem? ins j ≡ some x
    → is_branch x ≡ true
    → get_elem? ins i ≡ some y
    → is_branch y ≡ false
    → j ≢ i
jump_apart ins i j x y at b e no_jump same =
    let both : some x ≡ some y = sym at ∙ (rw same e) in
    let eq : x ≡ y = grind (arith, both) in false≢true (sym no_jump ∙ (rw eq at b))

patch-IsJump : (ins : List Insn) (i j to : ℕ) → IsJump ins i → IsJump (patch j to ins) i
unfolding patch
patch-IsJump ins i j to (x, e, b) = elim (eq_or_ne j i) [
  | inl same ↦ (
    with_off x (displacement i to),
    rw same (get_elem?-adjust ins i (λ y. with_off y (displacement i to)) x e),
    is_branch-with_off x (displacement i to) b,
  )
  | inr apart ↦ (x, get_elem?-adjust_ne ins i j (λ y. with_off y (displacement j to)) apart ∙ e, b)
]

patch-Lands : (ins : List Insn) (i j to : ℕ) → Lands to ins i → Lands to (patch j to ins) i
unfolding patch
patch-Lands ins i j to (x, e, b, off) = elim (eq_or_ne j i) [
  | inl same ↦ (
    with_off x (displacement i to),
    rw same (get_elem?-adjust ins i (λ y. with_off y (displacement i to)) x e),
    is_branch-with_off x (displacement i to) b,
    refl,
  )
  | inr apart ↦
      (x, get_elem?-adjust_ne ins i j (λ y. with_off y (displacement j to)) apart ∙ e, b, off)
]

patch_all-Lands_at :
    (js : List ℕ) (ins : List Insn) (i to : ℕ) → Lands to ins i → Lands to (patch_all js to ins) i
unfolding patch_all
patch_all-Lands_at [] ins i to h = h
patch_all-Lands_at (j ∷ js) ins i to h =
    patch_all-Lands_at js (patch j to ins) i to (patch-Lands ins i j to h)

All-IsJump :
    (js : List ℕ) (ins : List Insn) (j to : ℕ)
    → All (IsJump ins) js
    → All (IsJump (patch j to ins)) js
All-IsJump [] ins j to h = tt
All-IsJump (i ∷ js) ins j to (x, h) = (patch-IsJump ins i j to x, All-IsJump js ins j to h)

landed : (ins : List Insn) (j to : ℕ) → IsJump ins j → Lands to (patch j to ins) j
unfolding patch
landed ins j to (x, e, b) = (
  with_off x (displacement j to),
  get_elem?-adjust ins j _ x e,
  is_branch-with_off x (displacement j to) b,
  refl,
)

pub patch_all-Lands :
    (js : List ℕ) (ins : List Insn) (to : ℕ)
    → All (IsJump ins) js
    → All (Lands to (patch_all js to ins)) js
unfolding patch_all
patch_all-Lands [] ins to h = tt
patch_all-Lands (j ∷ js) ins to (x, h) = (
  patch_all-Lands_at js (patch j to ins) j to (landed ins j to x),
  patch_all-Lands js (patch j to ins) to (All-IsJump js ins j to h),
)

-- What is no conditional jump stays as it is.
pub patch_all_kept :
    (js : List ℕ) (ins : List Insn) (i to : ℕ) (y : Insn)
    → is_branch y ≡ false
    → All (IsJump ins) js
    → get_elem? ins i ≡ some y
    → get_elem? (patch_all js to ins) i ≡ some y
unfolding patch_all patch
patch_all_kept [] ins i to y no_jump h e = e
patch_all_kept (j ∷ js) ins i to y no_jump ((x, at, b), h) e =
    patch_all_kept js (patch j to ins) i to y no_jump (All-IsJump js ins j to h)
      (get_elem?-adjust_ne ins i j _ (jump_apart ins i j x y at b e no_jump) ∙ e)
