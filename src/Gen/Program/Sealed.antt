-- ===== src/Gen/Program/Sealed.antt =====
-- The branches of a program receive their offsets: it stays laid out well.
use verifierloop.Base.{
  ℕ, zero, suc, ◌+◌, ◌≤◌, ◌<◌, ◌≡◌, ◌^◌, Bool, false, List, [], ◌∷◌, length, get_elem?, All,
}
use verifierloop.Base.{some, arith, refl, sym, ◌∙◌, inl, inr, ◌⊎◌}
use verifierloop.Insn.{Insn}
use verifierloop.Live.{Kfunc}
use verifierloop.Gen.Insns.{displacement, with_off}
use verifierloop.Gen.Layout.{AllAt, AllAt-adjust, At, adjust, length-adjust}
use verifierloop.Gen.Layout.Kinds.{IsBranch, IsBranch-Good, target-displacement}
use verifierloop.Gen.Program.{patch, patch_all}

with_off-IsBranch :
    (ks : List Kfunc) (x : Insn) (off : ℕ) → IsBranch ks x → IsBranch ks (with_off x off)
with_off-IsBranch ks x off b = record {
  known = b.known;
  reach = b.reach;
  no_ld = b.no_ld;
  encoding = b.encoding;
  coding = b.coding;
}

adjust_cases :
    (xs : List Insn) (i j : ℕ) (f : Insn → Insn) (x : Insn)
    → get_elem? xs i ≡ some x
    → (get_elem? (adjust j f xs) i ≡ some x) ⊎ (get_elem? (adjust j f xs) i ≡ some (f x))
adjust_cases [] i j f x h = inl h
adjust_cases (y ∷ xs) zero zero f x h = inr (let e : y ≡ x = grind (arith, h) in rw e refl)
adjust_cases (y ∷ xs) (suc i) zero f x h = inl h
adjust_cases (y ∷ xs) zero (suc j) f x h = inl h
adjust_cases (y ∷ xs) (suc i) (suc j) f x h = adjust_cases xs i j f x h

module _ (slot : ℕ → Bool) (ks : List Kfunc) (last : ℕ) where
  -- A branch, and no slot beside it.
  pub record IsOpen (ins : List Insn) (j : ℕ) : Type 0 where
    pub here : slot j ≡ false
    pub next : slot (suc j) ≡ false
    pub inside : suc j ≤ last
    pub branch : (x : Insn) × (get_elem? ins j ≡ some x) × IsBranch ks x

  pub patch-IsOpen : (ins : List Insn) (i j to : ℕ) → IsOpen ins i → IsOpen (patch j to ins) i
  unfolding patch
  patch-IsOpen ins i j to h =
      let (x, e, b) = h.branch in
      record {
        here = h.here;
        next = h.next;
        inside = h.inside;
        branch = elim (adjust_cases ins i j (λ y. with_off y (displacement j to)) x e) [
          | inl k ↦ (x, k, b)
          | inr k ↦
              (with_off x (displacement j to), k, with_off-IsBranch ks x (displacement j to) b)
        ];
      }

  pub patch-AllAt :
      (ins : List Insn) (j to : ℕ)
      → to ≤ last
      → last < 2 ^ 15
      → IsOpen ins j
      → AllAt (At slot ks last) 0 ins
      → AllAt (At slot ks last) 0 (patch j to ins)
  unfolding patch
  patch-AllAt ins j to le small h laid =
      let (x, e, b) = h.branch in
      let off = displacement j to in
      AllAt-adjust (At slot ks last) 0 j (λ y. with_off y off) ins laid
        (λ y k.
          let same : x ≡ y = grind (arith, e, k) in
          let by : IsBranch ks y = rw same at b in
          let index : 0 + j ≡ j = omega arith in
          rw index (record {
            blank = λ s. cc (s, h.here);
            good = λ s.
                IsBranch-Good ks last j off to y by
                  (target-displacement j to (omega arith) (omega (arith, h.inside))) le h.inside;
            next = λ s. by.no_ld ∙ sym h.next;
          }))

  pub length-patch : (ins : List Insn) (j to : ℕ) → length (patch j to ins) ≡ length ins
  unfolding patch
  length-patch ins j to = length-adjust j (λ y. with_off y (displacement j to)) ins

  pub patch_all-IsOpen :
      (js : List ℕ) (ins : List Insn) (i to : ℕ) → IsOpen ins i → IsOpen (patch_all js to ins) i
  unfolding patch_all
  patch_all-IsOpen [] ins i to h = h
  patch_all-IsOpen (j ∷ js) ins i to h =
      patch_all-IsOpen js (patch j to ins) i to (patch-IsOpen ins i j to h)

  All-patch :
      (js : List ℕ) (ins : List Insn) (j to : ℕ)
      → All (IsOpen ins) js
      → All (IsOpen (patch j to ins)) js
  All-patch [] ins j to h = tt
  All-patch (i ∷ js) ins j to (p, h) = (patch-IsOpen ins i j to p, All-patch js ins j to h)

  pub patch_all-AllAt :
      (js : List ℕ) (ins : List Insn) (to : ℕ)
      → to ≤ last
      → last < 2 ^ 15
      → All (IsOpen ins) js
      → AllAt (At slot ks last) 0 ins
      → AllAt (At slot ks last) 0 (patch_all js to ins)
  unfolding patch_all
  patch_all-AllAt [] ins to le small h laid = laid
  patch_all-AllAt (j ∷ js) ins to le small (p, h) laid =
      patch_all-AllAt js (patch j to ins) to le small (All-patch js ins j to h)
        (patch-AllAt ins j to le small p laid)

  pub length-patch_all :
      (js : List ℕ) (ins : List Insn) (to : ℕ) → length (patch_all js to ins) ≡ length ins
  unfolding patch_all
  length-patch_all [] ins to = refl
  length-patch_all (j ∷ js) ins to = length-patch_all js (patch j to ins) to ∙ length-patch ins j to
