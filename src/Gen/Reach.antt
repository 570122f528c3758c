-- ===== src/Gen/Reach.antt =====
-- The instructions of a program that a run can reach, along the successors that bpflive.h computes.
use verifierloop.Base.{
  ℕ, zero, suc, ◌+◌, ◌≡◌, Bool, true, false, ◌&&◌, ◌||◌, and_split, List, [], ◌∷◌, ◌++◌, length,
  get_elem?, All, Option, none, some, ◌==◌, if◌then◌else◌,
}
use verifierloop.Base.{◌⊎◌, inl, inr, Bool-cases, arith, refl}
use mathlib.Core.Path.{subst}
use verifierloop.Insn.{Insn}
use verifierloop.Live.{succ}

-- The first instruction, and each successor of a reached one.
pub data IsReached (ins : List Insn) : ℕ → Type 0 where
  start : IsReached ins 0
  step :
      (i k s : ℕ) (x : Insn) (ss : List ℕ)
      → IsReached ins i
      → get_elem? ins i ≡ some x
      → succ x (length ins) i ≡ some ss
      → get_elem? ss k ≡ some s
      → IsReached ins s

-- All but the second slots of LD_IMM64, which are blank.
abbrev pub AllReached : List Insn → Type 0
AllReached ins = (i : ℕ) (x : Insn) → get_elem? ins i ≡ some x → (x.code ≡ 0) ⊎ IsReached ins i

abbrev contains : ℕ → List ℕ → Bool
contains i [] = false
contains i (t ∷ ts) = t == i || contains i ts

abbrev add_targets : Option (List ℕ) → List ℕ → List ℕ
add_targets none ts = ts
add_targets (some ss) ts = ss ++ ts

-- One pass from index `i` on; `ts` are the successors of the instructions before.
abbrev pub reaches : ℕ → ℕ → List ℕ → List Insn → Bool
reaches n i ts [] = true
reaches n i ts (x ∷ xs) =
    if x.code == 0
    then reaches n (suc i) ts xs
    else contains i ts && reaches n (suc i) (add_targets (succ x n i) ts) xs

All-contains : (P : ℕ → Type 0) (i : ℕ) (ts : List ℕ) → All P ts → contains i ts ≡ true → P i
All-contains P i (t ∷ ts) (p, h) e = elim (Bool-cases (t == i)) [
  | inl s ↦ let same : t ≡ i = ground arith in subst P same p
  | inr s ↦ All-contains P i ts h (ground arith)
]
All-contains P i [] h e = cc

All-append : (P : ℕ → Type 0) (ss ts : List ℕ) → All P ss → All P ts → All P (ss ++ ts)
All-append P [] ts h k = k
All-append P (s ∷ ss) ts (p, h) k = (p, All-append P ss ts h k)

All-get : (P : ℕ → Type 0) (ss : List ℕ) → ((k s : ℕ) → get_elem? ss k ≡ some s → P s) → All P ss
All-get P [] f = tt
All-get P (s ∷ ss) f = (f 0 s refl, All-get P ss (λ k. f (suc k)))

module _ (ins : List Insn) where
  targets-IsReached :
      (i : ℕ) (x : Insn) (o : Option (List ℕ)) (ts : List ℕ)
      → IsReached ins i
      → get_elem? ins i ≡ some x
      → succ x (length ins) i ≡ o
      → All (IsReached ins) ts
      → All (IsReached ins) (add_targets o ts)
  targets-IsReached i x none ts r at e h = h
  targets-IsReached i x (some ss) ts r at e h =
      All-append (IsReached ins) ss ts
        (All-get (IsReached ins) ss (λ k s g. step i k s x ss r at e g)) h

  -- The first of the instructions that are left, or one of the others.
  head_or_tail :
      (i j : ℕ) (x y : Insn) (xs : List Insn)
      → get_elem? (x ∷ xs) j ≡ some y
      → (x.code ≡ 0) ⊎ IsReached ins i
      → ((k : ℕ) → get_elem? xs k ≡ some y → (y.code ≡ 0) ⊎ IsReached ins (suc i + k))
      → (y.code ≡ 0) ⊎ IsReached ins (i + j)
  head_or_tail i zero x y xs at h later =
      let same : x ≡ y = cc in
      let index : i ≡ i + 0 = omega arith in
      subst (λ q. (y.code ≡ 0) ⊎ IsReached ins q) index
        (subst (λ q. (q.code ≡ 0) ⊎ IsReached ins i) same h)
  head_or_tail i (suc k) x y xs at h later =
      let index : suc i + k ≡ i + suc k = omega arith in
      subst (λ q. (y.code ≡ 0) ⊎ IsReached ins q) index (later k at)

  reaches-IsReached :
      (i : ℕ) (ts : List ℕ) (xs : List Insn)
      → ((j : ℕ) (y : Insn) → get_elem? xs j ≡ some y → get_elem? ins (i + j) ≡ some y)
      → All (IsReached ins) ts
      → reaches (length ins) i ts xs ≡ true
      → (j : ℕ) (y : Insn) → get_elem? xs j ≡ some y
      → (y.code ≡ 0) ⊎ IsReached ins (i + j)
  reaches-IsReached i ts [] in_ins h e j y at = cc
  reaches-IsReached i ts (x ∷ xs) in_ins h e j y at =
      let now : i + 0 ≡ i = omega arith in
      let later : (k : ℕ) → i + suc k ≡ suc i + k = λ k. omega arith in
      let tail : (k : ℕ) (z : Insn) → get_elem? xs k ≡ some z → get_elem? ins (suc i + k) ≡ some z =
        λ k z g. subst (λ q. get_elem? ins q ≡ some z) (later k) (in_ins (suc k) z g) in
      elim (Bool-cases (x.code == 0)) [
        | inl z ↦
            head_or_tail i j x y xs at (inl (ground arith))
              (λ k. reaches-IsReached (suc i) ts xs tail h (rw z at e) k y)
        | inr z ↦
            let (found, rest) = and_split (contains i ts) (rw z at e) in
            let r = All-contains (IsReached ins) i ts h found in
            let here : get_elem? ins i ≡ some x =
              subst (λ q. get_elem? ins q ≡ some x) now (in_ins 0 x refl) in
            head_or_tail i j x y xs at (inr r) (λ k.
              reaches-IsReached (suc i) (add_targets (succ x (length ins) i) ts) xs tail
                (targets-IsReached i x (succ x (length ins) i) ts r here refl h) rest k y)
      ]

pub reaches_all : (ins : List Insn) → reaches (length ins) 0 (0 ∷ []) ins ≡ true → AllReached ins
reaches_all ins e i x at =
    let index : (j : ℕ) → j ≡ 0 + j = λ j. omega arith in
    let back : 0 + i ≡ i = omega arith in
    subst (λ q. (x.code ≡ 0) ⊎ IsReached ins q) back
      (reaches-IsReached ins 0 (0 ∷ []) ins
        (λ j y g. subst (λ q. get_elem? ins q ≡ some y) (index j) g) (start, tt) e i x at)
