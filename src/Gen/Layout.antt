-- ===== src/Gen/Layout.antt =====
-- Programs laid out so that the analysis accepts them: each instruction is one that it knows, with
-- its successors inside the program.
pub mod Kinds
pub mod Accepted
use verifierloop.Base.{ℕ, zero, suc, ◌+◌, ◌≤◌, ◌<◌, ◌≡◌, Bool, true, false, List, [], ◌∷◌, ◌++◌}
use verifierloop.Base.{length, get_elem?, some, ◌==◌, arith, refl}
use verifierloop.Insn.{Insn, class_of, ld_imm64}
use verifierloop.Live.{Kfunc, Masks, usedef, succ}
use verifierloop.Gate.{atomic_ok}
use verifierloop.Gen.Coding.{is_coded}

-- A predicate at each index of a list, the first of which is `i`.
abbrev pub AllAt : (ℕ → Insn → Type 0) → ℕ → List Insn → Type 0
AllAt P i [] = Unit
AllAt P i (x ∷ xs) = P i x × AllAt P (suc i) xs

-- `ins[j] = f(ins[j])`.
abbrev pub adjust : ℕ → (Insn → Insn) → List Insn → List Insn
adjust j f [] = []
adjust zero f (x ∷ xs) = f x ∷ xs
adjust (suc j) f (x ∷ xs) = x ∷ adjust j f xs

pub length-adjust : (j : ℕ) (f : Insn → Insn) (xs : List Insn) → length (adjust j f xs) ≡ length xs
length-adjust j f [] = refl
length-adjust zero f (x ∷ xs) = refl
length-adjust (suc j) f (x ∷ xs) = omega (arith, length-adjust j f xs)

pub length-append : (xs ys : List Insn) → length (xs ++ ys) ≡ length xs + length ys
length-append [] ys = omega arith
length-append (x ∷ xs) ys = omega (arith, length-append xs ys)

plus_zero : (i : ℕ) → i + 0 ≡ i
plus_zero i = omega arith

plus_suc : (i n : ℕ) → i + suc n ≡ suc i + n
plus_suc i n = omega arith

module _ (P : ℕ → Insn → Type 0) where
  pub AllAt-append :
      (i : ℕ) (xs ys : List Insn) → AllAt P i xs → AllAt P (i + length xs) ys → AllAt P i (xs ++ ys)
  AllAt-append i [] ys h k = rw (plus_zero i) at k
  AllAt-append i (x ∷ xs) ys (p, h) k =
      (p, AllAt-append (suc i) xs ys h (rw (plus_suc i (length xs)) at k))

  pub AllAt-adjust :
      (i j : ℕ) (f : Insn → Insn) (xs : List Insn)
      → AllAt P i xs
      → ((x : Insn) → get_elem? xs j ≡ some x → P (i + j) (f x))
      → AllAt P i (adjust j f xs)
  AllAt-adjust i j f [] h k = tt
  AllAt-adjust i zero f (x ∷ xs) (p, h) k = (rw (plus_zero i) at (k x refl), h)
  AllAt-adjust i (suc j) f (x ∷ xs) (p, h) k =
      (p, AllAt-adjust (suc i) j f xs h (λ y e. rw (plus_suc i j) at (k y e)))

  pub AllAt-map :
      (Q : ℕ → Insn → Type 0) (i : ℕ) (xs : List Insn)
      → ((j : ℕ) (x : Insn) → P j x → Q j x)
      → AllAt P i xs
      → AllAt Q i xs
  AllAt-map Q i [] f h = tt
  AllAt-map Q i (x ∷ xs) f (p, h) = (f i x p, AllAt-map Q (suc i) xs f h)

-- At index `i` the analysis knows `x`, its successors are in every program of more than `last`
-- instructions, and it is encoded as the instruction set says.
pub record Good (ks : List Kfunc) (last i : ℕ) (x : Insn) : Type 0 where
  pub known : (m : Masks) × (usedef ks x ≡ some m)
  pub flow : (n : ℕ) → last < n → (ss : List ℕ) × (succ x n i ≡ some ss)
  pub encoding : atomic_ok (class_of x.code) x ≡ true
  pub coding : is_coded (class_of x.code) x ≡ true

-- `slot` says which indices hold the second half of a LD_IMM64.
pub record At (slot : ℕ → Bool) (ks : List Kfunc) (last i : ℕ) (x : Insn) : Type 0 where
  pub blank : slot i ≡ true → x.code ≡ 0
  pub good : slot i ≡ false → Good ks last i x
  pub next : slot i ≡ false → (x.code == ld_imm64) ≡ slot (suc i)

pub Good-mono : (ks : List Kfunc) (a b i : ℕ) (x : Insn) → a ≤ b → Good ks a i x → Good ks b i x
Good-mono ks a b i x le g = record {
  known = g.known;
  flow = λ n lt. g.flow n (omega arith);
  encoding = g.encoding;
  coding = g.coding;
}

pub At-mono :
    (slot : ℕ → Bool) (ks : List Kfunc) (a b i : ℕ) (x : Insn)
    → a ≤ b
    → At slot ks a i x
    → At slot ks b i x
At-mono slot ks a b i x le h = record {
  blank = h.blank;
  good = λ e. Good-mono ks a b i x le (h.good e);
  next = h.next;
}
