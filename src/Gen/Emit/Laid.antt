-- ===== src/Gen/Emit/Laid.antt =====
-- gi_emit_body keeps the program laid out well: what each gene appends, and the branches that are
-- left to be patched.
use verifierloop.Base.{ℕ, zero, suc, ◌+◌, ◌≤◌, ◌≡◌, Bool, true, false, List, [], ◌∷◌, ◌++◌}
use verifierloop.Base.{
  length, get_elem?, All, Option, some, none, ◌==◌, if◌then◌else◌, arith, refl, sym, ◌∙◌,
  Bool-cases, inl, inr,
}
use verifierloop.Insn.{Insn, ld_imm64}
use verifierloop.Live.{Kfunc, kfunc_argc}
use verifierloop.Gen.Layout.{AllAt, AllAt-append, AllAt-map, At, At-mono, Good, length-append}
use verifierloop.Gen.Layout.Kinds.{is_branch, IsBranch, branch-IsBranch}
use verifierloop.Gen.Body.{IterIds, choose4}

-- The analysis knows the functions of the iterator.
abbrev pub IterKnown : List Kfunc → Option IterIds → Type 0
IterKnown ks none = Unit
IterKnown ks (some ids) =
    ((n : ℕ) × (kfunc_argc ks ids.new_id ≡ some n))
    × ((n : ℕ) × (kfunc_argc ks ids.next_id ≡ some n))
    × ((n : ℕ) × (kfunc_argc ks ids.destroy_id ≡ some n))

pub choose4_elim :
    (P : ℕ → Type 0) (i : ℕ) {a b c d : ℕ} → P a → P b → P c → P d → P (choose4 i a b c d)
choose4_elim P i pa pb pc pd = elim (Bool-cases (i == 0)) [
  | inl e ↦ rw e pa
  | inr e0 ↦ elim (Bool-cases (i == 1)) [
    | inl e ↦ rw (e0, e) pb
    | inr e1 ↦ elim (Bool-cases (i == 2)) [ inl e ↦ rw (e0, e1, e) pc | inr e ↦ rw (e0, e1, e) pd ]
  ]
]

pub if_elim {ℓ} :
    {A : Type ℓ} (P : A → Type 0) (t : Bool) {a b : A} → P a → P b → P (if t then a else b)
if_elim P true pa pb = pa
if_elim P false pa pb = pb

pub get_elem?_left :
    (xs ys : List Insn) (j : ℕ) (x : Insn)
    → get_elem? xs j ≡ some x
    → get_elem? (xs ++ ys) j ≡ some x
get_elem?_left [] ys j x h = cc
get_elem?_left (y ∷ xs) ys zero x h = h
get_elem?_left (y ∷ xs) ys (suc j) x h = get_elem?_left xs ys j x h

pub get_elem?_end : (xs ys : List Insn) (x : Insn) → get_elem? (xs ++ x ∷ ys) (length xs) ≡ some x
get_elem?_end [] ys x = refl
get_elem?_end (y ∷ xs) ys x = get_elem?_end xs ys x

All-snoc {ℓ} :
    {A : Type ℓ} (P : A → Type 0) (xs : List A) (y : A) → All P xs → P y → All P (xs ++ y ∷ [])
All-snoc P [] y h p = (p, tt)
All-snoc P (x ∷ xs) y (q, h) p = (q, All-snoc P xs y h p)

pub All-map {ℓ} :
    {A : Type ℓ} (P Q : A → Type 0) (xs : List A) → ((a : A) → P a → Q a) → All P xs → All Q xs
All-map P Q [] f h = tt
All-map P Q (x ∷ xs) f (p, h) = (f x p, All-map P Q xs f h)

-- An instruction of a gene: it stands well, and is no LD_IMM64.
abbrev pub Fine : List Kfunc → ℕ → ℕ → Insn → Type 0
Fine ks last i x = Good ks last i x × ((x.code == ld_imm64) ≡ false)

module _ (ks : List Kfunc) (slot : ℕ → Bool) (base : ℕ) (free : (i : ℕ) → base ≤ i → slot i ≡ false)
    (heads : List ℕ) where
  -- A branch that is to be patched: one of those before the body, and one of the body.
  abbrev pub IsHead : List Insn → ℕ → Type 0
  IsHead ins j = (x : Insn) × (get_elem? ins j ≡ some x) × IsBranch ks x

  abbrev pub IsExit : List Insn → ℕ → Type 0
  IsExit ins j = (base ≤ j) × IsHead ins j

  pub record IsLaid (ins : List Insn) (jexit : List ℕ) : Type 0 where
    pub started : base ≤ length ins
    pub laid : AllAt (At slot ks (length ins)) 0 ins
    pub exits : All (IsExit ins) jexit
    pub entries : All (IsHead ins) heads

  Fine-At :
      (last i : ℕ) (xs : List Insn)
      → base ≤ i
      → AllAt (Fine ks last) i xs
      → AllAt (At slot ks last) i xs
  Fine-At last i [] lo h = tt
  Fine-At last i (x ∷ xs) lo ((good, no_ld), h) = (
    record {
      blank = λ s. cc (s, free i lo);
      good = λ s. good;
      next = λ s. no_ld ∙ sym (free (suc i) (omega arith));
    },
    Fine-At last (suc i) xs (omega arith) h,
  )

  pub put-IsLaid :
      (xs : List Insn) (ins : List Insn) (jexit : List ℕ)
      → AllAt (Fine ks (length ins + length xs)) (length ins) xs
      → IsLaid ins jexit
      → IsLaid (ins ++ xs) jexit
  put-IsLaid xs ins jexit fine v =
      let size = length-append ins xs in
      record {
        started = omega (arith, v.started, size);
        laid =
            AllAt-append (At slot ks (length (ins ++ xs))) 0 ins xs
              (AllAt-map (At slot ks (length ins)) (At slot ks (length (ins ++ xs))) 0 ins
                (λ j x. At-mono slot ks (length ins) (length (ins ++ xs)) j x (omega (arith, size)))
                v.laid)
              (rw (size, zero_plus (length ins)) (Fine-At _ (length ins) xs v.started fine));
        exits =
            All-map (IsExit ins) (IsExit (ins ++ xs)) jexit
              (λ j (lo, (x, e, b)). (lo, (x, get_elem?_left ins xs j x e, b))) v.exits;
        entries =
            All-map (IsHead ins) (IsHead (ins ++ xs)) heads
              (λ j (x, e, b). (x, get_elem?_left ins xs j x e, b)) v.entries;
      }
    where
      zero_plus : (n : ℕ) → 0 + n ≡ n
      zero_plus n = omega arith

  pub branch-IsLaid :
      (x : Insn) (xs : List Insn) (ins : List Insn) (jexit : List ℕ)
      → is_branch x ≡ true
      → AllAt (Fine ks (length ins + length (x ∷ xs))) (length ins) (x ∷ xs)
      → IsLaid ins jexit
      → IsLaid (ins ++ x ∷ xs) (jexit ++ length ins ∷ [])
  branch-IsLaid x xs ins jexit b fine v =
      let w = put-IsLaid (x ∷ xs) ins jexit fine v in
      record {
        started = w.started;
        laid = w.laid;
        exits =
            All-snoc (IsExit (ins ++ x ∷ xs)) jexit (length ins) w.exits
              (v.started, (x, get_elem?_end ins xs x, branch-IsBranch ks x b));
        entries = w.entries;
      }
