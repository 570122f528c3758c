-- ===== src/Live/Flow/Scanned.antt =====
-- The first loop of bpflive_run: which node stands for which instruction.
use verifierloop.Base.{ℕ, zero, suc, ◌+◌, ◌<◌, ◌≡◌, refl, ap, ◌⊎◌, inl, inr, arith}
use verifierloop.Base.{
  false, true, Bool, List, [], ◌∷◌, length, ltb, ◌==◌, ◌&&◌, Option, none, some,
}
use verifierloop.Base.{
  Option-cases, Bool-cases, get_elem?, get_elem?_out, get_or_out, All, ℤ, pos, negsuc,
}
use mathlib.Core.Path.{subst}
use verifierloop.Insn.{Insn, Class, ld, ld_imm64, jmp, jmp32, class_of, op_of, is_x, target}
use verifierloop.Live.Usedef.{Kfunc, Masks, usedef, succ, succ_class, succ_jmp, in_program}
use verifierloop.Live.Usedef.{fall_through, two_targets, one_target, next_of}
use verifierloop.Live.Flow.{Node, node_at, tail_node, Scan, nodes, refused, cons_node, scan}
use verifierloop.Live.Flow.Paths.{Occurs, IsGraph}

-- The nodes `g` of the instructions `xs`, the first of which has index `i`.
pub data Scanned (ks : List Kfunc) (n : ℕ) : ℕ → Bool → List Insn → List Node → Type 0 where
  done : (i : ℕ) (b : Bool) → Scanned ks n i b [] []
  tail :
      (i : ℕ) (x : Insn) (xs : List Insn) (g : List Node)
      → Scanned ks n (i + 1) false xs g
      → Scanned ks n i true (x ∷ xs) (tail_node ∷ g)
  insn :
      (i : ℕ) (x : Insn) (xs : List Insn) (g : List Node) (m : Masks) (ss : List ℕ)
      → usedef ks x ≡ some m
      → succ x n i ≡ some ss
      → Scanned ks n (i + 1) (x.code == ld_imm64 && ltb (i + 1) n) xs g
      → Scanned ks n i false
          (x ∷ xs)
          (record { uses = m.uses; defs = m.defs; succs = ss; skip = false } ∷ g)

cons_node-eq_nodes :
    (x : Node) (s : Scan) (g : List Node)
    → cons_node x s ≡ nodes g
    → (t : List Node) × (s ≡ nodes t) × (g ≡ x ∷ t)
cons_node-eq_nodes x (nodes t) g e = (t, refl, cc)
cons_node-eq_nodes x (refused i w) g e = cc

pub scan-Scanned :
    (ks : List Kfunc) (n i : ℕ) (b : Bool) (xs : List Insn) (g : List Node)
    → scan ks n i b xs ≡ nodes g
    → Scanned ks n i b xs g
unfolding scan
scan-Scanned ks n i b [] g e = subst (Scanned ks n i b []) (cc) (done i b)
scan-Scanned ks n i true (x ∷ xs) g e =
    let (t, e', p) = cons_node-eq_nodes tail_node (scan ks n (i + 1) false xs) g e in
    rw p (tail i x xs t (scan-Scanned ks n (i + 1) false xs t e'))
scan-Scanned ks n i false (x ∷ xs) g e = elim (Option-cases (usedef ks x)) [
  | inl u ↦ absurd (ground arith)
  | inr (m, u) ↦ elim (Option-cases (succ x n i)) [
    | inl v ↦ absurd (ground arith)
    | inr (ss, v) ↦
        let skip = x.code == ld_imm64 && ltb (i + 1) n in
        let node : Node = record { uses = m.uses; defs = m.defs; succs = ss; skip = false } in
        let (t, e', p) = cons_node-eq_nodes node (scan ks n (i + 1) skip xs) g (rw (u, v) at e) in
        rw p (insn i x xs t m ss u v (scan-Scanned ks n (i + 1) skip xs t e'))
  ]
]

abbrev Below : ℕ → Option (List ℕ) → Type 0
Below n none = Unit
Below n (some ss) = All (λ j. j < n) ss

in_program-lt : (n : ℕ) (t : ℤ) (j : ℕ) → in_program n t ≡ some j → j < n
unfolding in_program
in_program-lt n (pos t) j e = ground arith
in_program-lt n (negsuc t) j e = cc

fall_through-Below : (n next : ℕ) → Below n (fall_through n next)
fall_through-Below n next = ground arith

one_target-Below : (n : ℕ) (t : ℤ) → Below n (one_target (in_program n t))
one_target-Below n t = elim (Option-cases (in_program n t)) [
  | inl e ↦ rw e tt
  | inr (j, e) ↦ rw e (in_program-lt n t j e, tt)
]

two_targets-Below : (n next : ℕ) (t : ℤ) → Below n (two_targets n next (in_program n t))
two_targets-Below n next t = elim (Option-cases (in_program n t)) [
  | inl e ↦ rw e tt
  | inr (j, e) ↦ let lt = in_program-lt n t j e in rw e (ground arith)
]

succ_jmp-Below : (wide : Bool) (x : Insn) (n i : ℕ) → Below n (succ_jmp wide x n i)
unfolding succ_jmp
succ_jmp-Below wide x n i = elim (Bool-cases (op_of x.code == 0x90)) [
  | inl e ↦ rw e tt
  | inr a ↦ elim (Bool-cases (op_of x.code == 0x80)) [
    | inl e ↦ rw (a, e) (fall_through-Below n (next_of x i))
    | inr b ↦ elim (Bool-cases (op_of x.code == 0x00)) [
      | inr c ↦ rw (a, b, c) (two_targets-Below n (next_of x i) (target 16 i x.off))
      | inl c ↦ elim (Bool-cases (is_x x.code)) [
        | inl e ↦ rw (a, b, c, e) tt
        | inr e ↦ rw (a, b, c, e) (one_target-Below n _)
      ]
    ]
  ]
]

succ-Below : (k : Class) (x : Insn) (n i : ℕ) → Below n (succ_class k x n i)
unfolding succ_class
succ-Below jmp x n i = succ_jmp-Below false x n i
succ-Below jmp32 x n i = succ_jmp-Below true x n i
succ-Below ld x n i = fall_through-Below n (next_of x i)
succ-Below _ x n i = fall_through-Below n (next_of x i)

All-Occurs : (n : ℕ) (ss : List ℕ) (j : ℕ) → All (λ j. j < n) ss → Occurs j ss → j < n
All-Occurs n [] j a o = absurd o
All-Occurs n (s ∷ ss) j a (inl e) = rw e (a.0)
All-Occurs n (s ∷ ss) j a (inr o) = All-Occurs n ss j a.1 o

-- A successor is an instruction of the program.
pub succ-lt :
    (x : Insn) (n i : ℕ) (ss : List ℕ) (j : ℕ) → succ x n i ≡ some ss → Occurs j ss → j < n
unfolding succ
succ-lt x n i ss j e = All-Occurs n ss j (subst (Below n) e (succ-Below (class_of x.code) x n i))

pub Scanned-length :
    {ks : List Kfunc} {n i : ℕ} {b : Bool} {xs : List Insn} {g : List Node}
    → Scanned ks n i b xs g
    → length g ≡ length xs
Scanned-length (done _ _) = refl
Scanned-length (tail _ x xs g s) = ap suc (Scanned-length s)
Scanned-length (insn _ x xs g m ss u v s) = ap suc (Scanned-length s)

-- What holds of the node at index `j`, where `n` is the number of instructions.
pub data Stands (ks : List Kfunc) (n i : ℕ) (x : Insn) : Node → Type 0 where
  slot : Stands ks n i x tail_node
  fits :
      (m : Masks) (ss : List ℕ)
      → usedef ks x ≡ some m
      → succ x n i ≡ some ss
      → Stands ks n i x (record { uses = m.uses; defs = m.defs; succs = ss; skip = false })

pub Scanned-Stands :
    {ks : List Kfunc} {n i : ℕ} {b : Bool} {xs : List Insn} {g : List Node} (j : ℕ) (x : Insn)
    → Scanned ks n i b xs g
    → get_elem? xs j ≡ some x
    → Stands ks n (i + j) x (node_at g j)
Scanned-Stands j x (done _ _) e = cc
Scanned-Stands zero x (tail i y xs g s) e = slot
Scanned-Stands {ks = ks} {n = n} (suc j) x (tail i y xs g s) e =
    subst (λ k. Stands ks n k x (node_at g j)) (omega arith) (Scanned-Stands j x s e)
Scanned-Stands {ks = ks} {n = n} zero x (insn i y xs g m ss u v s) e =
    let yx : y ≡ x = cc in
    let at : i ≡ i + 0 = omega arith in
    let node : Node = record { uses = m.uses; defs = m.defs; succs = ss; skip = false } in
    subst (λ k. Stands ks n k x node) at (fits m ss (rw yx at u) (rw yx at v))
Scanned-Stands {ks = ks} {n = n} (suc j) x (insn i y xs g m ss u v s) e =
    subst (λ k. Stands ks n k x (node_at g j)) (omega arith) (Scanned-Stands j x s e)

pub Scanned-node :
    {ks : List Kfunc} {n : ℕ} {b : Bool} {xs : List Insn} {g : List Node} (j : ℕ)
    → Scanned ks n 0 b xs g
    → ((x : Insn) × (get_elem? xs j ≡ some x) × Stands ks n j x (node_at g j))
      ⊎ (node_at g j ≡ tail_node)
Scanned-node {ks = ks} {n = n} {xs = xs} {g = g} j s = elim (Option-cases (get_elem? xs j)) [
  | inl e ↦ inr (get_or_out g j tail_node (omega (arith, get_elem?_out xs j e, Scanned-length s)))
  | inr (x, e) ↦
      let at : 0 + j ≡ j = omega arith in
      inl (x, e, subst (λ k. Stands ks n k x (node_at g j)) at (Scanned-Stands j x s e))
]

Stands-tail :
    {ks : List Kfunc} {n i : ℕ} {x : Insn} {y : Node}
    → Stands ks n i x y
    → y.skip ≡ true
    → y ≡ tail_node
Stands-tail slot e = refl
Stands-tail (fits m ss u v) e = cc

Stands-lt :
    {ks : List Kfunc} {n i : ℕ} {x : Insn} {y : Node} (j : ℕ)
    → Stands ks n i x y
    → Occurs j y.succs
    → j < n
Stands-lt j slot o = absurd o
Stands-lt {n = n} {i = i} {x = x} j (fits m ss u v) o = succ-lt x n i ss j v o

-- The nodes meet what the sweeps rely on.
pub Scanned-IsGraph :
    {ks : List Kfunc} {b : Bool} {xs : List Insn} {g : List Node}
    → Scanned ks (length xs) 0 b xs g
    → IsGraph g
Scanned-IsGraph {xs = xs} {g = g} s = record {
  tails = λ i e. elim (Scanned-node i s) [ inl (x, at, st) ↦ Stands-tail st e | inr t ↦ t ];
  inside = λ i j o. elim (Scanned-node i s) [
    | inl (x, at, st) ↦ rw (Scanned-length s) (Stands-lt j st o)
    | inr t ↦ absurd (subst (λ y. Occurs j y.succs) t o)
  ];
}
