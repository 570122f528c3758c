-- ===== src/Gen/Genome/Valid.antt =====
-- Genomes stay inside the grammar: what is drawn, and what an edit leaves.
use verifierloop.Base.{
  ℕ, zero, suc, ◌+◌, ◌-◌, ◌≤◌, ◌<◌, ◌≡◌, bit_xor, Bool, true, false, List, [], ◌∷◌, length, All,
}
use verifierloop.Base.{arith, ltb→lt, refl, Bool-cases, inl, inr, ◌==◌, ltb, if◌then◌else◌}
use native.Mathlib.Nat.{mod-lt}
use verifierloop.Gen.Genome.{give, pick, xorshift, Gene, Genome, gene_random, genes_random}
use verifierloop.Gen.Genome.{
  genome_random, insert_at, delete_at, change_at, insert_gene, delete_gene, replace_gene,
}
use verifierloop.Gen.Genome.{
  change_step, change_opt, nudge_constant, nudge_registers, nudge, edit_by, edit, edits, mutate,
}
use verifierloop.Gen.Genome.{step_count, max_genes}

pub pick-lt : (n rng : ℕ) → 0 < n → (pick n rng).value < n
unfolding pick
pick-lt n rng h = mod-lt (xorshift rng) h

-- A gene of the grammar.
pub record IsGene (g : Gene) : Type 0 where
  pub st : g.st < step_count
  pub a : g.a < 3
  pub b : g.b < 3
  pub k_pos : 0 < g.k
  pub k_small : g.k ≤ 15
  pub opt : g.opt < 64

-- A genome of 6 to 24 genes of the grammar.
pub record IsGenome (g : Genome) : Type 0 where
  pub hi : g.hi < 2
  pub genes : All IsGene g.genes
  pub enough : 6 ≤ length g.genes
  pub few : length g.genes ≤ max_genes

gene_random-IsGene : (rng : ℕ) → IsGene (gene_random rng).value
unfolding gene_random
gene_random-IsGene rng = record {
  st = pick-lt step_count _ (omega arith);
  a = pick-lt 3 _ (omega arith);
  b = pick-lt 3 _ (omega arith);
  k_pos = omega arith;
  k_small =
      omega (arith, pick-lt 15 (pick 3 (pick 3 (pick step_count rng).rng).rng).rng (omega arith));
  opt = pick-lt 64 _ (omega arith);
}

-- A list of `n` genes of the grammar.
abbrev Genes : ℕ → List Gene → Type 0
Genes n gs = All IsGene gs × (length gs ≡ n)

genes_random-Genes : (n rng : ℕ) → Genes n (genes_random n rng).value
unfolding genes_random
genes_random-Genes zero rng = (tt, refl)
genes_random-Genes (suc n) rng =
    let (good, size) = genes_random-Genes n (gene_random rng).rng in
    ((gene_random-IsGene rng, good), omega (arith, size))

insert_at-Genes :
    (i n : ℕ) (x : Gene) (gs : List Gene) → IsGene x → Genes n gs → Genes (n + 1) (insert_at i x gs)
unfolding insert_at
insert_at-Genes zero n x gs hx h = ((hx, h.0), omega (arith, h.1))
insert_at-Genes (suc i) n x [] hx h = ((hx, tt), omega (arith, h.1))
insert_at-Genes (suc i) zero x (g ∷ gs) hx h = absurd (omega (arith, h.1))
insert_at-Genes (suc i) (suc n) x (g ∷ gs) hx h =
    let (rest, size) = insert_at-Genes i n x gs hx (h.0.1, omega (arith, h.1)) in
    ((h.0.0, rest), omega (arith, size))

delete_at-Genes : (i n : ℕ) (gs : List Gene) → i < n → Genes n gs → Genes (n - 1) (delete_at i gs)
unfolding delete_at
delete_at-Genes i n [] lt h = absurd (omega (arith, h.1))
delete_at-Genes zero n (g ∷ gs) lt h = (h.0.1, omega (arith, h.1))
delete_at-Genes (suc i) n (g ∷ gs) lt h =
    let (rest, size) = delete_at-Genes i (n - 1) gs (omega arith) (h.0.1, omega (arith, h.1)) in
    ((h.0.0, rest), omega (arith, size))

change_at-Genes :
    (i n : ℕ) (f : Gene → Gene) (gs : List Gene)
    → ((g : Gene) → IsGene g → IsGene (f g))
    → Genes n gs
    → Genes n (change_at i f gs)
unfolding change_at
change_at-Genes i n f [] keep h = h
change_at-Genes zero n f (g ∷ gs) keep h = ((keep g h.0.0, h.0.1), h.1)
change_at-Genes (suc i) n f (g ∷ gs) keep h =
    let (rest, size) = change_at-Genes i (n - 1) f gs keep (h.0.1, omega (arith, h.1)) in
    ((h.0.0, rest), omega (arith, size, h.1))

-- The genes of a genome.
record Fit (gs : List Gene) : Type 0 where
  good : All IsGene gs
  enough : 6 ≤ length gs
  few : length gs ≤ max_genes

Genes-Fit : (n : ℕ) (gs : List Gene) → Genes n gs → 6 ≤ n → n ≤ max_genes → Fit gs
Genes-Fit n gs h lo hi = record {
  good = h.0;
  enough = omega (arith, h.1);
  few = omega (arith, h.1);
}

module _ (gs : List Gene) (fit : Fit gs) where
  change_at-Fit :
      (i : ℕ) (f : Gene → Gene) → ((g : Gene) → IsGene g → IsGene (f g)) → Fit (change_at i f gs)
  change_at-Fit i f keep =
      Genes-Fit _ _ (change_at-Genes i (length gs) f gs keep (fit.good, refl)) fit.enough fit.few

  some_index : (rng : ℕ) → (pick (length gs) rng).value < length gs
  some_index rng = pick-lt (length gs) rng (omega (arith, fit.enough))

  insert_gene-Fit : length gs < max_genes → (rng : ℕ) → Fit (insert_gene gs rng).value
  unfolding insert_gene
  insert_gene-Fit room rng =
      Genes-Fit (length gs + 1) _
        (insert_at-Genes _ (length gs) _ gs (gene_random-IsGene _) (fit.good, refl))
        (omega (arith, fit.enough)) (omega arith)

  delete_gene-Fit : 6 < length gs → (rng : ℕ) → Fit (delete_gene gs rng).value
  unfolding delete_gene
  delete_gene-Fit more rng =
      Genes-Fit (length gs - 1) _
        (delete_at-Genes _ (length gs) gs (some_index rng) (fit.good, refl)) (omega arith)
        (omega (arith, fit.few))

  replace_gene-Fit : (rng : ℕ) → Fit (replace_gene gs rng).value
  unfolding replace_gene
  replace_gene-Fit rng = change_at-Fit _ _ (λ _ _. gene_random-IsGene _)

  change_step-Fit : (rng : ℕ) → Fit (change_step gs rng).value
  unfolding change_step
  change_step-Fit rng = change_at-Fit _ _ (λ g h. record {
    st = pick-lt step_count rng (omega arith);
    a = h.a;
    b = h.b;
    k_pos = h.k_pos;
    k_small = h.k_small;
    opt = h.opt;
  })

  change_opt-Fit : (rng : ℕ) → Fit (change_opt gs rng).value
  unfolding change_opt
  change_opt-Fit rng = change_at-Fit _ _ (λ g h. record {
    st = h.st;
    a = h.a;
    b = h.b;
    k_pos = h.k_pos;
    k_small = h.k_small;
    opt = pick-lt 64 rng (omega arith);
  })

  nudge_constant-Fit : (i rng : ℕ) → Fit (nudge_constant i gs rng).value
  unfolding nudge_constant
  nudge_constant-Fit i rng = change_at-Fit i _ (λ g h. record {
    st = h.st;
    a = h.a;
    b = h.b;
    k_pos = omega arith;
    k_small = omega (arith, pick-lt 15 rng (omega arith));
    opt = h.opt;
  })

  nudge_registers-Fit : (i rng : ℕ) → Fit (nudge_registers i gs rng).value
  unfolding nudge_registers
  nudge_registers-Fit i rng = change_at-Fit i _ (λ g h. record {
    st = h.st;
    a = pick-lt 3 rng (omega arith);
    b = pick-lt 3 _ (omega arith);
    k_pos = h.k_pos;
    k_small = h.k_small;
    opt = h.opt;
  })

  nudge-Fit : (rng : ℕ) → Fit (nudge gs rng).value
  unfolding nudge
  nudge-Fit rng =
      let at = pick (length gs) rng in
      let coin = pick 2 at.rng in
      elim (Bool-cases (coin.value == 0)) [
        | inl e ↦ rw e (nudge_registers-Fit at.value coin.rng)
        | inr e ↦ rw e (nudge_constant-Fit at.value coin.rng)
      ]

  insert_edit :
      (rng : ℕ) → Fit ((if ltb (length gs) max_genes then insert_gene gs else give gs) rng).value
  insert_edit rng = elim (Bool-cases (ltb (length gs) max_genes)) [
    | inl e ↦ rw e (insert_gene-Fit (ltb→lt _ _ e) rng)
    | inr e ↦ rw e fit
  ]

  delete_edit : (rng : ℕ) → Fit ((if ltb 6 (length gs) then delete_gene gs else give gs) rng).value
  delete_edit rng = elim (Bool-cases (ltb 6 (length gs))) [
    | inl e ↦ rw e (delete_gene-Fit (ltb→lt _ _ e) rng)
    | inr e ↦ rw e fit
  ]

  edit_by-Fit : (op rng : ℕ) → Fit (edit_by op gs rng).value
  unfolding edit_by
  edit_by-Fit op rng = elim (Bool-cases (op == 0)) [
    | inl e ↦ rw e (insert_edit rng)
    | inr e0 ↦ elim (Bool-cases (op == 1)) [
      | inl e ↦ rw (e0, e) (delete_edit rng)
      | inr e1 ↦ elim (Bool-cases (op == 2)) [
        | inl e ↦ rw (e0, e1, e) (replace_gene-Fit rng)
        | inr e2 ↦ elim (Bool-cases (op == 3)) [
          | inl e ↦ rw (e0, e1, e2, e) (change_step-Fit rng)
          | inr e3 ↦ elim (Bool-cases (op == 4)) [
            | inl e ↦ rw (e0, e1, e2, e3, e) (change_opt-Fit rng)
            | inr e4 ↦ rw (e0, e1, e2, e3, e4) (nudge-Fit rng)
          ]
        ]
      ]
    ]
  ]

edits-Fit : (n : ℕ) (gs : List Gene) (rng : ℕ) → Fit gs → Fit (edits n gs rng).value
unfolding edits edit
edits-Fit zero gs rng fit = fit
edits-Fit (suc n) gs rng fit = edits-Fit n _ _ (edit_by-Fit gs fit _ _)

-- A random genome has 6 to 20 genes, each of them in the grammar: a known step, registers below 3,
-- a constant of 1 to 15 and an option below 64.
pub genome_random-IsGenome :
    (rng : ℕ) → IsGenome (genome_random rng).value × (length (genome_random rng).value.genes ≤ 20)
unfolding genome_random
genome_random-IsGenome rng =
    let size = pick-lt 15 rng (omega arith) in
    let (good, len) = genes_random-Genes (6 + (pick 15 rng).value) (pick 2 (pick 15 rng).rng).rng in
    (
      record {
        hi = pick-lt 2 _ (omega arith);
        genes = good;
        enough = omega (arith, len);
        few = omega (arith, len, size);
      },
      omega (arith, len, size),
    )

flip_bit : (h : ℕ) → h < 2 → bit_xor h 1 < 2
flip_bit zero h = omega arith
flip_bit (suc zero) h = omega arith
flip_bit (suc (suc h)) lt = absurd (omega arith)

-- A mutation keeps a genome of 6 to 24 genes in the grammar, whatever is drawn.
pub mutate-IsGenome : (g : Genome) (rng : ℕ) → IsGenome g → IsGenome (mutate g rng).value
unfolding mutate
mutate-IsGenome g rng v =
    let fit =
      edits-Fit _ g.genes _ (Genes-Fit (length g.genes) g.genes (v.genes, refl) v.enough v.few) in
    record { hi = flipped _; genes = fit.good; enough = fit.enough; few = fit.few }
  where
    flipped : (t : Bool) → (if t then bit_xor g.hi 1 else g.hi) < 2
    flipped true = flip_bit g.hi v.hi
    flipped false = v.hi
