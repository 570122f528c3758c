-- ===== src/Gen/Genome.antt =====
-- harness/diffharness.c, genomes: gi_rand, gi_pick, gi_gene_random, gi_genome_random, fz_mutate.
pub mod Valid
use verifierloop.Base.{ℕ, zero, suc, ◌+◌, ◌-◌, ◌*◌, ◌/◌, ◌%◌, ◌^◌, bit_xor, Bool, List, [], ◌∷◌}
use verifierloop.Base.{length, ◌==◌, ltb, if◌then◌else◌}

-- A computation that draws numbers: what it gives, and the generator's next state.
pub record Drawn {ℓ} (A : Type ℓ) : Type ℓ where
  pub value : A
  pub rng : ℕ

abbrev pub Rand {ℓ} : Type ℓ → Type ℓ
Rand A = ℕ → Drawn A

abbrev pub give {ℓ} : {A : Type ℓ} → A → Rand A
give a rng = record { value = a; rng = rng }

infixl 5 ◌>>=◌
abbrev pub ◌>>=◌ {ℓ κ} : {A : Type ℓ} {B : Type κ} → Rand A → (A → Rand B) → Rand B
(m >>= f) rng = let d = m rng in f d.value d.rng

-- gi_rand: a step of a 32-bit xorshift.
unfoldable pub xorshift : ℕ → ℕ
xorshift r =
    let a = bit_xor r (r * 2 ^ 13 % 2 ^ 32) in
    let b = bit_xor a (a / 2 ^ 17) in bit_xor b (b * 2 ^ 5 % 2 ^ 32)

unfoldable pub pick : ℕ → Rand ℕ
pick n rng = record { value = xorshift rng % n; rng = xorshift rng }

abbrev pub step_count : ℕ
step_count = 20

abbrev pub max_genes : ℕ
max_genes = 24

pub record Gene : Type 0 where
  pub st : ℕ
  pub a : ℕ
  pub b : ℕ
  pub k : ℕ
  pub opt : ℕ

-- The genes below `n`; the entries of the array from `n` on are never read.
pub record Genome : Type 0 where
  pub hi : ℕ
  pub genes : List Gene

unfoldable pub gene_random : Rand Gene
gene_random = do
  st ← pick step_count
  a ← pick 3
  b ← pick 3
  k ← pick 15
  opt ← pick 64
  give (record { st = st; a = a; b = b; k = 1 + k; opt = opt })

unfoldable pub genes_random : ℕ → Rand (List Gene)
genes_random zero = give []
genes_random (suc n) = do g ← gene_random; gs ← genes_random n; give (g ∷ gs)

unfoldable pub genome_random : Rand Genome
genome_random = do
  n ← pick 15
  hi ← pick 2
  gs ← genes_random (6 + n)
  give (record { hi = hi; genes = gs })

-- The array operations of fz_mutate.
unfoldable pub insert_at : ℕ → Gene → List Gene → List Gene
insert_at zero x gs = x ∷ gs
insert_at (suc i) x [] = x ∷ []
insert_at (suc i) x (g ∷ gs) = g ∷ insert_at i x gs

unfoldable pub delete_at : ℕ → List Gene → List Gene
delete_at i [] = []
delete_at zero (g ∷ gs) = gs
delete_at (suc i) (g ∷ gs) = g ∷ delete_at i gs

unfoldable pub change_at : ℕ → (Gene → Gene) → List Gene → List Gene
change_at i f [] = []
change_at zero f (g ∷ gs) = f g ∷ gs
change_at (suc i) f (g ∷ gs) = g ∷ change_at i f gs

unfoldable pub insert_gene : List Gene → Rand (List Gene)
insert_gene gs = do at ← pick (length gs + 1); g ← gene_random; give (insert_at at g gs)

unfoldable pub delete_gene : List Gene → Rand (List Gene)
delete_gene gs = do at ← pick (length gs); give (delete_at at gs)

-- In C the order of the two draws of this call is the index first.
unfoldable pub replace_gene : List Gene → Rand (List Gene)
replace_gene gs = do at ← pick (length gs); g ← gene_random; give (change_at at (λ _. g) gs)

-- `dst->g[gi_pick(c, dst->n)].f = gi_pick(c, m)`; the order of the draws is the compiler's.
unfoldable pub change_step : List Gene → Rand (List Gene)
change_step gs = do
  st ← pick step_count
  at ← pick (length gs)
  give (change_at at (λ g. record g { st = st }) gs)

unfoldable pub change_opt : List Gene → Rand (List Gene)
change_opt gs = do
  opt ← pick 64
  at ← pick (length gs)
  give (change_at at (λ g. record g { opt = opt }) gs)

unfoldable pub nudge_constant : ℕ → List Gene → Rand (List Gene)
nudge_constant at gs = do k ← pick 15; give (change_at at (λ g. record g { k = 1 + k }) gs)

unfoldable pub nudge_registers : ℕ → List Gene → Rand (List Gene)
nudge_registers at gs = do
  a ← pick 3
  b ← pick 3
  give (change_at at (λ g. record g { a = a; b = b }) gs)

unfoldable pub nudge : List Gene → Rand (List Gene)
nudge gs = do
  at ← pick (length gs)
  coin ← pick 2
  if coin == 0 then nudge_registers at gs else nudge_constant at gs

-- The switch of one edit.
unfoldable pub edit_by : ℕ → List Gene → Rand (List Gene)
edit_by op gs =
    if op == 0
    then if ltb (length gs) max_genes then insert_gene gs else give gs
    else if op == 1
    then if ltb 6 (length gs) then delete_gene gs else give gs
    else if op == 2
    then replace_gene gs
    else if op == 3
    then change_step gs
    else if op == 4
    then change_opt gs
    else nudge gs

unfoldable pub edit : List Gene → Rand (List Gene)
edit gs = do op ← pick 6; edit_by op gs

unfoldable pub edits : ℕ → List Gene → Rand (List Gene)
edits zero gs = give gs
edits (suc n) gs = do hs ← edit gs; edits n hs

unfoldable pub mutate : Genome → Rand Genome
mutate g = do
  more ← pick 2
  gs ← edits (1 + more) g.genes
  flip ← pick 8
  give (record { hi = if flip == 0 then bit_xor g.hi 1 else g.hi; genes = gs })
