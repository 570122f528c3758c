-- ===== src/Gen/Fuzz/Corpus.antt =====
-- The corpus holds genomes of the grammar, in every round.
use verifierloop.Base.{
  ℕ, zero, suc, ◌+◌, ◌≤◌, ◌<◌, ◌≡◌, ◌&&◌, List, [], ◌∷◌, ◌++◌, length, get_elem?, All,
}
use verifierloop.Base.{ltb, arith, refl, Bool-cases, inl, inr}
use verifierloop.Gen.Genome.{Genome, pick}
use verifierloop.Gen.Genome.Valid.{IsGenome, pick-lt, genome_random-IsGenome, mutate-IsGenome}
use verifierloop.Gen.Fuzz.{
  Entry, Fuzz, corpus_max, entry_genome, mutate_one, next_genome, keep, round,
}

abbrev pub IsEntry : Entry → Type 0
IsEntry e = IsGenome e.genome

pub record IsCorpus (es : List Entry) : Type 0 where
  pub entries : All IsEntry es
  pub small : length es ≤ corpus_max

entry-IsGenome :
    (es : List Entry) (i : ℕ)
    → All IsEntry es
    → i < length es
    → IsGenome (entry_genome (get_elem? es i))
unfolding entry_genome
entry-IsGenome [] i h lt = absurd (omega arith)
entry-IsGenome (e ∷ es) zero (p, h) lt = p
entry-IsGenome (e ∷ es) (suc i) (p, h) lt = entry-IsGenome es i h (omega arith)

next_genome-IsGenome :
    (es : List Entry) (rng : ℕ) → All IsEntry es → IsGenome (next_genome es rng).value
unfolding next_genome mutate_one
next_genome-IsGenome [] rng h = (genome_random-IsGenome rng).0
next_genome-IsGenome (e ∷ es) rng h = elim (Bool-cases (ltb (pick 10 rng).value 8)) [
  | inl t ↦ rw t (
      mutate-IsGenome _ _ (entry-IsGenome (e ∷ es) _ h (pick-lt (suc (length es)) _ (omega arith))))
  | inr t ↦ rw t ((genome_random-IsGenome _).0)
]

snoc :
    (es : List Entry) (e : Entry)
    → All IsEntry es
    → IsEntry e
    → All IsEntry (es ++ e ∷ []) × (length (es ++ e ∷ []) ≡ length es + 1)
snoc [] e h p = ((p, tt), refl)
snoc (x ∷ es) e (q, h) p = let (all, n) = snoc es e h p in ((q, all), omega (arith, n))

keep-IsCorpus :
    (fresh : ℕ) (g : Genome) (es : List Entry)
    → IsGenome g
    → IsCorpus es
    → IsCorpus (keep fresh g es)
unfolding keep
keep-IsCorpus fresh g es p h = elim (Bool-cases (ltb 0 fresh && ltb (length es) corpus_max)) [
  | inl e ↦
      let (all, n) = snoc es (record { genome = g; new_pcs = fresh }) h.entries p in
      let room : length es < corpus_max = ground (arith, e) in
      rw e (record { entries = all; small = omega (arith, n, room) })
  | inr e ↦ rw e h
]

-- A round of the fuzzer keeps the corpus: at most 4096 entries, each a genome of the grammar,
-- whatever the load covers. The genome that the round loads is of the grammar too.
pub round-IsCorpus :
    (pcs : Genome → List ℕ) (f : Fuzz)
    → IsCorpus f.corpus
    → IsCorpus (round pcs f).corpus × IsGenome (next_genome f.corpus f.rng).value
unfolding round
round-IsCorpus pcs f h =
    let good = next_genome-IsGenome f.corpus f.rng h.entries in
    (keep-IsCorpus _ _ f.corpus good h, good)
