-- ===== src/Gen/Fuzz.antt =====
-- harness/diffharness.c, run_fuzz: the set of seen PCs (kseen_add) and the corpus of genomes.
pub mod Seen
pub mod Corpus
use verifierloop.Base.{
  ℕ, zero, suc, ◌+◌, ◌*◌, ◌/◌, ◌%◌, ◌^◌, Bool, ◌&&◌, List, [], ◌∷◌, ◌++◌, length,
}
use verifierloop.Base.{Option, none, some, get_elem?, ◌==◌, ltb, if◌then◌else◌}
use verifierloop.Gen.Genome.{Genome, Rand, Drawn, give, ◌>>=◌, pick, genome_random, mutate}

-- KSEEN_N.
abbrev pub seen_slots : ℕ
seen_slots = 2 ^ 20

-- g_kseen and g_kseen_count.
pub record SeenSet : Type 0 where
  pub slots : ℕ → ℕ
  pub count : ℕ

unfoldable pub hash : ℕ → ℕ
hash pc = pc * 0x9e3779b97f4a7c15 % 2 ^ 64 / 2 ^ 44

-- The probes that are left, from `at` on: the free slot that takes the PC, or `none` for one that is
-- not counted as new.
unfoldable pub find_slot : ℕ → ℕ → ℕ → (ℕ → ℕ) → Option ℕ
find_slot zero at pc slots = none
find_slot (suc n) at pc slots =
    let rest = find_slot n (suc at) pc slots in
    let s = at % seen_slots in if slots s == 0 then some s else if slots s == pc then none else rest

-- `slots[s] = pc`.
abbrev pub set_slot : ℕ → ℕ → (ℕ → ℕ) → ℕ → ℕ
set_slot s pc slots x = if x == s then pc else slots x

-- The set, and the number that were new.
pub record Added : Type 0 where
  pub seen : SeenSet
  pub fresh : ℕ

unfoldable pub take_slot : Option ℕ → ℕ → SeenSet → Added
take_slot none pc v = record { seen = v; fresh = 0 }
take_slot (some s) pc v = record {
  seen = record { slots = set_slot s pc v.slots; count = (v.count + 1) % 2 ^ 32 };
  fresh = 1;
}

unfoldable pub kseen_add : ℕ → SeenSet → Added
kseen_add pc v = take_slot (find_slot 64 (hash pc) pc v.slots) pc v

-- The PCs of one load.
unfoldable pub kseen_add_all : List ℕ → SeenSet → Added
kseen_add_all [] v = record { seen = v; fresh = 0 }
kseen_add_all (pc ∷ pcs) v =
    let one = kseen_add pc v in
    let rest = kseen_add_all pcs one.seen in
    record { seen = rest.seen; fresh = (one.fresh + rest.fresh) % 2 ^ 32 }

-- FZ_CORPUS_MAX.
abbrev pub corpus_max : ℕ
corpus_max = 4096

-- struct fz_entry.
pub record Entry : Type 0 where
  pub genome : Genome
  pub new_pcs : ℕ

-- An entry of the array, which calloc cleared.
unfoldable pub entry_genome : Option Entry → Genome
entry_genome none = record { hi = 0; genes = [] }
entry_genome (some e) = e.genome

unfoldable pub mutate_one : List Entry → Rand Genome
mutate_one es = do at ← pick (length es); mutate (entry_genome (get_elem? es at))

unfoldable pub next_genome : List Entry → Rand Genome
next_genome [] = genome_random
next_genome (e ∷ es) = do d ← pick 10; if ltb d 8 then mutate_one (e ∷ es) else genome_random

unfoldable pub keep : ℕ → Genome → List Entry → List Entry
keep fresh g es =
    if ltb 0 fresh && ltb (length es) corpus_max
    then es ++ record { genome = g; new_pcs = fresh } ∷ []
    else es

-- What the loop of run_fuzz carries from one round to the next.
pub record Fuzz : Type 0 where
  pub rng : ℕ
  pub corpus : List Entry
  pub seen : SeenSet

-- One round: `pcs` is what the load of the genome's program covered.
unfoldable pub round : (Genome → List ℕ) → Fuzz → Fuzz
round pcs f =
    let d = next_genome f.corpus f.rng in
    let a = kseen_add_all (pcs d.value) f.seen in
    record { rng = d.rng; corpus = keep a.fresh d.value f.corpus; seen = a.seen }
