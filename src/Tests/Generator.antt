-- ===== src/Tests/Generator.antt =====
-- The generator at concrete inputs.
use verifierloop.Base.{ℕ, ◌≤◌, ◌≡◌, true, false, List, [], ◌∷◌, ◌++◌, length, some, refl, arith}
use verifierloop.Live
use verifierloop.Live.{Kfunc, kfunc_argc, analysed}
use verifierloop.Gate.{encoded}
use verifierloop.Gen.Coding.{coded}
use verifierloop.Gen.Genome.{Genome, genome_random, mutate}
use verifierloop.Gen.Genome.Valid.{IsGenome, genome_random-IsGenome, mutate-IsGenome}
use verifierloop.Gen.Body.{IterIds, max_stores}
use verifierloop.Gen.Genome.{max_genes}
use verifierloop.Gen.Emit.Laid.{IterKnown}
use verifierloop.Gen.Program.{program, body_of}
use verifierloop.Gen.Program.Accepted.{program_fits, program-IsAccepted}
use verifierloop.Gen.Fuzz.{SeenSet, kseen_add_all, Fuzz, round, next_genome}
use verifierloop.Gen.Fuzz.Seen.{kseen_add_all_again}
use verifierloop.Gen.Replay.{parse_genome, parsed, print_genome}
use verifierloop.Gen.Replay.RoundTrip.{IsPrintable, IsBytes, parse_genome-print}
use verifierloop.Base.{◌↔◌}
use verifierloop.Gen.Families.{emit_spill_shape, family_program, prune, spl_delta32}
use verifierloop.Gen.Families.Inside.{StaysIn, emit_spill_shape-StaysIn}
use verifierloop.Gen.Checks.{Passes}
use verifierloop.Gen.Families.Accepted.{family_program-Passes}
use verifierloop.Gen.Shapers.{
  sh_w63, sh_t6, prune_shaper_is_safe, StaysInside, prune_shaper_is_safe_iff,
}
use verifierloop.Gen.Links.{idp_tied8, idpart_narrows_r9, FollowsR6, idpart_narrows_r9_iff}
use verifierloop.Gen.Fuzz.Corpus.{IsCorpus, round-IsCorpus}

abbrev first_seed : ℕ
first_seed = 0x9e3779b9

genome_random-IsGenome_example :
    IsGenome (genome_random first_seed).value × (length (genome_random first_seed).value.genes ≤ 20)
genome_random-IsGenome_example = genome_random-IsGenome first_seed

abbrev first_genome : Genome
first_genome = (genome_random first_seed).value

mutate-IsGenome_example : IsGenome (mutate first_genome 7).value
mutate-IsGenome_example = mutate-IsGenome first_genome 7 ((genome_random-IsGenome first_seed).0)

abbrev iterator : IterIds
iterator = record { new_id = 101; next_id = 102; destroy_id = 103 }

abbrev arities : List Kfunc
arities =
    record { btf_id = 101; argc = 3 }
    ∷ record { btf_id = 102; argc = 1 }
    ∷ record { btf_id = 103; argc = 1 }
    ∷ []

iterator_known : IterKnown arities (some iterator)
unfolding kfunc_argc
iterator_known = ((3, refl), (1, refl), (1, refl))

program_fits_example :
    (length (program (some iterator) 3 4 0 0 first_genome) ≤ 157)
    × (length (body_of (some iterator) 3 4 0 0 first_genome).jexit ≤ max_genes)
    × (length (body_of (some iterator) 3 4 0 0 first_genome).stores ≤ max_stores)
program_fits_example = program_fits (some iterator) 3 4 0 0 first_genome

program-IsAccepted_example :
    ((live : List ℕ) × (Live.run arities (program (some iterator) 3 4 0 0 first_genome)
        ≡ analysed live))
    × (encoded false (program (some iterator) 3 4 0 0 first_genome) ≡ true)
    × (coded false (program (some iterator) 3 4 0 0 first_genome) ≡ true)
program-IsAccepted_example =
    program-IsAccepted (some iterator) 3 4 0 0 first_genome arities iterator_known

abbrev nothing_seen : SeenSet
nothing_seen = record { slots = λ _. 0; count = 0 }

kseen_add_all_again_example :
    kseen_add_all
      (5 ∷ 9 ∷ 5 ∷ [])
      (kseen_add_all (7 ∷ 9 ∷ []) (kseen_add_all (5 ∷ 9 ∷ 5 ∷ []) nothing_seen).seen).seen
    ≡ record {
      seen = (kseen_add_all (7 ∷ 9 ∷ []) (kseen_add_all (5 ∷ 9 ∷ 5 ∷ []) nothing_seen).seen).seen;
      fresh = 0;
    }
kseen_add_all_again_example =
    kseen_add_all_again (5 ∷ 9 ∷ 5 ∷ []) (7 ∷ 9 ∷ []) nothing_seen (refl, (refl, (refl, tt)))

abbrev one_round : Fuzz
one_round = record {
  rng = first_seed;
  corpus = record { genome = first_genome; new_pcs = 2 } ∷ [];
  seen = nothing_seen;
}

abbrev coverage : Genome → List ℕ
coverage g = length g.genes ∷ 9 ∷ []

one_entry-IsCorpus : IsCorpus one_round.corpus
one_entry-IsCorpus = record {
  entries = ((genome_random-IsGenome first_seed).0, tt);
  small = omega arith;
}

round-IsCorpus_example :
    IsCorpus (round coverage one_round).corpus
    × IsGenome (next_genome one_round.corpus one_round.rng).value
round-IsCorpus_example = round-IsCorpus coverage one_round one_entry-IsCorpus

abbrev two_genes : Genome
two_genes = record {
  hi = 1;
  genes =
      record { st = 11; a = 2; b = 0; k = 15; opt = 63 }
      ∷ record { st = 0; a = 1; b = 1; k = 3; opt = 0 }
      ∷ [];
}

two_genes-IsPrintable : IsPrintable two_genes
two_genes-IsPrintable =
    let first : IsBytes (record { st = 11; a = 2; b = 0; k = 15; opt = 63 }) = record {
      st = omega arith;
      a = omega arith;
      b = omega arith;
      k = omega arith;
      opt = omega arith;
    } in
    let second : IsBytes (record { st = 0; a = 1; b = 1; k = 3; opt = 0 }) = record {
      st = omega arith;
      a = omega arith;
      b = omega arith;
      k = omega arith;
      opt = omega arith;
    } in
    record {
      hi = omega arith;
      genes = (first, (second, tt));
      some_gene = omega arith;
      few = omega arith;
    }

parse_genome-print_example :
    parse_genome ((b'a' ∷ b' ' ∷ []) ++ (print_genome two_genes ++ 10 ∷ [])) ≡ parsed two_genes
parse_genome-print_example =
    parse_genome-print two_genes (b'a' ∷ b' ' ∷ []) (10 ∷ []) two_genes-IsPrintable
      (refl, (refl, tt)) (record { apart = refl; no_comma = (refl, tt) })

prune_shaper_is_safe_iff_example : (prune_shaper_is_safe sh_t6 ≡ true) ↔ StaysInside sh_t6
prune_shaper_is_safe_iff_example = prune_shaper_is_safe_iff sh_t6

idpart_narrows_r9_iff_example : (idpart_narrows_r9 idp_tied8 ≡ true) ↔ FollowsR6 idp_tied8
idpart_narrows_r9_iff_example = idpart_narrows_r9_iff idp_tied8

family_program-Passes_example : Passes (family_program (prune sh_t6 sh_w63 true) 3 4)
family_program-Passes_example = family_program-Passes 3 4 (prune sh_t6 sh_w63 true)

emit_spill_shape-StaysIn_example : (true ≡ true) ↔ StaysIn (emit_spill_shape spl_delta32 true) 9 44
emit_spill_shape-StaysIn_example = emit_spill_shape-StaysIn false true true
