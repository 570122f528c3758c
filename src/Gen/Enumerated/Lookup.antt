-- ===== src/Gen/Enumerated/Lookup.antt =====
-- A Boolean test holds of every row of a table.
use verifierloop.Base.{◌≡◌, Bool, true, List, [], ◌∷◌, All}
use verifierloop.Gen.Checks.{every, every-All}
use verifierloop.Gen.Enumerated.{
  GenAlu, GenCmp, gen_and, gen_or, gen_xor, gen_lsh, gen_rsh, gen_arsh, gen_add, gen_sub, gen_mul,
  gen_div, gen_mod, gen_jeq, gen_jne, gen_jgt, gen_jge, gen_jlt, gen_jle, gen_jsgt, gen_jsge,
  gen_jslt, gen_jsle, gen_jset,
}

abbrev pub gen_alus : List GenAlu
gen_alus =
    gen_and ∷ gen_or ∷ gen_xor ∷ gen_lsh ∷ gen_rsh ∷ gen_arsh ∷ gen_add ∷ gen_sub ∷ gen_mul
    ∷ gen_div ∷ gen_mod ∷ []

pub gen_alu_at : (f : GenAlu → Bool) → every f gen_alus ≡ true → (x : GenAlu) → f x ≡ true
gen_alu_at f h x = go x (every-All f gen_alus h)
  where
    go : (x : GenAlu) → All (λ x. f x ≡ true) gen_alus → f x ≡ true
    go gen_and (a, _) = a
    go gen_or (_, (a, _)) = a
    go gen_xor (_, (_, (a, _))) = a
    go gen_lsh (_, (_, (_, (a, _)))) = a
    go gen_rsh (_, (_, (_, (_, (a, _))))) = a
    go gen_arsh (_, (_, (_, (_, (_, (a, _)))))) = a
    go gen_add (_, (_, (_, (_, (_, (_, (a, _))))))) = a
    go gen_sub (_, (_, (_, (_, (_, (_, (_, (a, _)))))))) = a
    go gen_mul (_, (_, (_, (_, (_, (_, (_, (_, (a, _))))))))) = a
    go gen_div (_, (_, (_, (_, (_, (_, (_, (_, (_, (a, _)))))))))) = a
    go gen_mod (_, (_, (_, (_, (_, (_, (_, (_, (_, (_, (a, _))))))))))) = a

abbrev pub gen_cmps : List GenCmp
gen_cmps =
    gen_jeq ∷ gen_jne ∷ gen_jgt ∷ gen_jge ∷ gen_jlt ∷ gen_jle ∷ gen_jsgt ∷ gen_jsge ∷ gen_jslt
    ∷ gen_jsle ∷ gen_jset ∷ []

pub gen_cmp_at : (f : GenCmp → Bool) → every f gen_cmps ≡ true → (x : GenCmp) → f x ≡ true
gen_cmp_at f h x = go x (every-All f gen_cmps h)
  where
    go : (x : GenCmp) → All (λ x. f x ≡ true) gen_cmps → f x ≡ true
    go gen_jeq (a, _) = a
    go gen_jne (_, (a, _)) = a
    go gen_jgt (_, (_, (a, _))) = a
    go gen_jge (_, (_, (_, (a, _)))) = a
    go gen_jlt (_, (_, (_, (_, (a, _))))) = a
    go gen_jle (_, (_, (_, (_, (_, (a, _)))))) = a
    go gen_jsgt (_, (_, (_, (_, (_, (_, (a, _))))))) = a
    go gen_jsge (_, (_, (_, (_, (_, (_, (_, (a, _)))))))) = a
    go gen_jslt (_, (_, (_, (_, (_, (_, (_, (_, (a, _))))))))) = a
    go gen_jsle (_, (_, (_, (_, (_, (_, (_, (_, (_, (a, _)))))))))) = a
    go gen_jset (_, (_, (_, (_, (_, (_, (_, (_, (_, (_, (a, _))))))))))) = a
