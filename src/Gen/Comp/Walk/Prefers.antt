-- ===== src/Gen/Comp/Walk/Prefers.antt =====
-- The direction of the walk: which of the pieces that may run it chooses from.
use verifierloop.Base.{
  ◌≡◌, ◌⊎◌, inl, inr, Bool, true, false, not, List, [], ◌∷◌, All, arith, refl, Bool-cases,
}
use verifierloop.Gen.Emit.Laid.{All-map}
use verifierloop.Gen.Comp.{Piece}
use verifierloop.Gen.Comp.Walk.{Tables, number, select, or_else, best}
use verifierloop.Gen.Comp.Walk.Whole.{select-All}

select_none : (f : Piece → Bool) (ps : List Piece) → select f ps ≡ [] → All (λ q. f q ≡ false) ps
select_none f [] h = tt
select_none f (p ∷ ps) h = elim (Bool-cases (f p)) [
  | inl e ↦ absurd (grind (arith, rw e at h))
  | inr e ↦ (e, select_none f ps (rw e at h))
]

-- A piece with `f`, or no piece has it and the next choice decides.
abbrev pub First : (Piece → Bool) → List Piece → (Piece → Type 0) → Piece → Type 0
First f ps Q p = (f p ≡ true) ⊎ (All (λ q. f q ≡ false) ps × Q p)

or_else-First :
    (f : Piece → Bool) (ps qs : List Piece) (Q : Piece → Type 0)
    → All Q qs
    → All (First f ps Q) (or_else (select f ps) qs)
or_else-First f ps qs Q h = go (select f ps) refl (select-All f ps)
  where
    go :
        (xs : List Piece)
        → select f ps ≡ xs
        → All (λ p. f p ≡ true) xs
        → All (First f ps Q) (or_else xs qs)
    go [] e k = All-map Q (First f ps Q) qs (λ p x. inr (select_none f ps e, x)) h
    go (x ∷ xs) e k = All-map (λ p. f p ≡ true) (First f ps Q) (x ∷ xs) (λ p y. inl y) k

abbrev pub new_pair : Tables → Piece → Piece → Bool
new_pair seen a p = not (seen.pair (number a) (number p))

abbrev pub new_triple : Tables → Piece → Piece → Piece → Bool
new_triple seen b a p = not (seen.triple (number b) (number a) (number p))

abbrev pub Any : Piece → Type 0
Any p = Unit

All-Any : (ps : List Piece) → All Any ps
All-Any [] = tt
All-Any (p ∷ ps) = (tt, All-Any ps)

-- After `b` and then `a`, every piece that the walk chooses from makes a triple that no program had,
-- or there is no such piece and it makes a pair that no program had, or there is no such piece either.
pub best-First :
    (seen : Tables) (a b : Piece) (rest ps : List Piece)
    → All
        (First (new_triple seen b a) ps (First (new_pair seen a) ps Any))
        (best seen (a ∷ b ∷ rest) ps)
unfolding best
best-First seen a b rest ps =
    or_else-First (new_triple seen b a) ps _ (First (new_pair seen a) ps Any)
      (or_else-First (new_pair seen a) ps ps Any (All-Any ps))
