-- ===== src/Gen/Checks.antt =====
-- The analysis of a program as a Boolean test, and tests of all the members of a list.
use verifierloop.Base.{◌≡◌, Bool, true, false, ◌&&◌, and_split, ℕ, List, [], ◌∷◌, All, refl}
use verifierloop.Base.{◌||◌, ◌==◌, length, ◌⊎◌, inl, inr, Bool-cases, arith}
use mathlib.Core.Bool.{false≢true}
use verifierloop.Insn.{Insn}
use verifierloop.Live
use verifierloop.Live.{Result, analysed, unsupported, live_at}
use verifierloop.Gen.Reach.{AllReached, reaches, reaches_all}

-- Of the registers that live analysis tracks, a program may read r1 before it writes it.
abbrev only_r1 : ℕ → Bool
only_r1 m = m == 0 || m == 0x002

abbrev starts_well : Result → Bool
starts_well (analysed live) = only_r1 (live_at live 0)
starts_well (unsupported at why) = false

abbrev pub passes : List Insn → Bool
passes ins = starts_well (Live.run [] ins) && reaches (length ins) 0 (0 ∷ []) ins

-- The analysis ends without a refusal; at the first instruction no register but r1 is live; and every
-- instruction can be reached.
abbrev pub Passes : List Insn → Type 0
Passes ins =
    ((live : List ℕ) × (Live.run [] ins ≡ analysed live)
      × ((live_at live 0 ≡ 0) ⊎ (live_at live 0 ≡ 0x002)))
    × AllReached ins

pub from_passes : (ins : List Insn) → passes ins ≡ true → Passes ins
from_passes ins h = go (Live.run [] ins) refl (and_split (starts_well (Live.run [] ins)) h).0
  where
    all : AllReached ins
    all = reaches_all ins (and_split (starts_well (Live.run [] ins)) h).1

    go : (r : Result) → Live.run [] ins ≡ r → starts_well r ≡ true → Passes ins
    go (analysed live) e k = elim (Bool-cases (live_at live 0 == 0)) [
      | inl z ↦ ((live, e, inl (ground arith)), all)
      | inr z ↦ ((live, e, inr (ground arith)), all)
    ]
    go (unsupported at why) e k = absurd (false≢true k)

unfoldable pub every {ℓ} : {A : Type ℓ} → (A → Bool) → List A → Bool
every f [] = true
every f (x ∷ xs) = f x && every f xs

pub every-All {ℓ} :
    {A : Type ℓ} (f : A → Bool) (xs : List A) → every f xs ≡ true → All (λ x. f x ≡ true) xs
unfolding every
every-All f [] h = tt
every-All f (x ∷ xs) h = let (now, later) = and_split (f x) h in (now, every-All f xs later)

abbrev pub both : (Bool → Bool) → Bool
both f = f true && f false

pub both_at : (f : Bool → Bool) → both f ≡ true → (b : Bool) → f b ≡ true
both_at f h true = (and_split (f true) h).0
both_at f h false = (and_split (f true) h).1
