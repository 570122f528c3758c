-- ===== src/Gen/Comp/Draw.antt =====
-- harness/diffharness.c, comp_rand, comp_pick and comp_scalar_reg. A computation that draws may loop
-- until a draw fits; it runs on a number of tries, and `none` says that they did not suffice.
pub mod Gives
pub mod Fair
use verifierloop.Base.{
  ℕ, zero, suc, ◌+◌, ◌%◌, ◌^◌, bit_and, Bool, true, false, ◌||◌, List, [], ◌∷◌, length, get_or,
}
use verifierloop.Base.{Option, none, some, ◌==◌, if◌then◌else◌}
use verifierloop.Gen.Genome.{Drawn, pick}

abbrev pub Draw {ℓ} : Type ℓ → Type ℓ
Draw A = ℕ → Option (Drawn A)

abbrev pub give {ℓ} : {A : Type ℓ} → A → Draw A
give a rng = some (record { value = a; rng = rng })

abbrev pub give_up {ℓ} : {A : Type ℓ} → Draw A
give_up rng = none

abbrev pub follow {ℓ κ} :
    {A : Type ℓ} {B : Type κ} → Option (Drawn A) → (A → Draw B) → Option (Drawn B)
follow none f = none
follow (some d) f = f d.value d.rng

infixl 5 ◌>>=◌
abbrev pub ◌>>=◌ {ℓ κ} : {A : Type ℓ} {B : Type κ} → Draw A → (A → Draw B) → Draw B
(m >>= f) rng = follow (m rng) f

unfoldable pub comp_pick : ℕ → Draw ℕ
comp_pick n rng = some (pick n rng)

abbrev pub in_regs : ℕ → ℕ → Bool
in_regs regs r = if bit_and regs (2 ^ r) == 0 then false else true

-- `cands`, from a register on.
unfoldable pub candidates : ℕ → ℕ → ℕ → List ℕ
candidates zero r regs = []
candidates (suc n) r regs =
    let rest = candidates n (suc r) regs in if in_regs regs r then r ∷ rest else rest

unfoldable pub comp_scalar_reg : ℕ → Draw ℕ
comp_scalar_reg regs = do
  i ← comp_pick (length (candidates 4 6 regs))
  give (get_or (candidates 4 6 regs) i 0)

abbrev pub one_of : ℕ → List ℕ → Bool
one_of r [] = false
one_of r (x ∷ xs) = r == x || one_of r xs

-- `do { r = comp_scalar_reg(c); } while (r is one of avoid)`.
unfoldable pub redraw : ℕ → ℕ → List ℕ → Draw ℕ
redraw zero regs avoid = give_up
redraw (suc tries) regs avoid = do
  r ← comp_scalar_reg regs
  let again = redraw tries regs avoid
  if one_of r avoid then again else give r
