-- ===== src/Gen/Comp/Draw/Gives.antt =====
-- A drawing computation gives a value, from every state that is fair for as many draws as it makes.
use verifierloop.Base.{
  ℕ, zero, suc, ◌+◌, ◌%◌, ◌^◌, ◌<◌, ◌≤◌, ◌≡◌, ◌⊎◌, inl, inr, true, false, List, [], ◌∷◌, get_or,
}
use verifierloop.Base.{some, ◌==◌, arith, refl, Bool-cases, sym, ◌∙◌}
use mathlib.Core.Bool.{false≢true}
use verifierloop.Gen.Genome.{Drawn, pick, xorshift}
use verifierloop.Gen.Genome.Valid.{pick-lt}
use verifierloop.Gen.Comp.Draw.{
  Draw, give, ◌>>=◌, comp_pick, candidates, comp_scalar_reg, one_of, redraw,
}
use verifierloop.Gen.Comp.Draw.Fair.{Fair, wait, wait-le, Fair-weaken, Fair-draw}

-- The registers that hold a scalar, all through the walk.
abbrev pub scalars : ℕ
scalars = 2 ^ 6 + 2 ^ 7 + 2 ^ 9

abbrev pub IsScalar : ℕ → Type 0
IsScalar r = (r ≡ 6) ⊎ ((r ≡ 7) ⊎ (r ≡ 9))

abbrev pub scalar : ℕ → ℕ
scalar i = get_or (6 ∷ 7 ∷ 9 ∷ []) i 0

scalar_cases : (i : ℕ) → i < 3 → IsScalar (scalar i)
scalar_cases zero h = inl refl
scalar_cases (suc zero) h = inr (inl refl)
scalar_cases (suc (suc zero)) h = inr (inr refl)
scalar_cases (suc (suc (suc i))) h = absurd (omega arith)

apart :
    (avoid : List ℕ) (i q : ℕ)
    → one_of (scalar i) avoid ≡ true
    → one_of (scalar q) avoid ≡ false
    → (i == q) ≡ false
apart avoid i q e free = elim (Bool-cases (i == q)) [
  | inl t ↦ absurd (false≢true (sym free ∙ rw (eq_of t) at e))
  | inr t ↦ t
]
  where
    eq_of : {i q : ℕ} → (i == q) ≡ true → i ≡ q
    eq_of t = ground (arith, t)

module _ (limit : ℕ) where
  -- The computation gives a value of `P` from `rng`, and leaves `rest` draws fair.
  abbrev pub GivesAt {ℓ} : {A : Type ℓ} → (A → Type 0) → Draw A → ℕ → ℕ → Type ℓ
  GivesAt {A = A} P m rest rng =
      (d : Drawn A) × (m rng ≡ some d) × P d.value × Fair limit rest d.rng

  abbrev pub Gives {ℓ} : {A : Type ℓ} → (A → Type 0) → ℕ → Draw A → Type ℓ
  Gives P n m = (rest rng : ℕ) → Fair limit (n + rest) rng → GivesAt P m rest rng

  pub Gives-give {ℓ} : {A : Type ℓ} (P : A → Type 0) (a : A) → P a → Gives P 0 (give a)
  Gives-give P a p rest rng f =
      (record { value = a; rng = rng }, refl, p, Fair-weaken rest (omega arith) f)

  pub Gives-more {ℓ} :
      {A : Type ℓ} (P : A → Type 0) (a b : ℕ) (m : Draw A) → a ≤ b → Gives P a m → Gives P b m
  Gives-more P a b m h k rest rng f = k rest rng (Fair-weaken (a + rest) (omega (arith, h)) f)

  pub Gives-bind {ℓ κ} :
      {A : Type ℓ} {B : Type κ} (P : A → Type 0) (Q : B → Type 0) (a b : ℕ) (m : Draw A)
      (f : A → Draw B)
      → Gives P a m
      → ((x : A) → P x → Gives Q b (f x))
      → Gives Q (a + b) (m >>= f)
  Gives-bind P Q a b m f h k rest rng fair =
      let (d, e, p, fair2) = h (b + rest) rng (Fair-weaken (a + (b + rest)) (omega arith) fair) in
      let (d2, e2, q, fair3) = k d.value p rest d.rng fair2 in (d2, rw e e2, q, fair3)

  pub comp_pick-Gives : (n : ℕ) → 0 < n → Gives (λ v. v < n) 1 (comp_pick n)
  unfolding comp_pick pick
  comp_pick-Gives n h rest rng f =
      (pick n rng, refl, pick-lt n rng h, (Fair-draw (Fair-weaken (suc rest) (omega arith) f)).0)

  pub comp_scalar_reg-Gives : Gives IsScalar 1 (comp_scalar_reg scalars)
  unfolding comp_scalar_reg candidates
  comp_scalar_reg-Gives =
      Gives-bind (λ v. v < 3) IsScalar 1 0 (comp_pick 3) _ (comp_pick-Gives 3 (omega arith))
        (λ i h. Gives-give IsScalar (scalar i) (scalar_cases i h))

  -- A register of the three is not to be avoided, so it is drawn before the tries end.
  redraw_from :
      (avoid : List ℕ) (q : ℕ) (n tries rest rng : ℕ)
      → q < 3
      → one_of (scalar q) avoid ≡ false
      → 0 < tries
      → tries + rest ≤ n
      → (f : Fair limit n rng) → wait f q ≤ tries
      → GivesAt (λ r. IsScalar r × (one_of r avoid ≡ false)) (redraw tries scalars avoid) rest rng
  unfolding redraw comp_scalar_reg candidates comp_pick pick
  redraw_from avoid q n zero rest rng few free some_try room f h = absurd (omega (arith, some_try))
  redraw_from avoid q zero (suc tries) rest rng few free some_try room f h =
      absurd (omega (arith, room))
  redraw_from avoid q (suc n) (suc tries) rest rng few free some_try room f h =
      let i = xorshift rng % 3 in
      let (g, waited) = Fair-draw f in
      elim (Bool-cases (one_of (scalar i) avoid)) [
        | inl e ↦
            let (more, less) = waited q few (apart avoid i q e free) in
            rw e (
              redraw_from avoid q n tries rest (xorshift rng) few free (omega (arith, h, more))
                (omega (arith, room)) g (omega (arith, less, h, more)))
        | inr e ↦ rw e (
          record { value = scalar i; rng = xorshift rng },
          refl,
          (scalar_cases i (pick-lt 3 rng (omega arith)), e),
          Fair-weaken rest (omega (arith, room)) g,
        )
      ]

  pub redraw-Gives :
      (avoid : List ℕ) (q : ℕ)
      → q < 3
      → one_of (scalar q) avoid ≡ false
      → 0 < limit
      → Gives (λ r. IsScalar r × (one_of r avoid ≡ false)) limit (redraw limit scalars avoid)
  redraw-Gives avoid q few free some_try rest rng f =
      redraw_from avoid q (limit + rest) limit rest rng few free some_try (omega arith) f
        (wait-le f q)
