-- ===== src/Gen/Comp/Walk/Whole.antt =====
-- The walk that chooses the pieces.
use verifierloop.Base.{
  ℕ, zero, suc, ◌+◌, ◌*◌, ◌<◌, ◌≤◌, ◌≡◌, inl, inr, Bool, true, false, not, List, [], ◌∷◌, length,
  All, ◌==◌, ltb,
}
use verifierloop.Base.{arith, Bool-cases}
use verifierloop.Gen.Comp.{Piece, pieces, Ctx, comp_can}
use verifierloop.Gen.Comp.Draw.Gives.{Gives, Gives-give, Gives-more, Gives-bind}
use verifierloop.Gen.Comp.Code.{Kernel}
use verifierloop.Gen.Comp.Walk.{
  comp_emit, Tables, Walk, number, select, avail, or_else, best, nth, choose, rounds, max_steps,
}
use verifierloop.Gen.Comp.Walk.Frame.{IsCtx, IsDraft}
use verifierloop.Gen.Comp.Walk.Draws.{after_pick, comp_emit-IsDraft}

All-select :
    (P : Piece → Type 0) (f : Piece → Bool) (ps : List Piece) → All P ps → All P (select f ps)
All-select P f [] h = tt
All-select P f (p ∷ ps) (x, h) = elim (Bool-cases (f p)) [
  | inl e ↦ rw e (x, All-select P f ps h)
  | inr e ↦ rw e (All-select P f ps h)
]

pub select-All : (f : Piece → Bool) (ps : List Piece) → All (λ p. f p ≡ true) (select f ps)
select-All f [] = tt
select-All f (p ∷ ps) = elim (Bool-cases (f p)) [
  | inl e ↦ rw e (e, select-All f ps)
  | inr e ↦ rw e (select-All f ps)
]

All-nth : (P : Piece → Type 0) (ps : List Piece) (i : ℕ) → All P ps → i < length ps → P (nth ps i)
All-nth P [] i h few = absurd (omega (arith, few))
All-nth P (p ∷ ps) zero (x, h) few = x
All-nth P (p ∷ ps) (suc i) (x, h) few = All-nth P ps i h (omega (arith, few))

-- What holds of two lists holds of the first that is not empty.
or_else-Both : (P : List Piece → Type 0) (ps qs : List Piece) → P ps → P qs → P (or_else ps qs)
or_else-Both P [] qs h k = k
or_else-Both P (p ∷ ps) qs h k = h

or_else-length : (ps qs : List Piece) → 0 < length qs → 0 < length (or_else ps qs)
or_else-length [] qs h = h
or_else-length (p ∷ ps) qs h = omega arith

best-All :
    (P : Piece → Type 0) (seen : Tables) (recipe ps : List Piece)
    → All P ps
    → All P (best seen recipe ps)
unfolding best
best-All P seen [] ps h = h
best-All P seen (a ∷ []) ps h = or_else-Both (All P) _ ps (All-select P _ ps h) h
best-All P seen (a ∷ b ∷ rest) ps h =
    or_else-Both (All P) _ _ (All-select P _ ps h)
      (or_else-Both (All P) _ ps (All-select P _ ps h) h)

best-length :
    (seen : Tables) (recipe ps : List Piece) → 0 < length ps → 0 < length (best seen recipe ps)
unfolding best
best-length seen [] ps h = h
best-length seen (a ∷ []) ps h =
    or_else-length (select (λ p. not (seen.pair (number a) (number p))) ps) ps h
best-length seen (a ∷ b ∷ rest) ps h =
    or_else-length (select (λ p. not (seen.triple (number b) (number a) (number p))) ps) _
      (or_else-length (select (λ p. not (seen.pair (number a) (number p))) ps) ps h)

avail-length : (c : Ctx) → IsCtx c → 0 < length (avail c)
unfolding avail comp_can
avail-length c h = rw h.regs (omega arith)

avail-All : (c : Ctx) → All (λ p. comp_can c p ≡ true) (avail c)
unfolding avail
avail-All c = select-All (comp_can c) pieces

-- After `m` rounds.
pub record IsWalk (m : ℕ) (w : Walk) : Type 0 where
  pub draft : IsDraft m w.draft
  pub recipe : length w.recipe ≡ m

-- How often `n` rounds draw, at most.
abbrev pub walk_draws : ℕ → ℕ → ℕ
walk_draws limit zero = 0
walk_draws limit (suc n) = (4 + 2 * limit) + walk_draws limit n

pub walk_draws-le : (limit m n : ℕ) → m ≤ n → walk_draws limit m ≤ walk_draws limit n
walk_draws-le limit zero n h = omega arith
walk_draws-le limit (suc m) zero h = absurd (omega (arith, h))
walk_draws-le limit (suc m) (suc n) h = omega (arith, walk_draws-le limit m n (omega (arith, h)))

-- The walk does not stop early: there is room, and a piece that may run.
room : (m : ℕ) (w : Walk) → IsWalk m w → m < max_steps → ltb (length w.draft.ins) 130 ≡ true
room m w h few =
    let fits : length w.draft.ins < 130 = omega (arith, h.draft.room, few) in ground (arith, fits)

offers : (m : ℕ) (w : Walk) → IsWalk m w → (length (avail w.draft.ctx) == 0) ≡ false
offers m w h =
    let some_piece : 0 < length (avail w.draft.ctx) = avail-length w.draft.ctx h.draft.ctx in
    ground (arith, some_piece)

module _ (limit : ℕ) (some_try : 0 < limit) (k : Kernel) where
  choose-IsWalk :
      (m : ℕ) (w : Walk)
      → IsWalk m w
      → Gives limit
          (IsWalk (suc m))
          (4 + 2 * limit)
          (choose limit k (best w.seen w.recipe (avail w.draft.ctx)) w)
  unfolding choose
  choose-IsWalk m w h =
      let ps = best w.seen w.recipe (avail w.draft.ctx) in
      Gives-more limit (IsWalk (suc m)) (1 + ((3 + 2 * limit) + 0)) (4 + 2 * limit) _ (omega arith)
        (after_pick limit (IsWalk (suc m)) (length ps) ((3 + 2 * limit) + 0) _
          (best-length w.seen w.recipe _ (avail-length w.draft.ctx h.draft.ctx))
          (λ i few.
            Gives-bind limit (IsDraft (suc m)) (IsWalk (suc m)) (3 + 2 * limit) 0
              (comp_emit limit k (nth ps i) w.draft) _
              (comp_emit-IsDraft limit some_try m w.draft h.draft k (nth ps i)
                (All-nth _ ps i (best-All _ w.seen w.recipe _ (avail-All w.draft.ctx)) few))
              (λ v x.
                Gives-give limit (IsWalk (suc m)) _
                  (record { draft = x; recipe = omega (arith, h.recipe) }))))

  -- No round ends the walk early.
  pub rounds-IsWalk :
      (n m total : ℕ) (w : Walk)
      → m + n ≡ total
      → total ≤ max_steps
      → IsWalk m w
      → Gives limit (IsWalk total) (walk_draws limit n) (rounds limit k n w)
  unfolding rounds
  rounds-IsWalk zero m total w sum few h =
      let same : m ≡ total = omega (arith, sum) in Gives-give limit (IsWalk total) w (rw same at h)
  rounds-IsWalk (suc n) m total w sum few h =
      rw (room m w h (omega (arith, sum, few)), offers m w h)
        (Gives-bind limit (IsWalk (suc m)) (IsWalk total) (4 + 2 * limit) (walk_draws limit n)
          (choose limit k (best w.seen w.recipe (avail w.draft.ctx)) w) _ (choose-IsWalk m w h)
          (λ v x. rounds-IsWalk n (suc m) total v (omega (arith, sum)) few x))
