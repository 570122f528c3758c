-- ===== src/Claim/Hull.antt =====
-- harness/bpfclaim.h, bpfclaim_at: the claim is the union over every occurrence.
use verifierloop.Base.{ℕ, ◌+◌, ◌-◌, ◌^◌, ◌≤◌, ◌<◌, ◌≡◌, true, false, List, [], ◌∷◌, All}
use verifierloop.Base.{Option, none, some, ◌==◌, arith, refl, ◌∙◌, ◌↔◌, inl, inr, ◌⊎◌, length}
use verifierloop.Claim.{
  Libc, Reading, bounds, unreadable, Line, line_reading, lines, Union, take_reading, take_line,
  walk,
}
use verifierloop.Claim.{claim_ok, claim_absent, claim_unparsed, Claim, conclude, no_union, claim_at}

-- What the occurrences say, in the order of the log.
abbrev pub add_reading : Option Reading → List Reading → List Reading
add_reading none rs = rs
add_reading (some r) rs = r ∷ rs

abbrev pub readings : Libc → ℕ → ℕ → List Line → List Reading
readings lc insn reg [] = []
readings lc insn reg (l ∷ ls) = add_reading (line_reading lc insn reg l) (readings lc insn reg ls)

take_all : List Reading → Union → Union
take_all [] u = u
take_all (r ∷ rs) u = take_all rs (take_reading r u)

take_all-add_reading :
    (o : Option Reading) (rs : List Reading) (u : Union)
    → take_all rs (take_line o u) ≡ take_all (add_reading o rs) u
unfolding take_all
take_all-add_reading none rs u = refl
take_all-add_reading (some r) rs u = refl

walk-eq-take_all :
    (lc : Libc) (insn reg : ℕ) (ls : List Line) (u : Union)
    → walk lc insn reg ls u ≡ take_all (readings lc insn reg ls) u
unfolding walk take_all
walk-eq-take_all lc insn reg [] u = refl
walk-eq-take_all lc insn reg (l ∷ ls) u =
    let r = line_reading lc insn reg l in
    walk-eq-take_all lc insn reg ls (take_line r u)
    ∙ take_all-add_reading r (readings lc insn reg ls) u

abbrev pub IsReadable : Reading → Type 0
IsReadable (bounds a b) = Unit
IsReadable unreadable = ⊥

-- The interval from `lo` to `hi` holds the bounds of a reading.
abbrev pub Holds : ℕ → ℕ → Reading → Type 0
Holds lo hi (bounds a b) = (lo ≤ a) × (b ≤ hi)
Holds lo hi unreadable = ⊥

-- The bounds are 64-bit patterns.
abbrev pub IsWord : Reading → Type 0
IsWord (bounds a b) = (a < 2 ^ 64) × (b < 2 ^ 64)
IsWord unreadable = Unit

-- What the claim says of the readings `rs`.
pub record IsHull (rs : List Reading) (c : Claim) : Type 0 where
  pub unparsed : (c.status ≡ claim_unparsed) ↔ ¬ All IsReadable rs
  pub absent : (c.status ≡ claim_absent) ↔ (rs ≡ [])
  pub holds : c.status ≡ claim_ok → All (Holds c.umin c.umax) rs
  pub least :
      (lo hi : ℕ) → c.status ≡ claim_ok → All (Holds lo hi) rs → (lo ≤ c.umin) × (c.umax ≤ hi)

IsReadable-or : (rs : List Reading) → All IsReadable rs ⊎ (¬ All IsReadable rs)
IsReadable-or [] = inl tt
IsReadable-or (bounds a b ∷ rs) = elim (IsReadable-or rs) [
  | inl h ↦ inl (tt, h)
  | inr h ↦ inr (λ (_, k). h k)
]
IsReadable-or (unreadable ∷ rs) = inr (λ (k, _). k)

take_all-unparsed_le : (rs : List Reading) (u : Union) → u.unparsed ≤ (take_all rs u).unparsed
unfolding take_all take_reading
take_all-unparsed_le [] u = omega arith
take_all-unparsed_le (bounds a b ∷ rs) u = take_all-unparsed_le rs (take_reading (bounds a b) u)
take_all-unparsed_le (unreadable ∷ rs) u =
    let le = take_all-unparsed_le rs (take_reading unreadable u) in omega (arith, le)

take_all-unreadable :
    (rs : List Reading) (u : Union) → ¬ All IsReadable rs → u.unparsed < (take_all rs u).unparsed
unfolding take_all take_reading
take_all-unreadable [] u h = absurd (h tt)
take_all-unreadable (bounds a b ∷ rs) u h =
    take_all-unreadable rs (take_reading (bounds a b) u) (λ k. h (tt, k))
take_all-unreadable (unreadable ∷ rs) u h =
    let le = take_all-unparsed_le rs (take_reading unreadable u) in omega (arith, le)

take_all-readable :
    (rs : List Reading) (u : Union)
    → All IsReadable rs
    → ((take_all rs u).unparsed ≡ u.unparsed) × ((take_all rs u).seen ≡ u.seen + length rs)
unfolding take_all take_reading
take_all-readable [] u h = (refl, omega arith)
take_all-readable (bounds a b ∷ rs) u (_, h) =
    let (same, more) = take_all-readable rs (take_reading (bounds a b) u) h in
    (same, omega (arith, more))
take_all-readable (unreadable ∷ rs) u (f, h) = absurd f

take_all-widens :
    (rs : List Reading) (u : Union) → ((take_all rs u).lo ≤ u.lo) × (u.hi ≤ (take_all rs u).hi)
unfolding take_all take_reading
take_all-widens [] u = (omega arith, omega arith)
take_all-widens (bounds a b ∷ rs) u =
    let (l, h) = take_all-widens rs (take_reading (bounds a b) u) in
    (ground (arith, l), ground (arith, h))
take_all-widens (unreadable ∷ rs) u = take_all-widens rs (take_reading unreadable u)

take_all-Holds :
    (rs : List Reading) (u : Union)
    → All IsReadable rs
    → All (Holds (take_all rs u).lo (take_all rs u).hi) rs
unfolding take_all take_reading
take_all-Holds [] u h = tt
take_all-Holds (bounds a b ∷ rs) u (_, h) =
    let (lo, hi) = take_all-widens rs (take_reading (bounds a b) u) in
    ((ground (arith, lo), ground (arith, hi)), take_all-Holds rs (take_reading (bounds a b) u) h)
take_all-Holds (unreadable ∷ rs) u (f, h) = absurd f

take_all-least :
    (lo hi : ℕ) (rs : List Reading) (u : Union)
    → lo ≤ u.lo
    → u.hi ≤ hi
    → All (Holds lo hi) rs
    → (lo ≤ (take_all rs u).lo) × ((take_all rs u).hi ≤ hi)
unfolding take_all take_reading
take_all-least lo hi [] u l h k = (l, h)
take_all-least lo hi (bounds a b ∷ rs) u l h ((p, q), k) =
    take_all-least lo hi rs (take_reading (bounds a b) u) (ground arith) (ground arith) k
take_all-least lo hi (unreadable ∷ rs) u l h (f, k) = absurd f

-- The start of the union is wider than every word.
start_least :
    (lo hi : ℕ) (r : Reading) (rs : List Reading)
    → All IsWord (r ∷ rs)
    → All (Holds lo hi) (r ∷ rs)
    → lo ≤ 2 ^ 64 - 1
start_least lo hi (bounds a b) rs ((x, y), w) ((p, q), k) = omega arith
start_least lo hi unreadable rs w (f, k) = absurd f

conclude-unreadable :
    (rs : List Reading) → ¬ All IsReadable rs → IsHull rs (conclude (take_all rs no_union))
unfolding conclude
conclude-unreadable rs h =
    let more : ((take_all rs no_union).unparsed == 0) ≡ false =
      let lt = take_all-unreadable rs no_union h in ground (arith, lt) in
    rw more (record {
      unparsed = (λ _. h, λ _. refl);
      absent = (λ e. cc, λ e. absurd (h (rw e tt)));
      holds = λ e. cc;
      least = λ lo hi e k. cc;
    })

conclude-readable :
    (rs : List Reading)
    → All IsWord rs
    → All IsReadable rs
    → IsHull rs (conclude (take_all rs no_union))
unfolding conclude take_all
conclude-readable [] w h = record {
  unparsed = (λ e. cc, λ f. absurd (f tt));
  absent = (λ _. refl, λ _. refl);
  holds = λ e. cc;
  least = λ lo hi e k. cc;
}
conclude-readable (r ∷ rs) w h =
    let v = take_all (r ∷ rs) no_union in
    let (same, count) = take_all-readable (r ∷ rs) no_union h in
    let none_lost : (v.unparsed == 0) ≡ true = ground (arith, same) in
    let some_seen : (v.seen == 0) ≡ false = ground (arith, count) in
    let holds = take_all-Holds (r ∷ rs) no_union h in
    rw (none_lost, some_seen)
      (record {
        unparsed = (λ e. cc, λ f. absurd (f h));
        absent = (λ e. cc, λ e. cc);
        holds = λ _. holds;
        least = λ lo hi e k.
            take_all-least lo hi (r ∷ rs) no_union (start_least lo hi r rs w k) (omega arith) k;
      })

-- What the claim says of the occurrences of an instruction, when the bounds that are read are 64-bit
-- patterns: it is unparsed exactly if some occurrence is unreadable, absent exactly if there is
-- none, and else its interval is the least one that holds the bounds of every occurrence.
pub claim_at-IsHull :
    (lc : Libc) (log : List ℕ) (insn reg : ℕ)
    → All IsWord (readings lc insn reg (lines log))
    → IsHull (readings lc insn reg (lines log)) (claim_at lc log insn reg)
unfolding claim_at
claim_at-IsHull lc log insn reg w =
    let rs = readings lc insn reg (lines log) in
    let split : IsHull rs (conclude (take_all rs no_union)) = elim (IsReadable-or rs) [
      | inl h ↦ conclude-readable rs w h
      | inr h ↦ conclude-unreadable rs h
    ] in
    rw (walk-eq-take_all lc insn reg (lines log) no_union) split
