-- ===== src/Gen/Comp/Finish/Runs.antt =====
-- The programs that run_comp_prog composes.
use verifierloop.Base.{
  ℕ, suc, ◌+◌, ◌*◌, ◌-◌, ◌<◌, ◌≤◌, ◌≡◌, ◌⊎◌, inl, inr, [], ◌∷◌, length, All, Option, none, some,
  ◌==◌, ◌≢◌, List, ◌++◌,
}
use verifierloop.Base.{arith, refl, ap, if◌then◌else◌, Bool-cases}
use verifierloop.Insn.{Insn, class_of}
use verifierloop.Gen.Insns.{alu64_reg, bpf_add}
use verifierloop.Gen.Layout.Kinds.{is_branch, branch_class}
use verifierloop.Gen.Comp.{Ctx}
use verifierloop.Gen.Comp.Draw.{give, ◌>>=◌, comp_pick}
use verifierloop.Gen.Comp.Draw.Gives.{Gives, Gives-give, Gives-more, Gives-bind, IsScalar}
use verifierloop.Gen.Comp.Code.{Kernel, Draft, put}
use verifierloop.Gen.Comp.Walk.{
  Tables, Walked, comp_walk, start_draft, start_ctx, comp_prologue, max_steps, rounds,
}
use verifierloop.Gen.Comp.Walk.Frame.{
  IsCtx, IsDraft, IsJump, SiteFits, put-Grows, site_kept, BoundFits,
}
use verifierloop.Gen.Comp.Walk.Whole.{IsWalk, rounds-IsWalk, walk_draws, walk_draws-le}
use verifierloop.Gen.Comp.Walk.Draws.{after_pick, after_scalar}
use verifierloop.Gen.Comp.Walk.Pieces.{narrow-IsDraft}
use verifierloop.Gen.Comp.Finish.{
  Store, Target, rebound, prove_again, store_off, comp_target, comp_value,
}

start_draft-IsDraft : (map_in map_out : ℕ) → IsDraft 0 (start_draft map_in map_out)
unfolding start_draft start_ctx comp_prologue is_branch branch_class class_of
start_draft-IsDraft map_in map_out = record {
  ctx = record {
    regs = refl;
    low = omega arith;
    high = omega arith;
    aligned = refl;
    map = refl;
    mem = inl refl;
    bound = tt;
  };
  room = omega arith;
  exits = omega arith;
  jumps = ((_, refl, refl), ((_, refl, refl), tt));
  site = tt;
}

-- The walk: a number of rounds, and what they leave.
abbrev pub IsWalked : Walked → Type 0
IsWalked d = (3 ≤ d.steps) × (d.steps ≤ max_steps) × IsWalk d.steps d.walk

-- The last instruction of a draft adds `r` to r8.
abbrev AddsLast : ℕ → Draft → Type 0
AddsLast r w = (before : List Insn) × (w.ins ≡ before ++ alu64_reg bpf_add 8 r ∷ [])

-- The offset past a register `r` that was added: where `r` is at most `b`, the last byte of the map
-- value is the furthest it reaches; without a bound of `r` it is 0.
abbrev FitsBound : ℕ → ℕ → Ctx → Type 0
FitsBound r off c =
    ((b : ℕ) → c.narrowed_max ≡ some b → c.narrow_reg ≡ some r → b + off ≡ comp_value - 1)
    × ((c.narrowed_max ≡ none) ⊎ (c.narrow_reg ≢ some r) → off ≡ 0)

-- A store through the slice lies in the slice, and in the map value; one through the map value and the
-- scalar register that the instruction before adds to it lies in the map value as long as that
-- register keeps its bound.
abbrev pub IsInside : Draft → Store → Type 0
IsInside w s =
    ((w.ctx.mem_reg ≡ some 8) × ((s.off < w.ctx.mem_size) × (s.base_off + s.off < comp_value)))
    ⊎ ((s.base_off ≡ 0)
        × ((r : ℕ) × IsScalar r × AddsLast r w × (s.off < comp_value) × FitsBound r s.off w.ctx))

pub record IsTarget (m : ℕ) (t : Target) : Type 0 where
  pub ctx : IsCtx t.draft.ctx
  pub size : length t.draft.ins ≤ 69 + 7 * m
  pub exits : length t.draft.jexit ≤ 4 + 2 * m
  pub jumps : All (IsJump t.draft.ins) t.draft.jexit
  pub site : SiteFits t.draft.ins t.draft.ctx.call_site
  pub reg : t.store.reg ≡ 8
  pub inside : IsInside t.draft t.store

IsDraft-suc : (m : ℕ) (w : Draft) → IsDraft m w → IsDraft (suc m) w
IsDraft-suc m w h = record {
  ctx = h.ctx;
  room = omega (arith, h.room);
  exits = omega (arith, h.exits);
  jumps = h.jumps;
  site = h.site;
}

store_off-lt : (r : ℕ) (bound reg : Option ℕ) → store_off r bound reg < comp_value
store_off-lt r none reg = omega arith
store_off-lt r (some b) reg = ground arith

store_off-bound :
    (r b : ℕ) (bound reg : Option ℕ)
    → BoundFits bound reg
    → bound ≡ some b
    → reg ≡ some r
    → b + store_off r bound reg ≡ comp_value - 1
store_off-bound r b none reg fits h k = grind (arith, h)
store_off-bound r b (some c) none fits h k = absurd fits
store_off-bound r b (some c) (some q) (few, x) h k =
    let e : c ≡ b = grind (arith, h) in
    let d : q ≡ r = grind (arith, k) in rw (e, d) (grind (arith, few, e))

store_off-free :
    (r : ℕ) (bound reg : Option ℕ) → (bound ≡ none) ⊎ (reg ≢ some r) → store_off r bound reg ≡ 0
store_off-free r none reg h = refl
store_off-free r (some b) none h = refl
store_off-free r (some b) (some q) (inl e) = absurd (grind (arith, e))
store_off-free r (some b) (some q) (inr ne) = elim (Bool-cases (q == r)) [
  | inl e ↦ let same : q ≡ r = ground arith in absurd (ne (ap some same))
  | inr e ↦ rw e refl
]

-- A bound that is drawn.
abbrev Chosen : Option ℕ → Type 0
Chosen none = Unit
Chosen (some b) = b ≤ 15

module _ (limit : ℕ) (some_try : 0 < limit) (k : Kernel) where
  pub comp_walk-IsWalk :
      (map_in map_out : ℕ) (seen : Tables)
      → Gives limit IsWalked
          (1 + walk_draws limit max_steps)
          (comp_walk limit k map_in map_out seen)
  unfolding comp_walk
  comp_walk-IsWalk map_in map_out seen =
      after_pick limit IsWalked 6 (walk_draws limit max_steps) _ (omega arith) (λ i few.
        Gives-more limit IsWalked (walk_draws limit (3 + i) + 0) (walk_draws limit max_steps) _
          (omega (arith, walk_draws-le limit (3 + i) max_steps (omega (arith, few))))
          (Gives-bind limit (IsWalk (3 + i)) IsWalked (walk_draws limit (3 + i)) 0
            (rounds limit k (3 + i) _) _
            (rounds-IsWalk limit some_try k (3 + i) 0 (3 + i) _ (omega arith) (omega (arith, few))
              (record { draft = start_draft-IsDraft map_in map_out; recipe = refl }))
            (λ w h. Gives-give limit IsWalked _ (omega arith, omega (arith, few), h))))

  chosen :
      (coin : ℕ)
      → Gives limit Chosen 1
          (if coin == 0 then give none else (do b ← comp_pick 15; give (some (1 + b))))
  chosen coin = elim (Bool-cases (coin == 0)) [
    | inl e ↦ rw e (Gives-more limit Chosen 0 1 _ (omega arith) (Gives-give limit Chosen none tt))
    | inr e ↦ rw e (
        after_pick limit Chosen 15 0 _ (omega arith)
          (λ b few. Gives-give limit Chosen (some (1 + b)) (omega (arith, few))))
  ]

  again :
      (m r : ℕ) (w : Draft) (o : Option ℕ)
      → IsScalar r
      → IsDraft m w
      → Chosen o
      → IsDraft (suc m) (prove_again r o w)
  again m r w none x h y = IsDraft-suc m w h
  again m r w (some b) x h y = narrow-IsDraft m r b w h x y

  rebound-IsDraft :
      (m r : ℕ) (w : Draft) (bound : Option ℕ)
      → IsScalar r
      → IsDraft m w
      → Gives limit (IsDraft (suc m)) 2 (rebound r bound w)
  unfolding rebound
  rebound-IsDraft m r w (some b) x h =
      Gives-more limit (IsDraft (suc m)) 0 2 _ (omega arith)
        (Gives-give limit (IsDraft (suc m)) w (IsDraft-suc m w h))
  rebound-IsDraft m r w none x h =
      after_pick limit (IsDraft (suc m)) 4 1 _ (omega arith) (λ coin few.
        Gives-bind limit Chosen (IsDraft (suc m)) 1 0 _ _ (chosen coin)
          (λ o y. Gives-give limit (IsDraft (suc m)) _ (again m r w o x h y)))

  pub comp_target-IsTarget :
      (m : ℕ) (w : Draft) (reg : Option ℕ)
      → IsDraft m w
      → reg ≡ w.ctx.mem_reg
      → Gives limit (IsTarget m) 3 (comp_target reg w)
  unfolding comp_target
  comp_target-IsTarget m w (some q) h same = elim h.ctx.mem [
    | inl e ↦ absurd (grind (arith, same, e))
    | inr (e, (size, base)) ↦
        let q8 : q ≡ 8 = grind (arith, same, e) in
        after_pick limit (IsTarget m) w.ctx.mem_size 2 _ (omega (arith, size)) (λ off few.
          Gives-more limit (IsTarget m) 0 2 _ (omega arith) (
            Gives-give limit (IsTarget m) _ (record {
              ctx = h.ctx;
              size = omega (arith, h.room);
              exits = omega (arith, h.exits);
              jumps = h.jumps;
              site = h.site;
              reg = q8;
              inside = inl (e, (few, omega (arith, few, size, base)));
            })))
  ]
  comp_target-IsTarget m w none h same = after_scalar limit (IsTarget m) 2 w.ctx _ h.ctx (λ r x.
      Gives-bind limit (IsDraft (suc m)) (IsTarget m) 2 0 (rebound r w.ctx.narrowed_max w) _
        (rebound-IsDraft m r w w.ctx.narrowed_max x h)
        (λ v y. Gives-give limit (IsTarget m) _ (added v y r x)))
    where
      added :
          (v : Draft)
          → IsDraft (suc m) v
          → (r : ℕ) → IsScalar r
          → IsTarget m (record {
            draft = put (alu64_reg bpf_add 8 r ∷ []) v;
            store = record {
              reg = 8;
              off = store_off r v.ctx.narrowed_max v.ctx.narrow_reg;
              base_off = 0;
            };
          })
      added v y r x =
          let g = put-Grows (alu64_reg bpf_add 8 r ∷ []) v.ins v.jexit in
          record {
            ctx = y.ctx;
            size = omega (arith, g.count, y.room);
            exits = omega (arith, y.exits);
            jumps = g.jumps y.jumps;
            site = site_kept v.ctx.call_site g y.site;
            reg = refl;
            inside = inr (
              refl,
              (
                r,
                x,
                (v.ins, refl),
                store_off-lt r v.ctx.narrowed_max v.ctx.narrow_reg,
                (
                  (λ b. store_off-bound r b v.ctx.narrowed_max v.ctx.narrow_reg y.ctx.bound),
                  store_off-free r v.ctx.narrowed_max v.ctx.narrow_reg,
                ),
              ),
            );
          }
