-- ===== src/Subs/Eval/Sound.antt =====
-- subs_eval: what an `agree` says of the two states.
use verifierloop.Base.{
  ℕ, zero, suc, ◌%◌, ◌^◌, ◌<◌, ◌≡◌, ◌≢◌, ◌⊎◌, inl, inr, Bool, true, false, ◌&&◌,
}
use verifierloop.Base.{List, [], ◌∷◌, All, get_elem?, Option, none, some, ◌==◌, if◌then◌else◌, ◌||◌}
use verifierloop.Base.{Bool-cases, arith, refl, sym}
use verifierloop.Subs.Arc.{InArc64, InArc32, subset64, subset32, subset64_iff, subset32_iff}
use verifierloop.Subs.Tnum.{InTnum, tnum_in_sound}
use verifierloop.Subs.Eval.{
  Reg, Arm, Check, passed, failed, Progress, require, find, scalar, check_reg,
}
use verifierloop.Subs.Eval.{check_scalar, check_pointer, scalar_ids_step}
use verifierloop.Subs.Eval.{
  range_within, reg_tnum_in, key_gt, insert_back, sort_back, reverse_onto, sort,
}
use verifierloop.Subs.Eval.{
  after_check, agree, eval_regs, check_found, eval, start, is_nil, Evaluated,
}

-- The words that a register's bounds and known bits allow.
abbrev pub Admits : Reg → ℕ → Type 0
Admits r x = InArc64 r.b64 r.sz64 x × InArc32 r.b32 r.sz32 (x % 2 ^ 32) × InTnum r.vv r.vm x

-- The C types of the bounds.
abbrev pub HasWords : Reg → Type 0
HasWords r = (r.b64 < 2 ^ 64) × (r.sz64 < 2 ^ 64) × (r.b32 < 2 ^ 32) × (r.sz32 < 2 ^ 32)

require_passed :
    (b : Bool) (a : Arm) (p q : Progress) (rest : Progress → Check)
    → require b a p rest ≡ passed q
    → (b ≡ true) × (rest p ≡ passed q)
require_passed true a p q rest h = (refl, h)
require_passed false a p q rest h = cc

check_scalar_passed :
    (exact : ℕ) (o c : Reg) (p q : Progress)
    → (o.prec ≢ 0) ⊎ (exact ≢ 0)
    → check_scalar exact o c p ≡ passed q
    → (range_within o c ≡ true) × (reg_tnum_in o c ≡ true)
unfolding check_scalar scalar_ids_step
check_scalar_passed exact o c p q compared h =
    let on : (o.prec == 0 && exact == 0) ≡ false = ground arith in
    let h0 = rw on at h in (ground arith, ground arith)

check_reg_passed :
    (exact : ℕ) (o c : Reg) (p q : Progress)
    → check_reg exact o c p ≡ passed q
    → (o.t ≡ c.t)
      × ((o.t ≡ scalar)
          → (o.prec ≢ 0) ⊎ (exact ≢ 0)
          → (range_within o c ≡ true) × (reg_tnum_in o c ≡ true))
unfolding check_reg
check_reg_passed exact o c p q h =
    let (t, h1) =
      require_passed (o.t == c.t) Arm.type_arm p q
        (λ p. if o.t == scalar then check_scalar exact o c p else check_pointer o c p) h in
    (
      ground arith,
      λ e compared.
          let is : (o.t == scalar) ≡ true = ground arith in
          check_scalar_passed exact o c p q compared (rw is at h1),
    )

-- A lookup that the loop has passed.
abbrev Passed : ℕ → List Reg → Reg → Type 0
Passed exact cur o =
    (c : Reg) × (p q : Progress) × (find cur o.key ≡ some c) × (check_reg exact o c p ≡ passed q)

check_found-Passed :
    (exact : ℕ) (cur : List Reg) (o : Reg) (f : Option Reg) (p : Progress)
    (rest : Progress → Evaluated)
    → find cur o.key ≡ f
    → (check_found exact o f p rest).verdict ≡ agree
    → Passed exact cur o × (q : Progress) × ((rest q).verdict ≡ agree)
unfolding check_found
check_found-Passed exact cur o none p rest e h = cc
check_found-Passed exact cur o (some c) p rest e h = go (check_reg exact o c p) refl h
  where
    go :
        (r : Check)
        → check_reg exact o c p ≡ r
        → (after_check r rest).verdict ≡ agree
        → Passed exact cur o × (q : Progress) × ((rest q).verdict ≡ agree)
    go (passed q) eq h = ((c, p, q, e, eq), q, h)
    go (failed a q) eq h = cc

eval_regs-Passed :
    (exact : ℕ) (cur os : List Reg) (p : Progress)
    → (eval_regs exact cur os p).verdict ≡ agree
    → All (Passed exact cur) os
unfolding eval_regs
eval_regs-Passed exact cur [] p h = tt
eval_regs-Passed exact cur (o ∷ os) p h =
    let (now, q, next) =
      check_found-Passed exact cur o (find cur o.key) p (eval_regs exact cur os) refl h in
    (now, eval_regs-Passed exact cur os q next)

module _ (P : Reg → Type 0) where
  All-insert_back : (t : Reg) (rs : List Reg) → All P (insert_back t rs) → P t × All P rs
  unfolding insert_back
  All-insert_back t [] h = h
  All-insert_back t (r ∷ rs) h = elim (Bool-cases (key_gt r.key t.key)) [
    | inl e ↦
        let (x, more) = rw e at h in let (y, rest) = All-insert_back t rs more in (y, (x, rest))
    | inr e ↦ rw e at h
  ]

  All-sort_back : (sorted rs : List Reg) → All P (sort_back sorted rs) → All P sorted × All P rs
  unfolding sort_back
  All-sort_back sorted [] h = (h, tt)
  All-sort_back sorted (r ∷ rs) h =
      let (s, t) = All-sort_back (insert_back r sorted) rs h in
      let (x, y) = All-insert_back r sorted s in (y, (x, t))

  All-reverse_onto : (rs acc : List Reg) → All P (reverse_onto rs acc) → All P rs × All P acc
  unfolding reverse_onto
  All-reverse_onto [] acc h = (tt, h)
  All-reverse_onto (r ∷ rs) acc h = let (s, t) = All-reverse_onto rs (r ∷ acc) h in ((t.0, s), t.1)

  All-sort : (rs : List Reg) → All P (sort rs) → All P rs
  unfolding sort
  All-sort rs h = (All-sort_back [] rs (All-reverse_onto (sort_back [] rs) [] h).0).1

  All-get_elem? : (rs : List Reg) (i : ℕ) (r : Reg) → All P rs → get_elem? rs i ≡ some r → P r
  All-get_elem? [] i r a e = cc
  All-get_elem? (x ∷ rs) zero r (a, b) e = let same : r ≡ x = cc e in rw same a
  All-get_elem? (x ∷ rs) (suc i) r (a, b) e = All-get_elem? rs i r b e

eval-Passed :
    (old cur : List Reg) (exact i : ℕ) (o : Reg)
    → (eval old cur exact).verdict ≡ agree
    → get_elem? old i ≡ some o
    → Passed exact cur o
unfolding eval
eval-Passed old cur exact i o h e = elim (Bool-cases (is_nil old || is_nil cur)) [
  | inl out ↦ cc (rw out at h)
  | inr on ↦
      let all = eval_regs-Passed exact cur (sort old) start (rw on at h) in
      All-get_elem? (Passed exact cur) old i o (All-sort (Passed exact cur) old all) e
]

-- When subs_eval agrees, every register of the old state has a register of the same key in the
-- current state, and the first such register has the same type.
pub eval-find :
    (old cur : List Reg) (exact i : ℕ) (o : Reg)
    → (eval old cur exact).verdict ≡ agree
    → get_elem? old i ≡ some o
    → (c : Reg) × (find cur o.key ≡ some c) × (o.t ≡ c.t)
eval-find old cur exact i o h e =
    let (c, p, q, at, ok) = eval-Passed old cur exact i o h e in
    (c, at, (check_reg_passed exact o c p q ok).0)

-- When subs_eval agrees, an old scalar that is precise, or any old scalar under an exact
-- comparison, covers the current register of its key: every 64-bit word that the bounds and the
-- known bits of the current one allow is allowed by those of the old one. The bounds have their C
-- types.
pub eval_sound :
    (old cur : List Reg) (exact i : ℕ) (o c : Reg)
    → (eval old cur exact).verdict ≡ agree
    → get_elem? old i ≡ some o
    → find cur o.key ≡ some c
    → o.t ≡ scalar
    → (o.prec ≢ 0) ⊎ (exact ≢ 0)
    → HasWords o
    → HasWords c
    → (x : ℕ) → x < 2 ^ 64
    → Admits c x
    → Admits o x
unfolding range_within
eval_sound old cur exact i o c h e at is compared (a, b, d, f) (a', b', d', f') x small (p, q, r) =
    let (c', s, t, at', ok) = eval-Passed old cur exact i o h e in
    let same : c' ≡ c = cc (at, at') in
    let (w, n) = (check_reg_passed exact o c' s t ok).1 is compared in
    let w' : range_within o c ≡ true = rw (sym same) w in
    let n' : reg_tnum_in o c ≡ true = rw (sym same) n in
    let s64 : subset64 o.b64 o.sz64 c.b64 c.sz64 ≡ true = ground arith in
    let s32 : subset32 o.b32 o.sz32 c.b32 c.sz32 ≡ true = ground arith in
    (
      (subset64_iff o.b64 o.sz64 c.b64 c.sz64 a b a' b').0 s64 x small p,
      (subset32_iff o.b32 o.sz32 c.b32 c.sz32 d f d' f').0 s32 (x % 2 ^ 32) (omega arith) q,
      tnum_in_sound o.vv o.vm c.vv c.vm x small n' r,
    )
