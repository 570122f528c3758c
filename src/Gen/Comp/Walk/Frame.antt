-- ===== src/Gen/Comp/Walk/Frame.antt =====
-- The context of the walk, and how a piece extends the program.
use verifierloop.Base.{ℕ, zero, suc, ◌+◌, ◌*◌, ◌%◌, ◌≤◌, ◌≡◌, ◌⊎◌, true, List, [], ◌∷◌, ◌++◌}
use verifierloop.Base.{length, get_elem?, All, Option, none, some, if◌then◌else◌, arith, refl}
use verifierloop.Insn.{Insn}
use verifierloop.Gen.Layout.{length-append}
use verifierloop.Gen.Layout.Kinds.{is_branch}
use verifierloop.Gen.Emit.Laid.{get_elem?_left, get_elem?_end, All-map}
use verifierloop.Gen.Emit.Size.{length-snoc}
use verifierloop.Gen.Comp.{Ctx, is_set}
use verifierloop.Gen.Comp.Code.{Draft, pseudo_call}
use verifierloop.Gen.Comp.Draw.Gives.{scalars, IsScalar}

abbrev pub MemFits : Ctx → Type 0
MemFits c =
    (c.mem_reg ≡ none) ⊎ ((c.mem_reg ≡ some 8) × ((c.mem_size ≡ 8) × (c.store_base_off ≤ 16)))

-- A proven bound is at most 15, and on a scalar.
abbrev pub BoundFits : Option ℕ → Option ℕ → Type 0
BoundFits none r = Unit
BoundFits (some b) none = ⊥
BoundFits (some b) (some r) = (b ≤ 15) × IsScalar r

pub record IsCtx (c : Ctx) : Type 0 where
  pub regs : c.scalar_regs ≡ scalars
  pub low : 32 ≤ c.stack
  pub high : c.stack ≤ 436
  pub aligned : c.stack % 8 ≡ 0
  pub map : c.mapval_reg ≡ some 8
  pub mem : MemFits c
  pub bound : BoundFits c.narrowed_max c.narrow_reg

-- The instructions beyond seven that the pieces which run once may still take.
abbrev pub extra : Ctx → ℕ
extra c =
    (if c.used_iter then 0 else 7)
    + ((if is_set c.mem_reg then 0 else 8)
        + ((if c.used_dynskb then 0 else 7)
            + ((if c.used_ringbuf then 0 else 13) + (if c.used_skref then 0 else 7))))

abbrev pub IsJump : List Insn → ℕ → Type 0
IsJump ins j = (x : Insn) × (get_elem? ins j ≡ some x) × (is_branch x ≡ true)

abbrev pub SiteFits : List Insn → Option ℕ → Type 0
SiteFits ins none = Unit
SiteFits ins (some j) = get_elem? ins j ≡ some (pseudo_call 0)

-- An array and its exits go on by `n` instructions and `e` exits.
pub record Grows (n e : ℕ) (ins : List Insn) (js : List ℕ) (ins' : List Insn) (js' : List ℕ)
    : Type 0 where
  pub count : length ins' ≡ length ins + n
  pub exits : length js' ≡ length js + e
  pub before : (j : ℕ) (x : Insn) → get_elem? ins j ≡ some x → get_elem? ins' j ≡ some x
  pub jumps : All (IsJump ins) js → All (IsJump ins') js'

pub put-Grows : (xs ins : List Insn) (js : List ℕ) → Grows (length xs) 0 ins js (ins ++ xs) js
put-Grows xs ins js = record {
  count = length-append ins xs;
  exits = omega arith;
  before = λ j x. get_elem?_left ins xs j x;
  jumps =
      All-map (IsJump ins) (IsJump (ins ++ xs)) js
        (λ j (x, e, b). (x, get_elem?_left ins xs j x e, b));
}

All-last {ℓ} :
    {A : Type ℓ} (P : A → Type 0) (xs : List A) (y : A) → All P xs → P y → All P (xs ++ y ∷ [])
All-last P [] y h p = (p, tt)
All-last P (x ∷ xs) y (q, h) p = (q, All-last P xs y h p)

pub park-Grows :
    (x : Insn) (xs ins : List Insn) (js : List ℕ)
    → is_branch x ≡ true
    → Grows (length (x ∷ xs)) 1 ins js (ins ++ x ∷ xs) (js ++ length ins ∷ [])
park-Grows x xs ins js b = record {
  count = length-append ins (x ∷ xs);
  exits = length-snoc js (length ins);
  before = λ j y. get_elem?_left ins (x ∷ xs) j y;
  jumps = λ h.
      All-last (IsJump (ins ++ x ∷ xs)) js (length ins)
        (All-map (IsJump ins) (IsJump (ins ++ x ∷ xs)) js
          (λ j (y, e, c). (y, get_elem?_left ins (x ∷ xs) j y e, c)) h)
        (x, get_elem?_end ins xs x, b);
}

pub Grows-trans :
    {n e n' e' : ℕ} {ins ins' ins'' : List Insn} {js js' js'' : List ℕ}
    → Grows n e ins js ins' js'
    → Grows n' e' ins' js' ins'' js''
    → Grows (n + n') (e + e') ins js ins'' js''
Grows-trans p q = record {
  count = omega (arith, p.count, q.count);
  exits = omega (arith, p.exits, q.exits);
  before = λ j x h. q.before j x (p.before j x h);
  jumps = λ h. q.jumps (p.jumps h);
}

pub record IsDraft (m : ℕ) (w : Draft) : Type 0 where
  pub ctx : IsCtx w.ctx
  pub room : length w.ins + extra w.ctx ≤ 61 + 7 * m
  pub exits : length w.jexit ≤ 2 + 2 * m
  pub jumps : All (IsJump w.ins) w.jexit
  pub site : SiteFits w.ins w.ctx.call_site

pub site_kept :
    {n e : ℕ} {ins ins' : List Insn} {js js' : List ℕ} (site : Option ℕ)
    → Grows n e ins js ins' js'
    → SiteFits ins site
    → SiteFits ins' site
site_kept none x h = tt
site_kept (some j) x h = x.before j (pseudo_call 0) h

-- A piece of `n` instructions and at most two exits.
pub advance :
    {n e : ℕ} {ins : List Insn} {js : List ℕ} (m : ℕ) (w : Draft) (c : Ctx)
    → IsDraft m w
    → Grows n e w.ins w.jexit ins js
    → IsCtx c
    → n + extra c ≤ 7 + extra w.ctx
    → e ≤ 2
    → SiteFits ins c.call_site
    → IsDraft (suc m) (record { ins = ins; jexit = js; ctx = c })
advance m w c h x ok more few site = record {
  ctx = ok;
  room = omega (arith, h.room, x.count, more);
  exits = omega (arith, h.exits, x.exits, few);
  jumps = x.jumps h.jumps;
  site = site;
}

-- The same for a piece that does not call.
pub leaves :
    {n e : ℕ} {ins : List Insn} {js : List ℕ} (m : ℕ) (w : Draft) (c : Ctx)
    → IsDraft m w
    → Grows n e w.ins w.jexit ins js
    → IsCtx c
    → n + extra c ≤ 7 + extra w.ctx
    → e ≤ 2
    → c.call_site ≡ w.ctx.call_site
    → IsDraft (suc m) (record { ins = ins; jexit = js; ctx = c })
leaves m w c h x ok more few same =
    advance m w c h x ok more few (rw same (site_kept w.ctx.call_site x h.site))

pub second_after :
    (xs ys : List Insn) (x y : Insn) (j : ℕ)
    → j ≡ length xs + 1
    → get_elem? (xs ++ x ∷ y ∷ ys) j ≡ some y
second_after xs ys x y zero h = absurd (omega (arith, h))
second_after [] ys x y (suc zero) h = refl
second_after [] ys x y (suc (suc j)) h = absurd (omega (arith, h))
second_after (z ∷ xs) ys x y (suc j) h = second_after xs ys x y j (omega (arith, h))
