-- ===== src/Gate/Follows.antt =====
-- Two runs of one instruction from registers that agree where it reads.
use verifierloop.Base.{ℕ, ◌<◌, ◌≡◌, ◌≢◌, refl, sym, ap, ◌∙◌, ◌⊎◌, inl, inr, arith}
use verifierloop.Base.{
  true, false, some, List, length, set, get_or-set_self, get_or-set_ne, ◌==◌, ==_iff,
}
use verifierloop.Base.{Bool-cases, get_or-set}
use verifierloop.Base.Bits.{testbit, testbit-two_pow_self, testbit-two_pow_ne, two_pow_mod}
use mathlib.Core.Path.{subst}
use verifierloop.Live.{bl_bit, Masks}
use verifierloop.Ref.{Outcome, val, fault, ◌>>=◌, State, Next, goes, exits, reg}

pub testbit-bl_bit_self : (k : ℕ) → k < 16 → testbit (bl_bit k) k ≡ true
testbit-bl_bit_self k h = rw (two_pow_mod k h) (testbit-two_pow_self k)

testbit-bl_bit_ne : (k j : ℕ) → k < 16 → k ≢ j → testbit (bl_bit k) j ≡ false
testbit-bl_bit_ne k j h ne = rw (two_pow_mod k h) (testbit-two_pow_ne k j ne)

-- The registers agree wherever a mask has a bit.
abbrev pub AgreeOn : ℕ → List ℕ → List ℕ → Type 0
AgreeOn m r r' = (k : ℕ) → testbit m k ≡ true → reg r k ≡ reg r' k

-- `t` and `t'` agree wherever `r` and `r'` do, and on what was written.
abbrev pub Kept : ℕ → List ℕ → List ℕ → List ℕ → List ℕ → Type 0
Kept defs r r' t t' = (k : ℕ) → (testbit defs k ≡ true) ⊎ (reg r k ≡ reg r' k) → reg t k ≡ reg t' k

-- The second outcome has what the first one has, if that is no fault.
abbrev pub Follows : ℕ → List ℕ → List ℕ → Outcome Next → Outcome Next → Type 0
Follows defs r r' (fault f) o = Unit
Follows defs r r' (val (exits v)) o = o ≡ val (exits v)
Follows defs r r' (val (goes t)) o =
    (u : List ℕ) × (o ≡ val (goes (record t { regs = u })))
    × Kept defs r r' t.regs u
    × (length u ≡ length r')
    × (length t.regs ≡ length r)

module _ (defs : ℕ) (r r' : List ℕ) where
  pub Follows-bind {ℓ} :
      {A : Type ℓ} (o o' : Outcome A) (k k' : A → Outcome Next)
      → o ≡ o'
      → ((a : A) → Follows defs r r' (k a) (k' a))
      → Follows defs r r' (o >>= k) (o' >>= k')
  Follows-bind (fault f) o' k k' e h = tt
  Follows-bind (val a) o' k k' e h = subst (λ q. Follows defs r r' (k a) (q >>= k')) e (h a)

  -- Nothing is written.
  pub Follows-same :
      (s : State)
      → s.regs ≡ r
      → ((k : ℕ) → testbit defs k ≡ true → reg r k ≡ reg r' k)
      → Follows defs r r' (val (goes s)) (val (goes (record s { regs = r' })))
  Follows-same s e h =
      (r', refl, rw e (λ k same. elim same [ inl b ↦ h k b | inr q ↦ q ]), refl, ap length e)

-- To the masks that bpflive_usedef returned.
pub Follows-masks :
    (r r' : List ℕ) (o o' : Outcome Next) (m' m : Masks)
    → some m' ≡ some m
    → (AgreeOn m'.uses r r' → Follows m'.defs r r' o o')
    → AgreeOn m.uses r r'
    → Follows m.defs r r' o o'
Follows-masks r r' o o' m' m e h =
    let e' : m' ≡ m = cc in subst (λ q. AgreeOn q.uses r r' → Follows q.defs r r' o o') e' h

pub Kept-set :
    (r r' : List ℕ) (d v : ℕ)
    → d < length r
    → d < length r'
    → d < 16
    → Kept (bl_bit d) r r' (set r d v) (set r' d v)
Kept-set r r' d v h h' small k same = elim (Bool-cases (d == k)) [
  | inl e ↦ rw (← (==_iff d k).0 e) (get_or-set_self r d v 0 h ∙ sym (get_or-set_self r' d v 0 h'))
  | inr e ↦
      let ne : d ≢ k = ground arith in
      let unset = testbit-bl_bit_ne d k small ne in
      get_or-set_ne r d k v 0 ne ∙ (ground arith) ∙ sym (get_or-set_ne r' d k v 0 ne)
]

-- What is written is the same, and every other register that the mask names agreed before.
pub Kept-set_agreed :
    (defs : ℕ) (r r' : List ℕ) (d v : ℕ)
    → length r ≡ length r'
    → AgreeOn defs r r'
    → Kept defs r r' (set r d v) (set r' d v)
Kept-set_agreed defs r r' d v e agreed k same =
    let before : reg r k ≡ reg r' k = elim same [ inl b ↦ agreed k b | inr q ↦ q ] in
    ground (arith, get_or-set r d k v 0, get_or-set r' d k v 0)
