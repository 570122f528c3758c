-- ===== src/Subs/Ids/Injection.antt =====
-- subs_check_ids over a sequence of checks: the map stays a partial injection.
use verifierloop.Base.{ℕ, ◌≤◌, ◌≡◌, ◌≢◌, ◌↔◌, ◌⊎◌, inl, inr, Bool, true, List, [], ◌∷◌, ◌++◌}
use verifierloop.Base.{length, get_elem?, Option, none, some, ◌==◌, leb, if◌then◌else◌, arith}
use verifierloop.Base.{Bool-cases, sym, ◌∙◌, refl, All, zero, suc, ◌+◌}
use verifierloop.Subs.Ids.{Pair, Idmap, Checked, known, remember, check_ids, max_ids}

abbrev Apart : Pair → Pair → Type 0
Apart p q = (p.old ≢ q.old) × (p.cur ≢ q.cur)

abbrev Distinct : List Pair → Type 0
Distinct [] = Unit
Distinct (p ∷ ps) = All (Apart p) ps × Distinct ps

abbrev Nonzero : Pair → Type 0
Nonzero p = (p.old ≢ 0) × (p.cur ≢ 0)

-- What holds of the table between two checks.
pub record IsIdmap (m : Idmap) : Type 0 where
  pub distinct : Distinct m.pairs
  pub nonzero : All Nonzero m.pairs
  pub bounded : length m.pairs ≤ max_ids

known-none :
    (ps : List Pair) (o c : ℕ)
    → known ps o c ≡ none
    → All (λ p. Apart p (record { old = o; cur = c })) ps
unfolding known
known-none [] o c h = tt
known-none (p ∷ ps) o c h = ((ground arith, ground arith), known-none ps o c (ground arith))

All-snoc : (P : Pair → Type 0) (ps : List Pair) (q : Pair) → All P ps → P q → All P (ps ++ q ∷ [])
All-snoc P [] q a b = (b, tt)
All-snoc P (p ∷ ps) q (x, a) b = (x, All-snoc P ps q a b)

Distinct-snoc :
    (ps : List Pair) (q : Pair) → Distinct ps → All (λ p. Apart p q) ps → Distinct (ps ++ q ∷ [])
Distinct-snoc [] q d a = (tt, tt)
Distinct-snoc (p ∷ ps) q (x, d) (y, a) = (All-snoc (Apart p) ps q x y, Distinct-snoc ps q d a)

length-snoc : (ps : List Pair) (q : Pair) → length (ps ++ q ∷ []) ≡ length ps + 1
length-snoc [] q = refl
length-snoc (p ∷ ps) q = omega (arith, length-snoc ps q)

remember-IsIdmap :
    (m : Idmap) (o c : ℕ) (r : Option Bool)
    → o ≢ 0
    → c ≢ 0
    → known m.pairs o c ≡ r
    → IsIdmap m
    → IsIdmap (remember m o c r).map
unfolding remember
remember-IsIdmap m o c (some b) o0 c0 e v = v
remember-IsIdmap m o c none o0 c0 e v = elim (Bool-cases (leb max_ids (length m.pairs))) [
  | inl full ↦ rw full v
  | inr room ↦ rw room (record {
    distinct = Distinct-snoc m.pairs _ v.distinct (known-none m.pairs o c e);
    nonzero = All-snoc Nonzero m.pairs _ v.nonzero (o0, c0);
    bounded = ground (arith, length-snoc m.pairs (record { old = o; cur = c }));
  })
]

-- A check keeps the table well formed: no two entries share an old or a current identity, none
-- has an identity 0, and there are at most 64.
pub check_ids-IsIdmap : (m : Idmap) (o c : ℕ) → IsIdmap m → IsIdmap (check_ids m o c).map
unfolding check_ids
check_ids-IsIdmap m o c v = elim (Bool-cases (o == 0)) [
  | inl e ↦ rw e v
  | inr ne ↦ elim (Bool-cases (c == 0)) [
    | inl e ↦ rw (ne, e) v
    | inr nz ↦
        rw (ne, nz)
          (remember-IsIdmap m o c (known m.pairs o c) (ground arith) (ground arith) refl v)
  ]
]

known-snoc :
    (ps : List Pair) (q : Pair) (o c : ℕ) (b : Bool)
    → known ps o c ≡ some b
    → known (ps ++ q ∷ []) o c ≡ some b
unfolding known
known-snoc [] q o c b h = cc
known-snoc (p ∷ ps) q o c b h = ground (arith, known-snoc ps q o c b)

known_self :
    (ps : List Pair) (o c : ℕ)
    → known ps o c ≡ none
    → known (ps ++ record { old = o; cur = c } ∷ []) o c ≡ some true
unfolding known
known_self [] o c h = ground arith
known_self (p ∷ ps) o c h = ground (arith, known_self ps o c)

known_one :
    (ps : List Pair) (o c o' c' : ℕ)
    → known ps o c ≡ some true
    → known ps o' c' ≡ some true
    → (o ≡ o') ↔ (c ≡ c')
unfolding known
known_one [] o c o' c' h h' = cc
known_one (p ∷ ps) o c o' c' h h' = ground (arith, known_one ps o c o' c')

-- What a table answers by: both identities 0, or an entry.
abbrev Holds : Idmap → Pair → Type 0
Holds m p =
    ((p.old ≡ 0) × (p.cur ≡ 0))
    ⊎ (p.old ≢ 0) × (p.cur ≢ 0) × (known m.pairs p.old p.cur ≡ some true)

check_ids-Holds :
    (m : Idmap) (o c : ℕ)
    → (check_ids m o c).ok ≡ true
    → Holds (check_ids m o c).map (record { old = o; cur = c })
unfolding check_ids remember
check_ids-Holds m o c h = elim (Bool-cases (o == 0)) [
  | inl e ↦ rw e (inl (ground arith, ground arith))
  | inr ne ↦ elim (Bool-cases (c == 0)) [
    | inl e ↦ cc (rw (ne, e) at h)
    | inr nz ↦
        let stays = remember-Holds (known m.pairs o c) refl (rw (ne, nz) at h) in
        rw (ne, nz) (inr (ground arith, ground arith, stays))
  ]
]
  where
    remember-Holds :
        (r : Option Bool)
        → known m.pairs o c ≡ r
        → (remember m o c r).ok ≡ true
        → known (remember m o c r).map.pairs o c ≡ some true
    remember-Holds (some b) e h = rw h at e
    remember-Holds none e h = elim (Bool-cases (leb max_ids (length m.pairs))) [
      | inl full ↦ cc (rw full at h)
      | inr room ↦ rw room (known_self m.pairs o c e)
    ]

check_ids-keeps : (m : Idmap) (o c : ℕ) (p : Pair) → Holds m p → Holds (check_ids m o c).map p
unfolding check_ids remember
check_ids-keeps m o c p (inl e) = inl e
check_ids-keeps m o c p (inr (x, y, e)) = inr (
  x,
  y,
  elim (Bool-cases (o == 0)) [
    | inl q ↦ rw q e
    | inr ne ↦ elim (Bool-cases (c == 0)) [
      | inl q ↦ rw (ne, q) e
      | inr nz ↦ rw (ne, nz) (remember-keeps (known m.pairs o c))
    ]
  ],
)
  where
    remember-keeps : (r : Option Bool) → known (remember m o c r).map.pairs p.old p.cur ≡ some true
    remember-keeps (some b) = e
    remember-keeps none = elim (Bool-cases (leb max_ids (length m.pairs))) [
      | inl full ↦ rw full e
      | inr room ↦ rw room (known-snoc m.pairs _ p.old p.cur true e)
    ]

Holds-one : (m : Idmap) (p q : Pair) → Holds m p → Holds m q → (p.old ≡ q.old) ↔ (p.cur ≡ q.cur)
Holds-one m p q (inl (a, b)) (inl (a', b')) = (λ e. b ∙ sym b', λ e. a ∙ sym a')
Holds-one m p q (inl (a, b)) (inr (a', b', h')) =
    (λ e. absurd (a' (sym e ∙ a)), λ e. absurd (b' (sym e ∙ b)))
Holds-one m p q (inr (a, b, h)) (inl (a', b')) =
    (λ e. absurd (a (e ∙ a')), λ e. absurd (b (e ∙ b')))
Holds-one m p q (inr (a, b, h)) (inr (a', b', h')) = known_one m.pairs p.old p.cur q.old q.cur h h'

-- One check after another, as long as they pass.
unfoldable pub check_all : Idmap → List Pair → Checked
check_all m [] = record { ok = true; map = m }
check_all m (p ∷ ps) =
    let first = check_ids m p.old p.cur in if first.ok then check_all first.map ps else first

check_all-keeps : (m : Idmap) (ps : List Pair) (p : Pair) → Holds m p → Holds (check_all m ps).map p
unfolding check_all
check_all-keeps m [] p h = h
check_all-keeps m (q ∷ ps) p h = elim (Bool-cases (check_ids m q.old q.cur).ok) [
  | inl t ↦
      rw t (check_all-keeps (check_ids m q.old q.cur).map ps p (check_ids-keeps m q.old q.cur p h))
  | inr f ↦ rw f (check_ids-keeps m q.old q.cur p h)
]

check_all_first :
    (m : Idmap) (q : Pair) (ps : List Pair)
    → (check_all m (q ∷ ps)).ok ≡ true
    → ((check_ids m q.old q.cur).ok ≡ true)
      × (check_all m (q ∷ ps) ≡ check_all (check_ids m q.old q.cur).map ps)
unfolding check_all
check_all_first m q ps h = elim (Bool-cases (check_ids m q.old q.cur).ok) [
  | inl t ↦ (t, rw t refl)
  | inr f ↦ cc (f, rw f at h)
]

check_all-Holds :
    (m : Idmap) (ps : List Pair)
    → (check_all m ps).ok ≡ true
    → (i : ℕ) (p : Pair) → get_elem? ps i ≡ some p
    → Holds (check_all m ps).map p
check_all-Holds m [] h i p e = cc
check_all-Holds m (q ∷ ps) h zero p e =
    let same : q ≡ p = cc e in
    let (t, next) = check_all_first m q ps h in
    rw next (
      check_all-keeps (check_ids m q.old q.cur).map ps p
        (rw (sym same) (check_ids-Holds m q.old q.cur t)))
check_all-Holds m (q ∷ ps) h (suc i) p e =
    let (t, next) = check_all_first m q ps h in
    rw next (check_all-Holds (check_ids m q.old q.cur).map ps (rw next at h) i p e)

-- When a sequence of checks passes, from any table, two of its pairs have the same old identity
-- exactly when they have the same current one.
pub check_all-one_to_one :
    (m : Idmap) (ps : List Pair)
    → (check_all m ps).ok ≡ true
    → (i j : ℕ) (p q : Pair) → get_elem? ps i ≡ some p
    → get_elem? ps j ≡ some q
    → (p.old ≡ q.old) ↔ (p.cur ≡ q.cur)
check_all-one_to_one m ps h i j p q e f =
    Holds-one (check_all m ps).map p q (check_all-Holds m ps h i p e) (check_all-Holds m ps h j q f)
