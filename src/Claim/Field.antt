-- ===== src/Claim/Field.antt =====
-- harness/bpfclaim.h, claim_find_field: what it finds.
use verifierloop.Base.{ℕ, ◌<◌, ◌≡◌, Bool, true, false, ◌&&◌, not, List, [], ◌∷◌, ◌++◌, length}
use verifierloop.Base.{
  starts, none, some, ◌==◌, ltb, arith, refl, sym, ap, ◌∙◌, ◌↔◌, Bool-cases, inl, inr,
}
use verifierloop.Claim.{is_ident, skip_bytes, find_field, claim_find_field}

-- Whether the last byte of `cs` is an identifier's; `inner` is for an empty list.
abbrev pub ends_inner : Bool → List ℕ → Bool
ends_inner inner [] = inner
ends_inner inner (c ∷ cs) = ends_inner (is_ident c) cs

starts_split : (name cs : List ℕ) → starts name cs ≡ true → cs ≡ name ++ skip_bytes (length name) cs
starts_split [] cs h = refl
starts_split (c ∷ name) [] h = cc
starts_split (c ∷ name) (d ∷ cs) h =
    let same : d ≡ c = ground arith in
    let rest : starts name cs ≡ true = ground arith in
    rw same (ap (λ t. c ∷ t) (starts_split name cs rest))

starts_append : (name rest : List ℕ) → starts name (name ++ rest) ≡ true
starts_append [] rest = refl
starts_append (c ∷ name) rest =
    let same : (c == c) ≡ true = ground arith in rw (same, starts_append name rest) refl

longer : (name : List ℕ) (d : ℕ) (rest : List ℕ) → length name < length (name ++ d ∷ rest)
longer [] d rest = omega arith
longer (c ∷ name) d rest = omega (arith, longer name d rest)

-- Where the name stands.
pub record Anchored (name : List ℕ) (inner : Bool) (cs : List ℕ) : Type 0 where
  pub before : List ℕ
  pub byte : ℕ
  pub after : List ℕ
  pub whole : cs ≡ before ++ name ++ byte ∷ after
  pub apart : ends_inner inner before ≡ false

skip_bytes-cons :
    (name cs : List ℕ)
    → starts name cs ≡ true
    → length name < length cs
    → (d : ℕ) × ((rest : List ℕ) × (skip_bytes (length name) cs ≡ d ∷ rest))
skip_bytes-cons [] [] h lt = absurd (omega arith)
skip_bytes-cons [] (c ∷ cs) h lt = (c, (cs, refl))
skip_bytes-cons (c ∷ name) [] h lt = absurd (omega arith)
skip_bytes-cons (c ∷ name) (d ∷ cs) h lt = skip_bytes-cons name cs (ground arith) (omega arith)

find_field-Anchored :
    (name : List ℕ) (inner : Bool) (cs rest : List ℕ)
    → find_field name inner cs ≡ some rest
    → Anchored name inner cs
unfolding find_field
find_field-Anchored name inner [] rest h = cc
find_field-Anchored name inner (c ∷ cs) rest h =
    elim (Bool-cases (ltb (length name) (length (c ∷ cs)))) [
      | inr short ↦ absurd (let f : none ≡ some rest = rw short at h in cc)
      | inl long ↦ elim (Bool-cases (starts name (c ∷ cs) && not inner)) [
        | inl e ↦
            let begins : starts name (c ∷ cs) ≡ true = ground (arith, e) in
            let (d, (r, tail)) = skip_bytes-cons name (c ∷ cs) begins (ground arith) in
            record {
              before = [];
              byte = d;
              after = r;
              whole = starts_split name (c ∷ cs) begins ∙ ap (λ t. name ++ t) tail;
              apart = ground (arith, e);
            }
        | inr e ↦
            let a = find_field-Anchored name (is_ident c) cs rest (rw (long, e) at h) in
            record {
              before = c ∷ a.before;
              byte = a.byte;
              after = a.after;
              whole = ap (λ t. c ∷ t) a.whole;
              apart = a.apart;
            }
      ]
    ]

abbrev Finds : List ℕ → Bool → List ℕ → Type 0
Finds name inner cs = (rest : List ℕ) × (find_field name inner cs ≡ some rest)

Finds-here :
    (name cs : List ℕ) → starts name cs ≡ true → length name < length cs → Finds name false cs
unfolding find_field
Finds-here name [] h lt = absurd (omega arith)
Finds-here name (c ∷ cs) h lt =
    let long : ltb (length name) (length (c ∷ cs)) ≡ true = ground arith in
    (skip_bytes (length name) (c ∷ cs), rw (long, h) refl)

Finds-later :
    (name : List ℕ) (inner : Bool) (c : ℕ) (cs : List ℕ)
    → length name < length cs
    → Finds name (is_ident c) cs
    → Finds name inner (c ∷ cs)
unfolding find_field
Finds-later name inner c cs lt (rest, e) =
    let long : ltb (length name) (length (c ∷ cs)) ≡ true = ground arith in
    elim (Bool-cases (starts name (c ∷ cs) && not inner)) [
      | inl h ↦ (skip_bytes (length name) (c ∷ cs), rw (long, h) refl)
      | inr h ↦ (rest, rw (long, h) e)
    ]

longer_after :
    (before name : List ℕ) (d : ℕ) (rest : List ℕ)
    → length name < length (before ++ name ++ d ∷ rest)
longer_after [] name d rest = longer name d rest
longer_after (c ∷ before) name d rest = omega (arith, longer_after before name d rest)

find_field_complete :
    (name before : List ℕ) (inner : Bool) (d : ℕ) (after : List ℕ)
    → ends_inner inner before ≡ false
    → Finds name inner (before ++ name ++ d ∷ after)
find_field_complete name [] inner d after h =
    rw (sym h) at
      (Finds-here name (name ++ d ∷ after) (starts_append name (d ∷ after)) (longer name d after))
find_field_complete name (c ∷ before) inner d after h =
    Finds-later name inner c (before ++ name ++ d ∷ after) (longer_after before name d after)
      (find_field_complete name before (is_ident c) d after h)

-- A field is found exactly if its name stands somewhere before the last byte of the text, with no
-- byte of an identifier right before it.
pub claim_find_field_iff :
    (name s : List ℕ)
    → ((rest : List ℕ) × (claim_find_field s name ≡ some rest)) ↔ Anchored name false s
unfolding claim_find_field
claim_find_field_iff name s = (
  λ (rest, e). find_field-Anchored name false s rest e,
  λ a. rw a.whole (find_field_complete name a.before false a.byte a.after a.apart),
)
