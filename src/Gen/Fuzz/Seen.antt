-- ===== src/Gen/Fuzz/Seen.antt =====
-- A PC is new once.
use verifierloop.Base.{ℕ, zero, suc, ◌%◌, ◌≡◌, true, false, List, [], ◌∷◌, All}
use verifierloop.Base.{Option, none, some, ◌==◌, arith, refl, ◌∙◌, Bool-cases, inl, inr}
use verifierloop.Gen.Fuzz.{
  SeenSet, find_slot, set_slot, seen_slots, take_slot, kseen_add, kseen_add_all, hash,
}

-- The slots in use stay as they are.
abbrev Keeps : (ℕ → ℕ) → (ℕ → ℕ) → Type 0
Keeps t u = (s : ℕ) → (t s == 0) ≡ false → u s ≡ t s

find_slot-Keeps :
    (n at pc : ℕ) (t u : ℕ → ℕ)
    → Keeps t u
    → find_slot n at pc t ≡ none
    → find_slot n at pc u ≡ none
unfolding find_slot
find_slot-Keeps zero at pc t u k h = refl
find_slot-Keeps (suc n) at pc t u k h = elim (Bool-cases (t (at % seen_slots) == 0)) [
  | inl e ↦ absurd (let f : some (at % seen_slots) ≡ none = rw e at h in grind arith)
  | inr e ↦ elim (Bool-cases (t (at % seen_slots) == pc)) [
    | inl p ↦ rw (k (at % seen_slots) e, e, p) refl
    | inr p ↦
        let h' : find_slot n (suc at) pc t ≡ none = rw (e, p) at h in
        rw (k (at % seen_slots) e, e, p) (find_slot-Keeps n (suc at) pc t u k h')
  ]
]

find_slot-free : (n at pc : ℕ) (t : ℕ → ℕ) (s : ℕ) → find_slot n at pc t ≡ some s → t s ≡ 0
unfolding find_slot
find_slot-free zero at pc t s h = cc
find_slot-free (suc n) at pc t s h = elim (Bool-cases (t (at % seen_slots) == 0)) [
  | inl e ↦
      let f : some (at % seen_slots) ≡ some s = rw e at h in
      let same : at % seen_slots ≡ s = grind arith in
      let z : t (at % seen_slots) ≡ 0 = ground arith in rw same at z
  | inr e ↦ elim (Bool-cases (t (at % seen_slots) == pc)) [
    | inl p ↦ absurd (let f : none ≡ some s = rw (e, p) at h in cc)
    | inr p ↦ find_slot-free n (suc at) pc t s (rw (e, p) at h)
  ]
]

set_slot-Keeps : (s pc : ℕ) (t : ℕ → ℕ) → t s ≡ 0 → Keeps t (set_slot s pc t)
set_slot-Keeps s pc t z x used = elim (Bool-cases (x == s)) [
  | inl e ↦ absurd (
      let same : x ≡ s = ground arith in
      let f : (t s == 0) ≡ false = rw same at used in ground arith)
  | inr e ↦ rw e refl
]

find_slot_again :
    (n at pc : ℕ) (t : ℕ → ℕ) (s : ℕ)
    → (pc == 0) ≡ false
    → find_slot n at pc t ≡ some s
    → find_slot n at pc (set_slot s pc t) ≡ none
unfolding find_slot
find_slot_again zero at pc t s some_pc h = refl
find_slot_again (suc n) at pc t s some_pc h = elim (Bool-cases (t (at % seen_slots) == 0)) [
  | inl e ↦
      let f : some (at % seen_slots) ≡ some s = rw e at h in
      let same : (at % seen_slots == s) ≡ true = grind arith in
      let own : (pc == pc) ≡ true = ground arith in rw (same, some_pc, own) refl
  | inr e ↦ elim (Bool-cases (t (at % seen_slots) == pc)) [
    | inl p ↦ absurd (let f : none ≡ some s = rw (e, p) at h in cc)
    | inr p ↦
        let h' : find_slot n (suc at) pc t ≡ some s = rw (e, p) at h in
        let kept =
          set_slot-Keeps s pc t (find_slot-free n (suc at) pc t s h') (at % seen_slots) e in
        rw (kept, e, p) (find_slot_again n (suc at) pc t s some_pc h')
  ]
]

-- The PC is not counted as new.
abbrev IsSeen : SeenSet → ℕ → Type 0
IsSeen v pc = find_slot 64 (hash pc) pc v.slots ≡ none

take_slot-Keeps :
    (o : Option ℕ) (pc : ℕ) (v : SeenSet)
    → find_slot 64 (hash pc) pc v.slots ≡ o
    → Keeps v.slots (take_slot o pc v).seen.slots
unfolding take_slot
take_slot-Keeps none pc v h = λ s u. refl
take_slot-Keeps (some s) pc v h =
    set_slot-Keeps s pc v.slots (find_slot-free 64 (hash pc) pc v.slots s h)

take_slot-IsSeen :
    (o : Option ℕ) (pc : ℕ) (v : SeenSet)
    → (pc == 0) ≡ false
    → find_slot 64 (hash pc) pc v.slots ≡ o
    → IsSeen (take_slot o pc v).seen pc
unfolding take_slot
take_slot-IsSeen none pc v some_pc h = h
take_slot-IsSeen (some s) pc v some_pc h = find_slot_again 64 (hash pc) pc v.slots s some_pc h

kseen_add-Keeps : (pc : ℕ) (v : SeenSet) → Keeps v.slots (kseen_add pc v).seen.slots
unfolding kseen_add
kseen_add-Keeps pc v = take_slot-Keeps _ pc v refl

kseen_add_all-Keeps : (pcs : List ℕ) (v : SeenSet) → Keeps v.slots (kseen_add_all pcs v).seen.slots
unfolding kseen_add_all
kseen_add_all-Keeps [] v s used = refl
kseen_add_all-Keeps (pc ∷ pcs) v s used =
    let one = kseen_add-Keeps pc v s used in
    let still : ((kseen_add pc v).seen.slots s == 0) ≡ false = rw one used in
    kseen_add_all-Keeps pcs (kseen_add pc v).seen s still ∙ one

-- A PC that may be looked up: the table marks a free slot by 0.
abbrev pub IsPc : ℕ → Type 0
IsPc pc = (pc == 0) ≡ false

kseen_add_all-IsSeen :
    (pcs : List ℕ) (v : SeenSet) → All IsPc pcs → All (IsSeen (kseen_add_all pcs v).seen) pcs
unfolding kseen_add_all kseen_add
kseen_add_all-IsSeen [] v h = tt
kseen_add_all-IsSeen (pc ∷ pcs) v (p, h) =
    let w = (kseen_add pc v).seen in
    (
      find_slot-Keeps 64 (hash pc) pc w.slots (kseen_add_all pcs w).seen.slots
          (kseen_add_all-Keeps pcs w) (take_slot-IsSeen _ pc v p refl),
      kseen_add_all-IsSeen pcs w h,
    )

-- A load of PCs that are seen already changes nothing and counts none.
seen-All :
    (pcs : List ℕ) (v : SeenSet)
    → All (IsSeen v) pcs
    → kseen_add_all pcs v ≡ record { seen = v; fresh = 0 }
unfolding kseen_add_all kseen_add take_slot
seen-All [] v h = refl
seen-All (pc ∷ pcs) v (p, h) = rw (p, seen-All pcs v h) refl

IsSeen-later :
    (pcs qs : List ℕ) (v : SeenSet)
    → All (IsSeen v) pcs
    → All (IsSeen (kseen_add_all qs v).seen) pcs
IsSeen-later [] qs v h = tt
IsSeen-later (pc ∷ pcs) qs v (p, h) = (
  find_slot-Keeps 64 (hash pc) pc v.slots (kseen_add_all qs v).seen.slots (kseen_add_all-Keeps qs v)
      p,
  IsSeen-later pcs qs v h,
)

-- A trace of PCs other than 0 that was counted is never fresh again, whatever is counted between:
-- counting it a second time finds nothing new and leaves the set as it is.
pub kseen_add_all_again :
    (pcs qs : List ℕ) (v : SeenSet)
    → All IsPc pcs
    → kseen_add_all pcs (kseen_add_all qs (kseen_add_all pcs v).seen).seen
      ≡ record { seen = (kseen_add_all qs (kseen_add_all pcs v).seen).seen; fresh = 0 }
kseen_add_all_again pcs qs v h =
    seen-All pcs (kseen_add_all qs (kseen_add_all pcs v).seen).seen
      (IsSeen-later pcs qs (kseen_add_all pcs v).seen (kseen_add_all-IsSeen pcs v h))
