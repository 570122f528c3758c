-- ===== src/Live/Flow/Order.antt =====
-- The masks ordered bit by bit: a sweep is monotone, and a rise is counted.
use verifierloop.Base.{ℕ, zero, suc, ◌+◌, ◌≤◌, ◌<◌, ◌≡◌, sym, ◌∙◌, ◌⊎◌, inl, inr, arith}
use verifierloop.Base.{Bool, true, false, List, [], ◌∷◌, length}
use verifierloop.Base.{Bool-cases, get_or-set, get_or_ext, bit_xor, ◌&&◌, ◌||◌}
use verifierloop.Base.Bits.{testbit, testbit-bit_or, testbit-bit_and, testbit_ext}
use verifierloop.Live.Usedef.{tracked}
use verifierloop.Live.Flow.{Node, node_at, live_at, live_after, transfer}
use verifierloop.Live.Flow.Sweep.{step, pass, length-step}

-- Bit `r` of each mask of `xs` is set in `ys` too.
abbrev pub Le : ℕ → List ℕ → List ℕ → Type 0
Le r xs ys = (i : ℕ) → testbit (live_at xs i) r ≡ true → testbit (live_at ys i) r ≡ true

live_after_mono :
    (r : ℕ) (xs ys : List ℕ) (ss : List ℕ)
    → Le r xs ys
    → testbit (live_after xs ss) r ≡ true
    → testbit (live_after ys ss) r ≡ true
unfolding live_after
live_after_mono r xs ys [] h t = t
live_after_mono r xs ys (s ∷ ss) h t = ground (
  arith,
  testbit-bit_or (live_at xs s) (live_after xs ss) r,
  testbit-bit_or (live_at ys s) (live_after ys ss) r,
  h s,
  live_after_mono r xs ys ss h,
)

-- Bit `r` of the mask that a node computes.
pub testbit-transfer :
    (x : Node) (live : List ℕ) (r : ℕ)
    → testbit (transfer x live) r ≡ (
        (testbit x.uses r
          || testbit (live_after live x.succs) r && testbit (bit_xor x.defs 0xffff) r)
        && testbit tracked r)
unfolding transfer
testbit-transfer x live r = simp (testbit-bit_and, testbit-bit_or)

transfer_mono :
    (x : Node) (r : ℕ) (xs ys : List ℕ)
    → Le r xs ys
    → testbit (transfer x xs) r ≡ true
    → testbit (transfer x ys) r ≡ true
transfer_mono x r xs ys h t =
    ground
      (arith, testbit-transfer x xs r, testbit-transfer x ys r, live_after_mono r xs ys x.succs h)

module _ (g : List Node) where
  step_mono :
      (i r : ℕ) (xs ys : List ℕ)
      → length xs ≡ length ys
      → Le r xs ys
      → Le r (step g i xs) (step g i ys)
  unfolding step
  step_mono i r xs ys e h j t = ground (
    arith,
    get_or-set xs i j (transfer (node_at g i) xs) 0,
    get_or-set ys i j (transfer (node_at g i) ys) 0,
    transfer_mono (node_at g i) r xs ys h,
    h j,
  )

  pub pass_mono :
      (k r : ℕ) (xs ys : List ℕ)
      → length xs ≡ length ys
      → Le r xs ys
      → Le r (pass g k xs) (pass g k ys)
  unfolding pass
  pass_mono zero r xs ys e h = h
  pass_mono (suc k) r xs ys e h =
      pass_mono k r (step g k xs) (step g k ys) (length-step g k xs ∙ e ∙ sym (length-step g k ys))
        (step_mono k r xs ys e h)

abbrev digit : Bool → ℕ
digit true = 1
digit false = 0

-- How many masks have bit `r`.
pub count : ℕ → List ℕ → ℕ
count r [] = 0
count r (x ∷ xs) = digit (testbit x r) + count r xs

pub count-le-length : (r : ℕ) (xs : List ℕ) → count r xs ≤ length xs
unfolding count
count-le-length r [] = omega arith
count-le-length r (x ∷ xs) = ground (arith, count-le-length r xs)

pub count_mono :
    (r : ℕ) (xs ys : List ℕ) → length xs ≡ length ys → Le r xs ys → count r xs ≤ count r ys
unfolding count
count_mono r [] [] e h = omega arith
count_mono r [] (y ∷ ys) e h = absurd (omega arith)
count_mono r (x ∷ xs) [] e h = absurd (omega arith)
count_mono r (x ∷ xs) (y ∷ ys) e h =
    ground (arith, h 0, count_mono r xs ys (omega arith) (λ i. h (suc i)))

Le_cons :
    (r x y : ℕ) (xs ys : List ℕ)
    → (testbit y r ≡ true → testbit x r ≡ true)
    → Le r ys xs
    → Le r (y ∷ ys) (x ∷ xs)
Le_cons r x y xs ys head rest zero t = head t
Le_cons r x y xs ys head rest (suc i) t = rest i t

-- Masks that only rise have not risen, or more of them have the bit.
pub Le_rise :
    (r : ℕ) (xs ys : List ℕ)
    → length xs ≡ length ys
    → Le r xs ys
    → Le r ys xs ⊎ (count r xs < count r ys)
unfolding count
Le_rise r [] [] e h = inl (λ i t. t)
Le_rise r [] (y ∷ ys) e h = absurd (omega arith)
Le_rise r (x ∷ xs) [] e h = absurd (omega arith)
Le_rise r (x ∷ xs) (y ∷ ys) e h =
    let tails : length xs ≡ length ys = omega arith in
    let fewer = count_mono r xs ys tails (λ i. h (suc i)) in
    elim (Le_rise r xs ys tails (λ i. h (suc i))) [
      | inr rise ↦ inr (ground (arith, h 0))
      | inl back ↦ elim (Bool-cases (testbit x r)) [
        | inl old ↦ inl (Le_cons r x y xs ys (λ _. old) back)
        | inr new ↦ elim (Bool-cases (testbit y r)) [
          | inl now ↦ inr (ground arith)
          | inr never ↦ inl (Le_cons r x y xs ys (λ t. cc) back)
        ]
      ]
    ]

pub Le_antisym :
    (xs ys : List ℕ)
    → length xs ≡ length ys
    → ((r : ℕ) → Le r xs ys)
    → ((r : ℕ) → Le r ys xs)
    → xs ≡ ys
Le_antisym xs ys e p q =
    get_or_ext 0 xs ys e
      λ i. testbit_ext (live_at xs i) (live_at ys i) λ r. ground (arith, p r i, q r i)
