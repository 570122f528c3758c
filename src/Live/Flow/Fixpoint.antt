-- ===== src/Live/Flow/Fixpoint.antt =====
-- The sweeps stop at a fixed point before the bound on the rounds is met.
use verifierloop.Base.{ℕ, zero, suc, ◌+◌, ◌<◌, ◌≡◌, refl, sym, ◌∙◌, ◌⊎◌, inl, inr, arith}
use verifierloop.Base.{false, List, length, Bool-cases, replicate, length-replicate}
use verifierloop.Base.{get_or-replicate}
use mathlib.Core.Bool.{false≢true}
use verifierloop.Base.Bits.{testbit, testbit-zero}
use verifierloop.Live.Flow.{Node, node_at, live_at, transfer, rounds}
use verifierloop.Live.Flow.Sweep.{pass, swept, rounds_more, rounds_done, length-pass, pass_fixed}
use verifierloop.Live.Flow.Sweep.{step-eq-transfer}
use verifierloop.Live.Flow.Order.{Le, count, count-le-length, pass_mono, Le_rise, Le_antisym}

-- The masks satisfy the dataflow equation of every instruction.
abbrev pub Solves : List Node → List ℕ → Type 0
Solves g live =
    (i : ℕ)
    → i < length g
    → (node_at g i).skip ≡ false
    → live_at live i ≡ transfer (node_at g i) live

module _ (g : List Node) where
  abbrev pub next : List ℕ → List ℕ
  next live = pass g (length g) live

  -- Bit by bit: a sweep only adds, and it adds nothing or there are rounds left for what it adds.
  pub record IsRising (fuel : ℕ) (live : List ℕ) : Type 0 where
    pub size : length live ≡ length g
    pub rising : (r : ℕ) → Le r live (next live)
    pub room : (r : ℕ) → Le r (next live) live ⊎ (length g < count r live + fuel)

  IsRising-next : (fuel : ℕ) (live : List ℕ) → IsRising (suc fuel) live → IsRising fuel (next live)
  IsRising-next fuel live v =
      let same : length live ≡ length (next live) = sym (length-pass g (length g) live) in
      record {
        size = sym same ∙ v.size;
        rising = λ r. pass_mono g (length g) r live (next live) same (v.rising r);
        room = λ r. elim (v.room r) [
          | inl still ↦ inl (pass_mono g (length g) r (next live) live (sym same) still)
          | inr left ↦ elim (Le_rise r live (next live) same (v.rising r)) [
            | inl still ↦ inl (pass_mono g (length g) r (next live) live (sym same) still)
            | inr rise ↦ inr (omega arith)
          ]
        ];
      }

  still_at_zero : (live : List ℕ) → IsRising 0 live → next live ≡ live
  still_at_zero live v = sym (
      Le_antisym live (next live) (sym (length-pass g (length g) live)) v.rising λ r.
        elim (v.room r) [
          | inl still ↦ still
          | inr left ↦ absurd (omega (arith, count-le-length r live, v.size))
        ])

  pub rounds_fixed :
      (fuel : ℕ) (live : List ℕ)
      → IsRising fuel live
      → (next (rounds g fuel live) ≡ rounds g fuel live) × (length (rounds g fuel live) ≡ length g)
  unfolding rounds
  rounds_fixed zero live v = (still_at_zero live v, v.size)
  rounds_fixed (suc fuel) live v = elim (Bool-cases (swept g live).changed) [
    | inl c ↦
        rw (rounds_more g fuel live c) (rounds_fixed fuel (next live) (IsRising-next fuel live v))
    | inr c ↦ let (done, fixed) = rounds_done g fuel live c in rw done (fixed, v.size)
  ]

  blank-IsRising : (fuel n : ℕ) → n ≡ length g → length g < fuel → IsRising fuel (replicate n 0)
  blank-IsRising fuel n e h = record {
    size = length-replicate n 0 ∙ e;
    rising = λ r i t. absurd (false≢true (sym (unset i r) ∙ t));
    room = λ r. inr (omega arith);
  }
    where
      unset : (i r : ℕ) → testbit (live_at (replicate n 0) i) r ≡ false
      unset i r = rw (get_or-replicate {A = ℕ} n i 0) (testbit-zero r)

  -- More rounds than instructions are enough: the result solves the equations.
  pub rounds-Solves :
      (fuel : ℕ) → length g < fuel → Solves g (rounds g fuel (replicate (length g) 0))
  rounds-Solves fuel h i lt live_slot =
      let live = rounds g fuel (replicate (length g) 0) in
      let (fixed, size) =
        rounds_fixed fuel (replicate (length g) 0) (blank-IsRising fuel (length g) refl h) in
      step-eq-transfer g i live (pass_fixed g (length g) i live fixed lt) (omega arith) live_slot
