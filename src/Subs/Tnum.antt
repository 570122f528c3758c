-- ===== src/Subs/Tnum.antt =====
-- harness/bpfsubs.h, known bits: subs_tnum_in. A tnum {v, m} stands for the words x with
-- x & ~m = v.
use verifierloop.Base.{ℕ, ◌^◌, ◌<◌, ◌≡◌, ◌↔◌, Bool, true, false}
use verifierloop.Base.{arith, ◌==◌, if◌then◌else◌, bit_and, bit_or, bit_xor}
use verifierloop.Base.{ap}
use verifierloop.Base.Bits.{testbit, testbit-bit_and, testbit-bit_or, testbit-bit_xor, testbit_ext}
use verifierloop.Base.Bits.{testbit-zero, word_bits, bit_or-lt}
use mathlib.Core.Bool.{xor}

-- ~a on uint64_t.
abbrev pub complement : ℕ → ℕ
complement a = bit_xor a 0xffffffffffffffff

unfoldable pub tnum_in : ℕ → ℕ → ℕ → ℕ → Bool
tnum_in av am bv bm =
    if bit_and bm (complement am) == 0 then av == bit_and bv (complement am) else false

abbrev pub InTnum : ℕ → ℕ → ℕ → Type 0
InTnum v m x = bit_and x (complement m) ≡ v

module _ (av am bv bm : ℕ) where
  pub tnum_in_sound :
      (x : ℕ) → x < 2 ^ 64 → tnum_in av am bv bm ≡ true → InTnum bv bm x → InTnum av am x
  unfolding tnum_in xor
  tnum_in_sound x small h i =
      let none_new : bit_and bm (complement am) ≡ 0 = ground arith in
      let value : av ≡ bit_and bv (complement am) = ground arith in
      testbit_ext _ _ (λ k. ground (
        arith,
        word_bits x k small,
        testbit-bit_and x (complement am) k,
        testbit-bit_and x (complement bm) k,
        testbit-bit_and bv (complement am) k,
        testbit-bit_and bm (complement am) k,
        testbit-bit_xor am 0xffffffffffffffff k,
        testbit-bit_xor bm 0xffffffffffffffff k,
        testbit-zero k,
      ))

  -- A tnum whose value has a bit under its mask is not one; the others hold their own value, and
  -- their value with every unknown bit set.
  tnum_in_complete :
      bit_and bv bm ≡ 0
      → bv < 2 ^ 64
      → bm < 2 ^ 64
      → ((x : ℕ) → x < 2 ^ 64 → InTnum bv bm x → InTnum av am x)
      → tnum_in av am bv bm ≡ true
  unfolding tnum_in xor
  tnum_in_complete apart v_small m_small h = ground (arith, h bv v_small low, top)
    where
      low : InTnum bv bm bv
      low = testbit_ext _ _ (λ k. ground (
        arith,
        word_bits bv k v_small,
        testbit-bit_and bv (complement bm) k,
        testbit-bit_and bv bm k,
        testbit-bit_xor bm 0xffffffffffffffff k,
        testbit-zero k,
      ))

      high : InTnum bv bm (bit_or bv bm)
      high = testbit_ext _ _ (λ k. ground (
        arith,
        word_bits bv k v_small,
        word_bits bm k m_small,
        testbit-bit_or bv bm k,
        testbit-bit_and (bit_or bv bm) (complement bm) k,
        testbit-bit_and bv bm k,
        testbit-bit_xor bm 0xffffffffffffffff k,
        testbit-zero k,
      ))

      union_small : bit_or bv bm < 2 ^ 64
      union_small = bit_or-lt 64 bv bm v_small m_small

      top : bit_and bm (complement am) ≡ 0
      top =
          let below : InTnum av am bv = h bv v_small low in
          let above : InTnum av am (bit_or bv bm) = h (bit_or bv bm) union_small high in
          testbit_ext _ _ (λ k. ground (
            arith,
            ap (λ y. testbit y k) below,
            ap (λ y. testbit y k) above,
            ap (λ y. testbit y k) apart,
            testbit-bit_or bv bm k,
            testbit-bit_and bv bm k,
            testbit-bit_and bv (complement am) k,
            testbit-bit_and bm (complement am) k,
            testbit-bit_and (bit_or bv bm) (complement am) k,
            testbit-zero k,
          ))

-- For a tnum {bv, bm} of words below 2 ^ 64 that has no value bit under its mask: subs_tnum_in
-- accepts exactly when every word that {bv, bm} stands for is one that {av, am} stands for.
pub tnum_in_iff :
    (av am bv bm : ℕ)
    → bit_and bv bm ≡ 0
    → bv < 2 ^ 64
    → bm < 2 ^ 64
    → (tnum_in av am bv bm ≡ true) ↔ ((x : ℕ) → x < 2 ^ 64 → InTnum bv bm x → InTnum av am x)
tnum_in_iff av am bv bm apart v_small m_small = (
  λ h x small i. tnum_in_sound av am bv bm x small h i,
  tnum_in_complete av am bv bm apart v_small m_small,
)
