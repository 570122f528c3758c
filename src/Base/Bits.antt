-- ===== src/Base/Bits.antt =====
-- Bit masks at variables: `testbit m k` is bit k of m, and each bit operation is read through it.
use Prim.Native.Nat.{ℕ, zero, suc, ◌+◌, ◌*◌, ◌/◌, ◌%◌, ◌^◌, ◌≤◌, ◌<◌, min, max}
use Prim.Native.Nat.{bit_and, bit_or, bit_xor, digits, differ}
use Prim.Native.Nat.{bit_and-bitwise, bit_or-bitwise, bit_xor-bitwise}
use mathlib.Core.Path.{◌≡◌, refl, ap, ap₂, ◌∙◌, sym}
use mathlib.Core.Logic.{◌≢◌, ◌⊎◌, inl, inr}
use mathlib.Core.Bool.{Bool, true, false, ◌&&◌, ◌||◌, xor}
use native.Mathlib.Omega.{arith}
use native.Mathlib.Nat.{le_refl, pow-suc, mod-eq_of_lt, pow-le-pow_right}
use verifierloop.Base.Tests.{◌==◌, ltb, ltb→lt, Bool-cases}

abbrev pub odd : ℕ → Bool
odd a = a % 2 == 1

abbrev pub testbit : ℕ → ℕ → Bool
testbit a zero = odd a
testbit a (suc k) = testbit (a / 2) k

pub testbit-zero : (k : ℕ) → testbit 0 k ≡ false
testbit-zero zero = refl
testbit-zero (suc k) = testbit-zero k

-- A native operation runs over the digits of its first operand, on fuel that is enough; `op` is
-- what it does to a pair of bits.
record Digitwise (z : ℕ → ℕ) (f : ℕ → ℕ → ℕ) (op : Bool → Bool → Bool) : Type 0 where
  tail : (y k : ℕ) → testbit (z y) k ≡ op false (testbit y k)
  digit : (x y : ℕ) → x < 2 → y < 2 → (f x y < 2) × (odd (f x y) ≡ op (odd x) (odd y))

last_digit : (r t : ℕ) → odd (r * 2 + t) ≡ odd t
last_digit r t = ground arith

last_digit_mod : (x : ℕ) → odd (x % 2) ≡ odd x
last_digit_mod x = ground arith

module _ {z : ℕ → ℕ} {f : ℕ → ℕ → ℕ} {op : Bool → Bool → Bool} (d : Digitwise z f op) where
  testbit-digits :
      (k fuel x y : ℕ) → x ≤ fuel → testbit (digits z f fuel x y) k ≡ op (testbit x k) (testbit y k)
  testbit-digits k zero zero y h = rw (testbit-zero k) (d.tail y k)
  testbit-digits k zero (suc x) y h = absurd (omega arith)
  testbit-digits k (suc fuel) zero y h = rw (testbit-zero k) (d.tail y k)
  testbit-digits zero (suc fuel) (suc x) y h =
      let t = f (suc x % 2) (y % 2) in
      let (small, same) = d.digit (suc x % 2) (y % 2) (omega arith) (omega arith) in
      last_digit (digits z f fuel (suc x / 2) (y / 2)) t
      ∙ same
      ∙ ap₂ op (last_digit_mod (suc x)) (last_digit_mod y)
  testbit-digits (suc k) (suc fuel) (suc x) y h =
      let r = digits z f fuel (suc x / 2) (y / 2) in
      let (small, same) = d.digit (suc x % 2) (y % 2) (omega arith) (omega arith) in
      let upper : (r * 2 + f (suc x % 2) (y % 2)) / 2 ≡ r = omega (arith, small) in
      rw upper (testbit-digits k fuel (suc x / 2) (y / 2) (omega arith))

module _ (P : ℕ → ℕ → Type 0) (p00 : P 0 0) (p01 : P 0 1) (p10 : P 1 0) (p11 : P 1 1) where
  on_digits : (x y : ℕ) → x < 2 → y < 2 → P x y
  on_digits zero zero h k = p00
  on_digits zero (suc zero) h k = p01
  on_digits (suc zero) zero h k = p10
  on_digits (suc zero) (suc zero) h k = p11
  on_digits x (suc (suc y)) h k = absurd (omega arith)
  on_digits (suc (suc x)) y h k = absurd (omega arith)

-- What `Digitwise` asks of a pair of digits.
abbrev OnDigits : (ℕ → ℕ → ℕ) → (Bool → Bool → Bool) → ℕ → ℕ → Type 0
OnDigits f op x y = (f x y < 2) × (odd (f x y) ≡ op (odd x) (odd y))

or-Digitwise : Digitwise (λ y. y) max ◌||◌
or-Digitwise = record {
  tail = λ y k. refl;
  digit =
      on_digits (OnDigits max ◌||◌) (omega arith, refl) (omega arith, refl) (omega arith, refl)
        (omega arith, refl);
}

and-Digitwise : Digitwise (λ y. 0) min ◌&&◌
and-Digitwise = record {
  tail = λ y k. testbit-zero k;
  digit =
      on_digits (OnDigits min ◌&&◌) (omega arith, refl) (omega arith, refl) (omega arith, refl)
        (omega arith, refl);
}

xor-Digitwise : Digitwise (λ y. y) differ xor
unfolding xor
xor-Digitwise = record {
  tail = λ y k. ground arith;
  digit =
      on_digits (OnDigits differ xor) (omega arith, refl) (omega arith, refl) (omega arith, refl)
        (omega arith, refl);
}

pub testbit-bit_or : (a b k : ℕ) → testbit (bit_or a b) k ≡ (testbit a k || testbit b k)
testbit-bit_or a b k = simp bit_or-bitwise (testbit-digits or-Digitwise k a a b (le_refl a))

pub testbit-bit_and : (a b k : ℕ) → testbit (bit_and a b) k ≡ (testbit a k && testbit b k)
testbit-bit_and a b k = simp bit_and-bitwise (testbit-digits and-Digitwise k a a b (le_refl a))

pub testbit-bit_xor : (a b k : ℕ) → testbit (bit_xor a b) k ≡ xor (testbit a k) (testbit b k)
testbit-bit_xor a b k = simp bit_xor-bitwise (testbit-digits xor-Digitwise k a a b (le_refl a))

-- Numbers with the same bits are the same number.
testbit_ext_fuel : (n a b : ℕ) → a + b ≤ n → ((k : ℕ) → testbit a k ≡ testbit b k) → a ≡ b
testbit_ext_fuel zero a b h e = omega arith
testbit_ext_fuel (suc n) a b h e =
    let low : odd a ≡ odd b = e 0 in
    elim (Split a b) [
      | inl z ↦ omega arith
      | inr nz ↦
          let half = testbit_ext_fuel n (a / 2) (b / 2) (omega arith) (λ k. e (suc k)) in
          ground arith
    ]
  where
    Split : (a b : ℕ) → (a + b ≡ 0) ⊎ (0 < a + b)
    Split a b = omega arith

pub testbit_ext : (a b : ℕ) → ((k : ℕ) → testbit a k ≡ testbit b k) → a ≡ b
testbit_ext a b e = testbit_ext_fuel (a + b) a b (le_refl _) e

pub testbit-two_pow_self : (k : ℕ) → testbit (2 ^ k) k ≡ true
testbit-two_pow_self zero = refl
testbit-two_pow_self (suc k) =
    let e : 2 ^ suc k / 2 ≡ 2 ^ k = omega (arith, pow-suc 2 k) in rw e (testbit-two_pow_self k)

pub testbit-two_pow_ne : (k j : ℕ) → k ≢ j → testbit (2 ^ k) j ≡ false
testbit-two_pow_ne zero zero h = absurd (h refl)
testbit-two_pow_ne zero (suc j) h = testbit-zero j
testbit-two_pow_ne (suc k) zero h = let e = pow-suc 2 k in ground arith
testbit-two_pow_ne (suc k) (suc j) h =
    let e : 2 ^ suc k / 2 ≡ 2 ^ k = omega (arith, pow-suc 2 k) in
    rw e (testbit-two_pow_ne k j (λ q. h (ap suc q)))

-- A 16-bit shift of one bit loses nothing below bit 16.
pub two_pow_mod : (k : ℕ) → k < 16 → 2 ^ k % 2 ^ 16 ≡ 2 ^ k
two_pow_mod k h =
    let below : 2 ^ suc k ≤ 2 ^ 16 = pow-le-pow_right (omega arith) h in
    let more : 0 < 2 ^ k = pow-le-pow_right {n = 2} (omega arith) {i = 0} {j = k} (omega arith) in
    mod-eq_of_lt (omega (arith, pow-suc 2 k))

-- Over a small range, check every value by evaluation.
abbrev pub all_below : ℕ → (ℕ → Bool) → Bool
all_below zero p = true
all_below (suc n) p = p n && all_below n p

pub all_below_sound : (n : ℕ) (p : ℕ → Bool) (x : ℕ) → all_below n p ≡ true → x < n → p x ≡ true
all_below_sound zero p x h lt = absurd (omega arith)
all_below_sound (suc n) p x h lt = ground (arith, all_below_sound n p x)

-- A number below 2 ^ n has no bit from n on.
pub testbit_high : (n k x : ℕ) → x < 2 ^ n → n ≤ k → testbit x k ≡ false
testbit_high zero k x h le = let z : x ≡ 0 = omega arith in rw z (testbit-zero k)
testbit_high (suc n) zero x h le = absurd (omega arith)
testbit_high (suc n) (suc k) x h le =
    testbit_high n k (x / 2) (omega (arith, pow-suc 2 n)) (omega arith)

-- A word of 64 bits is kept by the mask of all ones.
pub word_bits : (x k : ℕ) → x < 2 ^ 64 → (testbit x k && testbit 0xffffffffffffffff k) ≡ testbit x k
word_bits x k h = elim (Bool-cases (ltb k 64)) [
  | inl low ↦
      let ones = all_below_sound 64 (testbit 0xffffffffffffffff) k refl (ltb→lt k 64 low) in
      ground arith
  | inr high ↦ let none_set = testbit_high 64 k x h (ground arith) in ground arith
]

bit_or-half : (a b : ℕ) → bit_or a b / 2 ≡ bit_or (a / 2) (b / 2)
bit_or-half a b =
    testbit_ext _ _ λ k. testbit-bit_or a b (suc k) ∙ sym (testbit-bit_or (a / 2) (b / 2) k)

pub bit_or-lt : (n a b : ℕ) → a < 2 ^ n → b < 2 ^ n → bit_or a b < 2 ^ n
bit_or-lt zero zero zero h k = omega arith
bit_or-lt zero (suc a) b h k = absurd (omega arith)
bit_or-lt zero zero (suc b) h k = absurd (omega arith)
bit_or-lt (suc n) a b h k =
    let half =
      bit_or-lt n (a / 2) (b / 2) (omega (arith, pow-suc 2 n)) (omega (arith, pow-suc 2 n)) in
    omega (arith, bit_or-half a b, half, pow-suc 2 n)

lt_of_bits : (n x : ℕ) → ((k : ℕ) → n ≤ k → testbit x k ≡ false) → x < 2 ^ n
lt_of_bits zero x h =
    let z = testbit_ext x 0 (λ k. h k (omega arith) ∙ sym (testbit-zero k)) in omega (arith, z)
lt_of_bits (suc n) x h =
    let half = lt_of_bits n (x / 2) (λ k le. h (suc k) (omega arith)) in
    let e = pow-suc 2 n in omega (arith, half, e)

pub bit_and-lt : (n a b : ℕ) → b < 2 ^ n → bit_and a b < 2 ^ n
bit_and-lt n a b h =
    lt_of_bits n (bit_and a b)
      (λ k le. let high = testbit_high n k b h le in testbit-bit_and a b k ∙ ground (arith, high))
