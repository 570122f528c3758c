-- ===== src/Gen/Replay/Scan.antt =====
-- sscanf reads back what printf prints for %u.
use verifierloop.Base.{
  ℕ, zero, suc, ◌+◌, ◌-◌, ◌*◌, ◌/◌, ◌%◌, ◌^◌, ◌<◌, ◌≡◌, true, false, List, [], ◌∷◌, ◌++◌, All,
}
use verifierloop.Base.{some, ◌==◌, ltb, arith, refl, sym, ap, ◌∙◌, Bool-cases, inl, inr}
use verifierloop.Claim.{is_digit, at_head}
use verifierloop.Gen.Replay.{
  print_digits, print_uint, read_digits, is_space, skip_space, scan_uint, as_uint,
}

pub append_assoc : (xs ys zs : List ℕ) → (xs ++ ys) ++ zs ≡ xs ++ (ys ++ zs)
append_assoc [] ys zs = refl
append_assoc (x ∷ xs) ys zs = ap (λ t. x ∷ t) (append_assoc xs ys zs)

-- A list of digits that is not empty.
pub record IsDigits (cs : List ℕ) : Type 0 where
  pub head : ℕ
  pub tail : List ℕ
  pub whole : cs ≡ head ∷ tail
  pub digit : is_digit head ≡ true
  pub others : All (λ c. is_digit c ≡ true) tail

All-snoc :
    (xs : List ℕ) (y : ℕ)
    → All (λ c. is_digit c ≡ true) xs
    → is_digit y ≡ true
    → All (λ c. is_digit c ≡ true) (xs ++ y ∷ [])
All-snoc [] y h p = (p, tt)
All-snoc (x ∷ xs) y (q, h) p = (q, All-snoc xs y h p)

print_digits-IsDigits : (f n : ℕ) → n < f → IsDigits (print_digits f n)
unfolding print_digits
print_digits-IsDigits zero n lt = absurd (omega arith)
print_digits-IsDigits (suc f) n lt = elim (Bool-cases (ltb n 10)) [
  | inl e ↦
      rw e (record {
        head = b'0' + n;
        tail = [];
        whole = refl;
        digit = ground (arith, e);
        others = tt;
      })
  | inr e ↦
      let d = print_digits-IsDigits f (n / 10) (ground (arith, e)) in
      rw e (record {
        head = d.head;
        tail = d.tail ++ (b'0' + n % 10) ∷ [];
        whole = ap (λ t. t ++ (b'0' + n % 10) ∷ []) d.whole;
        digit = d.digit;
        others = All-snoc d.tail (b'0' + n % 10) d.others (ground arith);
      })
]

read_digits-print :
    (f n : ℕ) (rest : List ℕ)
    → n < f
    → read_digits 0 (print_digits f n ++ rest) ≡ read_digits n rest
unfolding print_digits read_digits
read_digits-print zero n rest lt = absurd (omega arith)
read_digits-print (suc f) n rest lt = elim (Bool-cases (ltb n 10)) [
  | inl e ↦
      let digit : is_digit (b'0' + n) ≡ true = ground (arith, e) in
      let value : 0 * 10 + (b'0' + n - b'0') ≡ n = omega arith in rw (e, digit, value) refl
  | inr e ↦
      let digit : is_digit (b'0' + n % 10) ≡ true = ground arith in
      let value : n / 10 * 10 + (b'0' + n % 10 - b'0') ≡ n = omega arith in
      let more = read_digits-print f (n / 10) ((b'0' + n % 10) ∷ rest) (ground (arith, e)) in
      let step : read_digits (n / 10) ((b'0' + n % 10) ∷ rest) ≡ read_digits n rest =
        rw (digit, value) refl in
      rw (e, append_assoc (print_digits f (n / 10)) ((b'0' + n % 10) ∷ []) rest) (more ∙ step)
]

read_digits-stop :
    (n : ℕ) (rest : List ℕ)
    → at_head is_digit rest ≡ false
    → read_digits n rest ≡ record { value = n; rest = rest }
unfolding read_digits
read_digits-stop n [] h = refl
read_digits-stop n (c ∷ rest) h = rw h refl

pub print_uint-IsDigits : (n : ℕ) → IsDigits (print_uint n)
unfolding print_uint
print_uint-IsDigits n = print_digits-IsDigits (suc n) n (omega arith)

-- A digit is no space and no sign.
scan_uint_digit :
    (c : ℕ) (cs : List ℕ)
    → is_digit c ≡ true
    → scan_uint (c ∷ cs) ≡ some (as_uint false (read_digits 0 (c ∷ cs)))
unfolding scan_uint skip_space
scan_uint_digit c cs h =
    let space : is_space c ≡ false = ground (arith, h) in
    let minus : (c == b'-') ≡ false = ground (arith, h) in
    let plus : (c == b'+') ≡ false = ground (arith, h) in rw (space, minus, plus, h) refl

pub scan_uint-print :
    (n : ℕ) (rest : List ℕ)
    → n < 2 ^ 32
    → at_head is_digit rest ≡ false
    → scan_uint (print_uint n ++ rest) ≡ some (record { value = n; rest = rest })
unfolding print_uint
scan_uint-print n rest small h =
    let d = print_uint-IsDigits n in
    let whole : print_digits (suc n) n ++ rest ≡ d.head ∷ (d.tail ++ rest) =
      ap (λ t. t ++ rest) d.whole in
    let back : read_digits 0 (d.head ∷ (d.tail ++ rest)) ≡ record { value = n; rest = rest } =
      ap (λ t. read_digits 0 t) (sym whole)
      ∙ (read_digits-print (suc n) n rest (omega arith) ∙ read_digits-stop n rest h) in
    let fits : ltb n (2 ^ 64) ≡ true = ground (arith, small) in
    let same : n % 2 ^ 32 ≡ n = omega (arith, small) in
    ap scan_uint whole
    ∙ (scan_uint_digit d.head (d.tail ++ rest) d.digit ∙ rw (back, fits, same) refl)
