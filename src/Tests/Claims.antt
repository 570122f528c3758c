-- ===== src/Tests/Claims.antt =====
-- The claim lookup at concrete inputs.
use verifierloop.Base.{
  ℕ, ◌+◌, ◌-◌, ◌*◌, ◌↔◌, ◌≡◌, false, List, [], ◌∷◌, Option, some, none, if◌then◌else◌, refl, arith,
  All,
}
use verifierloop.Claim.{Libc, claim_ok, is_digit, claim_at, claim_find_field, lines, umax_name}
use verifierloop.Claim.{
  find_field, find_reg, find_paren, find_close, read_value, claim_read_value, group_reading,
  typed_reading, value_reading, line_reading, take_reading, walk, conclude,
}
use verifierloop.Claim.Hull.{IsWord, IsHull, readings, claim_at-IsHull}
use verifierloop.Claim.Field.{Anchored, claim_find_field_iff}

-- The number that the digits at the head of a text spell.
abbrev digits : ℕ → List ℕ → ℕ
digits v [] = v
digits v (c ∷ cs) = if is_digit c then digits (v * 10 + (c - b'0')) cs else v

abbrev read_digits : List ℕ → Option ℕ
read_digits [] = none
read_digits (c ∷ cs) = if is_digit c then some (digits 0 (c ∷ cs)) else none

-- A library that prints numbers of one digit, and reads numbers without a sign.
abbrev small_libc : Libc
small_libc = record { print_int = λ n. (b'0' + n) ∷ []; strtoll = read_digits; strtoull = digits 0 }

abbrev two_paths : List ℕ
two_paths =
    b'5' ∷ b':' ∷ b' ' ∷ b'(' ∷ b'b' ∷ b'f' ∷ b')' ∷ b' ' ∷ b'R' ∷ b'6' ∷ b'=' ∷ b's' ∷ b'c' ∷ b'a'
    ∷ b'l' ∷ b'a' ∷ b'r' ∷ b'(' ∷ b'u' ∷ b'm' ∷ b'i' ∷ b'n' ∷ b'=' ∷ b'2' ∷ b',' ∷ b'u' ∷ b'm'
    ∷ b'a' ∷ b'x' ∷ b'=' ∷ b'9' ∷ b')' ∷ 10 ∷ b'5' ∷ b':' ∷ b' ' ∷ b'(' ∷ b'b' ∷ b'f' ∷ b')' ∷ b' '
    ∷ b'R' ∷ b'6' ∷ b'=' ∷ b'7' ∷ 10 ∷ []

two_paths_claim :
    claim_at small_libc two_paths 5 6 ≡ record { status = claim_ok; umin = 2; umax = 9 }
unfolding claim_at walk conclude take_reading line_reading value_reading typed_reading group_reading
    claim_read_value read_value find_close find_paren find_reg claim_find_field find_field lines
two_paths_claim = refl

two_paths-IsWord : All IsWord (readings small_libc 5 6 (lines two_paths))
unfolding line_reading value_reading typed_reading group_reading claim_read_value read_value
    find_close find_paren find_reg claim_find_field find_field lines
two_paths-IsWord = ((omega arith, omega arith), ((omega arith, omega arith), tt))

claim_at-IsHull_example :
    IsHull (readings small_libc 5 6 (lines two_paths)) (claim_at small_libc two_paths 5 6)
claim_at-IsHull_example = claim_at-IsHull small_libc two_paths 5 6 two_paths-IsWord

abbrev fields : List ℕ
fields =
    b'(' ∷ b'u' ∷ b'3' ∷ b'2' ∷ b'_' ∷ b'u' ∷ b'm' ∷ b'a' ∷ b'x' ∷ b'=' ∷ b'3' ∷ b',' ∷ b'u' ∷ b'm'
    ∷ b'a' ∷ b'x' ∷ b'=' ∷ b'9' ∷ b')' ∷ []

claim_find_field_iff_example :
    ((rest : List ℕ) × (claim_find_field fields umax_name ≡ some rest))
    ↔ Anchored umax_name false fields
claim_find_field_iff_example = claim_find_field_iff umax_name fields

-- The anchored field is read, and not the one inside a longer name.
fields_found : claim_find_field fields umax_name ≡ some (b'9' ∷ b')' ∷ [])
unfolding claim_find_field find_field
fields_found = refl
