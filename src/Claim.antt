-- ===== src/Claim.antt =====
-- harness/bpfclaim.h: the bounds that the verifier's log claims for a register before an
-- instruction. Text is a list of bytes; where C has a pointer and an end, the bytes from the one to
-- the other stand in one list and those from the end on in another.
pub mod Hull
pub mod Field
use verifierloop.Base.{
  ℕ, zero, suc, ◌+◌, ◌-◌, ◌^◌, Bool, true, false, ◌&&◌, ◌||◌, not, List, [], ◌∷◌, ◌++◌, length,
}
use verifierloop.Base.{starts, Option, none, some, ◌==◌, leb, ltb, if◌then◌else◌}

-- What the C library does: the digits that "%d" prints, and the value that strtoll and strtoull
-- read, as a 64-bit pattern; `none` where they read nothing.
pub record Libc : Type 0 where
  pub print_int : ℕ → List ℕ
  pub strtoll : List ℕ → Option ℕ
  pub strtoull : List ℕ → ℕ

abbrev pub is_digit : ℕ → Bool
is_digit c = leb b'0' c && leb c b'9'

abbrev pub is_ident : ℕ → Bool
is_ident c = (leb b'a' c && leb c b'z') || (leb b'A' c && leb c b'Z') || is_digit c || c == b'_'

abbrev pub skip_bytes : ℕ → List ℕ → List ℕ
skip_bytes zero cs = cs
skip_bytes (suc n) [] = []
skip_bytes (suc n) (c ∷ cs) = skip_bytes n cs

-- claim_find_field, from a byte on; `inner` says that an identifier's byte stands before it.
unfoldable pub find_field : List ℕ → Bool → List ℕ → Option (List ℕ)
find_field name inner [] = none
find_field name inner (c ∷ cs) =
    let rest = find_field name (is_ident c) cs in
    if not (ltb (length name) (length (c ∷ cs)))
    then none
    else if starts name (c ∷ cs) && not inner
    then some (skip_bytes (length name) (c ∷ cs))
    else rest

unfoldable pub claim_find_field : List ℕ → List ℕ → Option (List ℕ)
claim_find_field s name = find_field name false s

abbrev pub skip_spaces : List ℕ → List ℕ
skip_spaces [] = []
skip_spaces (c ∷ cs) = if c == b' ' then skip_spaces cs else c ∷ cs

abbrev pub skip_ident : List ℕ → List ℕ
skip_ident [] = []
skip_ident (c ∷ cs) = if is_ident c then skip_ident cs else c ∷ cs

-- The byte at the head of a list is one of those.
abbrev pub at_head : (ℕ → Bool) → List ℕ → Bool
at_head p [] = false
at_head p (c ∷ cs) = p c

abbrev pub starts_number : ℕ → Bool
starts_number c = c == b'-' || is_digit c

-- claim_read_value, for the hops that are left.
unfoldable pub read_value : Libc → ℕ → List ℕ → List ℕ → Option ℕ
read_value lc zero p after = none
read_value lc (suc n) [] after = none
read_value lc (suc n) (c ∷ cs) after =
    let p = skip_spaces (c ∷ cs) in
    let q = skip_ident p in
    let rest = read_value lc n (skip_bytes 1 q) after in
    if at_head starts_number p
    then lc.strtoll (p ++ after)
    else if at_head is_ident p && at_head (λ d. d == b'=') q
    then rest
    else none

unfoldable pub claim_read_value : Libc → List ℕ → List ℕ → Option ℕ
claim_read_value lc p after = read_value lc 8 p after

-- The search for `R%d=`: what stands after it on the line.
unfoldable pub find_reg : List ℕ → Bool → List ℕ → Option (List ℕ)
find_reg tok spaced [] = none
find_reg tok spaced (c ∷ cs) =
    let rest = find_reg tok (c == b' ') cs in
    if not (ltb 3 (length (c ∷ cs)))
    then none
    else if spaced && starts tok (c ∷ cs)
    then some (skip_bytes (length tok) (c ∷ cs))
    else rest

-- strchr(v, '('), on the line.
unfoldable pub find_paren : List ℕ → Option (List ℕ)
find_paren [] = none
find_paren (c ∷ cs) = if c == b'(' then some (c ∷ cs) else find_paren cs

-- The bytes of a group before the parenthesis that closes it, and those from there on.
pub record Group : Type 0 where
  pub inside : List ℕ
  pub after : List ℕ

abbrev pub add_inside : ℕ → Option Group → Option Group
add_inside c none = none
add_inside c (some g) = some (record { inside = c ∷ g.inside; after = g.after })

unfoldable pub find_close : ℕ → List ℕ → Option Group
find_close depth [] = none
find_close depth (c ∷ cs) =
    let opened = find_close (depth + 1) cs in
    let closed = find_close (depth - 1) cs in
    let same = find_close depth cs in
    if c == b'('
    then add_inside c opened
    else if c == b')'
    then if depth == 1 then some (record { inside = []; after = c ∷ cs }) else add_inside c closed
    else add_inside c same

-- What one occurrence on a line says.
pub data Reading : Type 0 where
  bounds : ℕ → ℕ → Reading
  unreadable : Reading

abbrev pub exact_reading : Option ℕ → Reading
exact_reading none = unreadable
exact_reading (some a) = bounds a a

abbrev pub upper_reading : ℕ → Option ℕ → Reading
upper_reading a none = unreadable
upper_reading a (some b) = bounds a b

abbrev pub read_field : Libc → List ℕ → Option (List ℕ) → Option ℕ
read_field lc after none = none
read_field lc after (some p) = claim_read_value lc p after

-- The three fields of a group: umin, umax, imm.
unfoldable pub group_reading :
    Libc → List ℕ → Option (List ℕ) → Option (List ℕ) → Option (List ℕ) → Reading
group_reading lc after mn none im = exact_reading (read_field lc after im)
group_reading lc after none (some mx) im = upper_reading 0 (claim_read_value lc mx after)
group_reading lc after (some mn) (some mx) im = lower (claim_read_value lc mn after)
  where
    lower : Option ℕ → Reading
    lower none = unreadable
    lower (some a) = upper_reading a (claim_read_value lc mx after)

abbrev pub umin_name : List ℕ
umin_name = b'u' ∷ b'm' ∷ b'i' ∷ b'n' ∷ b'=' ∷ []

abbrev pub umax_name : List ℕ
umax_name = b'u' ∷ b'm' ∷ b'a' ∷ b'x' ∷ b'=' ∷ []

abbrev pub imm_name : List ℕ
imm_name = b'i' ∷ b'm' ∷ b'm' ∷ b'=' ∷ []

unfoldable pub typed_reading : Libc → List ℕ → Option Group → Reading
typed_reading lc rest none = unreadable
typed_reading lc rest (some g) =
    group_reading lc (g.after ++ rest) (claim_find_field g.inside umin_name)
      (claim_find_field g.inside umax_name) (claim_find_field g.inside imm_name)

abbrev pub paren_reading : Libc → List ℕ → Option (List ℕ) → Reading
paren_reading lc rest none = unreadable
paren_reading lc rest (some gs) = typed_reading lc rest (find_close 0 gs)

unfoldable pub value_reading : Libc → List ℕ → List ℕ → Reading
value_reading lc v rest =
    if at_head is_digit v
    then exact_reading (some (lc.strtoull (v ++ rest)))
    else paren_reading lc rest (find_paren v)

-- A line, and the text from its end on.
pub record Line : Type 0 where
  pub text : List ℕ
  pub rest : List ℕ

abbrev pub add_byte : ℕ → List Line → List Line
add_byte c [] = record { text = c ∷ []; rest = [] } ∷ []
add_byte c (l ∷ ls) = record { text = c ∷ l.text; rest = l.rest } ∷ ls

unfoldable pub lines : List ℕ → List Line
lines [] = []
lines (c ∷ cs) =
    if c == 10 then record { text = []; rest = c ∷ cs } ∷ lines cs else add_byte c (lines cs)

abbrev pub reg_reading : Libc → List ℕ → Option (List ℕ) → Option Reading
reg_reading lc rest none = none
reg_reading lc rest (some v) = some (value_reading lc v rest)

unfoldable pub line_reading : Libc → ℕ → ℕ → Line → Option Reading
line_reading lc insn reg l =
    if starts (lc.print_int insn ++ (b':' ∷ b' ' ∷ b'(' ∷ [])) l.text
    then reg_reading lc l.rest (find_reg (b'R' ∷ (lc.print_int reg ++ b'=' ∷ [])) true l.text)
    else none

-- `seen`, `unparsed`, `lo` and `hi`.
pub record Union : Type 0 where
  pub seen : ℕ
  pub unparsed : ℕ
  pub lo : ℕ
  pub hi : ℕ

unfoldable pub take_reading : Reading → Union → Union
take_reading (bounds a b) u = record {
  seen = u.seen + 1;
  unparsed = u.unparsed;
  lo = if ltb a u.lo then a else u.lo;
  hi = if ltb u.hi b then b else u.hi;
}
take_reading unreadable u = record u { unparsed = u.unparsed + 1 }

abbrev pub take_line : Option Reading → Union → Union
take_line none u = u
take_line (some r) u = take_reading r u

unfoldable pub walk : Libc → ℕ → ℕ → List Line → Union → Union
walk lc insn reg [] u = u
walk lc insn reg (l ∷ ls) u = walk lc insn reg ls (take_line (line_reading lc insn reg l) u)

pub data Status : Type 0 where
  claim_ok claim_absent claim_unparsed : Status

pub record Claim : Type 0 where
  pub status : Status
  pub umin : ℕ
  pub umax : ℕ

unfoldable pub conclude : Union → Claim
conclude u =
    if not (u.unparsed == 0)
    then record { status = claim_unparsed; umin = 0; umax = 0 }
    else if u.seen == 0
    then record { status = claim_absent; umin = 0; umax = 0 }
    else record { status = claim_ok; umin = u.lo; umax = u.hi }

abbrev pub no_union : Union
no_union = record { seen = 0; unparsed = 0; lo = 2 ^ 64 - 1; hi = 0 }

unfoldable pub claim_at : Libc → List ℕ → ℕ → ℕ → Claim
claim_at lc log insn reg = conclude (walk lc insn reg (lines log) no_union)
