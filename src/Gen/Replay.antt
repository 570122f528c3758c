-- ===== src/Gen/Replay.antt =====
-- harness/diffharness.c, fz_print_genome and the parser of run_fuzz_replay, with what printf and
-- sscanf do for the conversion %u. Text is a list of bytes.
pub mod Scan
pub mod RoundTrip
use verifierloop.Base.{
  ℕ, zero, suc, ◌+◌, ◌-◌, ◌*◌, ◌/◌, ◌%◌, ◌^◌, Bool, true, false, ◌&&◌, ◌||◌, List, [], ◌∷◌, ◌++◌,
  length,
}
use verifierloop.Base.{starts, Option, none, some, ◌==◌, leb, ltb, if◌then◌else◌}
use verifierloop.Claim.{is_digit, at_head, skip_bytes}
use verifierloop.Gen.Genome.{Gene, Genome, max_genes}

-- printf("%u"): the digits of `n`, on more fuel than there are digits.
unfoldable pub print_digits : ℕ → ℕ → List ℕ
print_digits zero n = []
print_digits (suc f) n =
    let front = print_digits f (n / 10) in
    if ltb n 10 then (b'0' + n) ∷ [] else front ++ (b'0' + n % 10) ∷ []

unfoldable pub print_uint : ℕ → List ℕ
print_uint n = print_digits (suc n) n

-- A value that was read, and the text after it.
pub record Read : Type 0 where
  pub value : ℕ
  pub rest : List ℕ

unfoldable pub read_digits : ℕ → List ℕ → Read
read_digits v [] = record { value = v; rest = [] }
read_digits v (c ∷ cs) =
    let more = read_digits (v * 10 + (c - b'0')) cs in
    if is_digit c then more else record { value = v; rest = c ∷ cs }

abbrev pub is_space : ℕ → Bool
is_space c = c == 32 || (leb 9 c && leb c 13)

unfoldable pub skip_space : List ℕ → List ℕ
skip_space [] = []
skip_space (c ∷ cs) = let rest = skip_space cs in if is_space c then rest else c ∷ cs

-- The digits are read as an unsigned long, which stops at 2 ^ 64 - 1, and kept as an unsigned int.
abbrev pub saturated : ℕ → ℕ
saturated v = if ltb v (2 ^ 64) then v else 2 ^ 64 - 1

abbrev pub as_uint : Bool → Read → Read
as_uint minus r = record {
  value = (if minus then 2 ^ 64 - saturated r.value else saturated r.value) % 2 ^ 32;
  rest = r.rest;
}

abbrev pub scan_digits : Bool → List ℕ → Option Read
scan_digits minus cs = if at_head is_digit cs then some (as_uint minus (read_digits 0 cs)) else none

abbrev pub scan_signed : List ℕ → Option Read
scan_signed [] = none
scan_signed (c ∷ cs) =
    if c == b'-'
    then scan_digits true cs
    else if c == b'+'
    then scan_digits false cs
    else scan_digits false (c ∷ cs)

-- sscanf("%u").
unfoldable pub scan_uint : List ℕ → Option Read
scan_uint cs = scan_signed (skip_space cs)

-- The text of a format: a space stands for any white space.
unfoldable pub scan_text : List ℕ → List ℕ → Option (List ℕ)
scan_text [] cs = some cs
scan_text (w ∷ ws) cs =
    let after = scan_text ws (skip_space cs) in
    let next = scan_text ws (skip_bytes 1 cs) in
    if w == 32 then after else if at_head (λ c. c == w) cs then next else none

infixl 5 ◌>>=◌
abbrev pub ◌>>=◌ {ℓ κ} : {A : Type ℓ} {B : Type κ} → Option A → (A → Option B) → Option B
none >>= f = none
(some a) >>= f = f a

abbrev pub genes_word : List ℕ
genes_word = b'g' ∷ b'e' ∷ b'n' ∷ b'e' ∷ b's' ∷ b'=' ∷ []

abbrev pub hi_word : List ℕ
hi_word = b' ' ∷ b'h' ∷ b'i' ∷ b'=' ∷ []

abbrev pub dot : List ℕ
dot = b'.' ∷ []

-- fz_print_genome.
unfoldable pub print_gene : Gene → List ℕ
print_gene g =
    print_uint g.st
    ++ (dot
        ++ (print_uint g.a
            ++ (dot ++ (print_uint g.b ++ (dot ++ (print_uint g.k ++ (dot ++ print_uint g.opt)))))))

unfoldable pub print_more : List Gene → List ℕ
print_more [] = []
print_more (g ∷ gs) = b',' ∷ (print_gene g ++ print_more gs)

unfoldable pub print_genes : List Gene → List ℕ
print_genes [] = []
print_genes (g ∷ gs) = print_gene g ++ print_more gs

unfoldable pub print_genome : Genome → List ℕ
print_genome g =
    genes_word
    ++ (print_uint (length g.genes)
        ++ (hi_word ++ (print_uint g.hi ++ (b':' ∷ print_genes g.genes))))

-- sscanf(p, "genes=%u hi=%u", ..): the two values.
pub record Header : Type 0 where
  pub count : ℕ
  pub hi : ℕ

unfoldable pub scan_header : List ℕ → Option Header
scan_header p = do
  q ← scan_text genes_word p
  n ← scan_uint q
  r ← scan_text hi_word n.rest
  h ← scan_uint r
  some (record { count = n.value; hi = h.value })

-- sscanf(q, "%u.%u.%u.%u.%u", ..), each kept as a uint8_t.
unfoldable pub scan_gene : List ℕ → Option Gene
scan_gene q = do
  st ← scan_uint q
  q1 ← scan_text dot st.rest
  a ← scan_uint q1
  q2 ← scan_text dot a.rest
  b ← scan_uint q2
  q3 ← scan_text dot b.rest
  k ← scan_uint q3
  q4 ← scan_text dot k.rest
  opt ← scan_uint q4
  some (record {
    st = st.value % 2 ^ 8;
    a = a.value % 2 ^ 8;
    b = b.value % 2 ^ 8;
    k = k.value % 2 ^ 8;
    opt = opt.value % 2 ^ 8;
  })

-- What run_fuzz_replay makes of its argument.
pub data Parsed : Type 0 where
  parsed : Genome → Parsed
  bad_genome short_genome : Parsed
  bad_genome_at : ℕ → Parsed

-- strstr(spec, w), and what stands after strchr(p, c).
unfoldable pub find_text : List ℕ → List ℕ → Option (List ℕ)
find_text w [] = none
find_text w (c ∷ cs) =
    let rest = find_text w cs in if starts w (c ∷ cs) then some (c ∷ cs) else rest

unfoldable pub after_byte : ℕ → List ℕ → Option (List ℕ)
after_byte b [] = none
after_byte b (c ∷ cs) = let rest = after_byte b cs in if c == b then some cs else rest

abbrev pub add_gene : Gene → Parsed → Parsed
add_gene g (parsed p) = parsed (record p { genes = g ∷ p.genes })
add_gene g bad_genome = bad_genome
add_gene g short_genome = short_genome
add_gene g (bad_genome_at i) = bad_genome_at i

-- One gene, when `n` follow it: what sscanf read, the text after the comma, and the next rounds.
unfoldable pub read_after : ℕ → ℕ → ℕ → Option Gene → Option (List ℕ) → (List ℕ → Parsed) → Parsed
read_after hi i n none comma next = bad_genome_at i
read_after hi i n (some g) none next =
    if n == 0 then parsed (record { hi = hi; genes = g ∷ [] }) else short_genome
read_after hi i n (some g) (some q) next = add_gene g (next q)

-- The loop over the genes: `n` are left, and `i` were read.
unfoldable pub read_genes : ℕ → ℕ → ℕ → List ℕ → Parsed
read_genes hi i zero q = parsed (record { hi = hi; genes = [] })
read_genes hi i (suc n) q =
    read_after hi i n (scan_gene q) (after_byte b',' q) (read_genes hi (suc i) n)

abbrev pub read_body : Header → Option (List ℕ) → Parsed
read_body h none = bad_genome
read_body h (some q) = read_genes (h.hi % 2 ^ 8) 0 h.count q

unfoldable pub read_spec : List ℕ → Option Header → Parsed
read_spec p none = bad_genome
read_spec p (some h) =
    if h.count == 0 || ltb max_genes h.count then bad_genome else read_body h (after_byte b':' p)

abbrev pub read_found : Option (List ℕ) → Parsed
read_found none = bad_genome
read_found (some p) = read_spec p (scan_header p)

unfoldable pub parse_genome : List ℕ → Parsed
parse_genome spec = read_found (find_text genes_word spec)
