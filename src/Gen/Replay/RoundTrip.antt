-- ===== src/Gen/Replay/RoundTrip.antt =====
-- A printed genome is read back.
use verifierloop.Base.{
  ℕ, suc, ◌%◌, ◌^◌, ◌≤◌, ◌<◌, ◌≡◌, true, false, ◌||◌, List, [], ◌∷◌, ◌++◌, length, All,
}
use verifierloop.Base.{some, none, starts, ◌==◌, ltb, arith, refl, ap, ◌∙◌}
use verifierloop.Claim.{is_digit, at_head}
use verifierloop.Gen.Genome.{Gene, Genome, max_genes}
use verifierloop.Gen.Replay.{
  print_uint, print_gene, print_more, print_genes, print_genome, scan_text, scan_header, scan_gene,
  skip_space,
}
use verifierloop.Gen.Replay.{
  parsed, find_text, after_byte, read_after, read_genes, read_spec, read_found, parse_genome,
  genes_word, hi_word,
}
use verifierloop.Gen.Replay.Scan.{append_assoc, print_uint-IsDigits, scan_uint-print}

-- Every field of the gene is a uint8_t.
pub record IsBytes (g : Gene) : Type 0 where
  pub st : g.st < 2 ^ 8
  pub a : g.a < 2 ^ 8
  pub b : g.b < 2 ^ 8
  pub k : g.k < 2 ^ 8
  pub opt : g.opt < 2 ^ 8

join : (xs ys zs rest : List ℕ) → ys ++ rest ≡ zs → (xs ++ b'.' ∷ ys) ++ rest ≡ xs ++ b'.' ∷ zs
join xs ys zs rest e = append_assoc xs (b'.' ∷ ys) rest ∙ ap (λ t. xs ++ b'.' ∷ t) e

abbrev gene_text : Gene → List ℕ → List ℕ
gene_text g rest =
    print_uint g.st
    ++ b'.'
      ∷ (print_uint g.a
          ++ b'.'
            ∷ (print_uint g.b ++ b'.' ∷ (print_uint g.k ++ b'.' ∷ (print_uint g.opt ++ rest))))

print_gene-append : (g : Gene) (rest : List ℕ) → print_gene g ++ rest ≡ gene_text g rest
unfolding print_gene
print_gene-append g rest = join (print_uint g.st) _ _ rest (
    join (print_uint g.a) _ _ rest
      (join (print_uint g.b) _ _ rest (join (print_uint g.k) (print_uint g.opt) _ rest refl)))

scan_gene-print :
    (g : Gene) (rest : List ℕ)
    → IsBytes g
    → at_head is_digit rest ≡ false
    → scan_gene (print_gene g ++ rest) ≡ some g
unfolding scan_gene scan_text
scan_gene-print g rest v h =
    let st : g.st % 2 ^ 8 ≡ g.st = omega (arith, v.st) in
    let a : g.a % 2 ^ 8 ≡ g.a = omega (arith, v.a) in
    let b : g.b % 2 ^ 8 ≡ g.b = omega (arith, v.b) in
    let k : g.k % 2 ^ 8 ≡ g.k = omega (arith, v.k) in
    let opt : g.opt % 2 ^ 8 ≡ g.opt = omega (arith, v.opt) in
    let t4 = print_uint g.opt ++ rest in
    let t3 = print_uint g.k ++ b'.' ∷ t4 in
    let t2 = print_uint g.b ++ b'.' ∷ t3 in
    let t1 = print_uint g.a ++ b'.' ∷ t2 in
    ap scan_gene (print_gene-append g rest)
    ∙ rw
        (
          scan_uint-print g.st (b'.' ∷ t1) (omega (arith, v.st)) refl,
          scan_uint-print g.a (b'.' ∷ t2) (omega (arith, v.a)) refl,
          scan_uint-print g.b (b'.' ∷ t3) (omega (arith, v.b)) refl,
          scan_uint-print g.k (b'.' ∷ t4) (omega (arith, v.k)) refl,
          scan_uint-print g.opt rest (omega (arith, v.opt)) h,
          st,
          a,
          b,
          k,
          opt,
        )
        refl

-- No byte of the list is `b`.
abbrev pub Avoids : ℕ → List ℕ → Type 0
Avoids b = All (λ c. (c == b) ≡ false)

after_byte-append :
    (b : ℕ) (xs rest : List ℕ) → Avoids b xs → after_byte b (xs ++ rest) ≡ after_byte b rest
unfolding after_byte
after_byte-append b [] rest h = refl
after_byte-append b (x ∷ xs) rest (p, h) = rw p (after_byte-append b xs rest h)

Avoids-append : (b : ℕ) (xs ys : List ℕ) → Avoids b xs → Avoids b ys → Avoids b (xs ++ ys)
Avoids-append b [] ys h k = k
Avoids-append b (x ∷ xs) ys (p, h) k = (p, Avoids-append b xs ys h k)

digits-Avoids :
    (b : ℕ) (cs : List ℕ) → is_digit b ≡ false → All (λ c. is_digit c ≡ true) cs → Avoids b cs
digits-Avoids b [] h d = tt
digits-Avoids b (c ∷ cs) h (p, d) = (ground (arith, h, p), digits-Avoids b cs h d)

print_uint-Avoids : (b n : ℕ) → is_digit b ≡ false → Avoids b (print_uint n)
print_uint-Avoids b n h =
    let d = print_uint-IsDigits n in
    rw d.whole (ground (arith, h, d.digit), digits-Avoids b d.tail h d.others)

print_gene-Avoids : (g : Gene) → Avoids b',' (print_gene g)
unfolding print_gene
print_gene-Avoids g = Avoids-append b',' (print_uint g.st) _ (print_uint-Avoids b',' g.st refl) (
  refl,
  Avoids-append b',' (print_uint g.a) _ (print_uint-Avoids b',' g.a refl) (
    refl,
    Avoids-append b',' (print_uint g.b) _ (print_uint-Avoids b',' g.b refl) (
      refl,
      Avoids-append b',' (print_uint g.k) _ (print_uint-Avoids b',' g.k refl)
          (refl, print_uint-Avoids b',' g.opt refl),
    ),
  ),
)

after_gene :
    (g : Gene) (rest : List ℕ) → after_byte b',' (print_gene g ++ rest) ≡ after_byte b',' rest
after_gene g rest = after_byte-append b',' (print_gene g) rest (print_gene-Avoids g)

after_byte-Avoids : (b : ℕ) (xs : List ℕ) → Avoids b xs → after_byte b xs ≡ none
unfolding after_byte
after_byte-Avoids b [] h = refl
after_byte-Avoids b (x ∷ xs) (p, h) = rw p (after_byte-Avoids b xs h)

-- What may stand after a genome: no digit at once, and no comma.
pub record IsEnd (post : List ℕ) : Type 0 where
  pub apart : at_head is_digit post ≡ false
  pub no_comma : Avoids b',' post

read_genes-print :
    (hi i : ℕ) (g : Gene) (gs : List Gene) (post : List ℕ)
    → IsBytes g
    → All IsBytes gs
    → IsEnd post
    → read_genes hi i (suc (length gs)) (print_gene g ++ (print_more gs ++ post))
      ≡ parsed (record { hi = hi; genes = g ∷ gs })
unfolding read_genes read_after print_more after_byte
read_genes-print hi i g [] post v vs end =
    rw
      (
        scan_gene-print g post v end.apart,
        after_gene g post,
        after_byte-Avoids b',' post end.no_comma,
      )
      refl
read_genes-print hi i g (g' ∷ gs) post v (v', vs) end =
    let whole = append_assoc (print_gene g') (print_more gs) post in
    let rest = b',' ∷ ((print_gene g' ++ print_more gs) ++ post) in
    rw
      (
        scan_gene-print g rest v refl,
        after_gene g rest,
        whole,
        read_genes-print hi (suc i) g' gs post v' vs end,
      )
      refl

-- The bytes of a genome: its fields are of type uint8_t, and it has 1 to 24 genes.
pub record IsPrintable (g : Genome) : Type 0 where
  pub hi : g.hi < 2 ^ 8
  pub genes : All IsBytes g.genes
  pub some_gene : 0 < length g.genes
  pub few : length g.genes ≤ max_genes

read_genes-whole :
    (hi : ℕ) (gs : List Gene) (post : List ℕ)
    → 0 < length gs
    → All IsBytes gs
    → IsEnd post
    → read_genes hi 0 (length gs) (print_genes gs ++ post) ≡ parsed (record { hi = hi; genes = gs })
unfolding print_genes
read_genes-whole hi [] post more v end = absurd (omega arith)
read_genes-whole hi (g ∷ gs) post more (p, v) end =
    ap (λ t. read_genes hi 0 (suc (length gs)) t) (append_assoc (print_gene g) (print_more gs) post)
    ∙ read_genes-print hi 0 g gs post p v end

abbrev header_text : ℕ → ℕ → List ℕ → List ℕ
header_text n hi body = genes_word ++ (print_uint n ++ (hi_word ++ (print_uint hi ++ b':' ∷ body)))

scan_header-text :
    (n hi : ℕ) (body : List ℕ)
    → n < 2 ^ 32
    → hi < 2 ^ 32
    → scan_header (header_text n hi body) ≡ some (record { count = n; hi = hi })
unfolding scan_header scan_text skip_space
scan_header-text n hi body small low =
    rw
      (
        scan_uint-print n (hi_word ++ (print_uint hi ++ b':' ∷ body)) small refl,
        scan_uint-print hi (b':' ∷ body) low refl,
      )
      refl

colon : (n hi : ℕ) (body : List ℕ) → after_byte b':' (header_text n hi body) ≡ some body
unfolding after_byte
colon n hi body =
    after_byte-append b':' (print_uint n) _ (print_uint-Avoids b':' n refl)
    ∙ after_byte-append b':' (print_uint hi) (b':' ∷ body) (print_uint-Avoids b':' hi refl)

find_text-skip :
    (pre rest : List ℕ)
    → Avoids b'g' pre
    → find_text genes_word (pre ++ rest) ≡ find_text genes_word rest
unfolding find_text
find_text-skip [] rest h = refl
find_text-skip (c ∷ pre) rest (p, h) =
    let other : starts genes_word (c ∷ (pre ++ rest)) ≡ false = ground (arith, p) in
    rw other (find_text-skip pre rest h)

find_text-header :
    (n hi : ℕ) (body : List ℕ)
    → find_text genes_word (header_text n hi body) ≡ some (header_text n hi body)
unfolding find_text
find_text-header n hi body = refl

print_genome-append :
    (g : Genome) (post : List ℕ)
    → print_genome g ++ post ≡ header_text (length g.genes) g.hi (print_genes g.genes ++ post)
unfolding print_genome
print_genome-append g post =
    let n = print_uint (length g.genes) in
    let hi = print_uint g.hi in
    let body = print_genes g.genes in
    ap (λ t. genes_word ++ t)
      (append_assoc n (hi_word ++ (hi ++ b':' ∷ body)) post
        ∙ ap (λ t. n ++ (hi_word ++ t)) (append_assoc hi (b':' ∷ body) post))

read_spec-text :
    (g : Genome) (body : List ℕ) (p : List ℕ)
    → IsPrintable g
    → after_byte b':' p ≡ some body
    → read_spec p (some (record { count = length g.genes; hi = g.hi }))
      ≡ read_genes g.hi 0 (length g.genes) body
unfolding read_spec
read_spec-text g body p v e =
    let count : (length g.genes == 0 || ltb max_genes (length g.genes)) ≡ false =
      ground (arith, v.some_gene, v.few) in
    let low : g.hi % 2 ^ 8 ≡ g.hi = omega (arith, v.hi) in rw (count, e, low) refl

-- A genome of 1 to 24 genes whose fields are bytes is read back from what is printed for it. Text
-- without a `g` may stand before it, and after it text that does not begin with a digit and has no
-- comma.
pub parse_genome-print :
    (g : Genome) (pre post : List ℕ)
    → IsPrintable g
    → Avoids b'g' pre
    → IsEnd post
    → parse_genome (pre ++ (print_genome g ++ post)) ≡ parsed g
unfolding parse_genome
parse_genome-print g pre post v quiet end =
    let n = length g.genes in
    let body = print_genes g.genes ++ post in
    let text = header_text n g.hi body in
    let found : find_text genes_word (pre ++ (print_genome g ++ post)) ≡ some text =
      find_text-skip pre (print_genome g ++ post) quiet
      ∙ (ap (λ t. find_text genes_word t) (print_genome-append g post)
          ∙ find_text-header n g.hi body) in
    let header = scan_header-text n g.hi body (omega (arith, v.few)) (omega (arith, v.hi)) in
    ap read_found found
    ∙ (ap (λ h. read_spec text h) header
        ∙ (read_spec-text g body text v (colon n g.hi body)
            ∙ read_genes-whole g.hi g.genes post v.some_gene v.genes end))
