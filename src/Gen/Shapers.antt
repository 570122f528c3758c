-- ===== src/Gen/Shapers.antt =====
-- harness/diffharness.c, the shapers of --gen-prune: emit_prune_shaper and prune_shaper_is_safe.
use verifierloop.Base.{
  ℕ, ◌+◌, ◌%◌, ◌^◌, ◌≤◌, ◌<◌, ◌≡◌, ◌↔◌, bit_and, Bool, true, false, List, [], ◌∷◌, arith, refl, sym,
}
use verifierloop.Insn.{Insn, Class, alu64, class_of}
use verifierloop.Ref.{Outcome, val, alu_result, alu_op, ◌>>=◌}
use verifierloop.Base.{◌∙◌, ◌*◌}
use verifierloop.Base.Bits.{bit_and-lt}
use verifierloop.Ref.Alu.{shift}
use verifierloop.Gen.Insns.{alu64_imm, alu32_imm, bpf_add, bpf_or, bpf_and, bpf_lsh}

abbrev pub prune_store_off : ℕ
prune_store_off = 56

-- enum prune_shaper.
pub data Shaper : Type 0 where
  sh_n7 sh_t6 sh_w63 sh_m39 sh_o19 sh_s56 sh_a32 : Shaper

unfoldable pub emit_prune_shaper : Shaper → List Insn
emit_prune_shaper sh_n7 = alu64_imm bpf_and 6 7 ∷ []
emit_prune_shaper sh_t6 = alu64_imm bpf_and 6 3 ∷ alu64_imm bpf_lsh 6 1 ∷ []
emit_prune_shaper sh_w63 = alu64_imm bpf_and 6 63 ∷ []
emit_prune_shaper sh_m39 = alu64_imm bpf_and 6 7 ∷ alu64_imm bpf_or 6 32 ∷ []
emit_prune_shaper sh_o19 = alu64_imm bpf_and 6 15 ∷ alu64_imm bpf_add 6 4 ∷ []
emit_prune_shaper sh_s56 = alu64_imm bpf_and 6 7 ∷ alu64_imm bpf_lsh 6 3 ∷ []
emit_prune_shaper sh_a32 = alu32_imm bpf_and 6 63 ∷ []

unfoldable pub prune_shaper_is_safe : Shaper → Bool
prune_shaper_is_safe sh_n7 = true
prune_shaper_is_safe sh_t6 = true
prune_shaper_is_safe _ = false

abbrev is_wide : Class → Bool
is_wide alu64 = true
is_wide _ = false

-- What the interpreter leaves in r6 after the instructions of a shaper.
abbrev pub shaped : List Insn → ℕ → Outcome ℕ
shaped [] v = val v
shaped (x ∷ xs) v = alu_result (is_wide (class_of x.code)) x v v >>= shaped xs

val-injective : (a b : ℕ) → ◌≡◌ {A = Outcome ℕ} (val a) (val b) → a ≡ b
val-injective a b e = grind (arith, e)

-- The store at +56 of a byte is inside the 64 bytes of the map value, whatever r6 was.
abbrev pub StaysInside : Shaper → Type 0
StaysInside s =
    (v : ℕ)
    → v < 2 ^ 64
    → (r : ℕ) × (shaped (emit_prune_shaper s) v ≡ val r) × (r + prune_store_off < 64)

n7-StaysInside : StaysInside sh_n7
unfolding emit_prune_shaper alu_result alu_op class_of
n7-StaysInside v h =
    let small : bit_and (v % 2 ^ 64) 7 < 2 ^ 3 = bit_and-lt 3 (v % 2 ^ 64) 7 (omega arith) in
    (bit_and (v % 2 ^ 64) 7, refl, omega arith)

t6-StaysInside : StaysInside sh_t6
unfolding emit_prune_shaper alu_result alu_op class_of shift
t6-StaysInside v h =
    let a = bit_and (v % 2 ^ 64) 3 in
    let small : a < 2 ^ 2 = bit_and-lt 2 (v % 2 ^ 64) 3 (omega arith) in
    (a % 2 ^ 64 * 2 ^ 1 % 2 ^ 64, refl, omega arith)

-- A value that r6 may have, for which the store is outside.
escapes :
    (s : Shaper) (v w : ℕ)
    → v < 2 ^ 64
    → shaped (emit_prune_shaper s) v ≡ val w
    → 8 ≤ w
    → ¬ StaysInside s
escapes s v w h e far inside =
    let (r, k, lt) = inside v h in
    let same : w ≡ r = val-injective w r (sym e ∙ k) in omega (arith, same, lt, far)

-- prune_shaper_is_safe says of each shaper whether the interpreter leaves an r6 for which the store
-- at +56 is inside the map value, for every r6 before.
pub prune_shaper_is_safe_iff : (s : Shaper) → (prune_shaper_is_safe s ≡ true) ↔ StaysInside s
unfolding prune_shaper_is_safe emit_prune_shaper alu_result alu_op class_of shift
prune_shaper_is_safe_iff sh_n7 = (λ _. n7-StaysInside, λ _. refl)
prune_shaper_is_safe_iff sh_t6 = (λ _. t6-StaysInside, λ _. refl)
prune_shaper_is_safe_iff sh_w63 =
    (λ e. cc, λ h. absurd (escapes sh_w63 63 63 (omega arith) refl (omega arith) h))
prune_shaper_is_safe_iff sh_m39 =
    (λ e. cc, λ h. absurd (escapes sh_m39 0 32 (omega arith) refl (omega arith) h))
prune_shaper_is_safe_iff sh_o19 =
    (λ e. cc, λ h. absurd (escapes sh_o19 15 19 (omega arith) refl (omega arith) h))
prune_shaper_is_safe_iff sh_s56 =
    (λ e. cc, λ h. absurd (escapes sh_s56 7 56 (omega arith) refl (omega arith) h))
prune_shaper_is_safe_iff sh_a32 =
    (λ e. cc, λ h. absurd (escapes sh_a32 63 63 (omega arith) refl (omega arith) h))
