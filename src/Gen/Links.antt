-- ===== src/Gen/Links.antt =====
-- harness/diffharness.c, the links between registers of --gen-idpart: emit_idpart and
-- idpart_narrows_r9.
use verifierloop.Base.{
  ℕ, ◌+◌, ◌%◌, ◌^◌, ◌≡◌, ◌↔◌, Bool, true, false, List, [], ◌∷◌, set, arith, refl, sym, ap, ◌∙◌,
}
use verifierloop.Insn.{Insn, Class, alu64, class_of}
use verifierloop.Ref.{Outcome, val, alu_result, alu_op, reg, ◌>>=◌}
use verifierloop.Ref.Alu.{mov}
use verifierloop.Gen.Insns.{alu64_imm, mov64_reg, bpf_add}

-- enum idpart_shape.
pub data Idpart : Type 0 where
  idp_same idp_chain idp_addc idp_swapped idp_tied8 : Idpart

unfoldable pub emit_idpart : Idpart → List Insn
emit_idpart idp_same = mov64_reg 7 6 ∷ mov64_reg 9 6 ∷ []
emit_idpart idp_chain = mov64_reg 7 6 ∷ mov64_reg 9 7 ∷ []
emit_idpart idp_addc = mov64_reg 7 6 ∷ mov64_reg 9 6 ∷ alu64_imm bpf_add 9 4 ∷ []
emit_idpart idp_swapped = mov64_reg 9 6 ∷ mov64_reg 7 6 ∷ []
emit_idpart idp_tied8 = mov64_reg 7 6 ∷ mov64_reg 9 8 ∷ []

unfoldable pub idpart_narrows_r9 : Idpart → Bool
idpart_narrows_r9 idp_tied8 = false
idpart_narrows_r9 _ = true

abbrev is_wide : Class → Bool
is_wide alu64 = true
is_wide _ = false

-- The interpreter's registers after instructions of the ALU classes.
abbrev pub alu_run : List Insn → List ℕ → Outcome (List ℕ)
alu_run [] rs = val rs
alu_run (x ∷ xs) rs =
    alu_result (is_wide (class_of x.code)) x (reg rs x.dst_reg) (reg rs x.src_reg) >>= λ r.
    alu_run xs (set rs x.dst_reg r)

-- The registers, of which r6 to r9 are given.
abbrev pub registers : ℕ → ℕ → ℕ → ℕ → List ℕ
registers r6 r7 r8 r9 = 0 ∷ 0 ∷ 0 ∷ 0 ∷ 0 ∷ 0 ∷ r6 ∷ r7 ∷ r8 ∷ r9 ∷ 0 ∷ []

-- r9 keeps one distance from r6, whatever the registers were.
abbrev pub FollowsR6 : Idpart → Type 0
FollowsR6 p =
    (c : ℕ) × ((r6 r7 r8 r9 : ℕ)
      → (rs : List ℕ) × (alu_run (emit_idpart p) (registers r6 r7 r8 r9) ≡ val rs)
        × (reg rs 9 ≡ (reg rs 6 + c) % 2 ^ 64))

val-injective : (a b : List ℕ) → ◌≡◌ {A = Outcome (List ℕ)} (val a) (val b) → a ≡ b
val-injective a b e = grind (arith, e)

same-FollowsR6 : FollowsR6 idp_same
unfolding emit_idpart alu_result alu_op class_of mov
same-FollowsR6 = (0, λ r6 r7 r8 r9. (_, refl, omega arith))

chain-FollowsR6 : FollowsR6 idp_chain
unfolding emit_idpart alu_result alu_op class_of mov
chain-FollowsR6 = (0, λ r6 r7 r8 r9. (_, refl, omega arith))

addc-FollowsR6 : FollowsR6 idp_addc
unfolding emit_idpart alu_result alu_op class_of mov
addc-FollowsR6 = (4, λ r6 r7 r8 r9. (_, refl, omega arith))

swapped-FollowsR6 : FollowsR6 idp_swapped
unfolding emit_idpart alu_result alu_op class_of mov
swapped-FollowsR6 = (0, λ r6 r7 r8 r9. (_, refl, omega arith))

-- With r6 at 0, the distance of r9 is the value of r8.
tied8_distance :
    (c : ℕ)
    (f : (r6 r7 r8 r9 : ℕ)
      → (rs : List ℕ) × (alu_run (emit_idpart idp_tied8) (registers r6 r7 r8 r9) ≡ val rs)
        × (reg rs 9 ≡ (reg rs 6 + c) % 2 ^ 64))
    → (v : ℕ) → v % 2 ^ 64 ≡ c % 2 ^ 64
unfolding emit_idpart alu_result alu_op class_of mov
tied8_distance c f v =
    let (rs, e, q) = f 0 0 v 0 in
    let same : registers 0 0 v (v % 2 ^ 64) ≡ rs =
      val-injective (registers 0 0 v (v % 2 ^ 64)) rs e in
    let at : v % 2 ^ 64 ≡ (0 + c) % 2 ^ 64 =
      ap (λ t. reg t 9) same ∙ (q ∙ ap (λ t. (reg t 6 + c) % 2 ^ 64) (sym same)) in
    omega (arith, at)

tied8_apart : ¬ FollowsR6 idp_tied8
tied8_apart (c, f) =
    let zero_at = tied8_distance c f 0 in
    let one_at = tied8_distance c f 1 in omega (arith, zero_at, one_at)

-- idpart_narrows_r9 says of each shape whether the interpreter leaves r9 at one distance from r6,
-- whatever the registers were.
pub idpart_narrows_r9_iff : (p : Idpart) → (idpart_narrows_r9 p ≡ true) ↔ FollowsR6 p
unfolding idpart_narrows_r9
idpart_narrows_r9_iff idp_same = (λ _. same-FollowsR6, λ _. refl)
idpart_narrows_r9_iff idp_chain = (λ _. chain-FollowsR6, λ _. refl)
idpart_narrows_r9_iff idp_addc = (λ _. addc-FollowsR6, λ _. refl)
idpart_narrows_r9_iff idp_swapped = (λ _. swapped-FollowsR6, λ _. refl)
idpart_narrows_r9_iff idp_tied8 = (λ e. cc, λ h. absurd (tied8_apart h))
