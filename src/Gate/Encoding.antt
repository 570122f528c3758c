-- ===== src/Gate/Encoding.antt =====
-- What the analysis and the interpreter take for granted of an instruction stream, as a test.
use verifierloop.Base.{Bool, true, not, ◌&&◌, ◌||◌, List, [], ◌∷◌, ◌==◌, if◌then◌else◌, ℕ, bit_and}
use verifierloop.Base.{false, zero, suc, ◌+◌, ◌≡◌, arith, length, get_elem?, some, ltb}
use mathlib.Core.Path.{subst}
use verifierloop.Live.{Kfunc}
use verifierloop.Live.Flow.{Node, node_at}
use verifierloop.Live.Flow.Scanned.{Scanned, done, tail, insn}
use verifierloop.Insn.{Insn, Class, stx, class_of, mode_of, ld_imm64}
use verifierloop.Ref.{atomic_aop}

-- What the interpreter runs as CMPXCHG is encoded as the instruction set says.
abbrev pub cmpxchg_fetches : ℕ → Bool
cmpxchg_fetches imm = not (atomic_aop imm == 0xf0) || bit_and imm 0xff == 0xf1

abbrev pub atomic_ok : Class → Insn → Bool
atomic_ok stx x = not (mode_of x.code == 0xc0) || cmpxchg_fetches x.imm
atomic_ok _ x = true

and_left : (a b : Bool) → (a && b) ≡ true → a ≡ true
and_left a b h = ground arith

and_right : (a b : Bool) → (a && b) ≡ true → b ≡ true
and_right a b h = ground arith

-- The second slot of a LD_IMM64 has opcode 0; `slot` says that the list begins with one.
abbrev pub encoded : Bool → List Insn → Bool
encoded slot [] = true
encoded slot (x ∷ xs) =
    (if slot then x.code == 0 else atomic_ok (class_of x.code) x)
    && encoded (not slot && x.code == ld_imm64) xs

-- At index `i` there is the second slot of a LD_IMM64, and it is blank, or an instruction.
pub Scanned-encoded :
    {ks : List Kfunc} {n i : ℕ} {b : Bool} {xs : List Insn} {g : List Node} (j : ℕ) (x : Insn)
    → Scanned ks n i b xs g
    → i + length xs ≡ n
    → encoded b xs ≡ true
    → get_elem? xs j ≡ some x
    → ((node_at g j).skip ≡ true → x.code ≡ 0)
      × ((node_at g j).skip ≡ false → atomic_ok (class_of x.code) x ≡ true)
Scanned-encoded j x (done _ _) n e at = cc
Scanned-encoded zero x (tail i y xs g s) n e at =
    let same : y ≡ x = cc in
    let blank : y.code ≡ 0 = ground arith in (λ _. rw same at blank, λ h. cc)
Scanned-encoded (suc j) x (tail i y xs g s) n e at =
    Scanned-encoded j x s (omega arith) (ground arith) at
Scanned-encoded zero x (insn i y xs g m ss u v s) n e at =
    let same : y ≡ x = cc in
    let good : atomic_ok (class_of y.code) y ≡ true = and_left _ _ e in
    (λ h. cc, λ _. subst (λ q. atomic_ok (class_of q.code) q ≡ true) same good)
Scanned-encoded (suc j) x (insn i y [] g m ss u v s) n e at = cc
Scanned-encoded {n = k} (suc j) x (insn i y (z ∷ xs) g m ss u v s) n e at =
    let more : ltb (i + 1) k ≡ true = ground arith in
    let rest : encoded (y.code == ld_imm64) (z ∷ xs) ≡ true = and_right _ _ e in
    let flag : (y.code == ld_imm64) ≡ (y.code == ld_imm64 && ltb (i + 1) k) = ground arith in
    Scanned-encoded j x s (omega arith) (subst (λ b. encoded b (z ∷ xs) ≡ true) flag rest) at
