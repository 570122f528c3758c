-- ===== src/Gen/Emit/Genes/Pieces.antt =====
-- What a gene appends to a program that is laid out well: plain instructions, and branches.
use verifierloop.Base.{ℕ, suc, ◌+◌, ◌^◌, ◌≤◌, ◌<◌, ◌≡◌, Bool, true, false, List, [], ◌∷◌}
use verifierloop.Base.{length, ◌==◌, arith, pos}
use verifierloop.Insn.{Insn, target}
use verifierloop.Live.{Kfunc}
use verifierloop.Gen.Insns.{displacement}
use verifierloop.Gen.Layout.Kinds.{is_plain, plain-Good, is_branch, branch-IsBranch, IsBranch-Good}
use verifierloop.Gen.Body.{Body, put, note_exit, choose6}
use verifierloop.Gen.Emit.Laid.{Fine, IsLaid, put-IsLaid, branch-IsLaid, if_elim}

pub choose6_elim :
    (P : ℕ → Type 0) (i : ℕ) {a b c d e f : ℕ}
    → P a
    → P b
    → P c
    → P d
    → P e
    → P f
    → P (choose6 i a b c d e f)
choose6_elim P i pa pb pc pd pe pf = if_elim P (i == 0) pa (
    if_elim P (i == 1) pb
      (if_elim P (i == 2) pc (if_elim P (i == 3) pd (if_elim P (i == 4) pe pf))))

-- The facts on the instructions of a list, one after another.
infixr 3 ◌⨾◌
abbrev pub ◌⨾◌ {ℓ κ} : {A : Type ℓ} {B : Type κ} → A → B → A × B
a ⨾ b = (a, b)

-- From the index `i`, a jump from one place of a list to another.
pub local_target :
    (i from to : ℕ)
    → from < 2 ^ 14
    → to < 2 ^ 14
    → i < 2 ^ 14
    → target 16 (i + from) (displacement from to) ≡ pos (i + to)
unfolding target
local_target i from to h k l = ground arith

module _ (ks : List Kfunc) (slot : ℕ → Bool) (base : ℕ) (free : (i : ℕ) → base ≤ i → slot i ≡ false)
    (heads : List ℕ) where
  unfoldable pub Laid : Body → Type 0
  Laid w = IsLaid ks slot base free heads w.ins w.jexit

  pub fine : (last i : ℕ) (x : Insn) → is_plain x ≡ true → suc i ≤ last → Fine ks last i x
  fine last i x h le = plain-Good ks last i x h le

  pub one : (x : Insn) (w : Body) → is_plain x ≡ true → Laid w → Laid (put (x ∷ []) w)
  unfolding Laid
  one x w h v =
      put-IsLaid ks slot base free heads (x ∷ []) w.ins w.jexit (fine _ _ x h (omega arith), tt) v

  pub two :
      (x y : Insn) (w : Body)
      → is_plain x ≡ true
      → is_plain y ≡ true
      → Laid w
      → Laid (put (x ∷ y ∷ []) w)
  unfolding Laid
  two x y w h k v =
      put-IsLaid ks slot base free heads (x ∷ y ∷ []) w.ins w.jexit
        (fine _ _ x h (omega arith), (fine _ _ y k (omega arith), tt)) v

  -- A branch whose offset is 0 for now.
  pub open_branch :
      (last i : ℕ) (x : Insn)
      → is_branch x ≡ true
      → x.off ≡ 0
      → i < 2 ^ 14
      → suc i ≤ last
      → Fine ks last i x
  unfolding target
  open_branch last i x h e small le =
      let b = branch-IsBranch ks x h in
      let at : target 16 i x.off ≡ pos (i + 1) = rw e (ground arith) in
      (IsBranch-Good ks last i x.off (i + 1) x b at (omega arith) le, b.no_ld)

  pub branch1 :
      (x : Insn) (w : Body)
      → is_branch x ≡ true
      → x.off ≡ 0
      → length w.ins < 2 ^ 14
      → Laid w
      → Laid (put (x ∷ []) (note_exit w))
  unfolding Laid
  branch1 x w h e small v =
      branch-IsLaid ks slot base free heads x [] w.ins w.jexit h
        (open_branch _ _ x h e small (omega arith), tt) v

  -- A branch within the list that starts at index `i`.
  pub local_branch :
      (last i j from to : ℕ) (x : Insn)
      → is_branch x ≡ true
      → x.off ≡ displacement from to
      → j ≡ i + from
      → from < 2 ^ 14
      → to < 2 ^ 14
      → i < 2 ^ 14
      → i + to ≤ last
      → suc j ≤ last
      → Fine ks last j x
  local_branch last i j from to x h e at a b c le lo =
      let br = branch-IsBranch ks x h in
      let t : target 16 j x.off ≡ pos (i + to) = rw (e, at) (local_target i from to a b c) in
      (IsBranch-Good ks last j x.off (i + to) x br t le lo, br.no_ld)
