-- ===== src/Gen/Program/Prologue.antt =====
-- The prologue of a program is laid out well.
use verifierloop.Base.{ℕ, suc, ◌+◌, ◌≤◌, ◌≡◌, Bool, true, false, ◌||◌, List, [], ◌∷◌}
use verifierloop.Base.{◌==◌, arith, refl, sym, ◌∙◌}
use verifierloop.Insn.{Insn, ld_imm64, class_of, target}
use verifierloop.Live.{Kfunc, helper_argc}
use verifierloop.Gen.Insns.{jmp_imm, ld_map_fd, second_slot, emit_call, jeq}
use verifierloop.Gen.Layout.{AllAt, At, Good}
use verifierloop.Gen.Layout.Kinds.{
  IsBranch, branch-IsBranch, IsBranch-Good, plain-Good, is_plain, ld_map_fd-Good, emit_call-Good,
}
use verifierloop.Gen.Layout.Accepted.{IsSlots}
use verifierloop.Gen.Emit.Genes.Pieces.{◌⨾◌}
use verifierloop.Gen.Emit.Laid.{IsLaid}
use verifierloop.Gen.Program.{prologue, map_lookup, jnull, jnull2}

-- The second halves of the two LD_IMM64 of the prologue.
abbrev pub slot : ℕ → Bool
slot i = i == 4 || i == 13

pub free : (i : ℕ) → 17 ≤ i → slot i ≡ false
free i le = ground arith

abbrev pub heads : List ℕ
heads = jnull ∷ jnull2 ∷ []

pub slot-IsSlots : IsSlots slot
slot-IsSlots = record { first = refl; apart = λ i e. ground arith }

module _ (ks : List Kfunc) where
  pub stands :
      (last i : ℕ) (x : Insn)
      → slot i ≡ false
      → slot (suc i) ≡ false
      → Good ks last i x
      → (x.code == ld_imm64) ≡ false
      → At slot ks last i x
  stands last i x s t good no_ld = record {
    blank = λ e. cc (e, s);
    good = λ e. good;
    next = λ e. no_ld ∙ sym t;
  }

  plain :
      (i : ℕ) (x : Insn)
      → slot i ≡ false
      → slot (suc i) ≡ false
      → is_plain x ≡ true
      → suc i ≤ 17
      → At slot ks 17 i x
  plain i x s t h le = let (good, no_ld) = plain-Good ks 17 i x h le in stands 17 i x s t good no_ld

  load :
      (i fd : ℕ)
      → slot i ≡ false
      → slot (suc i) ≡ true
      → i + 2 ≤ 17
      → At slot ks 17 i (ld_map_fd 1 fd)
  load i fd s t le = record {
    blank = λ e. cc (e, s);
    good = λ e. ld_map_fd-Good ks 17 i 1 fd le;
    next = λ e. sym t;
  }

  half : (i : ℕ) → slot i ≡ true → At slot ks 17 i second_slot
  half i s = record {
    blank = λ e. refl;
    good = λ e. absurd (let f : true ≡ false = sym s ∙ e in ground arith);
    next = λ e. absurd (let f : true ≡ false = sym s ∙ e in ground arith);
  }

  call :
      (i : ℕ)
      → slot i ≡ false
      → slot (suc i) ≡ false
      → suc i ≤ 17
      → At slot ks 17 i (emit_call map_lookup)
  unfolding helper_argc
  call i s t le =
      stands 17 i (emit_call map_lookup) s t (emit_call-Good ks 17 i map_lookup 2 refl le) refl

  null_check : IsBranch ks (jmp_imm jeq 0 0 0)
  unfolding class_of
  null_check = branch-IsBranch ks (jmp_imm jeq 0 0 0) refl

  check :
      (i : ℕ)
      → slot i ≡ false
      → slot (suc i) ≡ false
      → suc i ≤ 17
      → At slot ks 17 i (jmp_imm jeq 0 0 0)
  unfolding target
  check i s t le =
      stands 17 i (jmp_imm jeq 0 0 0) s t
        (IsBranch-Good ks 17 i 0 (i + 1) (jmp_imm jeq 0 0 0) null_check (ground arith) (omega arith)
          le)
        refl

  prologue-laid : (map_in map_out : ℕ) → AllAt (At slot ks 17) 0 (prologue map_in map_out)
  unfolding prologue class_of
  prologue-laid map_in map_out =
      plain 0 _ refl refl refl (omega arith)
      ⨾ plain 1 _ refl refl refl (omega arith)
      ⨾ plain 2 _ refl refl refl (omega arith)
      ⨾ load 3 map_in refl refl (omega arith)
      ⨾ half 4 refl
      ⨾ call 5 refl refl (omega arith)
      ⨾ check 6 refl refl (omega arith)
      ⨾ plain 7 _ refl refl refl (omega arith)
      ⨾ plain 8 _ refl refl refl (omega arith)
      ⨾ plain 9 _ refl refl refl (omega arith)
      ⨾ plain 10 _ refl refl refl (omega arith)
      ⨾ plain 11 _ refl refl refl (omega arith)
      ⨾ load 12 map_out refl refl (omega arith)
      ⨾ half 13 refl
      ⨾ call 14 refl refl (omega arith)
      ⨾ check 15 refl refl (omega arith)
      ⨾ plain 16 _ refl refl refl (omega arith)
      ⨾ tt

  pub prologue-IsLaid :
      (map_in map_out : ℕ) → IsLaid ks slot 17 free heads (prologue map_in map_out) []
  unfolding prologue
  prologue-IsLaid map_in map_out = record {
    started = omega arith;
    laid = prologue-laid map_in map_out;
    exits = tt;
    entries = (_, refl, null_check) ⨾ (_, refl, null_check) ⨾ tt;
  }
