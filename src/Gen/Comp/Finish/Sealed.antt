-- ===== src/Gen/Comp/Finish/Sealed.antt =====
-- The program that comp_finish makes: its exits, and its call.
use verifierloop.Base.{
  ℕ, ◌+◌, ◌-◌, ◌<◌, ◌≤◌, ◌≡◌, ◌≢◌, ◌^◌, inl, inr, true, false, List, [], ◌∷◌, ◌++◌, length,
  get_elem?, All, Option, none, some, ◌==◌, pos,
}
use verifierloop.Base.{arith, refl, sym, ◌∙◌, Bool-cases}
use mathlib.Core.Bool.{false≢true}
use verifierloop.Insn.{Insn, class_of, target}
use verifierloop.Gen.Insns.{mov64_imm, mov64_reg, exit_insn, jmp_imm, jgt, st_mem, size_b}
use verifierloop.Gen.Layout.{adjust, length-adjust, length-append}
use verifierloop.Gen.Layout.Kinds.{is_branch, target-displacement}
use verifierloop.Gen.Emit.Laid.{get_elem?_left, get_elem?_end, All-map}
use verifierloop.Base.{get_elem?_inside}
use verifierloop.Gen.Program.{patch_all}
use verifierloop.Gen.Program.Sealed.{length-patch_all}
use verifierloop.Gen.Comp.Code.{pseudo_call}
use verifierloop.Gen.Comp.Walk.Frame.{IsJump, SiteFits, second_after}
use verifierloop.Gen.Comp.Finish.{Target, callee, add_callee, comp_finish}
use verifierloop.Gen.Comp.Finish.Exits.{
  Lands, patch_all-Lands, patch_all_kept, get_elem?-adjust, get_elem?-adjust_ne,
}

add_callee_kept :
    (site : Option ℕ) (ins : List Insn) (j : ℕ) (y : Insn)
    → SiteFits ins site
    → (y.code == 0x85) ≡ false
    → get_elem? ins j ≡ some y
    → get_elem? (add_callee site ins) j ≡ some y
unfolding add_callee
add_callee_kept none ins j y h other e = e
add_callee_kept (some at) ins j y h other e =
    get_elem?_left (adjust at _ ins) callee j y (get_elem?-adjust_ne ins j at _ apart ∙ e)
  where
    apart : at ≢ j
    apart same =
        let both : some (pseudo_call 0) ≡ some y = sym h ∙ (rw same e) in
        let eq : pseudo_call 0 ≡ y = grind (arith, both) in
        false≢true (sym other ∙ (rw (sym eq) refl))

branch_code : (y : Insn) → is_branch y ≡ true → (y.code == 0x85) ≡ false
unfolding class_of
branch_code y h = elim (Bool-cases (y.code == 0x85)) [
  | inl e ↦ let same : y.code ≡ 0x85 = ground (arith, e) in absurd (false≢true (rw same at h))
  | inr e ↦ e
]

length-add_callee :
    (site : Option ℕ) (ins : List Insn) → length (add_callee site ins) ≤ length ins + 5
unfolding add_callee callee
length-add_callee none ins = omega arith
length-add_callee (some at) ins = omega (
  arith,
  length-append (adjust at (λ x. record x { imm = length ins - at - 1 }) ins) callee,
  length-adjust at (λ x. record x { imm = length ins - at - 1 }) ins,
)

abbrev ending : Target → List Insn
ending t = st_mem size_b t.store.reg t.store.off 0xffffffff ∷ mov64_imm 0 1 ∷ exit_insn ∷ []

abbrev body_of : Target → List Insn
body_of t = t.draft.ins ++ ending t

abbrev whole : Target → List Insn
whole t = body_of t ++ mov64_imm 0 0 ∷ exit_insn ∷ []

-- Where the common exit stands.
abbrev pub exit_at : Target → ℕ
exit_at t = length (body_of t)

-- A conditional jump from `j` to `to`.
abbrev pub JumpsTo : ℕ → List Insn → ℕ → Type 0
JumpsTo to ins j =
    (x : Insn) × (get_elem? ins j ≡ some x) × (is_branch x ≡ true) × (target 16 j x.off ≡ pos to)

pub record IsSealed (t : Target) (ins : List Insn) : Type 0 where
  pub size : length ins ≤ length t.draft.ins + 10
  pub exits : All (JumpsTo (exit_at t) ins) t.draft.jexit
  pub zero : get_elem? ins (exit_at t) ≡ some (mov64_imm 0 0)
  pub leave : get_elem? ins (exit_at t + 1) ≡ some exit_insn
  pub call :
      (j : ℕ)
      → t.draft.ctx.call_site ≡ some j
      → (get_elem? ins j ≡ some (pseudo_call (exit_at t + 2 - j - 1)))
        × (get_elem? ins (exit_at t + 2) ≡ some (jmp_imm jgt 1 15 2))

length-body_of : (t : Target) → length (body_of t) ≡ length t.draft.ins + 3
length-body_of t = length-append t.draft.ins (ending t)

add_callee-call :
    (at : ℕ) (ins : List Insn)
    → get_elem? ins at ≡ some (pseudo_call 0)
    → (get_elem? (add_callee (some at) ins) at ≡ some (pseudo_call (length ins - at - 1)))
      × (get_elem? (add_callee (some at) ins) (length ins) ≡ some (jmp_imm jgt 1 15 2))
unfolding add_callee callee
add_callee-call at ins h =
    let linked = λ (x : Insn). record x { imm = length ins - at - 1 } in
    (
      get_elem?_left (adjust at linked ins) callee at _
          (get_elem?-adjust ins at linked (pseudo_call 0) h),
      rw (length-adjust at linked ins) at (
          get_elem?_end (adjust at linked ins)
            (mov64_reg 0 1 ∷ exit_insn ∷ mov64_imm 0 0 ∷ exit_insn ∷ []) (jmp_imm jgt 1 15 2)),
    )

site_left : (site : Option ℕ) (xs ys : List Insn) → SiteFits xs site → SiteFits (xs ++ ys) site
site_left none xs ys h = tt
site_left (some j) xs ys h = get_elem?_left xs ys j (pseudo_call 0) h

module _ (t : Target) (jumps : All (IsJump t.draft.ins) t.draft.jexit)
    (site : SiteFits t.draft.ins t.draft.ctx.call_site)
    (small : length t.draft.ins + 5 < 2 ^ 15) where
  abbrev patched : List Insn
  patched = patch_all t.draft.jexit (exit_at t) (whole t)

  length-patched : length patched ≡ exit_at t + 2
  length-patched =
      length-patch_all (λ i. false) [] 0 t.draft.jexit (whole t) (exit_at t)
      ∙ length-append (body_of t) (mov64_imm 0 0 ∷ exit_insn ∷ [])

  open_jumps : All (IsJump (whole t)) t.draft.jexit
  open_jumps =
      All-map (IsJump t.draft.ins) (IsJump (whole t)) t.draft.jexit
        (λ j (x, e, b).
          (x, get_elem?_left (body_of t) _ j x (get_elem?_left t.draft.ins (ending t) j x e), b))
        jumps

  kept :
      (j : ℕ) (y : Insn)
      → is_branch y ≡ false
      → get_elem? (whole t) j ≡ some y
      → get_elem? patched j ≡ some y
  kept j y no_jump = patch_all_kept t.draft.jexit (whole t) j (exit_at t) y no_jump open_jumps

  patched_site : (s : Option ℕ) → SiteFits (whole t) s → SiteFits patched s
  unfolding class_of
  patched_site none h = tt
  patched_site (some j) h = kept j (pseudo_call 0) refl h

  ready : SiteFits patched t.draft.ctx.call_site
  ready = patched_site t.draft.ctx.call_site (
      site_left t.draft.ctx.call_site (body_of t) _
        (site_left t.draft.ctx.call_site t.draft.ins (ending t) site))

  lands : (j : ℕ) → Lands (exit_at t) patched j → JumpsTo (exit_at t) (comp_finish t) j
  unfolding comp_finish
  lands j (x, e, b, off) = (
    x,
    add_callee_kept t.draft.ctx.call_site patched j x ready (branch_code x b) e,
    b,
    rw off (
        target-displacement j (exit_at t) (omega (arith, small, length-body_of t))
          (omega (arith, small, length-body_of t, length-patched, get_elem?_inside patched j x e))),
  )

  called :
      (s : Option ℕ) (j : ℕ)
      → SiteFits patched s
      → s ≡ some j
      → (get_elem? (add_callee s patched) j ≡ some (pseudo_call (exit_at t + 2 - j - 1)))
        × (get_elem? (add_callee s patched) (exit_at t + 2) ≡ some (jmp_imm jgt 1 15 2))
  called none j h e = absurd (grind (arith, e))
  called (some at) j h e =
      let same : at ≡ j = grind (arith, e) in
      rw (sym same) (rw length-patched at (add_callee-call at patched h))

  pub comp_finish-IsSealed : IsSealed t (comp_finish t)
  unfolding comp_finish class_of
  comp_finish-IsSealed = record {
    size =
        omega (
          arith,
          length-patched,
          length-body_of t,
          length-add_callee t.draft.ctx.call_site patched,
        );
    exits =
        All-map (Lands (exit_at t) patched) (JumpsTo (exit_at t) (comp_finish t)) t.draft.jexit
          lands (patch_all-Lands t.draft.jexit (whole t) (exit_at t) open_jumps);
    zero =
        add_callee_kept t.draft.ctx.call_site patched (exit_at t) (mov64_imm 0 0) ready refl
          (kept (exit_at t) (mov64_imm 0 0) refl (get_elem?_end (body_of t) _ (mov64_imm 0 0)));
    leave = add_callee_kept t.draft.ctx.call_site patched (exit_at t + 1) exit_insn ready refl (
        kept (exit_at t + 1) exit_insn refl
          (second_after (body_of t) _ (mov64_imm 0 0) exit_insn (exit_at t + 1) refl));
    call = λ j. called t.draft.ctx.call_site j ready;
  }
