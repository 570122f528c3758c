-- ===== src/Gen/Comp/Walk/Draws.antt =====
-- Every piece that comp_can offers, with its draws.
use verifierloop.Base.{
  ℕ, suc, ◌+◌, ◌*◌, ◌-◌, ◌<◌, ◌≤◌, ◌≡◌, inl, inr, true, false, List, [], ◌∷◌, Option, some,
}
use verifierloop.Base.{arith, refl}
use verifierloop.Gen.Comp.{
  Piece, shape, link, narrow, spill, loop, dynptr, alu32, iter, pkt, call, dynskb, ringbuf, skref,
  relink, Ctx, comp_can,
}
use verifierloop.Gen.Comp.Draw.{Draw, ◌>>=◌, comp_pick, comp_scalar_reg, redraw, one_of}
use verifierloop.Gen.Comp.Draw.Gives.{
  Gives, Gives-give, Gives-more, Gives-bind, comp_pick-Gives, comp_scalar_reg-Gives, redraw-Gives,
  IsScalar, scalar,
}
use verifierloop.Gen.Comp.Code.{
  Kernel, Draft, put_spill, put_loop, put_call, put_pkt, put_dynskb, put_ringbuf, put_skref,
  put_iter,
}
use verifierloop.Gen.Comp.Walk.{
  comp_emit, emit_relink, emit_shape, emit_link, emit_narrow, emit_alu32, emit_dynptr, on_scalar,
  on_byte,
}
use verifierloop.Gen.Comp.Walk.Frame.{IsCtx, IsDraft}
use verifierloop.Gen.Comp.Walk.Pieces.{
  shape-IsDraft, link-IsDraft, narrow-IsDraft, spill-IsDraft, loop-IsDraft, dynptr-IsDraft,
  alu32-IsDraft, iter-IsDraft,
}
use verifierloop.Gen.Comp.Walk.Pieces.{
  pkt-IsDraft, call-IsDraft, dynskb-IsDraft, ringbuf-IsDraft, skref-IsDraft, relink-IsDraft,
}

-- One of the three registers differs from one scalar register, and from two.
abbrev Apart : List ℕ → Type 0
Apart avoid = (q : ℕ) × (q < 3) × (one_of (scalar q) avoid ≡ false)

free_of_one : (a : ℕ) → IsScalar a → Apart (a ∷ [])
free_of_one a (inl e) = (1, omega arith, rw e refl)
free_of_one a (inr (inl e)) = (0, omega arith, rw e refl)
free_of_one a (inr (inr e)) = (0, omega arith, rw e refl)

free_of_two : (a b : ℕ) → IsScalar a → IsScalar b → Apart (a ∷ b ∷ [])
free_of_two a b (inl e) (inl d) = (1, omega arith, rw (e, d) refl)
free_of_two a b (inl e) (inr (inl d)) = (2, omega arith, rw (e, d) refl)
free_of_two a b (inl e) (inr (inr d)) = (1, omega arith, rw (e, d) refl)
free_of_two a b (inr (inl e)) (inl d) = (2, omega arith, rw (e, d) refl)
free_of_two a b (inr (inl e)) (inr (inl d)) = (0, omega arith, rw (e, d) refl)
free_of_two a b (inr (inl e)) (inr (inr d)) = (0, omega arith, rw (e, d) refl)
free_of_two a b (inr (inr e)) (inl d) = (1, omega arith, rw (e, d) refl)
free_of_two a b (inr (inr e)) (inr (inl d)) = (0, omega arith, rw (e, d) refl)
free_of_two a b (inr (inr e)) (inr (inr d)) = (0, omega arith, rw (e, d) refl)

module _ (limit : ℕ) where
  -- A scalar register is drawn first, and any one drawn later.
  pub after_scalar {ℓ} :
      {A : Type ℓ} (Q : A → Type 0) (n : ℕ) (c : Ctx) (f : ℕ → Draw A)
      → IsCtx c
      → ((r : ℕ) → IsScalar r → Gives limit Q n (f r))
      → Gives limit Q (1 + n) (comp_scalar_reg c.scalar_regs >>= f)
  after_scalar Q n c f h k =
      Gives-bind limit IsScalar Q 1 n (comp_scalar_reg c.scalar_regs) f
        (rw h.regs (comp_scalar_reg-Gives limit)) k

  after_redraw {ℓ} :
      {A : Type ℓ} (Q : A → Type 0) (n : ℕ) (avoid : List ℕ) (c : Ctx) (f : ℕ → Draw A)
      → 0 < limit
      → Apart avoid
      → IsCtx c
      → ((r : ℕ) → IsScalar r → Gives limit Q n (f r))
      → Gives limit Q (limit + n) (redraw limit c.scalar_regs avoid >>= f)
  after_redraw Q n avoid c f some_try (q, few, free) h k =
      Gives-bind limit (λ r. IsScalar r × (one_of r avoid ≡ false)) Q limit n
        (redraw limit c.scalar_regs avoid) f
        (rw h.regs (redraw-Gives limit avoid q few free some_try)) (λ r (x, e). k r x)

  pub after_pick {ℓ} :
      {A : Type ℓ} (Q : A → Type 0) (k n : ℕ) (f : ℕ → Draw A)
      → 0 < k
      → ((i : ℕ) → i < k → Gives limit Q n (f i))
      → Gives limit Q (1 + n) (comp_pick k >>= f)
  after_pick Q k n f some_k g =
      Gives-bind limit (λ i. i < k) Q 1 n (comp_pick k) f (comp_pick-Gives limit k some_k) g

module _ (limit : ℕ) (some_try : 0 < limit) (m : ℕ) (w : Draft) (h : IsDraft m w) where
  -- What a piece may draw.
  abbrev Next : ℕ → Draw Draft → Type 0
  Next = Gives limit (IsDraft (suc m))

  on_scalar-IsDraft :
      (f : ℕ → Draft → Draft)
      → ((r : ℕ) → IsScalar r → IsDraft (suc m) (f r w))
      → Next 1 (on_scalar f w)
  on_scalar-IsDraft f k =
      after_scalar limit (IsDraft (suc m)) 0 w.ctx _ h.ctx
        (λ r x. Gives-give limit (IsDraft (suc m)) (f r w) (k r x))

  on_byte-IsDraft :
      (f : ℕ → ℕ → Draft → Draft) → ((r at : ℕ) → IsDraft (suc m) (f r at w)) → Next 2 (on_byte f w)
  on_byte-IsDraft f k = after_scalar limit (IsDraft (suc m)) 1 w.ctx _ h.ctx (λ r x.
      after_pick limit (IsDraft (suc m)) 8 0 _ (omega arith)
        (λ at y. Gives-give limit (IsDraft (suc m)) (f r at w) (k r at)))

  emit_shape-IsDraft : Next 3 (emit_shape w)
  unfolding emit_shape
  emit_shape-IsDraft = after_scalar limit (IsDraft (suc m)) 2 w.ctx _ h.ctx (λ r x.
      after_pick limit (IsDraft (suc m)) 6 1 _ (omega arith) (λ i y.
        after_pick limit (IsDraft (suc m)) _ 0 _ (ground arith)
          (λ v z. Gives-give limit (IsDraft (suc m)) _ (shape-IsDraft m _ r _ w h))))

  emit_alu32-IsDraft : Next 3 (emit_alu32 w)
  unfolding emit_alu32
  emit_alu32-IsDraft = after_scalar limit (IsDraft (suc m)) 2 w.ctx _ h.ctx (λ r x.
      after_pick limit (IsDraft (suc m)) 4 1 _ (omega arith) (λ i y.
        after_pick limit (IsDraft (suc m)) 15 0 _ (omega arith)
          (λ v z. Gives-give limit (IsDraft (suc m)) _ (alu32-IsDraft m _ r _ w h))))

  emit_narrow-IsDraft : Next 2 (emit_narrow w)
  unfolding emit_narrow
  emit_narrow-IsDraft = after_scalar limit (IsDraft (suc m)) 1 w.ctx _ h.ctx (λ r x.
      after_pick limit (IsDraft (suc m)) 15 0 _ (omega arith) (λ b y.
        Gives-give limit (IsDraft (suc m)) _ (narrow-IsDraft m r (1 + b) w h x (omega (arith, y)))))

  emit_link-IsDraft : Next (1 + (limit + (1 + 0))) (emit_link limit w)
  unfolding emit_link
  emit_link-IsDraft = after_scalar limit (IsDraft (suc m)) (limit + (1 + 0)) w.ctx _ h.ctx (λ a x.
      after_redraw limit (IsDraft (suc m)) (1 + 0) (a ∷ []) w.ctx _ some_try (free_of_one a x) h.ctx
        (λ b _.
          after_pick limit (IsDraft (suc m)) 2 0 _ (omega arith)
            (λ coin y. Gives-give limit (IsDraft (suc m)) _ (link-IsDraft m a b coin w h))))

  emit_relink-IsDraft : Next (1 + (limit + (limit + (1 + (1 + 0))))) (emit_relink limit w)
  unfolding emit_relink
  emit_relink-IsDraft =
      after_scalar limit (IsDraft (suc m)) (limit + (limit + (1 + (1 + 0)))) w.ctx _ h.ctx
        (λ base x.
          after_redraw limit (IsDraft (suc m)) (limit + (1 + (1 + 0))) (base ∷ []) w.ctx _ some_try
            (free_of_one base x) h.ctx
            (λ off_reg u.
              after_redraw limit (IsDraft (suc m)) (1 + (1 + 0)) (base ∷ off_reg ∷ []) w.ctx _
                some_try (free_of_two base off_reg x u) h.ctx
                (λ dst _. after_pick limit (IsDraft (suc m)) 8 (1 + 0) _ (omega arith) (λ i y.
                  after_pick limit (IsDraft (suc m)) (8 + i - 1) 0 _ (omega arith) (λ j z.
                    Gives-give limit (IsDraft (suc m)) _ (
                      relink-IsDraft m base off_reg dst (8 + i) (1 + j) w h x
                        (omega (arith, y, z))))))))

  emit_dynptr-IsDraft :
      (k : Kernel) (reg : Option ℕ)
      → reg ≡ some 8
      → comp_can w.ctx dynptr ≡ true
      → Next 1 (emit_dynptr k reg w)
  unfolding emit_dynptr
  emit_dynptr-IsDraft k reg e can = rw e (
      after_pick limit (IsDraft (suc m)) 3 0 _ (omega arith)
        (λ i y. Gives-give limit (IsDraft (suc m)) _ (dynptr-IsDraft m k i w h can y)))

  -- Each piece draws at most `3 + 2 * limit` times.
  at_most : (n : ℕ) (x : Draw Draft) → n ≤ 3 + 2 * limit → Next n x → Next (3 + 2 * limit) x
  at_most n x = Gives-more limit (IsDraft (suc m)) n (3 + 2 * limit) x

  pub comp_emit-IsDraft :
      (k : Kernel) (p : Piece)
      → comp_can w.ctx p ≡ true
      → Next (3 + 2 * limit) (comp_emit limit k p w)
  unfolding comp_emit
  comp_emit-IsDraft k shape can = at_most 3 _ (omega arith) (emit_shape-IsDraft)
  comp_emit-IsDraft k link can = at_most _ _ (omega arith) (emit_link-IsDraft)
  comp_emit-IsDraft k narrow can = at_most 2 _ (omega arith) (emit_narrow-IsDraft)
  comp_emit-IsDraft k spill can =
      at_most 1 _ (omega arith) (on_scalar-IsDraft put_spill (λ r x. spill-IsDraft m r w h can))
  comp_emit-IsDraft k loop can =
      at_most 1 _ (omega arith) (on_scalar-IsDraft put_loop (λ r x. loop-IsDraft m r w h))
  comp_emit-IsDraft k dynptr can =
      at_most 1 _ (omega arith) (emit_dynptr-IsDraft k w.ctx.mapval_reg h.ctx.map can)
  comp_emit-IsDraft k alu32 can = at_most 3 _ (omega arith) (emit_alu32-IsDraft)
  comp_emit-IsDraft k iter can =
      at_most 1 _ (omega arith)
        (on_scalar-IsDraft (λ r. put_iter k) (λ r x. iter-IsDraft m k w h can))
  comp_emit-IsDraft k pkt can =
      at_most 2 _ (omega arith) (on_byte-IsDraft put_pkt (λ r at. pkt-IsDraft m r at w h))
  comp_emit-IsDraft k call can =
      at_most 1 _ (omega arith) (on_scalar-IsDraft put_call (λ r x. call-IsDraft m r w h x))
  comp_emit-IsDraft k dynskb can =
      at_most 2 _ (omega arith)
        (on_byte-IsDraft (put_dynskb k) (λ r at. dynskb-IsDraft m k r at w h can))
  comp_emit-IsDraft k ringbuf can =
      at_most 2 _ (omega arith)
        (on_byte-IsDraft (put_ringbuf k) (λ r at. ringbuf-IsDraft m k r at w h can))
  comp_emit-IsDraft k skref can =
      at_most 1 _ (omega arith) (on_scalar-IsDraft put_skref (λ r x. skref-IsDraft m r w h can))
  comp_emit-IsDraft k relink can = at_most _ _ (omega arith) (emit_relink-IsDraft)
