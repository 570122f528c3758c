-- ===== src/Subs/Arc.antt =====
-- harness/bpfsubs.h, circular ranges: subs_is_empty64/32 and subs_subset64/32. An arc {b, s} of
-- words below `m` is b, b + 1, .., b + s, around the wrap; {m - 1, m - 1} is the empty one.
use verifierloop.Base.{ℕ, ◌+◌, ◌-◌, ◌%◌, ◌^◌, ◌≤◌, ◌<◌, ◌≡◌, ◌↔◌, Bool, true, false, ◌&&◌, arith}
use verifierloop.Base.{◌==◌, ltb, leb, if◌then◌else◌}

unfoldable pub is_empty64 : ℕ → ℕ → Bool
is_empty64 b s = b == 2 ^ 64 - 1 && s == 2 ^ 64 - 1

unfoldable pub is_empty32 : ℕ → ℕ → Bool
is_empty32 b s = b == 2 ^ 32 - 1 && s == 2 ^ 32 - 1

-- Whether the arc {sb, ss} lies in {bb, bs}.
unfoldable pub subset64 : ℕ → ℕ → ℕ → ℕ → Bool
unfolding is_empty64
subset64 bb bs sb ss =
    if is_empty64 sb ss
    then true
    else if is_empty64 bb bs
    then false
    else let d = (sb + 2 ^ 64 - bb) % 2 ^ 64 in
      if ltb (2 ^ 64 - 1 - d) ss && ltb bs (2 ^ 64 - 1) then false else leb ((d + ss) % 2 ^ 64) bs

unfoldable pub subset32 : ℕ → ℕ → ℕ → ℕ → Bool
unfolding is_empty32
subset32 bb bs sb ss =
    if is_empty32 sb ss
    then true
    else if is_empty32 bb bs
    then false
    else let d = (sb + 2 ^ 32 - bb) % 2 ^ 32 in
      if ltb (2 ^ 32 - 1 - d) ss && ltb bs (2 ^ 32 - 1) then false else leb ((d + ss) % 2 ^ 32) bs

-- The words of an arc.
abbrev pub InArc64 : ℕ → ℕ → ℕ → Type 0
InArc64 b s x = (is_empty64 b s ≡ false) × ((x + 2 ^ 64 - b) % 2 ^ 64 ≤ s)

abbrev pub InArc32 : ℕ → ℕ → ℕ → Type 0
InArc32 b s x = (is_empty32 b s ≡ false) × ((x + 2 ^ 32 - b) % 2 ^ 32 ≤ s)

subset64_sound :
    (bb bs sb ss x : ℕ)
    → bb < 2 ^ 64
    → bs < 2 ^ 64
    → sb < 2 ^ 64
    → ss < 2 ^ 64
    → x < 2 ^ 64
    → subset64 bb bs sb ss ≡ true
    → InArc64 sb ss x
    → InArc64 bb bs x
unfolding subset64
subset64_sound bb bs sb ss x a b c d e h i = ground arith

subset64_complete :
    (bb bs sb ss : ℕ)
    → bb < 2 ^ 64
    → bs < 2 ^ 64
    → sb < 2 ^ 64
    → ss < 2 ^ 64
    → ((x : ℕ) → x < 2 ^ 64 → InArc64 sb ss x → InArc64 bb bs x)
    → subset64 bb bs sb ss ≡ true
unfolding subset64
subset64_complete bb bs sb ss a b c d h =
    ground (arith, h sb, h ((bb + bs + 1) % 2 ^ 64), h ((sb + ss) % 2 ^ 64))

subset32_sound :
    (bb bs sb ss x : ℕ)
    → bb < 2 ^ 32
    → bs < 2 ^ 32
    → sb < 2 ^ 32
    → ss < 2 ^ 32
    → x < 2 ^ 32
    → subset32 bb bs sb ss ≡ true
    → InArc32 sb ss x
    → InArc32 bb bs x
unfolding subset32
subset32_sound bb bs sb ss x a b c d e h i = ground arith

subset32_complete :
    (bb bs sb ss : ℕ)
    → bb < 2 ^ 32
    → bs < 2 ^ 32
    → sb < 2 ^ 32
    → ss < 2 ^ 32
    → ((x : ℕ) → x < 2 ^ 32 → InArc32 sb ss x → InArc32 bb bs x)
    → subset32 bb bs sb ss ≡ true
unfolding subset32
subset32_complete bb bs sb ss a b c d h =
    ground (arith, h sb, h ((bb + bs + 1) % 2 ^ 32), h ((sb + ss) % 2 ^ 32))

-- For words below 2 ^ 64: subs_subset64 accepts exactly when every word of the arc {sb, ss} is a
-- word of the arc {bb, bs}, around the wrap, where {2 ^ 64 - 1, 2 ^ 64 - 1} has no words.
pub subset64_iff :
    (bb bs sb ss : ℕ)
    → bb < 2 ^ 64
    → bs < 2 ^ 64
    → sb < 2 ^ 64
    → ss < 2 ^ 64
    → (subset64 bb bs sb ss ≡ true) ↔ ((x : ℕ) → x < 2 ^ 64 → InArc64 sb ss x → InArc64 bb bs x)
subset64_iff bb bs sb ss a b c d =
    (λ h x e i. subset64_sound bb bs sb ss x a b c d e h i, subset64_complete bb bs sb ss a b c d)

-- For words below 2 ^ 32: subs_subset32 accepts exactly when every word of the arc {sb, ss} is a
-- word of the arc {bb, bs}, around the wrap, where {2 ^ 32 - 1, 2 ^ 32 - 1} has no words.
pub subset32_iff :
    (bb bs sb ss : ℕ)
    → bb < 2 ^ 32
    → bs < 2 ^ 32
    → sb < 2 ^ 32
    → ss < 2 ^ 32
    → (subset32 bb bs sb ss ≡ true) ↔ ((x : ℕ) → x < 2 ^ 32 → InArc32 sb ss x → InArc32 bb bs x)
subset32_iff bb bs sb ss a b c d =
    (λ h x e i. subset32_sound bb bs sb ss x a b c d e h i, subset32_complete bb bs sb ss a b c d)
