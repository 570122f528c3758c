-- ===== src/Ref/Buffers/Bytes.antt =====
-- The copies to and from a buffer: what a load finds after a store.
use verifierloop.Base.{ℕ, zero, suc, ◌+◌, ◌-◌, ◌*◌, ◌/◌, ◌%◌, ◌^◌, ◌≤◌, ◌<◌, ◌≡◌, ◌≢◌, true}
use verifierloop.Base.{
  List, length, get_or, set, leb, arith, length-set, get_or-set_self, get_or-set_ne, refl, sym, ◌∙◌,
  ap,
}
use native.Mathlib.Nat.{mod_def, div-div-eq-div-mul, mul-div-le, mul_assoc, pow-suc}
use verifierloop.Base.{leb→le, Bool-cases, inl, inr, ◌⊎◌}
use verifierloop.Ref.Alu.{val}
use verifierloop.Ref.Buffers.{
  Memory, Pointer, Region, buffer, with_buffer, load_le, store_le, load, store,
}
use verifierloop.Ref.Buffers.{in_stack, in_map, in_pkt}

pub length-store_le : (bs : List ℕ) (at w v : ℕ) → length (store_le bs at w v) ≡ length bs
unfolding store_le
length-store_le bs at zero v = refl
length-store_le bs at (suc w) v =
    length-store_le (set bs at (v % 256)) (suc at) w (v / 256) ∙ length-set bs at (v % 256)

-- A byte outside the range stays.
pub get_or-store_le_out :
    (bs : List ℕ) (at w v i : ℕ)
    → (i < at) ⊎ (at + w ≤ i)
    → get_or (store_le bs at w v) i 0 ≡ get_or bs i 0
unfolding store_le
get_or-store_le_out bs at zero v i h = refl
get_or-store_le_out bs at (suc w) v i h =
    get_or-store_le_out (set bs at (v % 256)) (suc at) w (v / 256) i (ground arith)
    ∙ get_or-set_ne bs at i (v % 256) 0 (λ e. ground arith)

mod_bytes : (v n : ℕ) → v % 256 + 256 * (v / 256 % n) ≡ v % (256 * n)
mod_bytes v n =
    let whole : v % (256 * n) ≡ v - 256 * (n * (v / 256 / n)) =
      rw (mod_def v (256 * n), div-div-eq-div-mul v 256 n, mul_assoc 256 n (v / (256 * n))) refl in
    omega (arith, whole, mod_def (v / 256) n, mul-div-le (v / 256) n)

load_le-store_le :
    (bs : List ℕ) (at w v : ℕ)
    → at + w ≤ length bs
    → load_le (store_le bs at w v) at w ≡ v % 256 ^ w
unfolding store_le load_le
load_le-store_le bs at zero v h = omega arith
load_le-store_le bs at (suc w) v h =
    let first : get_or (store_le (set bs at (v % 256)) (suc at) w (v / 256)) at 0 ≡ v % 256 =
      get_or-store_le_out (set bs at (v % 256)) (suc at) w (v / 256) at (inl (omega arith))
      ∙ get_or-set_self bs at (v % 256) 0 (omega arith) in
    let rest =
      load_le-store_le (set bs at (v % 256)) (suc at) w (v / 256)
        (omega (arith, length-set bs at (v % 256))) in
    rw (first, rest, pow-suc 256 w) (mod_bytes v (256 ^ w) ∙ ap (λ t. v % t) (omega arith))

buffer-with_buffer : (m : Memory) (r : Region) (b : List ℕ) → buffer (with_buffer m r b) r ≡ b
buffer-with_buffer m in_stack b = refl
buffer-with_buffer m in_map b = refl
buffer-with_buffer m in_pkt b = refl

load_inside :
    (m : Memory) (p : Pointer) (w : ℕ) (bs : List ℕ)
    → buffer m p.region ≡ bs
    → p.offset + w ≤ length bs
    → load m p w ≡ val (load_le bs p.offset w)
unfolding load
load_inside m p w bs e h =
    let inside : leb (p.offset + w) (length bs) ≡ true = ground arith in rw (e, inside) refl

-- A store that succeeds is read back: a load of the same width through the same pointer gives the
-- low bytes of the stored value.
pub load-store :
    (m m' : Memory) (p : Pointer) (w v : ℕ)
    → store m p w v ≡ val m'
    → load m' p w ≡ val (v % 256 ^ w)
unfolding store
load-store m m' p w v h = elim (Bool-cases (leb (p.offset + w) (length (buffer m p.region)))) [
  | inr out ↦ cc (rw out at h)
  | inl inside ↦
      let bs = store_le (buffer m p.region) p.offset w v in
      let same : with_buffer m p.region bs ≡ m' = cc (rw inside at h) in
      load_inside m' p w bs (rw (sym same) (buffer-with_buffer m p.region bs))
        (omega (arith, length-store_le (buffer m p.region) p.offset w v, leb→le _ _ inside))
      ∙ ap val (load_le-store_le (buffer m p.region) p.offset w v (leb→le _ _ inside))
]

-- What a write of `w` bytes at `at` of region `q` leaves alone.
frame :
    (m : Memory) (q r : Region) (at w v i : ℕ)
    → (r ≢ q) ⊎ (i < at) ⊎ (at + w ≤ i)
    → (get_or (buffer (with_buffer m q (store_le (buffer m q) at w v)) r) i 0
        ≡ get_or (buffer m r) i 0)
      × (length (buffer (with_buffer m q (store_le (buffer m q) at w v)) r) ≡ length (buffer m r))
frame m in_stack in_stack at w v i (inl ne) = absurd (ne refl)
frame m in_stack in_stack at w v i (inr out) = (
  get_or-store_le_out (buffer m in_stack) at w v i out,
  length-store_le (buffer m in_stack) at w v,
)
frame m in_stack in_map at w v i out = (refl, refl)
frame m in_stack in_pkt at w v i out = (refl, refl)
frame m in_map in_stack at w v i out = (refl, refl)
frame m in_map in_map at w v i (inl ne) = absurd (ne refl)
frame m in_map in_map at w v i (inr out) =
    (get_or-store_le_out (buffer m in_map) at w v i out, length-store_le (buffer m in_map) at w v)
frame m in_map in_pkt at w v i out = (refl, refl)
frame m in_pkt in_stack at w v i out = (refl, refl)
frame m in_pkt in_map at w v i out = (refl, refl)
frame m in_pkt in_pkt at w v i (inl ne) = absurd (ne refl)
frame m in_pkt in_pkt at w v i (inr out) =
    (get_or-store_le_out (buffer m in_pkt) at w v i out, length-store_le (buffer m in_pkt) at w v)

-- A store that succeeds leaves the length of every buffer, and every byte outside the range it
-- writes: the other buffers, and its own before `offset` and from `offset + w` on.
pub store_frame :
    (m m' : Memory) (p : Pointer) (w v : ℕ)
    → store m p w v ≡ val m'
    → (r : Region) (i : ℕ) → (r ≢ p.region) ⊎ (i < p.offset) ⊎ (p.offset + w ≤ i)
    → (get_or (buffer m' r) i 0 ≡ get_or (buffer m r) i 0)
      × (length (buffer m' r) ≡ length (buffer m r))
unfolding store
store_frame m m' p w v h r i out =
    elim (Bool-cases (leb (p.offset + w) (length (buffer m p.region)))) [
      | inr beyond ↦ cc (rw beyond at h)
      | inl inside ↦
          let bs = store_le (buffer m p.region) p.offset w v in
          let same : with_buffer m p.region bs ≡ m' = cc (rw inside at h) in
          rw (sym same) (frame m p.region r p.offset w v i out)
    ]
