-- ===== src/Gen/Comp/Draw/Fair.antt =====
-- The generator of random numbers keeps drawing each of the three scalar registers.
use verifierloop.Base.{
  ℕ, zero, suc, ◌-◌, ◌%◌, ◌<◌, ◌≤◌, ◌≡◌, Bool, true, false, ◌&&◌, ◌||◌, ◌==◌, leb, if◌then◌else◌,
  arith, refl,
}
use verifierloop.Base.{and_split}
use verifierloop.Gen.Genome.{xorshift}

-- The draws within which a register comes, after a draw of `i`.
abbrev pub waits : ℕ → ℕ → ℕ → ℕ → ℕ
waits limit q a i = if i == q then limit else a - 1

abbrev pub in_time : ℕ → ℕ → ℕ → Bool
in_time q a i = i == q || leb 2 a

-- In the next `n` draws, the first, second and third register come within `a`, `b` and `c` draws, and
-- each within `limit` draws once it has come.
unfoldable pub steady : ℕ → ℕ → ℕ → ℕ → ℕ → ℕ → Bool
steady limit zero a b c rng = true
steady limit (suc n) a b c rng =
    let r = xorshift rng in
    let i = r % 3 in
    (in_time 0 a i && (in_time 1 b i && in_time 2 c i))
    && steady limit n (waits limit 0 a i) (waits limit 1 b i) (waits limit 2 c i) r

-- A state whose next `n` draws are steady.
pub record Fair (limit n rng : ℕ) : Type 0 where
  pub first : ℕ
  pub second : ℕ
  pub third : ℕ
  pub first_le : first ≤ limit
  pub second_le : second ≤ limit
  pub third_le : third ≤ limit
  pub is_steady : steady limit n first second third rng ≡ true

-- The draws within which register `q` comes.
abbrev pub wait : {limit n rng : ℕ} → Fair limit n rng → ℕ → ℕ
wait f zero = f.first
wait f (suc zero) = f.second
wait f (suc (suc q)) = f.third

steady_prefix :
    (limit m n a b c rng : ℕ)
    → m ≤ n
    → steady limit n a b c rng ≡ true
    → steady limit m a b c rng ≡ true
unfolding steady
steady_prefix limit zero n a b c rng h e = refl
steady_prefix limit (suc m) zero a b c rng h e = absurd (omega (arith, h))
steady_prefix limit (suc m) (suc n) a b c rng h e =
    let r = xorshift rng in
    let i = r % 3 in
    let (now, later) = and_split (in_time 0 a i && (in_time 1 b i && in_time 2 c i)) e in
    rw now (steady_prefix limit m n _ _ _ r (omega (arith, h)) later)

pub Fair-weaken : {limit n rng : ℕ} (m : ℕ) → m ≤ n → Fair limit n rng → Fair limit m rng
Fair-weaken {limit} {n} {rng} m h f = record {
  first = f.first;
  second = f.second;
  third = f.third;
  first_le = f.first_le;
  second_le = f.second_le;
  third_le = f.third_le;
  is_steady = steady_prefix limit m n f.first f.second f.third rng h f.is_steady;
}

waits-le : (limit q a i : ℕ) → a ≤ limit → waits limit q a i ≤ limit
waits-le limit q a i h = ground arith

waited :
    (limit q a i : ℕ)
    → in_time q a i ≡ true
    → ((i == q) ≡ false)
    → (2 ≤ a) × (waits limit q a i ≡ a - 1)
waited limit q a i h e = ground (arith, h, e)

below_three {ℓ} : (P : ℕ → Type ℓ) → P 0 → P 1 → P 2 → (q : ℕ) → q < 3 → P q
below_three P p0 p1 p2 zero h = p0
below_three P p0 p1 p2 (suc zero) h = p1
below_three P p0 p1 p2 (suc (suc zero)) h = p2
below_three P p0 p1 p2 (suc (suc (suc q))) h = absurd (omega (arith, h))

-- A draw: what is left is fair, and a register that did not come has waited.
pub Fair-draw :
    {limit n rng : ℕ} (f : Fair limit (suc n) rng)
    → (g : Fair limit n (xorshift rng)) × ((q : ℕ)
        → q < 3
        → ((xorshift rng % 3 == q) ≡ false)
        → (2 ≤ wait f q) × (wait g q ≡ wait f q - 1))
unfolding steady
Fair-draw {limit} {n} {rng} f =
    let i = xorshift rng % 3 in
    let (now, later) =
      and_split (in_time 0 f.first i && (in_time 1 f.second i && in_time 2 f.third i))
        f.is_steady in
    let (now0, others) = and_split (in_time 0 f.first i) now in
    let (now1, now2) = and_split (in_time 1 f.second i) others in
    (
      record {
        first = waits limit 0 f.first i;
        second = waits limit 1 f.second i;
        third = waits limit 2 f.third i;
        first_le = waits-le limit 0 f.first i f.first_le;
        second_le = waits-le limit 1 f.second i f.second_le;
        third_le = waits-le limit 2 f.third i f.third_le;
        is_steady = later;
      },
      below_three _ (waited limit 0 f.first i now0) (waited limit 1 f.second i now1)
          (waited limit 2 f.third i now2),
    )

pub wait-le : {limit n rng : ℕ} (f : Fair limit n rng) (q : ℕ) → wait f q ≤ limit
wait-le f zero = f.first_le
wait-le f (suc zero) = f.second_le
wait-le f (suc (suc q)) = f.third_le
