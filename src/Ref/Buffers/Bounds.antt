-- ===== src/Ref/Buffers/Bounds.antt =====
-- bpfref_resolve: where a pointer that it returns points.
use verifierloop.Base.{ℕ, ◌+◌, ◌-◌, ◌^◌, ◌≤◌, ◌<◌, ◌≡◌, ◌↔◌, some, arith}
use verifierloop.Ref.Buffers.{Region, in_stack, in_map, in_pkt, resolve, stack_size}
use verifierloop.Ref.Buffers.{map_size, pkt_size, stack_base, map_base, pkt_base}

abbrev pub base : Region → ℕ
base in_stack = stack_base - stack_size
base in_map = map_base
base in_pkt = pkt_base

abbrev pub region_size : Region → ℕ
region_size in_stack = stack_size
region_size in_map = map_size
region_size in_pkt = pkt_size

-- An address range that does not wrap: bpfref_resolve accepts it exactly when it lies within one
-- of the three buffers, and then answers with that buffer and the offset of the address in it.
pub resolve_iff :
    (addr size : ℕ) (r : Region) (k : ℕ)
    → addr + size < 2 ^ 64
    → (resolve addr size ≡ some (record { region = r; offset = k }))
      ↔ (addr ≡ base r + k) × (k + size ≤ region_size r)
unfolding resolve
resolve_iff addr size in_stack k h = (λ e. ground arith, λ e. ground arith)
resolve_iff addr size in_map k h = (λ e. ground arith, λ e. ground arith)
resolve_iff addr size in_pkt k h = (λ e. ground arith, λ e. ground arith)

-- An address range of at most 8 bytes that does wrap around 2 ^ 64: bpfref_resolve answers with a
-- pointer into the stack buffer whose offset is beyond the end of that buffer.
pub resolve_wraps :
    (addr size : ℕ)
    → addr < 2 ^ 64
    → size ≤ 8
    → 2 ^ 64 ≤ addr + size
    → (k : ℕ) × (resolve addr size ≡ some (record { region = in_stack; offset = k }))
      × (stack_size < k)
unfolding resolve
resolve_wraps addr size a b c = (addr - (stack_base - stack_size), ground arith, ground arith)
