-- ===== src/Ref/Buffers.antt =====
-- harness/bpfref.h, memory: bpfref_resolve and the little-endian copies to and from a buffer.
pub mod Bounds
pub mod Bytes
use verifierloop.Base.{ℕ, zero, suc, ◌+◌, ◌-◌, ◌*◌, ◌/◌, ◌%◌, ◌^◌, Bool, ◌&&◌}
use verifierloop.Base.{Option, none, some, List, [], ◌∷◌, length, get_or, set, replicate}
use verifierloop.Base.{leb, if◌then◌else◌}
use verifierloop.Ref.Alu.{Outcome, val, fault, undefined}

abbrev pub stack_size : ℕ
stack_size = 512

abbrev pub stack_base : ℕ
stack_base = 0x20000

abbrev pub map_base : ℕ
map_base = 0x10000

abbrev pub map_size : ℕ
map_size = 16

abbrev pub pkt_base : ℕ
pkt_base = 0x30000

abbrev pub pkt_size : ℕ
pkt_size = 64

pub data Region : Type 0 where
  in_stack in_map in_pkt : Region

pub record Memory : Type 0 where
  pub stack : List ℕ
  pub map : List ℕ
  pub pkt : List ℕ

-- A pointer into one of the three buffers: the region and the offset from its start.
pub record Pointer : Type 0 where
  pub region : Region
  pub offset : ℕ

-- `addr + size` is a uint64_t sum, so it wraps.
unfoldable pub resolve : ℕ → ℕ → Option Pointer
resolve addr size =
    let end_ = (addr + size) % 2 ^ 64 in
    if leb (stack_base - stack_size) addr && leb end_ stack_base
    then some (record { region = in_stack; offset = addr - (stack_base - stack_size) })
    else if leb map_base addr && leb end_ (map_base + map_size)
    then some (record { region = in_map; offset = addr - map_base })
    else if leb pkt_base addr && leb end_ (pkt_base + pkt_size)
    then some (record { region = in_pkt; offset = addr - pkt_base })
    else none

abbrev pub buffer : Memory → Region → List ℕ
buffer m in_stack = m.stack
buffer m in_map = m.map
buffer m in_pkt = m.pkt

abbrev pub with_buffer : Memory → Region → List ℕ → Memory
with_buffer m in_stack b = record m { stack = b }
with_buffer m in_map b = record m { map = b }
with_buffer m in_pkt b = record m { pkt = b }

-- memcpy(&raw, p, w) onto a zeroed word of a little-endian machine.
unfoldable pub load_le : List ℕ → ℕ → ℕ → ℕ
load_le bs at zero = 0
load_le bs at (suc w) = get_or bs at 0 + 256 * load_le bs (suc at) w

-- memcpy(p, &v, w).
unfoldable pub store_le : List ℕ → ℕ → ℕ → ℕ → List ℕ
store_le bs at zero v = bs
store_le bs at (suc w) v = store_le (set bs at (v % 256)) (suc at) w (v / 256)

-- An access beyond the end of the buffer is undefined in C.
unfoldable pub load : Memory → Pointer → ℕ → Outcome ℕ
load m p w =
    if leb (p.offset + w) (length (buffer m p.region))
    then val (load_le (buffer m p.region) p.offset w)
    else fault undefined

unfoldable pub store : Memory → Pointer → ℕ → ℕ → Outcome Memory
store m p w v =
    if leb (p.offset + w) (length (buffer m p.region))
    then val (with_buffer m p.region (store_le (buffer m p.region) p.offset w v))
    else fault undefined

-- BPFREF_PKT_BYTE(i) for the bytes from `i` on.
unfoldable pub pkt_pattern : ℕ → ℕ → List ℕ
pkt_pattern i zero = []
pkt_pattern i (suc k) = (i * 7 + 13) % 256 ∷ pkt_pattern (suc i) k

unfoldable pub initial_memory : Memory
unfolding pkt_pattern
initial_memory = record {
  stack = replicate stack_size 0;
  map = replicate map_size 0;
  pkt = pkt_pattern 0 pkt_size;
}
