-- ===== src/Tests/Buffers.antt =====
-- The theorems on the interpreter's memory at concrete addresses and stores.
use verifierloop.Base.{ℕ, ◌+◌, ◌-◌, ◌%◌, ◌^◌, ◌≤◌, ◌<◌, ◌≡◌, ◌↔◌, inr}
use verifierloop.Base.{refl, arith, some, get_or, set, length}
use verifierloop.Ref.{val, Memory, Pointer, in_stack, in_map, initial_memory, resolve, buffer}
use verifierloop.Ref.{store, store_le, load}
use verifierloop.Ref.Buffers.Bounds.{base, resolve_iff, resolve_wraps}
use verifierloop.Ref.Buffers.Bytes.{load-store, store_frame}

resolve_iff_example :
    (resolve 0x1fff8 8 ≡ some (record { region = in_stack; offset = 504 }))
    ↔ (0x1fff8 ≡ base in_stack + 504) × (504 + 8 ≤ 512)
resolve_iff_example = resolve_iff 0x1fff8 8 in_stack 504 (omega arith)

resolve_wraps_example :
    (k : ℕ) × (resolve (2 ^ 64 - 4) 8 ≡ some (record { region = in_stack; offset = k })) × (512 < k)
resolve_wraps_example = resolve_wraps (2 ^ 64 - 4) 8 (omega arith) (omega arith) (omega arith)

-- The map value, and 0xabcd stored in its bytes 2 and 3.
abbrev at_two : Pointer
at_two = record { region = in_map; offset = 2 }

abbrev stored : Memory
stored = record initial_memory { map = set (set initial_memory.map 2 0xcd) 3 0xab }

at_two-store : store initial_memory at_two 2 0xabcd ≡ val stored
unfolding store store_le initial_memory
at_two-store = refl

load-store_example : load stored at_two 2 ≡ val (0xabcd % 256 ^ 2)
load-store_example = load-store initial_memory stored at_two 2 0xabcd at_two-store

store_frame_example :
    (get_or (buffer stored in_map) 4 0 ≡ get_or (buffer initial_memory in_map) 4 0)
    × (length (buffer stored in_map) ≡ length (buffer initial_memory in_map))
store_frame_example =
    store_frame initial_memory stored at_two 2 0xabcd at_two-store in_map 4
      (inr (inr (omega arith)))
