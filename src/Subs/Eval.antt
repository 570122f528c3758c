-- ===== src/Subs/Eval.antt =====
-- harness/bpfsubs.h, subs_eval: one pair of states through the model of regsafe.
pub mod Sound
use verifierloop.Base.{
  ℕ, zero, suc, ◌+◌, ◌-◌, ◌*◌, ◌/◌, ◌%◌, ◌^◌, Bool, true, false, ◌&&◌, ◌||◌, not,
}
use verifierloop.Base.{List, [], ◌∷◌, length, get_or, Option, none, some, ◌==◌, ltb, leb}
use verifierloop.Base.{if◌then◌else◌, bit_and, bit_or}
use verifierloop.Subs.Arc.{subset64, subset32}
use verifierloop.Subs.Tnum.{tnum_in}
use verifierloop.Subs.Ids.{Idmap, Checked, check_ids, check_scalar_ids, add_const}

-- struct subs_reg; the `int` fields are 32-bit patterns, and `pfx` is the string without its 0.
pub record Reg : Type 0 where
  pub key : ℕ
  pub t : ℕ
  pub delta : ℕ
  pub fno : ℕ
  pub prec : ℕ
  pub vv : ℕ
  pub vm : ℕ
  pub b64 : ℕ
  pub sz64 : ℕ
  pub b32 : ℕ
  pub sz32 : ℕ
  pub id : ℕ
  pub pid : ℕ
  pub have_pfx : Bool
  pub vo : ℕ
  pub pfx : List ℕ

-- The values of `*arm`.
pub data Arm : Type 0 where
  unnamed type_arm ptr_memcmp ptr_range_within ptr_tnum_in ptr_check_ids pkt_range regs_exact : Arm
  frameno add_const_flag delta_arm check_scalar_ids_arm range_within_arm tnum_in_arm : Arm

pub data Verdict : Type 0 where
  agree unmodelled : Verdict
  broken : Arm → Verdict

abbrev pub scalar : ℕ
scalar = 1

unfoldable pub range_within : Reg → Reg → Bool
range_within o c = subset64 o.b64 o.sz64 c.b64 c.sz64 && subset32 o.b32 o.sz32 c.b32 c.sz32

abbrev pub reg_tnum_in : Reg → Reg → Bool
reg_tnum_in o c = tnum_in o.vv o.vm c.vv c.vm

-- A hex digit's value, as the pattern of an `int`.
abbrev pub hex_digit : ℕ → ℕ
hex_digit c = if leb c b'9' then (c + 2 ^ 32 - b'0') % 2 ^ 32 else (c + 2 ^ 32 - b'a' + 10) % 2 ^ 32

abbrev pub hex_byte : List ℕ → ℕ → ℕ
hex_byte p i =
    bit_or (hex_digit (get_or p (16 + i * 2) 0) * 16 % 2 ^ 32) (hex_digit (get_or p (17 + i * 2) 0))

-- Bytes 8 .. 12 of the prefix, as the pattern of an `int`.
unfoldable pub pfx_range : Reg → ℕ
pfx_range r = bit_or (hex_byte r.pfx 0) (
    bit_or (hex_byte r.pfx 1 * 2 ^ 8 % 2 ^ 32)
      (bit_or (hex_byte r.pfx 2 * 2 ^ 16 % 2 ^ 32) (hex_byte r.pfx 3 * 2 ^ 24 % 2 ^ 32)))

abbrev pub is_negative : ℕ → Bool
is_negative a = leb (2 ^ 31) a

-- strcmp(p, q) == 0, and memcmp(p, q, n) == 0 within the buffers, which are filled up by 0.
unfoldable pub same_text : List ℕ → List ℕ → Bool
same_text [] [] = true
same_text [] (y ∷ ys) = false
same_text (x ∷ xs) [] = false
same_text (x ∷ xs) (y ∷ ys) = x == y && same_text xs ys

unfoldable pub same_bytes : ℕ → List ℕ → List ℕ → Bool
same_bytes zero p q = true
same_bytes (suc n) p q = same_bytes n p q && get_or p n 0 == get_or q n 0

unfoldable pub find : List Reg → ℕ → Option Reg
find [] key = none
find (r ∷ rs) key = if r.key == key then some r else find rs key

-- `a > b` on the `int` keys.
abbrev pub key_gt : ℕ → ℕ → Bool
key_gt a b = ltb ((b + 2 ^ 31) % 2 ^ 32) ((a + 2 ^ 31) % 2 ^ 32)

-- One round of the insertion sort: the entries sorted so far, the last one first.
unfoldable pub insert_back : Reg → List Reg → List Reg
insert_back t [] = t ∷ []
insert_back t (r ∷ rs) = if key_gt r.key t.key then r ∷ insert_back t rs else t ∷ r ∷ rs

unfoldable pub sort_back : List Reg → List Reg → List Reg
sort_back sorted [] = sorted
sort_back sorted (r ∷ rs) = sort_back (insert_back r sorted) rs

unfoldable pub reverse_onto : List Reg → List Reg → List Reg
reverse_onto [] acc = acc
reverse_onto (r ∷ rs) acc = reverse_onto rs (r ∷ acc)

unfoldable pub sort : List Reg → List Reg
unfolding sort_back insert_back reverse_onto
sort rs = reverse_onto (sort_back [] rs) []

-- The local map and `ran`, and the counters of `*st` that the loop raises.
pub record Progress : Type 0 where
  pub ids : Idmap
  pub ran : Bool
  pub scalar_cmp : ℕ
  pub ptr_cmp : ℕ
  pub shortcircuit : ℕ

pub data Check : Type 0 where
  passed : Progress → Check
  failed : Arm → Progress → Check

-- `if (!b) { *arm = a; return SUBS_BREAK; }`, then the rest.
abbrev pub require : Bool → Arm → Progress → (Progress → Check) → Check
require true a p rest = rest p
require false a p rest = failed a p

abbrev pub with_ids : Progress → Idmap → Progress
with_ids p m = record p { ids = m }

-- check_ids on `id`.
unfoldable pub ids_step : Reg → Reg → Progress → (Progress → Check) → Check
ids_step o c p rest =
    let first = check_ids p.ids o.id c.id in
    require first.ok ptr_check_ids (with_ids p first.map) rest

-- check_ids on `id`, and on `pid` if that passed.
unfoldable pub both_ids_step : Reg → Reg → Progress → (Progress → Check) → Check
both_ids_step o c p rest =
    let first = check_ids p.ids o.id c.id in
    let second = check_ids first.map o.pid c.pid in
    require (first.ok && second.ok) ptr_check_ids (with_ids p second.map) rest

-- PTR_TO_MAP_VALUE and its kin; base 21 (PTR_TO_BUF's arm) checks no ids.
unfoldable pub map_pointer : ℕ → Reg → Reg → Progress → Check
map_pointer base o c p = require (same_bytes (o.vo * 2) o.pfx c.pfx) ptr_memcmp p λ p.
    require (range_within o c) ptr_range_within p λ p.
      require (reg_tnum_in o c) ptr_tnum_in p
        λ p. if base == 21 then passed p else both_ids_step o c p passed

-- Packet pointers: a negative range must be the same, any other may only shrink.
abbrev pub packet_range_ok : ℕ → ℕ → Bool
packet_range_ok ro rc = if is_negative ro || is_negative rc then ro == rc else leb ro rc

unfoldable pub packet_pointer : Reg → Reg → Progress → Check
packet_pointer o c p =
    require (packet_range_ok (pfx_range o) (pfx_range c)) pkt_range p λ p.
      ids_step o c p λ p. require (range_within o c && reg_tnum_in o c) ptr_range_within p passed

unfoldable pub exact_pointer : ℕ → Reg → Reg → Progress → Check
exact_pointer base o c p =
    require (same_text o.pfx c.pfx) regs_exact p λ p.
      require (not (base == 6 && not (o.fno == c.fno))) frameno p λ p. both_ids_step o c p passed

abbrev pub is_map_base : ℕ → Bool
is_map_base b = b == 4 || b == 5 || b == 17 || b == 19 || b == 14 || b == 21

-- PTR_TO_ARENA, base 18, always passes.
unfoldable pub pointer_kind : ℕ → Reg → Reg → Progress → Check
pointer_kind base o c p =
    if base == 18
    then passed p
    else if is_map_base base
    then map_pointer base o c p
    else if base == 7 || base == 8
    then packet_pointer o c p
    else exact_pointer base o c p

unfoldable pub check_pointer : Reg → Reg → Progress → Check
check_pointer o c p =
    if o.have_pfx && c.have_pfx
    then pointer_kind (bit_and o.t 0xff) o c (record p { ptr_cmp = p.ptr_cmp + 1 })
    else passed p

-- The flags that say how a register is linked.
abbrev pub flags_ok : Reg → Reg → Bool
flags_ok o c = o.id == 0 || bit_and o.id add_const == bit_and c.id add_const

abbrev pub delta_ok : Reg → Reg → Bool
delta_ok o c = bit_and o.id add_const == 0 || o.delta == c.delta

unfoldable pub scalar_ids_step : Reg → Reg → Progress → (Progress → Check) → Check
scalar_ids_step o c p rest =
    let checked = check_scalar_ids p.ids o.id c.id in
    require checked.ok check_scalar_ids_arm (with_ids p checked.map) rest

abbrev pub count_scalar : Progress → Progress
count_scalar p = record p { scalar_cmp = p.scalar_cmp + 1; ran = true }

unfoldable pub check_scalar : ℕ → Reg → Reg → Progress → Check
check_scalar exact o c p =
    if o.prec == 0 && exact == 0
    then passed (record p { shortcircuit = p.shortcircuit + 1 })
    else require (flags_ok o c) add_const_flag p λ p. require (delta_ok o c) delta_arm p λ p.
      scalar_ids_step o c p λ p.
        require (range_within o c) range_within_arm (count_scalar p)
          λ p. require (reg_tnum_in o c) tnum_in_arm p passed

unfoldable pub check_reg : ℕ → Reg → Reg → Progress → Check
check_reg exact o c p =
    require (o.t == c.t) type_arm p
      λ p. if o.t == scalar then check_scalar exact o c p else check_pointer o c p

-- A verdict, with the progress on which it was reached.
pub record Evaluated : Type 0 where
  pub verdict : Verdict
  pub progress : Progress

abbrev pub after_check : Check → (Progress → Evaluated) → Evaluated
after_check (passed q) rest = rest q
after_check (failed a q) rest = record { verdict = broken a; progress = q }

unfoldable pub check_found : ℕ → Reg → Option Reg → Progress → (Progress → Evaluated) → Evaluated
check_found exact o none p rest = record { verdict = unmodelled; progress = p }
check_found exact o (some c) p rest = after_check (check_reg exact o c p) rest

-- The main loop of subs_eval.
unfoldable pub eval_regs : ℕ → List Reg → List Reg → Progress → Evaluated
eval_regs exact cur [] p = record { verdict = agree; progress = p }
eval_regs exact cur (o ∷ os) p = check_found exact o (find cur o.key) p (eval_regs exact cur os)

abbrev pub start : Progress
start = record {
  ids = record { pairs = []; tmp = 2 ^ 20 };
  ran = false;
  scalar_cmp = 0;
  ptr_cmp = 0;
  shortcircuit = 0;
}

abbrev pub is_nil : List Reg → Bool
is_nil [] = true
is_nil (r ∷ rs) = false

unfoldable pub eval : List Reg → List Reg → ℕ → Evaluated
unfolding sort
eval old cur exact =
    if is_nil old || is_nil cur
    then record { verdict = unmodelled; progress = start }
    else eval_regs exact cur (sort old) start
