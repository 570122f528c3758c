-- ===== src/Gen/Comp/Walk/Keeps.antt =====
-- Every piece that comp_can offers leaves the array, the exits and the context well formed.
use verifierloop.Base.{ℕ, ◌+◌, ◌%◌, ◌≤◌, ◌≡◌, Bool, Option, none, arith}
use verifierloop.Gen.Comp.{Ctx}
use verifierloop.Gen.Comp.Walk.Frame.{IsCtx, BoundFits}

pub IsCtx-bound :
    (c : Ctx) (b r : Option ℕ)
    → IsCtx c
    → BoundFits b r
    → IsCtx (record c { narrowed_max = b; narrow_reg = r })
IsCtx-bound c b r h f = record {
  regs = h.regs;
  low = h.low;
  high = h.high;
  aligned = h.aligned;
  map = h.map;
  mem = h.mem;
  bound = f;
}

pub IsCtx-forget : (c : Ctx) → IsCtx c → IsCtx (record c { narrowed_max = none })
IsCtx-forget c h = IsCtx-bound c none c.narrow_reg h tt

pub IsCtx-stack :
    (c : Ctx) (k : ℕ)
    → IsCtx c
    → k % 8 ≡ 0
    → c.stack + k ≤ 436
    → IsCtx (record c { stack = c.stack + k })
IsCtx-stack c k h d fits = record {
  regs = h.regs;
  low = omega (arith, h.low);
  high = fits;
  aligned = omega (arith, h.aligned, d);
  map = h.map;
  mem = h.mem;
  bound = h.bound;
}

-- The marks of what has run are free.
pub IsCtx-marks :
    (c : Ctx) (it dynskb ringbuf skref : Bool) (site : Option ℕ)
    → IsCtx c
    → IsCtx (record c {
      used_iter = it;
      call_site = site;
      used_dynskb = dynskb;
      used_ringbuf = ringbuf;
      used_skref = skref;
    })
IsCtx-marks c it dynskb ringbuf skref site h = record {
  regs = h.regs;
  low = h.low;
  high = h.high;
  aligned = h.aligned;
  map = h.map;
  mem = h.mem;
  bound = h.bound;
}
