-- ===== src/Subs.antt =====
-- harness/bpfsubs.h: the subsumption model, inside the virtual machine.
pub mod Arc
pub mod Tnum
pub mod Ids
pub mod Eval
pub mod Log
