-- ===== src/Gate.antt =====
-- harness/bpflive.h against harness/bpfref.h: what the analysis calls dead, the interpreter does
-- not depend on.
mod Encoding
mod Follows
mod Operands
mod Kept
mod Atomics
mod Jumps
mod Exec
mod Control
pub mod Dead
pub use Encoding.{encoded, atomic_ok}
