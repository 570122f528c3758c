-- ===== src/Ref.antt =====
-- harness/bpfref.h: the reference interpreter.
pub mod Alu
pub mod Buffers
pub mod Step
pub mod Run
unfoldable pub use Alu.*
unfoldable pub use Buffers.*
unfoldable pub use Step.*
unfoldable pub use Run.*
