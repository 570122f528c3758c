-- ===== src/Live.antt =====
-- harness/bpflive.h: the live-register analysis of an instruction stream.
pub mod Usedef
pub mod Flow
pub mod Log
unfoldable pub use Usedef.*
unfoldable pub use Flow.*
