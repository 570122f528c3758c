-- ===== src/Gen.antt =====
-- harness/diffharness.c, the generator of --gen-intent and --fuzz: genomes, and the programs that
-- are emitted from them.
pub mod Insns
pub mod Genome
pub mod Body
pub mod Emit
pub mod Coding
pub mod Layout
pub mod Program
pub mod Fuzz
pub mod Replay
pub mod Traps
pub mod Shapers
pub mod Links
pub mod Loops
pub mod Comp
pub mod Families
pub mod Segments
pub mod Enumerated
pub mod Reach
pub mod Checks
