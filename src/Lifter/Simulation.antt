-- ===== src/Lifter/Simulation.antt =====
-- lib/Lifter.cpp against the meaning of RV64I: the lifted instructions, run on a machine, do what the
-- instructions do.
pub mod Rules
pub mod Builder
pub mod Registers
pub mod Patterns
pub mod Instructions
pub mod WriteBack
pub mod Terminators
pub mod Walk
pub mod Blocks
mod Tests
pub mod Unsupported
