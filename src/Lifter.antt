-- ===== src/Lifter.antt =====
-- lib/Lifter.cpp: from RISC-V instructions to the intermediate representation.
pub mod Builder
pub mod Patterns
pub mod Blocks
pub mod Simulation
