-- ===== src/Lowering.antt =====
-- lib/Lowering: instruction selection, liveness analysis and register allocation.
pub mod Builder
pub mod Constants
pub mod Operations
pub mod Selector
pub mod Terminators
pub mod Liveness
pub mod Allocator
