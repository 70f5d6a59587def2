-- ===== src/Arm.antt =====
-- lib/ARM64: the ARM64 instructions that the lowering uses, and their encoder.
pub mod Syntax
pub mod Operands
pub mod ThreeOperand
pub mod TwoOperand
pub mod Memory
pub mod Encoder
pub mod Printing
