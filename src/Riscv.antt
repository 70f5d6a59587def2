-- ===== src/Riscv.antt =====
-- lib/RISCV: the RV64I instructions and their decoder.
pub mod Syntax
pub mod Fields
pub mod Opcodes
pub mod Operands
pub mod Decoder
pub mod Printing
pub mod Meaning
