-- ===== src/Translator.antt =====
-- lib/BinaryTranslator.cpp: a block at a time, and the loop over the blocks.
pub mod Blocks
pub mod Dispatch
pub mod Totality
pub mod Arguments
pub mod MachineCode
pub mod Execution
pub mod Decoding
pub mod Lifting
pub mod Refusal
pub mod Tests
