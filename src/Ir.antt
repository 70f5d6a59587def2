-- ===== src/Ir.antt =====
-- lib/IR: the intermediate representation, and what a block of it does.
pub mod Syntax
pub mod Meaning
pub mod Printing
