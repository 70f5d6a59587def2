-- ===== src/Ir/Syntax.antt =====
-- lib/IR/IR.h: types, instructions, terminators and basic blocks of the intermediate representation.
use dinorisc.Prelude.{ℕ, Option, List}

pub data IrType : Type 0 where
  i1 i8 i16 i32 i64 : IrType

abbrev pub ValueId : Type 0
ValueId = ℕ

pub data BinaryOpcode : Type 0 where
  add sub mul div div_u rem rem_u : BinaryOpcode
  and or xor shl shr sar : BinaryOpcode
  eq ne lt le gt ge lt_u le_u gt_u ge_u : BinaryOpcode

-- The value of a constant is an int64_t, as a 64-bit pattern.
pub data InstructionKind : Type 0 where
  const : IrType → ℕ → InstructionKind
  binary_op : BinaryOpcode → IrType → ValueId → ValueId → InstructionKind
  sext zext trunc : IrType → ValueId → InstructionKind
  load : IrType → ValueId → InstructionKind
  store : ValueId → ValueId → InstructionKind
  reg_read : ℕ → InstructionKind
  reg_write : ℕ → ValueId → InstructionKind

pub record Instruction : Type 0 where
  pub value_id : ValueId
  pub kind : InstructionKind

pub data Terminator : Type 0 where
  branch : ℕ → Terminator
  cond_branch : ValueId → ℕ → ℕ → Terminator
  return : Option ValueId → Terminator

pub record BasicBlock : Type 0 where
  pub instructions : List Instruction
  pub terminator : Terminator
