-- ===== src/Riscv/Syntax.antt =====
-- lib/RISCV/Instruction.h: a decoded RV64I instruction.
use dinorisc.Prelude.{
  ℕ, Bool, true, false, Option, none, some, List, get_elem?, Result, ok, err, bad_access,
}

pub data Opcode : Type 0 where
  add addi addw addiw sub subw and andi or ori xor xori : Opcode
  sll slli sllw slliw srl srli srlw srliw sra srai sraw sraiw : Opcode
  slt slti sltu sltiu : Opcode
  lb lh lw ld lbu lhu lwu : Opcode
  sb sh sw sd : Opcode
  beq bne blt bge bltu bgeu : Opcode
  jal jalr : Opcode
  lui auipc : Opcode
  ecall ebreak : Opcode
  invalid : Opcode

-- An immediate is an int64_t, as a 64-bit pattern.
pub data Operand : Type 0 where
  register : ℕ → Operand
  immediate : ℕ → Operand

pub record Instruction : Type 0 where
  pub opcode : Opcode
  pub operands : List Operand
  pub raw_instruction : ℕ
  pub address : ℕ

unfoldable pub opcode_is_valid : Opcode → Bool
opcode_is_valid Opcode.invalid = false
opcode_is_valid _ = true

unfoldable pub is_valid : Instruction → Bool
unfolding opcode_is_valid
is_valid inst = opcode_is_valid inst.opcode

-- `std::get` of the operand at an index.
abbrev pub as_register : Option Operand → Result ℕ
as_register (some (register v)) = ok v
as_register (some (immediate v)) = err bad_access
as_register none = err bad_access

abbrev pub as_immediate : Option Operand → Result ℕ
as_immediate (some (register v)) = err bad_access
as_immediate (some (immediate v)) = ok v
as_immediate none = err bad_access

unfoldable pub get_register : Instruction → ℕ → Result ℕ
get_register inst index = as_register (get_elem? inst.operands index)

unfoldable pub get_immediate : Instruction → ℕ → Result ℕ
get_immediate inst index = as_immediate (get_elem? inst.operands index)
