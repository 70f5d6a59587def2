-- ===== src/Arm/Syntax.antt =====
-- lib/ARM64/Instruction.h: registers, operands and instructions of the target.
use dinorisc.Prelude.{ℕ}

pub data Register : Type 0 where
  x0 x1 x2 x3 x4 x5 x6 x7 x8 x9 x10 : Register
  x11 x12 x13 x14 x15 x16 x17 x18 x19 x20 x21 : Register
  x22 x23 x24 x25 x26 x27 x28 x29 x30 xsp : Register

-- `static_cast` to the underlying type.
unfoldable pub register_number : Register → ℕ
register_number x0 = 0
register_number x1 = 1
register_number x2 = 2
register_number x3 = 3
register_number x4 = 4
register_number x5 = 5
register_number x6 = 6
register_number x7 = 7
register_number x8 = 8
register_number x9 = 9
register_number x10 = 10
register_number x11 = 11
register_number x12 = 12
register_number x13 = 13
register_number x14 = 14
register_number x15 = 15
register_number x16 = 16
register_number x17 = 17
register_number x18 = 18
register_number x19 = 19
register_number x20 = 20
register_number x21 = 21
register_number x22 = 22
register_number x23 = 23
register_number x24 = 24
register_number x25 = 25
register_number x26 = 26
register_number x27 = 27
register_number x28 = 28
register_number x29 = 29
register_number x30 = 30
register_number xsp = 31

pub data Opcode : Type 0 where
  add sub mul udiv sdiv : Opcode
  and orr eor lsl lsr asr : Opcode
  ldr str : Opcode
  cmp b b_eq b_ne b_lt b_le b_gt b_ge : Opcode
  csel cset : Opcode
  sxtb sxth sxtw uxtb uxth : Opcode
  mov movn movz movk ret : Opcode

-- 8, 16, 32 and 64 bits.
pub data DataSize : Type 0 where
  byte half word double : DataSize

pub data Condition : Type 0 where
  eq ne cs cc mi pl vs vc hi ls ge lt gt le al nv : Condition

unfoldable pub condition_number : Condition → ℕ
condition_number Condition.eq = 0
condition_number Condition.ne = 1
condition_number Condition.cs = 2
condition_number Condition.cc = 3
condition_number Condition.mi = 4
condition_number Condition.pl = 5
condition_number Condition.vs = 6
condition_number Condition.vc = 7
condition_number Condition.hi = 8
condition_number Condition.ls = 9
condition_number Condition.ge = 10
condition_number Condition.lt = 11
condition_number Condition.gt = 12
condition_number Condition.le = 13
condition_number Condition.al = 14
condition_number Condition.nv = 15

abbrev pub VirtualRegister : Type 0
VirtualRegister = ℕ

-- The value of an immediate is a uint64_t.
pub data Operand : Type 0 where
  register : Register → Operand
  virtual : VirtualRegister → Operand
  immediate : ℕ → Operand

pub record ThreeOperandInst : Type 0 where
  pub opcode : Opcode
  pub size : DataSize
  pub dest : Operand
  pub src1 : Operand
  pub src2 : Operand

pub record TwoOperandInst : Type 0 where
  pub opcode : Opcode
  pub size : DataSize
  pub dest : Operand
  pub src : Operand

-- The offset is an int32_t, as a 32-bit pattern.
pub record MemoryInst : Type 0 where
  pub opcode : Opcode
  pub size : DataSize
  pub reg : Operand
  pub base_reg : Operand
  pub offset : ℕ

-- `imm16` is a uint16_t and `shift` a uint8_t.
pub record MoveWideInst : Type 0 where
  pub opcode : Opcode
  pub size : DataSize
  pub dest : Operand
  pub imm16 : ℕ
  pub shift : ℕ

pub record BranchInst : Type 0 where
  pub opcode : Opcode
  pub target : ℕ

pub record ConditionalInst : Type 0 where
  pub opcode : Opcode
  pub size : DataSize
  pub dest : Operand
  pub condition : Condition

pub record ConditionalSelectInst : Type 0 where
  pub opcode : Opcode
  pub size : DataSize
  pub dest : Operand
  pub src1 : Operand
  pub src2 : Operand
  pub condition : Condition

pub data Instruction : Type 0 where
  three_operand : ThreeOperandInst → Instruction
  two_operand : TwoOperandInst → Instruction
  memory : MemoryInst → Instruction
  move_wide : MoveWideInst → Instruction
  branch : BranchInst → Instruction
  conditional : ConditionalInst → Instruction
  conditional_select : ConditionalSelectInst → Instruction
