-- ===== src/Ir/Meaning.antt =====
-- What a basic block of lib/IR/IR.h does to the guest's registers and memory: the meaning that the
-- lifter aims at and the lowering starts from.
use dinorisc.Prelude.{
  ℕ, zero, suc, ◌+◌, ◌-◌, ◌*◌, ◌/◌, ◌%◌, ◌^◌, Bool, true, false, none, some, List, [], ◌∷◌, ltb,
  leb, ◌==◌, not, if◌then◌else◌, bit_and, bit_or, bit_xor,
}
use dinorisc.Prelude.Words.{slt64, sle64, widen}
use dinorisc.Guest.{update}
use dinorisc.Ir.Syntax.{
  IrType, i1, i8, i16, i32, i64, ValueId, BinaryOpcode, InstructionKind, const, binary_op, sext,
  zext, trunc, load, store, reg_read, reg_write, Instruction, Terminator, branch, cond_branch,
  return,
}

-- The width of a type in bits.
abbrev pub width : IrType → ℕ
width i1 = 1
width i8 = 8
width i16 = 16
width i32 = 32
width i64 = 64

-- The bytes that a value takes in memory.
abbrev pub byte_size : IrType → ℕ
byte_size i1 = 1
byte_size i8 = 1
byte_size i16 = 2
byte_size i32 = 4
byte_size i64 = 8

abbrev pub Memory : Type 0
Memory = ℕ → ℕ

-- The bytes from an address on, the lowest first; addresses wrap at 2 ^ 64.
unfoldable pub read_memory : ℕ → Memory → ℕ → ℕ
read_memory zero memory address = 0
read_memory (suc size) memory address =
    memory (address % 2 ^ 64) + 256 * read_memory size memory (address + 1)

unfoldable pub write_memory : ℕ → Memory → ℕ → ℕ → Memory
write_memory zero memory address value = memory
write_memory (suc size) memory address value =
    write_memory size (update memory (address % 2 ^ 64) (value % 256)) (address + 1) (value / 256)

-- `x >> k` on a signed integer of `w` bits.
abbrev pub sar : ℕ → ℕ → ℕ → ℕ
sar w x k = widen w (w + k) x / 2 ^ k

abbrev pub bit_of : Bool → ℕ
bit_of true = 1
bit_of false = 0

-- The negative of a signed integer of `w` bits, and the quotient and remainder that round to zero.
abbrev negative : ℕ → ℕ → ℕ
negative w x = (2 ^ w - x) % 2 ^ w

abbrev magnitude : ℕ → ℕ → ℕ
magnitude w x = if ltb x (2 ^ (w - 1)) then x else 2 ^ w - x

abbrev signed_div : ℕ → ℕ → ℕ → ℕ
signed_div w a b =
    let q = magnitude w a / magnitude w b in
    if ltb a (2 ^ (w - 1))
    then (if ltb b (2 ^ (w - 1)) then q else negative w q)
    else (if ltb b (2 ^ (w - 1)) then negative w q else q)

abbrev signed_rem : ℕ → ℕ → ℕ → ℕ
signed_rem w a b =
    let r = magnitude w a % magnitude w b in if ltb a (2 ^ (w - 1)) then r else negative w r

-- The arithmetic is that of integers of `w` bits, shifts go by the amount modulo `w`, and a comparison
-- is of 64-bit operands, whatever the type of its result.
unfoldable pub binary_value : BinaryOpcode → ℕ → ℕ → ℕ → ℕ
binary_value BinaryOpcode.add w a b = (a + b) % 2 ^ w
binary_value BinaryOpcode.sub w a b = (a + 2 ^ w - b) % 2 ^ w
binary_value BinaryOpcode.mul w a b = a * b % 2 ^ w
binary_value BinaryOpcode.div w a b = signed_div w a b
binary_value BinaryOpcode.div_u w a b = a / b
binary_value BinaryOpcode.rem w a b = signed_rem w a b
binary_value BinaryOpcode.rem_u w a b = a % b
binary_value BinaryOpcode.and w a b = bit_and a b
binary_value BinaryOpcode.or w a b = bit_or a b
binary_value BinaryOpcode.xor w a b = bit_xor a b
binary_value BinaryOpcode.shl w a b = a * 2 ^ (b % w) % 2 ^ w
binary_value BinaryOpcode.shr w a b = a / 2 ^ (b % w)
binary_value BinaryOpcode.sar w a b = sar w a (b % w) % 2 ^ w
binary_value BinaryOpcode.eq w a b = bit_of (a == b)
binary_value BinaryOpcode.ne w a b = bit_of (not (a == b))
binary_value BinaryOpcode.lt w a b = bit_of (slt64 a b)
binary_value BinaryOpcode.le w a b = bit_of (sle64 a b)
binary_value BinaryOpcode.gt w a b = bit_of (slt64 b a)
binary_value BinaryOpcode.ge w a b = bit_of (sle64 b a)
binary_value BinaryOpcode.lt_u w a b = bit_of (ltb a b)
binary_value BinaryOpcode.le_u w a b = bit_of (leb a b)
binary_value BinaryOpcode.gt_u w a b = bit_of (ltb b a)
binary_value BinaryOpcode.ge_u w a b = bit_of (leb b a)

-- The values of a block so far, with their types, and the guest's registers and memory.
pub record Machine : Type 0 where
  pub values : ℕ → ℕ
  pub types : ℕ → IrType
  pub registers : ℕ → ℕ
  pub memory : Memory

abbrev pub set_type : (ℕ → IrType) → ℕ → IrType → ℕ → IrType
set_type types v type j = if v == j then type else types j

abbrev pub define : Machine → ValueId → IrType → ℕ → Machine
define m v type n = record m { values = update m.values v n; types = set_type m.types v type }

unfoldable pub run_kind : InstructionKind → ValueId → Machine → Machine
unfolding binary_value
run_kind (const type value) v m = define m v type (value % 2 ^ width type)
run_kind (binary_op opcode type lhs rhs) v m =
    define m v type (binary_value opcode (width type) (m.values lhs) (m.values rhs))
run_kind (sext type operand) v m =
    define m v type (widen (width (m.types operand)) (width type) (m.values operand))
run_kind (zext type operand) v m = define m v type (m.values operand)
run_kind (trunc type operand) v m = define m v type (m.values operand % 2 ^ width type)
run_kind (load type address) v m =
    define m v type (read_memory (byte_size type) m.memory (m.values address))
run_kind (store value address) v m = record m {
  memory = write_memory (byte_size (m.types value)) m.memory (m.values address) (m.values value);
}
run_kind (reg_read reg) v m = define m v i64 (m.registers reg)
run_kind (reg_write reg value) v m = record m {
  registers = update m.registers reg (m.values value);
}

unfoldable pub run_instructions : List Instruction → Machine → Machine
run_instructions [] m = m
run_instructions (inst ∷ rest) m = run_instructions rest (run_kind inst.kind inst.value_id m)

-- The next program counter; 0 ends the program.
unfoldable pub terminator_target : Terminator → Machine → ℕ
terminator_target (branch target) m = target
terminator_target (cond_branch condition true_block false_block) m =
    if m.values condition == 0 then false_block else true_block
terminator_target (return none) m = 0
terminator_target (return (some value)) m = m.values value
