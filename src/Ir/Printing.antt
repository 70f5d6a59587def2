-- ===== src/Ir/Printing.antt =====
-- lib/IR/IR.cpp: the text of instructions, terminators and blocks.
pub mod Lines
pub mod Unambiguous
pub mod Blocks
mod Tests
use dinorisc.Prelude.{ℕ, Option, none, some, List, [], ◌∷◌, ◌++◌}
use dinorisc.Prelude.Text.{Text, codes, decimal, signed_decimal}
use dinorisc.Ir.Syntax.{
  IrType, ValueId, BinaryOpcode, InstructionKind, const, binary_op, sext, zext, trunc, load, store,
  reg_read, reg_write, Instruction, Terminator, branch, cond_branch, return, BasicBlock,
}

unfoldable pub binary_opcode_to_string : BinaryOpcode → Text
binary_opcode_to_string BinaryOpcode.add = codes "add"
binary_opcode_to_string BinaryOpcode.sub = codes "sub"
binary_opcode_to_string BinaryOpcode.mul = codes "mul"
binary_opcode_to_string BinaryOpcode.div = codes "div"
binary_opcode_to_string BinaryOpcode.div_u = codes "divu"
binary_opcode_to_string BinaryOpcode.rem = codes "rem"
binary_opcode_to_string BinaryOpcode.rem_u = codes "remu"
binary_opcode_to_string BinaryOpcode.and = codes "and"
binary_opcode_to_string BinaryOpcode.or = codes "or"
binary_opcode_to_string BinaryOpcode.xor = codes "xor"
binary_opcode_to_string BinaryOpcode.shl = codes "shl"
binary_opcode_to_string BinaryOpcode.shr = codes "shr"
binary_opcode_to_string BinaryOpcode.sar = codes "sar"
binary_opcode_to_string BinaryOpcode.eq = codes "eq"
binary_opcode_to_string BinaryOpcode.ne = codes "ne"
binary_opcode_to_string BinaryOpcode.lt = codes "lt"
binary_opcode_to_string BinaryOpcode.le = codes "le"
binary_opcode_to_string BinaryOpcode.gt = codes "gt"
binary_opcode_to_string BinaryOpcode.ge = codes "ge"
binary_opcode_to_string BinaryOpcode.lt_u = codes "ltu"
binary_opcode_to_string BinaryOpcode.le_u = codes "leu"
binary_opcode_to_string BinaryOpcode.gt_u = codes "gtu"
binary_opcode_to_string BinaryOpcode.ge_u = codes "geu"

unfoldable pub type_to_string : IrType → Text
type_to_string IrType.i1 = codes "i1"
type_to_string IrType.i8 = codes "i8"
type_to_string IrType.i16 = codes "i16"
type_to_string IrType.i32 = codes "i32"
type_to_string IrType.i64 = codes "i64"

abbrev pub value_text : ValueId → Text
value_text value_id = codes "%" ++ decimal value_id

unfoldable pub produces_value : ValueId → InstructionKind → Text
produces_value value_id (store value address) = []
produces_value value_id (reg_write reg_number value) = []
produces_value value_id _ = value_text value_id ++ codes " = "

unfoldable pub kind_text : InstructionKind → Text
unfolding binary_opcode_to_string type_to_string
kind_text (const type value) = type_to_string type ++ (codes " " ++ signed_decimal 64 value)
kind_text (binary_op opcode type lhs rhs) =
    binary_opcode_to_string opcode
    ++ (codes " "
        ++ (type_to_string type
            ++ (codes " " ++ (value_text lhs ++ (codes ", " ++ value_text rhs)))))
kind_text (sext to_type operand) =
    codes "sext to " ++ (type_to_string to_type ++ (codes " " ++ value_text operand))
kind_text (zext to_type operand) =
    codes "zext to " ++ (type_to_string to_type ++ (codes " " ++ value_text operand))
kind_text (trunc to_type operand) =
    codes "trunc to " ++ (type_to_string to_type ++ (codes " " ++ value_text operand))
kind_text (load type address) =
    codes "load " ++ (type_to_string type ++ (codes " " ++ value_text address))
kind_text (store value address) =
    codes "store " ++ (value_text value ++ (codes ", " ++ value_text address))
kind_text (reg_read reg_number) = codes "regread x" ++ decimal reg_number
kind_text (reg_write reg_number value) =
    codes "regwrite x" ++ (decimal reg_number ++ (codes ", " ++ value_text value))

unfoldable pub instruction_to_string : Instruction → Text
unfolding produces_value kind_text
instruction_to_string inst = produces_value inst.value_id inst.kind ++ kind_text inst.kind

unfoldable pub terminator_to_string : Terminator → Text
terminator_to_string (branch target) = codes "br bb" ++ decimal target
terminator_to_string (cond_branch condition true_block false_block) =
    codes "condbr "
    ++ (value_text condition
        ++ (codes ", bb" ++ (decimal true_block ++ (codes ", bb" ++ decimal false_block))))
terminator_to_string (return (some value)) = codes "ret " ++ value_text value
terminator_to_string (return none) = codes "ret"

-- A line: indented, with the line break.
abbrev pub line : Text → Text
line text = codes "  " ++ (text ++ 10 ∷ [])

unfoldable pub instruction_lines : List Instruction → Text
unfolding instruction_to_string
instruction_lines [] = []
instruction_lines (inst ∷ rest) = line (instruction_to_string inst) ++ instruction_lines rest

unfoldable pub block_to_string : BasicBlock → Text
unfolding instruction_lines terminator_to_string
block_to_string block =
    codes "BasicBlock:"
    ++ 10 ∷ (instruction_lines block.instructions ++ line (terminator_to_string block.terminator))
