-- ===== src/Arm/Printing.antt =====
-- lib/ARM64/Instruction.cpp: the text of an instruction.
pub mod Unambiguous
mod Tests
use dinorisc.Prelude.{ℕ, List, [], ◌∷◌, ◌++◌, ◌==◌, if◌then◌else◌}
use dinorisc.Prelude.Text.{Text, codes, decimal, signed_decimal, hexadecimal}
use dinorisc.Arm.Syntax.{
  Register, Opcode, DataSize, Condition, Operand, register, virtual, immediate, Instruction,
  three_operand, two_operand, memory, move_wide, branch, conditional, conditional_select,
  MemoryInst, MoveWideInst,
}

unfoldable pub register_to_string : Register → Text
register_to_string Register.x0 = codes "x0"
register_to_string Register.x1 = codes "x1"
register_to_string Register.x2 = codes "x2"
register_to_string Register.x3 = codes "x3"
register_to_string Register.x4 = codes "x4"
register_to_string Register.x5 = codes "x5"
register_to_string Register.x6 = codes "x6"
register_to_string Register.x7 = codes "x7"
register_to_string Register.x8 = codes "x8"
register_to_string Register.x9 = codes "x9"
register_to_string Register.x10 = codes "x10"
register_to_string Register.x11 = codes "x11"
register_to_string Register.x12 = codes "x12"
register_to_string Register.x13 = codes "x13"
register_to_string Register.x14 = codes "x14"
register_to_string Register.x15 = codes "x15"
register_to_string Register.x16 = codes "x16"
register_to_string Register.x17 = codes "x17"
register_to_string Register.x18 = codes "x18"
register_to_string Register.x19 = codes "x19"
register_to_string Register.x20 = codes "x20"
register_to_string Register.x21 = codes "x21"
register_to_string Register.x22 = codes "x22"
register_to_string Register.x23 = codes "x23"
register_to_string Register.x24 = codes "x24"
register_to_string Register.x25 = codes "x25"
register_to_string Register.x26 = codes "x26"
register_to_string Register.x27 = codes "x27"
register_to_string Register.x28 = codes "x28"
register_to_string Register.x29 = codes "x29"
register_to_string Register.x30 = codes "x30"
register_to_string Register.xsp = codes "sp"

unfoldable pub opcode_to_string : Opcode → Text
opcode_to_string Opcode.add = codes "add"
opcode_to_string Opcode.sub = codes "sub"
opcode_to_string Opcode.mul = codes "mul"
opcode_to_string Opcode.udiv = codes "udiv"
opcode_to_string Opcode.sdiv = codes "sdiv"
opcode_to_string Opcode.and = codes "and"
opcode_to_string Opcode.orr = codes "orr"
opcode_to_string Opcode.eor = codes "eor"
opcode_to_string Opcode.lsl = codes "lsl"
opcode_to_string Opcode.lsr = codes "lsr"
opcode_to_string Opcode.asr = codes "asr"
opcode_to_string Opcode.ldr = codes "ldr"
opcode_to_string Opcode.str = codes "str"
opcode_to_string Opcode.cmp = codes "cmp"
opcode_to_string Opcode.b = codes "b"
opcode_to_string Opcode.b_eq = codes "b.eq"
opcode_to_string Opcode.b_ne = codes "b.ne"
opcode_to_string Opcode.b_lt = codes "b.lt"
opcode_to_string Opcode.b_le = codes "b.le"
opcode_to_string Opcode.b_gt = codes "b.gt"
opcode_to_string Opcode.b_ge = codes "b.ge"
opcode_to_string Opcode.csel = codes "csel"
opcode_to_string Opcode.cset = codes "cset"
opcode_to_string Opcode.sxtb = codes "sxtb"
opcode_to_string Opcode.sxth = codes "sxth"
opcode_to_string Opcode.sxtw = codes "sxtw"
opcode_to_string Opcode.uxtb = codes "uxtb"
opcode_to_string Opcode.uxth = codes "uxth"
opcode_to_string Opcode.mov = codes "mov"
opcode_to_string Opcode.movn = codes "movn"
opcode_to_string Opcode.movz = codes "movz"
opcode_to_string Opcode.movk = codes "movk"
opcode_to_string Opcode.ret = codes "ret"

unfoldable pub data_size_to_string : DataSize → Text
data_size_to_string DataSize.byte = codes "b"
data_size_to_string DataSize.half = codes "h"
data_size_to_string DataSize.word = codes "w"
data_size_to_string DataSize.double = codes "x"

unfoldable pub condition_to_string : Condition → Text
condition_to_string Condition.eq = codes "eq"
condition_to_string Condition.ne = codes "ne"
condition_to_string Condition.cs = codes "cs"
condition_to_string Condition.cc = codes "cc"
condition_to_string Condition.mi = codes "mi"
condition_to_string Condition.pl = codes "pl"
condition_to_string Condition.vs = codes "vs"
condition_to_string Condition.vc = codes "vc"
condition_to_string Condition.hi = codes "hi"
condition_to_string Condition.ls = codes "ls"
condition_to_string Condition.ge = codes "ge"
condition_to_string Condition.lt = codes "lt"
condition_to_string Condition.gt = codes "gt"
condition_to_string Condition.le = codes "le"
condition_to_string Condition.al = codes "al"
condition_to_string Condition.nv = codes "nv"

unfoldable pub operand_to_string : Operand → Text
unfolding register_to_string
operand_to_string (register reg) = register_to_string reg
operand_to_string (virtual vreg) = codes "v" ++ decimal vreg
operand_to_string (immediate value) = codes "#" ++ decimal value

-- The offset of a memory operand and the shift of a wide move are printed unless they are zero.
unfoldable pub offset_text : MemoryInst → Text
offset_text inst = if inst.offset == 0 then [] else codes ", #" ++ signed_decimal 32 inst.offset

unfoldable pub shift_text : MoveWideInst → Text
shift_text inst = if inst.shift == 0 then [] else codes ", lsl #" ++ decimal inst.shift

unfoldable pub to_string : Instruction → Text
unfolding opcode_to_string operand_to_string offset_text shift_text condition_to_string
to_string (three_operand inst) =
    opcode_to_string inst.opcode
    ++ (codes " "
        ++ (operand_to_string inst.dest
            ++ (codes ", "
                ++ (operand_to_string inst.src1 ++ (codes ", " ++ operand_to_string inst.src2)))))
to_string (two_operand inst) =
    opcode_to_string inst.opcode
    ++ (codes " " ++ (operand_to_string inst.dest ++ (codes ", " ++ operand_to_string inst.src)))
to_string (memory inst) =
    opcode_to_string inst.opcode
    ++ (codes " "
        ++ (operand_to_string inst.reg
            ++ (codes ", ["
                ++ (operand_to_string inst.base_reg ++ (offset_text inst ++ codes "]")))))
to_string (move_wide inst) =
    opcode_to_string inst.opcode
    ++ (codes " "
        ++ (operand_to_string inst.dest
            ++ (codes ", #" ++ (decimal inst.imm16 ++ shift_text inst))))
to_string (branch inst) = opcode_to_string inst.opcode ++ (codes " 0x" ++ hexadecimal inst.target)
to_string (conditional inst) =
    opcode_to_string inst.opcode
    ++ (codes " "
        ++ (operand_to_string inst.dest ++ (codes ", " ++ condition_to_string inst.condition)))
to_string (conditional_select inst) =
    opcode_to_string inst.opcode
    ++ (codes " "
        ++ (operand_to_string inst.dest
            ++ (codes ", "
                ++ (operand_to_string inst.src1
                    ++ (codes ", "
                        ++ (operand_to_string inst.src2
                            ++ (codes ", " ++ condition_to_string inst.condition)))))))
