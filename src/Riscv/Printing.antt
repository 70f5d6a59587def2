-- ===== src/Riscv/Printing.antt =====
-- lib/RISCV/Instruction.cpp: the text of an instruction.
pub mod Unambiguous
mod Tests
use dinorisc.Prelude.{ℕ, List, [], ◌∷◌, ◌++◌, if◌then◌else◌}
use dinorisc.Prelude.Text.{Text, codes, decimal, signed_decimal, hexadecimal, pad}
use dinorisc.Riscv.Syntax.{Opcode, Operand, register, immediate, Instruction, is_valid}

unfoldable pub opcode_to_string : Opcode → Text
opcode_to_string Opcode.add = codes "ADD"
opcode_to_string Opcode.addi = codes "ADDI"
opcode_to_string Opcode.addw = codes "ADDW"
opcode_to_string Opcode.addiw = codes "ADDIW"
opcode_to_string Opcode.sub = codes "SUB"
opcode_to_string Opcode.subw = codes "SUBW"
opcode_to_string Opcode.and = codes "AND"
opcode_to_string Opcode.andi = codes "ANDI"
opcode_to_string Opcode.or = codes "OR"
opcode_to_string Opcode.ori = codes "ORI"
opcode_to_string Opcode.xor = codes "XOR"
opcode_to_string Opcode.xori = codes "XORI"
opcode_to_string Opcode.sll = codes "SLL"
opcode_to_string Opcode.slli = codes "SLLI"
opcode_to_string Opcode.sllw = codes "SLLW"
opcode_to_string Opcode.slliw = codes "SLLIW"
opcode_to_string Opcode.srl = codes "SRL"
opcode_to_string Opcode.srli = codes "SRLI"
opcode_to_string Opcode.srlw = codes "SRLW"
opcode_to_string Opcode.srliw = codes "SRLIW"
opcode_to_string Opcode.sra = codes "SRA"
opcode_to_string Opcode.srai = codes "SRAI"
opcode_to_string Opcode.sraw = codes "SRAW"
opcode_to_string Opcode.sraiw = codes "SRAIW"
opcode_to_string Opcode.slt = codes "SLT"
opcode_to_string Opcode.slti = codes "SLTI"
opcode_to_string Opcode.sltu = codes "SLTU"
opcode_to_string Opcode.sltiu = codes "SLTIU"
opcode_to_string Opcode.lb = codes "LB"
opcode_to_string Opcode.lh = codes "LH"
opcode_to_string Opcode.lw = codes "LW"
opcode_to_string Opcode.ld = codes "LD"
opcode_to_string Opcode.lbu = codes "LBU"
opcode_to_string Opcode.lhu = codes "LHU"
opcode_to_string Opcode.lwu = codes "LWU"
opcode_to_string Opcode.sb = codes "SB"
opcode_to_string Opcode.sh = codes "SH"
opcode_to_string Opcode.sw = codes "SW"
opcode_to_string Opcode.sd = codes "SD"
opcode_to_string Opcode.beq = codes "BEQ"
opcode_to_string Opcode.bne = codes "BNE"
opcode_to_string Opcode.blt = codes "BLT"
opcode_to_string Opcode.bge = codes "BGE"
opcode_to_string Opcode.bltu = codes "BLTU"
opcode_to_string Opcode.bgeu = codes "BGEU"
opcode_to_string Opcode.jal = codes "JAL"
opcode_to_string Opcode.jalr = codes "JALR"
opcode_to_string Opcode.lui = codes "LUI"
opcode_to_string Opcode.auipc = codes "AUIPC"
opcode_to_string Opcode.ecall = codes "ECALL"
opcode_to_string Opcode.ebreak = codes "EBREAK"
opcode_to_string Opcode.invalid = codes "INVALID"

unfoldable pub operand_to_string : Operand → Text
operand_to_string (register value) = codes "x" ++ decimal value
operand_to_string (immediate value) = signed_decimal 64 value

-- The operands behind the first, each with its separator.
unfoldable pub more_operands : List Operand → Text
unfolding operand_to_string
more_operands [] = []
more_operands (op ∷ rest) = codes ", " ++ (operand_to_string op ++ more_operands rest)

unfoldable pub operands_text : List Operand → Text
unfolding operand_to_string more_operands
operands_text [] = []
operands_text (op ∷ rest) = codes " " ++ (operand_to_string op ++ more_operands rest)

-- The width of 8 holds for the word only, the base 16 for the address too.
unfoldable pub to_string : Instruction → Text
unfolding operands_text opcode_to_string
to_string inst =
    codes "RV64I[0x"
    ++ (pad 8 (hexadecimal inst.raw_instruction)
        ++ (codes " @ 0x"
            ++ (hexadecimal inst.address
                ++ (codes "] "
                    ++ (if is_valid inst
                        then opcode_to_string inst.opcode ++ operands_text inst.operands
                        else codes "INVALID")))))
