-- ===== src/Riscv/Opcodes.antt =====
-- lib/RISCV/Decoder.cpp: `determineOpcode`, from the bit fields to the opcode.
use dinorisc.Prelude.{ℕ, ◌&&◌, ◌==◌, if◌then◌else◌, bit_or, Result, ok, err, decoding_error}
use dinorisc.Prelude.Words.{shl32}
use dinorisc.Riscv.Syntax.{Opcode}
use dinorisc.Riscv.Fields.{DecodedFields}

-- The inner switches of `determineOpcode`, one for each major opcode.
unfoldable pub op_opcode : ℕ → ℕ → Result Opcode
op_opcode funct3 funct7 =
    if funct3 == 0x0
    then (if funct7 == 0x20 then ok Opcode.sub else ok Opcode.add)
    else if funct3 == 0x1
    then ok Opcode.sll
    else if funct3 == 0x2
    then ok Opcode.slt
    else if funct3 == 0x3
    then ok Opcode.sltu
    else if funct3 == 0x4
    then ok Opcode.xor
    else if funct3 == 0x5
    then (if funct7 == 0x20 then ok Opcode.sra else ok Opcode.srl)
    else if funct3 == 0x6
    then ok Opcode.or
    else if funct3 == 0x7
    then ok Opcode.and
    else err decoding_error

unfoldable pub op_32_opcode : ℕ → ℕ → Result Opcode
op_32_opcode funct3 funct7 =
    if funct3 == 0x0
    then (if funct7 == 0x20 then ok Opcode.subw else ok Opcode.addw)
    else if funct3 == 0x1
    then ok Opcode.sllw
    else if funct3 == 0x5
    then (if funct7 == 0x20 then ok Opcode.sraw else ok Opcode.srlw)
    else err decoding_error

unfoldable pub op_imm_opcode : ℕ → ℕ → Result Opcode
op_imm_opcode funct3 funct7 =
    if funct3 == 0x0
    then ok Opcode.addi
    else if funct3 == 0x1
    then ok Opcode.slli
    else if funct3 == 0x2
    then ok Opcode.slti
    else if funct3 == 0x3
    then ok Opcode.sltiu
    else if funct3 == 0x4
    then ok Opcode.xori
    else if funct3 == 0x5
    then (if funct7 == 0x20 then ok Opcode.srai else ok Opcode.srli)
    else if funct3 == 0x6
    then ok Opcode.ori
    else if funct3 == 0x7
    then ok Opcode.andi
    else err decoding_error

unfoldable pub op_imm_32_opcode : ℕ → ℕ → Result Opcode
op_imm_32_opcode funct3 funct7 =
    if funct3 == 0x0
    then ok Opcode.addiw
    else if funct3 == 0x1
    then ok Opcode.slliw
    else if funct3 == 0x5
    then (if funct7 == 0x20 then ok Opcode.sraiw else ok Opcode.srliw)
    else err decoding_error

unfoldable pub load_opcode : ℕ → Result Opcode
load_opcode funct3 =
    if funct3 == 0x0
    then ok Opcode.lb
    else if funct3 == 0x1
    then ok Opcode.lh
    else if funct3 == 0x2
    then ok Opcode.lw
    else if funct3 == 0x3
    then ok Opcode.ld
    else if funct3 == 0x4
    then ok Opcode.lbu
    else if funct3 == 0x5
    then ok Opcode.lhu
    else if funct3 == 0x6
    then ok Opcode.lwu
    else err decoding_error

unfoldable pub store_opcode : ℕ → Result Opcode
store_opcode funct3 =
    if funct3 == 0x0
    then ok Opcode.sb
    else if funct3 == 0x1
    then ok Opcode.sh
    else if funct3 == 0x2
    then ok Opcode.sw
    else if funct3 == 0x3
    then ok Opcode.sd
    else err decoding_error

unfoldable pub branch_opcode : ℕ → Result Opcode
branch_opcode funct3 =
    if funct3 == 0x0
    then ok Opcode.beq
    else if funct3 == 0x1
    then ok Opcode.bne
    else if funct3 == 0x4
    then ok Opcode.blt
    else if funct3 == 0x5
    then ok Opcode.bge
    else if funct3 == 0x6
    then ok Opcode.bltu
    else if funct3 == 0x7
    then ok Opcode.bgeu
    else err decoding_error

unfoldable pub system_opcode : DecodedFields → Result Opcode
system_opcode fields =
    if (fields.funct3 == 0x0 && fields.rd == 0x0) && fields.rs1 == 0x0
    then (let imm = bit_or fields.rs2 (shl32 fields.funct7 5) in
        if imm == 0x0
        then ok Opcode.ecall
        else if imm == 0x1
        then ok Opcode.ebreak
        else err decoding_error)
    else err decoding_error

unfoldable pub determine_opcode : DecodedFields → Result Opcode
unfolding op_opcode op_32_opcode op_imm_opcode op_imm_32_opcode load_opcode store_opcode
    branch_opcode system_opcode
determine_opcode fields =
    if fields.opcode == 0x33
    then op_opcode fields.funct3 fields.funct7
    else if fields.opcode == 0x3B
    then op_32_opcode fields.funct3 fields.funct7
    else if fields.opcode == 0x13
    then op_imm_opcode fields.funct3 fields.funct7
    else if fields.opcode == 0x1B
    then op_imm_32_opcode fields.funct3 fields.funct7
    else if fields.opcode == 0x03
    then load_opcode fields.funct3
    else if fields.opcode == 0x23
    then store_opcode fields.funct3
    else if fields.opcode == 0x63
    then branch_opcode fields.funct3
    else if fields.opcode == 0x67
    then (if fields.funct3 == 0x0 then ok Opcode.jalr else err decoding_error)
    else if fields.opcode == 0x6F
    then ok Opcode.jal
    else if fields.opcode == 0x37
    then ok Opcode.lui
    else if fields.opcode == 0x17
    then ok Opcode.auipc
    else if fields.opcode == 0x73
    then system_opcode fields
    else err decoding_error
