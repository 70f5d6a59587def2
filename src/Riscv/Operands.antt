-- ===== src/Riscv/Operands.antt =====
-- lib/RISCV/Decoder.cpp: `extractOperands`, the operands that each opcode has.
use dinorisc.Prelude.{ℕ, List, [], ◌∷◌, Result, ok, err, decoding_error}
use dinorisc.Prelude.Words.{int64_of_int32}
use dinorisc.Riscv.Syntax.{Opcode, Operand, register, immediate}
use dinorisc.Riscv.Fields.{
  DecodedFields, extract_i_type_immediate, extract_s_type_immediate, extract_b_type_immediate,
  extract_u_type_immediate, extract_j_type_immediate,
}

-- The instruction formats, by which `extractOperands` groups the opcodes; `illegal` is `INVALID`.
pub data Format : Type 0 where
  r_type i_type s_type b_type u_type j_type system illegal : Format

unfoldable pub format : Opcode → Format
format Opcode.add = r_type
format Opcode.sub = r_type
format Opcode.sll = r_type
format Opcode.slt = r_type
format Opcode.sltu = r_type
format Opcode.xor = r_type
format Opcode.srl = r_type
format Opcode.sra = r_type
format Opcode.or = r_type
format Opcode.and = r_type
format Opcode.addw = r_type
format Opcode.subw = r_type
format Opcode.sllw = r_type
format Opcode.srlw = r_type
format Opcode.sraw = r_type
format Opcode.sb = s_type
format Opcode.sh = s_type
format Opcode.sw = s_type
format Opcode.sd = s_type
format Opcode.beq = b_type
format Opcode.bne = b_type
format Opcode.blt = b_type
format Opcode.bge = b_type
format Opcode.bltu = b_type
format Opcode.bgeu = b_type
format Opcode.lui = u_type
format Opcode.auipc = u_type
format Opcode.jal = j_type
format Opcode.ecall = system
format Opcode.ebreak = system
format Opcode.invalid = illegal
-- The immediate operations, the loads and `JALR`.
format _ = i_type

unfoldable pub format_operands : Format → DecodedFields → ℕ → Result (List Operand)
format_operands r_type fields raw =
    ok (register fields.rd ∷ register fields.rs1 ∷ register fields.rs2 ∷ [])
format_operands i_type fields raw = ok (
    register fields.rd
    ∷ register fields.rs1
    ∷ immediate (int64_of_int32 (extract_i_type_immediate raw))
    ∷ [])
format_operands s_type fields raw = ok (
    register fields.rs1
    ∷ register fields.rs2
    ∷ immediate (int64_of_int32 (extract_s_type_immediate raw))
    ∷ [])
format_operands b_type fields raw = ok (
    register fields.rs1
    ∷ register fields.rs2
    ∷ immediate (int64_of_int32 (extract_b_type_immediate raw))
    ∷ [])
format_operands u_type fields raw =
    ok (register fields.rd ∷ immediate (int64_of_int32 (extract_u_type_immediate raw)) ∷ [])
format_operands j_type fields raw =
    ok (register fields.rd ∷ immediate (int64_of_int32 (extract_j_type_immediate raw)) ∷ [])
format_operands system fields raw = ok []
format_operands illegal fields raw = err decoding_error

unfoldable pub extract_operands : DecodedFields → Opcode → ℕ → Result (List Operand)
unfolding format format_operands
extract_operands fields opcode raw = format_operands (format opcode) fields raw
