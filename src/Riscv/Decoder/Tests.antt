-- ===== src/Riscv/Decoder/Tests.antt =====
-- The decoder on instruction words.
use dinorisc.Prelude.{◌≡◌, refl, arith, [], ◌∷◌, ok}
use dinorisc.Riscv.Syntax.{Opcode, Instruction, register, immediate}
use dinorisc.Riscv.Fields.{
  read_instruction_from_memory, extract_fields, extract_i_type_immediate, sign_extend,
}
use dinorisc.Riscv.Opcodes.{determine_opcode}
use dinorisc.Riscv.Operands.{extract_operands}
use dinorisc.Riscv.Decoder.{decode}
use dinorisc.Riscv.Decoder.Words.{word_bytes}
use dinorisc.Riscv.Decoder.Assembler.{Arguments, InRange, encoding, form_operands, assemble}
use dinorisc.Riscv.Decoder.RoundTrip.{decode-assemble, decode-srai_wide}
use dinorisc.Riscv.Decoder.Shape.{WellShaped, decode-WellShaped}

-- `beq x5, x6, -8`, whose offset has every part of the scattered immediate.
abbrev back_args : Arguments
back_args = record { rd = 0; rs1 = 5; rs2 = 6; imm = 0x1FF8 }

back_args-InRange : InRange (encoding Opcode.beq) back_args
back_args-InRange = record {
  rd = omega arith;
  rs1 = omega arith;
  rs2 = omega arith;
  imm = (omega arith, omega arith);
}

decode-assemble_example :
    decode (word_bytes (assemble Opcode.beq back_args)) 0 0x1000
    ≡ ok (record {
      opcode = Opcode.beq;
      operands = form_operands (encoding Opcode.beq) back_args;
      raw_instruction = assemble Opcode.beq back_args;
      address = 0x1000;
    })
decode-assemble_example =
    decode-assemble Opcode.beq back_args 0x1000 (λ p. cc) back_args-InRange (λ p. cc)

-- `srai x5, x6, 40`
abbrev wide_args : Arguments
wide_args = record { rd = 5; rs1 = 6; rs2 = 0; imm = 40 }

wide_args-InRange : InRange (encoding Opcode.srai) wide_args
wide_args-InRange = record {
  rd = omega arith;
  rs1 = omega arith;
  rs2 = omega arith;
  imm = omega arith;
}

decode-srai_wide_example :
    decode (word_bytes (assemble Opcode.srai wide_args)) 0 0x1000
    ≡ ok (record {
      opcode = Opcode.srli;
      operands = form_operands (encoding Opcode.srai) wide_args;
      raw_instruction = assemble Opcode.srai wide_args;
      address = 0x1000;
    })
decode-srai_wide_example = decode-srai_wide wide_args 0x1000 wide_args-InRange (omega arith)

-- `addi x5, x6, 7`
abbrev add_inst : Instruction
add_inst = record {
  opcode = Opcode.addi;
  operands = register 5 ∷ register 6 ∷ immediate 7 ∷ [];
  raw_instruction = 0x00730293;
  address = 0x1000;
}

decode-addi : decode (0x93 ∷ 0x02 ∷ 0x73 ∷ 0x00 ∷ []) 0 0x1000 ≡ ok add_inst
unfolding decode read_instruction_from_memory extract_fields determine_opcode extract_operands
    extract_i_type_immediate sign_extend
decode-addi = refl

decode-WellShaped_example : WellShaped add_inst × (add_inst.address ≡ 0x1000)
decode-WellShaped_example = decode-WellShaped (0x93 ∷ 0x02 ∷ 0x73 ∷ 0x00 ∷ []) 0 0x1000 decode-addi
