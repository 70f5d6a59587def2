-- ===== src/Riscv/Decoder/Assembler.antt =====
-- An assembler for RV64I, written from the instruction set's tables and independent of the decoder:
-- what the decoder is checked against.
use dinorisc.Prelude.{ℕ, ◌+◌, ◌*◌, ◌/◌, ◌%◌, ◌^◌, ◌≤◌, ◌<◌, ◌≡◌, List, [], ◌∷◌, arith}
use dinorisc.Prelude.Words.{widen}
use dinorisc.Riscv.Syntax.{Opcode, Operand, register, immediate}
use dinorisc.Riscv.Fields.{DecodedFields}
use dinorisc.Riscv.Decoder.Immediates.{layout, Fits}

-- The formats with the constant bits that each instruction has: funct7, funct3 and the major opcode.
-- A shift by a constant has its funct6 (or funct7, for the 32-bit shifts) over the shift amount: the
-- first number counts in units of the amount's bound, the second number.
pub data Encoding : Type 0 where
  r_form : ℕ → ℕ → ℕ → Encoding
  i_form : ℕ → ℕ → Encoding
  shift_form : ℕ → ℕ → ℕ → ℕ → Encoding
  s_form : ℕ → ℕ → Encoding
  b_form : ℕ → ℕ → Encoding
  u_form : ℕ → Encoding
  j_form : ℕ → Encoding
  system_form : ℕ → Encoding

abbrev pub encoding : Opcode → Encoding
encoding Opcode.add = r_form 0x00 0 0x33
encoding Opcode.sub = r_form 0x20 0 0x33
encoding Opcode.sll = r_form 0x00 1 0x33
encoding Opcode.slt = r_form 0x00 2 0x33
encoding Opcode.sltu = r_form 0x00 3 0x33
encoding Opcode.xor = r_form 0x00 4 0x33
encoding Opcode.srl = r_form 0x00 5 0x33
encoding Opcode.sra = r_form 0x20 5 0x33
encoding Opcode.or = r_form 0x00 6 0x33
encoding Opcode.and = r_form 0x00 7 0x33
encoding Opcode.addw = r_form 0x00 0 0x3B
encoding Opcode.subw = r_form 0x20 0 0x3B
encoding Opcode.sllw = r_form 0x00 1 0x3B
encoding Opcode.srlw = r_form 0x00 5 0x3B
encoding Opcode.sraw = r_form 0x20 5 0x3B
encoding Opcode.addi = i_form 0 0x13
encoding Opcode.slti = i_form 2 0x13
encoding Opcode.sltiu = i_form 3 0x13
encoding Opcode.xori = i_form 4 0x13
encoding Opcode.ori = i_form 6 0x13
encoding Opcode.andi = i_form 7 0x13
encoding Opcode.slli = shift_form 0x00 64 1 0x13
encoding Opcode.srli = shift_form 0x00 64 5 0x13
encoding Opcode.srai = shift_form 0x10 64 5 0x13
encoding Opcode.addiw = i_form 0 0x1B
encoding Opcode.slliw = shift_form 0x00 32 1 0x1B
encoding Opcode.srliw = shift_form 0x00 32 5 0x1B
encoding Opcode.sraiw = shift_form 0x20 32 5 0x1B
encoding Opcode.lb = i_form 0 0x03
encoding Opcode.lh = i_form 1 0x03
encoding Opcode.lw = i_form 2 0x03
encoding Opcode.ld = i_form 3 0x03
encoding Opcode.lbu = i_form 4 0x03
encoding Opcode.lhu = i_form 5 0x03
encoding Opcode.lwu = i_form 6 0x03
encoding Opcode.sb = s_form 0 0x23
encoding Opcode.sh = s_form 1 0x23
encoding Opcode.sw = s_form 2 0x23
encoding Opcode.sd = s_form 3 0x23
encoding Opcode.beq = b_form 0 0x63
encoding Opcode.bne = b_form 1 0x63
encoding Opcode.blt = b_form 4 0x63
encoding Opcode.bge = b_form 5 0x63
encoding Opcode.bltu = b_form 6 0x63
encoding Opcode.bgeu = b_form 7 0x63
encoding Opcode.jal = j_form 0x6F
encoding Opcode.jalr = i_form 0 0x67
encoding Opcode.lui = u_form 0x37
encoding Opcode.auipc = u_form 0x17
encoding Opcode.ecall = system_form 0
encoding Opcode.ebreak = system_form 1
-- No instruction: a word that is not in the instruction set.
encoding Opcode.invalid = system_form 2

-- The operands of an instruction; `imm` is the pattern of the immediate at the width of its format,
-- for U the upper 20 bits, for a shift its amount.
pub record Arguments : Type 0 where
  pub rd : ℕ
  pub rs1 : ℕ
  pub rs2 : ℕ
  pub imm : ℕ

-- The immediate that stands in the instruction word.
abbrev pub ImmInRange : Encoding → ℕ → Type 0
ImmInRange (r_form _ _ _) imm = Unit
ImmInRange (i_form _ _) imm = imm < 2 ^ 12
ImmInRange (shift_form _ bound _ _) imm = imm < bound
ImmInRange (s_form _ _) imm = imm < 2 ^ 12
ImmInRange (b_form _ _) imm = (imm < 2 ^ 13) × (imm % 2 ≡ 0)
ImmInRange (u_form _) imm = imm < 2 ^ 20
ImmInRange (j_form _) imm = (imm < 2 ^ 21) × (imm % 2 ≡ 0)
ImmInRange (system_form _) imm = Unit

pub record InRange (e : Encoding) (a : Arguments) : Type 0 where
  pub rd : a.rd < 32
  pub rs1 : a.rs1 < 32
  pub rs2 : a.rs2 < 32
  pub imm : ImmInRange e a.imm

abbrev pub form_fields : Encoding → Arguments → DecodedFields
form_fields (r_form f7 f3 major) a = record {
  opcode = major;
  rd = a.rd;
  rs1 = a.rs1;
  rs2 = a.rs2;
  funct3 = f3;
  funct7 = f7;
}
form_fields (i_form f3 major) a = record {
  opcode = major;
  rd = a.rd;
  rs1 = a.rs1;
  rs2 = a.imm % 2 ^ 5;
  funct3 = f3;
  funct7 = a.imm / 2 ^ 5;
}
form_fields (shift_form top bound f3 major) a = record {
  opcode = major;
  rd = a.rd;
  rs1 = a.rs1;
  rs2 = a.imm % 2 ^ 5;
  funct3 = f3;
  funct7 = (top * bound + a.imm) / 2 ^ 5;
}
form_fields (s_form f3 major) a = record {
  opcode = major;
  rd = a.imm % 2 ^ 5;
  rs1 = a.rs1;
  rs2 = a.rs2;
  funct3 = f3;
  funct7 = a.imm / 2 ^ 5;
}
form_fields (b_form f3 major) a = record {
  opcode = major;
  rd = a.imm / 2 % 2 ^ 4 * 2 + a.imm / 2 ^ 11 % 2;
  rs1 = a.rs1;
  rs2 = a.rs2;
  funct3 = f3;
  funct7 = a.imm / 2 ^ 12 * 2 ^ 6 + a.imm / 2 ^ 5 % 2 ^ 6;
}
form_fields (u_form major) a = record {
  opcode = major;
  rd = a.rd;
  rs1 = a.imm / 2 ^ 3 % 2 ^ 5;
  rs2 = a.imm / 2 ^ 8 % 2 ^ 5;
  funct3 = a.imm % 2 ^ 3;
  funct7 = a.imm / 2 ^ 13;
}
form_fields (j_form major) a = record {
  opcode = major;
  rd = a.rd;
  rs1 = a.imm / 2 ^ 15 % 2 ^ 5;
  rs2 = a.imm / 2 % 2 ^ 4 * 2 + a.imm / 2 ^ 11 % 2;
  funct3 = a.imm / 2 ^ 12 % 2 ^ 3;
  funct7 = a.imm / 2 ^ 20 * 2 ^ 6 + a.imm / 2 ^ 5 % 2 ^ 6;
}
form_fields (system_form code) a = record {
  opcode = 0x73;
  rd = 0;
  rs1 = 0;
  rs2 = code;
  funct3 = 0;
  funct7 = 0;
}

-- The operands that the decoded instruction should have; an immediate is widened to an int64_t.
abbrev pub form_operands : Encoding → Arguments → List Operand
form_operands (r_form _ _ _) a = register a.rd ∷ register a.rs1 ∷ register a.rs2 ∷ []
form_operands (i_form _ _) a = register a.rd ∷ register a.rs1 ∷ immediate (widen 12 64 a.imm) ∷ []
form_operands (shift_form top bound _ _) a =
    register a.rd ∷ register a.rs1 ∷ immediate (top * bound + a.imm) ∷ []
form_operands (s_form _ _) a = register a.rs1 ∷ register a.rs2 ∷ immediate (widen 12 64 a.imm) ∷ []
form_operands (b_form _ _) a = register a.rs1 ∷ register a.rs2 ∷ immediate (widen 13 64 a.imm) ∷ []
form_operands (u_form _) a = register a.rd ∷ immediate (widen 32 64 (a.imm * 2 ^ 12)) ∷ []
form_operands (j_form _) a = register a.rd ∷ immediate (widen 21 64 a.imm) ∷ []
form_operands (system_form _) a = []

abbrev pub assemble : Opcode → Arguments → ℕ
assemble op a = layout (form_fields (encoding op) a)

-- The constant bits fit their fields.
abbrev pub FormFits : Encoding → Type 0
FormFits (r_form f7 f3 major) = (f7 < 2 ^ 7) × (f3 < 2 ^ 3) × (major < 2 ^ 7)
FormFits (i_form f3 major) = (f3 < 2 ^ 3) × (major < 2 ^ 7)
FormFits (shift_form top bound f3 major) =
    (top * bound + bound ≤ 2 ^ 11) × (top * bound % 2 ^ 5 ≡ 0) × (f3 < 2 ^ 3) × (major < 2 ^ 7)
FormFits (s_form f3 major) = (f3 < 2 ^ 3) × (major < 2 ^ 7)
FormFits (b_form f3 major) = (f3 < 2 ^ 3) × (major < 2 ^ 7)
FormFits (u_form major) = major < 2 ^ 7
FormFits (j_form major) = major < 2 ^ 7
FormFits (system_form code) = code < 2 ^ 5

pub encoding-FormFits : (op : Opcode) → FormFits (encoding op)
encoding-FormFits Opcode.add = omega arith
encoding-FormFits _ = omega arith

pub form_fields-Fits :
    (e : Encoding) (a : Arguments) → FormFits e → InRange e a → Fits (form_fields e a)
form_fields-Fits (r_form f7 f3 major) a c h = omega arith
form_fields-Fits _ a c h = omega arith
