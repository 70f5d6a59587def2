-- ===== src/Riscv/Fields.antt =====
-- lib/RISCV/Decoder.cpp: the bytes, the bit fields and the immediates of an instruction word.
use dinorisc.Prelude.{
  ℕ, ◌+◌, ◌-◌, ◌^◌, some, none, List, get_elem?, ◌==◌, if◌then◌else◌, bit_and, bit_or, Result, ok,
  err, ◌>>=◌, bad_access,
}
use dinorisc.Prelude.Words.{shl32, shr}

-- `data[i]`; reading past the end of the section is undefined behaviour.
abbrev pub byte_at : List ℕ → ℕ → Result ℕ
byte_at bytes i = elim (get_elem? bytes i) [ some b ↦ ok b | none ↦ err bad_access ]

abbrev pub opcode_mask : ℕ
opcode_mask = 0x7F

abbrev pub register_mask : ℕ
register_mask = 0x1F

abbrev pub funct3_mask : ℕ
funct3_mask = 0x7

abbrev pub funct7_mask : ℕ
funct7_mask = 0x7F

abbrev pub imm_12_mask : ℕ
imm_12_mask = 0xFFF

-- The little-endian word at `offset`.
unfoldable pub read_instruction_from_memory : List ℕ → ℕ → Result ℕ
read_instruction_from_memory bytes offset = do
  b0 ← byte_at bytes offset
  b1 ← byte_at bytes (offset + 1)
  b2 ← byte_at bytes (offset + 2)
  b3 ← byte_at bytes (offset + 3)
  ok (bit_or (bit_or (bit_or b0 (shl32 b1 8)) (shl32 b2 16)) (shl32 b3 24))

pub record DecodedFields : Type 0 where
  pub opcode : ℕ
  pub rd : ℕ
  pub rs1 : ℕ
  pub rs2 : ℕ
  pub funct3 : ℕ
  pub funct7 : ℕ

unfoldable pub extract_fields : ℕ → DecodedFields
extract_fields raw = record {
  opcode = bit_and raw opcode_mask;
  rd = bit_and (shr raw 7) register_mask;
  rs1 = bit_and (shr raw 15) register_mask;
  rs2 = bit_and (shr raw 20) register_mask;
  funct3 = bit_and (shr raw 12) funct3_mask;
  funct7 = bit_and (shr raw 25) funct7_mask;
}

-- An int32_t, as a 32-bit pattern.
unfoldable pub sign_extend : ℕ → ℕ → ℕ
sign_extend value bits =
    let sign_bit = shl32 1 (bits - 1) in
    if bit_and value sign_bit == 0 then value else bit_or value (shl32 (2 ^ 32 - 1) bits)

unfoldable pub extract_i_type_immediate : ℕ → ℕ
extract_i_type_immediate raw = sign_extend (bit_and (shr raw 20) imm_12_mask) 12

unfoldable pub extract_s_type_immediate : ℕ → ℕ
extract_s_type_immediate raw =
    sign_extend (bit_or (shl32 (bit_and (shr raw 25) 0x7F) 5) (bit_and (shr raw 7) 0x1F)) 12

unfoldable pub extract_b_type_immediate : ℕ → ℕ
extract_b_type_immediate raw =
    let imm12 = bit_or 0 (shl32 (bit_and (shr raw 31) 0x1) 12) in
    let imm11 = bit_or imm12 (shl32 (bit_and (shr raw 7) 0x1) 11) in
    let imm10_5 = bit_or imm11 (shl32 (bit_and (shr raw 25) 0x3F) 5) in
    let imm4_1 = bit_or imm10_5 (shl32 (bit_and (shr raw 8) 0xF) 1) in sign_extend imm4_1 13

unfoldable pub extract_u_type_immediate : ℕ → ℕ
extract_u_type_immediate raw = bit_and raw 0xFFFFF000

unfoldable pub extract_j_type_immediate : ℕ → ℕ
extract_j_type_immediate raw =
    let imm20 = bit_or 0 (shl32 (bit_and (shr raw 31) 0x1) 20) in
    let imm19_12 = bit_or imm20 (shl32 (bit_and (shr raw 12) 0xFF) 12) in
    let imm11 = bit_or imm19_12 (shl32 (bit_and (shr raw 20) 0x1) 11) in
    let imm10_1 = bit_or imm11 (shl32 (bit_and (shr raw 21) 0x3FF) 1) in sign_extend imm10_1 21
