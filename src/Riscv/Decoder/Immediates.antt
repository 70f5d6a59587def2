-- ===== src/Riscv/Decoder/Immediates.antt =====
-- The immediates of the RV64I formats: the layout of an instruction word, and how the decoder
-- gathers the scattered bits of an immediate again.
use dinorisc.Prelude.{ℕ, ◌+◌, ◌*◌, ◌/◌, ◌%◌, ◌^◌, ◌<◌, ◌≡◌, arith, bit_or, bit_and}
use dinorisc.Prelude.Bits.{bit_and-mask, bit_or-add, zero-bit_or}
use dinorisc.Prelude.Words.{shl32, shr, widen}
use dinorisc.Riscv.Fields.{
  DecodedFields, extract_fields, extract_i_type_immediate, extract_s_type_immediate,
  extract_b_type_immediate, extract_j_type_immediate,
}
use dinorisc.Riscv.Decoder.Words.{
  extract_fields_lem, sign_extend_12, sign_extend_13, sign_extend_21,
}

-- The word with the given fields.
abbrev pub layout : DecodedFields → ℕ
layout f =
    f.funct7 * 2 ^ 25
    + f.rs2 * 2 ^ 20
    + f.rs1 * 2 ^ 15
    + f.funct3 * 2 ^ 12
    + f.rd * 2 ^ 7
    + f.opcode

-- Each field fits its bits.
pub record Fits (f : DecodedFields) : Type 0 where
  pub opcode : f.opcode < 2 ^ 7
  pub rd : f.rd < 2 ^ 5
  pub funct3 : f.funct3 < 2 ^ 3
  pub rs1 : f.rs1 < 2 ^ 5
  pub rs2 : f.rs2 < 2 ^ 5
  pub funct7 : f.funct7 < 2 ^ 7

pub extract_fields-layout : (f : DecodedFields) → Fits f → extract_fields (layout f) ≡ f
extract_fields-layout f h = rw extract_fields_lem (ground arith)

-- The gathered bits, before the sign extension.
i_bits : (raw : ℕ) → bit_and (shr raw 20) 0xFFF ≡ raw / 2 ^ 20 % 2 ^ 12
i_bits raw = bit_and-mask 12 (raw / 2 ^ 20)

s_bits :
    (raw : ℕ)
    → bit_or (shl32 (bit_and (shr raw 25) 0x7F) 5) (bit_and (shr raw 7) 0x1F)
      ≡ raw / 2 ^ 25 % 2 ^ 7 * 2 ^ 5 + raw / 2 ^ 7 % 2 ^ 5
s_bits raw = ground (
  arith,
  bit_and-mask 7 (raw / 2 ^ 25),
  bit_and-mask 5 (raw / 2 ^ 7),
  bit_or-add 5 (raw / 2 ^ 25 % 2 ^ 7) (raw / 2 ^ 7 % 2 ^ 5),
)

-- The partial words are sums, whose upper part is written as a multiple for the next field.
b_bits :
    (a b c d : ℕ)
    → a < 2
    → b < 2
    → c < 2 ^ 6
    → d < 2 ^ 4
    → bit_or (bit_or (bit_or (bit_or 0 (shl32 a 12)) (shl32 b 11)) (shl32 c 5)) (shl32 d 1)
      ≡ a * 2 ^ 12 + b * 2 ^ 11 + c * 2 ^ 5 + d * 2
b_bits a b c d ha hb hc hd = ground (
  arith,
  zero-bit_or (a * 2 ^ 12),
  bit_or-add 12 a (b * 2 ^ 11),
  bit_or-add 11 (a * 2 + b) (c * 2 ^ 5),
  bit_or-add 5 (a * 2 ^ 7 + b * 2 ^ 6 + c) (d * 2),
)

j_bits :
    (a b c d : ℕ)
    → a < 2
    → b < 2 ^ 8
    → c < 2
    → d < 2 ^ 10
    → bit_or (bit_or (bit_or (bit_or 0 (shl32 a 20)) (shl32 b 12)) (shl32 c 11)) (shl32 d 1)
      ≡ a * 2 ^ 20 + b * 2 ^ 12 + c * 2 ^ 11 + d * 2
j_bits a b c d ha hb hc hd = ground (
  arith,
  zero-bit_or (a * 2 ^ 20),
  bit_or-add 20 a (b * 2 ^ 12),
  bit_or-add 12 (a * 2 ^ 8 + b) (c * 2 ^ 11),
  bit_or-add 11 (a * 2 ^ 9 + b * 2 + c) (d * 2),
)

-- Each format puts the bits of an immediate `imm` into certain fields of the word, and the decoder
-- gets back `imm`, sign extended.
module _ (f : DecodedFields) (imm : ℕ) (fits : Fits f) where
  pub extract_i-layout :
      f.funct7 ≡ imm / 2 ^ 5
      → f.rs2 ≡ imm % 2 ^ 5
      → extract_i_type_immediate (layout f) ≡ widen 12 32 imm
  unfolding extract_i_type_immediate
  extract_i-layout e1 e2 = sign_extend_12 _ imm (omega (arith, i_bits (layout f))) (omega arith)

  pub extract_s-layout :
      f.funct7 ≡ imm / 2 ^ 5
      → f.rd ≡ imm % 2 ^ 5
      → extract_s_type_immediate (layout f) ≡ widen 12 32 imm
  unfolding extract_s_type_immediate
  extract_s-layout e1 e2 = sign_extend_12 _ imm (omega (arith, s_bits (layout f))) (omega arith)

  pub extract_b-layout :
      imm % 2 ≡ 0
      → f.funct7 ≡ imm / 2 ^ 12 * 2 ^ 6 + imm / 2 ^ 5 % 2 ^ 6
      → f.rd ≡ imm / 2 % 2 ^ 4 * 2 + imm / 2 ^ 11 % 2
      → extract_b_type_immediate (layout f) ≡ widen 13 32 imm
  unfolding extract_b_type_immediate
  extract_b-layout e0 e1 e2 =
      sign_extend_13 _ imm
        (ground (
          arith,
          bit_and-mask 1 (layout f / 2 ^ 31),
          bit_and-mask 1 (layout f / 2 ^ 7),
          bit_and-mask 6 (layout f / 2 ^ 25),
          bit_and-mask 4 (layout f / 2 ^ 8),
          b_bits (layout f / 2 ^ 31 % 2) (layout f / 2 ^ 7 % 2) (layout f / 2 ^ 25 % 2 ^ 6)
              (layout f / 2 ^ 8 % 2 ^ 4),
        ))
        (omega arith)

  pub extract_j-layout :
      imm % 2 ≡ 0
      → f.funct7 ≡ imm / 2 ^ 20 * 2 ^ 6 + imm / 2 ^ 5 % 2 ^ 6
      → f.rs2 ≡ imm / 2 % 2 ^ 4 * 2 + imm / 2 ^ 11 % 2
      → f.rs1 ≡ imm / 2 ^ 15 % 2 ^ 5
      → f.funct3 ≡ imm / 2 ^ 12 % 2 ^ 3
      → extract_j_type_immediate (layout f) ≡ widen 21 32 imm
  unfolding extract_j_type_immediate
  extract_j-layout e0 e1 e2 e3 e4 =
      sign_extend_21 _ imm
        (ground (
          arith,
          bit_and-mask 1 (layout f / 2 ^ 31),
          bit_and-mask 8 (layout f / 2 ^ 12),
          bit_and-mask 1 (layout f / 2 ^ 20),
          bit_and-mask 10 (layout f / 2 ^ 21),
          j_bits (layout f / 2 ^ 31 % 2) (layout f / 2 ^ 12 % 2 ^ 8) (layout f / 2 ^ 20 % 2)
              (layout f / 2 ^ 21 % 2 ^ 10),
        ))
        (omega arith)
