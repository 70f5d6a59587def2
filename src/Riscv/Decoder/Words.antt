-- ===== src/Riscv/Decoder/Words.antt =====
-- What the bytes and the bit fields of an instruction word are, in plain arithmetic.
use dinorisc.Prelude.{ℕ, ◌-◌, ◌/◌, ◌%◌, ◌^◌, ◌<◌, ◌≡◌, arith, List, [], ◌∷◌, ok}
use dinorisc.Prelude.Bits.{bit_and-mask, bit_and-bit, add-bit_or}
use dinorisc.Prelude.Words.{widen}
use dinorisc.Riscv.Fields.{read_instruction_from_memory, extract_fields, sign_extend}

-- The four bytes of a word, the lowest first.
abbrev pub word_bytes : ℕ → List ℕ
word_bytes w = w % 256 ∷ w / 2 ^ 8 % 256 ∷ w / 2 ^ 16 % 256 ∷ w / 2 ^ 24 ∷ []

pub read-word_bytes : (w : ℕ) → w < 2 ^ 32 → read_instruction_from_memory (word_bytes w) 0 ≡ ok w
unfolding read_instruction_from_memory
read-word_bytes w h = ground (
  arith,
  add-bit_or 8 (w / 2 ^ 8 % 256) (w % 256),
  add-bit_or 16 (w / 2 ^ 16 % 256) (w % 2 ^ 16),
  add-bit_or 24 (w / 2 ^ 24) (w % 2 ^ 24),
)

pub extract_fields_lem :
    (raw : ℕ)
    → extract_fields raw ≡ record {
      opcode = raw % 2 ^ 7;
      rd = raw / 2 ^ 7 % 2 ^ 5;
      rs1 = raw / 2 ^ 15 % 2 ^ 5;
      rs2 = raw / 2 ^ 20 % 2 ^ 5;
      funct3 = raw / 2 ^ 12 % 2 ^ 3;
      funct7 = raw / 2 ^ 25 % 2 ^ 7;
    }
unfolding extract_fields
extract_fields_lem raw = ground (
  arith,
  bit_and-mask 7 raw,
  bit_and-mask 5 (raw / 2 ^ 7),
  bit_and-mask 5 (raw / 2 ^ 15),
  bit_and-mask 5 (raw / 2 ^ 20),
  bit_and-mask 3 (raw / 2 ^ 12),
  bit_and-mask 7 (raw / 2 ^ 25),
)

-- `signExtend` is two's complement widening, at the three widths that the formats use.
pub sign_extend_12 : (v imm : ℕ) → v ≡ imm → imm < 2 ^ 12 → sign_extend v 12 ≡ widen 12 32 imm
unfolding sign_extend
sign_extend_12 v imm e h =
    ground (arith, bit_and-bit 11 (v / 2 ^ 11) (v % 2 ^ 11), add-bit_or 12 (2 ^ 20 - 1) v)

pub sign_extend_13 : (v imm : ℕ) → v ≡ imm → imm < 2 ^ 13 → sign_extend v 13 ≡ widen 13 32 imm
unfolding sign_extend
sign_extend_13 v imm e h =
    ground (arith, bit_and-bit 12 (v / 2 ^ 12) (v % 2 ^ 12), add-bit_or 13 (2 ^ 19 - 1) v)

pub sign_extend_21 : (v imm : ℕ) → v ≡ imm → imm < 2 ^ 21 → sign_extend v 21 ≡ widen 21 32 imm
unfolding sign_extend
sign_extend_21 v imm e h =
    ground (arith, bit_and-bit 20 (v / 2 ^ 20) (v % 2 ^ 20), add-bit_or 21 (2 ^ 11 - 1) v)
