-- ===== src/Arm/ThreeOperand.antt =====
-- lib/ARM64/Encoder.cpp: `encodeThreeOperandInst`.
use dinorisc.Prelude.{
  ℕ, ◌-◌, ◌%◌, ltb, leb, ◌==◌, if◌then◌else◌, bit_or, Result, ok, err, ◌>>=◌, encoding_error,
}
use dinorisc.Prelude.Words.{shl32}
use dinorisc.Arm.Syntax.{Opcode, Operand, immediate, ThreeOperandInst}
use dinorisc.Arm.Operands.{encode_register, get_sf_bit, to_uint32}

-- `op` at bit 23 over `sh`, a 12-bit immediate, `rn` and `rd`: ADD, SUB and CMP (immediate).
unfoldable pub arith_immediate : ℕ → ℕ → ℕ → ℕ → ℕ → Result ℕ
arith_immediate op sf value rn rd =
    let imm = to_uint32 value in
    if ltb 0xFFF imm
    then err encoding_error
    else ok (
        bit_or
          (bit_or (bit_or (bit_or (bit_or (shl32 sf 31) (shl32 op 23)) (shl32 0 22)) (shl32 imm 10))
            (shl32 rn 5))
          rd)

-- `op` at bit `at` over `shift`, `rm`, `imm6`, `rn` and `rd`: the shifted-register forms.
unfoldable pub shifted_register : ℕ → ℕ → ℕ → ℕ → ℕ → ℕ → ℕ → ℕ
shifted_register op at shift_at sf rm rn rd =
    bit_or
      (bit_or
        (bit_or
          (bit_or (bit_or (bit_or (shl32 sf 31) (shl32 op at)) (shl32 0 shift_at)) (shl32 rm 16))
          (shl32 0 10))
        (shl32 rn 5))
      rd

-- `op` at bit `at` over `rm`, `low` at bit 10, `rn` and `rd`: MUL and the shifts by a register.
unfoldable pub data_processing : ℕ → ℕ → ℕ → ℕ → ℕ → ℕ → ℕ → ℕ
data_processing op at low sf rm rn rd =
    bit_or
      (bit_or (bit_or (bit_or (bit_or (shl32 sf 31) (shl32 op at)) (shl32 rm 16)) (shl32 low 10))
        (shl32 rn 5))
      rd

-- UBFM and SBFM: `op` at bit 23, N, immr, imms, `rn` and `rd`.
unfoldable pub bitfield : ℕ → ℕ → ℕ → ℕ → ℕ → ℕ → ℕ → ℕ
bitfield op sf n immr imms rn rd =
    bit_or
      (bit_or
        (bit_or (bit_or (bit_or (bit_or (shl32 sf 31) (shl32 op 23)) (shl32 n 22)) (shl32 immr 16))
          (shl32 imms 10))
        (shl32 rn 5))
      rd

abbrev pub datasize : ℕ → ℕ
datasize sf = if sf == 1 then 64 else 32

-- The second source decides between the immediate and the register form.
abbrev logical : ℕ → ℕ → Operand → ℕ → ℕ → Result ℕ
logical op sf (immediate value) rn rd = err encoding_error
logical op sf src2 rn rd = do rm ← encode_register src2; ok (shifted_register op 25 23 sf rm rn rd)

abbrev add_sub : ℕ → ℕ → ℕ → Operand → ℕ → ℕ → Result ℕ
add_sub imm_op reg_op sf (immediate value) rn rd = arith_immediate imm_op sf value rn rd
add_sub imm_op reg_op sf src2 rn rd = do
  rm ← encode_register src2
  ok (shifted_register reg_op 24 22 sf rm rn rd)

abbrev multiply : ℕ → Operand → ℕ → ℕ → Result ℕ
multiply sf (immediate value) rn rd = err encoding_error
multiply sf src2 rn rd = do
  rm ← encode_register src2
  ok (data_processing 0b0011011000 21 31 sf rm rn rd)

shift_left : ℕ → Operand → ℕ → ℕ → Result ℕ
shift_left sf (immediate value) rn rd =
    if leb (datasize sf) value
    then err encoding_error
    else ok (
        bitfield 0b10100110 sf sf ((datasize sf - value) % datasize sf) (datasize sf - 1 - value) rn
          rd)
shift_left sf src2 rn rd = do
  rm ← encode_register src2
  ok (data_processing 0b0011010110 21 0b001000 sf rm rn rd)

-- LSR with 0b10100110 and 0b0110, ASR with 0b00100110 and 0b1010.
shift_right : ℕ → ℕ → ℕ → Operand → ℕ → ℕ → Result ℕ
shift_right imm_op reg_low sf (immediate value) rn rd =
    if leb (datasize sf) value
    then err encoding_error
    else ok (bitfield imm_op sf sf value (datasize sf - 1) rn rd)
shift_right imm_op reg_low sf src2 rn rd = do
  rm ← encode_register src2
  ok (data_processing 0b00110101100 20 reg_low sf rm rn rd)

unfoldable pub three_operand_opcode : Opcode → ℕ → Operand → ℕ → ℕ → Result ℕ
unfolding arith_immediate shifted_register data_processing bitfield shift_left shift_right
three_operand_opcode Opcode.add sf src2 rn rd = add_sub 0b00100010 0b0001011 sf src2 rn rd
three_operand_opcode Opcode.sub sf src2 rn rd = add_sub 0b10100010 0b1001011 sf src2 rn rd
three_operand_opcode Opcode.and sf src2 rn rd = logical 0b000101 sf src2 rn rd
three_operand_opcode Opcode.orr sf src2 rn rd = logical 0b010101 sf src2 rn rd
three_operand_opcode Opcode.eor sf src2 rn rd = logical 0b110101 sf src2 rn rd
three_operand_opcode Opcode.mul sf src2 rn rd = multiply sf src2 rn rd
three_operand_opcode Opcode.cmp sf src2 rn rd = add_sub 0b11100010 0b1101011 sf src2 rn 31
three_operand_opcode Opcode.lsl sf src2 rn rd = shift_left sf src2 rn rd
three_operand_opcode Opcode.lsr sf src2 rn rd = shift_right 0b10100110 0b0110 sf src2 rn rd
three_operand_opcode Opcode.asr sf src2 rn rd = shift_right 0b00100110 0b1010 sf src2 rn rd
three_operand_opcode _ sf src2 rn rd = err encoding_error

unfoldable pub encode_three_operand_inst : ThreeOperandInst → Result ℕ
unfolding three_operand_opcode encode_register get_sf_bit
encode_three_operand_inst inst = do
  let sf = get_sf_bit inst.size
  rd ← encode_register inst.dest
  rn ← encode_register inst.src1
  three_operand_opcode inst.opcode sf inst.src2 rn rd
