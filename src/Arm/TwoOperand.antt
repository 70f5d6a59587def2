-- ===== src/Arm/TwoOperand.antt =====
-- lib/ARM64/Encoder.cpp: `encodeTwoOperandInst`.
use dinorisc.Prelude.{
  ℕ, ltb, if◌then◌else◌, bit_and, bit_or, Result, ok, err, ◌>>=◌, encoding_error,
}
use dinorisc.Prelude.Words.{shl32}
use dinorisc.Arm.Syntax.{Opcode, Operand, immediate, TwoOperandInst}
use dinorisc.Arm.Operands.{encode_register, get_sf_bit}
use dinorisc.Arm.ThreeOperand.{arith_immediate, shifted_register, bitfield}

-- `op` at bit 23 over `hw` 0, a 16-bit immediate and `rd`: MOVZ and MOVN.
unfoldable pub wide_immediate : ℕ → ℕ → ℕ → ℕ → Result ℕ
wide_immediate op sf imm rd =
    if ltb 0xFFFF imm
    then err encoding_error
    else ok (
        bit_or
          (bit_or (bit_or (bit_or (shl32 sf 31) (shl32 op 23)) (shl32 0 21))
            (shl32 (bit_and imm 0xFFFF) 5))
          rd)

move : ℕ → Operand → ℕ → Result ℕ
move sf (immediate value) rd = wide_immediate 0b10100101 sf value rd
move sf src rd = do rm ← encode_register src; ok (shifted_register 0b010101 25 23 sf rm 31 rd)

move_not : ℕ → Operand → ℕ → Result ℕ
move_not sf (immediate value) rd = wide_immediate 0b00100101 sf value rd
move_not sf src rd = err encoding_error

-- SXTB, SXTH and SXTW: SBFM of the bits up to `imms`.
sign_extension : ℕ → ℕ → Operand → ℕ → Result ℕ
sign_extension sf imms src rd = do
  rn ← encode_register src
  ok (bitfield 0b00100110 sf sf 0 imms rn rd)

return_to : Operand → Result ℕ
return_to src = do rn ← encode_register src; ok (bit_or 0xD65F0000 (shl32 rn 5))

-- CMP reads its `dest` as the first operand.
compare : ℕ → Operand → ℕ → Result ℕ
compare sf (immediate value) rn = arith_immediate 0b11100010 sf value rn 31
compare sf src rn = do rm ← encode_register src; ok (shifted_register 0b1101011 24 22 sf rm rn 31)

unfoldable pub two_operand_opcode : Opcode → ℕ → Operand → ℕ → Result ℕ
unfolding move move_not sign_extension return_to compare wide_immediate
two_operand_opcode Opcode.mov sf src rd = move sf src rd
two_operand_opcode Opcode.sxtb sf src rd = sign_extension sf 7 src rd
two_operand_opcode Opcode.sxth sf src rd = sign_extension sf 15 src rd
two_operand_opcode Opcode.sxtw sf src rd = sign_extension 1 31 src rd
two_operand_opcode Opcode.ret sf src rd = return_to src
two_operand_opcode Opcode.movn sf src rd = move_not sf src rd
two_operand_opcode Opcode.cmp sf src rd = compare sf src rd
two_operand_opcode _ sf src rd = err encoding_error

unfoldable pub encode_two_operand_inst : TwoOperandInst → Result ℕ
unfolding two_operand_opcode encode_register get_sf_bit arith_immediate shifted_register bitfield
encode_two_operand_inst inst = do
  let sf = get_sf_bit inst.size
  rd ← encode_register inst.dest
  two_operand_opcode inst.opcode sf inst.src rd
