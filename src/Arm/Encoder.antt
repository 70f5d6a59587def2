-- ===== src/Arm/Encoder.antt =====
-- lib/ARM64/Encoder.cpp: the remaining instruction kinds, and `encodeInstruction`.
pub mod Fields
pub mod Virtual
pub mod Branches
pub mod Accesses
pub mod Offsets
mod Tests
use dinorisc.Prelude.{
  ℕ, ◌+◌, ◌*◌, ◌/◌, ◌%◌, ◌^◌, ltb, leb, ◌||◌, if◌then◌else◌, bit_and, bit_or, bit_xor, List, [],
  ◌∷◌, Result, ok, err, ◌>>=◌, encoding_error,
}
use dinorisc.Prelude.Words.{shl32, shr}
use dinorisc.Arm.Syntax.{
  Opcode, MoveWideInst, BranchInst, Condition, condition_number, ConditionalInst,
  ConditionalSelectInst, Instruction, three_operand, two_operand, memory, move_wide, branch,
  conditional, conditional_select,
}
use dinorisc.Arm.Operands.{encode_register, is_immediate, get_sf_bit, get_condition_code}
use dinorisc.Arm.ThreeOperand.{encode_three_operand_inst}
use dinorisc.Arm.TwoOperand.{encode_two_operand_inst}
use dinorisc.Arm.Memory.{encode_memory_inst}

move_wide_word : ℕ → ℕ → ℕ → ℕ → ℕ → ℕ
move_wide_word op sf hw imm16 rd =
    bit_or (bit_or (bit_or (bit_or (shl32 sf 31) (shl32 op 23)) (shl32 hw 21)) (shl32 imm16 5)) rd

move_wide_opcode : Opcode → ℕ → ℕ → ℕ → ℕ → Result ℕ
unfolding move_wide_word
move_wide_opcode Opcode.movz sf hw imm16 rd = ok (move_wide_word 0b10100101 sf hw imm16 rd)
move_wide_opcode Opcode.movk sf hw imm16 rd = ok (move_wide_word 0b11100101 sf hw imm16 rd)
move_wide_opcode _ sf hw imm16 rd = err encoding_error

unfoldable pub encode_move_wide_inst : MoveWideInst → Result ℕ
unfolding move_wide_opcode encode_register get_sf_bit
encode_move_wide_inst inst = do
  let sf = get_sf_bit inst.size
  rd ← encode_register inst.dest
  let hw = inst.shift / 16
  if ltb 3 hw then err encoding_error else move_wide_opcode inst.opcode sf hw inst.imm16 rd

-- `offset < -limit || offset > limit - 1` fails, for the pattern of an int64_t and `limit` at most 2 ^ 62.
abbrev pub out_of_range : ℕ → ℕ → Result ℕ → Result ℕ
out_of_range limit offset inside =
    if leb (2 * limit) ((offset + limit) % 2 ^ 64) then err encoding_error else inside

-- `(offset >> 2) & mask`: the mask is narrower than 62 bits, so it cuts what an arithmetic shift
-- brings in from the left, and a logical shift of the pattern gives the same.
abbrev pub word_offset : ℕ → ℕ → ℕ
word_offset offset mask = bit_and (shr offset 2) mask

conditional_branch : Opcode → ℕ → Result ℕ
unfolding get_condition_code
conditional_branch opcode offset = out_of_range 0x40000 offset (do
  cond ← get_condition_code opcode
  ok (bit_or (bit_or (shl32 0b0101010 25) (shl32 (word_offset offset 0x7FFFF) 5)) cond))

branch_opcode : Opcode → ℕ → Result ℕ
unfolding conditional_branch
branch_opcode Opcode.b offset = ok (bit_or (shl32 0b000101 26) (word_offset offset 0x3FFFFFF))
branch_opcode Opcode.b_eq offset = conditional_branch Opcode.b_eq offset
branch_opcode Opcode.b_ne offset = conditional_branch Opcode.b_ne offset
branch_opcode Opcode.b_lt offset = conditional_branch Opcode.b_lt offset
branch_opcode Opcode.b_le offset = conditional_branch Opcode.b_le offset
branch_opcode Opcode.b_gt offset = conditional_branch Opcode.b_gt offset
branch_opcode Opcode.b_ge offset = conditional_branch Opcode.b_ge offset
branch_opcode _ offset = err encoding_error

unfoldable pub encode_branch_inst : BranchInst → Result ℕ
unfolding branch_opcode
encode_branch_inst inst = out_of_range 0x2000000 inst.target (branch_opcode inst.opcode inst.target)

conditional_opcode : Opcode → ℕ → Condition → ℕ → Result ℕ
unfolding condition_number
conditional_opcode Opcode.cset sf condition rd =
    let cond = bit_xor (condition_number condition) 1 in
    ok (
      bit_or
        (bit_or
          (bit_or
            (bit_or (bit_or (bit_or (shl32 sf 31) (shl32 0b0011010100 21)) (shl32 0b11111 16))
              (shl32 cond 12))
            (shl32 0b01 10))
          (shl32 0b11111 5))
        rd)
conditional_opcode _ sf condition rd = err encoding_error

unfoldable pub encode_conditional_inst : ConditionalInst → Result ℕ
unfolding conditional_opcode encode_register get_sf_bit
encode_conditional_inst inst = do
  let sf = get_sf_bit inst.size
  rd ← encode_register inst.dest
  conditional_opcode inst.opcode sf inst.condition rd

unfoldable pub select_opcode : Opcode → ℕ → ConditionalSelectInst → ℕ → ℕ → Result ℕ
unfolding condition_number is_immediate encode_register
select_opcode Opcode.csel sf inst rn rd =
    if is_immediate inst.src1 || is_immediate inst.src2 then err encoding_error else (do
      rm ← encode_register inst.src2
      let cond = condition_number inst.condition
      ok (
          bit_or
            (bit_or
              (bit_or (bit_or (bit_or (shl32 sf 31) (shl32 0b0011010100 21)) (shl32 rm 16))
                (shl32 cond 12))
              (shl32 rn 5))
            rd))
select_opcode _ sf inst rn rd = err encoding_error

unfoldable pub encode_conditional_select_inst : ConditionalSelectInst → Result ℕ
unfolding select_opcode encode_register get_sf_bit
encode_conditional_select_inst inst = do
  let sf = get_sf_bit inst.size
  rd ← encode_register inst.dest
  rn ← encode_register inst.src1
  select_opcode inst.opcode sf inst rn rd

unfoldable pub encode_word : Instruction → Result ℕ
unfolding encode_three_operand_inst encode_two_operand_inst encode_memory_inst encode_move_wide_inst
    encode_branch_inst encode_conditional_inst encode_conditional_select_inst
encode_word (three_operand inst) = encode_three_operand_inst inst
encode_word (two_operand inst) = encode_two_operand_inst inst
encode_word (memory inst) = encode_memory_inst inst
encode_word (move_wide inst) = encode_move_wide_inst inst
encode_word (branch inst) = encode_branch_inst inst
encode_word (conditional inst) = encode_conditional_inst inst
encode_word (conditional_select inst) = encode_conditional_select_inst inst

-- The word as four bytes, the lowest first.
unfoldable pub bytes_of_word : ℕ → List ℕ
bytes_of_word encoded =
    bit_and encoded 0xFF
    ∷ bit_and (shr encoded 8) 0xFF
    ∷ bit_and (shr encoded 16) 0xFF
    ∷ bit_and (shr encoded 24) 0xFF
    ∷ []

unfoldable pub encode_instruction : Instruction → Result (List ℕ)
unfolding encode_word bytes_of_word
encode_instruction inst = do encoded ← encode_word inst; ok (bytes_of_word encoded)
