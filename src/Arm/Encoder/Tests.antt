-- ===== src/Arm/Encoder/Tests.antt =====
-- The encoder on an addition, the shifts, and an operand that is still virtual.
use dinorisc.Prelude.{
  ℕ, ◌≡◌, ◌-◌, ◌*◌, arith, true, ◌/◌, ◌%◌, ◌^◌, inr, refl, ok, err, encoding_error,
}
use dinorisc.Arm.Syntax.{
  Opcode, double, x1, x2, x3, Instruction, three_operand, register, virtual, register_number,
}
use dinorisc.Arm.Operands.{encode_register, get_sf_bit, is_immediate}
use dinorisc.Arm.ThreeOperand.{encode_three_operand_inst, three_operand_opcode}
use dinorisc.Arm.Encoder.{encode_word, encode_instruction, encode_branch_inst}
use dinorisc.Arm.Encoder.Fields.{
  HasFields, register_form, encode_word-HasFields, encode_word-shift_bits,
}
use dinorisc.Arm.Encoder.Branches.{
  is_branch, BranchesBy, encode_branch_inst-BranchesBy, encode_branch_inst_sound,
}
use dinorisc.Arm.Memory.{size_field, encode_memory_inst}
use dinorisc.Arm.Encoder.Accesses.{
  IsAccess, is_access, access, encode_memory_inst-IsAccess, bytes_of,
}
use dinorisc.Arm.Encoder.Offsets.{IsIndexed, encode_memory_inst-IsIndexed, encode_memory_inst-far}
use dinorisc.Arm.Encoder.Virtual.{encode_instruction-virtual}

encode_word-add : encode_word (register_form Opcode.add double x1 x2 x3) ≡ ok 0x8B030041
unfolding encode_word encode_three_operand_inst three_operand_opcode encode_register register_number
    get_sf_bit is_immediate
encode_word-add = refl

encode_word-lsl : encode_word (register_form Opcode.lsl double x1 x2 x3) ≡ ok 0x9AC32041
unfolding encode_word encode_three_operand_inst three_operand_opcode encode_register register_number
    get_sf_bit is_immediate
encode_word-lsl = refl

encode_word-lsr : encode_word (register_form Opcode.lsr double x1 x2 x3) ≡ ok 0x9AC31841
unfolding encode_word encode_three_operand_inst three_operand_opcode encode_register register_number
    get_sf_bit is_immediate
encode_word-lsr = refl

encode_word-asr : encode_word (register_form Opcode.asr double x1 x2 x3) ≡ ok 0x9AC32841
unfolding encode_word encode_three_operand_inst three_operand_opcode encode_register register_number
    get_sf_bit is_immediate
encode_word-asr = refl

encode_word-HasFields_example :
    HasFields 0x8B030041
      (register_number x1)
      (register_number x2)
      (register_number x3)
      (get_sf_bit double)
encode_word-HasFields_example =
    encode_word-HasFields Opcode.add double x1 x2 x3 (λ p. cc) encode_word-add

encode_word-shift_bits_example :
    (0x9AC32041 / 2 ^ 10 % 2 ^ 6 ≡ 8)
    × (0x9AC31841 / 2 ^ 10 % 2 ^ 6 ≡ 6)
    × (0x9AC32841 / 2 ^ 10 % 2 ^ 6 ≡ 10)
encode_word-shift_bits_example =
    encode_word-shift_bits double x1 x2 x3 0x9AC32041 0x9AC31841 0x9AC32841 encode_word-lsl
      encode_word-lsr encode_word-asr

abbrev left_virtual : Instruction
left_virtual = three_operand (record {
  opcode = Opcode.add;
  size = double;
  dest = register x1;
  src1 = register x2;
  src2 = virtual 7;
})

encode_instruction-virtual_example : encode_instruction left_virtual ≡ err encoding_error
encode_instruction-virtual_example = encode_instruction-virtual left_virtual (inr (inr tt))

ne_is_branch : is_branch Opcode.b_ne ≡ true
unfolding is_branch
ne_is_branch = refl

-- `b.ne` 12 bytes back
encode_branch_inst-BranchesBy_example :
    (w : ℕ) × (encode_branch_inst (record { opcode = Opcode.b_ne; target = 2 ^ 64 - 12 }) ≡ ok w)
    × BranchesBy Opcode.b_ne (2 ^ 64 - 12) w
encode_branch_inst-BranchesBy_example =
    encode_branch_inst-BranchesBy (2 ^ 64 - 12) Opcode.b_ne ne_is_branch refl (omega arith)
      (omega arith)

ne_back : encode_branch_inst (record { opcode = Opcode.b_ne; target = 2 ^ 64 - 12 }) ≡ ok 0x54FFFFA1
unfolding encode_branch_inst
ne_back = refl

encode_branch_inst_sound_example : BranchesBy Opcode.b_ne (2 ^ 64 - 12) 0x54FFFFA1
encode_branch_inst_sound_example =
    encode_branch_inst_sound (2 ^ 64 - 12) Opcode.b_ne ne_is_branch refl (omega arith) ne_back

ldr_is_access : is_access Opcode.ldr ≡ true
unfolding is_access
ldr_is_access = refl

-- `ldr x1, [x2, #32]`
encode_memory_inst-IsAccess_example :
    (w : ℕ) × (encode_memory_inst (access Opcode.ldr double x1 x2 (4 * bytes_of double)) ≡ ok w)
    × IsAccess w (size_field double) 0b11100101 4 (register_number x2) (register_number x1)
encode_memory_inst-IsAccess_example =
    encode_memory_inst-IsAccess x1 x2 4 (omega arith) Opcode.ldr double ldr_is_access

-- `ldr x1, [x2, #-8]`
encode_memory_inst-IsIndexed_example :
    (w : ℕ) × (encode_memory_inst (access Opcode.ldr double x1 x2 (2 ^ 32 - 8)) ≡ ok w)
    × IsIndexed w (512 - 8) 0b11
encode_memory_inst-IsIndexed_example =
    encode_memory_inst-IsIndexed Opcode.ldr double x1 x2 8 ldr_is_access (omega arith) (omega arith)

double_bytes : bytes_of double ≡ 8
unfolding bytes_of
double_bytes = refl

encode_memory_inst-far_example :
    encode_memory_inst (access Opcode.ldr double x1 x2 32768) ≡ err encoding_error
encode_memory_inst-far_example =
    encode_memory_inst-far Opcode.ldr double x1 x2 32768 ldr_is_access (omega (arith, double_bytes))
      (omega arith)
