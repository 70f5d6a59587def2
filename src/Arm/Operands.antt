-- ===== src/Arm/Operands.antt =====
-- lib/ARM64/Encoder.cpp: the helpers of the encoder.
use dinorisc.Prelude.{ℕ, ◌%◌, ◌^◌, Bool, true, false, Result, ok, err, encoding_error}
use dinorisc.Arm.Syntax.{
  Register, register_number, Opcode, DataSize, double, Operand, register, virtual, immediate,
}

-- `XSP` is 31 in the enumeration too, so the special case of the source gives the same number.
unfoldable pub encode_register : Operand → Result ℕ
unfolding register_number
encode_register (register Register.xsp) = ok 31
encode_register (register reg) = ok (register_number reg)
encode_register (virtual v) = err encoding_error
encode_register (immediate value) = err encoding_error

unfoldable pub is_immediate : Operand → Bool
is_immediate (immediate value) = true
is_immediate _ = false

unfoldable pub get_sf_bit : DataSize → ℕ
get_sf_bit double = 1
get_sf_bit _ = 0

unfoldable pub get_condition_code : Opcode → Result ℕ
get_condition_code Opcode.b_eq = ok 0b0000
get_condition_code Opcode.b_ne = ok 0b0001
get_condition_code Opcode.b_lt = ok 0b1011
get_condition_code Opcode.b_le = ok 0b1101
get_condition_code Opcode.b_gt = ok 0b1100
get_condition_code Opcode.b_ge = ok 0b1010
get_condition_code _ = err encoding_error

-- `uint32_t imm = ….value` keeps the low half of a uint64_t.
abbrev pub to_uint32 : ℕ → ℕ
to_uint32 value = value % 2 ^ 32
