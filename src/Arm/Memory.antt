-- ===== src/Arm/Memory.antt =====
-- lib/ARM64/Encoder.cpp: `encodeMemoryInst`.
use dinorisc.Prelude.{
  ℕ, ◌+◌, ◌%◌, ◌^◌, Bool, ◌&&◌, ltb, leb, ◌==◌, if◌then◌else◌, bit_and, bit_or, Result, ok, err,
  ◌>>=◌, encoding_error,
}
use dinorisc.Prelude.Words.{shl32, shr}
use dinorisc.Arm.Syntax.{Opcode, DataSize, byte, half, word, double, MemoryInst}
use dinorisc.Arm.Operands.{encode_register}

unfoldable pub size_field : DataSize → ℕ
size_field byte = 0b00
size_field half = 0b01
size_field word = 0b10
size_field double = 0b11

-- `offset >= -256 && offset <= 255`, for the pattern of an int32_t.
abbrev pub fits_imm9 : ℕ → Bool
fits_imm9 offset = ltb ((offset + 256) % 2 ^ 32) 512

-- The unsigned-offset form, the unscaled form, or an error. `offset >> size` is only formed where
-- the offset is not negative.
unfoldable pub memory_form : ℕ → ℕ → ℕ → ℕ → ℕ → ℕ → ℕ → Result ℕ
memory_form scaled_op unscaled_op low size offset rn rt =
    if ltb offset (2 ^ 31) && offset % 2 ^ size == 0
    then (let scaled_offset = shr offset size in
        if leb scaled_offset 0xFFF
        then ok (
            bit_or
              (bit_or
                (bit_or (bit_or (shl32 size 30) (shl32 scaled_op 22)) (shl32 scaled_offset 10))
                (shl32 rn 5))
              rt)
        else err encoding_error)
    else if fits_imm9 offset
    then ok (
        bit_or
          (bit_or
            (bit_or
              (bit_or (bit_or (shl32 size 30) (shl32 unscaled_op 22))
                (shl32 (bit_and offset 0x1FF) 12))
              (shl32 low 10))
            (shl32 rn 5))
          rt)
    else err encoding_error

unfoldable pub memory_opcode : Opcode → ℕ → ℕ → ℕ → ℕ → Result ℕ
unfolding memory_form
memory_opcode Opcode.ldr = memory_form 0b11100101 0b11100000 0b11
memory_opcode Opcode.str = memory_form 0b11100100 0b11100000 0b01
memory_opcode _ = λ size offset rn rt. err encoding_error

unfoldable pub encode_memory_inst : MemoryInst → Result ℕ
unfolding memory_opcode encode_register size_field
encode_memory_inst inst = do
  rt ← encode_register inst.reg
  rn ← encode_register inst.base_reg
  memory_opcode inst.opcode (size_field inst.size) inst.offset rn rt
