-- ===== src/Riscv/Printing/Tests.antt =====
-- The text of `bne x5, x0, -12`.
use dinorisc.Prelude.{◌≡◌, refl, arith, ◌-◌, ◌^◌, [], ◌∷◌}
use dinorisc.Prelude.Text.{codes, hexadecimal, signed_decimal, pad}
use dinorisc.Riscv.Syntax.{Instruction, Opcode, register, immediate, is_valid, opcode_is_valid}
use dinorisc.Riscv.Printing.{to_string}
use dinorisc.Riscv.Printing.Unambiguous.{to_string-injective}

abbrev branch_back : Instruction
branch_back = record {
  opcode = Opcode.bne;
  operands = register 5 ∷ register 0 ∷ immediate (2 ^ 64 - 12) ∷ [];
  raw_instruction = 0x0E029AE3;
  address = 0x100C;
}

to_string_test : to_string branch_back ≡ codes "RV64I[0x0e029ae3 @ 0x100c] BNE x5, x0, -12"
unfolding to_string is_valid opcode_is_valid hexadecimal signed_decimal pad
to_string_test = refl

-- The same instruction, with its numbers in decimal.
abbrev branch_in_decimal : Instruction
branch_in_decimal = record {
  opcode = Opcode.bne;
  operands = register 5 ∷ register 0 ∷ immediate 18446744073709551604 ∷ [];
  raw_instruction = 235051747;
  address = 4108;
}

to_string-injective_example : branch_back ≡ branch_in_decimal
unfolding is_valid opcode_is_valid
to_string-injective_example =
    to_string-injective branch_back branch_in_decimal refl refl
      (omega arith, (omega arith, (omega arith, tt)))
      (omega arith, (omega arith, (omega arith, tt))) refl
