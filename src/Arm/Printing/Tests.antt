-- ===== src/Arm/Printing/Tests.antt =====
-- Texts of instructions of the target.
use dinorisc.Prelude.{◌≡◌, refl, ◌+◌, ◌-◌, ◌^◌}
use dinorisc.Prelude.Text.{codes, decimal, signed_decimal}
use dinorisc.Arm.Syntax.{Register, Opcode, double, Operand, register, virtual, Instruction, memory}
use dinorisc.Arm.Printing.{to_string}
use dinorisc.Arm.Printing.Unambiguous.{operand_to_string-injective}

abbrev load_below : Instruction
load_below = memory (record {
  opcode = Opcode.ldr;
  size = double;
  reg = virtual 5;
  base_reg = register Register.x0;
  offset = 2 ^ 32 - 8;
})

to_string_test : to_string load_below ≡ codes "ldr v5, [x0, #-8]"
unfolding to_string decimal signed_decimal
to_string_test = refl

operand_to_string-injective_example : ◌≡◌ {A = Operand} (virtual 12) (virtual (6 + 6))
operand_to_string-injective_example =
    operand_to_string-injective (virtual 12) (virtual (6 + 6)) refl
