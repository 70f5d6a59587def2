-- ===== src/Lowering/Allocator/Tests.antt =====
-- The scan on two intervals that overlap and one that starts behind them.
use dinorisc.Prelude.{ℕ, ◌≡◌, refl, arith, some, true, ok, List, [], ◌∷◌, insert}
use dinorisc.Arm.Syntax.{
  register_number, x1, x2, Opcode, double, Operand, register, virtual, Instruction, three_operand,
}
use dinorisc.Lowering.Liveness.{LiveInterval}
use dinorisc.Lowering.Allocator.{
  Allocator, initial, scan, same_register, allocate_registers, replace_virtual_registers,
  replace_operand_register, get_physical_register_or_throw,
}
use dinorisc.Lowering.Allocator.Physical.{AllocationResult, allocate_registers-result}
use dinorisc.Lowering.Allocator.Scan.{NoClashes, scan-NoClashes}

abbrev interval_of : ℕ → ℕ → ℕ → LiveInterval
interval_of vreg start end = record { virtual_register = vreg; start = start; end = end }

abbrev three_intervals : List LiveInterval
three_intervals = interval_of 1 0 2 ∷ interval_of 2 1 3 ∷ interval_of 3 3 4 ∷ []

abbrev scanned : Allocator
scanned = record {
  allocation = (1, x1) ∷ (2, x2) ∷ (3, x1) ∷ [];
  active_intervals =
      record { interval = interval_of 2 1 3; physical_reg = x2 }
      ∷ record { interval = interval_of 3 3 4; physical_reg = x1 }
      ∷ [];
}

scan_three : scan three_intervals initial ≡ some scanned
unfolding scan same_register register_number insert
scan_three = refl

scan-NoClashes_example : NoClashes scanned.allocation three_intervals
scan-NoClashes_example =
    scan-NoClashes three_intervals initial
      ((omega arith, (omega arith, tt)), ((omega arith, tt), (tt, tt)))
      (
        ((λ p. omega (arith, p)), ((λ p. omega (arith, p)), tt)),
        (((λ p. omega (arith, p)), tt), (tt, tt)),
      )
      scan_three

-- `add v3, v1, v2`
abbrev add_of : Operand → Operand → Operand → Instruction
add_of dest src1 src2 =
    three_operand
      (record { opcode = Opcode.add; size = double; dest = dest; src1 = src1; src2 = src2 })

allocate_three :
    allocate_registers (add_of (virtual 3) (virtual 1) (virtual 2) ∷ []) three_intervals
    ≡ ok (true, add_of (register x1) (register x1) (register x2) ∷ [])
unfolding allocate_registers replace_virtual_registers replace_operand_register
    get_physical_register_or_throw
allocate_three = refl

allocate_registers-result_example :
    AllocationResult
      (add_of (virtual 3) (virtual 1) (virtual 2) ∷ [])
      true
      (add_of (register x1) (register x1) (register x2) ∷ [])
allocate_registers-result_example =
    allocate_registers-result (add_of (virtual 3) (virtual 1) (virtual 2) ∷ []) three_intervals
      allocate_three
