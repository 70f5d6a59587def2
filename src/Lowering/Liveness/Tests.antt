-- ===== src/Lowering/Liveness/Tests.antt =====
-- The analysis and the scan on a sum of two constants.
use dinorisc.Prelude.{ℕ, ◌≡◌, refl, some, List, [], ◌∷◌, All, insert}
use dinorisc.Arm.Syntax.{
  Opcode, double, Operand, register, virtual, immediate, Instruction, three_operand, two_operand,
  register_number, x0, x1, x2, x3,
}
use dinorisc.Lowering.Liveness.{LiveInterval, compute_live_intervals}
use dinorisc.Lowering.Liveness.Order.{compute_live_intervals-NoClashes}
use dinorisc.Lowering.Liveness.Coverage.{EndsAfterUses, compute_live_intervals-EndsAfterUses}
use dinorisc.Lowering.Allocator.{Allocator, initial, scan, same_register}
use dinorisc.Lowering.Allocator.Usable.{IsServed, compute_live_intervals-IsServed}
use dinorisc.Lowering.Allocator.Scan.{NoClashes}

abbrev mov_inst : Operand → Operand → Instruction
mov_inst dest src =
    two_operand (record { opcode = Opcode.mov; size = double; dest = dest; src = src })

-- `mov v0, #5`, `mov v1, #6`, `add v2, v0, v1`, `mov x0, v2`
abbrev sum : List Instruction
sum =
    mov_inst (virtual 0) (immediate 5)
    ∷ mov_inst (virtual 1) (immediate 6)
    ∷ three_operand (record {
      opcode = Opcode.add;
      size = double;
      dest = virtual 2;
      src1 = virtual 0;
      src2 = virtual 1;
    })
    ∷ mov_inst (register x0) (virtual 2)
    ∷ []

abbrev interval_of : ℕ → ℕ → ℕ → LiveInterval
interval_of vreg start end = record { virtual_register = vreg; start = start; end = end }

abbrev sum_scanned : Allocator
sum_scanned = record {
  allocation = (0, x1) ∷ (1, x2) ∷ (2, x3) ∷ [];
  active_intervals =
      record { interval = interval_of 0 0 2; physical_reg = x1 }
      ∷ record { interval = interval_of 1 1 2; physical_reg = x2 }
      ∷ record { interval = interval_of 2 2 3; physical_reg = x3 }
      ∷ [];
}

scan-sum : scan (compute_live_intervals sum) initial ≡ some sum_scanned
unfolding scan same_register register_number insert compute_live_intervals
scan-sum = refl

compute_live_intervals-NoClashes_example :
    NoClashes sum_scanned.allocation (compute_live_intervals sum)
compute_live_intervals-NoClashes_example = compute_live_intervals-NoClashes sum scan-sum

compute_live_intervals-EndsAfterUses_example : All (EndsAfterUses sum) (compute_live_intervals sum)
compute_live_intervals-EndsAfterUses_example = compute_live_intervals-EndsAfterUses sum

compute_live_intervals-IsServed_example :
    All (IsServed sum_scanned.allocation) (compute_live_intervals sum)
compute_live_intervals-IsServed_example = compute_live_intervals-IsServed sum scan-sum
