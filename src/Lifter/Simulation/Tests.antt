-- ===== src/Lifter/Simulation/Tests.antt =====
-- A loop that stores what it computes, and the same block without its branch.
use dinorisc.Prelude.{
  ◌*◌, ◌^◌, ◌-◌, ◌≡◌, refl, arith, true, [], ◌∷◌, ok, err, unsupported_instruction_error,
}
use dinorisc.Prelude.Words.{add64}
use dinorisc.Ir.Syntax.{i64, BasicBlock}
use dinorisc.Ir.Meaning.{Machine}
use dinorisc.Riscv.Syntax.{Instruction, Opcode, register, immediate}
use dinorisc.Riscv.Operands.{format}
use dinorisc.Riscv.Meaning.{steps, next_pc}
use dinorisc.Lifter.Builder.{Lifter, initial}
use dinorisc.Lifter.Blocks.{opcode_is_terminator, lift_basic_block}
use dinorisc.Lifter.Simulation.Instructions.{is_translated}
use dinorisc.Lifter.Simulation.Terminators.{opcode_is_followed, is_followed}
use dinorisc.Lifter.Simulation.Unsupported.{
  is_refused, is_supported, IsSupported, lift_basic_block-refused,
}
use dinorisc.Lifter.Simulation.Walk.{IsInner, IsEnd}
use dinorisc.Lifter.Simulation.Blocks.{
  Reaches, hart_of, lift_basic_block-branch, lift_basic_block-fall_through,
}

abbrev guest : Machine
guest = record { values = λ v. 0; types = λ v. i64; registers = λ r. r * 16; memory = λ a. 0 }

-- `addi x5, x5, -1`, `addw x6, x6, x5`, `sw x6, 8(x2)`, `bne x5, x0, -12`
abbrev decrement : Instruction
decrement = record {
  opcode = Opcode.addi;
  operands = register 5 ∷ register 5 ∷ immediate (2 ^ 64 - 1) ∷ [];
  raw_instruction = 0xFFF28293;
  address = 0x1000;
}

abbrev accumulate : Instruction
accumulate = record {
  opcode = Opcode.addw;
  operands = register 6 ∷ register 6 ∷ register 5 ∷ [];
  raw_instruction = 0x0053033B;
  address = 0x1004;
}

abbrev spill : Instruction
spill = record {
  opcode = Opcode.sw;
  operands = register 2 ∷ register 6 ∷ immediate 8 ∷ [];
  raw_instruction = 0x00612423;
  address = 0x1008;
}

abbrev again : Instruction
again = record {
  opcode = Opcode.bne;
  operands = register 5 ∷ register 0 ∷ immediate (2 ^ 64 - 12) ∷ [];
  raw_instruction = 0xFE029AE3;
  address = 0x100C;
}

decrement-IsInner : IsInner decrement
unfolding is_translated format
decrement-IsInner = (refl, (omega arith, omega arith))

accumulate-IsInner : IsInner accumulate
unfolding is_translated format
accumulate-IsInner = (refl, (omega arith, omega arith, omega arith))

spill-IsInner : IsInner spill
unfolding is_translated format
spill-IsInner = (refl, (omega arith, omega arith))

again-IsEnd : IsEnd again
unfolding is_followed opcode_is_followed opcode_is_terminator format
again-IsEnd = (refl, (omega arith, omega arith))

lift_basic_block-branch_example :
    (block : BasicBlock) × (l' : Lifter) × (lift_basic_block
        (decrement ∷ accumulate ∷ spill ∷ again ∷ [])
        initial
      ≡ ok (block, l'))
    × Reaches guest block
        (steps (decrement ∷ accumulate ∷ spill ∷ []) (hart_of guest))
        (next_pc again (steps (decrement ∷ accumulate ∷ spill ∷ []) (hart_of guest)))
lift_basic_block-branch_example =
    lift_basic_block-branch guest initial (decrement ∷ accumulate ∷ spill ∷ []) again
      (decrement-IsInner, (accumulate-IsInner, (spill-IsInner, tt))) again-IsEnd refl

lift_basic_block-fall_through_example :
    (block : BasicBlock) × (l' : Lifter) × (lift_basic_block
        (decrement ∷ accumulate ∷ spill ∷ [])
        initial
      ≡ ok (block, l'))
    × Reaches guest block
        (steps (decrement ∷ accumulate ∷ spill ∷ []) (hart_of guest))
        (add64 0x1008 4)
lift_basic_block-fall_through_example =
    lift_basic_block-fall_through guest initial (decrement ∷ accumulate ∷ []) spill
      (decrement-IsInner, (accumulate-IsInner, tt)) spill-IsInner refl

-- `lbu x6, 8(x2)`
abbrev byte_load : Instruction
byte_load = record {
  opcode = Opcode.lbu;
  operands = register 6 ∷ register 2 ∷ immediate 8 ∷ [];
  raw_instruction = 0x00814303;
  address = 0x1004;
}

byte_load-refused : is_refused byte_load.opcode ≡ true
unfolding is_refused
byte_load-refused = refl

-- `lui x5, 0x12345`
abbrev upper : Instruction
upper = record {
  opcode = Opcode.lui;
  operands = register 5 ∷ immediate (0x12345 * 2 ^ 12) ∷ [];
  raw_instruction = 0x123452B7;
  address = 0x1000;
}

upper-IsSupported : IsSupported (upper ∷ decrement ∷ [])
unfolding is_supported is_translated format
upper-IsSupported = ((refl, omega arith), ((refl, (omega arith, omega arith)), tt))

lift_basic_block-refused_example :
    lift_basic_block (upper ∷ decrement ∷ byte_load ∷ spill ∷ again ∷ []) initial
    ≡ err unsupported_instruction_error
lift_basic_block-refused_example =
    lift_basic_block-refused initial (upper ∷ decrement ∷ []) byte_load (spill ∷ again ∷ [])
      upper-IsSupported byte_load-refused
