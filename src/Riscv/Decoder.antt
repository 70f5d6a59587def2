-- ===== src/Riscv/Decoder.antt =====
-- lib/RISCV/Decoder.cpp: `decode`, from four bytes of memory to an instruction.
pub mod Words
pub mod Immediates
pub mod Assembler
pub mod RoundTrip
pub mod Shape
mod Tests
use dinorisc.Prelude.{ℕ, List, Result, ok, ◌>>=◌}
use dinorisc.Riscv.Syntax.{Instruction}
use dinorisc.Riscv.Fields.{read_instruction_from_memory, extract_fields}
use dinorisc.Riscv.Opcodes.{determine_opcode}
use dinorisc.Riscv.Operands.{extract_operands}

unfoldable pub decode : List ℕ → ℕ → ℕ → Result Instruction
decode bytes offset pc = do
  raw_instruction ← read_instruction_from_memory bytes offset
  let fields = extract_fields raw_instruction
  opcode ← determine_opcode fields
  operands ← extract_operands fields opcode raw_instruction
  ok (record {
    opcode = opcode;
    operands = operands;
    raw_instruction = raw_instruction;
    address = pc;
  })
