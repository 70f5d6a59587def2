-- ===== src/Lib.antt =====
-- DinoRISC, a dynamic binary translator from RISC-V (RV64I) to ARM64, as a model and its theorems.
--
-- The program takes a function of a RISC-V executable, a basic block at a time. A block is decoded
-- (lib/RISCV), lifted to an intermediate representation in single-assignment form (lib/Lifter.cpp,
-- lib/IR), lowered to ARM64 instructions over virtual registers (lib/Lowering/InstructionSelector.cpp),
-- given physical registers by a liveness analysis and a linear scan (lib/Lowering/LivenessAnalysis.cpp,
-- lib/Lowering/RegisterAllocator.cpp), encoded to bytes (lib/ARM64/Encoder.cpp) and called
-- (lib/ExecutionEngine.cpp). The call gets the guest state (lib/GuestState.h) and returns the address
-- of the next block, and lib/BinaryTranslator.cpp goes on with that block, until the address is 0.
--
-- The files, and the code that each models:
--
-- Prelude: shared names. Prelude.Errors has the exceptions of lib/Error.h as a data type, and the
--   result of code that may throw. Prelude.Words has the machine arithmetic with its wrap-around,
--   Prelude.Bits what the bit operations are in arithmetic.
-- Riscv: lib/RISCV. Riscv.Syntax is Instruction.h; Riscv.Fields extracts the fields and immediates of
--   a word, Riscv.Opcodes is `determineOpcode`, Riscv.Operands `extractOperands`, Riscv.Decoder
--   `decode`. Riscv.Decoder.Assembler is the specification, an assembler written from the tables of
--   the instruction set; Riscv.Decoder.RoundTrip and Riscv.Decoder.Shape have the theorems.
--   Riscv.Meaning is the other specification: what the instructions do to a hart, from the manual.
-- Ir: Ir.Syntax is lib/IR/IR.h. Ir.Meaning is an evaluator of its blocks: arithmetic is modulo the
--   width of the type, shifts go by their amount modulo the width, comparisons are of 64-bit operands
--   whatever the type of their result, and memory is bytes, the lowest first, with addresses that wrap
--   at 2 ^ 64.
-- Lifter: lib/Lifter.cpp. Lifter.Builder has the object's state and the methods that add one
--   instruction, Lifter.Patterns the methods for groups of RISC-V instructions, Lifter.Blocks the
--   terminators and `liftBasicBlock`. A method takes the object and returns it changed.
--   Lifter.Simulation holds the lifter against Riscv.Meaning: Rules has the relation between the block
--   so far and a hart, and the modules after it take the methods from the smallest on, up to
--   Lifter.Simulation.Blocks. It leaves out LUI, AUIPC, the jumps that link and the return to `ra`,
--   which the lifter takes otherwise than the manual. Lifter.Simulation.Unsupported is about the
--   opcodes that the lifter refuses.
-- Lowering: lib/Lowering. Lowering.Builder, Lowering.Constants, Lowering.Operations,
--   Lowering.Selector and Lowering.Terminators are InstructionSelector.cpp, Lowering.Liveness is
--   LivenessAnalysis.cpp, Lowering.Allocator is RegisterAllocator.cpp. Lowering.Constants.Meaning
--   gives the ARM64 moves of an immediate their meaning. Lowering.Allocator.Rounds takes a scan apart
--   into its rounds;
--   Lowering.Allocator.Scan, Lowering.Allocator.Usable and Lowering.Allocator.Physical are about the
--   registers given out and the rewritten instructions, Lowering.Liveness.Order and
--   Lowering.Liveness.Coverage about the intervals.
-- Arm: lib/ARM64. Arm.Syntax is Instruction.h; Arm.Operands, Arm.ThreeOperand, Arm.TwoOperand,
--   Arm.Memory and Arm.Encoder are Encoder.cpp. Arm.Encoder.Fields, Arm.Encoder.Branches,
--   Arm.Encoder.Accesses, Arm.Encoder.Offsets and Arm.Encoder.Virtual have the theorems.
-- Guest: lib/GuestState.h.
-- Elf: lib/ELFReader.cpp, over an image as the ELFIO library reports it.
-- Translator: lib/BinaryTranslator.cpp and lib/ExecutionEngine.cpp. The host's memory calls and the
--   call of the machine code are a parameter, the record `Host`. Translator.Blocks is `executeBlock`,
--   Translator.Dispatch `executeFunction`; Translator.Totality, Translator.Arguments,
--   Translator.MachineCode and Translator.Execution have the theorems, and Translator.Decoding and
--   Translator.Lifting those about the blocks that are decoded and then lifted, Translator.Refusal
--   those that are refused.
-- CommandLine: tools/dinorisc/DinoRISCMain.cpp. `std::stoull`, the file at a path and the host are
--   parameters of `main`; CommandLine.Arguments has the theorems.
-- Riscv.Printing, Ir.Printing and Arm.Printing are lib/RISCV/Instruction.cpp, lib/IR/IR.cpp and
--   lib/ARM64/Instruction.cpp, the texts of instructions. A text is the list of its characters;
--   Prelude.Text has what streams print for integers, Prelude.Text.Names, Prelude.Text.Reading and
--   Prelude.Text.Separators how to read it back.  Ir.Printing.Lines, Ir.Printing.Unambiguous and Ir.Printing.Blocks
--   are about the line breaks, the instructions and the blocks of the IR.
--
-- Methods are named as in the source, in another spelling: `liftBasicBlock` is `lift_basic_block`. An
-- exception is an `err` of the result; what the C++ library does with a wrong alternative of a variant
-- is the error `bad_access`. An integer of w bits is a number below 2 ^ w, and a signed one its
-- pattern. The hash maps are association lists in the order of insertion, as their order is not
-- specified in the source; `std::sort` is an insertion sort that keeps the order of equal starts.
--
-- Bounds: the loop that decodes a block has as fuel one round more than the bytes of the text section,
-- where each round goes 4 bytes on. The loop over the blocks has the 10000 rounds of the source. The
-- counters of value ids and of virtual registers are not bounded: a block would need 2 ^ 32
-- instructions to wrap one.
--
-- Not modelled: the printing of progress, the messages of exceptions, the debug assertions (such as
-- that the allocator gets sorted intervals), the usage text, the release of
-- memory, and the libraries in third_party.
pub mod Prelude
pub mod Riscv
pub mod Ir
pub mod Lifter
pub mod Arm
pub mod Guest
pub mod Lowering
pub mod Elf
pub mod Translator
pub mod CommandLine
