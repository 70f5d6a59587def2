-- ===== src/Lowering/Constants.antt =====
-- lib/Lowering/InstructionSelector.cpp: `selectConstIntoRegister`, how a constant is loaded.
pub mod Meaning
mod Tests
use dinorisc.Prelude.{
  ℕ, ◌-◌, ◌^◌, Bool, true, false, ◌&&◌, List, [], ◌∷◌, ◌==◌, if◌then◌else◌, bit_and,
}
use dinorisc.Prelude.Words.{shr, slt64, sle64}
use dinorisc.Ir.Syntax.{IrType}
use dinorisc.Arm.Syntax.{Opcode, DataSize, Operand, immediate, Instruction, two_operand, move_wide}
use dinorisc.Lowering.Builder.{ir_type_to_data_size}

-- `~value` on 64 bits.
abbrev pub complement64 : ℕ → ℕ
complement64 value = 2 ^ 64 - 1 - value

unfoldable pub chunk : ℕ → ℕ → ℕ
chunk value shift = bit_and (shr value shift) 0xFFFF

move_opcode : Bool → Opcode
move_opcode first_chunk = if first_chunk then Opcode.movz else Opcode.movk

-- The loop over the four chunks: the rounds that are left, and whether none was written yet.
unfoldable pub chunk_loop : List ℕ → DataSize → Operand → ℕ → Bool → List Instruction
unfolding chunk move_opcode
chunk_loop [] data_size target value first_chunk =
    if first_chunk
    then move_wide
        (record { opcode = Opcode.movz; size = data_size; dest = target; imm16 = 0; shift = 0 })
      ∷ []
    else []
chunk_loop (shift ∷ shifts) data_size target value first_chunk =
    let skipped = chunk_loop shifts data_size target value first_chunk in
    let taken =
      move_wide (record {
        opcode = move_opcode first_chunk;
        size = data_size;
        dest = target;
        imm16 = chunk value shift;
        shift = shift;
      })
      ∷ chunk_loop shifts data_size target value false in
    if chunk value shift == 0 then skipped else taken

unfoldable pub select_const_into_register : IrType → ℕ → Operand → List Instruction
unfolding chunk_loop ir_type_to_data_size
select_const_into_register type value target =
    let data_size = ir_type_to_data_size type in
    if slt64 value 0 && sle64 (2 ^ 64 - 65536) value
    then two_operand (record {
      opcode = Opcode.movn;
      size = data_size;
      dest = target;
      src = immediate (complement64 value);
    })
      ∷ []
    else if sle64 0 value && sle64 value 0xFFFF
    then two_operand
        (record { opcode = Opcode.mov; size = data_size; dest = target; src = immediate value })
      ∷ []
    else chunk_loop (0 ∷ 16 ∷ 32 ∷ 48 ∷ []) data_size target value true
