-- ===== src/Lowering/Selector.antt =====
-- lib/Lowering/InstructionSelector.cpp: constants, conversions, guest registers, and the choice by kind.
use dinorisc.Prelude.{ℕ, ◌*◌, ◌%◌, ◌^◌, List, [], ◌∷◌, ok}
use dinorisc.Ir.Syntax.{
  ValueId, IrType, i8, i16, i32, i64, InstructionKind, const, binary_op, sext, zext, trunc, load,
  store, reg_read, reg_write,
}
use dinorisc.Ir.Syntax.{Instruction as IrInstruction}
use dinorisc.Arm.Syntax.{
  Register, Opcode, double, register, virtual, Instruction, two_operand, memory,
}
use dinorisc.Lowering.Builder.{
  Select, ◌>>=◌, ◌>>◌, pure, get_virtual_register_or_throw, assign_virtual_register,
  record_value_type, get_value_type, ir_type_to_data_size,
}
use dinorisc.Lowering.Constants.{select_const_into_register}
use dinorisc.Lowering.Operations.{select_binary_op, select_load, select_store}

unfoldable pub select_const : IrType → ℕ → ValueId → Select (List Instruction)
unfolding assign_virtual_register select_const_into_register
select_const type value result_id = do
  dest_reg ← assign_virtual_register result_id
  pure (select_const_into_register type value (virtual dest_reg))

unfoldable pub sext_opcode : IrType → Opcode
sext_opcode i8 = Opcode.sxtb
sext_opcode i16 = Opcode.sxth
sext_opcode i32 = Opcode.sxtw
sext_opcode _ = Opcode.mov

unfoldable pub zext_opcode : IrType → Opcode
zext_opcode i8 = Opcode.uxtb
zext_opcode i16 = Opcode.uxth
zext_opcode _ = Opcode.mov

-- `selectSext`, `selectZext` and `selectTrunc`: one instruction on the operand's register.
-- `pick` is the opcode for the type that was recorded for the operand.
unfoldable pub select_unary :
    (IrType → Opcode) → IrType → ValueId → ValueId → Select (List Instruction)
unfolding assign_virtual_register get_virtual_register_or_throw get_value_type ir_type_to_data_size
select_unary pick to_type operand result_id = do
  dest_reg ← assign_virtual_register result_id
  src_reg ← get_virtual_register_or_throw operand
  from_type ← λ s. ok (get_value_type s operand, s)
  pure (
      two_operand (record {
        opcode = pick from_type;
        size = ir_type_to_data_size to_type;
        dest = virtual dest_reg;
        src = virtual src_reg;
      })
      ∷ [])

unfoldable pub select_sext : IrType → ValueId → ValueId → Select (List Instruction)
unfolding select_unary sext_opcode
select_sext = select_unary sext_opcode

unfoldable pub select_zext : IrType → ValueId → ValueId → Select (List Instruction)
unfolding select_unary zext_opcode
select_zext = select_unary zext_opcode

unfoldable pub select_trunc : IrType → ValueId → ValueId → Select (List Instruction)
unfolding select_unary
select_trunc = select_unary (λ _. Opcode.mov)

abbrev register_size_bytes : ℕ
register_size_bytes = 8

-- `static_cast<int32_t>` of a size_t.
abbrev state_offset : ℕ → ℕ
state_offset reg_number = reg_number * register_size_bytes % 2 ^ 32

unfoldable pub select_reg_read : ℕ → ValueId → Select (List Instruction)
unfolding assign_virtual_register
select_reg_read reg_number result_id = do
  dest_reg ← assign_virtual_register result_id
  pure (
      memory (record {
        opcode = Opcode.ldr;
        size = double;
        reg = virtual dest_reg;
        base_reg = register Register.x0;
        offset = state_offset reg_number;
      })
      ∷ [])

unfoldable pub select_reg_write : ℕ → ValueId → Select (List Instruction)
unfolding get_virtual_register_or_throw
select_reg_write reg_number value = do
  value_reg ← get_virtual_register_or_throw value
  pure (
      memory (record {
        opcode = Opcode.str;
        size = double;
        reg = virtual value_reg;
        base_reg = register Register.x0;
        offset = state_offset reg_number;
      })
      ∷ [])

select_kind : InstructionKind → ValueId → Select (List Instruction)
unfolding select_binary_op select_load select_store select_const select_sext select_zext
    select_trunc select_reg_read select_reg_write record_value_type
select_kind (binary_op opcode type lhs rhs) value_id = do
  record_value_type value_id type
  select_binary_op opcode type lhs rhs value_id
select_kind (load type address) value_id = do
  record_value_type value_id type
  select_load type address value_id
select_kind (store value address) value_id = select_store value address
select_kind (const type value) value_id = do
  record_value_type value_id type
  select_const type value value_id
select_kind (sext to_type operand) value_id = do
  record_value_type value_id to_type
  select_sext to_type operand value_id
select_kind (zext to_type operand) value_id = do
  record_value_type value_id to_type
  select_zext to_type operand value_id
select_kind (trunc to_type operand) value_id = do
  record_value_type value_id to_type
  select_trunc to_type operand value_id
select_kind (reg_read reg_number) value_id = do
  record_value_type value_id i64
  select_reg_read reg_number value_id
select_kind (reg_write reg_number value) value_id = select_reg_write reg_number value

unfoldable pub select_instruction : IrInstruction → Select (List Instruction)
unfolding select_kind
select_instruction inst = select_kind inst.kind inst.value_id
