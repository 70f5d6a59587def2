-- ===== src/Lowering/Operations.antt =====
-- lib/Lowering/InstructionSelector.cpp: binary operations, loads and stores.
use dinorisc.Prelude.{Option, none, some, List, [], ◌∷◌, ◌++◌, Result, ok, err, lowering_error}
use dinorisc.Ir.Syntax.{ValueId, IrType, BinaryOpcode}
use dinorisc.Arm.Syntax.{
  Register, Opcode, double, Condition, VirtualRegister, register, virtual, Instruction,
  three_operand, two_operand, memory, conditional,
}
use dinorisc.Guest.{shadow_memory_offset, guest_memory_base_offset}
use dinorisc.Lowering.Builder.{
  Select, ◌>>=◌, pure, select_result, fresh_register, get_virtual_register_or_throw,
  assign_virtual_register, get_value_type, ir_type_to_data_size,
}

unfoldable pub comparison_condition : BinaryOpcode → Option Condition
comparison_condition BinaryOpcode.eq = some Condition.eq
comparison_condition BinaryOpcode.ne = some Condition.ne
comparison_condition BinaryOpcode.lt = some Condition.lt
comparison_condition BinaryOpcode.le = some Condition.le
comparison_condition BinaryOpcode.gt = some Condition.gt
comparison_condition BinaryOpcode.ge = some Condition.ge
comparison_condition BinaryOpcode.lt_u = some Condition.cc
comparison_condition BinaryOpcode.le_u = some Condition.ls
comparison_condition BinaryOpcode.gt_u = some Condition.hi
comparison_condition BinaryOpcode.ge_u = some Condition.cs
comparison_condition _ = none

unfoldable pub ir_binary_op_to_arm64 : BinaryOpcode → Result Opcode
ir_binary_op_to_arm64 BinaryOpcode.add = ok Opcode.add
ir_binary_op_to_arm64 BinaryOpcode.sub = ok Opcode.sub
ir_binary_op_to_arm64 BinaryOpcode.mul = ok Opcode.mul
ir_binary_op_to_arm64 BinaryOpcode.div_u = ok Opcode.udiv
ir_binary_op_to_arm64 BinaryOpcode.div = ok Opcode.sdiv
ir_binary_op_to_arm64 BinaryOpcode.and = ok Opcode.and
ir_binary_op_to_arm64 BinaryOpcode.or = ok Opcode.orr
ir_binary_op_to_arm64 BinaryOpcode.xor = ok Opcode.eor
ir_binary_op_to_arm64 BinaryOpcode.shl = ok Opcode.lsl
ir_binary_op_to_arm64 BinaryOpcode.shr = ok Opcode.lsr
ir_binary_op_to_arm64 BinaryOpcode.sar = ok Opcode.asr
ir_binary_op_to_arm64 _ = err lowering_error

binary_op_instructions :
    Option Condition
    → BinaryOpcode
    → IrType
    → VirtualRegister
    → VirtualRegister
    → VirtualRegister
    → Result (List Instruction)
unfolding ir_binary_op_to_arm64 ir_type_to_data_size
binary_op_instructions (some condition) opcode type dest lhs rhs = ok (
    two_operand
      (record { opcode = Opcode.cmp; size = double; dest = virtual lhs; src = virtual rhs })
    ∷ conditional
        (record { opcode = Opcode.cset; size = double; dest = virtual dest; condition = condition })
    ∷ [])
binary_op_instructions none opcode type dest lhs rhs = elim (ir_binary_op_to_arm64 opcode) [
  | ok arm_opcode ↦ ok (
      three_operand (record {
        opcode = arm_opcode;
        size = ir_type_to_data_size type;
        dest = virtual dest;
        src1 = virtual lhs;
        src2 = virtual rhs;
      })
      ∷ [])
  | err e ↦ err e
]

unfoldable pub select_binary_op :
    BinaryOpcode → IrType → ValueId → ValueId → ValueId → Select (List Instruction)
unfolding comparison_condition binary_op_instructions assign_virtual_register
    get_virtual_register_or_throw
select_binary_op opcode type lhs rhs result_id = do
  dest_reg ← assign_virtual_register result_id
  lhs_reg ← get_virtual_register_or_throw lhs
  rhs_reg ← get_virtual_register_or_throw rhs
  select_result
      (binary_op_instructions (comparison_condition opcode) opcode type dest_reg lhs_reg rhs_reg)

-- Guest address minus guest base plus shadow base; x0 holds the address of the guest state.
-- The second component is the register of the host address.
unfoldable pub generate_address_translation :
    VirtualRegister → Select (List Instruction × VirtualRegister)
unfolding fresh_register
generate_address_translation guest_addr_reg = do
  host_addr_reg ← fresh_register
  guest_base_reg ← fresh_register
  shadow_base_reg ← fresh_register
  pure (
    memory (record {
      opcode = Opcode.ldr;
      size = double;
      reg = virtual guest_base_reg;
      base_reg = register Register.x0;
      offset = guest_memory_base_offset;
    })
        ∷ memory (record {
          opcode = Opcode.ldr;
          size = double;
          reg = virtual shadow_base_reg;
          base_reg = register Register.x0;
          offset = shadow_memory_offset;
        })
        ∷ three_operand (record {
          opcode = Opcode.sub;
          size = double;
          dest = virtual host_addr_reg;
          src1 = virtual guest_addr_reg;
          src2 = virtual guest_base_reg;
        })
        ∷ three_operand (record {
          opcode = Opcode.add;
          size = double;
          dest = virtual host_addr_reg;
          src1 = virtual host_addr_reg;
          src2 = virtual shadow_base_reg;
        })
        ∷ [],
    host_addr_reg,
  )

unfoldable pub select_load : IrType → ValueId → ValueId → Select (List Instruction)
unfolding generate_address_translation ir_type_to_data_size assign_virtual_register
    get_virtual_register_or_throw
select_load type address result_id = do
  dest_reg ← assign_virtual_register result_id
  guest_addr_reg ← get_virtual_register_or_throw address
  (translation, host_addr_reg) ← generate_address_translation guest_addr_reg
  pure (
      translation
      ++ memory (record {
        opcode = Opcode.ldr;
        size = ir_type_to_data_size type;
        reg = virtual dest_reg;
        base_reg = virtual host_addr_reg;
        offset = 0;
      })
        ∷ [])

unfoldable pub select_store : ValueId → ValueId → Select (List Instruction)
unfolding generate_address_translation ir_type_to_data_size get_virtual_register_or_throw
    get_value_type
select_store value address = do
  value_reg ← get_virtual_register_or_throw value
  guest_addr_reg ← get_virtual_register_or_throw address
  value_type ← λ s. ok (get_value_type s value, s)
  (translation, host_addr_reg) ← generate_address_translation guest_addr_reg
  pure (
      translation
      ++ memory (record {
        opcode = Opcode.str;
        size = ir_type_to_data_size value_type;
        reg = virtual value_reg;
        base_reg = virtual host_addr_reg;
        offset = 0;
      })
        ∷ [])
