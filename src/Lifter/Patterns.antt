-- ===== src/Lifter/Patterns.antt =====
-- lib/Lifter.cpp: `liftSingleInstruction` and the instruction patterns that it uses.
use dinorisc.Prelude.{ℕ, Bool, true, false, if◌then◌else◌, unsupported_instruction_error}
use dinorisc.Prelude.Words.{shl64}
use dinorisc.Riscv.Syntax.{Instruction, Opcode, get_register, get_immediate}
use dinorisc.Ir.Syntax.{IrType, i8, i16, i32, i64, ValueId, BinaryOpcode}
use dinorisc.Lifter.Builder.{
  Lift, ◌>>=◌, pure, lift_result, throw, create_constant, create_binary_op, create_load,
  create_store, create_sext, create_zext, create_trunc, get_register_value, set_register_value,
}

abbrev pub register_operand : Instruction → ℕ → Lift ℕ
register_operand inst index = lift_result (get_register inst index)

abbrev pub immediate_operand : Instruction → ℕ → Lift ℕ
immediate_operand inst index = lift_result (get_immediate inst index)

-- Whether a value of the type is a whole register.
abbrev pub is_i64 : IrType → Bool
is_i64 i64 = true
is_i64 _ = false

unfoldable pub lift_r_type_binary_op : Instruction → BinaryOpcode → IrType → Lift (Unit {0})
lift_r_type_binary_op inst opcode type = do
  rs1 ← get_register_value (← register_operand inst 1)
  rs2 ← get_register_value (← register_operand inst 2)
  result ← create_binary_op opcode type rs1 rs2
  rd ← register_operand inst 0
  set_register_value rd result

unfoldable pub lift_i_type_binary_op : Instruction → BinaryOpcode → IrType → Lift (Unit {0})
lift_i_type_binary_op inst opcode type = do
  rs1 ← get_register_value (← register_operand inst 1)
  imm ← create_constant type (← immediate_operand inst 2)
  result ← create_binary_op opcode type rs1 imm
  rd ← register_operand inst 0
  set_register_value rd result

unfoldable pub lift_w_type_binary_op : Instruction → BinaryOpcode → Lift (Unit {0})
lift_w_type_binary_op inst opcode = do
  rs1 ← get_register_value (← register_operand inst 1)
  rs2 ← get_register_value (← register_operand inst 2)
  rs1_trunc ← create_trunc i32 rs1
  rs2_trunc ← create_trunc i32 rs2
  result_32 ← create_binary_op opcode i32 rs1_trunc rs2_trunc
  result ← create_sext i64 result_32
  rd ← register_operand inst 0
  set_register_value rd result

unfoldable pub lift_w_type_imm_op : Instruction → BinaryOpcode → Lift (Unit {0})
lift_w_type_imm_op inst opcode = do
  rs1 ← get_register_value (← register_operand inst 1)
  imm ← create_constant i32 (← immediate_operand inst 2)
  rs1_trunc ← create_trunc i32 rs1
  result_32 ← create_binary_op opcode i32 rs1_trunc imm
  result ← create_sext i64 result_32
  rd ← register_operand inst 0
  set_register_value rd result

unfoldable pub extend_loaded : IrType → Bool → ValueId → Lift ValueId
extend_loaded load_type sign_extend loaded =
    if is_i64 load_type
    then pure loaded
    else (if sign_extend then create_sext i64 loaded else create_zext i64 loaded)

unfoldable pub lift_load_instruction : Instruction → IrType → Bool → Lift (Unit {0})
unfolding extend_loaded
lift_load_instruction inst load_type sign_extend = do
  rs1 ← get_register_value (← register_operand inst 1)
  imm ← create_constant i64 (← immediate_operand inst 2)
  addr ← create_binary_op BinaryOpcode.add i64 rs1 imm
  loaded ← create_load load_type addr
  result ← extend_loaded load_type sign_extend loaded
  rd ← register_operand inst 0
  set_register_value rd result

unfoldable pub lift_store_instruction : Instruction → IrType → Lift (Unit {0})
lift_store_instruction inst store_type = do
  rs1 ← get_register_value (← register_operand inst 0)
  rs2 ← get_register_value (← register_operand inst 1)
  imm ← create_constant i64 (← immediate_operand inst 2)
  addr ← create_binary_op BinaryOpcode.add i64 rs1 imm
  val ← if is_i64 store_type then pure rs2 else create_trunc store_type rs2
  stored ← create_store val addr
  pure tt

-- The operation that an opcode asks for; the cases of `liftSingleInstruction`.
unfoldable pub lift_opcode : Opcode → Instruction → Lift (Unit {0})
lift_opcode Opcode.add inst = lift_r_type_binary_op inst BinaryOpcode.add i64
lift_opcode Opcode.addi inst = lift_i_type_binary_op inst BinaryOpcode.add i64
lift_opcode Opcode.sub inst = lift_r_type_binary_op inst BinaryOpcode.sub i64
lift_opcode Opcode.addw inst = lift_w_type_binary_op inst BinaryOpcode.add
lift_opcode Opcode.addiw inst = lift_w_type_imm_op inst BinaryOpcode.add
lift_opcode Opcode.and inst = lift_r_type_binary_op inst BinaryOpcode.and i64
lift_opcode Opcode.andi inst = lift_i_type_binary_op inst BinaryOpcode.and i64
lift_opcode Opcode.or inst = lift_r_type_binary_op inst BinaryOpcode.or i64
lift_opcode Opcode.ori inst = lift_i_type_binary_op inst BinaryOpcode.or i64
lift_opcode Opcode.xor inst = lift_r_type_binary_op inst BinaryOpcode.xor i64
lift_opcode Opcode.xori inst = lift_i_type_binary_op inst BinaryOpcode.xor i64
lift_opcode Opcode.sll inst = lift_r_type_binary_op inst BinaryOpcode.shl i64
lift_opcode Opcode.slli inst = lift_i_type_binary_op inst BinaryOpcode.shl i64
lift_opcode Opcode.srl inst = lift_r_type_binary_op inst BinaryOpcode.shr i64
lift_opcode Opcode.srli inst = lift_i_type_binary_op inst BinaryOpcode.shr i64
lift_opcode Opcode.sra inst = lift_r_type_binary_op inst BinaryOpcode.sar i64
lift_opcode Opcode.srai inst = lift_i_type_binary_op inst BinaryOpcode.sar i64
lift_opcode Opcode.slliw inst = lift_w_type_imm_op inst BinaryOpcode.shl
lift_opcode Opcode.slt inst = lift_r_type_binary_op inst BinaryOpcode.lt i64
lift_opcode Opcode.sltu inst = lift_r_type_binary_op inst BinaryOpcode.lt_u i64
lift_opcode Opcode.slti inst = lift_i_type_binary_op inst BinaryOpcode.lt i64
lift_opcode Opcode.sltiu inst = lift_i_type_binary_op inst BinaryOpcode.lt_u i64
lift_opcode Opcode.lb inst = lift_load_instruction inst i8 true
lift_opcode Opcode.lh inst = lift_load_instruction inst i16 true
lift_opcode Opcode.ld inst = lift_load_instruction inst i64 false
lift_opcode Opcode.lw inst = lift_load_instruction inst i32 true
lift_opcode Opcode.lwu inst = lift_load_instruction inst i32 false
lift_opcode Opcode.sd inst = lift_store_instruction inst i64
lift_opcode Opcode.sw inst = lift_store_instruction inst i32
lift_opcode Opcode.lui inst = do
  imm ← create_constant i64 (shl64 (← immediate_operand inst 1) 12)
  rd ← register_operand inst 0
  set_register_value rd imm
lift_opcode Opcode.auipc inst = do
  pc ← create_constant i64 inst.address
  imm ← create_constant i64 (shl64 (← immediate_operand inst 1) 12)
  result ← create_binary_op BinaryOpcode.add i64 pc imm
  rd ← register_operand inst 0
  set_register_value rd result
lift_opcode _ inst = throw unsupported_instruction_error

unfoldable pub lift_single_instruction : Instruction → Lift (Unit {0})
unfolding lift_opcode
lift_single_instruction inst = lift_opcode inst.opcode inst
