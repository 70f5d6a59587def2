-- ===== src/Lowering/Terminators.antt =====
-- lib/Lowering/InstructionSelector.cpp: terminators, and `selectInstructions`.
use dinorisc.Prelude.{ℕ, none, some, List, [], ◌∷◌, ◌++◌}
use dinorisc.Ir.Syntax.{
  ValueId, i64, Terminator, branch, cond_branch, return, BasicBlock, Instruction as IrInstruction,
}
use dinorisc.Arm.Syntax.{
  Register, Opcode, double, Condition, Operand, register, virtual, immediate, Instruction,
  two_operand, conditional_select,
}
use dinorisc.Lowering.Builder.{
  Select, ◌>>=◌, pure, fresh_register, get_virtual_register_or_throw, assign_virtual_register,
}
use dinorisc.Lowering.Constants.{select_const_into_register}
use dinorisc.Lowering.Selector.{select_const, select_instruction}

-- `RET x30`
abbrev pub ret_inst : Instruction
ret_inst = two_operand (record {
  opcode = Opcode.ret;
  size = double;
  dest = register Register.x30;
  src = register Register.x30;
})

-- `MOV x0, src`
abbrev pub move_to_x0 : Operand → Instruction
move_to_x0 src =
    two_operand
      (record { opcode = Opcode.mov; size = double; dest = register Register.x0; src = src })

-- The constants for the two targets are given value ids taken from the counter of virtual
-- registers, and `selectConst` assigns those ids a virtual register once more.
unfoldable pub select_cond_branch : ValueId → ℕ → ℕ → Select (List Instruction)
unfolding select_const fresh_register assign_virtual_register get_virtual_register_or_throw
select_cond_branch condition true_block false_block = do
  cond_reg ← get_virtual_register_or_throw condition
  true_value_id ← fresh_register
  true_temp_reg ← assign_virtual_register true_value_id
  true_insts ← select_const i64 true_block true_value_id
  false_value_id ← fresh_register
  false_temp_reg ← assign_virtual_register false_value_id
  false_insts ← select_const i64 false_block false_value_id
  target_reg ← fresh_register
  pure (
      two_operand
        (record { opcode = Opcode.cmp; size = double; dest = virtual cond_reg; src = immediate 0 })
      ∷ (true_insts
          ++ (false_insts
              ++ conditional_select (record {
                opcode = Opcode.csel;
                size = double;
                dest = virtual target_reg;
                src1 = virtual true_temp_reg;
                src2 = virtual false_temp_reg;
                condition = Condition.ne;
              })
                ∷ move_to_x0 (virtual target_reg)
                ∷ ret_inst
                ∷ [])))

unfoldable pub select_terminator : Terminator → Select (List Instruction)
unfolding select_cond_branch select_const_into_register get_virtual_register_or_throw
select_terminator (branch target_block) =
    pure (select_const_into_register i64 target_block (register Register.x0) ++ ret_inst ∷ [])
select_terminator (cond_branch condition true_block false_block) =
    select_cond_branch condition true_block false_block
select_terminator (return (some value)) = do
  src_reg ← get_virtual_register_or_throw value
  pure (move_to_x0 (virtual src_reg) ∷ ret_inst ∷ [])
select_terminator (return none) =
    pure (select_const_into_register i64 0 (register Register.x0) ++ ret_inst ∷ [])

unfoldable pub select_all : List IrInstruction → Select (List Instruction)
unfolding select_instruction
select_all [] = pure []
select_all (inst ∷ rest) = do
  selected ← select_instruction inst
  more ← select_all rest
  pure (selected ++ more)

unfoldable pub select_instructions : BasicBlock → Select (List Instruction)
unfolding select_all select_terminator
select_instructions block = do
  body ← select_all block.instructions
  term_selected ← select_terminator block.terminator
  pure (body ++ term_selected)
