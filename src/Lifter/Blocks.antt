-- ===== src/Lifter/Blocks.antt =====
-- lib/Lifter.cpp: terminators, and the walk over a basic block.
pub mod Defects
mod Tests
use dinorisc.Prelude.{
  ℕ, ◌-◌, ◌^◌, Bool, true, false, ◌&&◌, none, some, List, [], ◌∷◌, ◌==◌, if◌then◌else◌, ok,
  unsupported_instruction_error,
}
use dinorisc.Prelude.Words.{add64}
use dinorisc.Riscv.Syntax.{Instruction, Opcode}
use dinorisc.Ir.Syntax.{i1, i64, BinaryOpcode, Terminator, branch, cond_branch, return, BasicBlock}
use dinorisc.Lifter.Builder.{
  Lifter, Lift, ◌>>=◌, ◌>>◌, pure, throw, create_constant, create_binary_op, get_register_value,
  set_register_value, finalize_register_writes, reg_zero, reg_ra,
}
use dinorisc.Lifter.Patterns.{register_operand, immediate_operand, lift_single_instruction}

-- `~1ULL`
abbrev pub jalr_align_mask : ℕ
jalr_align_mask = 2 ^ 64 - 2

unfoldable pub opcode_is_terminator : Opcode → Bool
opcode_is_terminator Opcode.beq = true
opcode_is_terminator Opcode.bne = true
opcode_is_terminator Opcode.blt = true
opcode_is_terminator Opcode.bge = true
opcode_is_terminator Opcode.bltu = true
opcode_is_terminator Opcode.bgeu = true
opcode_is_terminator Opcode.jal = true
opcode_is_terminator Opcode.jalr = true
opcode_is_terminator _ = false

unfoldable pub is_terminator : Instruction → Bool
unfolding opcode_is_terminator
is_terminator inst = opcode_is_terminator inst.opcode

unfoldable pub create_conditional_branch : BinaryOpcode → Instruction → ℕ → Lift Terminator
create_conditional_branch compare_op inst fall_through_address = do
  rs1 ← get_register_value (← register_operand inst 0)
  rs2 ← get_register_value (← register_operand inst 1)
  condition ← create_binary_op compare_op i1 rs1 rs2
  offset ← immediate_operand inst 2
  pure (cond_branch condition (add64 inst.address offset) fall_through_address)

unfoldable pub lift_jal : Instruction → Lift Terminator
lift_jal inst = do
  return_addr ← create_constant i64 (add64 inst.address 4)
  rd ← register_operand inst 0
  set_register_value rd return_addr
  offset ← immediate_operand inst 1
  pure (branch (add64 inst.address offset))

-- The last part of `JALR`: the return address for the destination register.
unfoldable pub link_register : Instruction → ℕ → Lift (Unit {0})
link_register inst rd =
    if rd == reg_zero
    then pure tt
    else (create_constant i64 (add64 inst.address 4) >>= set_register_value rd)

unfoldable pub indirect_jump : Instruction → ℕ → ℕ → ℕ → Lift Terminator
unfolding link_register
indirect_jump inst rd base offset = do
  rs1_value ← get_register_value base
  imm_value ← create_constant i64 offset
  target_addr ← create_binary_op BinaryOpcode.add i64 rs1_value imm_value
  mask ← create_constant i64 jalr_align_mask
  aligned_target ← create_binary_op BinaryOpcode.and i64 target_addr mask
  link_register inst rd
  pure (return (some aligned_target))

unfoldable pub lift_jalr : Instruction → Lift Terminator
unfolding indirect_jump
lift_jalr inst = do
  rd ← register_operand inst 0
  base ← register_operand inst 1
  offset ← immediate_operand inst 2
  if (rd == reg_zero && base == reg_ra) && offset == 0
      then pure (return none)
      else indirect_jump inst rd base offset

unfoldable pub lift_terminator_opcode : Opcode → Instruction → ℕ → Lift Terminator
lift_terminator_opcode Opcode.beq inst next = create_conditional_branch BinaryOpcode.eq inst next
lift_terminator_opcode Opcode.bne inst next = create_conditional_branch BinaryOpcode.ne inst next
lift_terminator_opcode Opcode.blt inst next = create_conditional_branch BinaryOpcode.lt inst next
lift_terminator_opcode Opcode.bge inst next = create_conditional_branch BinaryOpcode.ge inst next
lift_terminator_opcode Opcode.bltu inst next = create_conditional_branch BinaryOpcode.lt_u inst next
lift_terminator_opcode Opcode.bgeu inst next = create_conditional_branch BinaryOpcode.ge_u inst next
lift_terminator_opcode Opcode.jal inst next = lift_jal inst
lift_terminator_opcode Opcode.jalr inst next = lift_jalr inst
lift_terminator_opcode _ inst next = throw unsupported_instruction_error

unfoldable pub lift_terminator : Instruction → ℕ → Lift Terminator
unfolding lift_terminator_opcode lift_jal lift_jalr
lift_terminator inst fall_through_address =
    lift_terminator_opcode inst.opcode inst fall_through_address

-- The address behind an instruction: of the next one in the block, if there is one.
abbrev pub fall_through : Instruction → List Instruction → ℕ
fall_through inst [] = add64 inst.address 4
fall_through inst (next ∷ rest) = next.address

-- The walk of `liftBasicBlock` with the part after it. The loop stops at the first terminator;
-- the test on the last instruction of the block comes after the loop, as in the source.
-- `last` is `instructions.back()`, seen so far.
unfoldable pub last_is_terminator : List Instruction → Bool
unfolding is_terminator
last_is_terminator [] = false
last_is_terminator (inst ∷ []) = is_terminator inst
last_is_terminator (inst ∷ next ∷ rest) = last_is_terminator (next ∷ rest)

unfoldable pub next_address : List Instruction → ℕ
next_address [] = 0
next_address (inst ∷ []) = add64 inst.address 4
next_address (inst ∷ next ∷ rest) = next_address (next ∷ rest)

-- The default of `block.terminator` is the first alternative with its member zero.
abbrev pub default_terminator : Terminator
default_terminator = branch 0

unfoldable pub lift_loop : List Instruction → Lift Terminator
lift_loop [] = pure default_terminator
lift_loop (inst ∷ rest) =
    let more = lift_loop rest in
    if is_terminator inst
    then (finalize_register_writes >> lift_terminator inst (fall_through inst rest))
    else (lift_single_instruction inst >> more)

-- A lifter that starts on a block: the counter of value ids goes on from the blocks before.
abbrev pub start_block : Lifter → Lifter
start_block l = record l {
  cached_register_values = [];
  modified_registers = [];
  current_instructions = [];
}

unfoldable pub lift_end : List Instruction → Terminator → Lift Terminator
unfolding last_is_terminator next_address
lift_end instructions terminator =
    if last_is_terminator instructions
    then pure terminator
    else (finalize_register_writes >> pure (branch (next_address instructions)))

unfoldable pub lift_basic_block : List Instruction → Lift BasicBlock
unfolding lift_loop lift_end
lift_basic_block instructions l =
    (do
      found ← lift_loop instructions
      terminator ← lift_end instructions found
      λ l'. ok (record { instructions = l'.current_instructions; terminator = terminator }, l'))
      (start_block l)
