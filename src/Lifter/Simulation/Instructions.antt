-- ===== src/Lifter/Simulation/Instructions.antt =====
-- `liftSingleInstruction` against the steps of a hart.
use mathlib.Core.Path.{subst}
use dinorisc.Prelude.{
  ℕ, ◌+◌, ◌*◌, ◌%◌, ◌^◌, ◌≡◌, refl, ap, arith, Bool, true, false, List, [], ◌∷◌, get_elem?, ok,
}
use dinorisc.Prelude.Words.{widen}
use dinorisc.Ir.Syntax.{IrType, i8, i16, i32, i64, BinaryOpcode}
use dinorisc.Ir.Meaning.{Machine, binary_value, byte_size}
use dinorisc.Riscv.Syntax.{
  Instruction, Opcode, Operand, register, immediate, as_register, as_immediate, get_register,
  get_immediate,
}
use dinorisc.Riscv.Operands.{
  Format, r_type, i_type, s_type, b_type, u_type, j_type, system, illegal, format,
}
use dinorisc.Riscv.Decoder.Shape.{Shaped, WellShaped}
use dinorisc.Riscv.Meaning.{
  Hart, register_at, immediate_at, source, write_x, or_zero, compute, compute_imm, load_value,
  step_opcode, step,
}
use dinorisc.Lifter.Builder.{Lifter, Lift}
use dinorisc.Lifter.Patterns.{
  lift_opcode, lift_single_instruction, lift_r_type_binary_op, lift_i_type_binary_op,
  lift_load_instruction,
}
use dinorisc.Lifter.Simulation.Rules.{Simulates, Runs, Always, HasRegister, HasImmediate}
use dinorisc.Lifter.Simulation.Patterns.{
  lift_r_type-Runs, lift_i_type-Runs, lift_w_type-Runs, lift_w_type_imm-Runs, lift_load-Runs,
  lift_store_i64-Runs, lift_store_i32-Runs, extended_value,
}

-- The opcodes that `liftSingleInstruction` supports, but `LUI` and `AUIPC`.
unfoldable pub is_translated : Opcode → Bool
is_translated Opcode.add = true
is_translated Opcode.addi = true
is_translated Opcode.sub = true
is_translated Opcode.addw = true
is_translated Opcode.addiw = true
is_translated Opcode.and = true
is_translated Opcode.andi = true
is_translated Opcode.or = true
is_translated Opcode.ori = true
is_translated Opcode.xor = true
is_translated Opcode.xori = true
is_translated Opcode.sll = true
is_translated Opcode.slli = true
is_translated Opcode.srl = true
is_translated Opcode.srli = true
is_translated Opcode.sra = true
is_translated Opcode.srai = true
is_translated Opcode.slliw = true
is_translated Opcode.slt = true
is_translated Opcode.sltu = true
is_translated Opcode.slti = true
is_translated Opcode.sltiu = true
is_translated Opcode.lb = true
is_translated Opcode.lh = true
is_translated Opcode.ld = true
is_translated Opcode.lw = true
is_translated Opcode.lwu = true
is_translated Opcode.sd = true
is_translated Opcode.sw = true
is_translated _ = false

-- An instruction with the operands of a format has them at their places.
abbrev RegisterThere : List Operand → ℕ → Type 0
RegisterThere operands index =
    as_register (get_elem? operands index) ≡ ok (or_zero (as_register (get_elem? operands index)))

abbrev ImmediateThere : List Operand → ℕ → Type 0
ImmediateThere operands index =
    as_immediate (get_elem? operands index) ≡ ok (or_zero (as_immediate (get_elem? operands index)))

abbrev OperandsThere : Format → List Operand → Type 0
OperandsThere r_type o = RegisterThere o 0 × RegisterThere o 1 × RegisterThere o 2
OperandsThere i_type o = RegisterThere o 0 × RegisterThere o 1 × ImmediateThere o 2
OperandsThere s_type o = RegisterThere o 0 × RegisterThere o 1 × ImmediateThere o 2
OperandsThere b_type o = RegisterThere o 0 × RegisterThere o 1 × ImmediateThere o 2
OperandsThere u_type o = RegisterThere o 0 × ImmediateThere o 1
OperandsThere j_type o = RegisterThere o 0 × ImmediateThere o 1
OperandsThere _ o = Unit

pub Shaped-OperandsThere :
    (f : Format) (operands : List Operand) → Shaped f operands → OperandsThere f operands
Shaped-OperandsThere r_type (register a ∷ register b ∷ register c ∷ []) h = (refl, refl, refl)
Shaped-OperandsThere i_type (register a ∷ register b ∷ immediate i ∷ []) h = (refl, refl, refl)
Shaped-OperandsThere s_type (register a ∷ register b ∷ immediate i ∷ []) h = (refl, refl, refl)
Shaped-OperandsThere b_type (register a ∷ register b ∷ immediate i ∷ []) h = (refl, refl, refl)
Shaped-OperandsThere u_type (register a ∷ immediate i ∷ []) h = (refl, refl)
Shaped-OperandsThere j_type (register a ∷ immediate i ∷ []) h = (refl, refl)
Shaped-OperandsThere system [] h = tt
Shaped-OperandsThere illegal [] h = tt
Shaped-OperandsThere _ _ h = absurd h

low_sum : (a b : ℕ) → (a % 2 ^ 32 + b % 2 ^ 32) % 2 ^ 32 ≡ (a + b) % 2 ^ 32
low_sum a b = omega arith

low_sum_imm : (a i : ℕ) → (a % 2 ^ 32 + i % 2 ^ 32) % 2 ^ 32 ≡ (a + i % 2 ^ 64) % 2 ^ 32
low_sum_imm a i = omega arith

module _ {m : Machine} {h : Hart} {l : Lifter} (inst : Instruction) (s : Simulates m h l) where
  three_registers :
      Shaped r_type inst.operands → HasRegister inst 0 × HasRegister inst 1 × HasRegister inst 2
  unfolding get_register register_at
  three_registers sh = Shaped-OperandsThere r_type inst.operands sh

  registers_immediate :
      Shaped i_type inst.operands → HasRegister inst 0 × HasRegister inst 1 × HasImmediate inst 2
  unfolding get_register register_at get_immediate immediate_at
  registers_immediate sh = Shaped-OperandsThere i_type inst.operands sh

  -- The result of a pattern's computation, in the words of the manual.
  written :
      {n k : ℕ} {method : Lift (Unit {0})}
      → n ≡ k
      → Runs m (write_x (register_at inst 0) (widen 32 64 n) h) method l Always
      → Runs m (write_x (register_at inst 0) (widen 32 64 k) h) method l Always
  written {method} e r =
      subst (λ n. Runs m (write_x (register_at inst 0) (widen 32 64 n) h) method l Always) e r

  r_form :
      (opcode : BinaryOpcode)
      → Shaped r_type inst.operands
      → Runs m
          (compute (binary_value opcode 64) inst h)
          (lift_r_type_binary_op inst opcode i64)
          l
          Always
  r_form opcode sh =
      let (h0, h1, h2) = three_registers sh in lift_r_type-Runs inst s h0 h1 opcode h2

  i_form :
      (opcode : BinaryOpcode)
      → Shaped i_type inst.operands
      → Runs m
          (compute_imm (binary_value opcode 64) inst h)
          (lift_i_type_binary_op inst opcode i64)
          l
          Always
  i_form opcode sh =
      let (h0, h1, h2) = registers_immediate sh in lift_i_type-Runs inst s h0 h1 opcode h2

  load_form :
      (type : IrType) (sign_extend : Bool)
      → Shaped i_type inst.operands
      → Runs m
          (write_x
            (register_at inst 0)
            (extended_value type sign_extend (load_value (byte_size type) inst h))
            h)
          (lift_load_instruction inst type sign_extend)
          l
          Always
  load_form type sign_extend sh =
      let (h0, h1, h2) = registers_immediate sh in lift_load-Runs inst s h0 h1 h2 type sign_extend

  pub lift_opcode-Runs :
      (opcode : Opcode)
      → is_translated opcode ≡ true
      → Shaped (format opcode) inst.operands
      → Runs m (step_opcode opcode inst h) (lift_opcode opcode inst) l Always
  unfolding lift_opcode step_opcode format is_translated binary_value
  lift_opcode-Runs Opcode.add t sh = r_form BinaryOpcode.add sh
  lift_opcode-Runs Opcode.addi t sh = i_form BinaryOpcode.add sh
  lift_opcode-Runs Opcode.sub t sh = r_form BinaryOpcode.sub sh
  lift_opcode-Runs Opcode.addw t sh =
      let (h0, h1, h2) = three_registers sh in
      written (low_sum (source inst 1 h) (source inst 2 h))
        (lift_w_type-Runs inst s h0 h1 BinaryOpcode.add h2)
  lift_opcode-Runs Opcode.addiw t sh =
      let (h0, h1, h2) = registers_immediate sh in
      written (low_sum_imm (source inst 1 h) (immediate_at inst 2))
        (lift_w_type_imm-Runs inst s h0 h1 BinaryOpcode.add h2)
  lift_opcode-Runs Opcode.and t sh = r_form BinaryOpcode.and sh
  lift_opcode-Runs Opcode.andi t sh = i_form BinaryOpcode.and sh
  lift_opcode-Runs Opcode.or t sh = r_form BinaryOpcode.or sh
  lift_opcode-Runs Opcode.ori t sh = i_form BinaryOpcode.or sh
  lift_opcode-Runs Opcode.xor t sh = r_form BinaryOpcode.xor sh
  lift_opcode-Runs Opcode.xori t sh = i_form BinaryOpcode.xor sh
  lift_opcode-Runs Opcode.sll t sh = r_form BinaryOpcode.shl sh
  lift_opcode-Runs Opcode.slli t sh = i_form BinaryOpcode.shl sh
  lift_opcode-Runs Opcode.srl t sh = r_form BinaryOpcode.shr sh
  lift_opcode-Runs Opcode.srli t sh = i_form BinaryOpcode.shr sh
  lift_opcode-Runs Opcode.sra t sh = r_form BinaryOpcode.sar sh
  lift_opcode-Runs Opcode.srai t sh = i_form BinaryOpcode.sar sh
  lift_opcode-Runs Opcode.slliw t sh =
      let (h0, h1, h2) = registers_immediate sh in
      let amount : immediate_at inst 2 % 2 ^ 32 % 32 ≡ immediate_at inst 2 % 2 ^ 64 % 32 =
        omega arith in
      written (ap (λ k. source inst 1 h % 2 ^ 32 * 2 ^ k % 2 ^ 32) amount)
        (lift_w_type_imm-Runs inst s h0 h1 BinaryOpcode.shl h2)
  lift_opcode-Runs Opcode.slt t sh = r_form BinaryOpcode.lt sh
  lift_opcode-Runs Opcode.sltu t sh = r_form BinaryOpcode.lt_u sh
  lift_opcode-Runs Opcode.slti t sh = i_form BinaryOpcode.lt sh
  lift_opcode-Runs Opcode.sltiu t sh = i_form BinaryOpcode.lt_u sh
  lift_opcode-Runs Opcode.lb t sh = load_form i8 true sh
  lift_opcode-Runs Opcode.lh t sh = load_form i16 true sh
  lift_opcode-Runs Opcode.ld t sh = load_form i64 false sh
  lift_opcode-Runs Opcode.lw t sh = load_form i32 true sh
  lift_opcode-Runs Opcode.lwu t sh = load_form i32 false sh
  lift_opcode-Runs Opcode.sd t sh =
      let (h0, h1, h2) = registers_immediate sh in lift_store_i64-Runs inst s h0 h1 h2
  lift_opcode-Runs Opcode.sw t sh =
      let (h0, h1, h2) = registers_immediate sh in lift_store_i32-Runs inst s h0 h1 h2
  lift_opcode-Runs _ t sh = cc

  -- From a block that stands for a hart, a supported instruction is lifted, and the longer block stands
  -- for the hart after the instruction.
  pub lift_single_instruction-Runs :
      is_translated inst.opcode ≡ true
      → WellShaped inst
      → Runs m (step inst h) (lift_single_instruction inst) l Always
  unfolding lift_single_instruction step
  lift_single_instruction-Runs t sh = lift_opcode-Runs inst.opcode t sh
