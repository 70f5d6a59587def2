-- ===== src/Lifter/Blocks/Defects.antt =====
-- Instructions for which the lifted block is not what the comments in lib/Lifter.cpp say.
use dinorisc.Prelude.{
  ℕ, ◌*◌, ◌^◌, ◌<◌, ◌≡◌, refl, arith, [], ◌∷◌, lookup, insert, add_member, ap, zero, suc, Result,
  ok, map_ok, ◌+◌,
}
use dinorisc.Prelude.Words.{add64}
use dinorisc.Riscv.Syntax.{Instruction, Opcode, register, immediate, get_register, get_immediate}
use dinorisc.Ir.Syntax.{ValueId, i64, const, reg_write, branch, BasicBlock}
use dinorisc.Lifter.Builder.{
  ◌>>=◌, Lifter, create_constant, set_register_value, finalize_register_writes,
}
use dinorisc.Lifter.Patterns.{lift_single_instruction}
use dinorisc.Lifter.Blocks.{lift_terminator, lift_basic_block}

abbrev pub jal_inst : ℕ → ℕ → ℕ → ℕ → Instruction
jal_inst rd offset raw address = record {
  opcode = Opcode.jal;
  operands = register rd ∷ immediate offset ∷ [];
  raw_instruction = raw;
  address = address;
}

set_register_value-instructions :
    (rd : ℕ) (value : ValueId) (l : Lifter)
    → (l' : Lifter) × (set_register_value rd value l ≡ ok (tt, l'))
      × (l'.current_instructions ≡ l.current_instructions)
unfolding set_register_value
set_register_value-instructions zero value l = (l, refl, refl)
set_register_value-instructions (suc rd) value l = (
  record l {
    cached_register_values = insert (suc rd) value l.cached_register_values;
    modified_registers = add_member (suc rd) l.modified_registers;
  },
  ground arith,
  refl,
)

abbrev pub block_of : Result (BasicBlock × Lifter) → Result BasicBlock
block_of r = map_ok (λ p. p.0) r

-- `JAL` alone in a block: the return address is computed, but the block holds no write of it to the
-- guest state, for any destination register: the registers were written back before the
-- terminator was lifted. The block is the one constant, and then goes to the target.
pub lift-jal_unlinked :
    (rd offset raw address : ℕ) (l : Lifter)
    → block_of (lift_basic_block (jal_inst rd offset raw address ∷ []) l)
      ≡ ok (record {
        instructions =
            record { value_id = l.next_value_id; kind = const i64 (add64 address 4) } ∷ [];
        terminator = branch (add64 address offset);
      })
unfolding lift_basic_block finalize_register_writes lift_terminator create_constant get_register
    get_immediate
lift-jal_unlinked rd offset raw address l =
    let made : Lifter = record {
      next_value_id = l.next_value_id + 1;
      cached_register_values = [];
      modified_registers = [];
      current_instructions =
          record { value_id = l.next_value_id; kind = const i64 (add64 address 4) } ∷ [];
    } in
    let (l', e, same) = set_register_value-instructions rd l.next_value_id made in
    rw (e, map_ok, ◌>>=◌)
      (ap (λ is. ok (record { instructions = is; terminator = branch (add64 address offset) }))
        same)

abbrev pub lui_inst : ℕ → ℕ → ℕ → ℕ → Instruction
lui_inst rd imm raw address = record {
  opcode = Opcode.lui;
  operands = register rd ∷ immediate imm ∷ [];
  raw_instruction = raw;
  address = address;
}

-- `LUI` alone in a block, as the decoder delivers it for the upper 20 bits `upper`: the value
-- written to the register is `upper` shifted by 24 bits, not by the 12 that the instruction asks
-- for, since the decoder's immediate is shifted already. `upper` is not negative here.
pub lift-lui_shifted_twice :
    (rd upper raw address : ℕ) (l : Lifter)
    → 0 < rd
    → upper < 2 ^ 19
    → block_of (lift_basic_block (lui_inst rd (upper * 2 ^ 12) raw address ∷ []) l)
      ≡ ok (record {
        instructions =
            record { value_id = l.next_value_id; kind = const i64 (upper * 2 ^ 24) }
            ∷ record { value_id = l.next_value_id + 1; kind = reg_write rd l.next_value_id }
            ∷ [];
        terminator = branch (add64 address 4);
      })
unfolding lift_basic_block finalize_register_writes lift_single_instruction create_constant
    set_register_value get_register get_immediate lookup insert add_member
lift-lui_shifted_twice rd upper raw address l h b = ground arith
