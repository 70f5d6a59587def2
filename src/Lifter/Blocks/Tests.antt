-- ===== src/Lifter/Blocks/Tests.antt =====
-- Blocks of one instruction.
use dinorisc.Prelude.{◌*◌, ◌^◌, ◌≡◌, arith, [], ◌∷◌, ok}
use dinorisc.Prelude.Words.{add64}
use dinorisc.Ir.Syntax.{i64, const, reg_write, branch}
use dinorisc.Lifter.Builder.{initial}
use dinorisc.Lifter.Blocks.{lift_basic_block}
use dinorisc.Lifter.Blocks.Defects.{
  jal_inst, lui_inst, block_of, lift-jal_unlinked, lift-lui_shifted_twice,
}

-- `jal ra, 16`
lift-jal_unlinked_example :
    block_of (lift_basic_block (jal_inst 1 16 0x010000EF 0x1000 ∷ []) initial)
    ≡ ok (record {
      instructions = record { value_id = 1; kind = const i64 (add64 0x1000 4) } ∷ [];
      terminator = branch (add64 0x1000 16);
    })
lift-jal_unlinked_example = lift-jal_unlinked 1 16 0x010000EF 0x1000 initial

-- `lui x5, 0x12345`
lift-lui_shifted_twice_example :
    block_of (lift_basic_block (lui_inst 5 (0x12345 * 2 ^ 12) 0x123452B7 0x1000 ∷ []) initial)
    ≡ ok (record {
      instructions =
          record { value_id = 1; kind = const i64 (0x12345 * 2 ^ 24) }
          ∷ record { value_id = 2; kind = reg_write 5 1 }
          ∷ [];
      terminator = branch (add64 0x1000 4);
    })
lift-lui_shifted_twice_example =
    lift-lui_shifted_twice 5 0x12345 0x123452B7 0x1000 initial (omega arith) (omega arith)
