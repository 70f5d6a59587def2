-- ===== src/Ir/Printing/Tests.antt =====
-- The text of a small block.
use dinorisc.Prelude.{◌≡◌, refl, arith, [], ◌∷◌, ◌++◌}
use dinorisc.Prelude.Text.{codes, decimal, signed_decimal}
use dinorisc.Ir.Syntax.{
  i64, BinaryOpcode, reg_read, const, binary_op, reg_write, branch, BasicBlock,
}
use dinorisc.Ir.Printing.{block_to_string}
use dinorisc.Ir.Printing.Blocks.{shown_instructions, block_to_string-injective}

abbrev small_block : BasicBlock
small_block = record {
  instructions =
      record { value_id = 1; kind = reg_read 5 }
      ∷ record { value_id = 2; kind = const i64 7 }
      ∷ record { value_id = 3; kind = binary_op BinaryOpcode.add i64 1 2 }
      ∷ record { value_id = 4; kind = reg_write 6 3 }
      ∷ [];
  terminator = branch 4100;
}

block_to_string_test :
    block_to_string small_block
    ≡ codes "BasicBlock:"
      ++ 10
        ∷ (codes "  %1 = regread x5"
            ++ 10
              ∷ (codes "  %2 = i64 7"
                  ++ 10
                    ∷ (codes "  %3 = add i64 %1, %2"
                        ++ 10
                          ∷ (codes "  regwrite x6, %3" ++ 10 ∷ (codes "  br bb4100" ++ 10 ∷ [])))))
unfolding block_to_string decimal signed_decimal
block_to_string_test = refl

-- The same block, but for the number of the register write, which is not printed.
abbrev renumbered_block : BasicBlock
renumbered_block = record {
  instructions =
      record { value_id = 1; kind = reg_read 5 }
      ∷ record { value_id = 2; kind = const i64 7 }
      ∷ record { value_id = 3; kind = binary_op BinaryOpcode.add i64 1 2 }
      ∷ record { value_id = 9; kind = reg_write 6 3 }
      ∷ [];
  terminator = branch 4100;
}

renumbered_text : block_to_string small_block ≡ block_to_string renumbered_block
unfolding block_to_string
renumbered_text = refl

block_to_string-injective_example :
    (shown_instructions small_block.instructions ≡ shown_instructions renumbered_block.instructions)
    × (small_block.terminator ≡ renumbered_block.terminator)
block_to_string-injective_example =
    block_to_string-injective small_block renumbered_block (tt, (omega arith, (tt, (tt, tt))))
      (tt, (omega arith, (tt, (tt, tt)))) renumbered_text
