-- ===== src/Lowering/Constants/Tests.antt =====
-- A constant that takes all four chunks.
use dinorisc.Prelude.{arith}
use dinorisc.Ir.Syntax.{i64}
use dinorisc.Arm.Syntax.{virtual}
use dinorisc.Lowering.Constants.{select_const_into_register}
use dinorisc.Lowering.Constants.Meaning.{RegisterFile, Holds, run_moves, run_moves-select_const}

abbrev nines : RegisterFile
nines o = 99

run_moves-select_const_example :
    Holds
      (virtual 3)
      0x123456789ABCDEF0
      nines
      (run_moves (select_const_into_register i64 0x123456789ABCDEF0 (virtual 3)) nines)
run_moves-select_const_example =
    run_moves-select_const 0x123456789ABCDEF0 (virtual 3) nines (omega arith)
