-- ===== src/Lifter/Simulation/Unsupported.antt =====
-- `liftBasicBlock` on a block with an instruction that the lifter does not support.
use dinorisc.Prelude.{
  ◌≡◌, refl, Bool, true, false, List, [], ◌∷◌, ◌++◌, err, unsupported_instruction_error,
}
use dinorisc.Prelude.Words.{shl64}
use dinorisc.Ir.Syntax.{i64, BinaryOpcode}
use dinorisc.Ir.Meaning.{Machine}
use dinorisc.Riscv.Syntax.{Instruction, Opcode, get_register, get_immediate}
use dinorisc.Riscv.Operands.{u_type, format}
use dinorisc.Riscv.Decoder.Shape.{Shaped, WellShaped}
use dinorisc.Riscv.Meaning.{Hart, register_at, immediate_at}
use dinorisc.Lifter.Builder.{Lifter, ◌>>=◌, ◌>>◌}
use dinorisc.Lifter.Patterns.{lift_opcode, lift_single_instruction}
use dinorisc.Lifter.Blocks.{opcode_is_terminator, is_terminator, lift_loop, lift_basic_block}
use dinorisc.Lifter.Simulation.Rules.{
  Simulates, Runs, Always, Runs-bind, Runs-register, Runs-immediate,
}
use dinorisc.Lifter.Simulation.Builder.{create_constant-Runs, create_binary_op-Runs}
use dinorisc.Lifter.Simulation.Registers.{set_register_value-Runs}
use dinorisc.Lifter.Simulation.Instructions.{is_translated, Shaped-OperandsThere, lift_opcode-Runs}
use dinorisc.Lifter.Simulation.Walk.{IsBody, opcode-inner}
use dinorisc.Lifter.Simulation.Blocks.{start_block-Simulates}

-- What the decoder knows and the lifter does not: the byte and half loads without sign, the narrow
-- stores, the word shifts by a register, and the system calls.
unfoldable pub is_refused : Opcode → Bool
is_refused Opcode.lbu = true
is_refused Opcode.lhu = true
is_refused Opcode.sb = true
is_refused Opcode.sh = true
is_refused Opcode.subw = true
is_refused Opcode.sllw = true
is_refused Opcode.srlw = true
is_refused Opcode.srliw = true
is_refused Opcode.sraw = true
is_refused Opcode.sraiw = true
is_refused Opcode.ecall = true
is_refused Opcode.ebreak = true
is_refused Opcode.invalid = true
is_refused _ = false

opcode-refused : (opcode : Opcode) → is_refused opcode ≡ true → opcode_is_terminator opcode ≡ false
unfolding is_refused opcode_is_terminator
opcode-refused Opcode.lbu e = refl
opcode-refused Opcode.lhu e = refl
opcode-refused Opcode.sb e = refl
opcode-refused Opcode.sh e = refl
opcode-refused Opcode.subw e = refl
opcode-refused Opcode.sllw e = refl
opcode-refused Opcode.srlw e = refl
opcode-refused Opcode.srliw e = refl
opcode-refused Opcode.sraw e = refl
opcode-refused Opcode.sraiw e = refl
opcode-refused Opcode.ecall e = refl
opcode-refused Opcode.ebreak e = refl
opcode-refused Opcode.invalid e = refl
opcode-refused _ e = cc

lift_opcode-refused :
    (opcode : Opcode) (inst : Instruction) (l : Lifter)
    → is_refused opcode ≡ true
    → lift_opcode opcode inst l ≡ err unsupported_instruction_error
unfolding is_refused lift_opcode
lift_opcode-refused Opcode.lbu inst l e = refl
lift_opcode-refused Opcode.lhu inst l e = refl
lift_opcode-refused Opcode.sb inst l e = refl
lift_opcode-refused Opcode.sh inst l e = refl
lift_opcode-refused Opcode.subw inst l e = refl
lift_opcode-refused Opcode.sllw inst l e = refl
lift_opcode-refused Opcode.srlw inst l e = refl
lift_opcode-refused Opcode.srliw inst l e = refl
lift_opcode-refused Opcode.sraw inst l e = refl
lift_opcode-refused Opcode.sraiw inst l e = refl
lift_opcode-refused Opcode.ecall inst l e = refl
lift_opcode-refused Opcode.ebreak inst l e = refl
lift_opcode-refused Opcode.invalid inst l e = refl
lift_opcode-refused _ inst l e = cc

-- LUI and AUIPC are lifted too, and the block stands for some hart behind them.
lift_upper-Runs :
    {m : Machine} {h : Hart} {l : Lifter} (inst : Instruction)
    → Simulates m h l
    → Shaped u_type inst.operands
    → (h' : Hart) × Runs m h' (lift_opcode Opcode.lui inst) l Always
unfolding lift_opcode get_register register_at get_immediate immediate_at
lift_upper-Runs inst s sh =
    let (h0, h1) = Shaped-OperandsThere u_type inst.operands sh in
    (
      _,
      Runs-immediate inst 1 _ h1 (
          Runs-bind (create_constant-Runs s i64 (shl64 (immediate_at inst 1) 12)) λ a l1 s1 k1 da.
            Runs-register inst 0 _ h0 (set_register_value-Runs (register_at inst 0) s1 da)),
    )

lift_pc_upper-Runs :
    {m : Machine} {h : Hart} {l : Lifter} (inst : Instruction)
    → Simulates m h l
    → Shaped u_type inst.operands
    → (h' : Hart) × Runs m h' (lift_opcode Opcode.auipc inst) l Always
unfolding lift_opcode get_register register_at get_immediate immediate_at
lift_pc_upper-Runs inst s sh =
    let (h0, h1) = Shaped-OperandsThere u_type inst.operands sh in
    (
      _,
      Runs-bind (create_constant-Runs s i64 inst.address) λ p l1 s1 k1 dp.
          Runs-immediate inst 1 _ h1 (
            Runs-bind (create_constant-Runs s1 i64 (shl64 (immediate_at inst 1) 12))
              λ a l2 s2 k2 da.
                Runs-bind (create_binary_op-Runs s2 BinaryOpcode.add i64 (k2.kept p _ _ dp) da)
                  λ c l3 s3 k3 dc.
                    Runs-register inst 0 _ h0 (set_register_value-Runs (register_at inst 0) s3 dc)),
    )

-- The opcodes that `liftSingleInstruction` supports.
unfoldable pub is_supported : Opcode → Bool
unfolding is_translated
is_supported Opcode.lui = true
is_supported Opcode.auipc = true
is_supported opcode = is_translated opcode

-- Instructions that the lifter supports, none of them a terminator.
abbrev pub IsSupported : List Instruction → Type 0
IsSupported [] = Unit
IsSupported (inst ∷ rest) = ((is_supported inst.opcode ≡ true) × WellShaped inst) × IsSupported rest

lift_supported-Runs :
    {m : Machine} {h : Hart} {l : Lifter} (opcode : Opcode) (inst : Instruction)
    → Simulates m h l
    → is_supported opcode ≡ true
    → Shaped (format opcode) inst.operands
    → (h' : Hart) × Runs m h' (lift_opcode opcode inst) l Always
unfolding is_supported is_translated format
lift_supported-Runs Opcode.lui inst s t sh = lift_upper-Runs inst s sh
lift_supported-Runs Opcode.auipc inst s t sh = lift_pc_upper-Runs inst s sh
lift_supported-Runs opcode inst s t sh = (_, lift_opcode-Runs inst s opcode t sh)

opcode-supported :
    (opcode : Opcode) → is_supported opcode ≡ true → opcode_is_terminator opcode ≡ false
unfolding is_supported opcode_is_terminator
opcode-supported Opcode.lui e = refl
opcode-supported Opcode.auipc e = refl
opcode-supported opcode e = opcode-inner opcode e

lift_loop-refused :
    {m : Machine} (body : List Instruction) (inst : Instruction) (rest : List Instruction)
    {h : Hart} {l : Lifter}
    → IsSupported body
    → is_refused inst.opcode ≡ true
    → Simulates m h l
    → lift_loop (body ++ inst ∷ rest) l ≡ err unsupported_instruction_error
unfolding lift_loop is_terminator lift_single_instruction
lift_loop-refused [] inst rest {l} b e s =
    rw (opcode-refused inst.opcode e, ◌>>◌, ◌>>=◌, lift_opcode-refused inst.opcode inst l e)
lift_loop-refused (a ∷ body) inst rest {l} ((t, sh), b) e s =
    let (h', r) = lift_supported-Runs a.opcode a s t sh in
    rw (opcode-supported a.opcode t, ◌>>◌, ◌>>=◌, r.runs)
      (lift_loop-refused body inst rest b e r.simulates)

-- A block with an instruction whose opcode the lifter does not support, behind instructions that it
-- supports and that are no terminators, is refused with the lifter's error, whatever comes behind it.
pub lift_basic_block-refused :
    (l : Lifter) (body : List Instruction) (inst : Instruction) (rest : List Instruction)
    → IsSupported body
    → is_refused inst.opcode ≡ true
    → lift_basic_block (body ++ inst ∷ rest) l ≡ err unsupported_instruction_error
unfolding lift_basic_block
lift_basic_block-refused l body inst rest b e =
    let m : Machine = record {
      values = λ v. 0;
      types = λ v. i64;
      registers = λ r. 0;
      memory = λ a. 0;
    } in
    rw (lift_loop-refused body inst rest b e (start_block-Simulates m l refl), ◌>>=◌)

opcode-translated : (opcode : Opcode) → is_translated opcode ≡ true → is_supported opcode ≡ true
unfolding is_supported is_translated
opcode-translated Opcode.lui e = cc
opcode-translated Opcode.auipc e = cc
opcode-translated opcode e = e

pub IsBody-IsSupported : (body : List Instruction) → IsBody body → IsSupported body
IsBody-IsSupported [] b = tt
IsBody-IsSupported (inst ∷ rest) ((t, sh), b) =
    ((opcode-translated inst.opcode t, sh), IsBody-IsSupported rest b)
