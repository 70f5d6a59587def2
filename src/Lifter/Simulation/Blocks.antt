-- ===== src/Lifter/Simulation/Blocks.antt =====
-- `liftBasicBlock` against a run of the hart through the instructions of the block.
use mathlib.Core.Path.{subst}
use dinorisc.Prelude.{
  ℕ, ◌≡◌, refl, ◌∙◌, true, false, List, [], ◌∷◌, ◌++◌, lookup, contains, Result, ok, err,
}
use dinorisc.Prelude.Words.{add64}
use dinorisc.Ir.Syntax.{Terminator, branch, BasicBlock}
use dinorisc.Ir.Meaning.{Machine, run_instructions, terminator_target}
use dinorisc.Riscv.Syntax.{Instruction}
use dinorisc.Riscv.Meaning.{Hart, steps, next_pc}
use dinorisc.Lifter.Builder.{Lifter, Lift, ◌>>=◌}
use dinorisc.Lifter.Blocks.{
  is_terminator, last_is_terminator, next_address, start_block, lift_loop, lift_end,
  lift_basic_block,
}
use dinorisc.Lifter.Simulation.Rules.{Simulates, Runs, Runs-pure}
use dinorisc.Lifter.Simulation.WriteBack.{Ends, finalize_register_writes-Ends}
use dinorisc.Lifter.Simulation.Terminators.{is_followed, GoesTo}
use dinorisc.Lifter.Simulation.Walk.{
  IsInner, IsEnd, IsBody, opcode-inner, opcode-end, last-append, next_address-append, Ends-then,
  Runs-then, Runs-body, Ends-body,
}

-- The guest before the block, as a hart.
abbrev pub hart_of : Machine → Hart
hart_of m = record { x = m.registers; memory = m.memory }

-- The block, run on the machine `m`, leaves the registers and the memory of the hart `h` and goes on
-- to the address `pc`.
pub record Reaches (m : Machine) (block : BasicBlock) (h : Hart) (pc : ℕ) : Type 0 where
  pub same_registers : (reg : ℕ) → (run_instructions block.instructions m).registers reg ≡ h.x reg
  pub same_memory : (run_instructions block.instructions m).memory ≡ h.memory
  pub goes_to : terminator_target block.terminator (run_instructions block.instructions m) ≡ pc

pub start_block-Simulates :
    (m : Machine) (l : Lifter) → m.registers 0 ≡ 0 → Simulates m (hart_of m) (start_block l)
unfolding lookup contains run_instructions
start_block-Simulates m l z = record {
  same_memory = refl;
  cached = λ reg v e. cc;
  unmodified = λ reg e. refl;
  modified = λ reg e. cc;
  zero_x = z;
}

-- What is left to do after the loop: nothing, or the write-back and a branch to the next address.
lift_end-Runs :
    {m : Machine} {h : Hart} {l : Lifter} {pc : ℕ} (instructions : List Instruction)
    (terminator : Terminator)
    → last_is_terminator instructions ≡ true
    → Simulates m h l
    → GoesTo m pc terminator l
    → Runs m h (lift_end instructions terminator) l (GoesTo m pc)
unfolding lift_end
lift_end-Runs instructions terminator e s q = rw e (Runs-pure terminator s q)

lift_end-Ends :
    {m : Machine} {h : Hart} {l : Lifter} (instructions : List Instruction)
    (terminator : Terminator)
    → last_is_terminator instructions ≡ false
    → Simulates m h l
    → Ends m h (lift_end instructions terminator) l (GoesTo m (next_address instructions))
unfolding lift_end terminator_target
lift_end-Ends instructions terminator e s = rw e (
    Ends-then (finalize_register_writes-Ends s)
      λ u l1 s1 q. Runs-pure (branch (next_address instructions)) s1 refl)

bind_assoc :
    {A B C : Type 0} (r : Result (A × Lifter)) (g : A → Lift B) (k : B → Lift C) (l : Lifter)
    → ((λ _. r) >>= (λ a. g a >>= k)) l ≡ (((λ _. r) >>= g) >>= k) l
bind_assoc (ok (a, l')) g k l = refl
bind_assoc (err e) g k l = refl

-- The block is made of what the walk and its end leave.
block_of_walk :
    {m : Machine} {h : Hart} {pc : ℕ} (instructions : List Instruction) (l : Lifter)
    → Ends m h (lift_loop instructions >>= lift_end instructions) (start_block l) (GoesTo m pc)
    → (block : BasicBlock) × (l' : Lifter) × (lift_basic_block instructions l ≡ ok (block, l'))
      × Reaches m block h pc
unfolding lift_basic_block
block_of_walk {m} {h} {pc} instructions l e =
    let block : BasicBlock = record {
      instructions = e.left.current_instructions;
      terminator = e.result;
    } in
    (
      block,
      e.left,
      bind_assoc (lift_loop instructions (start_block l)) (lift_end instructions)
            (λ terminator l'.
              ok (record { instructions = l'.current_instructions; terminator = terminator }, l'))
            l
          ∙ rw (e.runs, ◌>>=◌),
      record {
        same_registers = e.flushed;
        same_memory = e.simulates.same_memory;
        goes_to = e.holds;
      },
    )

-- A block of instructions that the lifter supports, other than LUI and AUIPC, that ends with a branch,
-- a jump that does not link or an indirect jump that neither links nor is the return to `ra`: it is
-- lifted, and the lifted block takes every guest state with a zero `x0` where the instructions of the
-- block take it, and goes on to the next program counter.
pub lift_basic_block-branch :
    (m : Machine) (l : Lifter) (body : List Instruction) (inst : Instruction)
    → IsBody body
    → IsEnd inst
    → m.registers 0 ≡ 0
    → (block : BasicBlock) × (l' : Lifter) × (lift_basic_block (body ++ inst ∷ []) l
        ≡ ok (block, l'))
      × Reaches m block (steps body (hart_of m)) (next_pc inst (steps body (hart_of m)))
unfolding is_followed is_terminator
lift_basic_block-branch m l body inst b (f, sh) z =
    let whole = body ++ inst ∷ [] in
    let last = last-append body inst ∙ opcode-end inst.opcode inst f in
    block_of_walk whole l (
      Ends-then (Ends-body body inst b (f, sh) (start_block-Simulates m l z))
        λ terminator l1 s1 q. lift_end-Runs whole terminator last s1 q)

IsBody-append :
    (body : List Instruction) (inst : Instruction)
    → IsBody body
    → IsInner inst
    → IsBody (body ++ inst ∷ [])
IsBody-append [] inst b i = (i, tt)
IsBody-append (a ∷ rest) inst (ia, b) i = (ia, IsBody-append rest inst b i)

-- A block of instructions that the lifter supports, other than LUI and AUIPC, without a terminator: it
-- is lifted, and the lifted block takes every guest state
-- with a zero `x0` where the instructions of the block take it, and goes on to the address behind the
-- last one.
pub lift_basic_block-fall_through :
    (m : Machine) (l : Lifter) (body : List Instruction) (inst : Instruction)
    → IsBody body
    → IsInner inst
    → m.registers 0 ≡ 0
    → (block : BasicBlock) × (l' : Lifter) × (lift_basic_block (body ++ inst ∷ []) l
        ≡ ok (block, l'))
      × Reaches m block (steps (body ++ inst ∷ []) (hart_of m)) (add64 inst.address 4)
unfolding is_terminator
lift_basic_block-fall_through m l body inst b i z =
    let whole = body ++ inst ∷ [] in
    let last = last-append body inst ∙ opcode-inner inst.opcode i.0 in
    block_of_walk whole l (
      Runs-then (Runs-body whole (IsBody-append body inst b i) (start_block-Simulates m l z))
        λ terminator l1 s1 q.
          subst
            (λ pc. Ends m (steps whole (hart_of m)) (lift_end whole terminator) l1 (GoesTo m pc))
            (next_address-append body inst) (lift_end-Ends whole terminator last s1))
