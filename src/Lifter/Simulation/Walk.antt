-- ===== src/Lifter/Simulation/Walk.antt =====
-- The loop of `liftBasicBlock`: the instructions inside a block, and the terminator.
use dinorisc.Prelude.{ℕ, ◌≡◌, refl, ap, ◌∙◌, true, false, List, [], ◌∷◌, ◌++◌}
use dinorisc.Prelude.Words.{add64}
use dinorisc.Ir.Meaning.{Machine}
use dinorisc.Riscv.Syntax.{Instruction, Opcode}
use dinorisc.Riscv.Decoder.Shape.{WellShaped}
use dinorisc.Riscv.Meaning.{Hart, step, steps, next_pc}
use dinorisc.Lifter.Builder.{Lifter, Lift, ◌>>=◌}
use dinorisc.Lifter.Blocks.{
  opcode_is_terminator, is_terminator, last_is_terminator, next_address, default_terminator,
  lift_loop,
}
use dinorisc.Lifter.Simulation.Rules.{Simulates, Runs, Always, Runs-bind, Runs-pure}
use dinorisc.Lifter.Simulation.Instructions.{is_translated, lift_single_instruction-Runs}
use dinorisc.Lifter.Simulation.WriteBack.{Ends, finalize_register_writes-Ends}
use dinorisc.Lifter.Simulation.Terminators.{
  opcode_is_followed, is_followed, GoesTo, lift_terminator-Runs,
}

-- An instruction inside a block, and the last one.
abbrev pub IsInner : Instruction → Type 0
IsInner inst = (is_translated inst.opcode ≡ true) × WellShaped inst

abbrev pub IsEnd : Instruction → Type 0
IsEnd inst = (is_followed inst ≡ true) × WellShaped inst

abbrev pub IsBody : List Instruction → Type 0
IsBody [] = Unit
IsBody (inst ∷ rest) = IsInner inst × IsBody rest

pub opcode-inner :
    (opcode : Opcode) → is_translated opcode ≡ true → opcode_is_terminator opcode ≡ false
unfolding is_translated opcode_is_terminator
opcode-inner Opcode.beq e = cc
opcode-inner Opcode.bne e = cc
opcode-inner Opcode.blt e = cc
opcode-inner Opcode.bge e = cc
opcode-inner Opcode.bltu e = cc
opcode-inner Opcode.bgeu e = cc
opcode-inner Opcode.jal e = cc
opcode-inner Opcode.jalr e = cc
opcode-inner _ e = refl

pub opcode-end :
    (opcode : Opcode) (inst : Instruction)
    → opcode_is_followed opcode inst ≡ true
    → opcode_is_terminator opcode ≡ true
unfolding opcode_is_followed opcode_is_terminator
opcode-end Opcode.jal inst e = refl
opcode-end Opcode.jalr inst e = refl
opcode-end _ inst e = e

pub last-append :
    (body : List Instruction) (inst : Instruction)
    → last_is_terminator (body ++ inst ∷ []) ≡ is_terminator inst
unfolding last_is_terminator
last-append [] inst = refl
last-append (a ∷ []) inst = refl
last-append (a ∷ b ∷ rest) inst = last-append (b ∷ rest) inst

pub next_address-append :
    (body : List Instruction) (inst : Instruction)
    → next_address (body ++ inst ∷ []) ≡ add64 inst.address 4
unfolding next_address
next_address-append [] inst = refl
next_address-append (a ∷ []) inst = refl
next_address-append (a ∷ b ∷ rest) inst = next_address-append (b ∷ rest) inst

-- What comes after the registers are written back does not write them again.
pub Ends-then :
    {A B : Type 0} {m : Machine} {h : Hart} {method : Lift A} {rest : A → Lift B} {l : Lifter}
    {Q : A → Lifter → Type 0} {R : B → Lifter → Type 0}
    → Ends m h method l Q
    → ((a : A) (l' : Lifter) → Simulates m h l' → Q a l' → Runs m h (rest a) l' R)
    → Ends m h (method >>= rest) l R
Ends-then e k =
    let s = k e.result e.left e.simulates e.holds in
    record {
      result = s.result;
      left = s.left;
      runs = rw (e.runs, ◌>>=◌) s.runs;
      simulates = s.simulates;
      flushed = λ r. ap (λ (x : ℕ → ℕ). x r) s.extends.same_registers ∙ e.flushed r;
      holds = s.holds;
    }

-- What comes before the registers are written back.
pub Runs-then :
    {A B : Type 0} {m : Machine} {h h' : Hart} {method : Lift A} {rest : A → Lift B} {l : Lifter}
    {Q : A → Lifter → Type 0} {R : B → Lifter → Type 0}
    → Runs m h method l Q
    → ((a : A) (l' : Lifter) → Simulates m h l' → Q a l' → Ends m h' (rest a) l' R)
    → Ends m h' (method >>= rest) l R
Runs-then r k =
    let e = k r.result r.left r.simulates r.holds in
    record {
      result = e.result;
      left = e.left;
      runs = rw (r.runs, ◌>>=◌) e.runs;
      simulates = e.simulates;
      flushed = e.flushed;
      holds = e.holds;
    }

pub Runs-body :
    {m : Machine} (body : List Instruction) {h : Hart} {l : Lifter}
    → IsBody body
    → Simulates m h l
    → Runs m (steps body h) (lift_loop body) l Always
unfolding lift_loop steps step is_terminator
Runs-body [] b s = Runs-pure default_terminator s tt
Runs-body {m} (inst ∷ rest) {h} {l} ((t, sh), b) s =
    rw (opcode-inner inst.opcode t)
      (Runs-bind (lift_single_instruction-Runs inst s t sh) λ u l1 s1 k1 a. Runs-body rest b s1)

pub Ends-body :
    {m : Machine} (body : List Instruction) (inst : Instruction) {h : Hart} {l : Lifter}
    → IsBody body
    → IsEnd inst
    → Simulates m h l
    → Ends m
        (steps body h)
        (lift_loop (body ++ inst ∷ []))
        l
        (GoesTo m (next_pc inst (steps body h)))
unfolding lift_loop is_terminator is_followed steps step
Ends-body [] inst b (f, sh) s =
    rw (opcode-end inst.opcode inst f)
      (Ends-then (finalize_register_writes-Ends s) λ u l1 s1 q. lift_terminator-Runs inst s1 f sh)
Ends-body (a ∷ rest) inst ((t, sh), b) e s =
    rw (opcode-inner a.opcode t)
      (Runs-then (lift_single_instruction-Runs a s t sh) λ u l1 s1 q. Ends-body rest inst b e s1)
