-- ===== src/Translator/Lifting.antt =====
-- From the bytes of a block to its intermediate representation: the decoder and the lifter of
-- `executeBlock` in lib/BinaryTranslator.cpp, one behind the other.
mod Tests
use mathlib.Core.Path.{subst}
use dinorisc.Prelude.{
  ℕ, ◌≡◌, refl, sym, ap, ◌∙◌, ◌⊎◌, inl, inr, true, false, some, List, [], ◌∷◌, ◌++◌, ok,
}
use dinorisc.Prelude.Words.{add64}
use dinorisc.Ir.Syntax.{BasicBlock}
use dinorisc.Ir.Meaning.{Machine}
use dinorisc.Riscv.Syntax.{Instruction, Opcode}
use dinorisc.Riscv.Decoder.Shape.{WellShaped}
use dinorisc.Riscv.Meaning.{Hart, is_taken, step_opcode, step, steps, next_pc_opcode, next_pc}
use dinorisc.Lifter.Builder.{Lifter}
use dinorisc.Lifter.Blocks.{opcode_is_terminator, lift_basic_block}
use dinorisc.Lifter.Simulation.Instructions.{is_translated}
use dinorisc.Lifter.Simulation.Terminators.{opcode_is_followed, is_followed}
use dinorisc.Lifter.Simulation.Walk.{IsBody}
use dinorisc.Lifter.Simulation.Blocks.{
  Reaches, hart_of, lift_basic_block-branch, lift_basic_block-fall_through,
}
use dinorisc.Translator.Blocks.{Text, decode_block}
use dinorisc.Translator.Decoding.{IsStraight, decode_block-IsStraight}

-- The lifter translates every opcode of the list as the manual has it.
abbrev pub AreTranslated : List Instruction → Type 0
AreTranslated [] = Unit
AreTranslated (inst ∷ rest) = (is_translated inst.opcode ≡ true) × AreTranslated rest

straight-parts :
    (pc : ℕ) (body : List Instruction) (inst : Instruction)
    → IsStraight pc (body ++ inst ∷ [])
    → AreTranslated body
    → IsBody body × WellShaped inst
straight-parts pc [] inst (a, sh, v, k, s) t = (tt, sh)
straight-parts pc (first ∷ body) inst (a, sh, v, k, s) (t, ts) =
    let (b, last) = straight-parts (add64 pc 4) body inst s ts in (((t, sh), b), last)

steps-append :
    (body : List Instruction) (inst : Instruction) (h : Hart)
    → steps (body ++ inst ∷ []) h ≡ step inst (steps body h)
unfolding steps
steps-append [] inst h = refl
steps-append (first ∷ body) inst h = steps-append body inst (step first h)

-- A terminator writes no register and no memory, and other instructions go on to the next address.
step_opcode-followed :
    (opcode : Opcode) (inst : Instruction) (h : Hart)
    → opcode_is_followed opcode inst ≡ true
    → step_opcode opcode inst h ≡ h
unfolding step_opcode opcode_is_followed opcode_is_terminator
step_opcode-followed Opcode.beq inst h e = refl
step_opcode-followed Opcode.bne inst h e = refl
step_opcode-followed Opcode.blt inst h e = refl
step_opcode-followed Opcode.bge inst h e = refl
step_opcode-followed Opcode.bltu inst h e = refl
step_opcode-followed Opcode.bgeu inst h e = refl
step_opcode-followed Opcode.jal inst h e = refl
step_opcode-followed Opcode.jalr inst h e = refl
step_opcode-followed _ inst h e = cc

next_pc_opcode-translated :
    (opcode : Opcode) (inst : Instruction) (h : Hart)
    → is_translated opcode ≡ true
    → next_pc_opcode opcode inst h ≡ add64 inst.address 4
unfolding next_pc_opcode is_taken is_translated
next_pc_opcode-translated Opcode.beq inst h e = cc
next_pc_opcode-translated Opcode.bne inst h e = cc
next_pc_opcode-translated Opcode.blt inst h e = cc
next_pc_opcode-translated Opcode.bge inst h e = cc
next_pc_opcode-translated Opcode.bltu inst h e = cc
next_pc_opcode-translated Opcode.bgeu inst h e = cc
next_pc_opcode-translated Opcode.jal inst h e = cc
next_pc_opcode-translated Opcode.jalr inst h e = cc
next_pc_opcode-translated _ inst h e = refl

-- The block does what the hart does from the first instruction to behind the last one.
abbrev pub Follows : Machine → BasicBlock → List Instruction → Instruction → Type 0
Follows m block body inst =
    Reaches m block (steps (body ++ inst ∷ []) (hart_of m)) (next_pc inst (steps body (hart_of m)))

-- A block that is decoded from the bytes of a section at an address, of instructions that the lifter
-- translates as the manual has them, with any of these or a branch, a jump that does not link or an
-- indirect jump that is no return at the end: it is lifted, and the lifted block takes every guest state
-- with a zero `x0` where a run of the instructions takes it, and to the program counter of that run.
pub decode_block-lifted :
    (text : Text) (pc : ℕ) (body : List Instruction) (inst : Instruction) (m : Machine) (l : Lifter)
    → decode_block text pc ≡ some (ok (body ++ inst ∷ []))
    → AreTranslated body
    → (is_translated inst.opcode ≡ true) ⊎ (is_followed inst ≡ true)
    → m.registers 0 ≡ 0
    → (block : BasicBlock) × (l' : Lifter) × (lift_basic_block (body ++ inst ∷ []) l
        ≡ ok (block, l'))
      × Follows m block body inst
unfolding step next_pc is_followed
decode_block-lifted text pc body inst m l e t last z =
    let h = hart_of m in
    let (b, sh) = straight-parts pc body inst (decode_block-IsStraight text pc e) t in
    elim last [
      | inl i ↦
          let (block, l', made, r) = lift_basic_block-fall_through m l body inst b (i, sh) z in
          (
            block,
            l',
            made,
            subst (Reaches m block (steps (body ++ inst ∷ []) h))
                (sym (next_pc_opcode-translated inst.opcode inst (steps body h) i)) r,
          )
      | inr f ↦
          let (block, l', made, r) = lift_basic_block-branch m l body inst b (f, sh) z in
          let still = step_opcode-followed inst.opcode inst (steps body h) f in
          (
            block,
            l',
            made,
            subst (λ k. Reaches m block k (next_pc inst (steps body h)))
                (sym (steps-append body inst h ∙ still)) r,
          )
    ]
