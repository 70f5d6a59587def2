-- ===== src/Translator/Refusal.antt =====
-- `executeBlock` on a block with an instruction that the lifter does not support.
use dinorisc.Prelude.{
  ℕ, ◌≡◌, refl, true, some, List, [], ◌∷◌, ◌++◌, ok, err, ◌>>=◌, unsupported_instruction_error,
}
use dinorisc.Prelude.Words.{add64}
use dinorisc.Riscv.Syntax.{Instruction}
use dinorisc.Guest.{GuestState}
use dinorisc.Lifter.Builder.{initial as initial_lifter}
use dinorisc.Lifter.Blocks.{lift_basic_block}
use dinorisc.Lifter.Simulation.Walk.{IsBody}
use dinorisc.Lifter.Simulation.Unsupported.{
  is_refused, lift_basic_block-refused, IsBody-IsSupported,
}
use dinorisc.Translator.Blocks.{
  Host, Text, is_valid_pc, decode_block, translate_block, run_decoded, execute_block,
}
use dinorisc.Translator.Decoding.{IsStraight, decode_block-IsStraight}
use dinorisc.Translator.Lifting.{AreTranslated}

straight-IsBody :
    (pc : ℕ) (body rest : List Instruction)
    → IsStraight pc (body ++ rest)
    → AreTranslated body
    → IsBody body
straight-IsBody pc [] rest s t = tt
straight-IsBody pc (first ∷ body) rest (a, sh, v, k, s) (t, ts) =
    ((t, sh), straight-IsBody (add64 pc 4) body rest s ts)

translate_block-refused :
    (body : List Instruction) (inst : Instruction) (rest : List Instruction)
    → lift_basic_block (body ++ inst ∷ rest) initial_lifter ≡ err unsupported_instruction_error
    → translate_block (body ++ inst ∷ rest) ≡ err unsupported_instruction_error
unfolding translate_block
translate_block-refused [] inst rest e = rw (e, ◌>>=◌) refl
translate_block-refused (first ∷ body) inst rest e = rw (e, ◌>>=◌) refl

-- When the block at a valid program counter has an instruction that the lifter does not support, behind
-- instructions that it translates as the manual has them, its execution fails with the lifter's error,
-- whatever the host and the guest state are.
pub execute_block-refused :
    (host : Host) (text : Text) (pc : ℕ) (state : GuestState) (body : List Instruction)
    (inst : Instruction) (rest : List Instruction)
    → is_valid_pc text pc ≡ true
    → decode_block text pc ≡ some (ok (body ++ inst ∷ rest))
    → AreTranslated body
    → is_refused inst.opcode ≡ true
    → execute_block host text pc state ≡ some (err unsupported_instruction_error)
unfolding execute_block run_decoded
execute_block-refused host text pc state body inst rest v d t e =
    let b = straight-IsBody pc body (inst ∷ rest) (decode_block-IsStraight text pc d) t in
    let lifted =
      lift_basic_block-refused initial_lifter body inst rest (IsBody-IsSupported body b) e in
    rw (v, d, ◌>>=◌, translate_block-refused body inst rest lifted) refl
