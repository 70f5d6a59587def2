-- ===== src/Translator/Decoding.antt =====
-- The blocks that the decoder's loop in lib/BinaryTranslator.cpp makes.
use mathlib.Core.Path.{subst}
use dinorisc.Prelude.{
  ℕ, zero, suc, ◌+◌, ◌≡◌, refl, ◌⊎◌, inl, inr, true, false, Option, none, some, of_some, List, [],
  ◌∷◌, ltb, Bool-cases, length, Result, ok, err, ok-injective,
}
use dinorisc.Prelude.Words.{add64, sub64}
use dinorisc.Riscv.Syntax.{Instruction, is_valid}
use dinorisc.Riscv.Decoder.{decode}
use dinorisc.Riscv.Decoder.Shape.{WellShaped, decode-WellShaped}
use dinorisc.Lifter.Blocks.{is_terminator}
use dinorisc.Translator.Blocks.{Text, decode_round, decode_loop, decode_block}

-- The instructions of a block from the address `pc` on: four bytes apart, each valid and with the operands
-- of its opcode, and no terminator but at the end.
abbrev pub IsStraight : ℕ → List Instruction → Type 0
IsStraight pc [] = Unit
IsStraight pc (inst ∷ rest) =
    (inst.address ≡ pc)
    × WellShaped inst
    × (is_valid inst ≡ true)
    × ((is_terminator inst ≡ false) ⊎ (rest ≡ []))
    × IsStraight (add64 pc 4) rest

same_block :
    (pc : ℕ) (made : List Instruction) {insts : List Instruction}
    → IsStraight pc made
    → some (ok made) ≡ some (ok insts)
    → IsStraight pc insts
same_block pc made s e = subst (IsStraight pc) (ok-injective (of_some e)) s

round-longer :
    (pc : ℕ) {insts : List Instruction} (inst : Instruction)
    (more : Option (Result (List Instruction)))
    → WellShaped inst × (inst.address ≡ pc)
    → is_valid inst ≡ true
    → is_terminator inst ≡ false
    → ((rest : List Instruction) → more ≡ some (ok rest) → IsStraight (add64 pc 4) rest)
    → decode_round (ok inst) more ≡ some (ok insts)
    → IsStraight pc insts
unfolding decode_round
round-longer pc inst none (sh, a) v f behind e = cc
round-longer pc inst (some (err x)) (sh, a) v f behind e = cc
round-longer pc inst (some (ok rest)) (sh, a) v f behind e =
    same_block pc (inst ∷ rest) (a, sh, v, inl f, behind rest refl) (rw (v, f) at e)

round-IsStraight :
    (pc : ℕ) {insts : List Instruction} (r : Result Instruction)
    (more : Option (Result (List Instruction)))
    → ((inst : Instruction) → r ≡ ok inst → WellShaped inst × (inst.address ≡ pc))
    → ((rest : List Instruction) → more ≡ some (ok rest) → IsStraight (add64 pc 4) rest)
    → decode_round r more ≡ some (ok insts)
    → IsStraight pc insts
unfolding decode_round
round-IsStraight pc (err x) more decoded behind e = cc
round-IsStraight pc (ok inst) more decoded behind e =
    let (sh, a) = decoded inst refl in
    elim (Bool-cases (is_valid inst)) [
      | inr v ↦ let wrong = rw v at e in cc
      | inl v ↦ elim (Bool-cases (is_terminator inst)) [
        | inl t ↦ same_block pc (inst ∷ []) (a, sh, v, inr refl, tt) (rw (v, t) at e)
        | inr f ↦ round-longer pc inst more (sh, a) v f behind e
      ]
    ]

decode_loop-IsStraight :
    (fuel : ℕ) (bytes : List ℕ) (offset pc : ℕ) {insts : List Instruction}
    → decode_loop fuel bytes offset pc ≡ some (ok insts)
    → IsStraight pc insts
unfolding decode_loop
decode_loop-IsStraight zero bytes offset pc e = cc
decode_loop-IsStraight (suc fuel) bytes offset pc e =
    elim (Bool-cases (ltb offset (length bytes))) [
      | inl t ↦
          round-IsStraight pc (decode bytes offset pc)
            (decode_loop fuel bytes (offset + 4) (add64 pc 4))
            (λ inst d. decode-WellShaped bytes offset pc d)
            (λ rest d. decode_loop-IsStraight fuel bytes (offset + 4) (add64 pc 4) d) (rw t at e)
      | inr f ↦ same_block pc [] tt (rw f at e)
    ]

-- A block that is decoded from any section at any address is straight: its instructions stand four
-- bytes apart from that address on, each valid and with the operands of its opcode, and a terminator is
-- only the last.
pub decode_block-IsStraight :
    (text : Text) (pc : ℕ) {insts : List Instruction}
    → decode_block text pc ≡ some (ok insts)
    → IsStraight pc insts
unfolding decode_block
decode_block-IsStraight text pc e =
    decode_loop-IsStraight (suc (length text.bytes)) text.bytes (sub64 pc text.base_address) pc e
