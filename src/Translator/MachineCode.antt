-- ===== src/Translator/MachineCode.antt =====
-- The machine code of a block, in lib/BinaryTranslator.cpp and lib/ARM64/Encoder.cpp: the words of the
-- instructions, in order.
use mathlib.Core.Path.{subst}
use dinorisc.Prelude.{
  ℕ, ◌+◌, ◌*◌, ◌/◌, ◌%◌, ◌^◌, ◌≡◌, refl, sym, arith, List, [], ◌∷◌, ◌++◌, ok, >>=-eq-ok,
  ok-injective,
}
use dinorisc.Prelude.Bits.{bit_and-mask}
use dinorisc.Arm.Syntax.{Instruction}
use dinorisc.Arm.Encoder.{encode_word, encode_instruction, bytes_of_word}
use dinorisc.Translator.Blocks.{encode_all}

-- The words of a code, as an ARM64 machine fetches them: four bytes each, the lowest first.
abbrev pub words_of_bytes : List ℕ → List ℕ
words_of_bytes (a ∷ b ∷ c ∷ d ∷ rest) =
    (a + b * 2 ^ 8 + c * 2 ^ 16 + d * 2 ^ 24) ∷ words_of_bytes rest
words_of_bytes _ = []

-- `word` is the word that the encoder made of the instruction.
abbrev pub IsWordOf : Instruction → ℕ → Type 0
IsWordOf inst word = (encoded : ℕ) × (encode_word inst ≡ ok encoded) × (word ≡ encoded % 2 ^ 32)

abbrev pub AreWordsOf : List Instruction → List ℕ → Type 0
AreWordsOf [] [] = Unit
AreWordsOf (inst ∷ insts) (word ∷ words) = IsWordOf inst word × AreWordsOf insts words
AreWordsOf _ _ = ⊥

word-bytes_of_word :
    (w : ℕ) (rest : List ℕ)
    → words_of_bytes (bytes_of_word w ++ rest) ≡ (w % 2 ^ 32) ∷ words_of_bytes rest
unfolding bytes_of_word
word-bytes_of_word w rest = ground (
  arith,
  bit_and-mask 8 w,
  bit_and-mask 8 (w / 2 ^ 8),
  bit_and-mask 8 (w / 2 ^ 16),
  bit_and-mask 8 (w / 2 ^ 24),
)

-- The machine code of a sequence of instructions, when it is encoded, is exactly their words, one for
-- each instruction, in order and in the byte order of the machine.
pub encode_all-AreWordsOf :
    (insts : List Instruction) {code : List ℕ}
    → encode_all insts ≡ ok code
    → AreWordsOf insts (words_of_bytes code)
unfolding encode_all encode_instruction
encode_all-AreWordsOf [] e = subst (λ c. AreWordsOf [] (words_of_bytes c)) (ok-injective e) tt
encode_all-AreWordsOf (inst ∷ rest) e =
    let (bytes, d, e1) = >>=-eq-ok (encode_instruction inst) _ e in
    let (encoded, w, d1) = >>=-eq-ok (encode_word inst) _ d in
    let (more, m, e2) = >>=-eq-ok (encode_all rest) _ e1 in
    subst (λ c. AreWordsOf (inst ∷ rest) (words_of_bytes c)) (ok-injective e2)
      (subst (λ b. AreWordsOf (inst ∷ rest) (words_of_bytes (b ++ more))) (ok-injective d1)
        (subst (AreWordsOf (inst ∷ rest)) (sym (word-bytes_of_word encoded more))
          ((encoded, w, refl), encode_all-AreWordsOf rest m)))
