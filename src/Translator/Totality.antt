-- ===== src/Translator/Totality.antt =====
-- The fuel of the decoder's loop and the rounds of the block loop in lib/BinaryTranslator.cpp.
use dinorisc.Prelude.{
  ℕ, zero, suc, ◌+◌, ◌<◌, ◌≢◌, refl, arith, inl, inr, Option, none, some, List, ltb, ltb→lt, ◌==◌,
  length, not, Bool-cases, Result, ok, err, Result-cases,
}
use Prim.Native.String.{String}
use dinorisc.Prelude.Words.{sub64}
use dinorisc.Riscv.Syntax.{Instruction}
use dinorisc.Riscv.Decoder.{decode}
use dinorisc.Elf.{Image, ElfReader, load_file, get_function_address}
use dinorisc.Guest.{GuestState}
use dinorisc.Translator.Blocks.{
  Host, Text, is_valid_pc, decode_round, decode_loop, decode_block, run_decoded, execute_block,
}
use dinorisc.Translator.Dispatch.{
  Outcome, stuck, after_block, run_found, dispatch_loop, max_execution_blocks, execute_function,
}

decode_round-≢none :
    (r : Result Instruction) (more : Option (Result (List Instruction)))
    → more ≢ none
    → decode_round r more ≢ none
unfolding decode_round
decode_round-≢none (err e) more h = λ p. cc
decode_round-≢none (ok inst) more h = λ p. ground (arith, h, p)

decode_loop-≢none :
    (fuel : ℕ) (bytes : List ℕ) (offset pc : ℕ)
    → 0 < fuel
    → length bytes < offset + fuel
    → decode_loop fuel bytes offset pc ≢ none
unfolding decode_loop
decode_loop-≢none zero bytes offset pc f h = omega (arith, f)
decode_loop-≢none (suc fuel) bytes offset pc f h = elim (Bool-cases (ltb offset (length bytes))) [
  | inl t ↦
      let inside = ltb→lt offset (length bytes) t in
      rw t (
        decode_round-≢none (decode bytes offset pc) _
          (decode_loop-≢none fuel bytes (offset + 4) _ (omega arith) (omega arith)))
  | inr t ↦ rw t (λ p. cc)
]

decode_block-≢none : (text : Text) (pc : ℕ) → decode_block text pc ≢ none
unfolding decode_block
decode_block-≢none text pc =
    decode_loop-≢none (suc (length text.bytes)) text.bytes (sub64 pc text.base_address) pc
      (omega arith) (omega arith)

run_decoded-≢none :
    (host : Host) (state : GuestState) (o : Option (Result (List Instruction)))
    → o ≢ none
    → run_decoded host state o ≢ none
unfolding run_decoded
run_decoded-≢none host state none h = absurd (h refl)
run_decoded-≢none host state (some decoded) h = λ p. cc

execute_block-≢none :
    (host : Host) (text : Text) (pc : ℕ) (state : GuestState)
    → execute_block host text pc state ≢ none
unfolding execute_block
execute_block-≢none host text pc state = elim (Bool-cases (not (is_valid_pc text pc))) [
  | inl t ↦ rw t (λ p. cc)
  | inr t ↦ rw t (run_decoded-≢none host state _ (decode_block-≢none text pc))
]

module _ (run : ℕ → GuestState → Option (Result (ℕ × GuestState)))
    (total : (pc : ℕ) (state : GuestState) → run pc state ≢ none) where
  after_block-≢stuck :
      (outcome : Option (Result (ℕ × GuestState))) (continue : ℕ → GuestState → Outcome)
      (state : GuestState) (count : ℕ)
      → outcome ≢ none
      → ((pc : ℕ) (state : GuestState) → continue pc state ≢ stuck)
      → after_block run outcome continue state count ≢ stuck
  unfolding after_block
  after_block-≢stuck none continue state count h k = absurd (h refl)
  after_block-≢stuck (some (err e)) continue state count h k = λ p. cc
  after_block-≢stuck (some (ok (next_pc, state'))) continue state count h k =
      elim (Bool-cases (next_pc == 0)) [ inl t ↦ rw t (λ p. cc) | inr t ↦ rw t (k next_pc state') ]

  dispatch_loop-≢stuck :
      (rounds count pc : ℕ) (state : GuestState) → dispatch_loop run rounds count pc state ≢ stuck
  unfolding dispatch_loop
  dispatch_loop-≢stuck zero count pc state = λ p. cc
  dispatch_loop-≢stuck (suc rounds) count pc state = elim (Bool-cases (pc == 0)) [
    | inl t ↦ rw t (λ p. cc)
    | inr t ↦
        rw t (
          after_block-≢stuck _ _ state count (total pc _) (dispatch_loop-≢stuck rounds (count + 1)))
  ]

reached-≢stuck :
    (host : Host) (reader : ElfReader) (state : GuestState) (found : Option ℕ)
    → run_found host reader state found ≢ stuck
unfolding run_found
reached-≢stuck host reader state none = λ p. cc
reached-≢stuck host reader state (some address) =
    dispatch_loop-≢stuck _ (execute_block-≢none host _) max_execution_blocks 0 address _

-- Whatever the image, the function and the host do, `executeFunction` ends: with a final state or with
-- an error. The fuel that the model gives to the decoder's loop never runs out.
pub execute_function-≢stuck :
    (host : Host) (image : Option Image) (name : String) (state : GuestState)
    → execute_function host image name state ≢ stuck
unfolding execute_function
execute_function-≢stuck host image name state = elim (Result-cases (load_file image)) [
  | inl (reader, e) ↦
      rw (e, execute_function) (reached-≢stuck host reader state (get_function_address reader name))
  | inr (x, e) ↦ rw (e, execute_function) (λ p. cc)
]
