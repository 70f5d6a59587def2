-- ===== src/Translator/Blocks.antt =====
-- lib/BinaryTranslator.cpp: from the bytes of a block to machine code, and its execution.
use dinorisc.Prelude.{
  ℕ, zero, suc, ◌+◌, ◌-◌, ◌*◌, ◌/◌, Bool, ◌&&◌, none, some, Option, List, [], ◌∷◌, ◌++◌, ltb, leb,
  if◌then◌else◌, length, not, Result, ok, err, ◌>>=◌, map_ok, runtime_error, decoding_error,
  encoding_error,
}
use dinorisc.Prelude.Words.{add64, sub64}
use dinorisc.Riscv.Syntax.{Instruction, is_valid}
use dinorisc.Riscv.Decoder.{decode}
use dinorisc.Ir.Syntax.{BasicBlock}
use dinorisc.Lifter.Builder.{initial as initial_lifter}
use dinorisc.Lifter.Blocks.{is_terminator, lift_basic_block}
use dinorisc.Arm.Syntax.{Instruction as ArmInstruction}
use dinorisc.Arm.Encoder.{encode_instruction}
use dinorisc.Lowering.Builder.{initial as initial_selector}
use dinorisc.Lowering.Terminators.{select_instructions}
use dinorisc.Lowering.Liveness.{compute_live_intervals}
use dinorisc.Lowering.Allocator.{allocate_registers}
use dinorisc.Guest.{GuestState}

-- The host: its memory calls, and the call of the machine code, which changes the guest state and
-- returns the next program counter.
pub record Host : Type 0 where
  pub page_size : ℕ
  pub map_memory : ℕ → Bool
  pub protect : ℕ → Bool
  pub call : List ℕ → GuestState → ℕ × GuestState

unfoldable pub run_machine_code : Host → List ℕ → GuestState → Result (ℕ × GuestState)
run_machine_code host machine_code state =
    let size = length machine_code in
    let alloc_size = (size + host.page_size - 1) / host.page_size * host.page_size in
    if not (host.map_memory alloc_size)
    then err runtime_error
    else if not (host.protect alloc_size)
    then err runtime_error
    else ok (host.call machine_code state)

abbrev pub map_option : {A B : Type 0} → (A → B) → Option A → Option B
map_option f none = none
map_option f (some a) = some (f a)

-- The .text section.
pub record Text : Type 0 where
  pub bytes : List ℕ
  pub base_address : ℕ

unfoldable pub is_valid_pc : Text → ℕ → Bool
is_valid_pc text pc =
    leb text.base_address pc && ltb pc (add64 text.base_address (length text.bytes))

-- What the loop does with a decoded instruction, given the outcome of the rounds behind it.
unfoldable pub decode_round :
    Result Instruction → Option (Result (List Instruction)) → Option (Result (List Instruction))
decode_round (err e) more = some (err e)
decode_round (ok inst) more =
    if not (is_valid inst)
    then some (err decoding_error)
    else if is_terminator inst
    then some (ok (inst ∷ []))
    else map_option (map_ok (λ insts. inst ∷ insts)) more

-- `while (offset < size)`: each round that goes on adds 4 to the offset. `none` is fuel run out.
unfoldable pub decode_loop : ℕ → List ℕ → ℕ → ℕ → Option (Result (List Instruction))
unfolding decode_round
decode_loop zero bytes offset pc = none
decode_loop (suc fuel) bytes offset pc =
    let more = decode_loop fuel bytes (offset + 4) (add64 pc 4) in
    let round = decode_round (decode bytes offset pc) more in
    if ltb offset (length bytes) then round else some (ok [])

-- Fuel: a round for each byte, and one more.
unfoldable pub decode_block : Text → ℕ → Option (Result (List Instruction))
unfolding decode_loop
decode_block text pc =
    decode_loop (suc (length text.bytes)) text.bytes (sub64 pc text.base_address) pc

-- Whether the allocation succeeded is only printed.
unfoldable pub translate_to_arm64 : BasicBlock → Result (List ArmInstruction)
unfolding select_instructions compute_live_intervals allocate_registers
translate_to_arm64 ir_block = do
  (selected, s) ← select_instructions ir_block initial_selector
  (allocated, instructions) ← allocate_registers selected (compute_live_intervals selected)
  ok instructions

unfoldable pub encode_all : List ArmInstruction → Result (List ℕ)
unfolding encode_instruction
encode_all [] = ok []
encode_all (inst ∷ rest) = do
  encoded ← encode_instruction inst
  more ← encode_all rest
  ok (encoded ++ more)

-- The part of `executeBlock` behind the decoding.
unfoldable pub translate_block : List Instruction → Result (List ℕ)
unfolding lift_basic_block translate_to_arm64 encode_all
translate_block [] = err runtime_error
translate_block (inst ∷ rest) = do
  (ir_block, lifter) ← lift_basic_block (inst ∷ rest) initial_lifter
  instructions ← translate_to_arm64 ir_block
  machine_code ← encode_all instructions
  if leb (length machine_code) 0 then err encoding_error else ok machine_code

unfoldable pub run_decoded :
    Host → GuestState → Option (Result (List Instruction)) → Option (Result (ℕ × GuestState))
unfolding translate_block run_machine_code
run_decoded host state none = none
run_decoded host state (some decoded) = some (do
  block_instructions ← decoded
  machine_code ← translate_block block_instructions
  run_machine_code host machine_code state)

unfoldable pub execute_block : Host → Text → ℕ → GuestState → Option (Result (ℕ × GuestState))
unfolding is_valid_pc decode_block run_decoded
execute_block host text pc state =
    if not (is_valid_pc text pc)
    then some (err runtime_error)
    else run_decoded host state (decode_block text pc)
