-- ===== src/Translator/Dispatch.antt =====
-- lib/BinaryTranslator.cpp: set-up, the loop over the blocks, arguments and the result.
use dinorisc.Prelude.{
  ℕ, zero, suc, ◌+◌, ◌-◌, ◌*◌, ◌%◌, ◌^◌, Option, none, some, List, [], ◌∷◌, ltb, ◌==◌,
  if◌then◌else◌, Result, ok, err, Error, elf_error, runtime_error,
}
use Prim.Native.String.{String}
use dinorisc.Guest.{GuestState, update, write_register}
use dinorisc.Elf.{Image, ElfReader, load_file, get_function_address}
use dinorisc.Translator.Blocks.{Host, Text, execute_block}

abbrev pub shadow_memory_size : ℕ
shadow_memory_size = 8 * 1024 * 1024

abbrev pub stack_reserve : ℕ
stack_reserve = 1024

abbrev pub max_execution_blocks : ℕ
max_execution_blocks = 10000

-- The host address of the shadow memory, or `none` where it cannot be mapped.
unfoldable pub initialize_translator : Option ℕ → Result GuestState
initialize_translator none = err runtime_error
initialize_translator (some shadow_mem) = ok (record {
  x = update (λ _. 0) 2 (shadow_memory_size - stack_reserve);
  pc = 0;
  shadow_memory = shadow_mem;
  shadow_memory_size = shadow_memory_size;
  guest_memory_base = 0;
})

-- `for (i = 0; i < args.size() && i < 8; ++i)`; the index goes to a uint8_t.
unfoldable pub argument_loop : List ℕ → ℕ → GuestState → GuestState
argument_loop [] i state = state
argument_loop (arg ∷ rest) i state =
    let rest_set = argument_loop rest (i + 1) (write_register state ((10 + i) % 2 ^ 8) arg) in
    if ltb i 8 then rest_set else state

unfoldable pub set_argument_registers : List ℕ → GuestState → GuestState
unfolding argument_loop write_register
set_argument_registers args state = argument_loop args 0 state

-- `static_cast<int>`: the low 32 bits, as a pattern.
unfoldable pub get_return_value : GuestState → ℕ
get_return_value state = state.x 10 % 2 ^ 32

-- How the loop over the blocks ends: with the state, or with an error of a block. `stuck` is fuel of
-- the decoder run out.
pub data Outcome : Type 0 where
  finished : ℕ → GuestState → Outcome
  failed : Error → Outcome
  stuck : Outcome

-- The number of rounds left is `maxBlocks - blockCount`; the first component of `finished` is the
-- number of blocks after which the loop ended.
module _ (run : ℕ → GuestState → Option (Result (ℕ × GuestState))) where
  unfoldable pub after_block :
      Option (Result (ℕ × GuestState)) → (ℕ → GuestState → Outcome) → GuestState → ℕ → Outcome
  after_block none continue state count = stuck
  after_block (some (err e)) continue state count = failed e
  after_block (some (ok (next_pc, state'))) continue state count =
      if next_pc == 0 then finished count state' else continue next_pc state'

  unfoldable pub dispatch_loop : ℕ → ℕ → ℕ → GuestState → Outcome
  unfolding after_block
  dispatch_loop zero count current_pc state = finished count state
  dispatch_loop (suc rounds) count current_pc state =
      if current_pc == 0
      then finished count state
      else after_block (run current_pc (record state { pc = current_pc }))
          (dispatch_loop rounds (count + 1)) state count

-- The part of `executeFunction` behind the lookup of the function: the link register gets 0, so that
-- a return from the function ends the loop.
unfoldable pub run_found : Host → ElfReader → GuestState → Option ℕ → Outcome
unfolding dispatch_loop
run_found host reader state none = failed elf_error
run_found host reader state (some address) =
    let text : Text = record {
      bytes = reader.text_section.contents;
      base_address = reader.text_section.virtual_address;
    } in
    dispatch_loop (execute_block host text) max_execution_blocks 0 address
      (record state { x = update state.x 1 0; pc = address })

unfoldable pub execute_function : Host → Option Image → String → GuestState → Outcome
unfolding load_file run_found
execute_function host image function_name state = elim (load_file image) [
  | err e ↦ failed e
  | ok reader ↦ run_found host reader state (get_function_address reader function_name)
]
