-- ===== src/CommandLine.antt =====
-- tools/dinorisc/DinoRISCMain.cpp: the arguments of the program, its exit code and its last line.
pub mod Arguments
mod Tests
use Prim.Native.String.{String}
use dinorisc.Prelude.{
  ℕ, ◌+◌, Option, none, some, List, [], ◌∷◌, ◌++◌, ltb, if◌then◌else◌, length, Result, ok, err,
  Error, bad_access,
}
use dinorisc.Prelude.Text.{Text, codes, signed_decimal}
use dinorisc.Guest.{GuestState}
use dinorisc.Elf.{Image}
use dinorisc.Translator.Blocks.{Host}
use dinorisc.Translator.Dispatch.{
  initialize_translator, set_argument_registers, get_return_value, Outcome, finished, failed, stuck,
  execute_function,
}

-- What `main` prints last: the usage, the argument that `std::stoull` throws on, the line of the result,
-- or the message of one of the project's errors.
pub data Message : Type 0 where
  usage : Message
  invalid_argument : String → Message
  returned : Text → Message
  reported : Error → Message

-- The program returns its exit code, or ends by an exception that `main` does not catch. `out_of_fuel`
-- is `stuck` of the translator.
pub data Ending : Type 0 where
  exits : ℕ → Message → Ending
  terminated : Ending
  out_of_fuel : Ending

-- The arguments that are looked at are all read as numbers, or one of them is not.
pub data Parsed : Type 0 where
  numbers : List ℕ → Parsed
  rejected : String → Parsed

-- The `catch` takes the project's exceptions; those of the C++ library pass it.
-- `bad_access` stands for those, and for a read of memory that is not there, which is undefined in C++.
unfoldable pub catch_error : Error → Ending
catch_error bad_access = terminated
catch_error e = exits 1 (reported e)

unfoldable pub print_outcome : String → Outcome → Ending
unfolding catch_error
print_outcome function_name (finished count state) = exits 0 (
    returned (
      codes "Function "
      ++ (codes function_name
          ++ (codes " returned: " ++ signed_decimal 32 (get_return_value state)))))
print_outcome function_name (failed e) = catch_error e
print_outcome function_name stuck = out_of_fuel

-- `std::stoull` is a parameter: the number of an argument, or `none` where it throws; so are the file
-- at a path as the ELF library reads it and the address of the mapped shadow memory.
module _ (stoull : String → Option ℕ) (file : String → Option Image) (host : Host)
    (shadow : Option ℕ) where
  unfoldable pub parse_arguments : List String → List ℕ → Parsed
  parse_arguments [] function_args = numbers function_args
  parse_arguments (arg ∷ rest) function_args =
      if ltb (length function_args) 8
      then elim (stoull arg) [
        | none ↦ rejected arg
        | some value ↦ parse_arguments rest (function_args ++ value ∷ [])
      ]
      else numbers function_args

  unfoldable pub translate : String → String → List ℕ → Result GuestState → Ending
  unfolding print_outcome catch_error
  translate input_path function_name function_args (err e) = catch_error e
  translate input_path function_name function_args (ok state) = print_outcome function_name (
      execute_function host (file input_path) function_name
        (set_argument_registers function_args state))

  unfoldable pub run_parsed : String → String → Parsed → Ending
  unfolding translate
  run_parsed input_path function_name (rejected arg) = exits 1 (invalid_argument arg)
  run_parsed input_path function_name (numbers function_args) =
      translate input_path function_name function_args (initialize_translator shadow)

  -- `argv` with the name of the program first.
  unfoldable pub main : List String → Ending
  unfolding parse_arguments run_parsed
  main (program ∷ input_path ∷ function_name ∷ rest) =
      run_parsed input_path function_name (parse_arguments rest [])
  main _ = exits 1 usage
