-- ===== src/Translator/Tests.antt =====
-- The whole translator, with a host of which the machine code returns at once.
use dinorisc.Prelude.{◌-◌, List, ok, ℕ, ◌≡◌, ◌+◌, refl, arith, inr, ◌≢◌, ◌*◌, some, [], ◌∷◌, true}
use dinorisc.Arm.Syntax.{
  Opcode, double, x1, x2, x3, x30, register, register_number, Instruction, three_operand,
  two_operand,
}
use dinorisc.Arm.Operands.{encode_register, get_sf_bit, is_immediate}
use dinorisc.Arm.ThreeOperand.{encode_three_operand_inst, three_operand_opcode}
use dinorisc.Arm.TwoOperand.{encode_two_operand_inst, two_operand_opcode}
use dinorisc.Arm.Encoder.{encode_word, encode_instruction}
use dinorisc.Translator.Execution.{BlockRunner, Executes, dispatch_loop-halts}
use dinorisc.Translator.MachineCode.{words_of_bytes, AreWordsOf, encode_all-AreWordsOf}
use dinorisc.Guest.{GuestState}
use dinorisc.Elf.{Image, elfclass64, em_riscv, et_exec, shf_execinstr, sht_symtab}
use dinorisc.Translator.Blocks.{Host, encode_all}
use dinorisc.Translator.Dispatch.{
  finished, dispatch_loop, stuck, execute_function, set_argument_registers,
}
use dinorisc.Translator.Arguments.{
  set_argument_registers-argument, set_argument_registers-untouched,
}
use dinorisc.Translator.Totality.{execute_function-≢stuck}

abbrev pub plain_host : Host
plain_host = record {
  page_size = 4096;
  map_memory = λ _. true;
  protect = λ _. true;
  call = λ code state. (0, state);
}

-- `main` is `ret`.
abbrev pub ret_image : Image
ret_image = record {
  elf_class = elfclass64;
  machine = em_riscv;
  elf_type = et_exec;
  entry = 0x1000;
  sections =
      record {
        name = ".text";
        section_type = 1;
        flags = shf_execinstr;
        address = 0x1000;
        contents = some (0x67 ∷ 0x80 ∷ 0x00 ∷ 0x00 ∷ []);
        symbols = [];
      }
      ∷ record {
        name = ".symtab";
        section_type = sht_symtab;
        flags = 0;
        address = 0;
        contents = some [];
        symbols = some (record { name = "main"; value = 0x1000 }) ∷ [];
      }
      ∷ [];
}

abbrev pub fresh_state : GuestState
fresh_state = record {
  x = λ _. 0;
  pc = 0;
  shadow_memory = 0x10000;
  shadow_memory_size = 8 * 1024 * 1024;
  guest_memory_base = 0;
}

execute_function-≢stuck_example :
    execute_function plain_host (some ret_image) "main" fresh_state ≢ stuck
execute_function-≢stuck_example =
    execute_function-≢stuck plain_host (some ret_image) "main" fresh_state

set_argument_registers-argument_example :
    (set_argument_registers (7 ∷ 9 ∷ []) fresh_state).x (10 + 1) ≡ 9
set_argument_registers-argument_example =
    set_argument_registers-argument (7 ∷ 9 ∷ []) fresh_state 1 (omega arith) refl

set_argument_registers-untouched_example :
    (set_argument_registers (7 ∷ 9 ∷ []) fresh_state).x 12 ≡ fresh_state.x 12
set_argument_registers-untouched_example =
    set_argument_registers-untouched (7 ∷ 9 ∷ []) fresh_state 12 (inr (inr (omega arith)))

-- `add x1, x2, x3`, then `ret`.
abbrev two_insts : List Instruction
two_insts =
    three_operand (record {
      opcode = Opcode.add;
      size = double;
      dest = register x1;
      src1 = register x2;
      src2 = register x3;
    })
    ∷ two_operand
        (record { opcode = Opcode.ret; size = double; dest = register x30; src = register x30 })
    ∷ []

abbrev two_code : List ℕ
two_code = 0x41 ∷ 0x00 ∷ 0x03 ∷ 0x8B ∷ 0xC0 ∷ 0x03 ∷ 0x5F ∷ 0xD6 ∷ []

encode_all-two : encode_all two_insts ≡ ok two_code
unfolding encode_all encode_instruction encode_word encode_three_operand_inst three_operand_opcode
    encode_two_operand_inst two_operand_opcode encode_register register_number get_sf_bit
    is_immediate
encode_all-two = refl

encode_all-AreWordsOf_example : AreWordsOf two_insts (words_of_bytes two_code)
encode_all-AreWordsOf_example = encode_all-AreWordsOf two_insts encode_all-two

-- Each block goes on with the number below.
abbrev count_down : BlockRunner
count_down pc state = some (ok (pc - 1, state))

dispatch_loop-count_down :
    dispatch_loop count_down 5 0 3 fresh_state ≡ finished 2 (record fresh_state { pc = 1 })
unfolding dispatch_loop
dispatch_loop-count_down = refl

dispatch_loop-halts_example : Executes count_down 3 fresh_state (record fresh_state { pc = 1 })
dispatch_loop-halts_example =
    dispatch_loop-halts count_down 5 3 fresh_state 2 (record fresh_state { pc = 1 })
      dispatch_loop-count_down (omega arith)
