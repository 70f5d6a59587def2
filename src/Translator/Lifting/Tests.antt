-- ===== src/Translator/Lifting/Tests.antt =====
-- The bytes of a loop that counts down.
use dinorisc.Prelude.{
  ◌-◌, ◌*◌, ◌^◌, ◌≡◌, refl, inr, true, some, [], ◌∷◌, ok, err, unsupported_instruction_error,
}
use dinorisc.Ir.Syntax.{i64, BasicBlock}
use dinorisc.Ir.Meaning.{Machine}
use dinorisc.Riscv.Syntax.{Instruction, Opcode, register, immediate, is_valid}
use dinorisc.Riscv.Fields.{
  read_instruction_from_memory, extract_fields, extract_i_type_immediate, extract_b_type_immediate,
  sign_extend,
}
use dinorisc.Riscv.Opcodes.{determine_opcode}
use dinorisc.Riscv.Operands.{extract_operands}
use dinorisc.Riscv.Decoder.{decode}
use dinorisc.Lifter.Builder.{Lifter, initial}
use dinorisc.Lifter.Blocks.{opcode_is_terminator, is_terminator, lift_basic_block}
use dinorisc.Lifter.Simulation.Instructions.{is_translated}
use dinorisc.Lifter.Simulation.Terminators.{opcode_is_followed, is_followed}
use dinorisc.Translator.Blocks.{Text, is_valid_pc, decode_block, execute_block}
use dinorisc.Translator.Tests.{plain_host, fresh_state}
use dinorisc.Translator.Refusal.{execute_block-refused}
use dinorisc.Lifter.Simulation.Unsupported.{is_refused}
use dinorisc.Translator.Decoding.{IsStraight, decode_block-IsStraight}
use dinorisc.Translator.Lifting.{AreTranslated, Follows, decode_block-lifted}

-- `addi x5, x5, -1` and `bne x5, x0, -4`
abbrev loop_text : Text
loop_text = record {
  bytes = 0x93 ∷ 0x82 ∷ 0xF2 ∷ 0xFF ∷ 0xE3 ∷ 0x9E ∷ 0x02 ∷ 0xFE ∷ [];
  base_address = 0x1000;
}

abbrev decrement : Instruction
decrement = record {
  opcode = Opcode.addi;
  operands = register 5 ∷ register 5 ∷ immediate (2 ^ 64 - 1) ∷ [];
  raw_instruction = 0xFFF28293;
  address = 0x1000;
}

abbrev repeat : Instruction
repeat = record {
  opcode = Opcode.bne;
  operands = register 5 ∷ register 0 ∷ immediate (2 ^ 64 - 4) ∷ [];
  raw_instruction = 0xFE029EE3;
  address = 0x1004;
}

abbrev guest : Machine
guest = record { values = λ v. 0; types = λ v. i64; registers = λ r. r * 2; memory = λ a. 0 }

decode_loop_text : decode_block loop_text 0x1000 ≡ some (ok (decrement ∷ repeat ∷ []))
unfolding decode_block decode read_instruction_from_memory determine_opcode extract_fields
    extract_operands is_valid is_terminator extract_i_type_immediate extract_b_type_immediate
    sign_extend
decode_loop_text = refl

decode_block-IsStraight_example : IsStraight 0x1000 (decrement ∷ repeat ∷ [])
decode_block-IsStraight_example = decode_block-IsStraight loop_text 0x1000 decode_loop_text

decrement-AreTranslated : AreTranslated (decrement ∷ [])
unfolding is_translated
decrement-AreTranslated = (refl, tt)

repeat-followed : is_followed repeat ≡ true
unfolding is_followed opcode_is_followed opcode_is_terminator
repeat-followed = refl

decode_block-lifted_example :
    (block : BasicBlock) × (l' : Lifter) × (lift_basic_block (decrement ∷ repeat ∷ []) initial
      ≡ ok (block, l'))
    × Follows guest block (decrement ∷ []) repeat
decode_block-lifted_example =
    decode_block-lifted loop_text 0x1000 (decrement ∷ []) repeat guest initial decode_loop_text
      decrement-AreTranslated (inr repeat-followed) refl

-- `addi x5, x5, -1` and `lbu x6, 8(x2)`
abbrev byte_text : Text
byte_text = record {
  bytes = 0x93 ∷ 0x82 ∷ 0xF2 ∷ 0xFF ∷ 0x03 ∷ 0x43 ∷ 0x81 ∷ 0x00 ∷ [];
  base_address = 0x1000;
}

abbrev byte_load : Instruction
byte_load = record {
  opcode = Opcode.lbu;
  operands = register 6 ∷ register 2 ∷ immediate 8 ∷ [];
  raw_instruction = 0x00814303;
  address = 0x1004;
}

decode_byte_text : decode_block byte_text 0x1000 ≡ some (ok (decrement ∷ byte_load ∷ []))
unfolding decode_block decode read_instruction_from_memory determine_opcode extract_fields
    extract_operands is_valid is_terminator extract_i_type_immediate extract_b_type_immediate
    sign_extend
decode_byte_text = refl

byte_load-refused : is_refused byte_load.opcode ≡ true
unfolding is_refused
byte_load-refused = refl

byte_text_valid : is_valid_pc byte_text 0x1000 ≡ true
unfolding is_valid_pc
byte_text_valid = refl

execute_block-refused_example :
    execute_block plain_host byte_text 0x1000 fresh_state ≡ some (err unsupported_instruction_error)
execute_block-refused_example =
    execute_block-refused plain_host byte_text 0x1000 fresh_state (decrement ∷ []) byte_load []
      byte_text_valid decode_byte_text decrement-AreTranslated byte_load-refused
