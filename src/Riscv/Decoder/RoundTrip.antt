-- ===== src/Riscv/Decoder/RoundTrip.antt =====
-- Decoding what the assembler wrote.
use dinorisc.Prelude.{ℕ, ◌+◌, ◌*◌, ◌/◌, ◌%◌, ◌^◌, ◌≤◌, ◌<◌, ◌-◌, ◌≢◌, ◌≡◌, refl, arith, List, ok}
use dinorisc.Prelude.Bits.{bit_and-high, bit_and-mask}
use dinorisc.Riscv.Syntax.{Opcode, Operand}
use dinorisc.Riscv.Fields.{DecodedFields, extract_u_type_immediate}
use dinorisc.Riscv.Opcodes.{determine_opcode}
use dinorisc.Riscv.Operands.{
  Format, r_type, i_type, s_type, b_type, u_type, j_type, system, format, extract_operands,
}
use dinorisc.Riscv.Decoder.{decode}
use dinorisc.Riscv.Decoder.Words.{word_bytes, read-word_bytes}
use dinorisc.Riscv.Decoder.Immediates.{
  layout, Fits, extract_fields-layout, extract_i-layout, extract_s-layout, extract_b-layout,
  extract_j-layout,
}
use dinorisc.Riscv.Decoder.Assembler.{
  Encoding, r_form, i_form, shift_form, s_form, b_form, u_form, j_form, system_form, encoding,
  Arguments, InRange, form_fields, form_operands, assemble, FormFits, encoding-FormFits,
  form_fields-Fits,
}

-- Decoding a word whose fields are known.
decode-layout :
    (f : DecodedFields) (op : Opcode) (operands : List Operand) (pc : ℕ)
    → Fits f
    → determine_opcode f ≡ ok op
    → extract_operands f op (layout f) ≡ ok operands
    → decode (word_bytes (layout f)) 0 pc
      ≡ ok (record { opcode = op; operands = operands; raw_instruction = layout f; address = pc })
unfolding decode
decode-layout f op operands pc h d o =
    rw (read-word_bytes (layout f) (omega arith), extract_fields-layout f h, d, o)

-- The format under which the decoder treats each form.
abbrev form_format : Encoding → Format
form_format (r_form _ _ _) = r_type
form_format (i_form _ _) = i_type
form_format (shift_form _ _ _ _) = i_type
form_format (s_form _ _) = s_type
form_format (b_form _ _) = b_type
form_format (u_form _) = u_type
form_format (j_form _) = j_type
form_format (system_form _) = system

encoding-format : (op : Opcode) → op ≢ Opcode.invalid → format op ≡ form_format (encoding op)
unfolding format
encoding-format Opcode.add h = refl
encoding-format Opcode.invalid h = absurd (h refl)
encoding-format _ h = refl

-- Each form's operands, with the immediate sign extended.
extract_operands-form :
    (e : Encoding) (a : Arguments) (op : Opcode)
    → FormFits e
    → InRange e a
    → format op ≡ form_format e
    → extract_operands (form_fields e a) op (layout (form_fields e a)) ≡ ok (form_operands e a)
unfolding extract_operands extract_u_type_immediate
extract_operands-form (r_form f7 f3 major) a op c h e = rw e
extract_operands-form (i_form f3 major) a op c h e =
    rw (e, extract_i-layout _ a.imm (form_fields-Fits (i_form f3 major) a c h) refl refl)
      (ground arith)
extract_operands-form (shift_form top bound f3 major) a op c h e =
    rw
      (
        e,
        extract_i-layout _ (top * bound + a.imm)
            (form_fields-Fits (shift_form top bound f3 major) a c h) refl (omega arith),
      )
      (ground arith)
extract_operands-form (s_form f3 major) a op c h e =
    rw (e, extract_s-layout _ a.imm (form_fields-Fits (s_form f3 major) a c h) refl refl)
      (ground arith)
extract_operands-form (b_form f3 major) a op c h e =
    rw (e, extract_b-layout _ a.imm (form_fields-Fits (b_form f3 major) a c h) h.imm.1 refl refl)
      (ground arith)
extract_operands-form (u_form major) a op c h e = rw e (
    ground (
      arith,
      bit_and-high 12 (layout (form_fields (u_form major) a) / 2 ^ 12) (2 ^ 20 - 1)
          (layout (form_fields (u_form major) a) % 2 ^ 12),
      bit_and-mask 20 a.imm,
    ))
extract_operands-form (j_form major) a op c h e =
    rw
      (
        e,
        extract_j-layout _ a.imm (form_fields-Fits (j_form major) a c h) h.imm.1 refl refl refl
            refl,
      )
      (ground arith)
extract_operands-form (system_form code) a op c h e = rw e

-- The decoder tells the instructions apart by their constant bits, but for SRAI with a shift
-- amount of 32 or more, whose funct7 is not the one that it looks for.
determine_opcode-form :
    (op : Opcode) (a : Arguments)
    → op ≢ Opcode.invalid
    → InRange (encoding op) a
    → (op ≡ Opcode.srai → a.imm < 32)
    → determine_opcode (form_fields (encoding op) a) ≡ ok op
unfolding determine_opcode
determine_opcode-form Opcode.add a v h s = refl
determine_opcode-form Opcode.invalid a v h s = absurd (v refl)
determine_opcode-form Opcode.srai a v h s = ground (arith, s refl)
determine_opcode-form Opcode.srli a v h s = ground arith
determine_opcode-form Opcode.srliw a v h s = ground arith
determine_opcode-form Opcode.sraiw a v h s = ground arith
determine_opcode-form _ a v h s = refl

-- Decoding an assembled instruction gives that instruction back, with its operands in order and the
-- immediate sign extended to 64 bits, for every instruction of the instruction set and operands
-- that its format can hold; SRAI is left out for shift amounts of 32 and more.
pub decode-assemble :
    (op : Opcode) (a : Arguments) (pc : ℕ)
    → op ≢ Opcode.invalid
    → InRange (encoding op) a
    → (op ≡ Opcode.srai → a.imm < 32)
    → decode (word_bytes (assemble op a)) 0 pc
      ≡ ok (record {
        opcode = op;
        operands = form_operands (encoding op) a;
        raw_instruction = assemble op a;
        address = pc;
      })
decode-assemble op a pc v h s =
    decode-layout (form_fields (encoding op) a) op (form_operands (encoding op) a) pc
      (form_fields-Fits (encoding op) a (encoding-FormFits op) h) (determine_opcode-form op a v h s)
      (extract_operands-form (encoding op) a op (encoding-FormFits op) h (encoding-format op v))

determine_opcode-srai :
    (a : Arguments)
    → InRange (encoding Opcode.srai) a
    → 32 ≤ a.imm
    → determine_opcode (form_fields (encoding Opcode.srai) a) ≡ ok Opcode.srli
unfolding determine_opcode
determine_opcode-srai a h s = ground arith

-- SRAI with a shift amount from 32 to 63, which the instruction set has for 64-bit registers, is
-- decoded as the logical shift SRLI, with the same operands.
pub decode-srai_wide :
    (a : Arguments) (pc : ℕ)
    → InRange (encoding Opcode.srai) a
    → 32 ≤ a.imm
    → decode (word_bytes (assemble Opcode.srai a)) 0 pc
      ≡ ok (record {
        opcode = Opcode.srli;
        operands = form_operands (encoding Opcode.srai) a;
        raw_instruction = assemble Opcode.srai a;
        address = pc;
      })
unfolding format
decode-srai_wide a pc h s =
    decode-layout (form_fields (encoding Opcode.srai) a) Opcode.srli
      (form_operands (encoding Opcode.srai) a) pc
      (form_fields-Fits (encoding Opcode.srai) a (encoding-FormFits Opcode.srai) h)
      (determine_opcode-srai a h s)
      (extract_operands-form (encoding Opcode.srai) a Opcode.srli (encoding-FormFits Opcode.srai) h
        refl)
