-- ===== src/Arm/Encoder/Fields.antt =====
-- Reading back the fields of the words that the encoder writes.
use dinorisc.Prelude.{ℕ, ◌+◌, ◌*◌, ◌/◌, ◌%◌, ◌^◌, ◌<◌, ◌≡◌, ◌≢◌, refl, arith, ok, ok-injective}
use mathlib.Core.Path.{subst}
use dinorisc.Prelude.Bits.{bit_or-add, bit_or-zero}
use dinorisc.Arm.Syntax.{
  Register, register_number, Opcode, DataSize, byte, register, Instruction, three_operand,
}
use dinorisc.Arm.Operands.{get_sf_bit, encode_register}
use dinorisc.Arm.ThreeOperand.{
  shifted_register, data_processing, three_operand_opcode, encode_three_operand_inst,
}
use dinorisc.Arm.Encoder.{encode_word}

-- The registers and the size of a register form, at their places in the word.
pub record HasFields (w rd rn rm sf : ℕ) : Type 0 where
  pub rd_field : w % 2 ^ 5 ≡ rd
  pub rn_field : w / 2 ^ 5 % 2 ^ 5 ≡ rn
  pub rm_field : w / 2 ^ 16 % 2 ^ 5 ≡ rm
  pub sf_field : w / 2 ^ 31 ≡ sf

module _ (op sf rm rn rd : ℕ) (hs : sf < 2) (hm : rm < 32) (hn : rn < 32) (hd : rd < 32) where
  shifted_register_24 :
      op < 2 ^ 7
      → shifted_register op 24 22 sf rm rn rd
        ≡ sf * 2 ^ 31 + op * 2 ^ 24 + rm * 2 ^ 16 + rn * 2 ^ 5 + rd
  unfolding shifted_register
  shifted_register_24 h = ground (
    arith,
    bit_or-add 31 sf (op * 2 ^ 24),
    bit_or-zero (sf * 2 ^ 31 + op * 2 ^ 24),
    bit_or-add 24 (sf * 2 ^ 7 + op) (rm * 2 ^ 16),
    bit_or-zero (sf * 2 ^ 31 + op * 2 ^ 24 + rm * 2 ^ 16),
    bit_or-add 16 (sf * 2 ^ 15 + op * 2 ^ 8 + rm) (rn * 2 ^ 5),
    bit_or-add 5 (sf * 2 ^ 26 + op * 2 ^ 19 + rm * 2 ^ 11 + rn) rd,
  )

  shifted_register_25 :
      op < 2 ^ 6
      → shifted_register op 25 23 sf rm rn rd
        ≡ sf * 2 ^ 31 + op * 2 ^ 25 + rm * 2 ^ 16 + rn * 2 ^ 5 + rd
  unfolding shifted_register
  shifted_register_25 h = ground (
    arith,
    bit_or-add 31 sf (op * 2 ^ 25),
    bit_or-zero (sf * 2 ^ 31 + op * 2 ^ 25),
    bit_or-add 25 (sf * 2 ^ 6 + op) (rm * 2 ^ 16),
    bit_or-zero (sf * 2 ^ 31 + op * 2 ^ 25 + rm * 2 ^ 16),
    bit_or-add 16 (sf * 2 ^ 15 + op * 2 ^ 9 + rm) (rn * 2 ^ 5),
    bit_or-add 5 (sf * 2 ^ 26 + op * 2 ^ 20 + rm * 2 ^ 11 + rn) rd,
  )

  data_processing_21 :
      (low : ℕ)
      → op < 2 ^ 10
      → low < 2 ^ 6
      → data_processing op 21 low sf rm rn rd
        ≡ sf * 2 ^ 31 + op * 2 ^ 21 + rm * 2 ^ 16 + low * 2 ^ 10 + rn * 2 ^ 5 + rd
  unfolding data_processing
  data_processing_21 low h hl = ground (
    arith,
    bit_or-add 31 sf (op * 2 ^ 21),
    bit_or-add 21 (sf * 2 ^ 10 + op) (rm * 2 ^ 16),
    bit_or-add 16 (sf * 2 ^ 15 + op * 2 ^ 5 + rm) (low * 2 ^ 10),
    bit_or-add 10 (sf * 2 ^ 21 + op * 2 ^ 11 + rm * 2 ^ 6 + low) (rn * 2 ^ 5),
    bit_or-add 5 (sf * 2 ^ 26 + op * 2 ^ 16 + rm * 2 ^ 11 + low * 2 ^ 5 + rn) rd,
  )

pub encode_register_lem : (r : Register) → encode_register (register r) ≡ ok (register_number r)
unfolding encode_register
encode_register_lem Register.x0 = refl
encode_register_lem _ = refl

pub register_number-lt : (r : Register) → register_number r < 32
unfolding register_number
register_number-lt Register.x0 = omega arith
register_number-lt _ = omega arith

get_sf_bit-lt : (size : DataSize) → get_sf_bit size < 2
unfolding get_sf_bit
get_sf_bit-lt byte = omega arith
get_sf_bit-lt _ = omega arith

module _ (sf rn rd : ℕ) (m : Register) (hs : sf < 2) (hn : rn < 32) (hd : rd < 32) where
  -- The word of a register form has the fields, whatever its constant bits.
  fields_24 :
      (op : ℕ) {w : ℕ}
      → op < 2 ^ 7
      → ok (shifted_register op 24 22 sf (register_number m) rn rd) ≡ ok w
      → HasFields w rd rn (register_number m) sf
  fields_24 op h e =
      let bound = register_number-lt m in
      subst (λ w. HasFields w rd rn (register_number m) sf) (ok-injective e)
        (rw (shifted_register_24 op sf (register_number m) rn rd hs bound hn hd h) (omega arith))

  fields_25 :
      (op : ℕ) {w : ℕ}
      → op < 2 ^ 6
      → ok (shifted_register op 25 23 sf (register_number m) rn rd) ≡ ok w
      → HasFields w rd rn (register_number m) sf
  fields_25 op h e =
      let bound = register_number-lt m in
      subst (λ w. HasFields w rd rn (register_number m) sf) (ok-injective e)
        (rw (shifted_register_25 op sf (register_number m) rn rd hs bound hn hd h) (omega arith))

  fields_21 :
      (op low : ℕ) {w : ℕ}
      → op < 2 ^ 10
      → low < 2 ^ 6
      → ok (data_processing op 21 low sf (register_number m) rn rd) ≡ ok w
      → HasFields w rd rn (register_number m) sf
  fields_21 op low h hl e =
      let bound = register_number-lt m in
      subst (λ w. HasFields w rd rn (register_number m) sf) (ok-injective e)
        (rw (data_processing_21 op sf (register_number m) rn rd hs bound hn hd low h hl)
          (omega arith))

  three_operand_opcode-HasFields :
      (op : Opcode) {w : ℕ}
      → op ≢ Opcode.cmp
      → three_operand_opcode op sf (register m) rn rd ≡ ok w
      → HasFields w rd rn (register_number m) sf
  unfolding three_operand_opcode
  three_operand_opcode-HasFields Opcode.add c e =
      fields_24 0b0001011 (omega arith) (rw encode_register_lem at e)
  three_operand_opcode-HasFields Opcode.sub c e =
      fields_24 0b1001011 (omega arith) (rw encode_register_lem at e)
  three_operand_opcode-HasFields Opcode.and c e =
      fields_25 0b000101 (omega arith) (rw encode_register_lem at e)
  three_operand_opcode-HasFields Opcode.orr c e =
      fields_25 0b010101 (omega arith) (rw encode_register_lem at e)
  three_operand_opcode-HasFields Opcode.eor c e =
      fields_25 0b110101 (omega arith) (rw encode_register_lem at e)
  three_operand_opcode-HasFields Opcode.mul c e =
      fields_21 0b0011011000 31 (omega arith) (omega arith) (rw encode_register_lem at e)
  three_operand_opcode-HasFields Opcode.lsl c e =
      fields_21 0b0011010110 0b001000 (omega arith) (omega arith) (rw encode_register_lem at e)
  three_operand_opcode-HasFields Opcode.lsr c e =
      fields_21 0b0011010110 0b0110 (omega arith) (omega arith) (rw encode_register_lem at e)
  three_operand_opcode-HasFields Opcode.asr c e =
      fields_21 0b0011010110 0b1010 (omega arith) (omega arith) (rw encode_register_lem at e)
  three_operand_opcode-HasFields Opcode.cmp c e = absurd (c refl)
  three_operand_opcode-HasFields _ c e = cc

abbrev pub register_form : Opcode → DataSize → Register → Register → Register → Instruction
register_form op size d n m =
    three_operand
      (record { opcode = op; size = size; dest = register d; src1 = register n; src2 = register m })

-- Every register form of a three-operand instruction that is encoded, but CMP: the destination, the
-- two sources and the operand size stand in the word at the places of the ARM64 formats.
pub encode_word-HasFields :
    (op : Opcode) (size : DataSize) (d n m : Register) {w : ℕ}
    → op ≢ Opcode.cmp
    → encode_word (register_form op size d n m) ≡ ok w
    → HasFields w (register_number d) (register_number n) (register_number m) (get_sf_bit size)
unfolding encode_word encode_three_operand_inst
encode_word-HasFields op size d n m c e =
    three_operand_opcode-HasFields (get_sf_bit size) (register_number n) (register_number d) m
      (get_sf_bit-lt size) (register_number-lt n) (register_number-lt d) op c
      (rw (encode_register_lem d, encode_register_lem n) at e)

-- The shifts by a register differ in the six bits from bit 10 on, where the ARM64 formats have 8 for
-- LSLV, 9 for LSRV and 10 for ASRV. The encoder writes 8 for LSL and 10 for ASR, but 6 for LSR,
-- whatever the size and the registers.
pub encode_word-shift_bits :
    (size : DataSize) (d n m : Register) (left right sar : ℕ)
    → encode_word (register_form Opcode.lsl size d n m) ≡ ok left
    → encode_word (register_form Opcode.lsr size d n m) ≡ ok right
    → encode_word (register_form Opcode.asr size d n m) ≡ ok sar
    → (left / 2 ^ 10 % 2 ^ 6 ≡ 8) × (right / 2 ^ 10 % 2 ^ 6 ≡ 6) × (sar / 2 ^ 10 % 2 ^ 6 ≡ 10)
unfolding encode_word encode_three_operand_inst three_operand_opcode
encode_word-shift_bits size d n m left right sar el er ea =
    let rd = register_number-lt d in
    let rn = register_number-lt n in
    let rm = register_number-lt m in
    let sf = get_sf_bit-lt size in
    let word : ℕ → ℕ = λ low.
      data_processing 214 21 low (get_sf_bit size) (register_number m) (register_number n)
        (register_number d) in
    let bits : (low : ℕ) → low < 2 ^ 6 → word low / 2 ^ 10 % 2 ^ 6 ≡ low =
      λ low h. rw (data_processing_21 214 _ _ _ _ sf rm rn rd low (omega arith) h) (omega arith) in
    (
      rw
          (← ok-injective {a = word 8}
            (rw (encode_register_lem d, encode_register_lem n, encode_register_lem m) at el))
          (bits 8 (omega arith)),
      rw
          (← ok-injective {a = word 6}
            (rw (encode_register_lem d, encode_register_lem n, encode_register_lem m) at er))
          (bits 6 (omega arith)),
      rw
          (← ok-injective {a = word 10}
            (rw (encode_register_lem d, encode_register_lem n, encode_register_lem m) at ea))
          (bits 10 (omega arith)),
    )
