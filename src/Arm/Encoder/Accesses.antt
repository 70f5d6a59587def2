-- ===== src/Arm/Encoder/Accesses.antt =====
-- The loads and stores that the encoder makes: the fields of the word, and the two forms of the offset.
use dinorisc.Prelude.{
  ℕ, ◌+◌, ◌*◌, ◌/◌, ◌%◌, ◌^◌, ◌<◌, ◌≡◌, refl, ap, ◌∙◌, arith, Bool, true, false, ◌&&◌, ltb, leb,
  ◌==◌, bit_or, ok,
}
use dinorisc.Prelude.Words.{shl32}
use dinorisc.Prelude.Bits.{bit_or-add}
use dinorisc.Arm.Syntax.{
  Register, register_number, Opcode, DataSize, byte, half, word, double, register, MemoryInst,
}
use dinorisc.Arm.Memory.{size_field, memory_form, memory_opcode, encode_memory_inst}
use dinorisc.Arm.Encoder.Fields.{encode_register_lem, register_number-lt}

-- The size, the operation, the offset in elements and the registers of an access, at their places.
pub record IsAccess (w size op elements base reg : ℕ) : Type 0 where
  pub size_bits : w / 2 ^ 30 ≡ size
  pub op_bits : w / 2 ^ 22 % 2 ^ 8 ≡ op
  pub offset_bits : w / 2 ^ 10 % 2 ^ 12 ≡ elements
  pub base_bits : w / 2 ^ 5 % 2 ^ 5 ≡ base
  pub reg_bits : w % 2 ^ 5 ≡ reg

module _ (op size s rn rt : ℕ) (ho : op < 256) (hz : size < 4) (hs : s < 4096) (hn : rn < 32)
    (ht : rt < 32) where
  access_word :
      bit_or (bit_or (bit_or (bit_or (shl32 size 30) (shl32 op 22)) (shl32 s 10)) (shl32 rn 5)) rt
      ≡ size * 2 ^ 30 + op * 2 ^ 22 + s * 2 ^ 10 + rn * 2 ^ 5 + rt
  access_word = ground (
    arith,
    bit_or-add 30 size (op * 2 ^ 22),
    bit_or-add 22 (size * 2 ^ 8 + op) (s * 2 ^ 10),
    bit_or-add 10 (size * 2 ^ 20 + op * 2 ^ 12 + s) (rn * 2 ^ 5),
    bit_or-add 5 (size * 2 ^ 25 + op * 2 ^ 17 + s * 2 ^ 5 + rn) rt,
  )

  word_sum-IsAccess :
      IsAccess (size * 2 ^ 30 + op * 2 ^ 22 + s * 2 ^ 10 + rn * 2 ^ 5 + rt) size op s rn rt
  word_sum-IsAccess = record {
    size_bits = omega (arith, ho, hz, hs, hn, ht);
    op_bits = omega (arith, ho, hz, hs, hn, ht);
    offset_bits = omega (arith, ho, hz, hs, hn, ht);
    base_bits = omega (arith, ho, hz, hs, hn, ht);
    reg_bits = omega (arith, ho, hz, hs, hn, ht);
  }

  memory_form-scaled :
      (unscaled low offset : ℕ)
      → offset < 2 ^ 31
      → offset % 2 ^ size ≡ 0
      → offset / 2 ^ size ≡ s
      → (w : ℕ) × (memory_form op unscaled low size offset rn rt ≡ ok w)
        × IsAccess w size op s rn rt
  unfolding memory_form
  memory_form-scaled unscaled low offset small aligned elements =
      let test : (ltb offset (2 ^ 31) && offset % 2 ^ size == 0) ≡ true =
        ground (arith, small, aligned) in
      let fits : leb s 0xFFF ≡ true = ground (arith, hs) in
      (_, rw (test, elements, fits) (ap ok access_word), word_sum-IsAccess)

-- The bytes of an access, and the operation bits of the processor's table.
unfoldable pub bytes_of : DataSize → ℕ
bytes_of byte = 1
bytes_of half = 2
bytes_of word = 4
bytes_of double = 8

unfoldable pub is_access : Opcode → Bool
is_access Opcode.ldr = true
is_access Opcode.str = true
is_access _ = false

abbrev pub access_bits : Opcode → ℕ
access_bits Opcode.ldr = 0b11100101
access_bits _ = 0b11100100

abbrev pub access : Opcode → DataSize → Register → Register → ℕ → MemoryInst
access op size r b offset = record {
  opcode = op;
  size = size;
  reg = register r;
  base_reg = register b;
  offset = offset;
}

-- The registers are encoded first.
pub encode_memory_inst_lem :
    (op : Opcode) (size : DataSize) (r b : Register) (offset : ℕ)
    → encode_memory_inst (access op size r b offset)
      ≡ memory_opcode op (size_field size) offset (register_number b) (register_number r)
unfolding encode_memory_inst
encode_memory_inst_lem op size r b offset = rw (encode_register_lem r, encode_register_lem b) refl

module _ (r b : Register) (s : ℕ) (hs : s < 4096) where
  sized :
      (op : ℕ) (unscaled low : ℕ) (size : DataSize)
      → op < 256
      → (w : ℕ) × (memory_form op unscaled low
            (size_field size)
            (s * bytes_of size)
            (register_number b)
            (register_number r)
          ≡ ok w)
        × IsAccess w (size_field size) op s (register_number b) (register_number r)
  unfolding size_field bytes_of
  sized op unscaled low byte ho =
      memory_form-scaled op 0 s _ _ ho (omega arith) hs (register_number-lt b)
        (register_number-lt r) unscaled low (s * 1) (omega (arith, hs)) (omega arith) (omega arith)
  sized op unscaled low half ho =
      memory_form-scaled op 1 s _ _ ho (omega arith) hs (register_number-lt b)
        (register_number-lt r) unscaled low (s * 2) (omega (arith, hs)) (omega arith) (omega arith)
  sized op unscaled low word ho =
      memory_form-scaled op 2 s _ _ ho (omega arith) hs (register_number-lt b)
        (register_number-lt r) unscaled low (s * 4) (omega (arith, hs)) (omega arith) (omega arith)
  sized op unscaled low double ho =
      memory_form-scaled op 3 s _ _ ho (omega arith) hs (register_number-lt b)
        (register_number-lt r) unscaled low (s * 8) (omega (arith, hs)) (omega arith) (omega arith)

  -- A load or a store of physical registers at an offset of fewer than 4096 elements of its size is
  -- encoded, with the size, the operation of the processor's table, the offset in elements and both
  -- registers at their places in the word.
  pub encode_memory_inst-IsAccess :
      (op : Opcode) (size : DataSize)
      → is_access op ≡ true
      → (w : ℕ) × (encode_memory_inst (access op size r b (s * bytes_of size)) ≡ ok w)
        × IsAccess w (size_field size) (access_bits op) s (register_number b) (register_number r)
  unfolding is_access memory_opcode
  encode_memory_inst-IsAccess Opcode.ldr size e =
      let (w, p, q) = sized 0b11100101 0b11100000 0b11 size (omega arith) in
      (w, encode_memory_inst_lem Opcode.ldr size r b (s * bytes_of size) ∙ p, q)
  encode_memory_inst-IsAccess Opcode.str size e =
      let (w, p, q) = sized 0b11100100 0b11100000 0b01 size (omega arith) in
      (w, encode_memory_inst_lem Opcode.str size r b (s * bytes_of size) ∙ p, q)
  encode_memory_inst-IsAccess _ size e = cc
