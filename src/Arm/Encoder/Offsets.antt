-- ===== src/Arm/Encoder/Offsets.antt =====
-- The offsets of loads and stores that are no element count: negative ones, and those out of range.
use dinorisc.Prelude.{
  ℕ, ◌+◌, ◌-◌, ◌*◌, ◌/◌, ◌%◌, ◌^◌, ◌<◌, ◌≤◌, ◌≡◌, refl, ap, ◌∙◌, arith, true, false, ◌&&◌, ltb, leb,
  ◌==◌, bit_or, bit_and, inl, inr, Bool-cases, ok, err, encoding_error,
}
use dinorisc.Prelude.Words.{shl32, shr}
use dinorisc.Prelude.Bits.{bit_or-add, bit_and-mask}
use dinorisc.Arm.Syntax.{Register, register_number, Opcode, DataSize, byte, half, word, double}
use dinorisc.Arm.Memory.{size_field, fits_imm9, memory_form, memory_opcode, encode_memory_inst}
use dinorisc.Arm.Encoder.Fields.{register_number-lt}
use dinorisc.Arm.Encoder.Accesses.{access, is_access, bytes_of, encode_memory_inst_lem}

size_field-lt : (size : DataSize) → size_field size < 4
unfolding size_field
size_field-lt byte = omega arith
size_field-lt _ = omega arith

-- The bits of an indexed access: the store's operation, 9 bits of offset, and the kind of indexing.
pub record IsIndexed (w offset low : ℕ) : Type 0 where
  pub op_bits : w / 2 ^ 22 % 2 ^ 8 ≡ 0b11100000
  pub offset_bits : w / 2 ^ 12 % 2 ^ 9 ≡ offset
  pub low_bits : w / 2 ^ 10 % 2 ^ 2 ≡ low

module _ (size low rn rt : ℕ) (hz : size < 4) (hl : low < 4) (hn : rn < 32) (ht : rt < 32) where
  indexed_word :
      (imm : ℕ)
      → imm < 512
      → bit_or
          (bit_or
            (bit_or
              (bit_or (bit_or (shl32 size 30) (shl32 0b11100000 22)) (shl32 imm 12))
              (shl32 low 10))
            (shl32 rn 5))
          rt
        ≡ size * 2 ^ 30 + 0b11100000 * 2 ^ 22 + imm * 2 ^ 12 + low * 2 ^ 10 + rn * 2 ^ 5 + rt
  indexed_word imm h = ground (
    arith,
    bit_or-add 30 size (0b11100000 * 2 ^ 22),
    bit_or-add 22 (size * 2 ^ 8 + 0b11100000) (imm * 2 ^ 12),
    bit_or-add 12 (size * 2 ^ 18 + 0b11100000 * 2 ^ 10 + imm) (low * 2 ^ 10),
    bit_or-add 10 (size * 2 ^ 20 + 0b11100000 * 2 ^ 12 + imm * 2 ^ 2 + low) (rn * 2 ^ 5),
    bit_or-add 5 (size * 2 ^ 25 + 0b11100000 * 2 ^ 17 + imm * 2 ^ 7 + low * 2 ^ 5 + rn) rt,
  )

  word_sum-IsIndexed :
      (imm : ℕ)
      → imm < 512
      → IsIndexed
          (size * 2 ^ 30 + 0b11100000 * 2 ^ 22 + imm * 2 ^ 12 + low * 2 ^ 10 + rn * 2 ^ 5 + rt)
          imm
          low
  word_sum-IsIndexed imm h = record {
    op_bits = omega (arith, h, hz, hl, hn, ht);
    offset_bits = omega (arith, h, hz, hl, hn, ht);
    low_bits = omega (arith, h, hz, hl, hn, ht);
  }

  memory_form-negative :
      (scaled n : ℕ)
      → 0 < n
      → n ≤ 256
      → (w : ℕ) × (memory_form scaled 0b11100000 low size (2 ^ 32 - n) rn rt ≡ ok w)
        × IsIndexed w (512 - n) low
  unfolding memory_form
  memory_form-negative scaled n p h =
      let test : (ltb (2 ^ 32 - n) (2 ^ 31) && (2 ^ 32 - n) % 2 ^ size == 0) ≡ false =
        ground (arith, h) in
      let fits : fits_imm9 (2 ^ 32 - n) ≡ true = ground (arith, p, h) in
      let field : bit_and (2 ^ 32 - n) 0x1FF ≡ 512 - n =
        bit_and-mask 9 (2 ^ 32 - n) ∙ omega (arith, p, h) in
      (
        _,
        rw (test, fits, field) (ap ok (indexed_word (512 - n) (omega (arith, p)))),
        word_sum-IsIndexed (512 - n) (omega (arith, p)),
      )

-- The kind of indexing that the encoder asks for: 3 is before the access, 1 is behind it.
abbrev pub indexing : Opcode → ℕ
indexing Opcode.ldr = 0b11
indexing _ = 0b01

-- A load or a store at a negative offset down to -256 is encoded as a store with a write-back of its
-- base: the operation bits are the store's for the load too, and the low bits ask for an index before
-- the access for a load and behind it for a store, where the access without write-back has 0.
pub encode_memory_inst-IsIndexed :
    (op : Opcode) (size : DataSize) (r b : Register) (n : ℕ)
    → is_access op ≡ true
    → 0 < n
    → n ≤ 256
    → (w : ℕ) × (encode_memory_inst (access op size r b (2 ^ 32 - n)) ≡ ok w)
      × IsIndexed w (512 - n) (indexing op)
unfolding is_access memory_opcode
encode_memory_inst-IsIndexed Opcode.ldr size r b n e p h =
    let (w, q, k) =
      memory_form-negative (size_field size) 3 _ _ (size_field-lt size) (omega arith)
        (register_number-lt b) (register_number-lt r) 0b11100101 n p h in
    (w, encode_memory_inst_lem Opcode.ldr size r b (2 ^ 32 - n) ∙ q, k)
encode_memory_inst-IsIndexed Opcode.str size r b n e p h =
    let (w, q, k) =
      memory_form-negative (size_field size) 1 _ _ (size_field-lt size) (omega arith)
        (register_number-lt b) (register_number-lt r) 0b11100100 n p h in
    (w, encode_memory_inst_lem Opcode.str size r b (2 ^ 32 - n) ∙ q, k)
encode_memory_inst-IsIndexed _ size r b n e p h = cc

-- Out of both ranges there is no form.
memory_form-far :
    (scaled unscaled low size offset rn rt : ℕ)
    → leb (shr offset size) 0xFFF ≡ false
    → fits_imm9 offset ≡ false
    → memory_form scaled unscaled low size offset rn rt ≡ err encoding_error
unfolding memory_form
memory_form-far scaled unscaled low size offset rn rt big far =
    elim (Bool-cases (ltb offset (2 ^ 31) && offset % 2 ^ size == 0)) [
      | inl t ↦ rw (t, big) refl
      | inr f ↦ rw (f, far) refl
    ]

above_scaled :
    (size : DataSize) (offset : ℕ)
    → 4096 * bytes_of size ≤ offset
    → leb (shr offset (size_field size)) 0xFFF ≡ false
unfolding size_field bytes_of
above_scaled byte offset h = ground (arith, h)
above_scaled half offset h = ground (arith, h)
above_scaled word offset h = ground (arith, h)
above_scaled double offset h = ground (arith, h)

above_imm9 :
    (size : DataSize) (offset : ℕ)
    → 4096 * bytes_of size ≤ offset
    → offset < 2 ^ 32 - 256
    → fits_imm9 offset ≡ false
unfolding bytes_of
above_imm9 byte offset h k = ground (arith, h, k)
above_imm9 half offset h k = ground (arith, h, k)
above_imm9 word offset h k = ground (arith, h, k)
above_imm9 double offset h k = ground (arith, h, k)

-- A load or a store at an offset of 4096 elements and more, or below -256, is refused with the
-- encoder's error.
pub encode_memory_inst-far :
    (op : Opcode) (size : DataSize) (r b : Register) (offset : ℕ)
    → is_access op ≡ true
    → 4096 * bytes_of size ≤ offset
    → offset < 2 ^ 32 - 256
    → encode_memory_inst (access op size r b offset) ≡ err encoding_error
unfolding is_access memory_opcode
encode_memory_inst-far Opcode.ldr size r b offset e h k =
    encode_memory_inst_lem Opcode.ldr size r b offset
    ∙ memory_form-far 0b11100101 0b11100000 0b11 (size_field size) offset (register_number b)
        (register_number r) (above_scaled size offset h) (above_imm9 size offset h k)
encode_memory_inst-far Opcode.str size r b offset e h k =
    encode_memory_inst_lem Opcode.str size r b offset
    ∙ memory_form-far 0b11100100 0b11100000 0b01 (size_field size) offset (register_number b)
        (register_number r) (above_scaled size offset h) (above_imm9 size offset h k)
encode_memory_inst-far _ size r b offset e h k = cc
