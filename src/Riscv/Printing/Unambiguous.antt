-- ===== src/Riscv/Printing/Unambiguous.antt =====
-- Two instructions with the same text are the same.
use mathlib.Core.List.{tail-eq_of_cons-eq}
use dinorisc.Prelude.{ℕ, ◌^◌, ◌<◌, ◌≡◌, ◌≢◌, refl, sym, ap, arith, true, some, List, [], ◌∷◌, ◌++◌}
use dinorisc.Prelude.Text.{Text, codes, decimal, signed_decimal, hexadecimal, pad}
use dinorisc.Prelude.Text.Names.{named, named-injective}
use dinorisc.Prelude.Text.Reading.{
  decimal-injective, hexadecimal-injective, pad-hexadecimal-injective,
}
use dinorisc.Prelude.Text.Separators.{
  Avoids, Begins, split_at, decimal-Avoids, hexadecimal-Avoids, hexadecimal-Avoids-bracket,
  pad-Avoids, absent, cancel, signed_decimal-injective, signed_decimal-Avoids,
  signed_decimal-Avoids-letter, avoids, avoids-Avoids,
}
use dinorisc.Riscv.Syntax.{Opcode, Operand, register, immediate, Instruction, is_valid}
use dinorisc.Riscv.Printing.{
  opcode_to_string, operand_to_string, more_operands, operands_text, to_string,
}

abbrev opcodes : List Opcode
opcodes =
    Opcode.add ∷ Opcode.addi ∷ Opcode.addw ∷ Opcode.addiw ∷ Opcode.sub ∷ Opcode.subw ∷ Opcode.and
    ∷ Opcode.andi ∷ Opcode.or ∷ Opcode.ori ∷ Opcode.xor ∷ Opcode.xori ∷ Opcode.sll ∷ Opcode.slli
    ∷ Opcode.sllw ∷ Opcode.slliw ∷ Opcode.srl ∷ Opcode.srli ∷ Opcode.srlw ∷ Opcode.srliw
    ∷ Opcode.sra ∷ Opcode.srai ∷ Opcode.sraw ∷ Opcode.sraiw ∷ Opcode.slt ∷ Opcode.slti ∷ Opcode.sltu
    ∷ Opcode.sltiu ∷ Opcode.lb ∷ Opcode.lh ∷ Opcode.lw ∷ Opcode.ld ∷ Opcode.lbu ∷ Opcode.lhu
    ∷ Opcode.lwu ∷ Opcode.sb ∷ Opcode.sh ∷ Opcode.sw ∷ Opcode.sd ∷ Opcode.beq ∷ Opcode.bne
    ∷ Opcode.blt ∷ Opcode.bge ∷ Opcode.bltu ∷ Opcode.bgeu ∷ Opcode.jal ∷ Opcode.jalr ∷ Opcode.lui
    ∷ Opcode.auipc ∷ Opcode.ecall ∷ Opcode.ebreak ∷ Opcode.invalid ∷ []

named-opcode_to_string :
    (opcode : Opcode) → named opcode_to_string (opcode_to_string opcode) opcodes ≡ some opcode
unfolding named opcode_to_string
named-opcode_to_string Opcode.add = refl
named-opcode_to_string _ = refl

opcode_to_string-avoids : (opcode : Opcode) → avoids 32 (opcode_to_string opcode) ≡ true
unfolding avoids opcode_to_string
opcode_to_string-avoids Opcode.add = refl
opcode_to_string-avoids _ = refl

-- The value of an operand has up to 64 bits.
abbrev pub IsOperandWord : Operand → Type 0
IsOperandWord (register value) = value < 2 ^ 64
IsOperandWord (immediate value) = value < 2 ^ 64

abbrev pub AreOperandWords : List Operand → Type 0
AreOperandWords [] = Unit
AreOperandWords (op ∷ rest) = IsOperandWord op × AreOperandWords rest

not_a_register : (a b : ℕ) → b < 2 ^ 64 → 120 ∷ decimal a ≢ signed_decimal 64 b
not_a_register a b h =
    absent 120 (signed_decimal 64 b) (decimal a)
      (signed_decimal-Avoids-letter 120 b (omega arith) h)

operand_to_string-injective :
    (a b : Operand)
    → IsOperandWord a
    → IsOperandWord b
    → operand_to_string a ≡ operand_to_string b
    → a ≡ b
unfolding operand_to_string
operand_to_string-injective (register x) (register y) h k e =
    ap register (decimal-injective (tail-eq_of_cons-eq e))
operand_to_string-injective (register x) (immediate y) h k e = absurd (not_a_register x y k e)
operand_to_string-injective (immediate x) (register y) h k e = absurd (not_a_register y x h (sym e))
operand_to_string-injective (immediate x) (immediate y) h k e =
    ap immediate (signed_decimal-injective 64 h k e)

register-Avoids : (x : ℕ) → Avoids 44 (codes "x" ++ decimal x)
register-Avoids x = ((λ e. cc), decimal-Avoids 44 x (omega arith))

immediate-Avoids : (x : ℕ) → Avoids 44 (signed_decimal 64 x)
immediate-Avoids x = signed_decimal-Avoids 44 64 x (omega arith)

operand_to_string-Avoids : (op : Operand) → Avoids 44 (operand_to_string op)
unfolding operand_to_string
operand_to_string-Avoids (register x) = register-Avoids x
operand_to_string-Avoids (immediate x) = immediate-Avoids x

more_operands-Begins : (operands : List Operand) → Begins 44 (more_operands operands)
unfolding more_operands
more_operands-Begins [] = tt
more_operands-Begins (op ∷ rest) = refl

operands_text-Begins : (operands : List Operand) → Begins 32 (operands_text operands)
unfolding operands_text
operands_text-Begins [] = tt
operands_text-Begins (op ∷ rest) = refl

more_operands-injective :
    (a b : List Operand)
    → AreOperandWords a
    → AreOperandWords b
    → more_operands a ≡ more_operands b
    → a ≡ b
unfolding more_operands
more_operands-injective [] [] h k e = refl
more_operands-injective [] (q ∷ b) h k e = cc
more_operands-injective (p ∷ a) [] h k e = cc
more_operands-injective (p ∷ a) (q ∷ b) (h, hs) (k, ks) e =
    let (f, g) =
      split_at 44 (operand_to_string p) (operand_to_string q) (more_operands a) (more_operands b)
        (operand_to_string-Avoids p) (operand_to_string-Avoids q) (more_operands-Begins a)
        (more_operands-Begins b) (cancel (codes ", ") e) in
    cc (operand_to_string-injective p q h k f, more_operands-injective a b hs ks g)

operands_text-injective :
    (a b : List Operand)
    → AreOperandWords a
    → AreOperandWords b
    → operands_text a ≡ operands_text b
    → a ≡ b
unfolding operands_text
operands_text-injective [] [] h k e = refl
operands_text-injective [] (q ∷ b) h k e = cc
operands_text-injective (p ∷ a) [] h k e = cc
operands_text-injective (p ∷ a) (q ∷ b) (h, hs) (k, ks) e =
    let (f, g) =
      split_at 44 (operand_to_string p) (operand_to_string q) (more_operands a) (more_operands b)
        (operand_to_string-Avoids p) (operand_to_string-Avoids q) (more_operands-Begins a)
        (more_operands-Begins b) (cancel (codes " ") e) in
    cc (operand_to_string-injective p q h k f, more_operands-injective a b hs ks g)

-- The opcode and the operands.
body_text : Instruction → Text
unfolding opcode_to_string operands_text
body_text inst = opcode_to_string inst.opcode ++ operands_text inst.operands

to_string-parts :
    (a b : Instruction)
    → is_valid a ≡ true
    → is_valid b ≡ true
    → to_string a ≡ to_string b
    → (a.raw_instruction ≡ b.raw_instruction)
      × (a.address ≡ b.address)
      × (body_text a ≡ body_text b)
unfolding to_string body_text
to_string-parts a b v w e =
    let (p, rest) =
      split_at 32 (pad 8 (hexadecimal a.raw_instruction)) (pad 8 (hexadecimal b.raw_instruction)) _
        _ (pad-Avoids 32 8 _ (omega arith) (hexadecimal-Avoids 32 a.raw_instruction (omega arith)))
        (pad-Avoids 32 8 _ (omega arith) (hexadecimal-Avoids 32 b.raw_instruction (omega arith)))
        refl refl (cancel (codes "RV64I[0x") (rw (v, w) at e)) in
    let (q, last) =
      split_at 93 (hexadecimal a.address) (hexadecimal b.address) _ _
        (hexadecimal-Avoids-bracket a.address) (hexadecimal-Avoids-bracket b.address) refl refl
        (cancel (codes " @ 0x") rest) in
    (pad-hexadecimal-injective 8 p, hexadecimal-injective q, cancel (codes "] ") last)

-- Two valid instructions whose operands have up to 64 bits are the same when they print the same text:
-- word, address, opcode and operands can be read off it.
pub to_string-injective :
    (a b : Instruction)
    → is_valid a ≡ true
    → is_valid b ≡ true
    → AreOperandWords a.operands
    → AreOperandWords b.operands
    → to_string a ≡ to_string b
    → a ≡ b
unfolding body_text
to_string-injective a b v w h k e =
    let (raw, address, body) = to_string-parts a b v w e in
    let (name, operands) =
      split_at 32 (opcode_to_string a.opcode) (opcode_to_string b.opcode) (operands_text a.operands)
        (operands_text b.operands)
        (avoids-Avoids 32 (opcode_to_string a.opcode) (opcode_to_string-avoids a.opcode))
        (avoids-Avoids 32 (opcode_to_string b.opcode) (opcode_to_string-avoids b.opcode))
        (operands_text-Begins a.operands) (operands_text-Begins b.operands) body in
    let opcode =
      named-injective opcode_to_string opcodes named-opcode_to_string a.opcode b.opcode name in
    let same = operands_text-injective a.operands b.operands h k operands in
    λ i. record {
      opcode = opcode i;
      operands = same i;
      raw_instruction = raw i;
      address = address i;
    }
