-- ===== src/Riscv/Decoder/Shape.antt =====
-- What `decode` can return at all: the operands have the shape that the opcode's format needs.
use dinorisc.Prelude.{ℕ, ◌<◌, ◌≡◌, refl, arith, List, [], ◌∷◌, ok, >>=-eq-ok, ok-injective}
use mathlib.Core.Path.{subst}
use dinorisc.Riscv.Syntax.{Operand, register, immediate, Instruction}
use dinorisc.Riscv.Fields.{DecodedFields, read_instruction_from_memory, extract_fields}
use dinorisc.Riscv.Opcodes.{determine_opcode}
use dinorisc.Riscv.Operands.{
  Format, r_type, i_type, s_type, b_type, u_type, j_type, system, illegal, format, format_operands,
  extract_operands,
}
use dinorisc.Riscv.Decoder.{decode}
use dinorisc.Riscv.Decoder.Words.{extract_fields_lem}

-- The operands that a format has: register numbers below 32, then an immediate.
abbrev pub Shaped : Format → List Operand → Type 0
Shaped r_type (register a ∷ register b ∷ register c ∷ []) = (a < 32) × (b < 32) × (c < 32)
Shaped i_type (register a ∷ register b ∷ immediate i ∷ []) = (a < 32) × (b < 32)
Shaped s_type (register a ∷ register b ∷ immediate i ∷ []) = (a < 32) × (b < 32)
Shaped b_type (register a ∷ register b ∷ immediate i ∷ []) = (a < 32) × (b < 32)
Shaped u_type (register a ∷ immediate i ∷ []) = a < 32
Shaped j_type (register a ∷ immediate i ∷ []) = a < 32
Shaped system [] = Unit
Shaped _ _ = ⊥

abbrev pub WellShaped : Instruction → Type 0
WellShaped inst = Shaped (format inst.opcode) inst.operands

record RegistersFit (f : DecodedFields) : Type 0 where
  rd : f.rd < 32
  rs1 : f.rs1 < 32
  rs2 : f.rs2 < 32

extract_fields-RegistersFit : (raw : ℕ) → RegistersFit (extract_fields raw)
extract_fields-RegistersFit raw = rw extract_fields_lem (omega arith)

format_operands-Shaped :
    (k : Format) (f : DecodedFields) (raw : ℕ) {operands : List Operand}
    → RegistersFit f
    → format_operands k f raw ≡ ok operands
    → Shaped k operands
unfolding format_operands
format_operands-Shaped r_type f raw h e =
    subst (Shaped r_type) (ok-injective e) (h.rd, h.rs1, h.rs2)
format_operands-Shaped i_type f raw h e = subst (Shaped i_type) (ok-injective e) (h.rd, h.rs1)
format_operands-Shaped s_type f raw h e = subst (Shaped s_type) (ok-injective e) (h.rs1, h.rs2)
format_operands-Shaped b_type f raw h e = subst (Shaped b_type) (ok-injective e) (h.rs1, h.rs2)
format_operands-Shaped u_type f raw h e = subst (Shaped u_type) (ok-injective e) h.rd
format_operands-Shaped j_type f raw h e = subst (Shaped j_type) (ok-injective e) h.rd
format_operands-Shaped system f raw h e = subst (Shaped system) (ok-injective e) tt
format_operands-Shaped illegal f raw h e = cc

-- Whatever the bytes are, an instruction that `decode` returns has the operands of its format, with
-- every register number below 32, and carries the address that it was decoded at.
pub decode-WellShaped :
    (bytes : List ℕ) (offset pc : ℕ) {inst : Instruction}
    → decode bytes offset pc ≡ ok inst
    → WellShaped inst × (inst.address ≡ pc)
unfolding decode extract_operands
decode-WellShaped bytes offset pc e =
    let (raw, _, e1) = >>=-eq-ok (read_instruction_from_memory bytes offset) _ e in
    let (op, _, e2) = >>=-eq-ok (determine_opcode (extract_fields raw)) _ e1 in
    let (operands, e4, e3) =
      >>=-eq-ok (format_operands (format op) (extract_fields raw) raw) _ e2 in
    subst (λ (inst : Instruction). WellShaped inst × (inst.address ≡ pc)) (ok-injective e3)
      (
        format_operands-Shaped (format op) (extract_fields raw) raw
            (extract_fields-RegistersFit raw) e4,
        refl,
      )
