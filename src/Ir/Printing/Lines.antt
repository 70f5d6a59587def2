-- ===== src/Ir/Printing/Lines.antt =====
-- No instruction and no terminator has a line break in its text.
use dinorisc.Prelude.{ℕ, ◌+◌, ◌≡◌, ◌≢◌, refl, arith, none, some, [], ◌∷◌, ◌++◌, ◌==◌, if◌then◌else◌}
use dinorisc.Prelude.Text.{Text, decimal, signed_decimal}
use dinorisc.Prelude.Text.Separators.{Avoids, decimal-Avoids, signed_decimal-Avoids}
use dinorisc.Ir.Syntax.{
  IrType, BinaryOpcode, InstructionKind, const, store, reg_write, Instruction, Terminator, branch,
  cond_branch, return,
}
use dinorisc.Ir.Printing.{
  binary_opcode_to_string, type_to_string, produces_value, kind_text, instruction_to_string,
  terminator_to_string,
}

-- The line breaks of a text.
breaks : Text → ℕ
breaks [] = 0
breaks (c ∷ t) = if c == 10 then breaks t + 1 else breaks t

breaks-append : (s t : Text) → breaks (s ++ t) ≡ breaks s + breaks t
unfolding breaks
breaks-append [] t = omega arith
breaks-append (c ∷ s) t = ground (arith, breaks-append s t)

Avoids-breaks : (t : Text) → Avoids 10 t → breaks t ≡ 0
unfolding breaks
Avoids-breaks [] a = refl
Avoids-breaks (c ∷ t) (n, a) = ground (arith, n, Avoids-breaks t a)

breaks-decimal : (n : ℕ) → breaks (decimal n) ≡ 0
breaks-decimal n = Avoids-breaks (decimal n) (decimal-Avoids 10 n (omega arith))

breaks-signed_decimal : (n : ℕ) → breaks (signed_decimal 64 n) ≡ 0
breaks-signed_decimal n =
    Avoids-breaks (signed_decimal 64 n) (signed_decimal-Avoids 10 64 n (omega arith))

breaks-type_to_string : (type : IrType) → breaks (type_to_string type) ≡ 0
unfolding breaks type_to_string
breaks-type_to_string IrType.i1 = refl
breaks-type_to_string _ = refl

breaks-binary_opcode_to_string :
    (opcode : BinaryOpcode) → breaks (binary_opcode_to_string opcode) ≡ 0
unfolding breaks binary_opcode_to_string
breaks-binary_opcode_to_string BinaryOpcode.add = refl
breaks-binary_opcode_to_string _ = refl

ruleset unbroken = (
  breaks-append, breaks-decimal, breaks-signed_decimal, breaks-type_to_string,
  breaks-binary_opcode_to_string,
)

breaks-kind_text : (kind : InstructionKind) → breaks (kind_text kind) ≡ 0
unfolding breaks kind_text
breaks-kind_text (const type value) = simp unbroken
breaks-kind_text _ = simp unbroken

breaks-produces_value : (v : ℕ) (kind : InstructionKind) → breaks (produces_value v kind) ≡ 0
unfolding breaks produces_value
breaks-produces_value v (store a b) = refl
breaks-produces_value v (reg_write a b) = refl
breaks-produces_value v _ = simp unbroken

breaks-instruction_to_string : (inst : Instruction) → breaks (instruction_to_string inst) ≡ 0
unfolding instruction_to_string
breaks-instruction_to_string inst =
    simp (unbroken, breaks-produces_value inst.value_id inst.kind, breaks-kind_text inst.kind)

breaks-terminator_to_string : (t : Terminator) → breaks (terminator_to_string t) ≡ 0
unfolding breaks terminator_to_string
breaks-terminator_to_string (branch target) = simp unbroken
breaks-terminator_to_string (cond_branch c x y) = simp unbroken
breaks-terminator_to_string (return (some v)) = simp unbroken
breaks-terminator_to_string (return none) = refl

unbroken_lem : (c n : ℕ) → (if c == 10 then n + 1 else n) ≡ 0 → (c ≢ 10) × (n ≡ 0)
unbroken_lem c n e = ((λ f. ground arith), ground arith)

breaks-Avoids : (t : Text) → breaks t ≡ 0 → Avoids 10 t
unfolding breaks
breaks-Avoids [] e = tt
breaks-Avoids (c ∷ t) e = let (n, f) = unbroken_lem c (breaks t) e in (n, breaks-Avoids t f)

pub instruction_to_string-Avoids : (inst : Instruction) → Avoids 10 (instruction_to_string inst)
instruction_to_string-Avoids inst =
    breaks-Avoids (instruction_to_string inst) (breaks-instruction_to_string inst)

pub terminator_to_string-Avoids : (t : Terminator) → Avoids 10 (terminator_to_string t)
terminator_to_string-Avoids t =
    breaks-Avoids (terminator_to_string t) (breaks-terminator_to_string t)
