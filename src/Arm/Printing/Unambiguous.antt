-- ===== src/Arm/Printing/Unambiguous.antt =====
-- The operands of the target can be told apart by their text.
use dinorisc.Prelude.{ℕ, ◌≡◌, ◌≢◌, refl, sym, ap, true, some, List, [], ◌∷◌, ◌++◌}
use dinorisc.Prelude.Text.{codes, decimal}
use dinorisc.Prelude.Text.Names.{named, named-injective}
use dinorisc.Prelude.Text.Reading.{decimal-injective}
use dinorisc.Prelude.Text.Separators.{avoids, avoids-Avoids, absent, cancel}
use dinorisc.Arm.Syntax.{Register, Operand, register, virtual, immediate}
use dinorisc.Arm.Printing.{register_to_string, operand_to_string}

abbrev registers : List Register
registers =
    Register.x0 ∷ Register.x1 ∷ Register.x2 ∷ Register.x3 ∷ Register.x4 ∷ Register.x5 ∷ Register.x6
    ∷ Register.x7 ∷ Register.x8 ∷ Register.x9 ∷ Register.x10 ∷ Register.x11 ∷ Register.x12
    ∷ Register.x13 ∷ Register.x14 ∷ Register.x15 ∷ Register.x16 ∷ Register.x17 ∷ Register.x18
    ∷ Register.x19 ∷ Register.x20 ∷ Register.x21 ∷ Register.x22 ∷ Register.x23 ∷ Register.x24
    ∷ Register.x25 ∷ Register.x26 ∷ Register.x27 ∷ Register.x28 ∷ Register.x29 ∷ Register.x30
    ∷ Register.xsp ∷ []

named-register_to_string :
    (reg : Register) → named register_to_string (register_to_string reg) registers ≡ some reg
unfolding named register_to_string
named-register_to_string Register.x0 = refl
named-register_to_string _ = refl

no_virtual : (reg : Register) → avoids 118 (register_to_string reg) ≡ true
unfolding avoids register_to_string
no_virtual Register.x0 = refl
no_virtual _ = refl

no_immediate : (reg : Register) → avoids 35 (register_to_string reg) ≡ true
unfolding avoids register_to_string
no_immediate Register.x0 = refl
no_immediate _ = refl

not_virtual : (reg : Register) (v : ℕ) → codes "v" ++ decimal v ≢ register_to_string reg
not_virtual reg v =
    absent 118 (register_to_string reg) (decimal v) (avoids-Avoids 118 _ (no_virtual reg))

not_immediate : (reg : Register) (v : ℕ) → codes "#" ++ decimal v ≢ register_to_string reg
not_immediate reg v =
    absent 35 (register_to_string reg) (decimal v) (avoids-Avoids 35 _ (no_immediate reg))

-- Two operands that print the same text are the same: a physical register, a virtual one and an
-- immediate are never confused.
pub operand_to_string-injective :
    (a b : Operand) → operand_to_string a ≡ operand_to_string b → a ≡ b
unfolding operand_to_string
operand_to_string-injective (register r) (register s) e =
    ap register (named-injective register_to_string registers named-register_to_string r s e)
operand_to_string-injective (register r) (virtual v) e = absurd (not_virtual r v (sym e))
operand_to_string-injective (register r) (immediate v) e = absurd (not_immediate r v (sym e))
operand_to_string-injective (virtual v) (register s) e = absurd (not_virtual s v e)
operand_to_string-injective (virtual v) (virtual w) e =
    ap virtual (decimal-injective (cancel (codes "v") e))
operand_to_string-injective (virtual v) (immediate w) e = cc
operand_to_string-injective (immediate v) (register s) e = absurd (not_immediate s v e)
operand_to_string-injective (immediate v) (virtual w) e = cc
operand_to_string-injective (immediate v) (immediate w) e =
    ap immediate (decimal-injective (cancel (codes "#") e))
