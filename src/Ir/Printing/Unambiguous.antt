-- ===== src/Ir/Printing/Unambiguous.antt =====
-- The text of an instruction without its value: its first word and the rest.
use mathlib.Core.List.{tail-eq_of_cons-eq}
use dinorisc.Prelude.{
  ℕ, ◌^◌, ◌<◌, ◌==◌, ◌≡◌, refl, sym, ap, ◌∙◌, arith, Bool, true, false, not, some, List, [], ◌∷◌,
  ◌++◌,
}
use dinorisc.Prelude.Text.{Text, codes, decimal, signed_decimal}
use dinorisc.Prelude.Text.Names.{named, named-injective}
use dinorisc.Prelude.Text.Reading.{decimal-injective}
use dinorisc.Prelude.Text.Separators.{
  split_at, decimal-Avoids, cancel, signed_decimal-injective, avoids, avoids-Avoids,
}
use dinorisc.Ir.Syntax.{
  IrType, BinaryOpcode, InstructionKind, const, binary_op, sext, zext, trunc, load, store, reg_read,
  reg_write,
}
use dinorisc.Ir.Printing.{binary_opcode_to_string, type_to_string, kind_text}

-- The first word of the text of an instruction.
data Head : Type 0 where
  of_type : IrType → Head
  of_opcode : BinaryOpcode → Head
  extend_signed : Head
  extend_zero : Head
  truncate : Head
  read_memory : Head
  write_memory : Head
  read_register : Head
  write_register : Head

head_text : Head → Text
unfolding type_to_string binary_opcode_to_string
head_text (of_type type) = type_to_string type
head_text (of_opcode opcode) = binary_opcode_to_string opcode
head_text extend_signed = codes "sext"
head_text extend_zero = codes "zext"
head_text truncate = codes "trunc"
head_text read_memory = codes "load"
head_text write_memory = codes "store"
head_text read_register = codes "regread"
head_text write_register = codes "regwrite"

abbrev heads : List Head
heads =
    of_type IrType.i1
    ∷ of_type IrType.i8
    ∷ of_type IrType.i16
    ∷ of_type IrType.i32
    ∷ of_type IrType.i64
    ∷ of_opcode BinaryOpcode.add
    ∷ of_opcode BinaryOpcode.sub
    ∷ of_opcode BinaryOpcode.mul
    ∷ of_opcode BinaryOpcode.div
    ∷ of_opcode BinaryOpcode.div_u
    ∷ of_opcode BinaryOpcode.rem
    ∷ of_opcode BinaryOpcode.rem_u
    ∷ of_opcode BinaryOpcode.and
    ∷ of_opcode BinaryOpcode.or
    ∷ of_opcode BinaryOpcode.xor
    ∷ of_opcode BinaryOpcode.shl
    ∷ of_opcode BinaryOpcode.shr
    ∷ of_opcode BinaryOpcode.sar
    ∷ of_opcode BinaryOpcode.eq
    ∷ of_opcode BinaryOpcode.ne
    ∷ of_opcode BinaryOpcode.lt
    ∷ of_opcode BinaryOpcode.le
    ∷ of_opcode BinaryOpcode.gt
    ∷ of_opcode BinaryOpcode.ge
    ∷ of_opcode BinaryOpcode.lt_u
    ∷ of_opcode BinaryOpcode.le_u
    ∷ of_opcode BinaryOpcode.gt_u
    ∷ of_opcode BinaryOpcode.ge_u
    ∷ extend_signed
    ∷ extend_zero
    ∷ truncate
    ∷ read_memory
    ∷ write_memory
    ∷ read_register
    ∷ write_register
    ∷ []

abbrev types : List IrType
types = IrType.i1 ∷ IrType.i8 ∷ IrType.i16 ∷ IrType.i32 ∷ IrType.i64 ∷ []

named-type_to_string :
    (type : IrType) → named type_to_string (type_to_string type) types ≡ some type
unfolding named type_to_string
named-type_to_string IrType.i1 = refl
named-type_to_string _ = refl

type_to_string-avoids : (type : IrType) → avoids 32 (type_to_string type) ≡ true
unfolding avoids type_to_string
type_to_string-avoids IrType.i1 = refl
type_to_string-avoids _ = refl

opcode-named :
    (opcode : BinaryOpcode)
    → named head_text (binary_opcode_to_string opcode) heads ≡ some (of_opcode opcode)
unfolding named head_text binary_opcode_to_string
opcode-named BinaryOpcode.add = refl
opcode-named _ = refl

type-named : (type : IrType) → named head_text (type_to_string type) heads ≡ some (of_type type)
unfolding named head_text type_to_string
type-named IrType.i1 = refl
type-named _ = refl

-- The text does not begin with the percent sign of a value.
pub plain : Text → Bool
plain [] = false
plain (c ∷ t) = not (c == 37)

plain-opcode : (opcode : BinaryOpcode) → plain (binary_opcode_to_string opcode) ≡ true
unfolding plain binary_opcode_to_string
plain-opcode BinaryOpcode.add = refl
plain-opcode _ = refl

plain-type : (type : IrType) → plain (type_to_string type) ≡ true
unfolding plain type_to_string
plain-type IrType.i1 = refl
plain-type _ = refl

plain-head_text : (head : Head) → plain (head_text head) ≡ true
unfolding plain head_text
plain-head_text (of_type type) = plain-type type
plain-head_text (of_opcode opcode) = plain-opcode opcode
plain-head_text extend_signed = refl
plain-head_text _ = refl

plain-append : (s t : Text) → plain s ≡ true → plain (s ++ t) ≡ true
unfolding plain
plain-append [] t e = cc
plain-append (c ∷ s) t e = e

pub not_plain : (t : Text) → plain (37 ∷ t) ≡ false
unfolding plain
not_plain t = refl

named-head_text : (head : Head) → named head_text (head_text head) heads ≡ some head
unfolding named head_text
named-head_text (of_type type) = type-named type
named-head_text (of_opcode opcode) = opcode-named opcode
named-head_text extend_signed = refl
named-head_text _ = refl

opcode-avoids : (opcode : BinaryOpcode) → avoids 32 (binary_opcode_to_string opcode) ≡ true
unfolding avoids binary_opcode_to_string
opcode-avoids BinaryOpcode.add = refl
opcode-avoids _ = refl

head_text-avoids : (head : Head) → avoids 32 (head_text head) ≡ true
unfolding avoids head_text
head_text-avoids (of_type type) = type_to_string-avoids type
head_text-avoids (of_opcode opcode) = opcode-avoids opcode
head_text-avoids extend_signed = refl
head_text-avoids _ = refl

head : InstructionKind → Head
head (const type value) = of_type type
head (binary_op opcode type lhs rhs) = of_opcode opcode
head (sext to_type operand) = extend_signed
head (zext to_type operand) = extend_zero
head (trunc to_type operand) = truncate
head (load type address) = read_memory
head (store value address) = write_memory
head (reg_read reg_number) = read_register
head (reg_write reg_number value) = write_register

-- A type and a value, and two numbers.
abbrev typed : IrType → ℕ → Text
typed type value = type_to_string type ++ 32 ∷ 37 ∷ decimal value

abbrev two : ℕ → ℕ → Text
two a b = decimal a ++ 44 ∷ 32 ∷ 37 ∷ decimal b

-- The rest of the text, behind the first word and a space.
tail : InstructionKind → Text
tail (const type value) = signed_decimal 64 value
tail (binary_op opcode type lhs rhs) = type_to_string type ++ 32 ∷ 37 ∷ two lhs rhs
tail (sext to_type operand) = codes "to " ++ typed to_type operand
tail (zext to_type operand) = codes "to " ++ typed to_type operand
tail (trunc to_type operand) = codes "to " ++ typed to_type operand
tail (load type address) = typed type address
tail (store value address) = 37 ∷ two value address
tail (reg_read reg_number) = 120 ∷ decimal reg_number
tail (reg_write reg_number value) = 120 ∷ two reg_number value

kind_text-parts :
    (kind : InstructionKind) → kind_text kind ≡ head_text (head kind) ++ 32 ∷ tail kind
unfolding kind_text head_text head tail
kind_text-parts (const type value) = refl
kind_text-parts _ = refl

pub plain-kind_text : (kind : InstructionKind) → plain (kind_text kind) ≡ true
plain-kind_text kind =
    ap plain (kind_text-parts kind)
    ∙ plain-append (head_text (head kind)) (32 ∷ tail kind) (plain-head_text (head kind))

type-injective :
    (a b : IrType) (s t : Text)
    → type_to_string a ++ 32 ∷ s ≡ type_to_string b ++ 32 ∷ t
    → (a ≡ b) × (s ≡ t)
type-injective a b s t e =
    let (f, g) =
      split_at 32 (type_to_string a) (type_to_string b) (32 ∷ s) (32 ∷ t)
        (avoids-Avoids 32 _ (type_to_string-avoids a))
        (avoids-Avoids 32 _ (type_to_string-avoids b)) refl refl e in
    (named-injective type_to_string types named-type_to_string a b f, tail-eq_of_cons-eq g)

typed-injective : (a b : IrType) (v w : ℕ) → typed a v ≡ typed b w → (a ≡ b) × (v ≡ w)
typed-injective a b v w e =
    let (f, g) = type-injective a b _ _ e in (f, decimal-injective (cancel (codes "%") g))

two-injective : (a b v w : ℕ) → two a v ≡ two b w → (a ≡ b) × (v ≡ w)
two-injective a b v w e =
    let (f, g) =
      split_at 44 (decimal a) (decimal b) (44 ∷ 32 ∷ 37 ∷ decimal v) (44 ∷ 32 ∷ 37 ∷ decimal w)
        (decimal-Avoids 44 a (omega arith)) (decimal-Avoids 44 b (omega arith)) refl refl e in
    (decimal-injective f, decimal-injective (cancel (codes ", %") g))

-- The constant of an instruction has up to 64 bits.
abbrev pub IsConstantWord : InstructionKind → Type 0
IsConstantWord (const type value) = value < 2 ^ 64
IsConstantWord _ = Unit

tail-injective :
    (a b : InstructionKind)
    → IsConstantWord a
    → IsConstantWord b
    → head a ≡ head b
    → tail a ≡ tail b
    → a ≡ b
unfolding head tail
tail-injective (const s v) (const t w) h k e f = cc (signed_decimal-injective 64 h k f)
tail-injective (binary_op o s u v) (binary_op p t x y) h k e f =
    let (g, rest) = type-injective s t _ _ f in
    let (l, r) = two-injective u x v y (cancel (codes "%") rest) in cc
tail-injective (sext s v) (sext t w) h k e f =
    let (g, r) = typed-injective s t v w (cancel (codes "to ") f) in cc
tail-injective (zext s v) (zext t w) h k e f =
    let (g, r) = typed-injective s t v w (cancel (codes "to ") f) in cc
tail-injective (trunc s v) (trunc t w) h k e f =
    let (g, r) = typed-injective s t v w (cancel (codes "to ") f) in cc
tail-injective (load s v) (load t w) h k e f = let (g, r) = typed-injective s t v w f in cc
tail-injective (store u v) (store x y) h k e f =
    let (l, r) = two-injective u x v y (cancel (codes "%") f) in cc
tail-injective (reg_read v) (reg_read w) h k e f =
    ap reg_read (decimal-injective (cancel (codes "x") f))
tail-injective (reg_write u v) (reg_write x y) h k e f =
    let (l, r) = two-injective u x v y (cancel (codes "x") f) in cc
tail-injective _ _ h k e f = cc

pub kind_text-injective :
    (a b : InstructionKind)
    → IsConstantWord a
    → IsConstantWord b
    → kind_text a ≡ kind_text b
    → a ≡ b
kind_text-injective a b h k e =
    let (f, g) =
      split_at 32 (head_text (head a)) (head_text (head b)) (32 ∷ tail a) (32 ∷ tail b)
        (avoids-Avoids 32 _ (head_text-avoids (head a)))
        (avoids-Avoids 32 _ (head_text-avoids (head b))) refl refl
        (sym (kind_text-parts a) ∙ e ∙ kind_text-parts b) in
    tail-injective a b h k (named-injective head_text heads named-head_text (head a) (head b) f)
      (tail-eq_of_cons-eq g)
