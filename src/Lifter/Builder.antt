-- ===== src/Lifter/Builder.antt =====
-- lib/Lifter.cpp: the lifter's state, and the methods that add one IR instruction.
use dinorisc.Prelude.{
  ℕ, ◌+◌, Option, none, some, List, [], ◌∷◌, ◌++◌, ◌==◌, if◌then◌else◌, lookup, insert, add_member,
  Result, ok, err, Error,
}
use dinorisc.Ir.Syntax.{
  IrType, i64, ValueId, BinaryOpcode, InstructionKind, const, binary_op, sext, zext, trunc, load,
  store, reg_read, reg_write, Instruction,
}

-- The maps are association lists, in the order of first insertion.
pub record Lifter : Type 0 where
  pub next_value_id : ValueId
  pub cached_register_values : List (ℕ × ValueId)
  pub modified_registers : List ℕ
  pub current_instructions : List Instruction

-- A method of the class: it takes the object and may throw.
abbrev pub Lift : Type 0 → Type 0
Lift A = Lifter → Result (A × Lifter)

infixl 5 ◌>>=◌ ◌>>◌
abbrev pub ◌>>=◌ : {A B : Type 0} → Lift A → (A → Lift B) → Lift B
◌>>=◌ m f l = elim (m l) [ ok (a, l') ↦ f a l' | err e ↦ err e ]

abbrev pub ◌>>◌ : {A B : Type 0} → Lift A → Lift B → Lift B
m >> k = m >>= λ _. k

abbrev pub pure : {A : Type 0} → A → Lift A
pure a l = ok (a, l)

abbrev pub lift_result : {A : Type 0} → Result A → Lift A
lift_result (ok a) l = ok (a, l)
lift_result (err e) l = err e

abbrev pub throw : {A : Type 0} → Error → Lift A
throw e l = err e

-- `nextValueId` is a uint64_t that starts at 1; a block would have to add 2 ^ 64 instructions for
-- it to wrap.
abbrev pub initial : Lifter
initial = record {
  next_value_id = 1;
  cached_register_values = [];
  modified_registers = [];
  current_instructions = [];
}

unfoldable pub add_instruction : InstructionKind → Lift ValueId
add_instruction kind l =
    let value_id = l.next_value_id in
    ok (
      value_id,
      record l {
        next_value_id = l.next_value_id + 1;
        current_instructions =
            l.current_instructions ++ record { value_id = value_id; kind = kind } ∷ [];
      },
    )

unfoldable pub create_constant : IrType → ℕ → Lift ValueId
unfolding add_instruction
create_constant type value = add_instruction (const type value)

unfoldable pub create_binary_op : BinaryOpcode → IrType → ValueId → ValueId → Lift ValueId
unfolding add_instruction
create_binary_op opcode type lhs rhs = add_instruction (binary_op opcode type lhs rhs)

unfoldable pub create_load : IrType → ValueId → Lift ValueId
unfolding add_instruction
create_load type address = add_instruction (load type address)

unfoldable pub create_store : ValueId → ValueId → Lift ValueId
unfolding add_instruction
create_store value address = add_instruction (store value address)

unfoldable pub create_sext : IrType → ValueId → Lift ValueId
unfolding add_instruction
create_sext to_type operand = add_instruction (sext to_type operand)

unfoldable pub create_zext : IrType → ValueId → Lift ValueId
unfolding add_instruction
create_zext to_type operand = add_instruction (zext to_type operand)

unfoldable pub create_trunc : IrType → ValueId → Lift ValueId
unfolding add_instruction
create_trunc to_type operand = add_instruction (trunc to_type operand)

abbrev pub reg_zero : ℕ
reg_zero = 0

abbrev pub reg_ra : ℕ
reg_ra = 1

-- A register is read once in a block: its value is cached under the id of the `RegRead`.
unfoldable pub read_register : ℕ → Option ValueId → Lift ValueId
unfolding add_instruction
read_register reg_num (some value_id) l = ok (value_id, l)
read_register reg_num none l =
    (do
      value_id ← add_instruction (reg_read reg_num)
      λ l'. ok (
        value_id,
        record l' { cached_register_values = insert reg_num value_id l'.cached_register_values },
      ))
      l

unfoldable pub get_register_value : ℕ → Lift ValueId
unfolding create_constant read_register
get_register_value reg_num l =
    if reg_num == reg_zero
    then create_constant i64 0 l
    else read_register reg_num (lookup reg_num l.cached_register_values) l

unfoldable pub set_register_value : ℕ → ValueId → Lift (Unit {0})
set_register_value reg_num value_id l =
    if reg_num == reg_zero
    then ok (tt, l)
    else ok (
      tt,
      record l {
        cached_register_values = insert reg_num value_id l.cached_register_values;
        modified_registers = add_member reg_num l.modified_registers;
      },
    )

-- `cachedRegisterValues[regNum]`: a missing key would be entered with the value 0.
abbrev pub cached_or_zero : Option ValueId → ValueId
cached_or_zero (some value_id) = value_id
cached_or_zero none = 0

abbrev pub cached_or_enter : ℕ → Option ValueId → List (ℕ × ValueId) → List (ℕ × ValueId)
cached_or_enter reg_num (some value_id) m = m
cached_or_enter reg_num none m = insert reg_num 0 m

unfoldable pub finalize_loop : List ℕ → Lift (Unit {0})
unfolding add_instruction lookup
finalize_loop [] l = ok (tt, l)
finalize_loop (reg_num ∷ rest) l =
    let found = lookup reg_num l.cached_register_values in
    let entered = record l {
      cached_register_values = cached_or_enter reg_num found l.cached_register_values;
    } in
    (add_instruction (reg_write reg_num (cached_or_zero found)) >> finalize_loop rest) entered

-- The set is walked in the order of insertion; the order of an unordered_set is not specified.
unfoldable pub finalize_register_writes : Lift (Unit {0})
unfolding finalize_loop
finalize_register_writes l = finalize_loop l.modified_registers l
