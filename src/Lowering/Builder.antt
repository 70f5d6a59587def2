-- ===== src/Lowering/Builder.antt =====
-- lib/Lowering/InstructionSelector.cpp: the selector's state, and the virtual registers of values.
use dinorisc.Prelude.{
  ◌+◌, Option, none, some, List, [], lookup, insert, Result, ok, err, lowering_error,
}
use dinorisc.Ir.Syntax.{ValueId, IrType, i1, i8, i16, i32, i64}
use dinorisc.Arm.Syntax.{VirtualRegister, DataSize, byte, half, word, double}

pub record Selector : Type 0 where
  pub next_virtual_reg : VirtualRegister
  pub ir_to_vreg : List (ValueId × VirtualRegister)
  pub value_types : List (ValueId × IrType)

-- A method of the class: it takes the object and may throw.
abbrev pub Select : Type 0 → Type 0
Select A = Selector → Result (A × Selector)

infixl 5 ◌>>=◌ ◌>>◌
abbrev pub ◌>>=◌ : {A B : Type 0} → Select A → (A → Select B) → Select B
◌>>=◌ m f s = elim (m s) [ ok (a, s') ↦ f a s' | err e ↦ err e ]

abbrev pub ◌>>◌ : {A B : Type 0} → Select A → Select B → Select B
m >> k = m >>= λ _. k

abbrev pub pure : {A : Type 0} → A → Select A
pure a s = ok (a, s)

abbrev pub select_result : {A : Type 0} → Result A → Select A
select_result (ok a) s = ok (a, s)
select_result (err e) s = err e

abbrev pub initial : Selector
initial = record { next_virtual_reg = 0; ir_to_vreg = []; value_types = [] }

-- `nextVirtualReg++` on a uint32_t; a block would have to use 2 ^ 32 registers for it to wrap.
unfoldable pub fresh_register : Select VirtualRegister
fresh_register s = ok (s.next_virtual_reg, record s { next_virtual_reg = s.next_virtual_reg + 1 })

unfoldable pub get_virtual_register : Selector → ValueId → Option VirtualRegister
get_virtual_register s value_id = lookup value_id s.ir_to_vreg

abbrev pub vreg_or_throw : Option VirtualRegister → Result VirtualRegister
vreg_or_throw (some vreg) = ok vreg
vreg_or_throw none = err lowering_error

unfoldable pub get_virtual_register_or_throw : ValueId → Select VirtualRegister
unfolding get_virtual_register
get_virtual_register_or_throw value_id s =
    select_result (vreg_or_throw (get_virtual_register s value_id)) s

assign_existing : ValueId → Option VirtualRegister → Select VirtualRegister
assign_existing value_id (some vreg) s = ok (vreg, s)
assign_existing value_id none s = ok (
  s.next_virtual_reg,
  record s {
    next_virtual_reg = s.next_virtual_reg + 1;
    ir_to_vreg = insert value_id s.next_virtual_reg s.ir_to_vreg;
  },
)

unfoldable pub assign_virtual_register : ValueId → Select VirtualRegister
unfolding get_virtual_register assign_existing
assign_virtual_register value_id s = assign_existing value_id (get_virtual_register s value_id) s

unfoldable pub record_value_type : ValueId → IrType → Select (Unit {0})
record_value_type value_id type s =
    ok (tt, record s { value_types = insert value_id type s.value_types })

abbrev pub type_or_default : Option IrType → IrType
type_or_default (some type) = type
type_or_default none = i64

unfoldable pub get_value_type : Selector → ValueId → IrType
get_value_type s value_id = type_or_default (lookup value_id s.value_types)

unfoldable pub ir_type_to_data_size : IrType → DataSize
ir_type_to_data_size i1 = byte
ir_type_to_data_size i8 = byte
ir_type_to_data_size i16 = half
ir_type_to_data_size i32 = word
ir_type_to_data_size i64 = double
