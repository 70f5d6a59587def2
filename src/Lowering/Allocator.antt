-- ===== src/Lowering/Allocator.antt =====
-- lib/Lowering/RegisterAllocator.cpp: linear scan without spilling.
pub mod Rounds
pub mod Scan
pub mod Usable
pub mod Physical
mod Tests
use dinorisc.Prelude.{
  ℕ, Bool, true, false, not, ◌||◌, Option, none, some, List, [], ◌∷◌, ◌++◌, ltb, ◌==◌,
  if◌then◌else◌, lookup, insert, Result, ok, err, ◌>>=◌, map_ok, lowering_error,
}
use dinorisc.Arm.Syntax.{
  Register, register_number, Operand, register, virtual, immediate, Instruction, three_operand,
  two_operand, memory, move_wide, branch, conditional, conditional_select, x1, x2, x3, x4, x5, x6,
  x7, x8, x9, x10, x11, x12, x13, x14, x15, x16, x17, x18, x19, x20, x21, x22, x23, x24, x25, x26,
  x27, x28,
}
use dinorisc.Lowering.Liveness.{LiveInterval}

abbrev pub available_registers : List Register
available_registers =
    x1 ∷ x2 ∷ x3 ∷ x4 ∷ x5 ∷ x6 ∷ x7 ∷ x8 ∷ x9 ∷ x10 ∷ x11 ∷ x12 ∷ x13 ∷ x14 ∷ x15 ∷ x16 ∷ x17 ∷ x18
    ∷ x19 ∷ x20 ∷ x21 ∷ x22 ∷ x23 ∷ x24 ∷ x25 ∷ x26 ∷ x27 ∷ x28 ∷ []

pub record ActiveInterval : Type 0 where
  pub interval : LiveInterval
  pub physical_reg : Register

pub record Allocator : Type 0 where
  pub allocation : List (ℕ × Register)
  pub active_intervals : List ActiveInterval

abbrev pub initial : Allocator
initial = record { allocation = []; active_intervals = [] }

-- Equality of registers, by their numbers.
unfoldable pub same_register : Register → Register → Bool
same_register r s = register_number r == register_number s

-- Whether an active interval holds the register.
unfoldable pub is_held : Register → List ActiveInterval → Bool
is_held reg [] = false
is_held reg (active ∷ rest) = same_register active.physical_reg reg || is_held reg rest

unfoldable pub first_free : List Register → List ActiveInterval → Option Register
unfolding is_held
first_free [] actives = none
first_free (reg ∷ rest) actives = if is_held reg actives then first_free rest actives else some reg

unfoldable pub get_next_available_register : Allocator → Option Register
unfolding first_free
get_next_available_register a = first_free available_registers a.active_intervals

unfoldable pub remove_ended : ℕ → List ActiveInterval → List ActiveInterval
remove_ended current_point [] = []
remove_ended current_point (active ∷ rest) =
    if ltb active.interval.end current_point
    then remove_ended current_point rest
    else active ∷ remove_ended current_point rest

unfoldable pub expire_old_intervals : ℕ → Allocator → Allocator
unfolding remove_ended
expire_old_intervals current_point a = record a {
  active_intervals = remove_ended current_point a.active_intervals;
}

assign_register : LiveInterval → Allocator → Option Register → Option Allocator
assign_register interval a none = none
assign_register interval a (some reg) = some (record a {
  allocation = insert interval.virtual_register reg a.allocation;
  active_intervals = a.active_intervals ++ record { interval = interval; physical_reg = reg } ∷ [];
})

-- One round of the scan; `none` means that no register is free.
unfoldable pub scan_step : LiveInterval → Allocator → Option Allocator
unfolding assign_register expire_old_intervals get_next_available_register
scan_step interval a =
    let a' = expire_old_intervals interval.start a in
    assign_register interval a' (get_next_available_register a')

unfoldable pub scan : List LiveInterval → Allocator → Option Allocator
unfolding scan_step
scan [] a = some a
scan (interval ∷ rest) a = elim (scan_step interval a) [ none ↦ none | some a' ↦ scan rest a' ]

abbrev pub preg_or_throw : Option Register → Result Register
preg_or_throw (some reg) = ok reg
preg_or_throw none = err lowering_error

unfoldable pub get_physical_register_or_throw : Allocator → ℕ → Result Register
get_physical_register_or_throw a vreg = preg_or_throw (lookup vreg a.allocation)

unfoldable pub replace_operand_register : Allocator → Operand → Result Operand
unfolding get_physical_register_or_throw
replace_operand_register a (register reg) = ok (register reg)
replace_operand_register a (virtual vreg) = map_ok register (get_physical_register_or_throw a vreg)
replace_operand_register a (immediate value) = ok (immediate value)

unfoldable pub replace_virtual_registers : Allocator → Instruction → Result Instruction
unfolding replace_operand_register
replace_virtual_registers a (three_operand inst) = do
  dest ← replace_operand_register a inst.dest
  src1 ← replace_operand_register a inst.src1
  src2 ← replace_operand_register a inst.src2
  ok (three_operand (record inst { dest = dest; src1 = src1; src2 = src2 }))
replace_virtual_registers a (two_operand inst) = do
  dest ← replace_operand_register a inst.dest
  src ← replace_operand_register a inst.src
  ok (two_operand (record inst { dest = dest; src = src }))
replace_virtual_registers a (memory inst) = do
  reg ← replace_operand_register a inst.reg
  base_reg ← replace_operand_register a inst.base_reg
  ok (memory (record inst { reg = reg; base_reg = base_reg }))
replace_virtual_registers a (move_wide inst) = do
  dest ← replace_operand_register a inst.dest
  ok (move_wide (record inst { dest = dest }))
replace_virtual_registers a (branch inst) = ok (branch inst)
replace_virtual_registers a (conditional inst) = do
  dest ← replace_operand_register a inst.dest
  ok (conditional (record inst { dest = dest }))
replace_virtual_registers a (conditional_select inst) = do
  dest ← replace_operand_register a inst.dest
  src1 ← replace_operand_register a inst.src1
  src2 ← replace_operand_register a inst.src2
  ok (conditional_select (record inst { dest = dest; src1 = src1; src2 = src2 }))

unfoldable pub replace_all : Allocator → List Instruction → Result (List Instruction)
unfolding replace_virtual_registers
replace_all a [] = ok []
replace_all a (inst ∷ rest) = do
  inst' ← replace_virtual_registers a inst
  rest' ← replace_all a rest
  ok (inst' ∷ rest')

-- The instructions are changed in place: the result is the flag and the instructions afterwards,
-- which stay as they are where the scan fails.
rewrite_allocated : List Instruction → Option Allocator → Result (Bool × List Instruction)
unfolding replace_all
rewrite_allocated instructions none = ok (false, instructions)
rewrite_allocated instructions (some a) = do
  replaced ← replace_all a instructions
  ok (true, replaced)

-- The `assert` that the intervals are sorted, which a debug build makes, is left out.
unfoldable pub allocate_registers :
    List Instruction → List LiveInterval → Result (Bool × List Instruction)
unfolding rewrite_allocated scan insert lookup same_register register_number
allocate_registers instructions live_intervals =
    rewrite_allocated instructions (scan live_intervals initial)
