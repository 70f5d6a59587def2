-- ===== src/Lowering/Allocator/Physical.antt =====
-- What a successful allocation leaves in the instructions.
use mathlib.Core.Path.{subst}
use dinorisc.Prelude.{
  ◌≡◌, refl, inl, inr, Bool, true, false, Option, none, some, List, [], ◌∷◌, All, Result, ok, err,
  map_ok, >>=-eq-ok, ok-injective,
}
use dinorisc.Arm.Syntax.{
  Register, Operand, register, virtual, immediate, Instruction, three_operand, two_operand, memory,
  move_wide, branch, conditional, conditional_select,
}
use dinorisc.Arm.Encoder.Virtual.{IsVirtual, HasVirtual}
use dinorisc.Lowering.Liveness.{LiveInterval}
use dinorisc.Lowering.Allocator.{
  Allocator, initial, scan, get_physical_register_or_throw, replace_operand_register,
  replace_virtual_registers, replace_all, rewrite_allocated, allocate_registers,
}

abbrev pub IsPhysical : Instruction → Type 0
IsPhysical inst = ¬ HasVirtual inst

register_of-physical :
    (r : Result Register) {o' : Operand} → map_ok register r ≡ ok o' → ¬ IsVirtual o'
register_of-physical (ok reg) e = subst (λ o. ¬ IsVirtual o) (ok-injective e) (λ h. h)
register_of-physical (err x) e = cc

replace_operand_register-physical :
    (a : Allocator) (o : Operand) {o' : Operand}
    → replace_operand_register a o ≡ ok o'
    → ¬ IsVirtual o'
unfolding replace_operand_register
replace_operand_register-physical a (register r) e =
    subst (λ o. ¬ IsVirtual o) (ok-injective e) (λ h. h)
replace_operand_register-physical a (immediate n) e =
    subst (λ o. ¬ IsVirtual o) (ok-injective e) (λ h. h)
replace_operand_register-physical a (virtual v) e =
    register_of-physical (get_physical_register_or_throw a v) e

replace_virtual_registers-IsPhysical :
    (a : Allocator) (inst : Instruction) {inst' : Instruction}
    → replace_virtual_registers a inst ≡ ok inst'
    → IsPhysical inst'
unfolding replace_virtual_registers
replace_virtual_registers-IsPhysical a (three_operand inst) e =
    let (dest, d, e1) = >>=-eq-ok (replace_operand_register a inst.dest) _ e in
    let (src1, s, e2) = >>=-eq-ok (replace_operand_register a inst.src1) _ e1 in
    let (src2, t, e3) = >>=-eq-ok (replace_operand_register a inst.src2) _ e2 in
    let pd = replace_operand_register-physical a inst.dest d in
    let ps = replace_operand_register-physical a inst.src1 s in
    let pt = replace_operand_register-physical a inst.src2 t in
    subst IsPhysical (ok-injective e3)
      (λ h. elim h [ inl x ↦ pd x | inr (inl x) ↦ ps x | inr (inr x) ↦ pt x ])
replace_virtual_registers-IsPhysical a (two_operand inst) e =
    let (dest, d, e1) = >>=-eq-ok (replace_operand_register a inst.dest) _ e in
    let (src, s, e2) = >>=-eq-ok (replace_operand_register a inst.src) _ e1 in
    let pd = replace_operand_register-physical a inst.dest d in
    let ps = replace_operand_register-physical a inst.src s in
    subst IsPhysical (ok-injective e2) (λ h. elim h [ inl x ↦ pd x | inr x ↦ ps x ])
replace_virtual_registers-IsPhysical a (memory inst) e =
    let (reg, d, e1) = >>=-eq-ok (replace_operand_register a inst.reg) _ e in
    let (base_reg, s, e2) = >>=-eq-ok (replace_operand_register a inst.base_reg) _ e1 in
    let pd = replace_operand_register-physical a inst.reg d in
    let ps = replace_operand_register-physical a inst.base_reg s in
    subst IsPhysical (ok-injective e2) (λ h. elim h [ inl x ↦ pd x | inr x ↦ ps x ])
replace_virtual_registers-IsPhysical a (move_wide inst) e =
    let (dest, d, e1) = >>=-eq-ok (replace_operand_register a inst.dest) _ e in
    subst IsPhysical (ok-injective e1) (replace_operand_register-physical a inst.dest d)
replace_virtual_registers-IsPhysical a (branch inst) e = subst IsPhysical (ok-injective e) (λ h. h)
replace_virtual_registers-IsPhysical a (conditional inst) e =
    let (dest, d, e1) = >>=-eq-ok (replace_operand_register a inst.dest) _ e in
    subst IsPhysical (ok-injective e1) (replace_operand_register-physical a inst.dest d)
replace_virtual_registers-IsPhysical a (conditional_select inst) e =
    let (dest, d, e1) = >>=-eq-ok (replace_operand_register a inst.dest) _ e in
    let (src1, s, e2) = >>=-eq-ok (replace_operand_register a inst.src1) _ e1 in
    let (src2, t, e3) = >>=-eq-ok (replace_operand_register a inst.src2) _ e2 in
    let pd = replace_operand_register-physical a inst.dest d in
    let ps = replace_operand_register-physical a inst.src1 s in
    let pt = replace_operand_register-physical a inst.src2 t in
    subst IsPhysical (ok-injective e3)
      (λ h. elim h [ inl x ↦ pd x | inr (inl x) ↦ ps x | inr (inr x) ↦ pt x ])

replace_all-IsPhysical :
    (a : Allocator) (instructions : List Instruction) {result : List Instruction}
    → replace_all a instructions ≡ ok result
    → All IsPhysical result
unfolding replace_all
replace_all-IsPhysical a [] e = subst (All IsPhysical) (ok-injective e) tt
replace_all-IsPhysical a (inst ∷ rest) e =
    let (inst', d, e1) = >>=-eq-ok (replace_virtual_registers a inst) _ e in
    let (rest', s, e2) = >>=-eq-ok (replace_all a rest) _ e1 in
    subst (All IsPhysical) (ok-injective e2)
      (replace_virtual_registers-IsPhysical a inst d, replace_all-IsPhysical a rest s)

-- What the flag stands for: the scan succeeded and every instruction is rewritten, or it failed.
abbrev pub AllocationResult : List Instruction → Bool → List Instruction → Type 0
AllocationResult before true after = All IsPhysical after
AllocationResult before false after = after ≡ before

rewrite_allocated-result :
    (instructions : List Instruction) (o : Option Allocator) {success : Bool}
    {result : List Instruction}
    → rewrite_allocated instructions o ≡ ok (success, result)
    → AllocationResult instructions success result
unfolding rewrite_allocated
rewrite_allocated-result instructions none e =
    subst (λ (p : Bool × List Instruction). AllocationResult instructions p.0 p.1) (ok-injective e)
      refl
rewrite_allocated-result instructions (some a) e =
    let (replaced, d, e1) = >>=-eq-ok (replace_all a instructions) _ e in
    subst (λ (p : Bool × List Instruction). AllocationResult instructions p.0 p.1) (ok-injective e1)
      (replace_all-IsPhysical a instructions d)

-- When the allocation returns true, no instruction has a virtual register left; when it returns
-- false, the instructions are the ones that it was given.
pub allocate_registers-result :
    (instructions : List Instruction) (intervals : List LiveInterval) {success : Bool}
    {result : List Instruction}
    → allocate_registers instructions intervals ≡ ok (success, result)
    → AllocationResult instructions success result
unfolding allocate_registers
allocate_registers-result instructions intervals e =
    rewrite_allocated-result instructions (scan intervals initial) e
