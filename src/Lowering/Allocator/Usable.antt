-- ===== src/Lowering/Allocator/Usable.antt =====
-- Which registers the scan gives out: never x0, which holds the guest state, nor x29, x30 and sp.
use dinorisc.Prelude.{
  ◌≤◌, ◌≡◌, ◌∙◌, arith, inl, inr, some, of_some, List, [], ◌∷◌, Bool-cases, All, lookup,
}
use mathlib.Core.Path.{subst}
use dinorisc.Arm.Syntax.{Register, register_number, Instruction}
use dinorisc.Lowering.Liveness.{LiveInterval, compute_live_intervals}
use dinorisc.Lowering.Liveness.Order.{compute_live_intervals-IsDistinct}
use dinorisc.Lowering.Allocator.{
  available_registers, ActiveInterval, Allocator, initial, is_held, first_free, scan, remove_ended,
}
use dinorisc.Lowering.Allocator.Scan.{Allocation, IsDistinct}
use dinorisc.Lowering.Allocator.Rounds.{scan-Begun, lookup-Assigned_self, scan-keeps}

abbrev pub IsUsable : Register → Type 0
IsUsable r = (1 ≤ register_number r) × (register_number r ≤ 28)

available_registers-IsUsable : All IsUsable available_registers
unfolding register_number
available_registers-IsUsable = ground arith

first_free-IsUsable :
    (regs : List Register) (actives : List ActiveInterval) {r : Register}
    → All IsUsable regs
    → first_free regs actives ≡ some r
    → IsUsable r
unfolding first_free
first_free-IsUsable [] actives h e = cc
first_free-IsUsable (reg ∷ rest) actives h e = elim (Bool-cases (is_held reg actives)) [
  | inl t ↦ first_free-IsUsable rest actives h.1 (rw t at e)
  | inr t ↦ subst IsUsable (of_some (rw t at e)) h.0
]

-- The interval has got a register from x1 to x28.
abbrev pub IsServed : Allocation → LiveInterval → Type 0
IsServed allocation x =
    (r : Register) × (lookup x.virtual_register allocation ≡ some r) × IsUsable r

scan-IsServed :
    (xs : List LiveInterval) (a : Allocator) {a' : Allocator}
    → IsDistinct xs
    → scan xs a ≡ some a'
    → All (IsServed a'.allocation) xs
scan-IsServed [] a d e = tt
scan-IsServed (x ∷ xs) a d e =
    let b = scan-Begun x xs a e in
    (
      (
        b.first.reg,
        scan-keeps xs b.between x.virtual_register d.0 b.later ∙ lookup-Assigned_self b.first,
        first_free-IsUsable available_registers (remove_ended x.start a.active_intervals)
            available_registers-IsUsable b.first.is_next,
      ),
      scan-IsServed xs b.between d.1 b.later,
    )

-- For any instructions: where the scan of the computed intervals succeeds, every interval has a
-- physical register, one of x1 to x28.
pub compute_live_intervals-IsServed :
    (instructions : List Instruction) {a : Allocator}
    → scan (compute_live_intervals instructions) initial ≡ some a
    → All (IsServed a.allocation) (compute_live_intervals instructions)
compute_live_intervals-IsServed instructions e =
    scan-IsServed (compute_live_intervals instructions) initial
      (compute_live_intervals-IsDistinct instructions) e
