-- ===== src/Lowering/Liveness.antt =====
-- lib/Lowering/LivenessAnalysis.cpp: the interval in which each virtual register is live.
pub mod Order
pub mod Coverage
mod Tests
use Prim.Native.Nat.{max}
use dinorisc.Prelude.{
  ℕ, ◌+◌, Bool, not, ◌||◌, Option, none, some, List, [], ◌∷◌, ltb, leb, if◌then◌else◌, lookup,
  insert, add_member,
}
use dinorisc.Arm.Syntax.{
  Opcode, Operand, virtual, TwoOperandInst, MemoryInst, Instruction, three_operand, two_operand,
  memory, move_wide, branch, conditional, conditional_select,
}

pub record LiveInterval : Type 0 where
  pub virtual_register : ℕ
  pub start : ℕ
  pub end : ℕ

unfoldable pub overlaps : LiveInterval → LiveInterval → Bool
overlaps a b = not (ltb a.end b.start || ltb b.end a.start)

unfoldable pub get_virtual_register_from_operand : Operand → Option ℕ
get_virtual_register_from_operand (virtual v) = some v
get_virtual_register_from_operand _ = none

-- `if (auto vreg = …) set.insert(*vreg)`
insert_found : Option ℕ → List ℕ → List ℕ
unfolding add_member
insert_found (some vreg) s = add_member vreg s
insert_found none s = s

unfoldable pub insert_operand : Operand → List ℕ → List ℕ
unfolding get_virtual_register_from_operand insert_found
insert_operand operand s = insert_found (get_virtual_register_from_operand operand) s

two_operand_uses : Opcode → TwoOperandInst → List ℕ
unfolding insert_operand
two_operand_uses Opcode.cmp inst = insert_operand inst.dest (insert_operand inst.src [])
two_operand_uses _ inst = insert_operand inst.src []

two_operand_defines : Opcode → TwoOperandInst → List ℕ
unfolding insert_operand
two_operand_defines Opcode.cmp inst = []
two_operand_defines _ inst = insert_operand inst.dest []

memory_uses : Opcode → MemoryInst → List ℕ
unfolding insert_operand
memory_uses Opcode.str inst = insert_operand inst.reg (insert_operand inst.base_reg [])
memory_uses _ inst = insert_operand inst.base_reg []

memory_defines : Opcode → MemoryInst → List ℕ
unfolding insert_operand
memory_defines Opcode.ldr inst = insert_operand inst.reg []
memory_defines _ inst = []

unfoldable pub get_used_virtual_registers : Instruction → List ℕ
unfolding insert_operand two_operand_uses memory_uses
get_used_virtual_registers (three_operand inst) =
    insert_operand inst.src2 (insert_operand inst.src1 [])
get_used_virtual_registers (two_operand inst) = two_operand_uses inst.opcode inst
get_used_virtual_registers (memory inst) = memory_uses inst.opcode inst
get_used_virtual_registers (conditional_select inst) =
    insert_operand inst.src2 (insert_operand inst.src1 [])
get_used_virtual_registers _ = []

unfoldable pub get_defined_virtual_registers : Instruction → List ℕ
unfolding insert_operand two_operand_defines memory_defines
get_defined_virtual_registers (three_operand inst) = insert_operand inst.dest []
get_defined_virtual_registers (two_operand inst) = two_operand_defines inst.opcode inst
get_defined_virtual_registers (memory inst) = memory_defines inst.opcode inst
get_defined_virtual_registers (move_wide inst) = insert_operand inst.dest []
get_defined_virtual_registers (conditional inst) = insert_operand inst.dest []
get_defined_virtual_registers (conditional_select inst) = insert_operand inst.dest []
get_defined_virtual_registers (branch inst) = []

-- `defSites` keeps the last definition of a register, `useSites` all its uses.
pub record UseDef : Type 0 where
  pub def_sites : List (ℕ × ℕ)
  pub use_sites : List (ℕ × List ℕ)

unfoldable pub record_defs : List ℕ → ℕ → List (ℕ × ℕ) → List (ℕ × ℕ)
record_defs [] i m = m
record_defs (vreg ∷ rest) i m = record_defs rest i (insert vreg i m)

abbrev pub sites_or_empty : Option (List ℕ) → List ℕ
sites_or_empty (some sites) = sites
sites_or_empty none = []

-- The newest site stands first in the model's list of use sites.
unfoldable pub record_uses : List ℕ → ℕ → List (ℕ × List ℕ) → List (ℕ × List ℕ)
record_uses [] i m = m
record_uses (vreg ∷ rest) i m =
    record_uses rest i (insert vreg (i ∷ sites_or_empty (lookup vreg m)) m)

unfoldable pub use_def_loop : List Instruction → ℕ → UseDef → UseDef
unfolding record_defs record_uses get_defined_virtual_registers get_used_virtual_registers
use_def_loop [] i u = u
use_def_loop (inst ∷ rest) i u = use_def_loop rest (i + 1) (record u {
  def_sites = record_defs (get_defined_virtual_registers inst) i u.def_sites;
  use_sites = record_uses (get_used_virtual_registers inst) i u.use_sites;
})

unfoldable pub compute_use_def : List Instruction → UseDef
unfolding use_def_loop
compute_use_def instructions =
    use_def_loop instructions 0 (record { def_sites = []; use_sites = [] })

-- `*std::max_element`, where there is a site.
unfoldable pub max_element : ℕ → List ℕ → ℕ
max_element best [] = best
max_element best (site ∷ rest) = max_element (max best site) rest

interval_end : ℕ → Option (List ℕ) → ℕ
unfolding max_element
interval_end def_site (some (site ∷ rest)) = max_element site rest
interval_end def_site _ = def_site

unfoldable pub make_intervals : List (ℕ × ℕ) → List (ℕ × List ℕ) → List LiveInterval
unfolding interval_end
make_intervals [] uses = []
make_intervals ((vreg, def_site) ∷ rest) uses =
    record {
      virtual_register = vreg;
      start = def_site;
      end = interval_end def_site (lookup vreg uses);
    }
    ∷ make_intervals rest uses

-- `std::sort` by start. The order of equal starts is not specified; here it stays.
unfoldable pub insert_interval : LiveInterval → List LiveInterval → List LiveInterval
insert_interval a [] = a ∷ []
insert_interval a (b ∷ rest) =
    if leb a.start b.start then a ∷ b ∷ rest else b ∷ insert_interval a rest

unfoldable pub sort_intervals : List LiveInterval → List LiveInterval
unfolding insert_interval
sort_intervals [] = []
sort_intervals (a ∷ rest) = insert_interval a (sort_intervals rest)

unfoldable pub compute_live_intervals : List Instruction → List LiveInterval
unfolding compute_use_def make_intervals sort_intervals lookup insert
compute_live_intervals instructions =
    let u = compute_use_def instructions in sort_intervals (make_intervals u.def_sites u.use_sites)
