-- ===== src/Lowering/Liveness/Coverage.antt =====
-- The ends of the intervals of lib/Lowering/LivenessAnalysis.cpp: no use lies behind them.
use Prim.Native.Nat.{max}
use mathlib.Core.Path.{subst}
use dinorisc.Prelude.{
  ℕ, zero, suc, ◌+◌, ◌≤◌, ◌≡◌, refl, ap, ◌∙◌, arith, inl, inr, Bool, true, false, ◌&&◌, ◌||◌,
  Option, none, some, of_some, List, [], ◌∷◌, ◌==◌, ==_iff, Bool-cases, All, get_elem?, lookup,
  insert, lookup-insert, contains,
}
use dinorisc.Arm.Syntax.{Instruction}
use dinorisc.Lowering.Liveness.{
  LiveInterval, UseDef, sites_or_empty, record_uses, use_def_loop, compute_use_def, max_element,
  interval_end, make_intervals, compute_live_intervals, get_used_virtual_registers,
}
use dinorisc.Lowering.Liveness.Order.{sort_intervals-All}

-- Whether the map records a use of `vreg` at `site`.
abbrev used_at : ℕ → ℕ → List (ℕ × List ℕ) → Bool
used_at vreg site m = contains site (sites_or_empty (lookup vreg m))

-- A recorded use is kept, and the uses of an instruction are recorded.
used_at-insert :
    (v j key i : ℕ) (m : List (ℕ × List ℕ))
    → used_at v j (insert key (i ∷ sites_or_empty (lookup key m)) m)
      ≡ ((key == v && i == j) || used_at v j m)
unfolding contains
used_at-insert v j key i m =
    rw (lookup-insert key v (i ∷ sites_or_empty (lookup key m)) m)
      (elim (Bool-cases (key == v)) [ inl t ↦ rw (t, (==_iff key v).0 t) refl | inr t ↦ rw t refl ])

or_true : (b : Bool) → (b || true) ≡ true
or_true true = refl
or_true false = refl

shuffle : (a b c d : Bool) → ((b && c) || ((a && c) || d)) ≡ (((a || b) && c) || d)
shuffle a b c d = ground arith

used_at-record_uses :
    (v j : ℕ) (vregs : List ℕ) (i : ℕ) (m : List (ℕ × List ℕ))
    → used_at v j (record_uses vregs i m) ≡ ((contains v vregs && i == j) || used_at v j m)
unfolding record_uses contains
used_at-record_uses v j [] i m = refl
used_at-record_uses v j (key ∷ rest) i m =
    used_at-record_uses v j rest i (insert key (i ∷ sites_or_empty (lookup key m)) m)
    ∙ (ap (λ b. (contains v rest && i == j) || b) (used_at-insert v j key i m)
        ∙ shuffle (key == v) (contains v rest) (i == j) (used_at v j m))

use_def_loop-keeps :
    (v j : ℕ) (instructions : List Instruction) (i : ℕ) (u : UseDef)
    → used_at v j u.use_sites ≡ true
    → used_at v j (use_def_loop instructions i u).use_sites ≡ true
unfolding use_def_loop
use_def_loop-keeps v j [] i u h = h
use_def_loop-keeps v j (inst ∷ rest) i u h = use_def_loop-keeps v j rest (i + 1) _ (
    used_at-record_uses v j (get_used_virtual_registers inst) i u.use_sites
    ∙ rw h (or_true (contains v (get_used_virtual_registers inst) && i == j)))

use_def_loop-uses :
    (v k : ℕ) (instructions : List Instruction) (i : ℕ) (u : UseDef) {inst : Instruction}
    → get_elem? instructions k ≡ some inst
    → contains v (get_used_virtual_registers inst) ≡ true
    → used_at v (i + k) (use_def_loop instructions i u).use_sites ≡ true
unfolding use_def_loop
use_def_loop-uses v k [] i u e h = cc
use_def_loop-uses v zero (first ∷ rest) i u {inst} e h =
    use_def_loop-keeps v (i + 0) rest (i + 1) _ (
      used_at-record_uses v (i + 0) (get_used_virtual_registers first) i u.use_sites
      ∙ rw (of_some e, h, (==_iff i (i + 0)).1 (omega arith)) refl)
use_def_loop-uses v (suc k) (first ∷ rest) i u {inst} e h =
    subst (λ site. used_at v site (use_def_loop (first ∷ rest) i u).use_sites ≡ true) (omega arith)
      (use_def_loop-uses v k rest (i + 1) _ e h)

max_element-best : (best : ℕ) (sites : List ℕ) → best ≤ max_element best sites
unfolding max_element
max_element-best best [] = omega arith
max_element-best best (site ∷ rest) = omega (arith, max_element-best (max best site) rest)

max_element-contains :
    (j best : ℕ) (sites : List ℕ) → contains j sites ≡ true → j ≤ max_element best sites
unfolding max_element contains
max_element-contains j best [] h = cc
max_element-contains j best (site ∷ rest) h = elim (Bool-cases (site == j)) [
  | inl t ↦ let p = (==_iff site j).0 t in omega (arith, p, max_element-best (max best site) rest)
  | inr t ↦ max_element-contains j (max best site) rest (rw t at h)
]

interval_end-bound :
    (def_site j : ℕ) (found : Option (List ℕ))
    → contains j (sites_or_empty found) ≡ true
    → j ≤ interval_end def_site found
unfolding interval_end contains
interval_end-bound def_site j none h = cc
interval_end-bound def_site j (some []) h = cc
interval_end-bound def_site j (some (site ∷ rest)) h = elim (Bool-cases (site == j)) [
  | inl t ↦ omega (arith, (==_iff site j).0 t, max_element-best site rest)
  | inr t ↦ max_element-contains j site rest (rw t at h)
]

-- No instruction behind the end of the interval uses its register.
abbrev pub EndsAfterUses : List Instruction → LiveInterval → Type 0
EndsAfterUses instructions x =
    (k : ℕ) (inst : Instruction)
    → get_elem? instructions k ≡ some inst
    → contains x.virtual_register (get_used_virtual_registers inst) ≡ true
    → k ≤ x.end

compute_use_def-uses :
    (v k : ℕ) (instructions : List Instruction) {inst : Instruction}
    → get_elem? instructions k ≡ some inst
    → contains v (get_used_virtual_registers inst) ≡ true
    → used_at v k (compute_use_def instructions).use_sites ≡ true
unfolding compute_use_def
compute_use_def-uses v k instructions e h =
    let empty : UseDef = record { def_sites = []; use_sites = [] } in
    subst (λ site. used_at v site (use_def_loop instructions 0 empty).use_sites ≡ true)
      (omega arith) (use_def_loop-uses v k instructions 0 empty e h)

make_intervals-EndsAfterUses :
    (instructions : List Instruction) (defs : List (ℕ × ℕ))
    → All
        (EndsAfterUses instructions)
        (make_intervals defs (compute_use_def instructions).use_sites)
unfolding make_intervals
make_intervals-EndsAfterUses instructions [] = tt
make_intervals-EndsAfterUses instructions ((vreg, site) ∷ rest) = (
  λ k inst e h.
      interval_end-bound site k (lookup vreg (compute_use_def instructions).use_sites)
        (compute_use_def-uses vreg k instructions e h),
  make_intervals-EndsAfterUses instructions rest,
)

-- Every interval that the liveness analysis computes reaches to the last instruction that uses its
-- virtual register, for any instructions.
pub compute_live_intervals-EndsAfterUses :
    (instructions : List Instruction)
    → All (EndsAfterUses instructions) (compute_live_intervals instructions)
unfolding compute_live_intervals
compute_live_intervals-EndsAfterUses instructions =
    let u = compute_use_def instructions in
    sort_intervals-All (EndsAfterUses instructions) (make_intervals u.def_sites u.use_sites)
      (make_intervals-EndsAfterUses instructions u.def_sites)
