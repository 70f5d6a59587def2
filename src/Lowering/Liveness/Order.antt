-- ===== src/Lowering/Liveness/Order.antt =====
-- The order of the intervals of lib/Lowering/LivenessAnalysis.cpp, and the allocation that they give.
use dinorisc.Prelude.{
  ℕ, ◌+◌, ◌≤◌, ◌≡◌, ◌≢◌, sym, arith, ◌⊎◌, inl, inr, true, false, some, List, [], ◌∷◌, leb, ◌==◌,
  Bool-cases, All, All-map, insert,
}
use dinorisc.Arm.Syntax.{Instruction}
use dinorisc.Lowering.Liveness.{
  LiveInterval, UseDef, record_defs, use_def_loop, compute_use_def, make_intervals, insert_interval,
  sort_intervals, compute_live_intervals, get_defined_virtual_registers,
}
use dinorisc.Lowering.Allocator.{Allocator, initial, scan}
use dinorisc.Lowering.Allocator.Scan.{IsSorted, IsDistinct, NoClashes, scan-NoClashes}

insert_interval-All :
    (P : LiveInterval → Type 0) (a : LiveInterval) (xs : List LiveInterval)
    → P a
    → All P xs
    → All P (insert_interval a xs)
unfolding insert_interval
insert_interval-All P a [] pa h = (pa, tt)
insert_interval-All P a (b ∷ rest) pa h = elim (Bool-cases (leb a.start b.start)) [
  | inl t ↦ rw t (pa, h)
  | inr t ↦ rw t (h.0, insert_interval-All P a rest pa h.1)
]

leb-cases : (a b : ℕ) → ((leb a b ≡ true) × (a ≤ b)) ⊎ ((leb a b ≡ false) × (b ≤ a))
leb-cases a b = elim (Bool-cases (leb a b)) [
  | inl t ↦ inl (t, ground arith)
  | inr t ↦ inr (t, ground arith)
]

insert_interval-IsSorted :
    (a : LiveInterval) (xs : List LiveInterval) → IsSorted xs → IsSorted (insert_interval a xs)
unfolding insert_interval
insert_interval-IsSorted a [] h = (tt, tt)
insert_interval-IsSorted a (b ∷ rest) h = elim (leb-cases a.start b.start) [
  | inl (t, le) ↦ rw t ((le, All-map rest (λ y l. omega (arith, l, le)) h.0), h)
  | inr (t, le) ↦ rw t (insert_interval-All _ a rest le h.0, insert_interval-IsSorted a rest h.1)
]

insert_interval-IsDistinct :
    (a : LiveInterval) (xs : List LiveInterval)
    → All (λ y. a.virtual_register ≢ y.virtual_register) xs
    → IsDistinct xs
    → IsDistinct (insert_interval a xs)
unfolding insert_interval
insert_interval-IsDistinct a [] ne h = (tt, tt)
insert_interval-IsDistinct a (b ∷ rest) ne h = elim (leb-cases a.start b.start) [
  | inl (t, le) ↦ rw t (ne, h)
  | inr (t, le) ↦ rw t (
    insert_interval-All _ a rest (λ p. ne.0 (sym p)) h.0,
    insert_interval-IsDistinct a rest ne.1 h.1,
  )
]

sort_intervals-IsSorted : (xs : List LiveInterval) → IsSorted (sort_intervals xs)
unfolding sort_intervals
sort_intervals-IsSorted [] = tt
sort_intervals-IsSorted (a ∷ rest) =
    insert_interval-IsSorted a (sort_intervals rest) (sort_intervals-IsSorted rest)

pub sort_intervals-All :
    (P : LiveInterval → Type 0) (xs : List LiveInterval) → All P xs → All P (sort_intervals xs)
unfolding sort_intervals
sort_intervals-All P [] h = tt
sort_intervals-All P (a ∷ rest) h =
    insert_interval-All P a (sort_intervals rest) h.0 (sort_intervals-All P rest h.1)

sort_intervals-IsDistinct :
    (xs : List LiveInterval) → IsDistinct xs → IsDistinct (sort_intervals xs)
unfolding sort_intervals
sort_intervals-IsDistinct [] h = tt
sort_intervals-IsDistinct (a ∷ rest) h =
    insert_interval-IsDistinct a (sort_intervals rest) (sort_intervals-All _ rest h.0)
      (sort_intervals-IsDistinct rest h.1)

-- The keys of a map are different.
abbrev HasDistinctKeys : List (ℕ × ℕ) → Type 0
HasDistinctKeys [] = Unit
HasDistinctKeys ((key, value) ∷ rest) = All (λ entry. key ≢ entry.0) rest × HasDistinctKeys rest

insert-other :
    (j key value : ℕ) (m : List (ℕ × ℕ))
    → j ≢ key
    → All (λ entry. j ≢ entry.0) m
    → All (λ entry. j ≢ entry.0) (insert key value m)
unfolding insert
insert-other j key value [] ne h = (ne, tt)
insert-other j key value ((k, v) ∷ m) ne h = elim (Bool-cases (k == key)) [
  | inl t ↦ rw t (ne, h.1)
  | inr t ↦ rw t (h.0, insert-other j key value m ne h.1)
]

insert-HasDistinctKeys :
    (key value : ℕ) (m : List (ℕ × ℕ)) → HasDistinctKeys m → HasDistinctKeys (insert key value m)
unfolding insert
insert-HasDistinctKeys key value [] h = (tt, tt)
insert-HasDistinctKeys key value ((k, v) ∷ m) h = elim (Bool-cases (k == key)) [
  | inl t ↦ rw t (All-map m (λ entry ne p. ne (ground (arith, p))) h.0, h.1)
  | inr t ↦ rw t (
    insert-other k key value m (λ p. ground (arith, p)) h.0,
    insert-HasDistinctKeys key value m h.1,
  )
]

record_defs-HasDistinctKeys :
    (vregs : List ℕ) (i : ℕ) (m : List (ℕ × ℕ))
    → HasDistinctKeys m
    → HasDistinctKeys (record_defs vregs i m)
unfolding record_defs
record_defs-HasDistinctKeys [] i m h = h
record_defs-HasDistinctKeys (vreg ∷ rest) i m h =
    record_defs-HasDistinctKeys rest i (insert vreg i m) (insert-HasDistinctKeys vreg i m h)

use_def_loop-HasDistinctKeys :
    (instructions : List Instruction) (i : ℕ) (u : UseDef)
    → HasDistinctKeys u.def_sites
    → HasDistinctKeys (use_def_loop instructions i u).def_sites
unfolding use_def_loop
use_def_loop-HasDistinctKeys [] i u h = h
use_def_loop-HasDistinctKeys (inst ∷ rest) i u h =
    use_def_loop-HasDistinctKeys rest (i + 1) _
      (record_defs-HasDistinctKeys (get_defined_virtual_registers inst) i u.def_sites h)

make_intervals-other :
    (j : ℕ) (defs : List (ℕ × ℕ)) (uses : List (ℕ × List ℕ))
    → All (λ entry. j ≢ entry.0) defs
    → All (λ x. j ≢ x.virtual_register) (make_intervals defs uses)
unfolding make_intervals
make_intervals-other j [] uses h = tt
make_intervals-other j ((vreg, site) ∷ rest) uses h = (h.0, make_intervals-other j rest uses h.1)

make_intervals-IsDistinct :
    (defs : List (ℕ × ℕ)) (uses : List (ℕ × List ℕ))
    → HasDistinctKeys defs
    → IsDistinct (make_intervals defs uses)
unfolding make_intervals
make_intervals-IsDistinct [] uses h = tt
make_intervals-IsDistinct ((vreg, site) ∷ rest) uses h =
    (make_intervals-other vreg rest uses h.0, make_intervals-IsDistinct rest uses h.1)

pub compute_live_intervals-IsDistinct :
    (instructions : List Instruction) → IsDistinct (compute_live_intervals instructions)
unfolding compute_live_intervals compute_use_def
compute_live_intervals-IsDistinct instructions =
    sort_intervals-IsDistinct _
      (make_intervals-IsDistinct _ _ (use_def_loop-HasDistinctKeys instructions 0 _ tt))

compute_live_intervals-IsSorted :
    (instructions : List Instruction) → IsSorted (compute_live_intervals instructions)
unfolding compute_live_intervals
compute_live_intervals-IsSorted instructions =
    let u = compute_use_def instructions in
    sort_intervals-IsSorted (make_intervals u.def_sites u.use_sites)

-- For any instructions: where the scan of the intervals that the liveness analysis computes succeeds,
-- two intervals with the same physical register do not overlap. An interval starts at the last definition
-- of its register, so this is about the last value of each.
pub compute_live_intervals-NoClashes :
    (instructions : List Instruction) {a : Allocator}
    → scan (compute_live_intervals instructions) initial ≡ some a
    → NoClashes a.allocation (compute_live_intervals instructions)
compute_live_intervals-NoClashes instructions e =
    scan-NoClashes (compute_live_intervals instructions) initial
      (compute_live_intervals-IsSorted instructions)
      (compute_live_intervals-IsDistinct instructions) e
