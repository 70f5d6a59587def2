-- ===== src/Lowering/Allocator/Scan.antt =====
-- Linear scan: registers of intervals that are live at the same time differ.
use dinorisc.Prelude.{
  ℕ, ◌≤◌, ◌<◌, ◌≡◌, ◌≢◌, refl, sym, ◌∙◌, ◌⊎◌, inl, inr, arith, true, false, some, List, [], ◌∷◌,
  ◌++◌, ltb, ==_refl, Bool-cases, of_some, All, All-map, lookup,
}
use dinorisc.Arm.Syntax.{Register, register_number}
use dinorisc.Lowering.Liveness.{LiveInterval, overlaps}
use dinorisc.Lowering.Allocator.{
  ActiveInterval, Allocator, same_register, is_held, remove_ended, scan,
}
use dinorisc.Lowering.Allocator.Rounds.{Assigned, scan-Begun, lookup-Assigned_self, scan-keeps}

-- Sorted by start, each with a register of its own, as the analysis delivers them.
abbrev pub IsSorted : List LiveInterval → Type 0
IsSorted [] = Unit
IsSorted (x ∷ rest) = All (λ y. x.start ≤ y.start) rest × IsSorted rest

abbrev pub IsDistinct : List LiveInterval → Type 0
IsDistinct [] = Unit
IsDistinct (x ∷ rest) = All (λ y. x.virtual_register ≢ y.virtual_register) rest × IsDistinct rest

abbrev pub Allocation : Type 0
Allocation = List (ℕ × Register)

-- Two intervals that have the same register do not overlap.
abbrev pub NoClash : Allocation → LiveInterval → LiveInterval → Type 0
NoClash allocation x y =
    (r : Register)
    → lookup x.virtual_register allocation ≡ some r
    → lookup y.virtual_register allocation ≡ some r
    → overlaps x y ≡ false

abbrev pub NoClashes : Allocation → List LiveInterval → Type 0
NoClashes allocation [] = Unit
NoClashes allocation (x ∷ rest) = All (λ y. NoClash allocation x y) rest × NoClashes allocation rest

-- `x` is active with the register `r`.
abbrev HeldBy : List ActiveInterval → LiveInterval → Register → Type 0
HeldBy [] x r = ⊥
HeldBy (active ∷ rest) x r =
    ((active.interval.end ≡ x.end) × (active.physical_reg ≡ r)) ⊎ HeldBy rest x r

same_register_of_eq : {r s : Register} → r ≡ s → same_register r s ≡ true
unfolding same_register
same_register_of_eq {r} {s} p = rw p (==_refl (register_number s))

HeldBy-is_held :
    (actives : List ActiveInterval) (x : LiveInterval) (r : Register)
    → HeldBy actives x r
    → is_held r actives ≡ true
unfolding is_held
HeldBy-is_held [] x r h = absurd h
HeldBy-is_held (active ∷ rest) x r (inl (e, p)) = ground (arith, same_register_of_eq p)
HeldBy-is_held (active ∷ rest) x r (inr h) = ground (arith, HeldBy-is_held rest x r h)

HeldBy-remove_ended :
    (actives : List ActiveInterval) (x : LiveInterval) (r : Register) (p : ℕ)
    → HeldBy actives x r
    → (x.end < p) ⊎ HeldBy (remove_ended p actives) x r
unfolding remove_ended
HeldBy-remove_ended [] x r p h = absurd h
HeldBy-remove_ended (active ∷ rest) x r p (inl (e, q)) =
    elim (Bool-cases (ltb active.interval.end p)) [
      | inl t ↦ inl (ground arith)
      | inr t ↦ rw t (inr (inl (e, q)))
    ]
HeldBy-remove_ended (active ∷ rest) x r p (inr h) = elim (HeldBy-remove_ended rest x r p h) [
  | inl l ↦ inl l
  | inr k ↦ elim (Bool-cases (ltb active.interval.end p)) [
    | inl t ↦ rw t (inr k)
    | inr t ↦ rw t (inr (inr k))
  ]
]

HeldBy-append :
    (actives more : List ActiveInterval) (x : LiveInterval) (r : Register)
    → HeldBy actives x r
    → HeldBy (actives ++ more) x r
HeldBy-append [] more x r h = absurd h
HeldBy-append (active ∷ rest) more x r (inl e) = inl e
HeldBy-append (active ∷ rest) more x r (inr h) = inr (HeldBy-append rest more x r h)

HeldBy-append_last :
    (actives : List ActiveInterval) (x : LiveInterval) (r : Register)
    → HeldBy (actives ++ record { interval = x; physical_reg = r } ∷ []) x r
HeldBy-append_last [] x r = inl (refl, refl)
HeldBy-append_last (active ∷ rest) x r = inr (HeldBy-append_last rest x r)

-- An interval that holds the register `r` at the point `p`, or has ended before it.
abbrev Tracked : Allocator → ℕ → LiveInterval → Register → Type 0
Tracked a p x r = (x.end < p) ⊎ HeldBy a.active_intervals x r

Tracked-Assigned :
    {a b : Allocator} {y : LiveInterval} (s : Assigned y a b) (p : ℕ) (x : LiveInterval)
    (r : Register)
    → p ≤ y.start
    → Tracked a p x r
    → Tracked b y.start x r
Tracked-Assigned s p x r h (inl l) = inl (omega arith)
Tracked-Assigned {a} {y = y} s p x r h (inr k) =
    elim (HeldBy-remove_ended a.active_intervals x r y.start k) [
      | inl l ↦ inl l
      | inr k' ↦ inr (rw s.activated (HeldBy-append _ _ x r k'))
    ]

-- At the round for `y` the register `r` of `x` is taken, if `x` has not ended.
Assigned-other :
    {a b : Allocator} {y : LiveInterval} (s : Assigned y a b) (p : ℕ) (x : LiveInterval)
    (r : Register)
    → p ≤ y.start
    → Tracked a p x r
    → s.reg ≡ r
    → overlaps x y ≡ false
unfolding overlaps
Assigned-other s p x r h (inl l) q = ground arith
Assigned-other {a} {y = y} s p x r h (inr k) q =
    elim (HeldBy-remove_ended a.active_intervals x r y.start k) [
      | inl l ↦ ground arith
      | inr k' ↦ cc (HeldBy-is_held _ x r k', s.is_free, q)
    ]

-- No interval behind gets the register of `x` while `x` is live.
scan-avoids :
    (ys : List LiveInterval) (a : Allocator) (p : ℕ) (x : LiveInterval) (r : Register)
    {a' : Allocator}
    → scan ys a ≡ some a'
    → Tracked a p x r
    → All (λ y. p ≤ y.start) ys
    → IsSorted ys
    → IsDistinct ys
    → All (λ y. lookup y.virtual_register a'.allocation ≡ some r → overlaps x y ≡ false) ys
scan-avoids [] a p x r e t ps srt dst = tt
scan-avoids (y ∷ ys) a p x r e t ps srt dst =
    let b = scan-Begun y ys a e in
    (
      (λ q. Assigned-other b.first p x r ps.0 t (
          of_some (
            sym (lookup-Assigned_self b.first)
            ∙ (sym (scan-keeps ys b.between y.virtual_register dst.0 b.later) ∙ q)))),
      scan-avoids ys b.between y.start x r b.later (Tracked-Assigned b.first p x r ps.0 t) srt.0
          srt.1 dst.1,
    )

-- Any two intervals to which a successful scan gave the same register do not overlap, for intervals
-- that are sorted by start and have different virtual registers, whatever was allocated before.
pub scan-NoClashes :
    (xs : List LiveInterval) (a : Allocator) {a' : Allocator}
    → IsSorted xs
    → IsDistinct xs
    → scan xs a ≡ some a'
    → NoClashes a'.allocation xs
scan-NoClashes [] a srt dst e = tt
scan-NoClashes (x ∷ xs) a {a'} srt dst e =
    let b = scan-Begun x xs a e in
    let keeps = scan-keeps xs b.between x.virtual_register dst.0 b.later in
    let tracked : Tracked b.between x.start x b.first.reg =
      inr (rw b.first.activated (HeldBy-append_last _ x b.first.reg)) in
    (
      All-map xs
          (λ y avoids r ex ey. avoids (ey ∙ sym (sym (keeps ∙ lookup-Assigned_self b.first) ∙ ex)))
          (scan-avoids xs b.between x.start x b.first.reg b.later tracked srt.0 srt.1 dst.1),
      scan-NoClashes xs b.between srt.1 dst.1 b.later,
    )
