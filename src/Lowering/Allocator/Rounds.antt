-- ===== src/Lowering/Allocator/Rounds.antt =====
-- A round of the scan in lib/Lowering/RegisterAllocator.cpp, and what the rounds behind it keep.
use mathlib.Core.Path.{subst}
use dinorisc.Prelude.{
  ℕ, ◌≡◌, ◌≢◌, refl, sym, ◌∙◌, ap, ◌⊎◌, inl, inr, false, Option, none, some, List, [], ◌∷◌, ◌++◌,
  ◌==◌, ==_refl, ne→==-false, Bool-cases, Option-cases, of_some, All, lookup, insert, lookup-insert,
  if◌then◌else◌,
}
use dinorisc.Arm.Syntax.{Register}
use dinorisc.Lowering.Liveness.{LiveInterval}
use dinorisc.Lowering.Allocator.{
  available_registers, ActiveInterval, Allocator, is_held, first_free, remove_ended, scan_step,
  scan,
}

first_free-not_held :
    (regs : List Register) (actives : List ActiveInterval) {r : Register}
    → first_free regs actives ≡ some r
    → is_held r actives ≡ false
unfolding first_free
first_free-not_held [] actives e = cc
first_free-not_held (reg ∷ rest) actives e = elim (Bool-cases (is_held reg actives)) [
  | inl t ↦ first_free-not_held rest actives (rw t at e)
  | inr t ↦ subst (λ q. is_held q actives ≡ false) (of_some (rw t at e)) t
]

-- What a round of the scan does, where a register is free.
pub record Assigned (x : LiveInterval) (a a' : Allocator) : Type 0 where
  pub reg : Register
  pub is_free : is_held reg (remove_ended x.start a.active_intervals) ≡ false
  pub is_next : first_free available_registers (remove_ended x.start a.active_intervals) ≡ some reg
  pub allocated : a'.allocation ≡ insert x.virtual_register reg a.allocation
  pub activated :
      a'.active_intervals
      ≡ remove_ended x.start a.active_intervals ++ record { interval = x; physical_reg = reg } ∷ []

scan_step-Assigned :
    (x : LiveInterval) (a : Allocator) {a' : Allocator} → scan_step x a ≡ some a' → Assigned x a a'
unfolding scan_step
scan_step-Assigned x a {a'} e = go (Option-cases (first_free available_registers actives))
  where
    actives : List ActiveInterval
    actives = remove_ended x.start a.active_intervals

    go :
        (first_free available_registers actives ≡ none)
          ⊎ ((r : Register) × (first_free available_registers actives ≡ some r))
        → Assigned x a a'
    go (inl n) = cc (rw n at e)
    go (inr (r, f)) =
        let same = of_some {A = Allocator} (rw f at e) in
        record {
          reg = r;
          is_free = first_free-not_held available_registers actives f;
          is_next = f;
          allocated = sym (ap (λ (b : Allocator). b.allocation) same);
          activated = sym (ap (λ (b : Allocator). b.active_intervals) same);
        }

-- A scan that ends well has made its first round, and goes on from there.
pub record Begun (x : LiveInterval) (xs : List LiveInterval) (a a' : Allocator) : Type 0 where
  pub between : Allocator
  pub first : Assigned x a between
  pub later : scan xs between ≡ some a'

pub scan-Begun :
    (x : LiveInterval) (xs : List LiveInterval) (a : Allocator) {a' : Allocator}
    → scan (x ∷ xs) a ≡ some a'
    → Begun x xs a a'
unfolding scan
scan-Begun x xs a {a'} e = go (scan_step x a) refl
  where
    go : (s : Option Allocator) → scan_step x a ≡ s → Begun x xs a a'
    go none n = cc (rw (n, scan) at e)
    go (some b) n = record {
      between = b;
      first = scan_step-Assigned x a n;
      later = rw (n, scan) at e;
    }

scan-nil : (a : Allocator) {a' : Allocator} → scan [] a ≡ some a' → a ≡ a'
unfolding scan
scan-nil a e = of_some {A = Allocator} e

pub lookup-Assigned :
    {x : LiveInterval} {a b : Allocator} (s : Assigned x a b) (v : ℕ)
    → lookup v b.allocation
      ≡ (if x.virtual_register == v then some s.reg else lookup v a.allocation)
lookup-Assigned {x} {a} s v = rw s.allocated (lookup-insert x.virtual_register v s.reg a.allocation)

pub lookup-Assigned_self :
    {x : LiveInterval} {a b : Allocator} (s : Assigned x a b)
    → lookup x.virtual_register b.allocation ≡ some s.reg
lookup-Assigned_self {x} s = lookup-Assigned s x.virtual_register ∙ rw (==_refl x.virtual_register)

-- A register that has been chosen stays, as long as its interval does not come again.
pub scan-keeps :
    (xs : List LiveInterval) (a : Allocator) (v : ℕ) {a' : Allocator}
    → All (λ y. v ≢ y.virtual_register) xs
    → scan xs a ≡ some a'
    → lookup v a'.allocation ≡ lookup v a.allocation
scan-keeps [] a v d e = ap (λ (b : Allocator). lookup v b.allocation) (sym (scan-nil a e))
scan-keeps (x ∷ xs) a v d e =
    let r = scan-Begun x xs a e in
    scan-keeps xs r.between v d.1 r.later
    ∙ lookup-Assigned r.first v
    ∙ rw (ne→==-false x.virtual_register v d.0)
