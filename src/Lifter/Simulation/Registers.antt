-- ===== src/Lifter/Simulation/Registers.antt =====
-- The register cache of the lifter: `getRegisterValue` and `setRegisterValue`.
use dinorisc.Prelude.{
  ℕ, ◌≡◌, refl, sym, ap, ◌∙◌, inl, inr, arith, Bool, true, false, Option, some, none, of_some, List,
  ◌==◌, ◌||◌, ◌⊎◌, ==_iff, Bool-cases, lookup, insert, lookup-insert, contains, add_member,
  contains-add_member, if◌then◌else◌,
}
use mathlib.Core.Path.{subst}
use dinorisc.Guest.{update}
use dinorisc.Ir.Syntax.{IrType, i64, ValueId, reg_read}
use dinorisc.Ir.Meaning.{Machine, define, run_kind}
use dinorisc.Riscv.Meaning.{Hart, write_x}
use dinorisc.Lifter.Builder.{
  Lifter, create_constant, read_register, get_register_value, set_register_value, pure,
}
use dinorisc.Lifter.Simulation.Rules.{
  after, Denotes, Simulates, Runs, Always, Makes, Extends-refl, Runs-bind, Runs-eq, Runs-pure,
}
use dinorisc.Lifter.Simulation.Builder.{add_instruction-Runs, create_constant-Runs}

-- The cache is no part of the machine.
abbrev with_cache : List (ℕ × ValueId) → List ℕ → Lifter → Lifter
with_cache c ms l = record l { cached_register_values = c; modified_registers = ms }

Denotes-with_cache :
    {m : Machine} {l : Lifter} (c : List (ℕ × ValueId)) (ms : List ℕ) (v : ValueId) (t : IrType)
    (n : ℕ)
    → Denotes m l v t n
    → Denotes m (with_cache c ms l) v t n
Denotes-with_cache c ms v t n d = record { made = d.made; typed = d.typed; valued = d.valued }

if_some :
    (b : Bool) {v u : ValueId} {o : Option ValueId}
    → (if b then some v else o) ≡ some u
    → ((b ≡ true) × (v ≡ u)) ⊎ ((b ≡ false) × (o ≡ some u))
if_some true e = inl (refl, of_some e)
if_some false e = inr (refl, e)

module _ {m : Machine} {h : Hart} where
  -- A register is cached under a value that denotes it.
  cache_read :
      {l : Lifter} (reg : ℕ) (v : ValueId)
      → Simulates m h l
      → Denotes m l v i64 (h.x reg)
      → Simulates m h (with_cache (insert reg v l.cached_register_values) l.modified_registers l)
  cache_read {l} reg v s d =
      let c = insert reg v l.cached_register_values in
      record {
        same_memory = s.same_memory;
        cached = λ r u e.
            Denotes-with_cache c l.modified_registers u i64 (h.x r)
              (elim (if_some (reg == r)
                (sym (lookup-insert reg r v l.cached_register_values) ∙ e)) [
                  | inl (t, p) ↦
                      subst (λ k. Denotes m l u i64 (h.x k)) ((==_iff reg r).0 t)
                        (subst (λ w. Denotes m l w i64 (h.x reg)) p d)
                  | inr (f, p) ↦ s.cached r u p
                ]);
        unmodified = s.unmodified;
        modified = λ r e. elim (Bool-cases (reg == r)) [
          | inl t ↦ (v, rw (lookup-insert reg r v l.cached_register_values, t))
          | inr f ↦
              let (w, p) = s.modified r e in
              (w, rw (lookup-insert reg r v l.cached_register_values, f) p)
        ];
        zero_x = s.zero_x;
      }

  uncached_register :
      {l : Lifter} {reg : ℕ}
      → Simulates m h l
      → lookup reg l.cached_register_values ≡ none
      → (after m l).registers reg ≡ h.x reg
  uncached_register {l} {reg} s e = elim (Bool-cases (contains reg l.modified_registers)) [
    | inl t ↦ let (v, p) = s.modified reg t in cc
    | inr f ↦ s.unmodified reg f
  ]

  read_register-Runs :
      {l : Lifter} (reg : ℕ) (o : Option ValueId)
      → Simulates m h l
      → lookup reg l.cached_register_values ≡ o
      → Runs m h (read_register reg o) l (Makes m i64 (h.x reg))
  unfolding read_register run_kind
  read_register-Runs {l} reg (some v) s e = record {
    result = v;
    left = l;
    runs = refl;
    simulates = s;
    extends = Extends-refl m l;
    holds = s.cached reg v e;
  }
  read_register-Runs {l} reg none s e =
      Runs-bind
        (add_instruction-Runs s (reg_read reg) i64 (h.x reg)
          (λ i. define (after m l) l.next_value_id i64 (uncached_register s e i)))
        (λ v l1 s1 k1 d1.
          let c = insert reg v l1.cached_register_values in
          record {
            result = v;
            left = with_cache c l1.modified_registers l1;
            runs = refl;
            simulates = cache_read reg v s1 d1;
            extends = record {
              kept = Denotes-with_cache c l1.modified_registers;
              same_registers = refl;
            };
            holds = Denotes-with_cache c l1.modified_registers v i64 (h.x reg) d1;
          })

  pub get_register_value-Runs :
      {l : Lifter} (reg : ℕ)
      → Simulates m h l
      → Runs m h (get_register_value reg) l (Makes m i64 (h.x reg))
  unfolding get_register_value
  get_register_value-Runs {l} reg s = elim (Bool-cases (reg == 0)) [
    | inl t ↦ Runs-eq (get_register_value reg) (create_constant i64 0) (rw t) (
        subst (λ n. Runs m h (create_constant i64 0) l (Makes m i64 n))
          (sym s.zero_x ∙ ap h.x (sym ((==_iff reg 0).0 t))) (create_constant-Runs s i64 0))
    | inr f ↦
        Runs-eq (get_register_value reg) (read_register reg (lookup reg l.cached_register_values))
          (rw f) (read_register-Runs reg (lookup reg l.cached_register_values) s refl)
  ]

-- A register is set: it is cached under its new value, and is to be written back.
abbrev set_cache : ℕ → ValueId → Lifter → Lifter
set_cache reg v l =
    with_cache (insert reg v l.cached_register_values) (add_member reg l.modified_registers) l

or_false : (a b : Bool) → (a || b) ≡ false → (a ≡ false) × (b ≡ false)
or_false a b e = ground arith

set_cache-Simulates :
    {m : Machine} {h : Hart} {l : Lifter} (reg : ℕ) (v : ValueId) (n : ℕ)
    → (reg == 0) ≡ false
    → Simulates m h l
    → Denotes m l v i64 n
    → Simulates m (record h { x = update h.x reg n }) (set_cache reg v l)
set_cache-Simulates {m} {h} {l} reg v n z s d =
    let c = insert reg v l.cached_register_values in
    let ms = add_member reg l.modified_registers in
    record {
      same_memory = s.same_memory;
      cached = λ r u e.
          Denotes-with_cache {l = l} c ms u i64 (update h.x reg n r)
            (elim (if_some (reg == r) (sym (lookup-insert reg r v l.cached_register_values) ∙ e)) [
              | inl (t, p) ↦ rw t (subst (λ w. Denotes m l w i64 n) p d)
              | inr (f, p) ↦ rw f (s.cached r u p)
            ]);
      unmodified = λ r e.
          let (f, g) =
            or_false (reg == r) (contains r l.modified_registers)
              (sym (contains-add_member reg r l.modified_registers) ∙ e) in
          rw f (s.unmodified r g);
      modified = λ r e. elim (Bool-cases (reg == r)) [
        | inl t ↦ (v, rw (lookup-insert reg r v l.cached_register_values, t))
        | inr f ↦
            let old = rw (contains-add_member reg r l.modified_registers, f) at e in
            let (w, p) = s.modified r old in
            (w, rw (lookup-insert reg r v l.cached_register_values, f) p)
      ];
      zero_x = rw z s.zero_x;
    }

-- The destination register gets the value; `x0` does not.
pub set_register_value-Runs :
    {m : Machine} {h : Hart} {l : Lifter} (reg : ℕ) {v : ValueId} {n : ℕ}
    → Simulates m h l
    → Denotes m l v i64 n
    → Runs m (write_x reg n h) (set_register_value reg v) l Always
unfolding set_register_value write_x
set_register_value-Runs {m} {h} {l} reg {v} {n} s d = elim (Bool-cases (reg == 0)) [
  | inl t ↦ rw t (
      Runs-eq (set_register_value reg v) (pure tt) (rw t)
        (Runs-pure {Q = Always {A = Unit {0}}} tt s tt))
  | inr f ↦
      let c = insert reg v l.cached_register_values in
      let ms = add_member reg l.modified_registers in
      rw f (record {
        result = tt;
        left = set_cache reg v l;
        runs = rw f;
        simulates = set_cache-Simulates reg v n f s d;
        extends = record { kept = Denotes-with_cache c ms; same_registers = refl };
        holds = tt;
      })
]
