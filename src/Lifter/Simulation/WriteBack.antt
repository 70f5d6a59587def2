-- ===== src/Lifter/Simulation/WriteBack.antt =====
-- `finalizeRegisterWrites`: the modified registers go back to the guest state.
use dinorisc.Prelude.{
  ℕ, ◌≡◌, refl, ap, ◌∙◌, inl, inr, arith, Bool, true, false, ◌==◌, ◌||◌, ==_iff, ==_refl,
  Bool-cases, some, List, [], ◌∷◌, lookup, contains, if◌then◌else◌, ok,
}
use dinorisc.Ir.Syntax.{IrType, i64, ValueId, reg_write}
use dinorisc.Ir.Meaning.{Machine, run_kind}
use dinorisc.Riscv.Meaning.{Hart}
use dinorisc.Lifter.Builder.{Lifter, Lift, add_instruction, finalize_loop, finalize_register_writes}
use dinorisc.Lifter.Simulation.Rules.{after, Denotes, Simulates, Always}
use dinorisc.Lifter.Simulation.Builder.{extended, after-extended}

-- The registers of the machine are all the hart's.
abbrev pub IsFlushed : Machine → Hart → Lifter → Type 0
IsFlushed m h l = (reg : ℕ) → (after m l).registers reg ≡ h.x reg

-- A method succeeds and leaves a block that stands for `h`, with the registers written back.
pub record Ends {A : Type 0} (m : Machine) (h : Hart) (method : Lift A) (l : Lifter)
    (Q : A → Lifter → Type 0) : Type 0 where
  pub result : A
  pub left : Lifter
  pub runs : method l ≡ ok (result, left)
  pub simulates : Simulates m h left
  pub flushed : IsFlushed m h left
  pub holds : Q result left

-- One register is written back.
module _ {m : Machine} {h : Hart} {l : Lifter} (s : Simulates m h l) (reg : ℕ) (v : ValueId)
    (d : Denotes m l v i64 (h.x reg)) where
  written_back :
      (r : ℕ)
      → (after m (extended (reg_write reg v) l)).registers r
        ≡ (if reg == r then h.x reg else (after m l).registers r)
  unfolding run_kind
  written_back r =
      ap (λ (q : Machine). q.registers r) (after-extended m (reg_write reg v) l)
      ∙ ap (λ n. if reg == r then n else (after m l).registers r) d.valued

  write_kept :
      (w : ValueId) (type : IrType) (k : ℕ)
      → Denotes m l w type k
      → Denotes m (extended (reg_write reg v) l) w type k
  unfolding run_kind
  write_kept w type k e =
      let p = after-extended m (reg_write reg v) l in
      record { made = omega (arith, e.made); typed = rw p e.typed; valued = rw p e.valued }

  is_written :
      (r : ℕ) → (reg == r) ≡ true → (after m (extended (reg_write reg v) l)).registers r ≡ h.x r
  is_written r t = written_back r ∙ rw t (ap h.x ((==_iff reg r).0 t))

  not_written :
      (r : ℕ)
      → (reg == r) ≡ false
      → (after m l).registers r ≡ h.x r
      → (after m (extended (reg_write reg v) l)).registers r ≡ h.x r
  not_written r f e = written_back r ∙ rw f e

  write_back-Simulates : Simulates m h (extended (reg_write reg v) l)
  unfolding run_kind
  write_back-Simulates = record {
    same_memory =
        ap (λ (q : Machine). q.memory) (after-extended m (reg_write reg v) l) ∙ s.same_memory;
    cached = λ r w c. write_kept w i64 (h.x r) (s.cached r w c);
    unmodified = λ r c. elim (Bool-cases (reg == r)) [
      | inl t ↦ is_written r t
      | inr f ↦ not_written r f (s.unmodified r c)
    ];
    modified = s.modified;
    zero_x = s.zero_x;
  }

write_back-runs :
    (reg : ℕ) (rest : List ℕ) (v : ValueId) (l : Lifter)
    → lookup reg l.cached_register_values ≡ some v
    → finalize_loop (reg ∷ rest) l ≡ finalize_loop rest (extended (reg_write reg v) l)
unfolding finalize_loop add_instruction
write_back-runs reg rest v l e = rw e

or_true : (b : Bool) → (b || true) ≡ true
or_true true = refl
or_true false = refl

-- The registers that are not in the machine yet are written back.
finalize_loop-Ends :
    {m : Machine} {h : Hart} (rs : List ℕ) {l : Lifter}
    → Simulates m h l
    → ((r : ℕ) → contains r rs ≡ true → contains r l.modified_registers ≡ true)
    → ((r : ℕ) → contains r rs ≡ false → (after m l).registers r ≡ h.x r)
    → Ends m h (finalize_loop rs) l Always
unfolding finalize_loop contains
finalize_loop-Ends [] {l} s listed there = record {
  result = tt;
  left = l;
  runs = refl;
  simulates = s;
  flushed = λ r. there r refl;
  holds = tt;
}
finalize_loop-Ends {m} {h} (reg ∷ rest) {l} s listed there =
    let (v, e) = s.modified reg (listed reg (rw (==_refl reg))) in
    let d = s.cached reg v e in
    let r =
      finalize_loop-Ends rest (write_back-Simulates s reg v d)
        (λ r c. listed r (rw (c, or_true (reg == r))))
        (λ r c. elim (Bool-cases (reg == r)) [
          | inl t ↦ is_written s reg v d r t
          | inr f ↦ not_written s reg v d r f (there r (rw (f, c)))
        ]) in
    record {
      result = r.result;
      left = r.left;
      runs = write_back-runs reg rest v l e ∙ r.runs;
      simulates = r.simulates;
      flushed = r.flushed;
      holds = tt;
    }

-- The guest state gets the registers of the hart.
pub finalize_register_writes-Ends :
    {m : Machine} {h : Hart} {l : Lifter}
    → Simulates m h l
    → Ends m h finalize_register_writes l Always
unfolding finalize_register_writes
finalize_register_writes-Ends {l} s =
    let r = finalize_loop-Ends l.modified_registers s (λ r c. c) s.unmodified in
    record {
      result = r.result;
      left = r.left;
      runs = r.runs;
      simulates = r.simulates;
      flushed = r.flushed;
      holds = tt;
    }
