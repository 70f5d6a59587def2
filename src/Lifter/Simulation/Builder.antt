-- ===== src/Lifter/Simulation/Builder.antt =====
-- The methods of the lifter that make one instruction, and the register cache.
use dinorisc.Prelude.{
  ℕ, ◌+◌, ◌%◌, ◌^◌, ◌≡◌, refl, ap, ◌∙◌, arith, List, [], ◌∷◌, ◌++◌, ==_refl, ne→==-false,
}
use dinorisc.Ir.Syntax.{
  IrType, i64, ValueId, BinaryOpcode, InstructionKind, const, binary_op, sext, zext, trunc, load,
  store, Instruction as IrInstruction,
}
use dinorisc.Prelude.Words.{widen}
use dinorisc.Ir.Meaning.{
  Machine, width, byte_size, binary_value, read_memory, write_memory, define, run_kind,
  run_instructions,
}
use dinorisc.Riscv.Meaning.{Hart}
use dinorisc.Lifter.Builder.{
  Lifter, add_instruction, create_constant, create_binary_op, create_load, create_store,
  create_sext, create_zext, create_trunc,
}
use dinorisc.Lifter.Simulation.Rules.{after, Denotes, Simulates, Runs, Always, Makes}

run_instructions-append :
    (xs : List IrInstruction) (inst : IrInstruction) (m : Machine)
    → run_instructions (xs ++ inst ∷ []) m
      ≡ run_kind inst.kind inst.value_id (run_instructions xs m)
unfolding run_instructions
run_instructions-append [] inst m = refl
run_instructions-append (x ∷ xs) inst m =
    run_instructions-append xs inst (run_kind x.kind x.value_id m)

-- The lifter after one more instruction.
abbrev pub extended : InstructionKind → Lifter → Lifter
extended kind l = record l {
  next_value_id = l.next_value_id + 1;
  current_instructions =
      l.current_instructions ++ record { value_id = l.next_value_id; kind = kind } ∷ [];
}

pub after-extended :
    (m : Machine) (kind : InstructionKind) (l : Lifter)
    → after m (extended kind l) ≡ run_kind kind l.next_value_id (after m l)
after-extended m kind l =
    run_instructions-append l.current_instructions
      (record { value_id = l.next_value_id; kind = kind }) m

-- An instruction that defines a value and has no other effect.
module _ {m : Machine} {h : Hart} {l : Lifter} (s : Simulates m h l) (kind : InstructionKind)
    (type : IrType) (n : ℕ)
    (e : run_kind kind l.next_value_id (after m l)
      ≡ define (after m l) l.next_value_id type n) where
  made : after m (extended kind l) ≡ define (after m l) l.next_value_id type n
  made = after-extended m kind l ∙ e

  made-kept :
      (v : ValueId) (t : IrType) (k : ℕ) → Denotes m l v t k → Denotes m (extended kind l) v t k
  made-kept v t k d =
      let other = ne→==-false l.next_value_id v (λ p. omega (arith, p, d.made)) in
      record {
        made = omega (arith, d.made);
        typed = rw (made, other) d.typed;
        valued = rw (made, other) d.valued;
      }

  pub add_instruction-Runs : Runs m h (add_instruction kind) l (Makes m type n)
  unfolding add_instruction
  add_instruction-Runs = record {
    result = l.next_value_id;
    left = extended kind l;
    runs = refl;
    simulates = record {
      same_memory = ap (λ (q : Machine). q.memory) made ∙ s.same_memory;
      cached = λ reg v c. made-kept v i64 (h.x reg) (s.cached reg v c);
      unmodified = λ reg c. ap (λ (q : Machine). q.registers reg) made ∙ s.unmodified reg c;
      modified = s.modified;
      zero_x = s.zero_x;
    };
    extends = record { kept = made-kept; same_registers = ap (λ (q : Machine). q.registers) made };
    holds = record {
      made = omega arith;
      typed = rw (made, ==_refl l.next_value_id);
      valued = rw (made, ==_refl l.next_value_id);
    };
  }

module _ {m : Machine} {h : Hart} {l : Lifter} (s : Simulates m h l) where
  pub create_constant-Runs :
      (type : IrType) (value : ℕ)
      → Runs m h (create_constant type value) l (Makes m type (value % 2 ^ width type))
  unfolding create_constant run_kind
  create_constant-Runs type value = add_instruction-Runs s (const type value) type _ refl

  pub create_binary_op-Runs :
      (opcode : BinaryOpcode) (type : IrType) {a b : ValueId} {t u : IrType} {x y : ℕ}
      → Denotes m l a t x
      → Denotes m l b u y
      → Runs m h
          (create_binary_op opcode type a b)
          l
          (Makes m type (binary_value opcode (width type) x y))
  unfolding create_binary_op run_kind
  create_binary_op-Runs opcode type {a} {b} da db =
      add_instruction-Runs s (binary_op opcode type a b) type _ (λ i.
        define (after m l) l.next_value_id type
          (binary_value opcode (width type) (da.valued i) (db.valued i)))

  pub create_sext-Runs :
      (type : IrType) {a : ValueId} {t : IrType} {x : ℕ}
      → Denotes m l a t x
      → Runs m h (create_sext type a) l (Makes m type (widen (width t) (width type) x))
  unfolding create_sext run_kind
  create_sext-Runs type {a} da = add_instruction-Runs s (sext type a) type _ (λ i.
      define (after m l) l.next_value_id type
        (widen (width (da.typed i)) (width type) (da.valued i)))

  pub create_zext-Runs :
      (type : IrType) {a : ValueId} {t : IrType} {x : ℕ}
      → Denotes m l a t x
      → Runs m h (create_zext type a) l (Makes m type x)
  unfolding create_zext run_kind
  create_zext-Runs type {a} da =
      add_instruction-Runs s (zext type a) type _
        (λ i. define (after m l) l.next_value_id type (da.valued i))

  pub create_trunc-Runs :
      (type : IrType) {a : ValueId} {t : IrType} {x : ℕ}
      → Denotes m l a t x
      → Runs m h (create_trunc type a) l (Makes m type (x % 2 ^ width type))
  unfolding create_trunc run_kind
  create_trunc-Runs type {a} da =
      add_instruction-Runs s (trunc type a) type _
        (λ i. define (after m l) l.next_value_id type (da.valued i % 2 ^ width type))

  pub create_load-Runs :
      (type : IrType) {a : ValueId} {t : IrType} {x : ℕ}
      → Denotes m l a t x
      → Runs m h (create_load type a) l (Makes m type (read_memory (byte_size type) h.memory x))
  unfolding create_load run_kind
  create_load-Runs type {a} da = add_instruction-Runs s (load type a) type _ (λ i.
      define (after m l) l.next_value_id type
        (read_memory (byte_size type) (s.same_memory i) (da.valued i)))

  pub create_store-Runs :
      {v a : ValueId} {t u : IrType} {x y : ℕ}
      → Denotes m l v t y
      → Denotes m l a u x
      → Runs m
          (record h { memory = write_memory (byte_size t) h.memory x y })
          (create_store v a)
          l
          Always
  unfolding create_store add_instruction run_kind
  create_store-Runs {v} {a} {t} {u} {x} {y} dv da =
      let e = after-extended m (store v a) l in
      let kept : (w : ValueId) (type : IrType) (k : ℕ)
          → Denotes m l w type k
          → Denotes m (extended (store v a) l) w type k =
        λ w type k d. record {
          made = omega (arith, d.made);
          typed = rw e d.typed;
          valued = rw e d.valued;
        } in
      record {
        result = l.next_value_id;
        left = extended (store v a) l;
        runs = refl;
        simulates = record {
          same_memory = ap (λ (q : Machine). q.memory) e ∙ (λ i.
              write_memory (byte_size (dv.typed i)) (s.same_memory i) (da.valued i) (dv.valued i));
          cached = λ reg w c. kept w i64 (h.x reg) (s.cached reg w c);
          unmodified = λ reg c. ap (λ (q : Machine). q.registers reg) e ∙ s.unmodified reg c;
          modified = s.modified;
          zero_x = s.zero_x;
        };
        extends = record { kept = kept; same_registers = ap (λ (q : Machine). q.registers) e };
        holds = tt;
      }
