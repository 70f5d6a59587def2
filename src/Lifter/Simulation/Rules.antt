-- ===== src/Lifter/Simulation/Rules.antt =====
-- The relation between a lifter and the hart that its block stands for, and how the lifter's methods
-- are shown to keep it.
use dinorisc.Prelude.{ℕ, ◌<◌, ◌≡◌, refl, ◌∙◌, true, false, some, lookup, contains, ok}
use dinorisc.Ir.Syntax.{IrType, i64, ValueId}
use dinorisc.Ir.Meaning.{Machine, run_instructions}
use dinorisc.Riscv.Syntax.{Instruction, get_register, get_immediate}
use dinorisc.Riscv.Meaning.{Hart, register_at, immediate_at}
use dinorisc.Lifter.Builder.{Lifter, Lift, ◌>>=◌, pure}
use dinorisc.Lifter.Patterns.{register_operand, immediate_operand}

-- The machine after the instructions that the lifter has made so far, from the machine `m` on.
abbrev pub after : Machine → Lifter → Machine
after m l = run_instructions l.current_instructions m

-- `v` is a value of the block, of the type `type`, and is `n` when the block runs.
pub record Denotes (m : Machine) (l : Lifter) (v : ValueId) (type : IrType) (n : ℕ) : Type 0 where
  pub made : v < l.next_value_id
  pub typed : (after m l).types v ≡ type
  pub valued : (after m l).values v ≡ n

-- The block so far stands for the hart `h`: its memory is the machine's, the cached value of a
-- register is the register's, and a register that is not modified is still in the machine.
pub record Simulates (m : Machine) (h : Hart) (l : Lifter) : Type 0 where
  pub same_memory : (after m l).memory ≡ h.memory
  pub cached :
      (reg : ℕ) (v : ValueId)
      → lookup reg l.cached_register_values ≡ some v
      → Denotes m l v i64 (h.x reg)
  pub unmodified :
      (reg : ℕ) → contains reg l.modified_registers ≡ false → (after m l).registers reg ≡ h.x reg
  pub modified :
      (reg : ℕ)
      → contains reg l.modified_registers ≡ true
      → (v : ValueId) × (lookup reg l.cached_register_values ≡ some v)
  pub zero_x : h.x 0 ≡ 0

-- What denotes a value goes on to, and the machine's registers are not written.
pub record Extends (m : Machine) (l l' : Lifter) : Type 0 where
  pub kept : (v : ValueId) (type : IrType) (n : ℕ) → Denotes m l v type n → Denotes m l' v type n
  pub same_registers : (after m l').registers ≡ (after m l).registers

-- A method succeeds and leaves a block that stands for `h`, with `Q` of its result.
pub record Runs {A : Type 0} (m : Machine) (h : Hart) (method : Lift A) (l : Lifter)
    (Q : A → Lifter → Type 0) : Type 0 where
  pub result : A
  pub left : Lifter
  pub runs : method l ≡ ok (result, left)
  pub simulates : Simulates m h left
  pub extends : Extends m l left
  pub holds : Q result left

abbrev pub Always : {A : Type 0} → A → Lifter → Type 0
Always a l = Unit

abbrev pub Makes : Machine → IrType → ℕ → ValueId → Lifter → Type 0
Makes m type n v l = Denotes m l v type n

Extends-trans : {m : Machine} {a b c : Lifter} → Extends m a b → Extends m b c → Extends m a c
Extends-trans e f = record {
  kept = λ v type n d. f.kept v type n (e.kept v type n d);
  same_registers = f.same_registers ∙ e.same_registers;
}

pub Extends-refl : (m : Machine) (l : Lifter) → Extends m l l
Extends-refl m l = record { kept = λ v type n d. d; same_registers = refl }

pub Runs-bind :
    {A B : Type 0} {m : Machine} {h h' : Hart} {method : Lift A} {rest : A → Lift B} {l : Lifter}
    {Q : A → Lifter → Type 0} {R : B → Lifter → Type 0}
    → Runs m h method l Q
    → ((a : A) (l' : Lifter) → Simulates m h l' → Extends m l l' → Q a l' → Runs m h' (rest a) l' R)
    → Runs m h' (method >>= rest) l R
Runs-bind {rest} r k =
    let s = k r.result r.left r.simulates r.extends r.holds in
    record {
      result = s.result;
      left = s.left;
      runs = rw (r.runs, ◌>>=◌) s.runs;
      simulates = s.simulates;
      extends = Extends-trans r.extends s.extends;
      holds = s.holds;
    }

pub Runs-pure :
    {A : Type 0} {m : Machine} {h : Hart} {l : Lifter} {Q : A → Lifter → Type 0} (a : A)
    → Simulates m h l
    → Q a l
    → Runs m h (pure a) l Q
Runs-pure {m} {l} a s q = record {
  result = a;
  left = l;
  runs = refl;
  simulates = s;
  extends = Extends-refl m l;
  holds = q;
}

-- What a method does from `l` on is all that counts.
pub Runs-eq :
    {A : Type 0} {m : Machine} {h : Hart} {l : Lifter} {Q : A → Lifter → Type 0}
    (method method' : Lift A)
    → method l ≡ method' l
    → Runs m h method' l Q
    → Runs m h method l Q
Runs-eq method method' e r = record {
  result = r.result;
  left = r.left;
  runs = e ∙ r.runs;
  simulates = r.simulates;
  extends = r.extends;
  holds = r.holds;
}

-- The operand at the place is there, and is a register, or an immediate.
abbrev pub HasRegister : Instruction → ℕ → Type 0
HasRegister inst index = get_register inst index ≡ ok (register_at inst index)

abbrev pub HasImmediate : Instruction → ℕ → Type 0
HasImmediate inst index = get_immediate inst index ≡ ok (immediate_at inst index)

pub Runs-register :
    {B : Type 0} {m : Machine} {h : Hart} {l : Lifter} {R : B → Lifter → Type 0}
    (inst : Instruction) (index : ℕ) (rest : ℕ → Lift B)
    → HasRegister inst index
    → Runs m h (rest (register_at inst index)) l R
    → Runs m h (register_operand inst index >>= rest) l R
Runs-register inst index rest e r = rw (e, ◌>>=◌) r

pub Runs-immediate :
    {B : Type 0} {m : Machine} {h : Hart} {l : Lifter} {R : B → Lifter → Type 0}
    (inst : Instruction) (index : ℕ) (rest : ℕ → Lift B)
    → HasImmediate inst index
    → Runs m h (rest (immediate_at inst index)) l R
    → Runs m h (immediate_operand inst index >>= rest) l R
Runs-immediate inst index rest e r = rw (e, ◌>>=◌) r
