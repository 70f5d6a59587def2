-- ===== src/Riscv/Meaning.antt =====
-- What the instructions of RV64I do, from the instruction set manual: the registers and the memory
-- after an instruction, and the next program counter of a branch.
use dinorisc.Prelude.{
  ℕ, ◌+◌, ◌-◌, ◌*◌, ◌/◌, ◌%◌, ◌^◌, Bool, not, List, [], ◌∷◌, ltb, leb, ◌==◌, if◌then◌else◌, bit_and,
  bit_or, bit_xor, Result, ok, err,
}
use dinorisc.Prelude.Words.{add64, sub64, slt64, sle64, widen}
use dinorisc.Guest.{update}
use dinorisc.Ir.Meaning.{Memory, read_memory, write_memory, sar, bit_of}
use dinorisc.Riscv.Syntax.{Instruction, Opcode, get_register, get_immediate}

pub record Hart : Type 0 where
  pub x : ℕ → ℕ
  pub memory : Memory

abbrev pub or_zero : Result ℕ → ℕ
or_zero (ok n) = n
or_zero (err e) = 0

-- The operands by their places, and the value of a source register.
unfoldable pub register_at : Instruction → ℕ → ℕ
register_at inst index = or_zero (get_register inst index)

unfoldable pub immediate_at : Instruction → ℕ → ℕ
immediate_at inst index = or_zero (get_immediate inst index)

abbrev pub source : Instruction → ℕ → Hart → ℕ
source inst index h = h.x (register_at inst index)

-- A write of x0 has no effect.
unfoldable pub write_x : ℕ → ℕ → Hart → Hart
write_x rd value h = if rd == 0 then h else record h { x = update h.x rd value }

-- The destination stands first; `rs1` and `rs2`, or `rs1` and the immediate, follow.
abbrev pub compute : (ℕ → ℕ → ℕ) → Instruction → Hart → Hart
compute f inst h = write_x (register_at inst 0) (f (source inst 1 h) (source inst 2 h)) h

abbrev pub compute_imm : (ℕ → ℕ → ℕ) → Instruction → Hart → Hart
compute_imm f inst h =
    write_x (register_at inst 0) (f (source inst 1 h) (immediate_at inst 2 % 2 ^ 64)) h

-- The 32-bit operations take the low halves and sign extend their result.
abbrev pub word : ℕ → ℕ
word n = widen 32 64 (n % 2 ^ 32)

abbrev pub load_value : ℕ → Instruction → Hart → ℕ
load_value size inst h =
    read_memory size h.memory (add64 (source inst 1 h) (immediate_at inst 2 % 2 ^ 64))

abbrev pub store_value : ℕ → Instruction → Hart → Hart
store_value size inst h = record h {
  memory =
      write_memory size h.memory (add64 (source inst 0 h) (immediate_at inst 2 % 2 ^ 64))
        (source inst 1 h);
}

-- The instructions that do not change the flow of control. `LUI` and `AUIPC` take the immediate with
-- its low 12 bits, which are zero.
unfoldable pub step_opcode : Opcode → Instruction → Hart → Hart
step_opcode Opcode.add inst h = compute add64 inst h
step_opcode Opcode.addi inst h = compute_imm add64 inst h
step_opcode Opcode.sub inst h = compute sub64 inst h
step_opcode Opcode.addw inst h = compute (λ a b. word (a + b)) inst h
step_opcode Opcode.addiw inst h = compute_imm (λ a b. word (a + b)) inst h
step_opcode Opcode.and inst h = compute bit_and inst h
step_opcode Opcode.andi inst h = compute_imm bit_and inst h
step_opcode Opcode.or inst h = compute bit_or inst h
step_opcode Opcode.ori inst h = compute_imm bit_or inst h
step_opcode Opcode.xor inst h = compute bit_xor inst h
step_opcode Opcode.xori inst h = compute_imm bit_xor inst h
step_opcode Opcode.sll inst h = compute (λ a b. a * 2 ^ (b % 64) % 2 ^ 64) inst h
step_opcode Opcode.slli inst h = compute_imm (λ a b. a * 2 ^ (b % 64) % 2 ^ 64) inst h
step_opcode Opcode.srl inst h = compute (λ a b. a / 2 ^ (b % 64)) inst h
step_opcode Opcode.srli inst h = compute_imm (λ a b. a / 2 ^ (b % 64)) inst h
step_opcode Opcode.sra inst h = compute (λ a b. sar 64 a (b % 64) % 2 ^ 64) inst h
step_opcode Opcode.srai inst h = compute_imm (λ a b. sar 64 a (b % 64) % 2 ^ 64) inst h
step_opcode Opcode.slliw inst h = compute_imm (λ a b. word (a % 2 ^ 32 * 2 ^ (b % 32))) inst h
step_opcode Opcode.slt inst h = compute (λ a b. bit_of (slt64 a b)) inst h
step_opcode Opcode.sltu inst h = compute (λ a b. bit_of (ltb a b)) inst h
step_opcode Opcode.slti inst h = compute_imm (λ a b. bit_of (slt64 a b)) inst h
step_opcode Opcode.sltiu inst h = compute_imm (λ a b. bit_of (ltb a b)) inst h
step_opcode Opcode.lb inst h = write_x (register_at inst 0) (widen 8 64 (load_value 1 inst h)) h
step_opcode Opcode.lh inst h = write_x (register_at inst 0) (widen 16 64 (load_value 2 inst h)) h
step_opcode Opcode.lw inst h = write_x (register_at inst 0) (widen 32 64 (load_value 4 inst h)) h
step_opcode Opcode.lwu inst h = write_x (register_at inst 0) (load_value 4 inst h) h
step_opcode Opcode.ld inst h = write_x (register_at inst 0) (load_value 8 inst h) h
step_opcode Opcode.sw inst h = store_value 4 inst h
step_opcode Opcode.sd inst h = store_value 8 inst h
step_opcode _ inst h = h

unfoldable pub step : Instruction → Hart → Hart
unfolding step_opcode
step inst h = step_opcode inst.opcode inst h

unfoldable pub steps : List Instruction → Hart → Hart
steps [] h = h
steps (inst ∷ rest) h = steps rest (step inst h)

-- Whether a branch is taken.
unfoldable pub is_taken : Opcode → ℕ → ℕ → Bool
is_taken Opcode.beq a b = a == b
is_taken Opcode.bne a b = not (a == b)
is_taken Opcode.blt a b = slt64 a b
is_taken Opcode.bge a b = sle64 b a
is_taken Opcode.bltu a b = ltb a b
is_taken Opcode.bgeu a b = leb b a
is_taken _ a b = Bool.false

-- The next program counter after an instruction that may change the flow of control.
unfoldable pub next_pc_opcode : Opcode → Instruction → Hart → ℕ
unfolding is_taken
next_pc_opcode Opcode.jal inst h = add64 inst.address (immediate_at inst 1)
next_pc_opcode Opcode.jalr inst h =
    bit_and (add64 (source inst 1 h) (immediate_at inst 2 % 2 ^ 64)) (2 ^ 64 - 2)
next_pc_opcode opcode inst h =
    if is_taken opcode (source inst 0 h) (source inst 1 h)
    then add64 inst.address (immediate_at inst 2)
    else add64 inst.address 4

unfoldable pub next_pc : Instruction → Hart → ℕ
unfolding next_pc_opcode
next_pc inst h = next_pc_opcode inst.opcode inst h
