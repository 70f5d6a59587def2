-- ===== src/Lowering/Constants/Meaning.antt =====
-- The sequences of `selectConstIntoRegister`, run under the meaning that the ARM64 manual gives to
-- the move instructions.
use mathlib.Core.Path.{subst}
use dinorisc.Prelude.{
  ℕ, ◌+◌, ◌-◌, ◌*◌, ◌/◌, ◌%◌, ◌^◌, ◌<◌, ◌≡◌, refl, ◌∙◌, arith, inl, inr, Bool, true, false, ◌&&◌,
  ◌==◌, ==_refl, Bool-cases, List, [], ◌∷◌, if◌then◌else◌,
}
use dinorisc.Prelude.Words.{slt64, sle64}
use dinorisc.Prelude.Bits.{bit_and-mask}
use dinorisc.Ir.Syntax.{i64}
use dinorisc.Arm.Syntax.{
  register_number, Opcode, Operand, register, virtual, immediate, DataSize, Instruction,
  two_operand, move_wide, double,
}
use dinorisc.Lowering.Constants.{move_opcode, chunk, chunk_loop, select_const_into_register}

-- The contents of the registers, physical and virtual.
abbrev pub RegisterFile : Type 0
RegisterFile = Operand → ℕ

abbrev pub same_operand : Operand → Operand → Bool
same_operand (register r) (register s) = register_number r == register_number s
same_operand (virtual v) (virtual w) = v == w
same_operand (immediate m) (immediate n) = m == n
same_operand _ _ = false

same_operand_refl : (o : Operand) → same_operand o o ≡ true
same_operand_refl (register r) = ==_refl (register_number r)
same_operand_refl (virtual v) = ==_refl v
same_operand_refl (immediate n) = ==_refl n

-- The value of a destination register after one move of an immediate; `x` is its value before. MOVK
-- replaces 16 bits, MOVZ and MOV clear the others, MOVN writes the complement. A write of 32 bits
-- clears the upper half.
abbrev move_value : Opcode → ℕ → ℕ → ℕ → ℕ
move_value Opcode.movz imm shift x = imm * 2 ^ shift
move_value Opcode.movk imm shift x = x - x / 2 ^ shift % 2 ^ 16 * 2 ^ shift + imm * 2 ^ shift
move_value Opcode.mov imm shift x = imm
move_value Opcode.movn imm shift x = 2 ^ 64 - 1 - imm
move_value _ imm shift x = x

abbrev register_width : DataSize → ℕ
register_width double = 64
register_width _ = 32

abbrev source_value : Operand → RegisterFile → ℕ
source_value (immediate value) file = value
source_value o file = file o

abbrev write : Operand → ℕ → RegisterFile → RegisterFile
write dest value file o = if same_operand dest o then value else file o

abbrev move_step : Instruction → RegisterFile → RegisterFile
move_step (move_wide inst) file =
    write inst.dest
      (move_value inst.opcode inst.imm16 inst.shift (file inst.dest) % 2 ^ register_width inst.size)
      file
move_step (two_operand inst) file =
    write inst.dest
      (move_value inst.opcode (source_value inst.src file) 0 (file inst.dest)
        % 2 ^ register_width inst.size)
      file
move_step _ file = file

unfoldable pub run_moves : List Instruction → RegisterFile → RegisterFile
run_moves [] file = file
run_moves (inst ∷ rest) file = run_moves rest (move_step inst file)

-- The target has the value `n` afterwards, and every other register what it had.
pub record Holds (target : Operand) (n : ℕ) (file after : RegisterFile) : Type 0 where
  pub target_value : after target ≡ n
  pub others : (o : Operand) → same_operand target o ≡ false → after o ≡ file o

chunk_lem : (value shift : ℕ) → chunk value shift ≡ value / 2 ^ shift % 2 ^ 16
unfolding chunk
chunk_lem value shift = bit_and-mask 16 (value / 2 ^ shift)

write_self : (target : Operand) (k : ℕ) (file : RegisterFile) → write target k file target ≡ k
write_self target k file = rw (same_operand_refl target)

-- A write of the target, alone and in front of more of them.
Holds-write :
    (target : Operand) (n k : ℕ) (file : RegisterFile)
    → n ≡ k
    → Holds target k file (write target n file)
Holds-write target n k file e = record {
  target_value = write_self target n file ∙ e;
  others = λ o f. rw f;
}

Holds-then :
    (target : Operand) (n k : ℕ) (file after : RegisterFile)
    → Holds target n (write target k file) after
    → Holds target n file after
Holds-then target n k file after h = record {
  target_value = h.target_value;
  others = λ o f. h.others o f ∙ rw f;
}

-- The value of the destination alone, through a sequence of wide moves.
run_values : List Instruction → ℕ → ℕ
run_values [] x = x
run_values (move_wide inst ∷ rest) x =
    run_values rest (move_value inst.opcode inst.imm16 inst.shift x % 2 ^ register_width inst.size)
run_values (_ ∷ rest) x = run_values rest x

-- The loop writes the target and no other register.
chunk_loop-Holds :
    (shifts : List ℕ) (target : Operand) (value : ℕ) (first : Bool) (file : RegisterFile)
    → Holds target
        (run_values (chunk_loop shifts double target value first) (file target))
        file
        (run_moves (chunk_loop shifts double target value first) file)
unfolding chunk_loop run_values run_moves
chunk_loop-Holds [] target value true file = Holds-write target 0 0 file refl
chunk_loop-Holds [] target value false file = record { target_value = refl; others = λ o f. refl }
chunk_loop-Holds (shift ∷ shifts) target value first file =
    elim (Bool-cases (chunk value shift == 0)) [
      | inl t ↦ rw t (chunk_loop-Holds shifts target value first file)
      | inr f ↦
          let k = move_value (move_opcode first) (chunk value shift) shift (file target) % 2 ^ 64 in
          let rest = chunk_loop shifts double target value false in
          rw f (
            subst
              (λ n. Holds target (run_values rest n) file (run_moves rest (write target k file)))
              (write_self target k file)
              (Holds-then target _ k file _
                (chunk_loop-Holds shifts target value false (write target k file))))
    ]

abbrev chunk_shifts : List ℕ
chunk_shifts = 0 ∷ 16 ∷ 32 ∷ 48 ∷ []

-- The loop over the four chunks, from any value of the register.
run_values-chunk_loop :
    (value : ℕ) (target : Operand) (x : ℕ)
    → value < 2 ^ 64
    → run_values (chunk_loop chunk_shifts double target value true) x ≡ value
unfolding chunk_loop run_values move_opcode
run_values-chunk_loop value target x h =
    ground (arith, chunk_lem value 0, chunk_lem value 16, chunk_lem value 32, chunk_lem value 48)

-- Every 64-bit constant: the selected instructions leave exactly that value in the target register,
-- whatever the registers held before, and change no other register.
pub run_moves-select_const :
    (value : ℕ) (target : Operand) (file : RegisterFile)
    → value < 2 ^ 64
    → Holds target value file (run_moves (select_const_into_register i64 value target) file)
unfolding select_const_into_register run_moves
run_moves-select_const value target file h =
    elim (Bool-cases (slt64 value 0 && sle64 (2 ^ 64 - 65536) value)) [
      | inl t ↦ rw t (Holds-write target _ value file (omega (arith, h)))
      | inr f ↦ elim (Bool-cases (sle64 0 value && sle64 value 0xFFFF)) [
        | inl t ↦ rw (f, t) (Holds-write target _ value file (omega (arith, h)))
        | inr g ↦
            rw (f, g)
              (subst
                (λ n.
                  Holds target n file
                    (run_moves (chunk_loop chunk_shifts double target value true) file))
                (run_values-chunk_loop value target (file target) h)
                (chunk_loop-Holds chunk_shifts target value true file))
      ]
    ]
