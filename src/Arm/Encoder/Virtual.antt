-- ===== src/Arm/Encoder/Virtual.antt =====
-- The encoder refuses what register allocation has left behind.
use dinorisc.Prelude.{
  ℕ, ◌≡◌, ◌⊎◌, inl, inr, refl, Bool-cases, ◌||◌, Result, ok, err, ◌>>=◌, encoding_error,
}
use dinorisc.Arm.Syntax.{
  Register, Opcode, Operand, register, virtual, immediate, Instruction, three_operand, two_operand,
  memory, move_wide, branch, ConditionalSelectInst, conditional, conditional_select,
}
use dinorisc.Arm.Operands.{encode_register, is_immediate}
use dinorisc.Arm.ThreeOperand.{three_operand_opcode, encode_three_operand_inst}
use dinorisc.Arm.TwoOperand.{two_operand_opcode, encode_two_operand_inst}
use dinorisc.Arm.Memory.{encode_memory_inst}
use dinorisc.Arm.Encoder.{
  encode_move_wide_inst, encode_conditional_inst, encode_conditional_select_inst, select_opcode,
  encode_word, encode_instruction,
}

abbrev pub IsVirtual : Operand → Type 0
IsVirtual (virtual v) = Unit
IsVirtual _ = ⊥

-- Some operand of the instruction is a virtual register.
abbrev pub HasVirtual : Instruction → Type 0
HasVirtual (three_operand inst) = IsVirtual inst.dest ⊎ IsVirtual inst.src1 ⊎ IsVirtual inst.src2
HasVirtual (two_operand inst) = IsVirtual inst.dest ⊎ IsVirtual inst.src
HasVirtual (memory inst) = IsVirtual inst.reg ⊎ IsVirtual inst.base_reg
HasVirtual (move_wide inst) = IsVirtual inst.dest
HasVirtual (branch inst) = ⊥
HasVirtual (conditional inst) = IsVirtual inst.dest
HasVirtual (conditional_select inst) =
    IsVirtual inst.dest ⊎ IsVirtual inst.src1 ⊎ IsVirtual inst.src2

encode_register-virtual : (o : Operand) → IsVirtual o → encode_register o ≡ err encoding_error
unfolding encode_register
encode_register-virtual (virtual v) h = refl
encode_register-virtual (register r) h = absurd h
encode_register-virtual (immediate n) h = absurd h

-- The encoder of an operand succeeds, or fails with the encoder's error.
encode_register-cases :
    (o : Operand)
    → ((n : ℕ) × (encode_register o ≡ ok n)) ⊎ (encode_register o ≡ err encoding_error)
unfolding encode_register
encode_register-cases (virtual v) = inr refl
encode_register-cases (immediate n) = inr refl
encode_register-cases (register Register.x0) = inl (_, refl)
encode_register-cases (register _) = inl (_, refl)

three_operand-virtual :
    (op : Opcode) (sf rn rd : ℕ) (o : Operand)
    → IsVirtual o
    → three_operand_opcode op sf o rn rd ≡ err encoding_error
unfolding three_operand_opcode encode_register
three_operand-virtual op sf rn rd (register r) h = absurd h
three_operand-virtual op sf rn rd (immediate n) h = absurd h
three_operand-virtual Opcode.add sf rn rd (virtual v) h = refl
three_operand-virtual _ sf rn rd (virtual v) h = refl

two_operand-virtual :
    (op : Opcode) (sf rd : ℕ) (o : Operand)
    → IsVirtual o
    → two_operand_opcode op sf o rd ≡ err encoding_error
unfolding two_operand_opcode encode_register
two_operand-virtual op sf rd (register r) h = absurd h
two_operand-virtual op sf rd (immediate n) h = absurd h
two_operand-virtual Opcode.mov sf rd (virtual v) h = refl
two_operand-virtual _ sf rd (virtual v) h = refl

select-virtual :
    (op : Opcode) (sf rn rd : ℕ) (inst : ConditionalSelectInst)
    → IsVirtual inst.src2
    → select_opcode op sf inst rn rd ≡ err encoding_error
unfolding select_opcode
select-virtual Opcode.csel sf rn rd inst h =
    elim (Bool-cases (is_immediate inst.src1 || is_immediate inst.src2)) [
      | inl t ↦ rw t
      | inr t ↦ rw (t, encode_register-virtual inst.src2 h)
    ]
select-virtual _ sf rn rd inst h = refl

-- An operand that is encoded, and what is done with its number: a virtual register there, or an
-- error of the encoder behind it, is an error of the whole.
encoded-virtual :
    (o : Operand) (f : ℕ → Result ℕ) → IsVirtual o → (encode_register o >>= f) ≡ err encoding_error
encoded-virtual o f h = rw (encode_register-virtual o h)

encoded-then :
    (o : Operand) (f : ℕ → Result ℕ)
    → ((n : ℕ) → f n ≡ err encoding_error)
    → (encode_register o >>= f) ≡ err encoding_error
encoded-then o f h = elim (encode_register-cases o) [ inl (n, e) ↦ rw e (h n) | inr e ↦ rw e ]

encode_word-virtual : (inst : Instruction) → HasVirtual inst → encode_word inst ≡ err encoding_error
unfolding encode_word encode_three_operand_inst encode_two_operand_inst encode_memory_inst
    encode_move_wide_inst encode_conditional_inst encode_conditional_select_inst
encode_word-virtual (three_operand inst) (inl h) = encoded-virtual inst.dest _ h
encode_word-virtual (three_operand inst) (inr (inl h)) =
    encoded-then inst.dest _ (λ rd. encoded-virtual inst.src1 _ h)
encode_word-virtual (three_operand inst) (inr (inr h)) =
    encoded-then inst.dest _
      (λ rd. encoded-then inst.src1 _ (λ rn. three_operand-virtual inst.opcode _ rn rd inst.src2 h))
encode_word-virtual (two_operand inst) (inl h) = encoded-virtual inst.dest _ h
encode_word-virtual (two_operand inst) (inr h) =
    encoded-then inst.dest _ (λ rd. two_operand-virtual inst.opcode _ rd inst.src h)
encode_word-virtual (memory inst) (inl h) = encoded-virtual inst.reg _ h
encode_word-virtual (memory inst) (inr h) =
    encoded-then inst.reg _ (λ rt. encoded-virtual inst.base_reg _ h)
encode_word-virtual (move_wide inst) h = encoded-virtual inst.dest _ h
encode_word-virtual (branch inst) h = absurd h
encode_word-virtual (conditional inst) h = encoded-virtual inst.dest _ h
encode_word-virtual (conditional_select inst) (inl h) = encoded-virtual inst.dest _ h
encode_word-virtual (conditional_select inst) (inr (inl h)) =
    encoded-then inst.dest _ (λ rd. encoded-virtual inst.src1 _ h)
encode_word-virtual (conditional_select inst) (inr (inr h)) =
    encoded-then inst.dest _
      (λ rd. encoded-then inst.src1 _ (λ rn. select-virtual inst.opcode _ rn rd inst h))

-- An instruction with a virtual register in any operand, as a failed allocation leaves it, is never
-- encoded: the encoder throws its own error, whatever the instruction.
pub encode_instruction-virtual :
    (inst : Instruction) → HasVirtual inst → encode_instruction inst ≡ err encoding_error
unfolding encode_instruction
encode_instruction-virtual inst h = rw (encode_word-virtual inst h)
