-- ===== src/Lifter/Simulation/Terminators.antt =====
-- `liftTerminator` against the next program counter of a hart.
use dinorisc.Prelude.{
  ℕ, ◌%◌, ◌^◌, ◌≡◌, refl, ap, ◌∙◌, arith, Bool, true, false, not, ◌&&◌, ◌==◌, some, if◌then◌else◌,
}
use dinorisc.Prelude.Words.{add64}
use dinorisc.Ir.Syntax.{i1, i64, ValueId, BinaryOpcode, Terminator, return}
use dinorisc.Ir.Meaning.{Machine, binary_value, bit_of, terminator_target}
use dinorisc.Riscv.Syntax.{Instruction, Opcode, get_register, get_immediate}
use dinorisc.Riscv.Operands.{i_type, b_type, j_type, format}
use dinorisc.Riscv.Decoder.Shape.{Shaped, WellShaped}
use dinorisc.Riscv.Meaning.{
  Hart, register_at, immediate_at, source, write_x, is_taken, next_pc_opcode, next_pc,
}
use dinorisc.Lifter.Builder.{Lifter, pure, set_register_value}
use dinorisc.Lifter.Blocks.{
  create_conditional_branch, lift_jal, link_register, indirect_jump, lift_jalr,
  lift_terminator_opcode, lift_terminator, opcode_is_terminator, jalr_align_mask,
}
use dinorisc.Lifter.Simulation.Rules.{
  after, Denotes, Simulates, Runs, Always, Runs-bind, Runs-eq, Runs-pure, Runs-register,
  Runs-immediate,
}
use dinorisc.Lifter.Simulation.Builder.{create_constant-Runs, create_binary_op-Runs}
use dinorisc.Lifter.Simulation.Registers.{get_register_value-Runs, set_register_value-Runs}
use dinorisc.Lifter.Simulation.Instructions.{Shaped-OperandsThere}

-- The terminators that do not link, and the return to `ra` is none of them.
unfoldable pub opcode_is_followed : Opcode → Instruction → Bool
unfolding opcode_is_terminator
opcode_is_followed Opcode.jal inst = register_at inst 0 == 0
opcode_is_followed Opcode.jalr inst =
    register_at inst 0 == 0 && not (register_at inst 1 == 1 && immediate_at inst 2 == 0)
opcode_is_followed opcode inst = opcode_is_terminator opcode

unfoldable pub is_followed : Instruction → Bool
unfolding opcode_is_followed
is_followed inst = opcode_is_followed inst.opcode inst

-- The block goes on to the address `n`.
abbrev pub GoesTo : Machine → ℕ → Terminator → Lifter → Type 0
GoesTo m n terminator l = terminator_target terminator (after m l) ≡ n

choice_of_bit : (b : Bool) (x y : ℕ) → (if bit_of b == 0 then y else x) ≡ (if b then x else y)
choice_of_bit true x y = refl
choice_of_bit false x y = refl

and_parts : (a b : Bool) → (a && b) ≡ true → (a ≡ true) × (b ≡ true)
and_parts a b e = ground arith

not_return : (a b c : Bool) → not (b && c) ≡ true → ((a && b) && c) ≡ false
not_return a b c e = ground arith

module _ {m : Machine} {h : Hart} {l : Lifter} (inst : Instruction) (s : Simulates m h l) where
  conditional_branch :
      (opcode : BinaryOpcode) (taken : Bool) (next : ℕ)
      → binary_value opcode 1 (source inst 0 h) (source inst 1 h) ≡ bit_of taken
      → Shaped b_type inst.operands
      → Runs m h
          (create_conditional_branch opcode inst next)
          l
          (GoesTo m (if taken then add64 inst.address (immediate_at inst 2) else next))
  unfolding create_conditional_branch terminator_target get_register register_at get_immediate
      immediate_at
  conditional_branch opcode taken next e sh =
      let (h0, h1, h2) = Shaped-OperandsThere b_type inst.operands sh in
      Runs-register inst 0 _ h0 (
        Runs-bind (get_register_value-Runs (register_at inst 0) s) λ a l1 s1 k1 da.
          Runs-register inst 1 _ h1 (
            Runs-bind (get_register_value-Runs (register_at inst 1) s1) λ b l2 s2 k2 db.
              Runs-bind (create_binary_op-Runs s2 opcode i1 (k2.kept a _ _ da) db) λ c l3 s3 k3 dc.
                Runs-immediate inst 2 _ h2 (
                  Runs-pure _ s3 (
                    ap (λ n. if n == 0 then next else add64 inst.address (immediate_at inst 2))
                      (dc.valued ∙ e)
                    ∙ choice_of_bit taken (add64 inst.address (immediate_at inst 2)) next))))

  -- A write of `x0` leaves the hart as it is.
  unlinked :
      {l' : Lifter} {v : ValueId} {n : ℕ} (reg : ℕ)
      → (reg == 0) ≡ true
      → Simulates m h l'
      → Denotes m l' v i64 n
      → Runs m h (set_register_value reg v) l' Always
  unfolding write_x
  unlinked {l'} {v} {n} reg z s' d = rw z at (set_register_value-Runs reg s' d)

  jump :
      (register_at inst 0 == 0) ≡ true
      → Shaped j_type inst.operands
      → Runs m h (lift_jal inst) l (GoesTo m (add64 inst.address (immediate_at inst 1)))
  unfolding lift_jal terminator_target get_register register_at get_immediate immediate_at
  jump z sh =
      let (h0, h1) = Shaped-OperandsThere j_type inst.operands sh in
      Runs-bind (create_constant-Runs s i64 (add64 inst.address 4)) λ a l1 s1 k1 da.
        Runs-register inst 0 _ h0 (
          Runs-bind (unlinked (register_at inst 0) z s1 da)
            λ u l2 s2 k2 t. Runs-immediate inst 1 _ h1 (Runs-pure _ s2 refl))

  no_link :
      {l' : Lifter} (rd : ℕ)
      → (rd == 0) ≡ true
      → Simulates m h l'
      → Runs m h (link_register inst rd) l' Always
  unfolding link_register
  no_link {l'} rd z s' =
      Runs-eq (link_register inst rd) (pure tt) (rw z)
        (Runs-pure {Q = Always {A = Unit {0}}} tt s' tt)

  jump_indirect :
      (rd base offset : ℕ)
      → (rd == 0) ≡ true
      → Runs m h (indirect_jump inst rd base offset) l (
          GoesTo m
            (binary_value BinaryOpcode.and 64 (add64 (h.x base) (offset % 2 ^ 64)) jalr_align_mask))
  unfolding indirect_jump terminator_target binary_value
  jump_indirect rd base offset z = Runs-bind (get_register_value-Runs base s) λ a l1 s1 k1 da.
      Runs-bind (create_constant-Runs s1 i64 offset) λ b l2 s2 k2 db.
        Runs-bind (create_binary_op-Runs s2 BinaryOpcode.add i64 (k2.kept a _ _ da) db)
          λ c l3 s3 k3 dc. Runs-bind (create_constant-Runs s3 i64 jalr_align_mask) λ d l4 s4 k4 dd.
            Runs-bind (create_binary_op-Runs s4 BinaryOpcode.and i64 (k4.kept c _ _ dc) dd)
              λ e l5 s5 k5 de.
                Runs-bind (no_link rd z s5)
                  λ u l6 s6 k6 t. Runs-pure (return (some e)) s6 ((k6.kept e _ _ de).valued)

  jump_register :
      opcode_is_followed Opcode.jalr inst ≡ true
      → Shaped i_type inst.operands
      → Runs m h (lift_jalr inst) l (
          GoesTo m (
            binary_value BinaryOpcode.and 64
              (add64 (source inst 1 h) (immediate_at inst 2 % 2 ^ 64))
              jalr_align_mask))
  unfolding lift_jalr indirect_jump link_register opcode_is_followed get_register register_at
      get_immediate immediate_at
  jump_register f sh =
      let (h0, h1, h2) = Shaped-OperandsThere i_type inst.operands sh in
      let (z, other) = and_parts (register_at inst 0 == 0) _ f in
      let plain =
        not_return (register_at inst 0 == 0) (register_at inst 1 == 1) (immediate_at inst 2 == 0)
          other in
      Runs-register inst 0 _ h0 (
        Runs-register inst 1 _ h1 (
          Runs-immediate inst 2 _ h2 (
            rw plain
              (jump_indirect (register_at inst 0) (register_at inst 1) (immediate_at inst 2) z))))

  lift_terminator_opcode-Runs :
      (opcode : Opcode)
      → opcode_is_followed opcode inst ≡ true
      → Shaped (format opcode) inst.operands
      → Runs m h
          (lift_terminator_opcode opcode inst (add64 inst.address 4))
          l
          (GoesTo m (next_pc_opcode opcode inst h))
  unfolding lift_terminator_opcode next_pc_opcode opcode_is_followed opcode_is_terminator format
      is_taken binary_value
  lift_terminator_opcode-Runs Opcode.beq f sh = conditional_branch BinaryOpcode.eq _ _ refl sh
  lift_terminator_opcode-Runs Opcode.bne f sh = conditional_branch BinaryOpcode.ne _ _ refl sh
  lift_terminator_opcode-Runs Opcode.blt f sh = conditional_branch BinaryOpcode.lt _ _ refl sh
  lift_terminator_opcode-Runs Opcode.bge f sh = conditional_branch BinaryOpcode.ge _ _ refl sh
  lift_terminator_opcode-Runs Opcode.bltu f sh = conditional_branch BinaryOpcode.lt_u _ _ refl sh
  lift_terminator_opcode-Runs Opcode.bgeu f sh = conditional_branch BinaryOpcode.ge_u _ _ refl sh
  lift_terminator_opcode-Runs Opcode.jal f sh = jump f sh
  lift_terminator_opcode-Runs Opcode.jalr f sh = jump_register f sh
  lift_terminator_opcode-Runs _ f sh = cc

  -- From a block that stands for a hart, the terminator is lifted, and goes on to the next program
  -- counter of the hart.
  pub lift_terminator-Runs :
      is_followed inst ≡ true
      → WellShaped inst
      → Runs m h (lift_terminator inst (add64 inst.address 4)) l (GoesTo m (next_pc inst h))
  unfolding lift_terminator next_pc is_followed
  lift_terminator-Runs f sh = lift_terminator_opcode-Runs inst.opcode f sh
