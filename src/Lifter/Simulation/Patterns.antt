-- ===== src/Lifter/Simulation/Patterns.antt =====
-- The instruction patterns of the lifter, each against what its instructions do.
use mathlib.Core.Path.{subst}
use dinorisc.Prelude.{ℕ, ◌/◌, ◌%◌, ◌^◌, ◌≡◌, arith, Bool, true, false}
use dinorisc.Prelude.Words.{add64, widen}
use dinorisc.Ir.Syntax.{IrType, i32, i64, BinaryOpcode}
use dinorisc.Ir.Meaning.{Machine, width, byte_size, binary_value, write_memory}
use dinorisc.Riscv.Syntax.{Instruction}
use dinorisc.Riscv.Meaning.{
  Hart, register_at, immediate_at, source, write_x, compute, compute_imm, load_value, store_value,
}
use dinorisc.Lifter.Builder.{Lifter}
use dinorisc.Lifter.Patterns.{
  lift_r_type_binary_op, lift_i_type_binary_op, lift_w_type_binary_op, lift_w_type_imm_op,
  extend_loaded, lift_load_instruction, lift_store_instruction,
}
use dinorisc.Lifter.Simulation.Rules.{
  Denotes, Simulates, Runs, Always, Makes, Runs-bind, Runs-pure, HasRegister, HasImmediate,
  Runs-register, Runs-immediate,
}
use dinorisc.Lifter.Simulation.Builder.{
  create_constant-Runs, create_binary_op-Runs, create_sext-Runs, create_zext-Runs,
  create_trunc-Runs, create_load-Runs, create_store-Runs,
}
use dinorisc.Lifter.Simulation.Registers.{get_register_value-Runs, set_register_value-Runs}

module _ {m : Machine} {h : Hart} {l : Lifter} (inst : Instruction) (s : Simulates m h l) where
  module _ (h0 : HasRegister inst 0) (h1 : HasRegister inst 1) where
    pub lift_r_type-Runs :
        (opcode : BinaryOpcode)
        → HasRegister inst 2
        → Runs m
            (compute (binary_value opcode 64) inst h)
            (lift_r_type_binary_op inst opcode i64)
            l
            Always
    unfolding lift_r_type_binary_op
    lift_r_type-Runs opcode h2 = Runs-register inst 1 _ h1 (
        Runs-bind (get_register_value-Runs (register_at inst 1) s) λ a l1 s1 k1 da.
          Runs-register inst 2 _ h2 (
            Runs-bind (get_register_value-Runs (register_at inst 2) s1) λ b l2 s2 k2 db.
              Runs-bind (create_binary_op-Runs s2 opcode i64 (k2.kept a _ _ da) db) λ c l3 s3 k3 dc.
                Runs-register inst 0 _ h0 (set_register_value-Runs (register_at inst 0) s3 dc)))

    pub lift_i_type-Runs :
        (opcode : BinaryOpcode)
        → HasImmediate inst 2
        → Runs m
            (compute_imm (binary_value opcode 64) inst h)
            (lift_i_type_binary_op inst opcode i64)
            l
            Always
    unfolding lift_i_type_binary_op
    lift_i_type-Runs opcode h2 = Runs-register inst 1 _ h1 (
        Runs-bind (get_register_value-Runs (register_at inst 1) s) λ a l1 s1 k1 da.
          Runs-immediate inst 2 _ h2 (
            Runs-bind (create_constant-Runs s1 i64 (immediate_at inst 2)) λ b l2 s2 k2 db.
              Runs-bind (create_binary_op-Runs s2 opcode i64 (k2.kept a _ _ da) db) λ c l3 s3 k3 dc.
                Runs-register inst 0 _ h0 (set_register_value-Runs (register_at inst 0) s3 dc)))

    pub lift_w_type-Runs :
        (opcode : BinaryOpcode)
        → HasRegister inst 2
        → Runs m
            (compute (λ a b. widen 32 64 (binary_value opcode 32 (a % 2 ^ 32) (b % 2 ^ 32))) inst h)
            (lift_w_type_binary_op inst opcode)
            l
            Always
    unfolding lift_w_type_binary_op
    lift_w_type-Runs opcode h2 = Runs-register inst 1 _ h1 (
        Runs-bind (get_register_value-Runs (register_at inst 1) s) λ a l1 s1 k1 da.
          Runs-register inst 2 _ h2 (
            Runs-bind (get_register_value-Runs (register_at inst 2) s1) λ b l2 s2 k2 db.
              Runs-bind (create_trunc-Runs s2 i32 (k2.kept a _ _ da)) λ c l3 s3 k3 dc.
                Runs-bind (create_trunc-Runs s3 i32 (k3.kept b _ _ db)) λ d l4 s4 k4 dd.
                  Runs-bind (create_binary_op-Runs s4 opcode i32 (k4.kept c _ _ dc) dd)
                    λ e l5 s5 k5 de. Runs-bind (create_sext-Runs s5 i64 de) λ f l6 s6 k6 df.
                      Runs-register inst 0 _ h0
                        (set_register_value-Runs (register_at inst 0) s6 df)))

    pub lift_w_type_imm-Runs :
        (opcode : BinaryOpcode)
        → HasImmediate inst 2
        → Runs m
            (write_x
              (register_at inst 0)
              (widen 32 64
                (binary_value opcode 32 (source inst 1 h % 2 ^ 32) (immediate_at inst 2 % 2 ^ 32)))
              h)
            (lift_w_type_imm_op inst opcode)
            l
            Always
    unfolding lift_w_type_imm_op
    lift_w_type_imm-Runs opcode h2 = Runs-register inst 1 _ h1 (
        Runs-bind (get_register_value-Runs (register_at inst 1) s) λ a l1 s1 k1 da.
          Runs-immediate inst 2 _ h2 (
            Runs-bind (create_constant-Runs s1 i32 (immediate_at inst 2)) λ b l2 s2 k2 db.
              Runs-bind (create_trunc-Runs s2 i32 (k2.kept a _ _ da)) λ c l3 s3 k3 dc.
                Runs-bind (create_binary_op-Runs s3 opcode i32 dc (k3.kept b _ _ db))
                  λ e l5 s5 k5 de. Runs-bind (create_sext-Runs s5 i64 de) λ f l6 s6 k6 df.
                    Runs-register inst 0 _ h0 (set_register_value-Runs (register_at inst 0) s6 df)))

-- A loaded value as a whole register: sign extended, or zero extended.
abbrev pub extended_value : IrType → Bool → ℕ → ℕ
extended_value i64 sign_extend n = n
extended_value type true n = widen (width type) 64 n
extended_value type false n = n

extend_loaded-Runs :
    {m : Machine} {h : Hart} {l : Lifter} (type : IrType) (sign_extend : Bool) {v n : ℕ}
    → Simulates m h l
    → Denotes m l v type n
    → Runs m h
        (extend_loaded type sign_extend v)
        l
        (Makes m i64 (extended_value type sign_extend n))
unfolding extend_loaded
extend_loaded-Runs i64 sign_extend {v} s d = Runs-pure v s d
extend_loaded-Runs type true s d = create_sext-Runs s i64 d
extend_loaded-Runs type false s d = create_zext-Runs s i64 d

write_memory_low :
    (value address : ℕ) (memory : ℕ → ℕ)
    → write_memory 4 memory address (value % 2 ^ 32) ≡ write_memory 4 memory address value
unfolding write_memory
write_memory_low value address memory =
    let e0 : value % 2 ^ 32 % 256 ≡ value % 256 = omega arith in
    let e1 : value % 2 ^ 32 / 256 % 256 ≡ value / 256 % 256 = omega arith in
    let e2 : value % 2 ^ 32 / 256 / 256 % 256 ≡ value / 256 / 256 % 256 = omega arith in
    let e3 : value % 2 ^ 32 / 256 / 256 / 256 % 256 ≡ value / 256 / 256 / 256 % 256 = omega arith in
    rw (e0, e1, e2, e3)

module _ {m : Machine} {h : Hart} {l : Lifter} (inst : Instruction) (s : Simulates m h l) where
  module _ (h0 : HasRegister inst 0) (h1 : HasRegister inst 1) (h2 : HasImmediate inst 2) where
    pub lift_load-Runs :
        (type : IrType) (sign_extend : Bool)
        → Runs m
            (write_x
              (register_at inst 0)
              (extended_value type sign_extend (load_value (byte_size type) inst h))
              h)
            (lift_load_instruction inst type sign_extend)
            l
            Always
    unfolding lift_load_instruction binary_value
    lift_load-Runs type sign_extend = Runs-register inst 1 _ h1 (
        Runs-bind (get_register_value-Runs (register_at inst 1) s) λ a l1 s1 k1 da.
          Runs-immediate inst 2 _ h2 (
            Runs-bind (create_constant-Runs s1 i64 (immediate_at inst 2)) λ b l2 s2 k2 db.
              Runs-bind (create_binary_op-Runs s2 BinaryOpcode.add i64 (k2.kept a _ _ da) db)
                λ c l3 s3 k3 dc. Runs-bind (create_load-Runs s3 type dc) λ d l4 s4 k4 dd.
                  Runs-bind (extend_loaded-Runs type sign_extend s4 dd) λ e l5 s5 k5 de.
                    Runs-register inst 0 _ h0 (set_register_value-Runs (register_at inst 0) s5 de)))

    pub lift_store_i64-Runs :
        Runs m (store_value 8 inst h) (lift_store_instruction inst i64) l Always
    unfolding lift_store_instruction binary_value
    lift_store_i64-Runs = Runs-register inst 0 _ h0 (
        Runs-bind (get_register_value-Runs (register_at inst 0) s) λ a l1 s1 k1 da.
          Runs-register inst 1 _ h1 (
            Runs-bind (get_register_value-Runs (register_at inst 1) s1) λ v l2 s2 k2 dv.
              Runs-immediate inst 2 _ h2 (
                Runs-bind (create_constant-Runs s2 i64 (immediate_at inst 2)) λ b l3 s3 k3 db.
                  Runs-bind
                    (create_binary_op-Runs s3 BinaryOpcode.add i64
                      (k3.kept a _ _ (k2.kept a _ _ da)) db)
                    λ c l4 s4 k4 dc.
                      Runs-bind (create_store-Runs s4 (k4.kept v _ _ (k3.kept v _ _ dv)) dc)
                        λ d l5 s5 k5 t. Runs-pure tt s5 tt)))

    pub lift_store_i32-Runs :
        Runs m (store_value 4 inst h) (lift_store_instruction inst i32) l Always
    unfolding lift_store_instruction binary_value
    lift_store_i32-Runs =
        subst
          (λ memory.
            Runs m (record h { memory = memory }) (lift_store_instruction inst i32) l Always)
          (write_memory_low (source inst 1 h)
            (add64 (source inst 0 h) (immediate_at inst 2 % 2 ^ 64)) h.memory)
          (Runs-register inst 0 _ h0 (
            Runs-bind (get_register_value-Runs (register_at inst 0) s) λ a l1 s1 k1 da.
              Runs-register inst 1 _ h1 (
                Runs-bind (get_register_value-Runs (register_at inst 1) s1) λ v l2 s2 k2 dv.
                  Runs-immediate inst 2 _ h2 (
                    Runs-bind (create_constant-Runs s2 i64 (immediate_at inst 2)) λ b l3 s3 k3 db.
                      Runs-bind
                        (create_binary_op-Runs s3 BinaryOpcode.add i64
                          (k3.kept a _ _ (k2.kept a _ _ da)) db)
                        λ c l4 s4 k4 dc.
                          Runs-bind (create_trunc-Runs s4 i32 (k4.kept v _ _ (k3.kept v _ _ dv)))
                            λ w l5 s5 k5 dw.
                              Runs-bind (create_store-Runs s5 dw (k5.kept c _ _ dc))
                                λ d l6 s6 k6 t. Runs-pure tt s6 tt))))
