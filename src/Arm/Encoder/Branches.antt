-- ===== src/Arm/Encoder/Branches.antt =====
-- The branches that the encoder makes, as the processor takes them: the displacement of a branch word.
use native.Mathlib.Decide.{dec_lt}
use mathlib.Core.Path.{subst}
use dinorisc.Prelude.{
  ℕ, ◌+◌, ◌*◌, ◌/◌, ◌%◌, ◌^◌, ◌<◌, ◌≤◌, ◌≡◌, refl, sym, ap, ◌∙◌, arith, Bool, true, false, leb,
  bit_or, inl, inr, Bool-cases, Result, ok, err, ok-injective, encoding_error,
}
use dinorisc.Prelude.Words.{shl32, widen}
use dinorisc.Prelude.Bits.{bit_or-add, bit_and-mask}
use dinorisc.Arm.Syntax.{Opcode}
use dinorisc.Arm.Operands.{get_condition_code}
use dinorisc.Arm.Encoder.{encode_branch_inst, branch_opcode, conditional_branch, word_offset}

-- `B`, with its displacement in words in the low 26 bits.
b_word :
    (t : ℕ) → bit_or (shl32 0b000101 26) (word_offset t 0x3FFFFFF) ≡ 5 * 2 ^ 26 + t / 4 % 2 ^ 26
b_word t =
    ap (bit_or (5 * 2 ^ 26)) (bit_and-mask 26 (t / 4))
    ∙ bit_or-add 26 5 (t / 4 % 2 ^ 26) (omega arith)

-- `B.cond`, with the displacement from bit 5 on and the condition in the low bits.
conditional_word :
    (t cond : ℕ)
    → cond < 16
    → bit_or (bit_or (shl32 0b0101010 25) (shl32 (word_offset t 0x7FFFF) 5)) cond
      ≡ (42 * 2 ^ 20 + t / 4 % 2 ^ 19) * 2 ^ 5 + cond
conditional_word t cond h =
    let small : t / 4 % 2 ^ 19 * 2 ^ 5 % 2 ^ 32 ≡ t / 4 % 2 ^ 19 * 2 ^ 5 = omega arith in
    let sum : 42 * 2 ^ 25 + t / 4 % 2 ^ 19 * 2 ^ 5 ≡ (42 * 2 ^ 20 + t / 4 % 2 ^ 19) * 2 ^ 5 =
      omega arith in
    ap (λ k. bit_or (bit_or (42 * 2 ^ 25) (k * 2 ^ 5 % 2 ^ 32)) cond) (bit_and-mask 19 (t / 4))
    ∙ ap (λ k. bit_or (bit_or (42 * 2 ^ 25) k) cond) small
    ∙ ap (λ k. bit_or k cond) (bit_or-add 25 42 (t / 4 % 2 ^ 19 * 2 ^ 5) (omega arith) ∙ sum)
    ∙ bit_or-add 5 (42 * 2 ^ 20 + t / 4 % 2 ^ 19) cond (omega (arith, h))

-- The reach of a branch in bytes, to either side.
abbrev pub reach : Opcode → ℕ
reach Opcode.b = 2 ^ 25
reach _ = 2 ^ 18

-- The condition of a branch, by the processor's table.
unfoldable pub condition_of : Opcode → ℕ
condition_of Opcode.b_ne = 1
condition_of Opcode.b_ge = 10
condition_of Opcode.b_lt = 11
condition_of Opcode.b_gt = 12
condition_of Opcode.b_le = 13
condition_of _ = 0

unfoldable pub is_branch : Opcode → Bool
is_branch Opcode.b = true
is_branch Opcode.b_eq = true
is_branch Opcode.b_ne = true
is_branch Opcode.b_lt = true
is_branch Opcode.b_le = true
is_branch Opcode.b_gt = true
is_branch Opcode.b_ge = true
is_branch _ = false

-- The word is the branch of the opcode, and adds `t` to the program counter.
abbrev pub BranchesBy : Opcode → ℕ → ℕ → Type 0
BranchesBy Opcode.b t w = (w / 2 ^ 26 ≡ 0b000101) × (widen 28 64 (w % 2 ^ 26 * 4) ≡ t)
BranchesBy op t w =
    (w / 2 ^ 24 ≡ 0b01010100)
    × (w % 2 ^ 5 ≡ condition_of op)
    × (widen 21 64 (w / 2 ^ 5 % 2 ^ 19 * 4) ≡ t)

-- A signed displacement of `n` bits in words is the pattern of the displacement in bytes.
b_displacement :
    (t : ℕ)
    → t % 4 ≡ 0
    → t < 2 ^ 64
    → (t + 2 ^ 25) % 2 ^ 64 < 2 ^ 26
    → widen 28 64 (t / 4 % 2 ^ 26 * 4) ≡ t
b_displacement t a h r = ground arith

conditional_displacement :
    (t : ℕ)
    → t % 4 ≡ 0
    → t < 2 ^ 64
    → (t + 2 ^ 18) % 2 ^ 64 < 2 ^ 19
    → widen 21 64 (t / 4 % 2 ^ 19 * 4) ≡ t
conditional_displacement t a h r = ground arith

conditional_parts :
    (t cond : ℕ)
    → t % 4 ≡ 0
    → t < 2 ^ 64
    → (t + 2 ^ 18) % 2 ^ 64 < 2 ^ 19
    → cond < 16
    → let w = (42 * 2 ^ 20 + t / 4 % 2 ^ 19) * 2 ^ 5 + cond in
      (w / 2 ^ 24 ≡ 0b01010100) × (w % 2 ^ 5 ≡ cond) × (widen 21 64 (w / 2 ^ 5 % 2 ^ 19 * 4) ≡ t)
conditional_parts t cond a h r c =
    let x = t / 4 % 2 ^ 19 in
    let field : ((42 * 2 ^ 20 + x) * 2 ^ 5 + cond) / 2 ^ 5 % 2 ^ 19 ≡ x = omega (arith, c) in
    (
      omega (arith, c),
      omega (arith, c),
      ap (λ k. widen 21 64 (k * 4)) field ∙ conditional_displacement t a h r,
    )

low_field : (x : ℕ) → x < 2 ^ 26 → (5 * 2 ^ 26 + x) % 2 ^ 26 ≡ x
low_field x h = omega (arith, h)

wider :
    (t : ℕ)
    → (t + 2 ^ 18) % 2 ^ 64 < 2 ^ 19
    → leb (2 * 0x2000000) ((t + 0x2000000) % 2 ^ 64) ≡ false
wider t r = ground arith

near : (n t : ℕ) → (t + n) % 2 ^ 64 < 2 * n → leb (2 * n) ((t + n) % 2 ^ 64) ≡ false
near n t r = ground arith

far : (n t : ℕ) → 2 * n ≤ (t + n) % 2 ^ 64 → leb (2 * n) ((t + n) % 2 ^ 64) ≡ true
far n t r = ground arith

module _ (t : ℕ) where
  encode_conditional :
      (op : Opcode) (cond : ℕ)
      → branch_opcode op t ≡ conditional_branch op t
      → get_condition_code op ≡ ok cond
      → cond < 16
      → t % 4 ≡ 0
      → t < 2 ^ 64
      → (t + 2 ^ 18) % 2 ^ 64 < 2 ^ 19
      → encode_branch_inst (record { opcode = op; target = t })
        ≡ ok ((42 * 2 ^ 20 + t / 4 % 2 ^ 19) * 2 ^ 5 + cond)
  unfolding encode_branch_inst conditional_branch
  encode_conditional op cond e c k a h r =
      rw (wider t r, e, near (2 ^ 18) t r, c) (ap ok (conditional_word t cond k))

  -- A branch to a displacement that is a multiple of four and within reach, 32 MB to either side for
  -- `B` and 256 KB for `B.cond`, is encoded as that branch: the opcode and the condition of the
  -- processor's tables, and the displacement that the processor adds to the program counter.
  pub encode_branch_inst-BranchesBy :
      (op : Opcode)
      → is_branch op ≡ true
      → t % 4 ≡ 0
      → t < 2 ^ 64
      → (t + reach op) % 2 ^ 64 < 2 * reach op
      → (w : ℕ) × (encode_branch_inst (record { opcode = op; target = t }) ≡ ok w)
        × BranchesBy op t w
  unfolding encode_branch_inst branch_opcode is_branch condition_of get_condition_code
  encode_branch_inst-BranchesBy Opcode.b e a h r = (
    5 * 2 ^ 26 + t / 4 % 2 ^ 26,
    rw (near (2 ^ 25) t r) (ap ok (b_word t)),
    (
      omega arith,
      ap (λ k. widen 28 64 (k * 4)) (low_field (t / 4 % 2 ^ 26) (omega arith))
          ∙ b_displacement t a h r,
    ),
  )
  encode_branch_inst-BranchesBy Opcode.b_eq e a h r = (
    _,
    encode_conditional Opcode.b_eq 0 refl refl (omega arith) a h r,
    conditional_parts t 0 a h r (omega arith),
  )
  encode_branch_inst-BranchesBy Opcode.b_ne e a h r = (
    _,
    encode_conditional Opcode.b_ne 1 refl refl (omega arith) a h r,
    conditional_parts t 1 a h r (omega arith),
  )
  encode_branch_inst-BranchesBy Opcode.b_lt e a h r = (
    _,
    encode_conditional Opcode.b_lt 11 refl refl (omega arith) a h r,
    conditional_parts t 11 a h r (omega arith),
  )
  encode_branch_inst-BranchesBy Opcode.b_le e a h r = (
    _,
    encode_conditional Opcode.b_le 13 refl refl (omega arith) a h r,
    conditional_parts t 13 a h r (omega arith),
  )
  encode_branch_inst-BranchesBy Opcode.b_gt e a h r = (
    _,
    encode_conditional Opcode.b_gt 12 refl refl (omega arith) a h r,
    conditional_parts t 12 a h r (omega arith),
  )
  encode_branch_inst-BranchesBy Opcode.b_ge e a h r = (
    _,
    encode_conditional Opcode.b_ge 10 refl refl (omega arith) a h r,
    conditional_parts t 10 a h r (omega arith),
  )
  encode_branch_inst-BranchesBy _ e a h r = cc

  conditional_far :
      (op : Opcode) → 2 ^ 19 ≤ (t + 2 ^ 18) % 2 ^ 64 → conditional_branch op t ≡ err encoding_error
  unfolding conditional_branch
  conditional_far op r = rw (far (2 ^ 18) t r) refl

  both_far :
      (op : Opcode) (more : Result ℕ)
      → branch_opcode op t ≡ more
      → more ≡ err encoding_error
      → encode_branch_inst (record { opcode = op; target = t }) ≡ err encoding_error
  unfolding encode_branch_inst
  both_far op more e f = elim (Bool-cases (leb (2 * 0x2000000) ((t + 0x2000000) % 2 ^ 64))) [
    | inl b ↦ rw b refl
    | inr b ↦ rw (b, e) f
  ]

  encode_branch_inst-far :
      (op : Opcode)
      → is_branch op ≡ true
      → 2 * reach op ≤ (t + reach op) % 2 ^ 64
      → encode_branch_inst (record { opcode = op; target = t }) ≡ err encoding_error
  unfolding encode_branch_inst branch_opcode is_branch
  encode_branch_inst-far Opcode.b e r = rw (far (2 ^ 25) t r) refl
  encode_branch_inst-far Opcode.b_eq e r =
      both_far Opcode.b_eq _ refl (conditional_far Opcode.b_eq r)
  encode_branch_inst-far Opcode.b_ne e r =
      both_far Opcode.b_ne _ refl (conditional_far Opcode.b_ne r)
  encode_branch_inst-far Opcode.b_lt e r =
      both_far Opcode.b_lt _ refl (conditional_far Opcode.b_lt r)
  encode_branch_inst-far Opcode.b_le e r =
      both_far Opcode.b_le _ refl (conditional_far Opcode.b_le r)
  encode_branch_inst-far Opcode.b_gt e r =
      both_far Opcode.b_gt _ refl (conditional_far Opcode.b_gt r)
  encode_branch_inst-far Opcode.b_ge e r =
      both_far Opcode.b_ge _ refl (conditional_far Opcode.b_ge r)
  encode_branch_inst-far _ e r = cc

  -- Whatever branch to a multiple of four is encoded, the processor takes it as that branch, by that
  -- displacement: one that does not fit the format is never cut down to a branch to elsewhere.
  pub encode_branch_inst_sound :
      (op : Opcode) {w : ℕ}
      → is_branch op ≡ true
      → t % 4 ≡ 0
      → t < 2 ^ 64
      → encode_branch_inst (record { opcode = op; target = t }) ≡ ok w
      → BranchesBy op t w
  encode_branch_inst_sound op e a h made = elim (dec_lt ((t + reach op) % 2 ^ 64) (2 * reach op)) [
    | yes r ↦
        let (w', same, good) = encode_branch_inst-BranchesBy op e a h r in
        subst (BranchesBy op t) (ok-injective (sym same ∙ made)) good
    | no r ↦ let refused = encode_branch_inst-far op e (omega (arith, r)) in cc
  ]
