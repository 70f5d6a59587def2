-- ===== src/Translator/Execution.antt =====
-- The loop of `executeFunction` in lib/BinaryTranslator.cpp, as the steps from block to block.
use dinorisc.Prelude.{
  ℕ, zero, suc, ◌+◌, ◌<◌, ◌≡◌, ◌≢◌, refl, sym, ap, arith, inl, inr, Option, none, some, ◌==◌,
  ==_iff, Bool-cases, Result, ok, err,
}
use mathlib.Core.Path.{subst}
use dinorisc.Guest.{GuestState}
use dinorisc.Translator.Dispatch.{Outcome, finished, after_block, dispatch_loop}

abbrev pub BlockRunner : Type 0
BlockRunner = ℕ → GuestState → Option (Result (ℕ × GuestState))

-- From a program counter and a state, block after block, to the program counter 0 and a last state.
pub data Executes (run : BlockRunner) : ℕ → GuestState → GuestState → Type 0 where
  halted : (state : GuestState) → Executes run 0 state state
  next :
      (pc next_pc : ℕ) (state state' last : GuestState)
      → pc ≢ 0
      → run pc (record state { pc = pc }) ≡ some (ok (next_pc, state'))
      → Executes run next_pc state' last
      → Executes run pc state last

abbrev final_count : ℕ → Outcome → ℕ
final_count d (finished count state) = count
final_count d _ = d

abbrev final_state : GuestState → Outcome → GuestState
final_state d (finished count state) = state
final_state d _ = d

module _ (run : BlockRunner) where
  -- The rest of the loop, with the rounds and the count as they are behind the block.
  abbrev Rest : (ℕ → GuestState → Outcome) → ℕ → Type 0
  Rest continue bound =
      (pc : ℕ) (state : GuestState) (n : ℕ) (last : GuestState)
      → continue pc state ≡ finished n last
      → n < bound
      → Executes run pc state last

  halts : {pc : ℕ} {state last : GuestState} → pc ≡ 0 → state ≡ last → Executes run pc state last
  halts {pc} {state} {last} z p =
      subst (λ c. Executes run c state last) (sym z) (subst (Executes run 0 state) p (halted state))

  after_block-Executes :
      (outcome : Option (Result (ℕ × GuestState))) (continue : ℕ → GuestState → Outcome)
      (state : GuestState) (count bound pc : ℕ) (n : ℕ) (last : GuestState)
      → pc ≢ 0
      → run pc (record state { pc = pc }) ≡ outcome
      → Rest continue bound
      → after_block run outcome continue state count ≡ finished n last
      → n < bound
      → Executes run pc state last
  unfolding after_block
  after_block-Executes none continue state count bound pc n last nz r k e h = cc
  after_block-Executes (some (err x)) continue state count bound pc n last nz r k e h = cc
  after_block-Executes (some (ok (next_pc, state'))) continue state count bound pc n last nz r k e
        h =
      elim (Bool-cases (next_pc == 0)) [
        | inl t ↦
            next pc next_pc state state' last nz r
              (halts ((==_iff next_pc 0).0 t) (ap (final_state state') (rw t at e)))
        | inr t ↦ next pc next_pc state state' last nz r (k next_pc state' n last (rw t at e) h)
      ]

  dispatch_loop-Executes :
      (rounds count pc : ℕ) (state : GuestState) (n : ℕ) (last : GuestState)
      → dispatch_loop run rounds count pc state ≡ finished n last
      → n < count + rounds
      → Executes run pc state last
  unfolding dispatch_loop
  dispatch_loop-Executes zero count pc state n last e h =
      absurd (omega (arith, h, ap (final_count 0) e))
  dispatch_loop-Executes (suc rounds) count pc state n last e h = elim (Bool-cases (pc == 0)) [
    | inl t ↦ halts ((==_iff pc 0).0 t) (ap (final_state state) (rw t at e))
    | inr t ↦
        after_block-Executes (run pc (record state { pc = pc }))
          (dispatch_loop run rounds (count + 1)) state count (count + 1 + rounds) pc n last
          (λ p. ground (arith, t, p)) refl (dispatch_loop-Executes rounds (count + 1)) (rw t at e)
          (omega (arith, h))
  ]

-- When the loop over the blocks ends before the bound on its rounds, the blocks that it ran lead, one to
-- the next, from the first program counter and state to the program counter 0 and the state returned.
pub dispatch_loop-halts :
    (run : BlockRunner) (rounds pc : ℕ) (state : GuestState) (blocks : ℕ) (last : GuestState)
    → dispatch_loop run rounds 0 pc state ≡ finished blocks last
    → blocks < rounds
    → Executes run pc state last
dispatch_loop-halts run rounds pc state blocks last e h =
    dispatch_loop-Executes run rounds 0 pc state blocks last e (omega (arith, h))
