-- ===== src/Translator/Arguments.antt =====
-- `setArgumentRegisters` of lib/BinaryTranslator.cpp: which registers get which arguments.
use dinorisc.Prelude.{
  ℕ, zero, suc, ◌+◌, ◌%◌, ◌^◌, ◌≤◌, ◌<◌, ◌≡◌, refl, ◌∙◌, arith, ◌⊎◌, inl, inr, true, some, of_some,
  List, [], ◌∷◌, ltb, ltb→lt, ==_iff, ne→==-false, Bool-cases, length, get_elem?,
}
use mathlib.Core.Path.{subst}
use dinorisc.Guest.{GuestState, update, write_register}
use dinorisc.Translator.Dispatch.{argument_loop, set_argument_registers}

-- A register that gets no argument: the arguments left are `args`, the next one has the index `i`.
abbrev Spared : ℕ → List ℕ → ℕ → Type 0
Spared i args j = (j < 10 + i) ⊎ (18 ≤ j) ⊎ (10 + i + length args ≤ j)

write_register-x :
    (state : GuestState) (i arg j : ℕ)
    → i < 8
    → (write_register state ((10 + i) % 2 ^ 8) arg).x j ≡ update state.x (10 + i) arg j
unfolding write_register
write_register-x state i arg j h = ground arith

-- The round for the argument `i` leaves the other registers alone.
write_register-other :
    (args : List ℕ) (state : GuestState) (i arg j : ℕ)
    → i < 8
    → Spared i (arg ∷ args) j
    → (write_register state ((10 + i) % 2 ^ 8) arg).x j ≡ state.x j
write_register-other args state i arg j h u =
    write_register-x state i arg j h ∙ rw (ne→==-false (10 + i) j (λ p. ground (arith, u, p))) refl

Spared-later : (args : List ℕ) (i arg j : ℕ) → Spared i (arg ∷ args) j → Spared (i + 1) args j
Spared-later args i arg j (inl l) = inl (omega (arith, l))
Spared-later args i arg j (inr (inl l)) = inr (inl l)
Spared-later args i arg j (inr (inr l)) = inr (inr (omega (arith, l)))

argument_loop-untouched :
    (args : List ℕ) (i : ℕ) (state : GuestState) (j : ℕ)
    → Spared i args j
    → (argument_loop args i state).x j ≡ state.x j
unfolding argument_loop
argument_loop-untouched [] i state j u = refl
argument_loop-untouched (arg ∷ rest) i state j u = elim (Bool-cases (ltb i 8)) [
  | inl t ↦ rw t (
      argument_loop-untouched rest (i + 1) _ j (Spared-later rest i arg j u)
      ∙ write_register-other rest state i arg j (ltb→lt i 8 t) u)
  | inr t ↦ rw t refl
]

lt→ltb : (a b : ℕ) → a < b → ltb a b ≡ true
lt→ltb a b h = ground arith

argument_loop-argument :
    (args : List ℕ) (i : ℕ) (state : GuestState) (k : ℕ) {arg : ℕ}
    → i + k < 8
    → get_elem? args k ≡ some arg
    → (argument_loop args i state).x (10 + i + k) ≡ arg
unfolding argument_loop
argument_loop-argument [] i state k h e = cc
argument_loop-argument (first ∷ rest) i state zero {arg} h e = rw (lt→ltb i 8 (omega (arith, h))) (
    argument_loop-untouched rest (i + 1) _ (10 + i + 0) (inl (omega arith))
    ∙ (write_register-x state i first (10 + i + 0) (omega (arith, h))
        ∙ rw ((==_iff (10 + i) (10 + i + 0)).1 (omega arith)) (of_some e)))
argument_loop-argument (first ∷ rest) i state (suc k) {arg} h e =
    rw (lt→ltb i 8 (omega (arith, h))) (
      subst
        (λ j.
          (argument_loop rest (i + 1) (write_register state ((10 + i) % 2 ^ 8) first)).x j ≡ arg)
        (omega arith) (argument_loop-argument rest (i + 1) _ k (omega (arith, h)) e))

-- Each of the first eight arguments stands in its register afterwards, argument `k` in x10 + k.
pub set_argument_registers-argument :
    (args : List ℕ) (state : GuestState) (k : ℕ) {arg : ℕ}
    → k < 8
    → get_elem? args k ≡ some arg
    → (set_argument_registers args state).x (10 + k) ≡ arg
unfolding set_argument_registers
set_argument_registers-argument args state k h e =
    argument_loop-argument args 0 state k (omega (arith, h)) e

-- A register that gets no argument is as it was: those below x10, those from x18 on, and those behind
-- the last argument.
pub set_argument_registers-untouched :
    (args : List ℕ) (state : GuestState) (j : ℕ)
    → (j < 10) ⊎ (18 ≤ j) ⊎ (10 + length args ≤ j)
    → (set_argument_registers args state).x j ≡ state.x j
unfolding set_argument_registers
set_argument_registers-untouched args state j u = argument_loop-untouched args 0 state j u
