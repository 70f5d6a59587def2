-- ===== src/Prelude/Text/Reading.antt =====
-- What a text says can be read off it: numbers from their digits.
use native.Mathlib.Nat.{div-add-mod}
use native.Mathlib.Omega.{arith}
use mathlib.Core.Path.{◌≡◌, refl, sym, ap, ◌∙◌}
use mathlib.Core.Logic.{inl, inr}
use mathlib.Core.List.{[], ◌∷◌, ◌++◌}
use Prim.Native.Nat.{ℕ, zero, suc, ◌+◌, ◌-◌, ◌*◌, ◌/◌, ◌%◌}
use dinorisc.Prelude.Tests.{ltb, if◌then◌else◌, Bool-cases}
use dinorisc.Prelude.Text.{Text, digit_char, digits, decimal, hexadecimal, zeros, pad}
use dinorisc.Prelude.Lists.{length}

abbrev digit_value : ℕ → ℕ
digit_value c = if ltb c 58 then c - 48 else c - 87

digit_value-digit_char : (d : ℕ) → digit_value (digit_char d) ≡ d
unfolding digit_char
digit_value-digit_char d = ground arith

-- The number that digits stand for, behind a number read before.
value : ℕ → ℕ → Text → ℕ
value base v [] = v
value base v (c ∷ t) = value base (v * base + digit_value c) t

value-digit :
    (base v d : ℕ) (t : Text) → value base v (digit_char d ∷ t) ≡ value base (v * base + d) t
unfolding value
value-digit base v d t = ap (λ n. value base (v * base + n) t) (digit_value-digit_char d)

nothing_before : (base n : ℕ) → 0 * base + n ≡ n
nothing_before base n = omega arith

value-first : (base n : ℕ) (t : Text) → value base 0 (digit_char n ∷ t) ≡ value base n t
value-first base n t = value-digit base 0 n t ∙ ap (λ k. value base k t) (nothing_before base n)

quotient_remainder : (base n : ℕ) → n / base * base + n % base ≡ n
quotient_remainder base n = omega (arith, div-add-mod n base)

value-digits : (base fuel n : ℕ) (t : Text) → value base 0 (digits base fuel n t) ≡ value base n t
unfolding digits
value-digits base zero n t = value-first base n t
value-digits base (suc fuel) n t = elim (Bool-cases (ltb n base)) [
  | inl e ↦ rw e (value-first base n t)
  | inr e ↦ rw e (
      value-digits base fuel (n / base) (digit_char (n % base) ∷ t)
      ∙ value-digit base (n / base) (n % base) t
      ∙ ap (λ k. value base k t) (quotient_remainder base n))
]

value-zeros : (base n : ℕ) (t : Text) → value base 0 (zeros n ++ t) ≡ value base 0 t
unfolding value
value-zeros base zero t = refl
value-zeros base (suc n) t =
    ap (λ k. value base k (zeros n ++ t)) (nothing_before base 0) ∙ value-zeros base n t

pub decimal-injective : {a b : ℕ} → decimal a ≡ decimal b → a ≡ b
unfolding value decimal
decimal-injective {a} {b} e =
    sym (value-digits 10 64 a []) ∙ ap (value 10 0) e ∙ value-digits 10 64 b []

pub hexadecimal-injective : {a b : ℕ} → hexadecimal a ≡ hexadecimal b → a ≡ b
unfolding value hexadecimal
hexadecimal-injective {a} {b} e =
    sym (value-digits 16 64 a []) ∙ ap (value 16 0) e ∙ value-digits 16 64 b []

value-pad : (w n : ℕ) → value 16 0 (pad w (hexadecimal n)) ≡ n
unfolding value pad hexadecimal
value-pad w n =
    value-zeros 16 (w - length (hexadecimal n)) (hexadecimal n) ∙ value-digits 16 64 n []

pub pad-hexadecimal-injective :
    (w : ℕ) {a b : ℕ} → pad w (hexadecimal a) ≡ pad w (hexadecimal b) → a ≡ b
pad-hexadecimal-injective w {a} {b} e = sym (value-pad w a) ∙ ap (value 16 0) e ∙ value-pad w b
