-- ===== src/Prelude/Text/Separators.antt =====
-- The parts of a text up to a separator, and which characters a number has.
use native.Mathlib.Nat.{pow-suc}
use native.Mathlib.Omega.{arith}
use mathlib.Core.Path.{◌≡◌, refl, sym, ◌∙◌}
use mathlib.Core.Logic.{◌≢◌, inl, inr}
use mathlib.Core.Bool.{Bool, true, not, ◌&&◌}
use mathlib.Core.List.{[], ◌∷◌, ◌++◌}
use mathlib.Core.List.{head-eq_of_cons-eq, tail-eq_of_cons-eq}
use Prim.Native.Nat.{ℕ, zero, suc, ◌-◌, ◌/◌, ◌%◌, ◌^◌, ◌<◌, ◌≤◌}
use dinorisc.Prelude.Tests.{ltb, ◌==◌, Bool-cases, ltb→lt}
use dinorisc.Prelude.Text.{
  Text, digit_char, digits, decimal, hexadecimal, signed_decimal, zeros, pad,
}
use dinorisc.Prelude.Lists.{length}
use dinorisc.Prelude.Text.Reading.{decimal-injective}

-- The text does not have the character `c`.
abbrev pub Avoids : ℕ → Text → Type 0
Avoids c [] = Unit
Avoids c (x ∷ t) = (x ≢ c) × Avoids c t

-- The text is empty or has `c` as its first character.
abbrev pub Begins : ℕ → Text → Type 0
Begins c [] = Unit
Begins c (x ∷ t) = x ≡ c

pub Avoids-append : (c : ℕ) (s t : Text) → Avoids c s → Avoids c t → Avoids c (s ++ t)
Avoids-append c [] t a b = b
Avoids-append c (x ∷ s) t (p, a) b = (p, Avoids-append c s t a b)

-- The part up to a separator can be told from the part after it.
pub split_at :
    (c : ℕ) (s t r u : Text)
    → Avoids c s
    → Avoids c t
    → Begins c r
    → Begins c u
    → s ++ r ≡ t ++ u
    → (s ≡ t) × (r ≡ u)
split_at c [] [] r u a b p q e = (refl, e)
split_at c [] (y ∷ t) (x ∷ r) u a (n, b) p q e = absurd (n (sym (head-eq_of_cons-eq e) ∙ p))
split_at c [] (y ∷ t) [] u a b p q e = cc
split_at c (x ∷ s) [] r (y ∷ u) (n, a) b p q e = absurd (n (head-eq_of_cons-eq e ∙ q))
split_at c (x ∷ s) [] r [] a b p q e = cc
split_at c (x ∷ s) (y ∷ t) r u (n, a) (k, b) p q e =
    let (f, g) = split_at c s t r u a b p q (tail-eq_of_cons-eq e) in
    (cc (head-eq_of_cons-eq e, f), g)

-- The digits of a number have none of the characters that separate the parts of a text.
digits-Avoids :
    (c base fuel n : ℕ) (t : Text)
    → ((d : ℕ) → digit_char d ≢ c)
    → Avoids c t
    → Avoids c (digits base fuel n t)
unfolding digits
digits-Avoids c base zero n t k a = (k n, a)
digits-Avoids c base (suc fuel) n t k a = elim (Bool-cases (ltb n base)) [
  | inl e ↦ rw e (k n, a)
  | inr e ↦
      rw e (digits-Avoids c base fuel (n / base) (digit_char (n % base) ∷ t) k (k (n % base), a))
]

zeros-Avoids : (c n : ℕ) (t : Text) → 48 ≢ c → Avoids c t → Avoids c (zeros n ++ t)
zeros-Avoids c zero t k a = a
zeros-Avoids c (suc n) t k a = (k, zeros-Avoids c n t k a)

low_separator : (c d : ℕ) → c < 48 → digit_char d ≢ c
unfolding digit_char
low_separator c d h e = ground arith

bracket : (d : ℕ) → digit_char d ≢ 93
unfolding digit_char
bracket d e = ground arith

pub decimal-Avoids : (c n : ℕ) → c < 48 → Avoids c (decimal n)
unfolding decimal
decimal-Avoids c n h = digits-Avoids c 10 64 n [] (λ d. low_separator c d h) tt

pub hexadecimal-Avoids : (c n : ℕ) → c < 48 → Avoids c (hexadecimal n)
unfolding hexadecimal
hexadecimal-Avoids c n h = digits-Avoids c 16 64 n [] (λ d. low_separator c d h) tt

pub hexadecimal-Avoids-bracket : (n : ℕ) → Avoids 93 (hexadecimal n)
unfolding hexadecimal
hexadecimal-Avoids-bracket n = digits-Avoids 93 16 64 n [] bracket tt

pub pad-Avoids : (c w : ℕ) (t : Text) → c < 48 → Avoids c t → Avoids c (pad w t)
unfolding pad
pad-Avoids c w t h a = zeros-Avoids c (w - length t) t (λ e. omega (arith, e, h)) a

-- The decimal digits of a number of up to 64 bits are below 58, and none is a letter.
tenth : (n fuel : ℕ) → n < 2 ^ suc fuel → n / 10 < 2 ^ fuel
tenth n fuel h = omega (arith, h, pow-suc 2 fuel)

digits-Avoids-letter :
    (c fuel n : ℕ) (t : Text) → 58 ≤ c → n < 2 ^ fuel → Avoids c t → Avoids c (digits 10 fuel n t)
unfolding digits digit_char
digits-Avoids-letter c zero n t k h a = ((λ e. ground arith), a)
digits-Avoids-letter c (suc fuel) n t k h a = elim (Bool-cases (ltb n 10)) [
  | inl e ↦ rw e ((λ f. omega (arith, k, f, ltb→lt n 10 e)), a)
  | inr e ↦ rw e (
      digits-Avoids-letter c fuel (n / 10) (digit_char (n % 10) ∷ t) k (tenth n fuel h)
        ((λ f. ground arith), a))
]

pub decimal-Avoids-letter : (c n : ℕ) → 58 ≤ c → n < 2 ^ 64 → Avoids c (decimal n)
unfolding decimal
decimal-Avoids-letter c n k h = digits-Avoids-letter c 64 n [] k h tt

-- A text that begins with a character is none that avoids it.
pub absent : (c : ℕ) (s t : Text) → Avoids c s → c ∷ t ≢ s
absent c [] t a e = cc
absent c (x ∷ s) t (n, a) e = n (sym (head-eq_of_cons-eq e))

pub cancel : (p : Text) {s t : Text} → p ++ s ≡ p ++ t → s ≡ t
cancel [] e = e
cancel (c ∷ p) e = cancel p (tail-eq_of_cons-eq e)

pub signed_decimal-injective :
    (w : ℕ) {a b : ℕ} → a < 2 ^ w → b < 2 ^ w → signed_decimal w a ≡ signed_decimal w b → a ≡ b
unfolding signed_decimal
signed_decimal-injective w {a} {b} h k e = elim (Bool-cases (ltb a (2 ^ (w - 1)))) [
  | inl p ↦ elim (Bool-cases (ltb b (2 ^ (w - 1)))) [
    | inl q ↦ decimal-injective (rw (p, q) at e)
    | inr q ↦
        absurd (absent 45 (decimal a) _ (decimal-Avoids 45 a (omega arith)) (sym (rw (p, q) at e)))
  ]
  | inr p ↦ elim (Bool-cases (ltb b (2 ^ (w - 1)))) [
    | inl q ↦ absurd (absent 45 (decimal b) _ (decimal-Avoids 45 b (omega arith)) (rw (p, q) at e))
    | inr q ↦
        let m =
          decimal-injective {a = 2 ^ w - a} {b = 2 ^ w - b} (tail-eq_of_cons-eq (rw (p, q) at e)) in
        omega (arith, m, h, k)
  ]
]

pub signed_decimal-Avoids : (c w n : ℕ) → c < 45 → Avoids c (signed_decimal w n)
unfolding signed_decimal
signed_decimal-Avoids c w n h = elim (Bool-cases (ltb n (2 ^ (w - 1)))) [
  | inl e ↦ rw e (decimal-Avoids c n (omega (arith, h)))
  | inr e ↦ rw e ((λ f. omega (arith, f, h)), decimal-Avoids c (2 ^ w - n) (omega (arith, h)))
]

pub signed_decimal-Avoids-letter : (c n : ℕ) → 58 ≤ c → n < 2 ^ 64 → Avoids c (signed_decimal 64 n)
unfolding signed_decimal
signed_decimal-Avoids-letter c n k h = elim (Bool-cases (ltb n (2 ^ 63))) [
  | inl e ↦ rw e (decimal-Avoids-letter c n k h)
  | inr e ↦
      let small : 2 ^ 64 - n < 2 ^ 64 = ground arith in
      rw e ((λ f. omega (arith, f, k)), decimal-Avoids-letter c (2 ^ 64 - n) k small)
]

-- The test that a text does not have a character.
unfoldable pub avoids : ℕ → Text → Bool
avoids c [] = true
avoids c (x ∷ t) = not (x == c) && avoids c t

both_true : (a b : Bool) → (a && b) ≡ true → (a ≡ true) × (b ≡ true)
both_true a b e = ground arith

pub avoids-Avoids : (c : ℕ) (t : Text) → avoids c t ≡ true → Avoids c t
unfolding avoids
avoids-Avoids c [] e = tt
avoids-Avoids c (x ∷ t) e =
    let (n, a) = both_true (not (x == c)) (avoids c t) e in
    ((λ f. ground arith), avoids-Avoids c t a)
