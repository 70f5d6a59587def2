-- ===== src/Prelude/Errors.antt =====
-- lib/Error.h: the exceptions of the program, as values, and the chaining of fallible steps.
use mathlib.Core.Path.{◌≡◌, refl}
use mathlib.Core.Logic.{◌⊎◌, inl, inr}

-- One constructor for each exception class; the message texts are left out.
-- `bad_access` is no exception of the program: it stands for what the C++ standard library does
-- when an operand of the wrong alternative or past the end of a vector is asked for
-- (`std::bad_variant_access`, or undefined behaviour).
pub data Error : Type 0 where
  elf_error decoding_error unsupported_instruction_error : Error
  encoding_error lowering_error runtime_error : Error
  bad_access : Error

pub data Result {ℓ} (A : Type ℓ) : Type ℓ where
  err : Error → Result A
  ok : A → Result A

infixl 5 ◌>>=◌
abbrev pub ◌>>=◌ {ℓ κ} :
    {A : Type ℓ} {B : Type κ} (step : Result A) (next : A → Result B) → Result B
err e >>= next = err e
ok value >>= next = next value

abbrev pub map_ok {ℓ κ} : {A : Type ℓ} {B : Type κ} → (A → B) → Result A → Result B
map_ok f (ok a) = ok (f a)
map_ok f (err e) = err e

-- Inversion of a successful bind, for proofs where the parts stay shut.
pub >>=-eq-ok {ℓ κ} :
    {A : Type ℓ} {B : Type κ} (step : Result A) (next : A → Result B) {out : B}
    (e : (step >>= next) ≡ ok out)
    → (value : A) × (step ≡ ok value) × (next value ≡ ok out)
>>=-eq-ok (err x) next e = cc
>>=-eq-ok (ok value) next e = (value, refl, e)

abbrev value_or {ℓ} : {A : Type ℓ} → A → Result A → A
value_or d (ok a) = a
value_or d (err e) = d

pub ok-injective {ℓ} : {A : Type ℓ} {a b : A} → ok a ≡ ok b → a ≡ b
ok-injective {a} p = λ i. value_or a (p i)

pub Result-cases {ℓ} :
    {A : Type ℓ} (r : Result A) → ((a : A) × (r ≡ ok a)) ⊎ ((e : Error) × (r ≡ err e))
Result-cases (ok a) = inl (a, refl)
Result-cases (err e) = inr (e, refl)
