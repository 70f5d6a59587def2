-- ===== src/Prelude/Text.antt =====
-- Text as the code points of its characters, and what the streams of the C++ library print for
-- integers.
pub mod Names
pub mod Reading
pub mod Separators
use Prim.Native.Char.{code}
use Prim.Native.String.{String}
use dinorisc.Prelude.Tests.{ltb, if◌then◌else◌}
use dinorisc.Prelude.Lists.{length}
use Prim.Native.Nat.{ℕ, zero, suc, ◌+◌, ◌-◌, ◌/◌, ◌%◌, ◌^◌}
use mathlib.Core.List.{List, [], ◌∷◌, ◌++◌}

abbrev pub Text : Type 0
Text = List ℕ

abbrev pub codes : String → Text
codes String.[] = []
codes (String.◌∷◌ c s) = code c ∷ codes s

-- `0` to `9`, then `a` and on.
unfoldable pub digit_char : ℕ → ℕ
digit_char d = if ltb d 10 then d + 48 else d + 87

-- The digits of a number in front of a text; with `fuel` one less than enough places.
unfoldable pub digits : ℕ → ℕ → ℕ → Text → Text
unfolding digit_char
digits base zero n tail = digit_char n ∷ tail
digits base (suc fuel) n tail =
    let more = digits base fuel (n / base) (digit_char (n % base) ∷ tail) in
    if ltb n base then digit_char n ∷ tail else more

-- 64 places are more than a 64-bit number has.
unfoldable pub decimal : ℕ → Text
unfolding digits
decimal n = digits 10 64 n []

unfoldable pub hexadecimal : ℕ → Text
unfolding digits
hexadecimal n = digits 16 64 n []

-- A signed integer of `w` bits, as its pattern.
unfoldable pub signed_decimal : ℕ → ℕ → Text
unfolding decimal
signed_decimal w n = if ltb n (2 ^ (w - 1)) then decimal n else 45 ∷ decimal (2 ^ w - n)

abbrev zeros : ℕ → Text
zeros zero = []
zeros (suc n) = 48 ∷ zeros n

-- `std::setw` with the fill character 0.
unfoldable pub pad : ℕ → Text → Text
pad width t = zeros (width - length t) ++ t
