-- ===== src/Prelude/Bits.antt =====
-- Laws of `|`, `&` and of fields of a word, as arithmetic, at every width.
use Prim.Native.Nat.{ℕ, zero, suc, ◌+◌, ◌-◌, ◌*◌, ◌/◌, ◌%◌, ◌^◌, ◌≤◌, ◌<◌, min, max}
use Prim.Native.Nat.{bit_and, bit_or, digits, bit_and-bitwise, bit_or-bitwise}
use mathlib.Core.Path.{◌≡◌, refl, ap}
use native.Mathlib.Nat.{pow-suc, one-le-pow, div-add-mod}
use native.Mathlib.Omega.{arith}

-- Any two counts that cover the digits of `a` give the same number.
module _ (z : ℕ → ℕ) (f : ℕ → ℕ → ℕ) where
  count_free : (n m a b : ℕ) → a ≤ n → a ≤ m → digits z f n a b ≡ digits z f m a b
  count_free zero zero a b p q = refl
  count_free zero (suc m) zero b p q = refl
  count_free zero (suc m) (suc a) b p q = absurd (omega arith)
  count_free (suc n) zero zero b p q = refl
  count_free (suc n) zero (suc a) b p q = absurd (omega arith)
  count_free (suc n) (suc m) zero b p q = refl
  count_free (suc n) (suc m) (suc a) b p q =
      omega (arith, count_free n m (suc a / 2) (b / 2) (omega arith) (omega arith))

or_digit : (a b : ℕ) → bit_or a b ≡ bit_or (a / 2) (b / 2) * 2 + max (a % 2) (b % 2)
or_digit zero b = omega (arith, bit_or-bitwise 0 b, bit_or-bitwise 0 (b / 2))
or_digit (suc a) b = omega (
  arith,
  bit_or-bitwise (suc a) b,
  bit_or-bitwise (suc a / 2) (b / 2),
  count_free (λ y. y) max a (suc a / 2) (suc a / 2) (b / 2) (omega arith) (omega arith),
)

and_digit : (a b : ℕ) → bit_and a b ≡ bit_and (a / 2) (b / 2) * 2 + min (a % 2) (b % 2)
and_digit zero b = omega (arith, bit_and-bitwise 0 b, bit_and-bitwise 0 (b / 2))
and_digit (suc a) b = omega (
  arith,
  bit_and-bitwise (suc a) b,
  bit_and-bitwise (suc a / 2) (b / 2),
  count_free (λ y. zero) min a (suc a / 2) (suc a / 2) (b / 2) (omega arith) (omega arith),
)

or_zero_below : (n a : ℕ) → a ≤ n → bit_or a 0 ≡ a
or_zero_below n zero h = refl
or_zero_below zero (suc a) h = absurd (omega arith)
or_zero_below (suc n) (suc a) h =
    omega (arith, or_digit (suc a) 0, or_zero_below n (suc a / 2) (omega arith))

and_zero_below : (n a : ℕ) → a ≤ n → bit_and a 0 ≡ 0
and_zero_below n zero h = refl
and_zero_below zero (suc a) h = absurd (omega arith)
and_zero_below (suc n) (suc a) h =
    omega (arith, and_digit (suc a) 0, and_zero_below n (suc a / 2) (omega arith))

pub bit_or-zero : (a : ℕ) → bit_or a 0 ≡ a
bit_or-zero a = or_zero_below a a (omega arith)

pub zero-bit_or : (a : ℕ) → bit_or 0 a ≡ a
zero-bit_or a = bit_or-bitwise 0 a

pub bit_and-zero : (a : ℕ) → bit_and a 0 ≡ 0
bit_and-zero a = and_zero_below a a (omega arith)

double_pow : (q k : ℕ) → q * 2 ^ suc k ≡ 2 * (q * 2 ^ k)
double_pow q k = omega (arith, ap (λ (t : ℕ). q * t) (pow-suc 2 k))

-- A field shifted above `k` bits, joined with one of `k` bits, is their sum.
pub bit_or-add : (k q r : ℕ) → r < 2 ^ k → bit_or (q * 2 ^ k) r ≡ q * 2 ^ k + r
bit_or-add zero q r h = ground (arith, bit_or-zero q)
bit_or-add (suc k) q r h =
    ground (arith, or_digit (q * 2 ^ suc k) r, double_pow q k, bit_or-add k q (r / 2) (omega arith))

-- The same, where the upper field is known by its remainder.
pub bit_or_disjoint : (k a b : ℕ) → a % 2 ^ k ≡ 0 → b < 2 ^ k → bit_or a b ≡ a + b
bit_or_disjoint k a b ha hb = ground (arith, div-add-mod a (2 ^ k), bit_or-add k (a / 2 ^ k) b)

and_low : (k q r : ℕ) → r < 2 ^ k → bit_and (q * 2 ^ k + r) (2 ^ k - 1) ≡ r
and_low zero q r h = ground (arith, bit_and-zero (q * 1 + r))
and_low (suc k) q r h = ground (
  arith,
  and_digit (q * 2 ^ suc k + r) (2 ^ suc k - 1),
  double_pow q k,
  pow-suc 2 k,
  one-le-pow k 2,
  and_low k q (r / 2) (omega arith),
)

-- `a & mask`, for a mask of `k` ones, is the remainder by `2 ^ k`.
pub bit_and-mask : (k a : ℕ) → bit_and a (2 ^ k - 1) ≡ a % 2 ^ k
bit_and-mask k a =
    ground (arith, one-le-pow k 2, div-add-mod a (2 ^ k), and_low k (a / 2 ^ k) (a % 2 ^ k))

-- A field of `k` bits, joined with one shifted above it.
pub add-bit_or : (k q r : ℕ) → r < 2 ^ k → bit_or r (q * 2 ^ k) ≡ r + q * 2 ^ k
add-bit_or zero q r h = ground (arith, zero-bit_or q)
add-bit_or (suc k) q r h =
    ground (arith, or_digit r (q * 2 ^ suc k), double_pow q k, add-bit_or k q (r / 2) (omega arith))

-- `a & (1 << k)` keeps bit `k` of a number of `k + 1` bits.
pub bit_and-bit : (k b r : ℕ) → b < 2 → r < 2 ^ k → bit_and (b * 2 ^ k + r) (2 ^ k) ≡ b * 2 ^ k
bit_and-bit zero b r hb h = ground (arith, and_digit (b * 1 + r) 1, bit_and-zero ((b * 1 + r) / 2))
bit_and-bit (suc k) b r hb h = ground (
  arith,
  and_digit (b * 2 ^ suc k + r) (2 ^ suc k),
  double_pow b k,
  pow-suc 2 k,
  bit_and-bit k b (r / 2) hb (omega arith),
)

-- A mask of bits from `k` on drops what stands below.
pub bit_and-high :
    (k q m r : ℕ) → r < 2 ^ k → bit_and (q * 2 ^ k + r) (m * 2 ^ k) ≡ bit_and q m * 2 ^ k
bit_and-high zero q m r h = ground (arith)
bit_and-high (suc k) q m r h = ground (
  arith,
  and_digit (q * 2 ^ suc k + r) (m * 2 ^ suc k),
  double_pow q k,
  double_pow m k,
  double_pow (bit_and q m) k,
  bit_and-high k q m (r / 2) (omega arith),
)
