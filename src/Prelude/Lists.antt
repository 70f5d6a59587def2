-- ===== src/Prelude/Lists.antt =====
-- Lists measured and indexed by native numbers, association lists, and predicates on all elements.
use Prim.Native.Nat.{ℕ, zero, suc, ◌+◌}
use mathlib.Core.Path.{◌≡◌, refl}
use mathlib.Core.Bool.{Bool, false, ◌||◌}
use mathlib.Core.List.{List, [], ◌∷◌, ◌++◌}
use mathlib.Core.Option.{Option, none, some}
use native.Mathlib.Omega.{arith}
use dinorisc.Prelude.Tests.{◌==◌, if◌then◌else◌}

module _ {ℓ} {A : Type ℓ} where
  abbrev pub length : List A → ℕ
  length [] = 0
  length (x ∷ xs) = suc (length xs)

  abbrev pub get_elem? : List A → ℕ → Option A
  get_elem? [] i = none
  get_elem? (x ∷ xs) zero = some x
  get_elem? (x ∷ xs) (suc i) = get_elem? xs i

  pub length-append : (xs ys : List A) → length (xs ++ ys) ≡ length xs + length ys
  length-append [] ys = omega arith
  length-append (x ∷ xs) ys = omega (arith, length-append xs ys)

  abbrev pub All {κ} : (A → Type κ) → List A → Type κ
  All P [] = Unit {κ}
  All P (x ∷ xs) = P x × All P xs

  pub All-append {κ} :
      (P : A → Type κ) (front back : List A) (hf : All P front) (hb : All P back)
      → All P (front ++ back)
  All-append P (x ∷ front) back hf hb = (hf.0, All-append P front back hf.1 hb)
  All-append P [] back hf hb = hb

  pub All-map {κ μ} :
      {P : A → Type κ} {Q : A → Type μ} (xs : List A) → ((x : A) → P x → Q x) → All P xs → All Q xs
  All-map [] f h = tt
  All-map (x ∷ xs) f h = (f x h.0, All-map xs f h.1)

-- `std::unordered_map` with keys that are numbers, as an association list.
module _ {ℓ} {V : Type ℓ} where
  unfoldable pub lookup : ℕ → List (ℕ × V) → Option V
  lookup key ((first, value) ∷ rest) = if first == key then some value else lookup key rest
  lookup key [] = none

  unfoldable pub insert : ℕ → V → List (ℕ × V) → List (ℕ × V)
  insert key new ((first, old) ∷ rest) =
      if first == key then (key, new) ∷ rest else (first, old) ∷ insert key new rest
  insert key new [] = (key, new) ∷ []

  pub lookup-insert :
      (key asked : ℕ) (new : V) (entries : List (ℕ × V))
      → lookup asked (insert key new entries)
        ≡ (if key == asked then some new else lookup asked entries)
  unfolding lookup insert
  lookup-insert key asked new ((first, old) ∷ rest) =
      ground (arith, lookup-insert key asked new rest)
  lookup-insert key asked new [] = refl

-- `std::unordered_set` of numbers, as a list without repetitions.
unfoldable pub contains : ℕ → List ℕ → Bool
contains k [] = false
contains k (j ∷ s) = j == k || contains k s

unfoldable pub add_member : ℕ → List ℕ → List ℕ
add_member k [] = k ∷ []
add_member k (j ∷ s) = if j == k then j ∷ s else j ∷ add_member k s

pub contains-add_member :
    (k j : ℕ) (s : List ℕ) → contains j (add_member k s) ≡ (k == j || contains j s)
unfolding contains add_member
contains-add_member k j [] = refl
contains-add_member k j (i ∷ s) = ground (arith, contains-add_member k j s)
