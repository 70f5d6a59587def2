-- ===== src/Prelude/Text/Names.antt =====
-- Names that tell the members of an enumeration apart.
use mathlib.Core.Path.{◌≡◌, sym, ap, ◌∙◌}
use mathlib.Core.Bool.{Bool, true, false, ◌&&◌}
use mathlib.Core.List.{List, [], ◌∷◌}
use mathlib.Core.Option.{Option, none, some}
use dinorisc.Prelude.Tests.{◌==◌, if◌then◌else◌, of_some}
use dinorisc.Prelude.Text.{Text}

unfoldable pub same_text : Text → Text → Bool
same_text [] [] = true
same_text [] (y ∷ t) = false
same_text (x ∷ s) [] = false
same_text (x ∷ s) (y ∷ t) = x == y && same_text s t

module _ {A : Type 0} (print : A → Text) where
  -- The first member with the name.
  unfoldable pub named : Text → List A → Option A
  unfolding same_text
  named name [] = none
  named name (a ∷ rest) = if same_text (print a) name then some a else named name rest

  pub named-injective :
      (all : List A)
      → ((a : A) → named (print a) all ≡ some a)
      → (a b : A) → print a ≡ print b
      → a ≡ b
  named-injective all found a b e = of_some (sym (found a) ∙ ap (λ t. named t all) e ∙ found b)
