-- ===== src/CommandLine/Tests.antt =====
-- Command lines with too few arguments, with a bad one, and with more than eight.
use Prim.Native.String.{String}
use text.Mathlib.Text.{◌==◌}
use dinorisc.Prelude.{ℕ, ◌≡◌, refl, arith, Option, none, some, [], ◌∷◌, if◌then◌else◌}
use dinorisc.Elf.{Image}
use dinorisc.Translator.Tests.{plain_host, ret_image}
use dinorisc.CommandLine.{exits, usage, invalid_argument, main}
use dinorisc.CommandLine.Arguments.{main-rejected, main-extra}

-- A reader of numbers that knows two of them.
abbrev small_stoull : String → Option ℕ
small_stoull text = if text == "7" then some 7 else (if text == "12" then some 12 else none)

abbrev one_file : String → Option Image
one_file path = if path == "a.out" then some ret_image else none

too_few :
    main small_stoull one_file plain_host (some 0x10000) ("dinorisc" ∷ "a.out" ∷ []) ≡ exits 1 usage
unfolding main
too_few = refl

main-rejected_example :
    main small_stoull one_file plain_host
      (some 0x10000)
      ("dinorisc" ∷ "a.out" ∷ "main" ∷ "7" ∷ "12" ∷ "seven" ∷ "7" ∷ [])
    ≡ exits 1 (invalid_argument "seven")
main-rejected_example =
    main-rejected small_stoull one_file plain_host (some 0x10000) "dinorisc" "a.out" "main"
      ("7" ∷ "12" ∷ []) "seven" ("7" ∷ []) ((7, refl), ((12, refl), tt)) refl (omega arith)

main-extra_example :
    main small_stoull one_file plain_host (some 0x10000) (
      "dinorisc" ∷ "a.out" ∷ "main" ∷ "7" ∷ "7" ∷ "7" ∷ "7" ∷ "12" ∷ "12" ∷ "12" ∷ "12" ∷ "nine"
      ∷ [])
    ≡ main small_stoull one_file plain_host
        (some 0x10000)
        ("dinorisc" ∷ "a.out" ∷ "main" ∷ "7" ∷ "7" ∷ "7" ∷ "7" ∷ "12" ∷ "12" ∷ "12" ∷ "12" ∷ [])
main-extra_example =
    main-extra small_stoull one_file plain_host (some 0x10000) "dinorisc" "a.out" "main"
      ("7" ∷ "7" ∷ "7" ∷ "7" ∷ "12" ∷ "12" ∷ "12" ∷ "12" ∷ []) ("nine" ∷ [])
      (
        (7, refl),
        (
          (7, refl),
          ((7, refl), ((7, refl), ((12, refl), ((12, refl), ((12, refl), ((12, refl), tt)))))),
        ),
      )
      refl
