-- ===== src/CommandLine/Arguments.antt =====
-- Which arguments of the command line count.
use Prim.Native.String.{String}
use dinorisc.Prelude.{
  ℕ, ◌+◌, ◌<◌, ◌≤◌, ◌≡◌, refl, ap, arith, true, false, Option, none, some, List, [], ◌∷◌, ◌++◌, ltb,
  length,
}
use dinorisc.Elf.{Image}
use dinorisc.Translator.Blocks.{Host}
use dinorisc.CommandLine.{exits, invalid_argument, rejected, parse_arguments, run_parsed, main}

-- `std::stoull` reads a number from every argument of the list; it reads 12 from `12abc`.
abbrev pub AreRead : (String → Option ℕ) → List String → Type 0
AreRead stoull [] = Unit
AreRead stoull (arg ∷ rest) = ((n : ℕ) × (stoull arg ≡ some n)) × AreRead stoull rest

length-append_one : (ns : List ℕ) (n : ℕ) → length (ns ++ n ∷ []) ≡ length ns + 1
length-append_one [] n = omega arith
length-append_one (k ∷ ns) n = omega (arith, length-append_one ns n)

below : (a b : ℕ) → a < b → ltb a b ≡ true
below a b h = ground arith

not_below : (a b : ℕ) → b ≤ a → ltb a b ≡ false
not_below a b h = ground arith

module _ (stoull : String → Option ℕ) (file : String → Option Image) (host : Host)
    (shadow : Option ℕ) where
  parse-rejected :
      (good : List String) (bad : String) (rest : List String) (ns : List ℕ)
      → AreRead stoull good
      → stoull bad ≡ none
      → length ns + length good < 8
      → parse_arguments stoull file host shadow (good ++ bad ∷ rest) ns ≡ rejected bad
  unfolding parse_arguments
  parse-rejected [] bad rest ns g b h = rw (below (length ns) 8 (omega (arith, h)), b) refl
  parse-rejected (arg ∷ good) bad rest ns ((n, e), g) b h =
      rw (below (length ns) 8 (omega (arith, h)), e)
        (parse-rejected good bad rest (ns ++ n ∷ []) g b (omega (arith, length-append_one ns n, h)))

  -- When `std::stoull` throws on one of the first eight arguments of the function, the program names the
  -- first such one and exits with 1, whatever the file, the host and the arguments behind it are.
  pub main-rejected :
      (program path name : String) (good : List String) (bad : String) (rest : List String)
      → AreRead stoull good
      → stoull bad ≡ none
      → length good < 8
      → main stoull file host shadow (program ∷ path ∷ name ∷ good ++ bad ∷ rest)
        ≡ exits 1 (invalid_argument bad)
  unfolding main run_parsed
  main-rejected program path name good bad rest g b h =
      rw (parse-rejected good bad rest [] g b (omega (arith, h))) refl

  parse-extra :
      (good extra : List String) (ns : List ℕ)
      → AreRead stoull good
      → length ns + length good ≡ 8
      → parse_arguments stoull file host shadow (good ++ extra) ns
        ≡ parse_arguments stoull file host shadow good ns
  unfolding parse_arguments
  parse-extra [] [] ns g h = refl
  parse-extra [] (arg ∷ extra) ns g h = rw (not_below (length ns) 8 (omega (arith, h))) refl
  parse-extra (arg ∷ good) extra ns ((n, e), g) h =
      rw (below (length ns) 8 (omega (arith, h)), e)
        (parse-extra good extra (ns ++ n ∷ []) g (omega (arith, length-append_one ns n, h)))

  -- Behind eight arguments that `std::stoull` reads, further ones make no difference, whatever they are.
  pub main-extra :
      (program path name : String) (good extra : List String)
      → AreRead stoull good
      → length good ≡ 8
      → main stoull file host shadow (program ∷ path ∷ name ∷ good ++ extra)
        ≡ main stoull file host shadow (program ∷ path ∷ name ∷ good)
  unfolding main
  main-extra program path name good extra g h =
      ap (run_parsed stoull file host shadow path name)
        (parse-extra good extra [] g (omega (arith, h)))
