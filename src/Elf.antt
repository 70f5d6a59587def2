-- ===== src/Elf.antt =====
-- lib/ELFReader.cpp: the checks on the file, its .text section and the lookup of a function.
-- The file format is ELFIO's business: an image is what ELFIO reports of a file that it could load.
use dinorisc.Prelude.{
  ℕ, ◌||◌, not, Option, none, some, List, [], ◌∷◌, ◌==◌, if◌then◌else◌, bit_and, Result, ok, err,
  elf_error,
}
use Prim.Native.String.{String}
use text.Mathlib.Text.{◌==◌ as str_eq}

pub record Symbol : Type 0 where
  pub name : String
  pub value : ℕ

-- `contents` is `none` where ELFIO has no data, and an entry of `symbols` is `none` where it cannot
-- read the symbol.
pub record Section : Type 0 where
  pub name : String
  pub section_type : ℕ
  pub flags : ℕ
  pub address : ℕ
  pub contents : Option (List ℕ)
  pub symbols : List (Option Symbol)

pub record Image : Type 0 where
  pub elf_class : ℕ
  pub machine : ℕ
  pub elf_type : ℕ
  pub entry : ℕ
  pub sections : List Section

-- The constants of the ELF format.
abbrev pub elfclass64 : ℕ
elfclass64 = 2

abbrev pub em_riscv : ℕ
em_riscv = 243

abbrev pub et_exec : ℕ
et_exec = 2

abbrev pub shf_execinstr : ℕ
shf_execinstr = 4

abbrev pub sht_symtab : ℕ
sht_symtab = 2

abbrev pub sht_dynsym : ℕ
sht_dynsym = 11

pub record TextSection : Type 0 where
  pub virtual_address : ℕ
  pub contents : List ℕ

pub record ElfReader : Type 0 where
  pub image : Image
  pub entry_point : ℕ
  pub text_section : TextSection

unfoldable pub find_text : List Section → Option Section
find_text [] = none
find_text (sec ∷ rest) = if str_eq sec.name ".text" then some sec else find_text rest

with_contents : Image → Section → Option (List ℕ) → Result ElfReader
with_contents image sec none = err elf_error
with_contents image sec (some contents) = ok (record {
  image = image;
  entry_point = image.entry;
  text_section = record { virtual_address = sec.address; contents = contents };
})

with_text : Image → Option Section → Result ElfReader
unfolding with_contents
with_text image none = err elf_error
with_text image (some sec) =
    if bit_and sec.flags shf_execinstr == 0
    then err elf_error
    else with_contents image sec sec.contents

-- `none` stands for a file that ELFIO could not load.
unfoldable pub load_file : Option Image → Result ElfReader
unfolding find_text with_text
load_file none = err elf_error
load_file (some image) =
    if not (image.elf_class == elfclass64)
    then err elf_error
    else if not (image.machine == em_riscv)
    then err elf_error
    else if not (image.elf_type == et_exec)
    then err elf_error
    else with_text image (find_text image.sections)

unfoldable pub find_symbol : String → List (Option Symbol) → Option ℕ
find_symbol function_name [] = none
find_symbol function_name (none ∷ rest) = find_symbol function_name rest
find_symbol function_name (some symbol ∷ rest) =
    if str_eq symbol.name function_name then some symbol.value else find_symbol function_name rest

abbrev pub or_else : Option ℕ → Option ℕ → Option ℕ
or_else (some value) other = some value
or_else none other = other

unfoldable pub find_function : String → List Section → Option ℕ
unfolding find_symbol
find_function function_name [] = none
find_function function_name (sec ∷ rest) =
    let later = find_function function_name rest in
    if sec.section_type == sht_symtab || sec.section_type == sht_dynsym
    then or_else (find_symbol function_name sec.symbols) later
    else later

unfoldable pub get_function_address : ElfReader → String → Option ℕ
unfolding find_function
get_function_address reader function_name = find_function function_name reader.image.sections
