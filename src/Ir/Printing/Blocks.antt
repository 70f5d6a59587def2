-- ===== src/Ir/Printing/Blocks.antt =====
-- What is printed of a block can be read off its text.
use mathlib.Core.List.{head-eq_of_cons-eq, tail-eq_of_cons-eq}
use dinorisc.Prelude.{
  ℕ, ◌≡◌, ◌≢◌, refl, sym, ap, ◌∙◌, arith, true, false, Option, none, some, List, [], ◌∷◌, ◌++◌,
  append_assoc, ◌==◌,
}
use dinorisc.Prelude.Text.{Text, codes, decimal}
use dinorisc.Prelude.Text.Reading.{decimal-injective}
use dinorisc.Prelude.Text.Separators.{Avoids, split_at, decimal-Avoids, cancel}
use dinorisc.Ir.Syntax.{
  ValueId, InstructionKind, store, reg_write, Instruction, Terminator, branch, cond_branch, return,
  BasicBlock,
}
use dinorisc.Ir.Printing.{
  value_text, produces_value, kind_text, instruction_to_string, terminator_to_string, line,
  instruction_lines, block_to_string,
}
use dinorisc.Ir.Printing.Lines.{instruction_to_string-Avoids, terminator_to_string-Avoids}
use dinorisc.Ir.Printing.Unambiguous.{
  plain, not_plain, plain-kind_text, IsConstantWord, kind_text-injective,
}

-- The value that an instruction produces: stores and register writes have none.
pub produced : ValueId → InstructionKind → Option ValueId
produced value_id (store value address) = none
produced value_id (reg_write reg_number value) = none
produced value_id _ = some value_id

-- An instruction as far as its text shows it.
pub record Shown : Type 0 where
  value : Option ValueId
  kind : InstructionKind

abbrev pub shown : Instruction → Shown
shown inst = record { value = produced inst.value_id inst.kind; kind = inst.kind }

abbrev pub shown_instructions : List Instruction → List Shown
shown_instructions [] = []
shown_instructions (inst ∷ rest) = shown inst ∷ shown_instructions rest

prefix : Option ValueId → Text
prefix none = []
prefix (some value_id) = value_text value_id ++ codes " = "

prefix-produced :
    (v : ℕ) (kind : InstructionKind) → produces_value v kind ≡ prefix (produced v kind)
unfolding produces_value prefix produced
prefix-produced v (store a b) = refl
prefix-produced v (reg_write a b) = refl
prefix-produced v _ = refl

no_value : (s t : Text) → plain s ≡ true → s ≢ 37 ∷ t
no_value s t p e = cc (p, ap plain e, not_plain t)

prefix-injective :
    (a b : Option ValueId) (s t : Text)
    → plain s ≡ true
    → plain t ≡ true
    → prefix a ++ s ≡ prefix b ++ t
    → (a ≡ b) × (s ≡ t)
unfolding prefix
prefix-injective none none s t p q e = (refl, e)
prefix-injective none (some v) s t p q e = absurd (no_value s _ p e)
prefix-injective (some v) none s t p q e = absurd (no_value t _ q (sym e))
prefix-injective (some v) (some w) s t p q e =
    let (f, g) =
      split_at 32 (decimal v) (decimal w) (codes " = " ++ s) (codes " = " ++ t)
        (decimal-Avoids 32 v (omega arith)) (decimal-Avoids 32 w (omega arith)) refl refl
        (sym (append_assoc (decimal v) (codes " = ") s)
          ∙ cancel (codes "%") e
          ∙ append_assoc (decimal w) (codes " = ") t) in
    (ap some (decimal-injective f), cancel (codes " = ") g)

instruction_to_string-injective :
    (a b : Instruction)
    → IsConstantWord a.kind
    → IsConstantWord b.kind
    → instruction_to_string a ≡ instruction_to_string b
    → shown a ≡ shown b
unfolding instruction_to_string
instruction_to_string-injective a b h k e =
    let (v, f) =
      prefix-injective (produced a.value_id a.kind) (produced b.value_id b.kind) (kind_text a.kind)
        (kind_text b.kind) (plain-kind_text a.kind) (plain-kind_text b.kind)
        (rw (prefix-produced a.value_id a.kind, prefix-produced b.value_id b.kind) at e) in
    let same = kind_text-injective a.kind b.kind h k f in λ i. record { value = v i; kind = same i }

apart : (c d : ℕ) (s t : Text) → (c == d) ≡ false → c ∷ s ≢ d ∷ t
apart c d s t n e = let f = head-eq_of_cons-eq e in ground arith

terminator_to_string-injective :
    (a b : Terminator) → terminator_to_string a ≡ terminator_to_string b → a ≡ b
unfolding terminator_to_string
terminator_to_string-injective (branch x) (branch y) e =
    ap branch (decimal-injective (cancel (codes "br bb") e))
terminator_to_string-injective (cond_branch c x y) (cond_branch d v w) e =
    let (f, g) =
      split_at 44 (decimal c) (decimal d)
        (codes ", bb" ++ (decimal x ++ (codes ", bb" ++ decimal y)))
        (codes ", bb" ++ (decimal v ++ (codes ", bb" ++ decimal w)))
        (decimal-Avoids 44 c (omega arith)) (decimal-Avoids 44 d (omega arith)) refl refl
        (cancel (codes "condbr %") e) in
    let (l, r) =
      split_at 44 (decimal x) (decimal v) (codes ", bb" ++ decimal y) (codes ", bb" ++ decimal w)
        (decimal-Avoids 44 x (omega arith)) (decimal-Avoids 44 v (omega arith)) refl refl
        (cancel (codes ", bb") g) in
    cc (decimal-injective f, decimal-injective l, decimal-injective (cancel (codes ", bb") r))
terminator_to_string-injective (return (some v)) (return (some w)) e =
    cc (decimal-injective (cancel (codes "ret %") e))
terminator_to_string-injective (return none) (return none) e = refl
terminator_to_string-injective (branch x) (cond_branch d v w) e = absurd (apart 98 99 _ _ refl e)
terminator_to_string-injective (branch x) (return (some w)) e = absurd (apart 98 114 _ _ refl e)
terminator_to_string-injective (branch x) (return none) e = absurd (apart 98 114 _ _ refl e)
terminator_to_string-injective (cond_branch c x y) (branch v) e = absurd (apart 99 98 _ _ refl e)
terminator_to_string-injective (cond_branch c x y) (return (some w)) e =
    absurd (apart 99 114 _ _ refl e)
terminator_to_string-injective (cond_branch c x y) (return none) e =
    absurd (apart 99 114 _ _ refl e)
terminator_to_string-injective (return (some v)) (branch y) e = absurd (apart 114 98 _ _ refl e)
terminator_to_string-injective (return (some v)) (cond_branch c x y) e =
    absurd (apart 114 99 _ _ refl e)
terminator_to_string-injective (return (some v)) (return none) e = cc (cancel (codes "ret") e)
terminator_to_string-injective (return none) (branch y) e = absurd (apart 114 98 _ _ refl e)
terminator_to_string-injective (return none) (cond_branch c x y) e =
    absurd (apart 114 99 _ _ refl e)
terminator_to_string-injective (return none) (return (some v)) e = cc (cancel (codes "ret") e)

-- The constants of a block have up to 64 bits.
abbrev pub AreConstantWords : List Instruction → Type 0
AreConstantWords [] = Unit
AreConstantWords (inst ∷ rest) = IsConstantWord inst.kind × AreConstantWords rest

line-append : (s t u : Text) → (line s ++ t) ++ u ≡ codes "  " ++ (s ++ 10 ∷ (t ++ u))
line-append s t u =
    ap (λ r. codes "  " ++ r) (append_assoc (s ++ 10 ∷ []) t u ∙ append_assoc s (10 ∷ []) (t ++ u))

-- The lines behind the title.
body : List Instruction → Terminator → Text
unfolding instruction_lines terminator_to_string
body insts terminator = instruction_lines insts ++ line (terminator_to_string terminator)

body-cons :
    (inst : Instruction) (rest : List Instruction) (terminator : Terminator)
    → body (inst ∷ rest) terminator
      ≡ codes "  " ++ (instruction_to_string inst ++ 10 ∷ body rest terminator)
unfolding body instruction_lines
body-cons inst rest terminator =
    line-append (instruction_to_string inst) (instruction_lines rest)
      (line (terminator_to_string terminator))

body-≢[] : (insts : List Instruction) (terminator : Terminator) → [] ≢ body insts terminator
unfolding body instruction_lines
body-≢[] [] terminator e = cc
body-≢[] (inst ∷ rest) terminator e = cc

-- Two lines can be told apart, and the rest from them.
same_line :
    (s t r u : Text)
    → Avoids 10 s
    → Avoids 10 t
    → codes "  " ++ (s ++ 10 ∷ r) ≡ codes "  " ++ (t ++ 10 ∷ u)
    → (s ≡ t) × (r ≡ u)
same_line s t r u a b e =
    let (f, g) = split_at 10 s t (10 ∷ r) (10 ∷ u) a b refl refl (cancel (codes "  ") e) in
    (f, tail-eq_of_cons-eq g)

body-injective :
    (a b : List Instruction) (x y : Terminator)
    → AreConstantWords a
    → AreConstantWords b
    → body a x ≡ body b y
    → (shown_instructions a ≡ shown_instructions b) × (x ≡ y)
unfolding body instruction_lines
body-injective [] [] x y h k e =
    let (f, g) =
      same_line (terminator_to_string x) (terminator_to_string y) [] []
        (terminator_to_string-Avoids x) (terminator_to_string-Avoids y) e in
    (refl, terminator_to_string-injective x y f)
body-injective [] (q ∷ b) x y h k e =
    let (f, g) =
      same_line (terminator_to_string x) (instruction_to_string q) [] (body b y)
        (terminator_to_string-Avoids x) (instruction_to_string-Avoids q) (e ∙ body-cons q b y) in
    absurd (body-≢[] b y g)
body-injective (p ∷ a) [] x y h k e =
    let (f, g) =
      same_line (instruction_to_string p) (terminator_to_string y) (body a x) []
        (instruction_to_string-Avoids p) (terminator_to_string-Avoids y)
        (sym (body-cons p a x) ∙ e) in
    absurd (body-≢[] a x (sym g))
body-injective (p ∷ a) (q ∷ b) x y (h, hs) (k, ks) e =
    let (f, g) =
      same_line (instruction_to_string p) (instruction_to_string q) (body a x) (body b y)
        (instruction_to_string-Avoids p) (instruction_to_string-Avoids q)
        (sym (body-cons p a x) ∙ e ∙ body-cons q b y) in
    let (rest, last) = body-injective a b x y hs ks g in
    (cc (instruction_to_string-injective p q h k f, rest), last)

-- Two blocks with the same text have the same terminator, and instruction by instruction the same
-- kinds with the same operands and the same produced value, as far as one is printed: a store and
-- a register write print none. The constants in the blocks are those of up to 64 bits.
pub block_to_string-injective :
    (a b : BasicBlock)
    → AreConstantWords a.instructions
    → AreConstantWords b.instructions
    → block_to_string a ≡ block_to_string b
    → (shown_instructions a.instructions ≡ shown_instructions b.instructions)
      × (a.terminator ≡ b.terminator)
unfolding block_to_string body
block_to_string-injective a b h k e =
    body-injective a.instructions b.instructions a.terminator b.terminator h k
      (tail-eq_of_cons-eq (cancel (codes "BasicBlock:") e))
