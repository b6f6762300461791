-- ===== src/Shell/Command.antt =====
-- C strings, and the commands of project1/command-internals.h.
use cs111_operating_system.Prelude.{
  ℕ, Bool, true, false, ◌&&◌, Option, List, [], ◌∷◌, ◌==◌, ◌≡◌, refl, arith,
}

-- The characters of a string, up to its null character.
abbrev pub Str : Type 0
Str = List ℕ

-- `!strcmp(a, b)`
unfoldable pub str_eq : Str → Str → Bool
str_eq [] [] = true
str_eq [] (y ∷ ys) = false
str_eq (x ∷ xs) [] = false
str_eq (x ∷ xs) (y ∷ ys) = x == y && str_eq xs ys

-- The types of the commands that have two commands in `u`.
pub data Compound : Type 0 where
  and_command : Compound
  sequence_command : Compound
  or_command : Compound
  pipe_command : Compound

-- The fields that every command has. A status of -1 is the pattern of its word.
pub record Fields : Type 0 where
  pub line : ℕ
  pub status : ℕ
  pub input : Option Str
  pub output : Option Str

-- `struct command`: the type and the member of `u` that it says is in use.
pub data Command : Type 0 where
  compound_command : (op : Compound) (fields : Fields) (left right : Command) → Command
  simple_command : (fields : Fields) (word : List Str) → Command
  subshell_command : (fields : Fields) (inner : Command) → Command

abbrev pub fields : Command → Fields
fields (compound_command op f c d) = f
fields (simple_command f ws) = f
fields (subshell_command f c) = f

pub str_eq_refl : (a : Str) → str_eq a a ≡ true
unfolding str_eq
str_eq_refl [] = refl
str_eq_refl (x ∷ xs) = ground (arith, str_eq_refl xs)

pub str_eq-eq : (a b : Str) → str_eq a b ≡ true → a ≡ b
unfolding str_eq
str_eq-eq [] [] e = refl
str_eq-eq [] (y ∷ ys) e = absurd (ground arith)
str_eq-eq (x ∷ xs) [] e = absurd (ground arith)
str_eq-eq (x ∷ xs) (y ∷ ys) e = ground (arith, str_eq-eq xs ys)
