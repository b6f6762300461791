-- ===== src/Shell/Read/Stream.antt =====
-- `validate_all`, `make_commands` and `read_command_stream` of project1/read-command.c. The texts that
-- `makeSeparation` makes of a script, each with its line, are a list here.
use cs111_operating_system.Prelude.{
  ℕ, ◌+◌, ◌*◌, ◌<◌, leb, length, if◌then◌else◌, ◌≡◌, List, [], ◌∷◌, Option, none, some,
}
use cs111_operating_system.Shell.Command.{Str, Command, Compound}
use cs111_operating_system.Shell.Parse.{set_fields}
use cs111_operating_system.Shell.Parse.Tree.{items_of, leaf, in_order, command_of, IsGrouped}
use cs111_operating_system.Shell.Read.{tokenize, on_tokens}
use cs111_operating_system.Shell.Read.Commands.{read_command}
use cs111_operating_system.Shell.Read.Words.{Ends}
use cs111_operating_system.Shell.Read.Print.{Word, word_text, print_script}
use cs111_operating_system.Shell.Read.Script.{AllEnd, as_operators, operand, operands}
use cs111_operating_system.Shell.Read.Validate.{
  Verdict, valid, syntax_error, too_deep, overrun, and_then, validate,
}
use cs111_operating_system.Shell.Read.Accepts.{Allowed, AllAllowed}

pub record Separation : Type 0 where
  pub m_cmd : Str
  pub m_line : ℕ

unfoldable pub validate_all : (depth : ℕ) → List Separation → Verdict
validate_all depth [] = valid
validate_all depth (s ∷ ss) =
    and_then (on_tokens overrun (validate depth) (tokenize s.m_cmd s.m_line))
      (validate_all depth ss)

-- The commands of valid texts, one after another.
unfoldable pub read_all : (depth : ℕ) → List Separation → Option (List Command)
read_all depth [] = some []
read_all depth (s ∷ ss) = elim (on_tokens none (read_command depth) (tokenize s.m_cmd s.m_line)) [
  | none ↦ none
  | some c ↦ elim (read_all depth ss) [
    | none ↦ none
    | some cs ↦ some (set_fields (λ f. record f { line = s.m_line }) c ∷ cs)
  ]
]

-- The commands, what `validate_all` found, or an end of the program at an empty stack.
pub data Made : Type 0 where
  commands : List Command → Made
  refused : Verdict → Made
  ended : Made

-- `MAXLINE`.
abbrev pub max_line : ℕ
max_line = 100

-- The array of texts has `MAXLINE` places, with a mark behind the last text; no index is tested.
unfoldable pub make_commands : (depth : ℕ) → List Separation → Made
make_commands depth ss =
    if leb max_line (length ss) then refused overrun else elim (validate_all depth ss) [
      | syntax_error n ↦ refused (syntax_error n)
      | too_deep ↦ refused too_deep
      | overrun ↦ refused overrun
      | valid ↦ elim (read_all depth ss) [ none ↦ ended | some cs ↦ commands cs ]
    ]

-- The next command and what is behind it; NULL at the end.
unfoldable pub read_command_stream : (cursor : List Command) → Option Command × List Command
read_command_stream [] = (none, [])
read_command_stream (c ∷ cs) = (some c, cs)

-- A text of the script: a line of simple commands with operators between them, with no more of them than
-- fit the array of tokens.
pub record Line : Type 0 where
  pub number : ℕ
  pub word : Word
  pub behind : List (Compound × Word)
  pub word_Ends : Ends (word_text word)
  pub behind_AllEnd : AllEnd behind
  pub word_Allowed : Allowed (word_text word)
  pub behind_AllAllowed : AllAllowed behind
  pub few : 2 * length behind + 1 < 128

pub printed : Line → Separation
printed l = record { m_cmd = print_script l.word (as_operators l.behind); m_line = l.number }

unfoldable pub all_printed : List Line → List Separation
all_printed [] = []
all_printed (l ∷ ls) = printed l ∷ all_printed ls

-- The command of a line, with the line's number.
pub record IsCommandOf (l : Line) (c : Command) : Type 0 where
  pub tree : Command
  pub numbered : c ≡ set_fields (λ f. record f { line = l.number }) tree
  pub grouped : IsGrouped tree
  pub items :
      in_order tree
      ≡ leaf (command_of l.number (operand l.number l.word))
        ∷ items_of l.number (operands l.number l.behind)

unfoldable pub AreCommandsOf : List Line → List Command → Type 0
AreCommandsOf [] [] = Unit
AreCommandsOf [] (c ∷ cs) = ⊥
AreCommandsOf (l ∷ ls) [] = ⊥
AreCommandsOf (l ∷ ls) (c ∷ cs) = IsCommandOf l c × AreCommandsOf ls cs
