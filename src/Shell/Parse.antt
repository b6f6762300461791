-- ===== src/Shell/Parse.antt =====
-- project1/read-command.c: how `make_command` builds a command from its tokens with two stacks. A stack
-- of stack.c is a list, its top first; `pop` and `peer` of an empty one end the program, here `none`.
pub mod Precedence
pub mod Tree
mod Tests
use cs111_operating_system.Prelude.{
  ℕ, Bool, true, false, ◌||◌, not, Option, none, some, List, [], ◌∷◌, if◌then◌else◌, minus_one,
  int_ltb,
}
use cs111_operating_system.Shell.Command.{
  Str, str_eq, Fields, fields, Command, Compound, and_command, sequence_command, or_command,
  pipe_command, compound_command, simple_command, subshell_command,
}

abbrev pub semicolon : Str
semicolon = 59 ∷ []

abbrev pub and_and : Str
and_and = 38 ∷ 38 ∷ []

abbrev pub or_or : Str
or_or = 124 ∷ 124 ∷ []

abbrev pub bar : Str
bar = 124 ∷ []

abbrev pub open_paren : Str
open_paren = 40 ∷ []

abbrev pub close_paren : Str
close_paren = 41 ∷ []

-- -1, 0 or 1 as a word. The test for `||` in the second branch is `!!strcmp`, as in the source.
pub oper_cmp : (token oper : Str) → ℕ
oper_cmp token oper =
    if str_eq token semicolon
    then if str_eq oper semicolon then 0 else minus_one
    else if str_eq token and_and || str_eq token or_or
    then if str_eq oper semicolon
      then 1
      else if str_eq oper and_and || not (str_eq oper or_or)
      then 0
      else minus_one
    else if str_eq oper semicolon || (str_eq oper and_and || str_eq oper or_or)
    then 1
    else 0

-- The type that `make_compound_command` finds for an operator.
pub compound_of : Str → Compound
compound_of oper =
    if str_eq oper semicolon
    then sequence_command
    else if str_eq oper or_or
    then or_command
    else if str_eq oper and_and
    then and_command
    else pipe_command

abbrev pub new_fields : (line : ℕ) → Fields
new_fields line = record { line = line; status = minus_one; input = none; output = none }

pub make_compound_command : (line : ℕ) → (cmd1 cmd2 : Command) → Str → Command
make_compound_command line c1 c2 oper = compound_command (compound_of oper) (new_fields line) c1 c2

pub make_subshell_command : (line : ℕ) → Command → Command
make_subshell_command line c = subshell_command (new_fields line) c

-- The tokens, with the two at a redirection as one, and each other word as the command that
-- `make_simple_command` makes of it, or behind a `(` the recursive call.
pub data Token : Type 0 where
  oper_token : Str → Token
  input_token : Str → Token
  output_token : Str → Token
  command_token : Command → Token

pub record Stacks : Type 0 where
  pub operators : List Str
  pub commands : List Command

-- `oper_cmp(token, oper) <= 0`
pub pops : (token oper : Str) → Bool
pops token oper = not (int_ltb 0 (oper_cmp token oper))

-- Two commands come off the stack, and the one made of them goes on it.
pub combine : (line : ℕ) → Str → List Command → Option (List Command)
combine line oper [] = none
combine line oper (c2 ∷ []) = none
combine line oper (c2 ∷ c1 ∷ cs) = some (make_compound_command line c1 c2 oper ∷ cs)

-- The `while` at an operator.
pub reduce : (line : ℕ) → (token : Str) → List Str → List Command → Option Stacks
reduce line token [] cs = some (record { operators = []; commands = cs })
reduce line token (o ∷ os) cs =
    if pops token o
    then elim (combine line o cs) [ none ↦ none | some cs' ↦ reduce line token os cs' ]
    else some (record { operators = o ∷ os; commands = cs })

pub push_operator : Str → Stacks → Stacks
push_operator token s = record s { operators = token ∷ s.operators }

-- At a `)`: where the top is no `(`, the inner loop pops until the stack is empty, which ends the
-- program.
pub close_subshell : (line : ℕ) → Stacks → Option Stacks
close_subshell line s = elim s.operators [
  | [] ↦ none
  | o ∷ os ↦
      if str_eq o open_paren
      then elim s.commands [
        | [] ↦ none
        | c ∷ cs ↦ some (record { operators = os; commands = make_subshell_command line c ∷ cs })
      ]
      else none
]

pub set_fields : (Fields → Fields) → Command → Command
set_fields g (compound_command op f c d) = compound_command op (g f) c d
set_fields g (simple_command f ws) = simple_command (g f) ws
set_fields g (subshell_command f c) = subshell_command (g f) c

-- A change of the command on top of the stack.
pub change_top : (Fields → Fields) → Stacks → Option Stacks
change_top g s = elim s.commands [
  | [] ↦ none
  | c ∷ cs ↦ some (record s { commands = set_fields g c ∷ cs })
]

-- One round of the first `while` of `make_command`.
pub step : (line : ℕ) → Stacks → Token → Option Stacks
step line s (input_token w) = change_top (λ f. record f { input = some w }) s
step line s (output_token w) = change_top (λ f. record f { output = some w }) s
step line s (command_token c) = some (record s { commands = c ∷ s.commands })
step line s (oper_token t) =
    if str_eq t close_paren
    then close_subshell line s
    else if str_eq t open_paren
    then some (push_operator t s)
    else elim (reduce line t s.operators s.commands) [
      | none ↦ none
      | some r ↦ some (push_operator t r)
    ]

pub run : (line : ℕ) → Stacks → List Token → Option Stacks
run line s [] = some s
run line s (t ∷ ts) = elim (step line s t) [ none ↦ none | some r ↦ run line r ts ]

-- The last `if` with its `while`: what is on top of the stack in the end.
pub finish : (line : ℕ) → List Str → List Command → Option Command
finish line [] [] = none
finish line [] (c ∷ cs) = some c
finish line (o ∷ os) cs = elim (combine line o cs) [ none ↦ none | some cs' ↦ finish line os cs' ]

-- `line` is the line of the first token; the commands of the tokens have it already.
pub make_command : (line : ℕ) → List Token → Option Command
make_command line ts = elim (run line (record { operators = []; commands = [] }) ts) [
  | none ↦ none
  | some s ↦ finish line s.operators s.commands
]
