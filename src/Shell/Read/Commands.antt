-- ===== src/Shell/Read/Commands.antt =====
-- The loop of `make_command` of project1/read-command.c over the tokens of `tokenize`: what each is for
-- the stacks of Shell.Parse.
use cs111_operating_system.Prelude.{
  ℕ, zero, suc, Bool, ◌||◌, List, [], ◌∷◌, Option, none, some, if◌then◌else◌,
}
use cs111_operating_system.Shell.Command.{Str, str_eq, Command, simple_command}
use cs111_operating_system.Shell.Parse.{
  semicolon, and_and, or_or, bar, open_paren, close_paren, new_fields, Token, oper_token,
  input_token, output_token, command_token, set_fields, make_command,
}
use cs111_operating_system.Shell.Read.{Raw, less, greater, tokenize, on_tokens}
use cs111_operating_system.Shell.Read.Words.{eat_tail_white_space, simple_words}

-- The test at the top of the loop of `make_command`.
unfoldable pub is_operator : Str → Bool
is_operator w =
    (str_eq w and_and || str_eq w or_or || str_eq w bar || str_eq w semicolon)
    || (str_eq w less || str_eq w greater || str_eq w open_paren || str_eq w close_paren)

-- What the loop reads next: a token, or the word behind `<` or `>`.
pub data Expect : Type 0 where
  anything input_word output_word : Expect

unfoldable pub behind_operator : Str → Expect
behind_operator w =
    if str_eq w less then input_word else if str_eq w greater then output_word else anything

-- A token without its spaces, as `make_command` takes it: `sub` is its recursive call, for the word
-- behind a `(`; `line` is the line of the first token.
unfoldable pub read_token :
    (sub : Str → (line_num : ℕ) → Option Command)
    → (line : ℕ) → (before : Str) → Raw
    → Str
    → Option Token
read_token sub line before t w =
    if is_operator w
    then some (oper_token w)
    else if str_eq before open_paren
    then elim (sub w t.line_num) [
      | none ↦ none
      | some c ↦ some (command_token (set_fields (λ f. record f { line = line }) c))
    ]
    else some (command_token (simple_command (new_fields line) (simple_words w)))

unfoldable pub add_token : Option Token → Option (List Token) → Option (List Token)
add_token none ts = none
add_token (some t) none = none
add_token (some t) (some ts) = some (t ∷ ts)

-- The loop over the tokens, of which `before` is the last one read. `none` where it reads behind the last
-- token or before a word.
unfoldable pub read_tokens :
    (sub : Str → (line_num : ℕ) → Option Command)
    → (line : ℕ) → Expect
    → (before : Str) → List Raw
    → Option (List Token)
read_tokens sub line e before [] = elim e [ anything ↦ some [] | word_missing ↦ none ]
read_tokens sub line input_word before (t ∷ ts) = elim (eat_tail_white_space t.word) [
  | none ↦ none
  | some w ↦ add_token (some (input_token w)) (read_tokens sub line anything t.word ts)
]
read_tokens sub line output_word before (t ∷ ts) = elim (eat_tail_white_space t.word) [
  | none ↦ none
  | some w ↦ add_token (some (output_token w)) (read_tokens sub line anything t.word ts)
]
read_tokens sub line anything before (t ∷ ts) = elim (eat_tail_white_space t.word) [
  | none ↦ none
  | some w ↦
      let rest = read_tokens sub line (behind_operator w) t.word ts in
      elim (behind_operator w) [
        | anything ↦ add_token (read_token sub line before t w) rest
        | redirection ↦ rest
      ]
]

-- `make_command` on the tokens of a text, with parentheses less than `depth` deep, each of which holds a
-- text whose tokens fit.
unfoldable pub read_command : (depth : ℕ) → List Raw → Option Command
read_command zero ts = none
read_command (suc d) [] = none
read_command (suc d) (t ∷ ts) =
    elim (read_tokens (λ w line_num. on_tokens none (read_command d) (tokenize w line_num))
      t.line_num anything [] (t ∷ ts)) [
        | none ↦ none
        | some tokens ↦ make_command t.line_num tokens
      ]
