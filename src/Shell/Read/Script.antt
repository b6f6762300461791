-- ===== src/Shell/Read/Script.antt =====
-- From the text of a script without parentheses and redirections to the command that `make_command` of
-- project1/read-command.c builds.
use cs111_operating_system.Prelude.{
  ℕ, suc, ◌+◌, ◌*◌, ◌<◌, length, none, ◌≡◌, ◌≢◌, refl, ap, ◌∙◌, arith, true, false, List, [], ◌∷◌,
  Option, some, ◌==◌, ==-eq_false,
}
use cs111_operating_system.Shell.Command.{
  Str, str_eq, Command, Compound, simple_command, sequence_command, and_command, or_command,
  pipe_command,
}
use cs111_operating_system.Shell.Parse.{open_paren, new_fields, oper_token, command_token}
use cs111_operating_system.Shell.Parse.Precedence.{text}
use cs111_operating_system.Shell.Parse.Tree.{
  Operand, plain, operand_tokens, tokens_of, items_of, leaf, in_order, command_of, IsGrouped,
  make_command-IsGrouped,
}
use cs111_operating_system.Shell.Read.{Raw, kind, other, tokenize, on_tokens}
use cs111_operating_system.Shell.Read.Commands.{
  is_operator, behind_operator, anything, read_token, add_token, read_tokens, read_command,
}
use cs111_operating_system.Shell.Read.Words.{
  simple_words, eat_tail_white_space, drop_spaces, is_space, Ends, eat_tail_white_space-Ends,
}
use cs111_operating_system.Shell.Read.Print.{
  Word, word_text, Operator, compound, raw_rest, print_script, tokenize-print_script,
}

-- The words of a script, none of which ends with a space.
unfoldable pub AllEnd : List (Compound × Word) → Type 0
AllEnd [] = Unit
AllEnd ((o, w) ∷ l) = Ends (word_text w) × AllEnd l

unfoldable pub as_operators : List (Compound × Word) → List (Operator × Word)
as_operators [] = []
as_operators ((o, w) ∷ l) = (compound o, w) ∷ as_operators l

-- A word of the script as an operand: its words as a simple command.
abbrev pub operand : (line : ℕ) → Word → Operand
operand line w = plain (new_fields line) (simple_words (word_text w))

unfoldable pub operands : (line : ℕ) → List (Compound × Word) → List (Compound × Operand)
operands line [] = []
operands line ((o, w) ∷ l) = (o, operand line w) ∷ operands line l

other-ne : (c d : ℕ) → kind c ≡ other → kind d ≢ other → (c == d) ≡ false
other-ne c d e ne = ==-eq_false c d (λ same. ne (rw same at e))

-- The characters of operators have cases of their own.
pub own_cases :
    (c : ℕ)
    → kind c ≡ other
    → ((c == 38) ≡ false)
      × ((c == 124) ≡ false)
      × ((c == 59) ≡ false)
      × ((c == 60) ≡ false)
      × ((c == 62) ≡ false)
      × ((c == 40) ≡ false)
      × ((c == 41) ≡ false)
unfolding kind
own_cases c e = (
  other-ne c 38 e (λ z. absurd (ground (arith, z))),
  other-ne c 124 e (λ z. absurd (ground (arith, z))),
  other-ne c 59 e (λ z. absurd (ground (arith, z))),
  other-ne c 60 e (λ z. absurd (ground (arith, z))),
  other-ne c 62 e (λ z. absurd (ground (arith, z))),
  other-ne c 40 e (λ z. absurd (ground (arith, z))),
  other-ne c 41 e (λ z. absurd (ground (arith, z))),
)

pub word_no_operator :
    (c : ℕ) (cs : Str)
    → kind c ≡ other
    → (is_operator (c ∷ cs) ≡ false) × (behind_operator (c ∷ cs) ≡ anything)
unfolding is_operator behind_operator str_eq
word_no_operator c cs e =
    let (n1, n2, n3, n4, n5, n6, n7) = own_cases c e in rw (n1, n2, n3, n4, n5, n6, n7) (refl, refl)

operator_texts :
    (o : Compound)
    → (eat_tail_white_space (text o) ≡ some (text o))
      × (is_operator (text o) ≡ true)
      × (behind_operator (text o) ≡ anything)
      × (str_eq (text o) open_paren ≡ false)
unfolding is_operator behind_operator str_eq eat_tail_white_space drop_spaces is_space
operator_texts sequence_command = (refl, refl, refl, refl)
operator_texts and_command = (refl, refl, refl, refl)
operator_texts or_command = (refl, refl, refl, refl)
operator_texts pipe_command = (refl, refl, refl, refl)

module _ (sub : Str → (line_num : ℕ) → Option Command) (line : ℕ) where
  read_tokens-word :
      (before : Str) (w : Word) (ts : List Raw)
      → str_eq before open_paren ≡ false
      → Ends (word_text w)
      → read_tokens sub line anything before (record { word = word_text w; line_num = line } ∷ ts)
        ≡ add_token
            (some (command_token (simple_command (new_fields line) (simple_words (word_text w)))))
            (read_tokens sub line anything (word_text w) ts)
  unfolding read_tokens read_token
  read_tokens-word before w ts outside ends =
      let (word, plain_word) = word_no_operator w.first w.others w.begins in
      rw
        (
          eat_tail_white_space-Ends (word_text w) ends,
          read_tokens,
          plain_word,
          read_token,
          word,
          outside,
        )
        (ap
          (λ e.
            add_token
              (some (command_token (simple_command (new_fields line) (simple_words (word_text w)))))
              (read_tokens sub line e (word_text w) ts))
          plain_word)

  read_tokens-operator :
      (before : Str) (o : Compound) (ts : List Raw)
      → read_tokens sub line anything before (record { word = text o; line_num = line } ∷ ts)
        ≡ add_token (some (oper_token (text o))) (read_tokens sub line anything (text o) ts)
  unfolding read_tokens read_token
  read_tokens-operator before o ts =
      let (eaten, is_op, no_redirection, no_paren) = operator_texts o in
      rw (eaten, read_tokens, no_redirection, read_token, is_op)
        (ap (λ e. add_token (some (oper_token (text o))) (read_tokens sub line e (text o) ts))
          no_redirection)

  read_tokens-raw_rest :
      (before : Str) (w : Word) (l : List (Compound × Word))
      → str_eq before open_paren ≡ false
      → Ends (word_text w)
      → AllEnd l
      → read_tokens sub line anything before
          (record { word = word_text w; line_num = line } ∷ raw_rest line (as_operators l))
        ≡ some (operand_tokens (operand line w) (tokens_of (operands line l)))
  unfolding add_token raw_rest as_operators operands AllEnd operand_tokens tokens_of read_tokens
  read_tokens-raw_rest before w [] outside ends all = read_tokens-word before w [] outside ends
  read_tokens-raw_rest before w ((o, v) ∷ l) outside ends all =
      let (eaten, is_op, no_redirection, no_paren) = operator_texts o in
      let first =
        some (command_token (simple_command (new_fields line) (simple_words (word_text w)))) in
      let rest = record { word = word_text v; line_num = line } ∷ raw_rest line (as_operators l) in
      read_tokens-word before w (record { word = text o; line_num = line } ∷ rest) outside ends
      ∙ ap (add_token first) (read_tokens-operator (word_text w) o rest)
      ∙ ap (λ ts. add_token first (add_token (some (oper_token (text o))) ts))
          (read_tokens-raw_rest (text o) v l no_paren all.0 all.1)

length-as_operators : (l : List (Compound × Word)) → length (as_operators l) ≡ length l
unfolding as_operators
length-as_operators [] = refl
length-as_operators ((o, w) ∷ l) = omega (arith, length-as_operators l)

pub few_operators :
    (l : List (Compound × Word)) → 2 * length l + 1 < 128 → 2 * length (as_operators l) + 1 < 128
few_operators l few = omega (arith, length-as_operators l)

-- A script on one line, of at most 64 simple commands with `;`, `|`, `||` and `&&` between them, each operator with a
-- space behind it and no command with one: `tokenize` and `make_command` read it as a command that has
-- from left to right the same simple commands, each with its words, and the same operators, and that is
-- grouped as the precedence of the operators wants.
pub read_command-print_script :
    (depth line : ℕ) (w : Word) (l : List (Compound × Word))
    → Ends (word_text w)
    → AllEnd l
    → 2 * length l + 1 < 128
    → (c : Command) × (on_tokens none
          (read_command (suc depth))
          (tokenize (print_script w (as_operators l)) line)
        ≡ some c)
      × IsGrouped c
      × (in_order c ≡ leaf (command_of line (operand line w)) ∷ items_of line (operands line l))
unfolding read_command str_eq on_tokens
read_command-print_script depth line w l ends all few =
    let (c, made, grouped, items) =
      make_command-IsGrouped line (operand line w) (operands line l) in
    let tokens =
      read_tokens-raw_rest (λ v line_num. on_tokens none (read_command depth) (tokenize v line_num))
        line [] w l no_paren ends all in
    (
      c,
      rw (tokenize-print_script line w (as_operators l) (few_operators l few), read_command, tokens)
          made,
      grouped,
      items,
    )
  where
    no_paren : str_eq [] open_paren ≡ false
    no_paren = refl
