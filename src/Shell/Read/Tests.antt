-- ===== src/Shell/Read/Tests.antt =====
-- Texts and their tokens, and the theorems about project1/read-command.c at small scripts.
use cs111_operating_system.Prelude.{
  ℕ, zero, suc, arith, some, true, ◌≡◌, inl, inr, refl, List, [], ◌∷◌, none,
}
use cs111_operating_system.Shell.Command.{Str, str_eq, Command, Compound, and_command, pipe_command}
use cs111_operating_system.Shell.Parse.{open_paren, close_paren}
use cs111_operating_system.Shell.Read.{
  kind, other, keep_char, make_token, flush, operator, mark_operator, at_close, at_kind, round,
  next_round, behind, scan_from, words_fit, tokenize, on_tokens,
}
use cs111_operating_system.Shell.Read.Commands.{is_operator}
use cs111_operating_system.Shell.Read.Words.{is_space, Ends, eat_tail_white_space, drop_spaces}
use cs111_operating_system.Shell.Read.Print.{
  compound, output_to, InWord, Word, word_text, print_script, raw_rest, tokenize-print_script,
}
use cs111_operating_system.Shell.Read.Script.{AllEnd}
use cs111_operating_system.Shell.Read.Validate.{
  is_alnum, is_mark, is_word_char, is_valid_word, syntax_error, overrun, validate, validate_from,
  validate_round, check_token, check_separator, first_error, verdict_of, and_then, begins_with,
}
use cs111_operating_system.Shell.Read.Accepts.{Allowed, AllAllowed}
use cs111_operating_system.Shell.Read.Stream.{Line}

-- `((a))`: the scanner leaves the subshell at the first `)`.
tokenize_nested :
    tokenize (40 ∷ 40 ∷ 97 ∷ 41 ∷ 41 ∷ []) 1
    ≡ some (
        record { word = open_paren; line_num = 1 }
        ∷ record { word = 40 ∷ 97 ∷ []; line_num = 1 }
        ∷ record { word = close_paren; line_num = 1 }
        ∷ record { word = close_paren; line_num = 1 }
        ∷ [])
unfolding tokenize words_fit scan_from next_round round at_kind at_close operator flush make_token
    keep_char kind behind
tokenize_nested = refl

-- A comment line does not count: `a` stands on line 2.
tokenize_comment :
    tokenize (35 ∷ 10 ∷ 97 ∷ []) 1 ≡ some (record { word = 97 ∷ []; line_num = 1 } ∷ [])
unfolding tokenize words_fit scan_from next_round round at_kind mark_operator flush make_token
    keep_char kind behind
tokenize_comment = refl

-- `aa...a`
abbrev repeat_97 : ℕ → Str
repeat_97 zero = []
repeat_97 (suc n) = 97 ∷ repeat_97 n

-- A word of spaces only.
eat_tail_white_space_blank : eat_tail_white_space (32 ∷ []) ≡ none
unfolding eat_tail_white_space drop_spaces is_space
eat_tail_white_space_blank = refl

a_plain : kind 97 ≡ other
unfolding kind
a_plain = refl

c_plain : kind 99 ≡ other
unfolding kind
c_plain = refl

b_inside : InWord (32 ∷ 98 ∷ [])
unfolding InWord kind
b_inside = (inr refl, (inl refl, tt))

none_inside : InWord []
unfolding InWord
none_inside = tt

-- `a b`
abbrev a_b : Word
a_b = record {
  first = 97;
  others = 32 ∷ 98 ∷ [];
  begins = a_plain;
  continues = b_inside;
  short = omega arith;
}

-- `c`
abbrev c : Word
c = record {
  first = 99;
  others = [];
  begins = c_plain;
  continues = none_inside;
  short = omega arith;
}

tokenize-print_script_example :
    tokenize (print_script a_b ((compound pipe_command, c) ∷ (output_to, c) ∷ [])) 3
    ≡ some (
        record { word = word_text a_b; line_num = 3 }
        ∷ raw_rest 3 ((compound pipe_command, c) ∷ (output_to, c) ∷ []))
tokenize-print_script_example =
    tokenize-print_script 3 a_b ((compound pipe_command, c) ∷ (output_to, c) ∷ []) (omega arith)

abbrev piped : List (Compound × Word)
piped = (and_command, c) ∷ (pipe_command, a_b) ∷ []

a_b-Ends : Ends (word_text a_b)
unfolding Ends is_space
a_b-Ends = refl

piped-AllEnd : AllEnd piped
unfolding AllEnd Ends is_space
piped-AllEnd = (refl, (refl, tt))

a_b-Allowed : Allowed (word_text a_b)
unfolding Allowed is_word_char is_mark is_alnum
a_b-Allowed = (refl, (refl, (refl, tt)))

piped-AllAllowed : AllAllowed piped
unfolding AllAllowed Allowed is_word_char is_mark is_alnum
piped-AllAllowed = ((refl, tt), ((refl, (refl, (refl, tt))), tt))

-- `a b&& c| a b`
abbrev line_3 : Line
line_3 = record {
  number = 3;
  word = a_b;
  behind = piped;
  word_Ends = a_b-Ends;
  behind_AllEnd = piped-AllEnd;
  word_Allowed = a_b-Allowed;
  behind_AllAllowed = piped-AllAllowed;
  few = omega arith;
}

-- `;` without a command before it.
validate_lone_semicolon :
    on_tokens overrun (validate 1) (tokenize (59 ∷ 97 ∷ []) 4) ≡ syntax_error 4
unfolding validate validate_from validate_round check_token check_separator first_error verdict_of
    and_then begins_with is_operator str_eq tokenize on_tokens words_fit scan_from next_round round
    at_kind mark_operator operator flush make_token keep_char kind behind
validate_lone_semicolon = refl

-- `a$`: the second character is not looked at.
is_valid_word_skips : is_valid_word (97 ∷ 36 ∷ []) ≡ true
unfolding is_valid_word is_word_char is_mark is_alnum
is_valid_word_skips = refl

-- A word of 64 characters does not fit.
tokenize_long : tokenize (repeat_97 64) 1 ≡ none
unfolding tokenize words_fit scan_from next_round round at_kind mark_operator keep_char kind behind
tokenize_long = refl
