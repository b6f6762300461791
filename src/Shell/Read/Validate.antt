-- ===== src/Shell/Read/Validate.antt =====
-- `validate` of project1/read-command.c and the tests that it uses. `syntax_error` ends the program; here
-- it is a value with the number of the line.
use cs111_operating_system.Prelude.{
  ℕ, zero, suc, Bool, true, false, ◌&&◌, ◌||◌, not, List, [], ◌∷◌, Option, none, some,
  if◌then◌else◌, ◌==◌, leb, length,
}
use cs111_operating_system.Shell.Command.{Str, str_eq}
use cs111_operating_system.Shell.Parse.{semicolon, and_and, or_or, bar}
use cs111_operating_system.Shell.Read.{Raw, less, greater, tokenize, on_tokens}
use cs111_operating_system.Shell.Read.Commands.{is_operator}

-- `isalnum`, for ASCII.
unfoldable pub is_alnum : ℕ → Bool
is_alnum c = (leb 48 c && leb c 57) || (leb 65 c && leb c 90) || (leb 97 c && leb c 122)

-- `!`, `%`, `+`, `,`, `-`, `.`, `/`, `:`, `@`, `^` and `_`.
unfoldable pub is_mark : ℕ → Bool
is_mark c =
    (c == 33 || c == 37 || c == 43 || c == 44 || c == 45 || c == 46)
    || (c == 47 || c == 58 || c == 64 || c == 94 || c == 95)

unfoldable pub is_word_char : ℕ → Bool
is_word_char c = is_mark c || is_alnum c || (c == 32 || c == 10 || c == 9)

-- The loop looks at every second character.
unfoldable pub is_valid_word : Str → Bool
is_valid_word [] = true
is_valid_word (c ∷ []) = is_word_char c
is_valid_word (c ∷ (d ∷ cs)) = is_word_char c && is_valid_word cs

-- `syntax_error(n)`, or the return value 1.
pub data Verdict : Type 0 where
  valid : Verdict
  syntax_error : (line : ℕ) → Verdict
  too_deep : Verdict
  overrun : Verdict  -- an array would be written behind its end

-- `word[0] == c`
unfoldable pub begins_with : (c : ℕ) → Str → Bool
begins_with c [] = false
begins_with c (x ∷ xs) = x == c

-- The token behind a `;` that is an error, and behind `|`, `||` or `&&`.
unfoldable pub bad_after_semicolon : Str → Bool
bad_after_semicolon w =
    str_eq w and_and
    || str_eq w or_or
    || str_eq w bar
    || (begins_with 62 w || begins_with 60 w || str_eq w semicolon)

unfoldable pub bad_after_operator : Str → Bool
bad_after_operator w = str_eq w and_and || str_eq w or_or || str_eq w bar

-- `tmp[j] == '>' || tmp[j] == '<'` for some `j`.
unfoldable pub has_redirection : Str → Bool
has_redirection [] = false
has_redirection (c ∷ cs) = (c == 62 || c == 60) || has_redirection cs

-- The checks on the token `t` with the one before it and those behind it: the line of the first error.
unfoldable pub check_separator :
    (bad : Str → Bool) → (before : Option Raw) → Raw → List Raw → Option ℕ
check_separator bad none t ts = some t.line_num
check_separator bad (some p) t [] = some t.line_num
check_separator bad (some p) t (u ∷ ts) = if bad u.word then some t.line_num else none

unfoldable pub check_before : (before : Option Raw) → Option ℕ
check_before none = none
check_before (some p) = if has_redirection p.word then some p.line_num else none

unfoldable pub check_redirection : (before : Option Raw) → Raw → List Raw → Option ℕ
check_redirection none t ts = some t.line_num
check_redirection (some p) t [] = some t.line_num
check_redirection (some p) t (u ∷ ts) =
    if str_eq u.word greater || str_eq u.word less then some t.line_num else none

unfoldable pub first_error : Option ℕ → Option ℕ → Option ℕ
first_error (some n) e = some n
first_error none e = e

-- The last part of the loop's body.
unfoldable pub check_token : (before : Option Raw) → Raw → List Raw → Option ℕ
check_token before t ts =
    if str_eq t.word semicolon
    then first_error (check_separator bad_after_semicolon before t ts) (check_before before)
    else if str_eq t.word or_or || str_eq t.word bar || str_eq t.word and_and
    then check_separator bad_after_operator before t ts
    else if str_eq t.word less || str_eq t.word greater
    then check_redirection before t ts
    else none

-- What a round of the loop comes to: an error or none, and whether the loop is in a subshell and has read
-- the next token too.
pub record Round : Type 0 where
  pub verdict : Verdict
  pub in_subshell : Bool
  pub skip : Bool

unfoldable pub verdict_of : Option ℕ → Verdict
verdict_of none = valid
verdict_of (some n) = syntax_error n

-- At a `(`, in an array of `count` tokens: the word behind it is validated by itself.
unfoldable pub open_subshell :
    (sub : Str → (line_num : ℕ) → Verdict) → (count : ℕ) → List Raw → Round
open_subshell sub count [] = record {
  verdict = syntax_error count;
  in_subshell = true;
  skip = false;
}
open_subshell sub count (u ∷ ts) =
    if begins_with 41 u.word
    then record { verdict = valid; in_subshell = true; skip = false }
    else record { verdict = sub u.word u.line_num; in_subshell = true; skip = true }

unfoldable pub close_round : (in_subshell : Bool) → (before : Option Raw) → Raw → Round
close_round in_subshell none t = record {
  verdict = syntax_error 0;
  in_subshell = in_subshell;
  skip = false;
}
close_round in_subshell (some p) t = record {
  verdict = if in_subshell then valid else syntax_error t.line_num;
  in_subshell = false;
  skip = false;
}

unfoldable pub validate_round :
    (sub : Str → (line_num : ℕ) → Verdict)
    → (count : ℕ) → (in_subshell : Bool) → (before : Option Raw) → Raw
    → List Raw
    → Round
validate_round sub count in_subshell before t ts =
    if not (is_operator t.word) && not (is_valid_word t.word)
    then record { verdict = syntax_error t.line_num; in_subshell = in_subshell; skip = false }
    else if begins_with 40 t.word
    then open_subshell sub count ts
    else if begins_with 41 t.word
    then close_round in_subshell before t
    else record {
      verdict = verdict_of (check_token before t ts);
      in_subshell = in_subshell;
      skip = false;
    }

unfoldable pub and_then : Verdict → Verdict → Verdict
and_then valid v = v
and_then (syntax_error n) v = syntax_error n
and_then too_deep v = too_deep
and_then overrun v = overrun

unfoldable pub validate_from :
    (sub : Str → (line_num : ℕ) → Verdict)
    → (count : ℕ) → (in_subshell skip : Bool) → (before : Option Raw) → List Raw
    → Verdict
validate_from sub count in_subshell skip before [] = valid
validate_from sub count in_subshell true before (t ∷ ts) =
    validate_from sub count in_subshell false (some t) ts
validate_from sub count in_subshell false before (t ∷ ts) =
    let r = validate_round sub count in_subshell before t ts in
    and_then r.verdict (validate_from sub count r.in_subshell r.skip (some t) ts)

-- With parentheses less than `depth` deep.
unfoldable pub validate : (depth : ℕ) → List Raw → Verdict
validate zero ts = too_deep
validate (suc d) ts =
    validate_from (λ w line_num. on_tokens overrun (validate d) (tokenize w line_num)) (length ts)
      false false none ts
