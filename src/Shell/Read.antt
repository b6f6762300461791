-- ===== src/Shell/Read.antt =====
-- project1/read-command.c: from the characters of a script to commands. A token is a word with its line.
-- The source has 64 characters for a token with its end, and arrays of 128 tokens with a mark at the
-- end, and tests neither: `tokenize` gives `none` where it would write behind one of them.
pub mod Words
pub mod Print
pub mod Commands
pub mod Script
pub mod Validate
pub mod Accepts
pub mod Stream
mod Tests
use cs111_operating_system.Prelude.{
  ℕ, zero, suc, ◌+◌, Bool, true, false, ◌&&◌, ◌||◌, not, List, [], ◌∷◌, ◌++◌, Option, none, some,
  if◌then◌else◌, ◌==◌, ltb, length,
}
use cs111_operating_system.Shell.Command.{Str}
use cs111_operating_system.Shell.Parse.{semicolon, and_and, or_or, bar, open_paren, close_paren}

abbrev pub less : Str
less = 60 ∷ []

abbrev pub greater : Str
greater = 62 ∷ []

-- `struct token`.
pub record Raw : Type 0 where
  pub word : Str
  pub line_num : ℕ

-- The case labels of the `switch` in `tokenize`.
pub data Kind : Type 0 where
  hash blank semi newline pipe ampersand left_paren right_paren right_angle left_angle other : Kind

unfoldable pub kind : ℕ → Kind
kind c =
    if c == 35
    then hash
    else if c == 32 || c == 9
    then blank
    else if c == 59
    then semi
    else if c == 10
    then newline
    else if c == 124
    then pipe
    else if c == 38
    then ampersand
    else if c == 40
    then left_paren
    else if c == 41
    then right_paren
    else if c == 62
    then right_angle
    else if c == 60
    then left_angle
    else other

-- The local variables of `tokenize`. `skip` says that the next character has been read already.
pub record Scanner : Type 0 where
  pub buffer : Str
  pub line_offset : ℕ
  pub line_offset_in_subshell : ℕ
  pub in_simple_comman : Bool
  pub in_subshell : Bool
  pub after_operator : Bool
  pub in_comment : Bool
  pub in_first_line : Bool
  pub skip : Bool

abbrev pub start : Scanner
start = record {
  buffer = [];
  line_offset = 0;
  line_offset_in_subshell = 0;
  in_simple_comman = false;
  in_subshell = false;
  after_operator = false;
  in_comment = false;
  in_first_line = true;
  skip = false;
}

abbrev pub Step : Type 0
Step = List Raw × Scanner

unfoldable pub keep_char : (c : ℕ) → Scanner → Scanner
keep_char c s = record s { buffer = s.buffer ++ (c ∷ []) }

-- `make_token`, for the token behind others; how long the word may be is tested in `tokenize`. The source
-- asks for the size of a pointer only to hold the structure; here it gets room for all of it.
unfoldable pub make_token : (word : Str) → (line_num : ℕ) → Step → Step
make_token word line_num (ts, s) = (
  ts ++ (record { word = word; line_num = line_num } ∷ []),
  record s { in_simple_comman = false },
)

-- What is in the buffer becomes a token.
unfoldable pub flush : (line_num : ℕ) → Scanner → Step
flush line_num s = elim s.buffer [
  | [] ↦ ([], s)
  | c ∷ cs ↦ make_token (c ∷ cs) (line_num + s.line_offset) ([], record s { buffer = [] })
]

-- The buffer, and then an operator of its own.
unfoldable pub operator : (word : Str) → (line_num : ℕ) → Scanner → Step
operator word line_num s = make_token word (line_num + s.line_offset) (flush line_num s)

-- The end of the cases for `|` and `&`.
unfoldable pub mark_operator : (after skip : Bool) → Step → Step
mark_operator after skip (ts, s) =
    (ts, record s { in_first_line = false; after_operator = after; skip = skip })

unfoldable pub at_newline : (line_num c2 : ℕ) → Scanner → Step
at_newline line_num c2 s =
    let (ts, s') = flush line_num s in
    if not s.after_operator && not s.in_first_line
    then (let (ts2, s2) = make_token semicolon (line_num + s.line_offset) (ts, s') in
        (ts2, record s2 { in_first_line = false; line_offset = s2.line_offset + 1 }))
    else if c2 == 10
    then (ts, s')
    else (ts, record s' { after_operator = false; line_offset = s'.line_offset + 1 })

unfoldable pub at_close : (line_num : ℕ) → Scanner → Step
at_close line_num s =
    let (ts, s1) = flush line_num s in
    let s2 : Scanner = elim s.buffer [
      | [] ↦ s1
      | c ∷ cs ↦ record s1 {
        line_offset = s1.line_offset + s1.line_offset_in_subshell;
        line_offset_in_subshell = 0;
      }
    ] in
    let (ts3, s3) = make_token close_paren (line_num + s2.line_offset) (ts, s2) in
    (ts3, record s3 { in_subshell = false })

-- The `switch`, for character `c` with `c2` behind it.
unfoldable pub at_kind : Kind → (line_num c c2 : ℕ) → Scanner → Step
at_kind hash line_num c c2 s = ([], record s { in_comment = true })
at_kind blank line_num c c2 s = if s.in_simple_comman then ([], keep_char c s) else ([], s)
at_kind semi line_num c c2 s = operator semicolon line_num s
at_kind newline line_num c c2 s =
    if s.in_comment then ([], record s { in_comment = false }) else at_newline line_num c2 s
at_kind pipe line_num c c2 s =
    if c2 == 124
    then mark_operator true true (operator or_or line_num s)
    else mark_operator true false (operator bar line_num s)
at_kind ampersand line_num c c2 s =
    if c2 == 38
    then mark_operator true true (operator and_and line_num s)
    else mark_operator true false ([], keep_char c s)
at_kind left_paren line_num c c2 s =
    let (ts, s') = operator open_paren line_num s in (ts, record s' { in_subshell = true })
at_kind right_paren line_num c c2 s = at_close line_num s
at_kind right_angle line_num c c2 s = mark_operator false false (operator greater line_num s)
at_kind left_angle line_num c c2 s = mark_operator false false (operator less line_num s)
at_kind other line_num c c2 s =
    mark_operator false false ([], record (keep_char c s) { in_simple_comman = true })

-- One round of the `for`.
unfoldable pub round : (line_num c c2 : ℕ) → Scanner → Step
round line_num c c2 s =
    if s.in_comment && not (c == 10)
    then ([], s)
    else if s.in_subshell && not (c == 41)
    then (
      [],
      record (keep_char c s) {
        line_offset_in_subshell =
            if c == 10 then s.line_offset_in_subshell + 1 else s.line_offset_in_subshell;
      },
    )
    else at_kind (kind c) line_num c c2 s

-- The character behind, or a space at the end.
unfoldable pub behind : Str → ℕ
behind [] = 32
behind (c ∷ cs) = c

unfoldable pub next_round : (line_num c c2 : ℕ) → Scanner → Step
next_round line_num c c2 s =
    if s.skip then ([], record s { skip = false }) else round line_num c c2 s

unfoldable pub scan_from : (line_num : ℕ) → Scanner → Str → List Raw
scan_from line_num s [] = elim s.buffer [
  | [] ↦ []
  | c ∷ cs ↦ record { word = c ∷ cs; line_num = s.line_offset + line_num } ∷ []
]
scan_from line_num s (c ∷ cs) =
    let (ts, s') = next_round line_num c (behind cs) s in ts ++ scan_from line_num s' cs

-- `strcpy` of each token into 64 characters. (The buffer of 128 overflows only with a token that is
-- too long: all that is in it becomes one.)
unfoldable pub words_fit : List Raw → Bool
words_fit [] = true
words_fit (t ∷ ts) = ltb (length t.word) 64 && words_fit ts

unfoldable pub tokenize : (command_tree : Str) → (line_num : ℕ) → Option (List Raw)
tokenize command_tree line_num =
    let tokens = scan_from line_num start command_tree in
    if words_fit tokens && ltb (length tokens) 128 then some tokens else none

-- What is done with the tokens of a text, with `overrun` where they do not fit.
unfoldable pub on_tokens {ℓ} : {A : Type ℓ} → (overrun : A) → (List Raw → A) → Option (List Raw) → A
on_tokens overrun f none = overrun
on_tokens overrun f (some ts) = f ts
