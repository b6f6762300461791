-- ===== src/Shell/Read/Print.antt =====
-- `tokenize` of project1/read-command.c and the text of a script without parentheses on one line.
use cs111_operating_system.Prelude.{
  ℕ, ◌+◌, ◌*◌, ◌<◌, ltb, length, some, ◌≡◌, ◌⊎◌, inl, inr, refl, arith, Bool, true, false, List, [],
  ◌∷◌, ◌++◌,
}
use mathlib.Core.List.{append_assoc, append-nil}
use cs111_operating_system.Shell.Command.{
  Str, Compound, sequence_command, and_command, or_command, pipe_command,
}
use cs111_operating_system.Shell.Parse.Precedence.{text}
use cs111_operating_system.Shell.Read.{
  less, greater, Raw, blank, other, kind, Scanner, start, keep_char, make_token, flush, operator,
  mark_operator, at_kind, round, next_round, behind, scan_from, words_fit, tokenize,
}

-- An operator of a script on one line.
pub data Operator : Type 0 where
  compound : Compound → Operator
  input_from : Operator
  output_to : Operator

abbrev pub operator_text : Operator → Str
operator_text (compound o) = text o
operator_text input_from = less
operator_text output_to = greater

-- Characters that stay in a word: those without a case of their own, and spaces.
unfoldable pub InWord : Str → Type 0
InWord [] = Unit
InWord (c ∷ cs) = ((kind c ≡ other) ⊎ (kind c ≡ blank)) × InWord cs

-- A word with its spaces, which begins with no space and fits the 64 characters of a token.
pub record Word : Type 0 where
  pub first : ℕ
  pub others : Str
  pub begins : kind first ≡ other
  pub continues : InWord others
  pub short : length others < 63

abbrev pub word_text : Word → Str
word_text w = w.first ∷ w.others

-- Words with operators between them; behind each operator comes a space.
unfoldable pub print_rest : List (Operator × Word) → Str
print_rest [] = []
print_rest ((o, w) ∷ l) = operator_text o ++ (32 ∷ (w.first ∷ (w.others ++ print_rest l)))

unfoldable pub print_script : Word → List (Operator × Word) → Str
print_script w l = w.first ∷ (w.others ++ print_rest l)

-- The tokens that were printed.
unfoldable pub raw_rest : (line_num : ℕ) → List (Operator × Word) → List Raw
raw_rest line_num [] = []
raw_rest line_num ((o, w) ∷ l) =
    record { word = operator_text o; line_num = line_num }
    ∷ record { word = word_text w; line_num = line_num }
    ∷ raw_rest line_num l

-- The scanner within a word, and before one.
abbrev inside : Str → Scanner
inside b = record start { buffer = b; in_simple_comman = true; in_first_line = false }

abbrev outside : (first after : Bool) → Scanner
outside first after = record start { after_operator = after; in_first_line = first }

round_begins :
    (line_num c c2 : ℕ) (first after : Bool)
    → kind c ≡ other
    → next_round line_num c c2 (outside first after) ≡ ([], inside (c ∷ []))
unfolding next_round round at_kind mark_operator keep_char
round_begins line_num c c2 first after e = rw e refl

round_continues :
    (line_num c c2 : ℕ) (b : Str)
    → (kind c ≡ other) ⊎ (kind c ≡ blank)
    → next_round line_num c c2 (inside b) ≡ ([], inside (b ++ (c ∷ [])))
unfolding next_round round at_kind mark_operator keep_char
round_continues line_num c c2 b (inl e) = rw e refl
round_continues line_num c c2 b (inr e) = rw e refl

operator-short : (o : Operator) → ltb (length (operator_text o)) 64 ≡ true
operator-short (compound sequence_command) = refl
operator-short (compound and_command) = refl
operator-short (compound or_command) = refl
operator-short (compound pipe_command) = refl
operator-short input_from = refl
operator-short output_to = refl

scan_word :
    (line_num : ℕ) (cs b rest : Str)
    → InWord cs
    → scan_from line_num (inside b) (cs ++ rest) ≡ scan_from line_num (inside (b ++ cs)) rest
unfolding scan_from InWord
scan_word line_num [] b rest n = let e : b ++ [] ≡ b = append-nil b in rw e refl
scan_word line_num (c ∷ cs) b rest n =
    let e : (b ++ (c ∷ [])) ++ cs ≡ b ++ (c ∷ cs) = append_assoc b (c ∷ []) cs in
    rw (round_continues line_num c (behind (cs ++ rest)) b n.0)
      (rw e at (scan_word line_num cs (b ++ (c ∷ [])) rest n.1))

after : Operator → Bool
after (compound sequence_command) = false
after (compound and_command) = true
after (compound or_command) = true
after (compound pipe_command) = true
after input_from = false
after output_to = false

scan_operator :
    (line_num c : ℕ) (b : Str) (o : Operator) (rest : Str)
    → scan_from line_num (inside (c ∷ b)) (operator_text o ++ (32 ∷ rest))
      ≡ record { word = c ∷ b; line_num = line_num }
        ∷ record { word = operator_text o; line_num = line_num }
        ∷ scan_from line_num (outside false (after o)) rest
unfolding scan_from next_round round at_kind mark_operator keep_char operator flush make_token kind
    behind after
scan_operator line_num c b (compound sequence_command) rest =
    let e : line_num + 0 ≡ line_num = omega arith in rw e refl
scan_operator line_num c b (compound and_command) rest =
    let e : line_num + 0 ≡ line_num = omega arith in rw e refl
scan_operator line_num c b (compound or_command) rest =
    let e : line_num + 0 ≡ line_num = omega arith in rw e refl
scan_operator line_num c b (compound pipe_command) rest =
    let e : line_num + 0 ≡ line_num = omega arith in rw e refl
scan_operator line_num c b input_from rest =
    let e : line_num + 0 ≡ line_num = omega arith in rw e refl
scan_operator line_num c b output_to rest =
    let e : line_num + 0 ≡ line_num = omega arith in rw e refl

scan_script :
    (line_num : ℕ) (first after_operator : Bool) (w : Word) (l : List (Operator × Word))
    → scan_from line_num (outside first after_operator) (print_script w l)
      ≡ record { word = word_text w; line_num = line_num } ∷ raw_rest line_num l
unfolding scan_from print_script print_rest raw_rest
scan_script line_num first after_operator w [] =
    let e : 0 + line_num ≡ line_num = omega arith in
    rw
      (
        round_begins line_num w.first (behind (w.others ++ [])) first after_operator w.begins,
        scan_word line_num w.others (w.first ∷ []) [] w.continues,
        e,
      )
      refl
scan_script line_num first after_operator w ((o, v) ∷ l) =
    let rest = print_rest ((o, v) ∷ l) in
    rw
      (
        round_begins line_num w.first (behind (w.others ++ rest)) first after_operator w.begins,
        scan_word line_num w.others (w.first ∷ []) rest w.continues,
        scan_operator line_num w.first w.others o (print_script v l),
        scan_script line_num false (after o) v l,
      )
      refl

length-raw_rest :
    (line_num : ℕ) (l : List (Operator × Word)) → length (raw_rest line_num l) ≡ 2 * length l
unfolding raw_rest
length-raw_rest line_num [] = refl
length-raw_rest line_num ((o, w) ∷ l) = omega (arith, length-raw_rest line_num l)

words_fit-raw_rest :
    (line_num : ℕ) (l : List (Operator × Word)) → words_fit (raw_rest line_num l) ≡ true
unfolding words_fit raw_rest
words_fit-raw_rest line_num [] = refl
words_fit-raw_rest line_num ((o, w) ∷ l) =
    let short : ltb (length (word_text w)) 64 ≡ true = ground (arith, w.short) in
    rw (operator-short o, short) (words_fit-raw_rest line_num l)

-- `tokenize` of a script that was printed from words of fewer than 64 characters and operators, on one
-- line, without parentheses and with at most 63 operators, gives back those words and operators in their order, each with the number of the line.
pub tokenize-print_script :
    (line_num : ℕ) (w : Word) (l : List (Operator × Word))
    → 2 * length l + 1 < 128
    → tokenize (print_script w l) line_num
      ≡ some (record { word = word_text w; line_num = line_num } ∷ raw_rest line_num l)
unfolding tokenize words_fit
tokenize-print_script line_num w l few =
    let short : ltb (length (word_text w)) 64 ≡ true = ground (arith, w.short) in
    let tokens = record { word = word_text w; line_num = line_num } ∷ raw_rest line_num l in
    let room : ltb (length tokens) 128 ≡ true = ground (arith, length-raw_rest line_num l) in
    rw (scan_script line_num true false w l, short, words_fit-raw_rest line_num l, room) refl
