-- ===== src/Shell/Read/Words.antt =====
-- `make_simple_command` and `eat_tail_white_space` of project1/read-command.c.
use cs111_operating_system.Prelude.{
  ℕ, ◌≡◌, refl, sym, ap, ◌∙◌, Bool, true, false, ◌||◌, List, [], ◌∷◌, ◌++◌, map, Option, none, some,
  if◌then◌else◌, ◌==◌,
}
use mathlib.Core.List.{append_assoc, append-nil, reverse, reverse-append, reverse-reverse}
use cs111_operating_system.Shell.Command.{Str}

unfoldable pub is_space : ℕ → Bool
is_space c = c == 32 || c == 9

unfoldable pub drop_spaces : Str → Str
drop_spaces [] = []
drop_spaces (c ∷ cs) = if is_space c then drop_spaces cs else c ∷ cs

-- From the last character back to one that is no space. `none` where there is none: the loop then reads
-- before the word.
unfoldable pub eat_tail_white_space : Str → Option Str
eat_tail_white_space word = elim (drop_spaces (reverse word)) [
  | [] ↦ none
  | c ∷ cs ↦ some (reverse (c ∷ cs))
]

-- The two inner loops: within a word, of which `str` has been read, and between two words.
unfoldable pub split_words : (in_word : Bool) → (str : Str) → Str → List Str
split_words true str [] = str ∷ []
split_words false str [] = []
split_words true str (c ∷ cs) =
    if is_space c then str ∷ split_words false [] cs else split_words true (str ++ (c ∷ [])) cs
split_words false str (c ∷ cs) =
    if is_space c then split_words false [] cs else split_words true (c ∷ []) cs

-- The words of a token.
unfoldable pub simple_words : (token : Str) → List Str
simple_words [] = []
simple_words (c ∷ cs) = split_words true [] (c ∷ cs)

-- Characters that are no spaces, and such that are.
unfoldable pub NoSpaces : Str → Type 0
NoSpaces [] = Unit
NoSpaces (c ∷ cs) = (is_space c ≡ false) × NoSpaces cs

unfoldable pub AllSpaces : Str → Type 0
AllSpaces [] = Unit
AllSpaces (c ∷ cs) = (is_space c ≡ true) × AllSpaces cs

-- A word behind another: its first character, the rest, and the spaces before it, of which there is one
-- at least.
pub record Spaced : Type 0 where
  pub space : ℕ
  pub spaces : Str
  pub first : ℕ
  pub others : Str
  pub is_space_first : is_space space ≡ true
  pub are_spaces : AllSpaces spaces
  pub no_space_first : is_space first ≡ false
  pub no_spaces : NoSpaces others

pub spaced_word : Spaced → Str
spaced_word s = s.first ∷ s.others

-- The characters of words with spaces between them.
unfoldable pub spaced_text : List Spaced → Str
spaced_text [] = []
spaced_text (s ∷ ss) = s.space ∷ (s.spaces ++ (s.first ∷ (s.others ++ spaced_text ss)))

split_words-word :
    (w str rest : Str)
    → NoSpaces w
    → split_words true str (w ++ rest) ≡ split_words true (str ++ w) rest
unfolding split_words NoSpaces
split_words-word [] str rest n = let e : str ++ [] ≡ str = append-nil str in rw e refl
split_words-word (c ∷ w) str rest n =
    let e : (str ++ (c ∷ [])) ++ w ≡ str ++ (c ∷ w) = append_assoc str (c ∷ []) w in
    rw n.0 (rw e at (split_words-word w (str ++ (c ∷ [])) rest n.1))

split_words-spaces :
    (b rest : Str) → AllSpaces b → split_words false [] (b ++ rest) ≡ split_words false [] rest
unfolding split_words AllSpaces
split_words-spaces [] rest n = refl
split_words-spaces (c ∷ b) rest n = rw n.0 (split_words-spaces b rest n.1)

split_words-spaced :
    (ss : List Spaced) (str : Str)
    → split_words true str (spaced_text ss) ≡ str ∷ map spaced_word ss
unfolding split_words spaced_text spaced_word
split_words-spaced [] str = refl
split_words-spaced (s ∷ ss) str =
    rw
      (
        s.is_space_first,
        split_words-spaces s.spaces (s.first ∷ (s.others ++ spaced_text ss)) s.are_spaces,
        s.no_space_first,
        split_words-word s.others (s.first ∷ []) (spaced_text ss) s.no_spaces,
        split_words-spaced ss (s.first ∷ s.others),
      )
      refl

-- `make_simple_command` finds the words of a token: a word, and any words behind it with spaces or tabs
-- before each.
pub simple_words_lem :
    (c : ℕ) (w : Str) (ss : List Spaced)
    → is_space c ≡ false
    → NoSpaces w
    → simple_words (c ∷ (w ++ spaced_text ss)) ≡ (c ∷ w) ∷ map spaced_word ss
unfolding simple_words split_words
simple_words_lem c w ss first rest =
    rw (first, split_words-word w (c ∷ []) (spaced_text ss) rest, split_words-spaced ss (c ∷ w))
      refl

drop_spaces-spaces : (b rest : Str) → AllSpaces b → drop_spaces (b ++ rest) ≡ drop_spaces rest
unfolding drop_spaces AllSpaces
drop_spaces-spaces [] rest n = refl
drop_spaces-spaces (c ∷ b) rest n = rw n.0 (drop_spaces-spaces b rest n.1)

AllSpaces-append : (a b : Str) → AllSpaces a → AllSpaces b → AllSpaces (a ++ b)
unfolding AllSpaces
AllSpaces-append [] b n k = k
AllSpaces-append (c ∷ a) b n k = (n.0, AllSpaces-append a b n.1 k)

AllSpaces-reverse : (b : Str) → AllSpaces b → AllSpaces (reverse b)
unfolding AllSpaces
AllSpaces-reverse [] n = n
AllSpaces-reverse (c ∷ b) n =
    let e : reverse (c ∷ b) ≡ reverse b ++ (c ∷ []) = reverse-append (c ∷ []) b in
    rw e (AllSpaces-append (reverse b) (c ∷ []) (AllSpaces-reverse b n.1) (n.0, tt))

-- `eat_tail_white_space` cuts off the spaces and tabs behind the last other character.
pub eat_tail_white_space_lem :
    (w : Str) (c : ℕ) (b : Str)
    → is_space c ≡ false
    → AllSpaces b
    → eat_tail_white_space ((w ++ (c ∷ [])) ++ b) ≡ some (w ++ (c ∷ []))
unfolding eat_tail_white_space drop_spaces
eat_tail_white_space_lem w c b last spaces =
    let e1 : reverse ((w ++ (c ∷ [])) ++ b) ≡ reverse b ++ reverse (w ++ (c ∷ [])) =
      reverse-append (w ++ (c ∷ [])) b in
    let e2 : reverse (w ++ (c ∷ [])) ≡ c ∷ reverse w = reverse-append w (c ∷ []) in
    let e3 : reverse (c ∷ reverse w) ≡ w ++ (c ∷ []) =
      ap reverse (sym e2) ∙ reverse-reverse (w ++ (c ∷ [])) in
    rw
      (
        eat_tail_white_space,
        e1,
        drop_spaces-spaces (reverse b) (reverse (w ++ (c ∷ []))) (AllSpaces-reverse b spaces),
        e2,
        last,
        e3,
      )
      refl

-- A text whose last character is no space.
unfoldable pub Ends : Str → Type 0
Ends [] = ⊥
Ends (c ∷ []) = is_space c ≡ false
Ends (c ∷ (d ∷ cs)) = Ends (d ∷ cs)

Ends-last : (x : Str) → Ends x → (w : Str) × (c : ℕ) × (x ≡ w ++ (c ∷ [])) × (is_space c ≡ false)
unfolding Ends
Ends-last [] h = absurd h
Ends-last (c ∷ []) h = ([], c, refl, h)
Ends-last (c ∷ (d ∷ cs)) h =
    let (w, l, e, last) = Ends-last (d ∷ cs) h in (c ∷ w, l, ap (λ x. c ∷ x) e, last)

pub eat_tail_white_space-Ends : (x : Str) → Ends x → eat_tail_white_space x ≡ some x
unfolding AllSpaces
eat_tail_white_space-Ends x h =
    let (w, c, e, last) = Ends-last x h in
    let none_behind : (w ++ (c ∷ [])) ++ [] ≡ w ++ (c ∷ []) = append-nil (w ++ (c ∷ [])) in
    let whole : eat_tail_white_space ((w ++ (c ∷ [])) ++ []) ≡ some (w ++ (c ∷ [])) =
      eat_tail_white_space_lem w c [] last tt in
    rw e (rw none_behind at whole)
