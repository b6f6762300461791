-- ===== src/Shell/Read/Accepts.antt =====
-- What `validate` of project1/read-command.c accepts.
use cs111_operating_system.Prelude.{
  ℕ, suc, ◌+◌, ◌*◌, ◌<◌, length, ◌≡◌, ◌≢◌, ◌⊎◌, ==-eq_false, inl, inr, refl, ◌∙◌, arith, true,
  false, List, [], ◌∷◌, Option, none, some, ◌==◌,
}
use cs111_operating_system.Shell.Command.{
  Str, str_eq, Compound, sequence_command, and_command, or_command, pipe_command,
}
use cs111_operating_system.Shell.Parse.Precedence.{text}
use cs111_operating_system.Shell.Read.{Raw, Kind, kind, other, blank, tokenize, on_tokens}
use cs111_operating_system.Shell.Read.Commands.{is_operator}
use cs111_operating_system.Shell.Read.Print.{
  InWord, Word, word_text, raw_rest, print_script, tokenize-print_script,
}
use cs111_operating_system.Shell.Read.Script.{
  as_operators, few_operators, own_cases, word_no_operator,
}
use cs111_operating_system.Shell.Read.Validate.{
  is_word_char, is_valid_word, Verdict, valid, overrun, begins_with, bad_after_semicolon,
  bad_after_operator, has_redirection, check_separator, check_before, check_token, first_error,
  verdict_of, validate_round, and_then, validate_from, validate,
}

-- Words of characters that the shell allows.
unfoldable pub Allowed : Str → Type 0
Allowed [] = Unit
Allowed (c ∷ cs) = (is_word_char c ≡ true) × Allowed cs

unfoldable pub AllAllowed : List (Compound × Word) → Type 0
AllAllowed [] = Unit
AllAllowed ((o, w) ∷ l) = Allowed (word_text w) × AllAllowed l

Allowed-valid : (cs : Str) → Allowed cs → is_valid_word cs ≡ true
unfolding Allowed is_valid_word
Allowed-valid [] h = refl
Allowed-valid (c ∷ []) h = h.0
Allowed-valid (c ∷ (d ∷ cs)) h = rw (h.0, Allowed-valid cs h.1.1) refl

kind-ne : (c d : ℕ) (k : Kind) → kind c ≡ k → kind d ≢ k → (c == d) ≡ false
kind-ne c d k e ne = ==-eq_false c d (λ same. ne (rw same at e))

no_angle : (c : ℕ) → (kind c ≡ other) ⊎ (kind c ≡ blank) → ((c == 62) ≡ false) × ((c == 60) ≡ false)
unfolding kind
no_angle c (inl e) = let (n1, n2, n3, n4, n5, n6, n7) = own_cases c e in (n5, n4)
no_angle c (inr e) = (
  kind-ne c 62 blank e (λ z. absurd (ground (arith, z))),
  kind-ne c 60 blank e (λ z. absurd (ground (arith, z))),
)

InWord-no_redirection : (cs : Str) → InWord cs → has_redirection cs ≡ false
unfolding InWord has_redirection
InWord-no_redirection [] h = refl
InWord-no_redirection (c ∷ cs) h =
    let (a, b) = no_angle c h.0 in rw (a, b, InWord-no_redirection cs h.1) refl

-- What the checks find of a word.
word_checks :
    (c : ℕ) (cs : Str)
    → kind c ≡ other
    → (begins_with 40 (c ∷ cs) ≡ false)
      × (begins_with 41 (c ∷ cs) ≡ false)
      × (bad_after_semicolon (c ∷ cs) ≡ false)
      × (bad_after_operator (c ∷ cs) ≡ false)
      × ((before : Option Raw) (line_num : ℕ) (ts : List Raw)
          → check_token before (record { word = c ∷ cs; line_num = line_num }) ts ≡ none)
unfolding begins_with bad_after_semicolon bad_after_operator check_token str_eq
word_checks c cs e =
    let (n1, n2, n3, n4, n5, n6, n7) = own_cases c e in
    rw (n1, n2, n3, n4, n5, n6, n7) (refl, refl, refl, refl, λ before line_num ts. refl)

operator_accepted :
    (o : Compound)
    → (is_operator (text o) ≡ true)
      × (begins_with 40 (text o) ≡ false)
      × (begins_with 41 (text o) ≡ false)
unfolding is_operator begins_with str_eq
operator_accepted sequence_command = (refl, refl, refl)
operator_accepted and_command = (refl, refl, refl)
operator_accepted or_command = (refl, refl, refl)
operator_accepted pipe_command = (refl, refl, refl)

operator_checks :
    (o : Compound) (line_num : ℕ) (w v : Word) (ts : List Raw)
    → check_token
        (some (record { word = word_text w; line_num = line_num }))
        (record { word = text o; line_num = line_num })
        (record { word = word_text v; line_num = line_num } ∷ ts)
      ≡ none
unfolding check_token check_separator check_before first_error str_eq InWord
operator_checks o line_num w v ts =
    let (a, b, after_semicolon, after_operator, e) = word_checks v.first v.others v.begins in
    let plain = InWord-no_redirection (word_text w) (inl w.begins, w.continues) in
    by_operator o plain after_semicolon after_operator
  where
    by_operator :
        (o : Compound)
        → has_redirection (word_text w) ≡ false
        → bad_after_semicolon (word_text v) ≡ false
        → bad_after_operator (word_text v) ≡ false
        → check_token
            (some (record { word = word_text w; line_num = line_num }))
            (record { word = text o; line_num = line_num })
            (record { word = word_text v; line_num = line_num } ∷ ts)
          ≡ none
    by_operator sequence_command p s a = rw (s, p) refl
    by_operator and_command p s a = rw a refl
    by_operator or_command p s a = rw a refl
    by_operator pipe_command p s a = rw a refl

module _ (sub : Str → (line_num : ℕ) → Verdict) (count line_num : ℕ) where
  -- A round that finds no error and leaves the loop as it is.
  validate_step :
      (before : Option Raw) (t : Raw) (ts : List Raw)
      → validate_round sub count false before t ts
        ≡ record { verdict = valid; in_subshell = false; skip = false }
      → validate_from sub count false false before (t ∷ ts)
        ≡ validate_from sub count false false (some t) ts
  unfolding validate_from and_then
  validate_step before t ts e = rw e refl

  round_word :
      (before : Option Raw) (w : Word) (ts : List Raw)
      → Allowed (word_text w)
      → validate_round sub count false before
          (record { word = word_text w; line_num = line_num })
          ts
        ≡ record { verdict = valid; in_subshell = false; skip = false }
  unfolding validate_round verdict_of
  round_word before w ts h =
      let (no_operator, no_redirection) = word_no_operator w.first w.others w.begins in
      let (opens, closes, s, o, checks) = word_checks w.first w.others w.begins in
      rw (no_operator, Allowed-valid (word_text w) h, opens, closes, checks before line_num ts) refl

  round_operator :
      (w v : Word) (o : Compound) (ts : List Raw)
      → validate_round sub count false
          (some (record { word = word_text w; line_num = line_num }))
          (record { word = text o; line_num = line_num })
          (record { word = word_text v; line_num = line_num } ∷ ts)
        ≡ record { verdict = valid; in_subshell = false; skip = false }
  unfolding validate_round verdict_of
  round_operator w v o ts =
      let (operator, opens, closes) = operator_accepted o in
      rw (operator, opens, closes, operator_checks o line_num w v ts) refl

  validate_script :
      (before : Option Raw) (w : Word) (l : List (Compound × Word))
      → Allowed (word_text w)
      → AllAllowed l
      → validate_from sub count false false before
          (record { word = word_text w; line_num = line_num } ∷ raw_rest line_num (as_operators l))
        ≡ valid
  unfolding validate_from raw_rest as_operators AllAllowed
  validate_script before w [] h all =
      validate_step before (record { word = word_text w; line_num = line_num }) []
        (round_word before w [] h)
  validate_script before w ((o, v) ∷ l) h all =
      let a : Raw = record { word = word_text w; line_num = line_num } in
      let op : Raw = record { word = text o; line_num = line_num } in
      let b : Raw = record { word = word_text v; line_num = line_num } in
      let rest = raw_rest line_num (as_operators l) in
      validate_step before a (op ∷ b ∷ rest) (round_word before w (op ∷ b ∷ rest) h)
      ∙ validate_step (some a) op (b ∷ rest) (round_operator w v o rest)
      ∙ validate_script (some op) v l all.0 all.1

-- `validate` accepts each script on one line of at most 64 words of allowed characters with `;`, `|`, `||`
-- and `&&` between them: it reports no syntax error.
pub validate-print_script :
    (depth line_num : ℕ) (w : Word) (l : List (Compound × Word))
    → Allowed (word_text w)
    → AllAllowed l
    → 2 * length l + 1 < 128
    → on_tokens overrun (validate (suc depth)) (tokenize (print_script w (as_operators l)) line_num)
      ≡ valid
unfolding validate on_tokens
validate-print_script depth line_num w l h all few =
    rw (tokenize-print_script line_num w (as_operators l) (few_operators l few), validate)
      (validate_script (λ v n. on_tokens overrun (validate depth) (tokenize v n)) _ line_num none w
        l h all)
