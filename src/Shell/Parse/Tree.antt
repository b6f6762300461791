-- ===== src/Shell/Parse/Tree.antt =====
-- The command that `make_command` of project1/read-command.c builds from a list of operators and
-- operands.
use cs111_operating_system.Prelude.{
  ℕ, suc, ◌<◌, ◌≤◌, ◌≡◌, refl, ◌∙◌, arith, true, false, some, List, [], ◌∷◌, ◌++◌, dec_lt,
}
use mathlib.Core.List.{append_assoc, append-nil}
use cs111_operating_system.Shell.Command.{
  Str, str_eq, Fields, Command, Compound, and_command, sequence_command, or_command, pipe_command,
  compound_command, simple_command, subshell_command,
}
use cs111_operating_system.Shell.Parse.{
  open_paren, close_paren, Token, oper_token, command_token, Stacks, pops, combine,
  make_compound_command, make_subshell_command, new_fields, reduce, push_operator, close_subshell,
  step, run, finish, make_command,
}
use cs111_operating_system.Shell.Parse.Precedence.{precedence, text, compound_of-text, pops_lem}

-- An operand of a script: a simple command, or a command in parentheses.
pub data Operand : Type 0 where
  plain : Fields → List Str → Operand
  group : Command → Operand

pub command_of : (line : ℕ) → Operand → Command
command_of line (plain f ws) = simple_command f ws
command_of line (group c) = make_subshell_command line c

-- The tokens of an operand, before other tokens.
unfoldable pub operand_tokens : Operand → List Token → List Token
operand_tokens (plain f ws) ts = command_token (simple_command f ws) ∷ ts
operand_tokens (group c) ts = oper_token open_paren ∷ command_token c ∷ oper_token close_paren ∷ ts

-- Operators, each with the operand behind it.
unfoldable pub tokens_of : List (Compound × Operand) → List Token
tokens_of [] = []
tokens_of ((o, a) ∷ l) = oper_token (text o) ∷ operand_tokens a (tokens_of l)

-- What a reader finds from left to right: operands and operators.
pub data Item : Type 0 where
  leaf : Command → Item
  op : Compound → Item

pub items_of : (line : ℕ) → List (Compound × Operand) → List Item
items_of line [] = []
items_of line ((o, a) ∷ l) = op o ∷ leaf (command_of line a) ∷ items_of line l

pub in_order : Command → List Item
in_order (compound_command o f c d) = in_order c ++ (op o ∷ in_order d)
in_order (simple_command f ws) = leaf (simple_command f ws) ∷ []
in_order (subshell_command f c) = leaf (subshell_command f c) ∷ []

-- A compound command on top binds at least as strongly as `n`.
pub Binds : ℕ → Command → Type 0
Binds n (compound_command o f c d) = n ≤ precedence o
Binds n (simple_command f ws) = Unit
Binds n (subshell_command f c) = Unit

-- The tree is as precedence and grouping to the left want it.
pub IsGrouped : Command → Type 0
IsGrouped (compound_command o f c d) =
    Binds (precedence o) c × Binds (suc (precedence o)) d × IsGrouped c × IsGrouped d
IsGrouped (simple_command f ws) = Unit
IsGrouped (subshell_command f c) = Unit

precedence_lt : (o : Compound) → precedence o < 3
precedence_lt sequence_command = omega arith
precedence_lt and_command = omega arith
precedence_lt or_command = omega arith
precedence_lt pipe_command = omega arith

module _ (line : ℕ) where
  -- The two stacks hold `xs`, with operators weaker than `n`, the strongest on top.
  data Holds : ℕ → List Str → List Command → List Item → Type 0 where
    one : {n : ℕ} {c : Command} → IsGrouped c → Binds n c → Holds n [] (c ∷ []) (in_order c)
    more :
        {n : ℕ} {os : List Str} {cs : List Command} {xs : List Item} {c : Command} (o : Compound)
        → precedence o < n
        → IsGrouped c
        → Binds n c
        → Holds (precedence o) os cs xs
        → Holds n (text o ∷ os) (c ∷ cs) (xs ++ (op o ∷ in_order c))

  Binds-mono : (m n : ℕ) (c : Command) → m ≤ n → Binds n c → Binds m c
  unfolding Binds
  Binds-mono m n (compound_command o f c d) h b = omega arith
  Binds-mono m n (simple_command f ws) h b = b
  Binds-mono m n (subshell_command f c) h b = b

  abbrev joined : Compound → Command → Command → Command
  joined o c1 c2 = compound_command o (new_fields line) c1 c2

  combine_lem :
      (o : Compound) (c1 c2 : Command) (cs : List Command)
      → combine line (text o) (c2 ∷ c1 ∷ cs) ≡ some (joined o c1 c2 ∷ cs)
  unfolding combine make_compound_command
  combine_lem o c1 c2 cs = rw (compound_of-text o) refl

  -- What `combine` leaves on the stack of commands.
  Combined :
      (o : Compound) (c2 : Command) (os : List Str) (cs : List Command) (xs : List Item) → Type 0
  Combined o c2 os cs xs =
      (cs' : List Command) × (combine line (text o) (c2 ∷ cs) ≡ some cs')
      × Holds (precedence o) os cs' (xs ++ (op o ∷ in_order c2))

  combine-Holds :
      (o : Compound) (c2 : Command) {os : List Str} {cs : List Command} {xs : List Item}
      → IsGrouped c2
      → Binds (suc (precedence o)) c2
      → Holds (precedence o) os cs xs
      → Combined o c2 os cs xs
  unfolding Combined IsGrouped Binds in_order
  combine-Holds o c2 g b (one {c = c1} g1 b1) =
      (joined o c1 c2 ∷ [], combine_lem o c1 c2 [], one (b1, b, g1, g) (omega arith))
  combine-Holds o c2 g b (more {os = os} {cs = cs} {xs = xs} {c = c1} o1 lt g1 b1 h) = (
    joined o c1 c2 ∷ cs,
    combine_lem o c1 c2 cs,
    rw (append_assoc xs (op o1 ∷ in_order c1) (op o ∷ in_order c2))
        (more {c = joined o c1 c2} o1 lt (b1, b, g1, g) (omega arith) h),
  )

  -- What the `while` at the operator `t` leaves.
  Reduced : (t : Compound) (os : List Str) (cs : List Command) (xs : List Item) → Type 0
  Reduced t os cs xs =
      (s : Stacks) × (reduce line (text t) os cs ≡ some s)
      × Holds (precedence t) s.operators s.commands xs

  reduce-Holds :
      (t : Compound) (n : ℕ) {cs : List Command} {xs : List Item} (os : List Str)
      → precedence t ≤ n
      → Holds n os cs xs
      → Reduced t os cs xs
  unfolding Reduced Combined reduce
  reduce-Holds t n [] le (one {c = c} g b) =
      (record { operators = []; commands = c ∷ [] }, refl, one g (Binds-mono _ _ c le b))
  reduce-Holds t n (_ ∷ os) le (more {cs = cs} {xs = xs} {c = c} o lt g b h) =
      elim (dec_lt (precedence o) (precedence t)) [
        | yes weaker ↦ (
          record { operators = text o ∷ os; commands = c ∷ cs },
          rw (stays weaker) refl,
          more o weaker g (Binds-mono _ _ c le b) h,
        )
        | no stronger ↦
            let (cs', e, h') = combine-Holds o c g (Binds-mono _ _ c (omega arith) b) h in
            let (s, e2, h2) = reduce-Holds t (precedence o) os (omega arith) h' in
            (s, rw (leaves stronger, e) e2, h2)
      ]
    where
      stays : precedence o < precedence t → pops (text t) (text o) ≡ false
      stays lt = pops_lem t o ∙ ground arith

      leaves : ¬ precedence o < precedence t → pops (text t) (text o) ≡ true
      leaves ge = pops_lem t o ∙ ground arith

  Finished : (os : List Str) (cs : List Command) (xs : List Item) → Type 0
  Finished os cs xs = (c : Command) × (finish line os cs ≡ some c) × IsGrouped c × (in_order c ≡ xs)

  finish_step :
      (o : Str) (os : List Str) (cs cs' : List Command)
      → combine line o cs ≡ some cs'
      → finish line (o ∷ os) cs ≡ finish line os cs'
  unfolding finish
  finish_step o os cs cs' e = rw (e, finish) refl

  finish-Holds :
      (n : ℕ) {cs : List Command} {xs : List Item} (os : List Str)
      → n ≤ 3
      → Holds n os cs xs
      → Finished os cs xs
  unfolding Finished Combined finish
  finish-Holds n [] le (one {c = c} g b) = (c, refl, g, refl)
  finish-Holds n (_ ∷ os) le (more {cs = cs} {xs = xs} {c = c} o lt g b h) =
      let (cs', e, h') = combine-Holds o c g (Binds-mono _ _ c (omega arith) b) h in
      let (t, e2, g2, same) = finish-Holds (precedence o) os (omega arith) h' in
      (t, finish_step (text o) os (c ∷ cs) cs' e ∙ e2, g2, same)

  is_operator :
      (o : Compound) → (str_eq (text o) close_paren ≡ false) × (str_eq (text o) open_paren ≡ false)
  unfolding str_eq
  is_operator sequence_command = (refl, refl)
  is_operator and_command = (refl, refl)
  is_operator or_command = (refl, refl)
  is_operator pipe_command = (refl, refl)

  run_operator :
      (o : Compound) (s r : Stacks) (ts : List Token)
      → reduce line (text o) s.operators s.commands ≡ some r
      → run line s (oper_token (text o) ∷ ts) ≡ run line (push_operator (text o) r) ts
  unfolding run step
  run_operator o s r ts e = rw ((is_operator o).0, (is_operator o).1, e, run, step) refl

  run_operand :
      (a : Operand) (s : Stacks) (ts : List Token)
      → run line s (operand_tokens a ts)
        ≡ run line (record s { commands = command_of line a ∷ s.commands }) ts
  unfolding run step operand_tokens command_of push_operator close_subshell str_eq
  run_operand (plain f ws) s ts = refl
  run_operand (group c) s ts = refl

  -- An operand as it comes to the stack.
  operand_lem :
      (a : Operand) (n : ℕ)
      → IsGrouped (command_of line a)
        × Binds n (command_of line a)
        × (in_order (command_of line a) ≡ leaf (command_of line a) ∷ [])
  unfolding IsGrouped Binds in_order command_of make_subshell_command
  operand_lem (plain f ws) n = (tt, tt, refl)
  operand_lem (group c) n = (tt, tt, refl)

  Ran : (s : Stacks) (ts : List Token) (xs : List Item) → Type 0
  Ran s ts xs = (r : Stacks) × (run line s ts ≡ some r) × Holds 3 r.operators r.commands xs

  run-Holds :
      (l : List (Compound × Operand)) (s : Stacks) (xs : List Item)
      → Holds 3 s.operators s.commands xs
      → Ran s (tokens_of l) (xs ++ items_of line l)
  unfolding Ran Reduced run tokens_of items_of push_operator
  run-Holds [] s xs h = (s, refl, rw (append-nil xs) h)
  run-Holds ((o, a) ∷ l) s xs h =
      let (r, e, h1) = reduce-Holds o 3 s.operators (omega (arith, precedence_lt o)) h in
      let (g, b, same) = operand_lem a 3 in
      let next : Stacks = record {
        operators = text o ∷ r.operators;
        commands = command_of line a ∷ r.commands;
      } in
      let h2 : Holds 3 next.operators next.commands (xs ++ (op o ∷ leaf (command_of line a) ∷ [])) =
        rw same at (more o (precedence_lt o) g b h1) in
      let (r2, e2, h3) = run-Holds l next (xs ++ (op o ∷ leaf (command_of line a) ∷ [])) h2 in
      (
        r2,
        run_operator o s r _ e ∙ run_operand a (push_operator (text o) r) (tokens_of l) ∙ e2,
        rw (← append_assoc xs (op o ∷ leaf (command_of line a) ∷ []) (items_of line l)) h3,
      )

make_command_of_run :
    (line : ℕ) (ts : List Token) (r : Stacks)
    → run line (record { operators = []; commands = [] }) ts ≡ some r
    → make_command line ts ≡ finish line r.operators r.commands
unfolding make_command
make_command_of_run line ts r e = rw (e, make_command) refl

-- From operands with operators between them `make_command` builds a command: read from left to right it
-- has the same operands and operators, and it is grouped as their precedence wants, operators of one
-- precedence to the left.
pub make_command-IsGrouped :
    (line : ℕ) (a : Operand) (l : List (Compound × Operand))
    → (c : Command) × (make_command line (operand_tokens a (tokens_of l)) ≡ some c)
      × IsGrouped c
      × (in_order c ≡ leaf (command_of line a) ∷ items_of line l)
unfolding Ran Finished
make_command-IsGrouped line a l =
    let (g, b, same) = operand_lem line a 3 in
    let s : Stacks = record { operators = []; commands = command_of line a ∷ [] } in
    let h : Holds line 3 [] (command_of line a ∷ []) (leaf (command_of line a) ∷ []) =
      let alone : Holds line 3 [] (command_of line a ∷ []) (in_order (command_of line a)) =
        one g b in
      rw same at alone in
    let (r, e, h1) = run-Holds line l s (leaf (command_of line a) ∷ []) h in
    let (c, e2, gc, items) = finish-Holds line 3 r.operators (omega arith) h1 in
    let start : Stacks = record { operators = []; commands = [] } in
    let made = make_command_of_run line _ r (run_operand line a start (tokens_of l) ∙ e) in
    (c, made ∙ e2, gc, items)
