-- ===== src/Shell/Execute/Kept.antt =====
-- What every execution of a command leaves as it was.
use cs111_operating_system.Prelude.{ℕ, ◌≡◌, refl, ◌∙◌, List, if◌then◌else◌, ◌==◌, if-both}
use cs111_operating_system.Shell.Command.{
  Str, Fields, Command, Compound, and_command, sequence_command, or_command, pipe_command,
  compound_command, simple_command, subshell_command,
}
use cs111_operating_system.Shell.Execute.{
  Process, Os, Result, returned, exited, Redirected, redirected, failed, command_status, is_exec,
  redirect, run_program, exe_exec_command, exe_simple_command, take_status, exe_and_command,
  exe_or_command, exe_sequence_command, exe_pipe_command, leave_subshell, exe_subshell_command,
  execute_command,
}

-- A command without its statuses.
pub erase : Command → Command
erase (simple_command f ws) = simple_command (record f { status = 0 }) ws
erase (subshell_command f c) = subshell_command (record f { status = 0 }) (erase c)
erase (compound_command op f c d) =
    compound_command op (record f { status = 0 }) (erase c) (erase d)

-- Where the function is back: the descriptors 0 and 1 are as before, and nothing of the command has
-- changed but its statuses.
pub data Kept {W : Type 0} (c : Command) (p : Process W) : Result W → Type 0 where
  back :
      {c' : Command} {p' : Process W}
      → p'.stdin ≡ p.stdin
      → p'.stdout ≡ p.stdout
      → erase c' ≡ erase c
      → Kept c p (returned c' p')
  ended : {s : ℕ} {w : W} → Kept c p (exited s w)

module _ {W : Type 0} (os : Os W) where
  take_status-Kept :
      (op : Compound) (f : Fields) (c left d : Command) (p q : Process W) (r : Result W)
      → q.stdin ≡ p.stdin
      → q.stdout ≡ p.stdout
      → erase left ≡ erase c
      → Kept d q r
      → Kept (compound_command op f c d) p (take_status os op f left r)
  unfolding take_status erase
  take_status-Kept op f c left d p q r i o e (back {c' = right} {p' = q'} i2 o2 e2) =
      back (i2 ∙ i) (o2 ∙ o) (rw (e, e2) refl)
  take_status-Kept op f c left d p q r i o e ended = ended

  and-Kept :
      (f : Fields) (c d : Command) (p : Process W) (r : Result W) (run : Process W → Result W)
      → Kept c p r
      → ((q : Process W) → Kept d q (run q))
      → Kept (compound_command and_command f c d) p (exe_and_command os f d r run)
  unfolding exe_and_command erase
  and-Kept f c d p r run (back {c' = left} {p' = q} i o e) right =
      if-both (Kept (compound_command and_command f c d) p) (command_status left == 0) _ _
        (λ _. take_status-Kept and_command f c left d p q (run q) i o e (right q))
        (λ _. back i o (rw e refl))
  and-Kept f c d p r run ended right = ended

  or-Kept :
      (f : Fields) (c d : Command) (p : Process W) (r : Result W) (run : Process W → Result W)
      → Kept c p r
      → ((q : Process W) → Kept d q (run q))
      → Kept (compound_command or_command f c d) p (exe_or_command os f d r run)
  unfolding exe_or_command erase
  or-Kept f c d p r run (back {c' = left} {p' = q} i o e) right =
      if-both (Kept (compound_command or_command f c d) p) (command_status left == 0) _ _
        (λ _. back i o (rw e refl))
        (λ _. take_status-Kept or_command f c left d p q (run q) i o e (right q))
  or-Kept f c d p r run ended right = ended

  sequence-Kept :
      (f : Fields) (c d : Command) (p : Process W) (r : Result W) (run : Process W → Result W)
      → Kept c p r
      → ((q : Process W) → Kept d q (run q))
      → Kept (compound_command sequence_command f c d) p (exe_sequence_command os f r run)
  unfolding exe_sequence_command
  sequence-Kept f c d p r run (back {c' = left} {p' = q} i o e) right =
      take_status-Kept sequence_command f c left d p q (run q) i o e (right q)
  sequence-Kept f c d p r run ended right = ended

  simple-Kept :
      (f : Fields) (ws : List Str) (p : Process W)
      → Kept (simple_command f ws) p (exe_simple_command os f ws p)
  unfolding exe_simple_command exe_exec_command erase
  simple-Kept f ws p = split (redirect os f p)
    where
      split :
          (r : Redirected W)
          → Kept (simple_command f ws) p (elim r [
            | failed w ↦ exited 1 w
            | redirected q ↦
                if is_exec ws
                then exe_exec_command os ws q
                else let r = run_program os ws q in
                  returned
                    (simple_command (record f { status = r.0 }) ws)
                    (record p { world = r.1 })
          ])
      split (failed w) = ended
      split (redirected q) =
          if-both (Kept (simple_command f ws) p) (is_exec ws) _ _ (λ _. ended)
            (λ _. back refl refl refl)

  subshell-Kept :
      (f : Fields) (c : Command) (p : Process W) (run : Process W → Result W)
      → ((q : Process W) → Kept c q (run q))
      → Kept (subshell_command f c) p (exe_subshell_command os f run p)
  unfolding exe_subshell_command leave_subshell erase
  subshell-Kept f c p run inner = split (redirect os f p)
    where
      leave :
          (q : Process W) (r : Result W)
          → Kept c q r
          → Kept (subshell_command f c) p (leave_subshell os f p r)
      leave q r (back i o e) = back refl refl (rw e refl)
      leave q r ended = ended

      split :
          (r : Redirected W)
          → Kept
              (subshell_command f c)
              p
              (elim r [ failed w ↦ exited 1 w | redirected q ↦ leave_subshell os f p (run q) ])
      split (failed w) = ended
      split (redirected q) = leave q (run q) (inner q)

  -- However a command runs: where `execute_command` is back, the standard input and output of the shell
  -- are what they were before, and the command has changed in its statuses only.
  pub execute_command-Kept : (c : Command) (p : Process W) → Kept c p (execute_command os c p)
  unfolding execute_command exe_pipe_command erase
  execute_command-Kept (simple_command f ws) p = simple-Kept f ws p
  execute_command-Kept (compound_command and_command f c d) p =
      and-Kept f c d p _ _ (execute_command-Kept c p) (λ q. execute_command-Kept d q)
  execute_command-Kept (compound_command or_command f c d) p =
      or-Kept f c d p _ _ (execute_command-Kept c p) (λ q. execute_command-Kept d q)
  execute_command-Kept (compound_command sequence_command f c d) p =
      sequence-Kept f c d p _ _ (execute_command-Kept c p) (λ q. execute_command-Kept d q)
  execute_command-Kept (compound_command pipe_command f c d) p = back refl refl refl
  execute_command-Kept (subshell_command f c) p =
      subshell-Kept f c p _ (λ q. execute_command-Kept c q)
