-- ===== src/Shell/Execute/Semantics.antt =====
-- The meaning of commands as a relation, and `execute_command` of project1/execute-command.c against it.
use cs111_operating_system.Prelude.{
  ℕ, ◌%◌, ◌≡◌, ◌≢◌, refl, arith, true, false, Bool-cases, inl, inr, List, if◌then◌else◌, ◌==◌,
}
use cs111_operating_system.Shell.Command.{
  Str, Fields, Command, Compound, and_command, sequence_command, or_command, pipe_command,
  compound_command, simple_command, subshell_command,
}
use cs111_operating_system.Shell.Execute.{
  Process, Ends, Os, Result, returned, exited, Redirected, redirected, failed, command_status,
  is_exec, rest, redirect, run_program, exe_exec_command, exe_simple_command, take_status,
  exe_and_command, exe_or_command, exe_sequence_command, child, exe_pipe_command, leave_subshell,
  exe_subshell_command, execute_command,
}

-- How a command comes out: it is done with a status, or the process that ran it has ended with one.
pub data Outcome (W : Type 0) : Type 0 where
  done : ℕ → Process W → Outcome W
  gone : ℕ → W → Outcome W

unfoldable pub observe : {W : Type 0} → Result W → Outcome W
observe (returned c p) = done (command_status c) p
observe (exited s w) = gone s w

-- What a child leaves that runs a command with this outcome.
pub child_end : {W : Type 0} → Outcome W → ℕ × W
child_end (done s p) = (s % 256, p.world)
child_end (gone s w) = (s % 256, w)

module _ {W : Type 0} (os : Os W) where
  -- The meaning of a command. An and-list runs its second command if the first one has status 0, an
  -- or-list if it has another, a sequence always, and the last one that ran gives the status. The sides
  -- of a pipe run in children of their own, so neither ends the shell.
  pub data Runs : Command → Process W → Outcome W → Type 0 where
    no_file :
        {f : Fields} {ws : List Str} {p : Process W} {w : W}
        → redirect os f p ≡ failed w
        → Runs (simple_command f ws) p (gone 1 w)
    program :
        {f : Fields} {ws : List Str} {p q : Process W}
        → redirect os f p ≡ redirected q
        → is_exec ws ≡ false
        → Runs
            (simple_command f ws)
            p
            (done (run_program os ws q).0 (record p { world = (run_program os ws q).1 }))
    replaced :
        {f : Fields} {ws : List Str} {p q : Process W}
        → redirect os f p ≡ redirected q
        → is_exec ws ≡ true
        → Runs
            (simple_command f ws)
            p
            (gone (run_program os (rest ws) q).0 (run_program os (rest ws) q).1)
    and_stops :
        {f : Fields} {c d : Command} {p q : Process W} {s : ℕ}
        → Runs c p (done s q)
        → s ≢ 0
        → Runs (compound_command and_command f c d) p (done s q)
    and_goes_on :
        {f : Fields} {c d : Command} {p q : Process W} {o : Outcome W}
        → Runs c p (done 0 q)
        → Runs d q o
        → Runs (compound_command and_command f c d) p o
    or_stops :
        {f : Fields} {c d : Command} {p q : Process W}
        → Runs c p (done 0 q)
        → Runs (compound_command or_command f c d) p (done 0 q)
    or_goes_on :
        {f : Fields} {c d : Command} {p q : Process W} {s : ℕ} {o : Outcome W}
        → Runs c p (done s q)
        → s ≢ 0
        → Runs d q o
        → Runs (compound_command or_command f c d) p o
    sequence :
        {f : Fields} {c d : Command} {p q : Process W} {s : ℕ} {o : Outcome W}
        → Runs c p (done s q)
        → Runs d q o
        → Runs (compound_command sequence_command f c d) p o
    left_gone :
        {op : Compound} {f : Fields} {c d : Command} {p : Process W} {s : ℕ} {w : W}
        → Runs c p (gone s w)
        → op ≢ pipe_command
        → Runs (compound_command op f c d) p (gone s w)
    no_subshell :
        {f : Fields} {c : Command} {p : Process W} {w : W}
        → redirect os f p ≡ failed w
        → Runs (subshell_command f c) p (gone 1 w)
    subshell :
        {f : Fields} {c : Command} {p q q' : Process W} {s : ℕ}
        → redirect os f p ≡ redirected q
        → Runs c q (done s q')
        → Runs (subshell_command f c) p (done s (record p { world = q'.world }))
    subshell_gone :
        {f : Fields} {c : Command} {p q : Process W} {s : ℕ} {w : W}
        → redirect os f p ≡ redirected q
        → Runs c q (gone s w)
        → Runs (subshell_command f c) p (gone s w)
    pipe :
        {f : Fields} {c d : Command} {p : Process W}
        → (left right : Process W → Outcome W) → ((q : Process W) → Runs c q (left q))
        → ((q : Process W) → Runs d q (right q))
        → (e : Ends W)
        → e
          ≡ os.both
              (λ x. child_end (right (record p { stdin = (os.pipe p.world).0; world = x })))
              (λ x. child_end (left (record p { stdout = (os.pipe p.world).1; world = x })))
              (os.pipe p.world).2
        → Runs (compound_command pipe_command f c d) p (
            done
              (if e.first_back then e.second_status else e.first_status)
              (record p { world = e.world }))

  take_status-observe :
      (op : Compound) (f : Fields) (left : Command) (r : Result W)
      → observe (take_status os op f left r) ≡ observe r
  unfolding take_status observe command_status
  take_status-observe op f left (returned d p) = refl
  take_status-observe op f left (exited s w) = refl

  and_list-Runs :
      (f : Fields) (c d : Command) (p : Process W) (r : Result W) (run : Process W → Result W)
      → Runs c p (observe r)
      → ((q : Process W) → Runs d q (observe (run q)))
      → Runs (compound_command and_command f c d) p (observe (exe_and_command os f d r run))
  unfolding exe_and_command observe command_status
  and_list-Runs f c d p (exited s w) run left right =
      left_gone left (λ e. absurd (ground (arith, e)))
  and_list-Runs f c d p (returned c1 q) run left right =
      elim (Bool-cases (command_status c1 == 0)) [
        | inl ok ↦
            rw (ok, take_status-observe and_command f c1 (run q))
              (and_goes_on (rw (zero_of ok) at left) (right q))
        | inr bad ↦ rw bad (and_stops left (nonzero_of bad))
      ]
    where
      zero_of : (command_status c1 == 0) ≡ true → command_status c1 ≡ 0
      zero_of e = ground arith

      nonzero_of : (command_status c1 == 0) ≡ false → command_status c1 ≢ 0
      nonzero_of e = ground arith

  or_list-Runs :
      (f : Fields) (c d : Command) (p : Process W) (r : Result W) (run : Process W → Result W)
      → Runs c p (observe r)
      → ((q : Process W) → Runs d q (observe (run q)))
      → Runs (compound_command or_command f c d) p (observe (exe_or_command os f d r run))
  unfolding exe_or_command observe command_status
  or_list-Runs f c d p (exited s w) run left right =
      left_gone left (λ e. absurd (ground (arith, e)))
  or_list-Runs f c d p (returned c1 q) run left right = elim (Bool-cases (command_status c1 == 0)) [
    | inl ok ↦
        let ran : Runs c p (done 0 q) = rw (zero_of ok) at left in
        rw (ok, zero_of ok) (or_stops ran)
    | inr bad ↦
        rw (bad, take_status-observe or_command f c1 (run q))
          (or_goes_on left (nonzero_of bad) (right q))
  ]
    where
      zero_of : (command_status c1 == 0) ≡ true → command_status c1 ≡ 0
      zero_of e = ground arith

      nonzero_of : (command_status c1 == 0) ≡ false → command_status c1 ≢ 0
      nonzero_of e = ground arith

  sequence-Runs :
      (f : Fields) (c d : Command) (p : Process W) (r : Result W) (run : Process W → Result W)
      → Runs c p (observe r)
      → ((q : Process W) → Runs d q (observe (run q)))
      → Runs (compound_command sequence_command f c d) p (observe (exe_sequence_command os f r run))
  unfolding exe_sequence_command observe
  sequence-Runs f c d p (exited s w) run left right =
      left_gone left (λ e. absurd (ground (arith, e)))
  sequence-Runs f c d p (returned c1 q) run left right =
      rw (take_status-observe sequence_command f c1 (run q)) (sequence left (right q))

  simple-Runs :
      (f : Fields) (ws : List Str) (p : Process W)
      → Runs (simple_command f ws) p (observe (exe_simple_command os f ws p))
  unfolding exe_simple_command exe_exec_command observe command_status
  simple-Runs f ws p = split (redirect os f p) refl
    where
      split :
          (r : Redirected W)
          → redirect os f p ≡ r
          → Runs (simple_command f ws) p (
              observe (elim r [
                | failed w ↦ exited 1 w
                | redirected q ↦
                    if is_exec ws
                    then exe_exec_command os ws q
                    else let r = run_program os ws q in
                      returned
                        (simple_command (record f { status = r.0 }) ws)
                        (record p { world = r.1 })
              ]))
      split (failed w) e = no_file e
      split (redirected q) e = elim (Bool-cases (is_exec ws)) [
        | inl exec ↦ rw exec (replaced e exec)
        | inr plain ↦ rw plain (program e plain)
      ]

  subshell-Runs :
      (f : Fields) (c : Command) (p : Process W) (run : Process W → Result W)
      → ((q : Process W) → Runs c q (observe (run q)))
      → Runs (subshell_command f c) p (observe (exe_subshell_command os f run p))
  unfolding exe_subshell_command leave_subshell observe command_status
  subshell-Runs f c p run inner = split (redirect os f p) refl
    where
      leave :
          (q : Process W)
          → redirect os f p ≡ redirected q
          → (r : Result W) → Runs c q (observe r)
          → Runs (subshell_command f c) p (observe (leave_subshell os f p r))
      leave q e (returned c1 q1) ran = subshell e ran
      leave q e (exited s w) ran = subshell_gone e ran

      split :
          (r : Redirected W)
          → redirect os f p ≡ r
          → Runs (subshell_command f c) p (
              observe
                (elim r [ failed w ↦ exited 1 w | redirected q ↦ leave_subshell os f p (run q) ]))
      split (failed w) e = no_subshell e
      split (redirected q) e = leave q e (run q) (inner q)

  child-observe : (r : Result W) → child os r ≡ child_end (observe r)
  unfolding child child_end observe
  child-observe (returned c p) = refl
  child-observe (exited s w) = refl

  pipe-Runs :
      (f : Fields) (c d : Command) (p : Process W) (run_left run_right : Process W → Result W)
      → ((q : Process W) → Runs c q (observe (run_left q)))
      → ((q : Process W) → Runs d q (observe (run_right q)))
      → Runs
          (compound_command pipe_command f c d)
          p
          (observe (exe_pipe_command os f c d run_left run_right p))
  unfolding exe_pipe_command observe command_status
  pipe-Runs f c d p run_left run_right left right =
      pipe (λ q. observe (run_left q)) (λ q. observe (run_right q)) left right _ same
    where
      rd : W → Process W
      rd x = record p { stdin = (os.pipe p.world).0; world = x }

      wr : W → Process W
      wr x = record p { stdout = (os.pipe p.world).1; world = x }

      run_side : (Process W → Result W) → (W → Process W) → W → ℕ × W
      run_side run at x = child os (run (at x))

      meant_side : (Process W → Result W) → (W → Process W) → W → ℕ × W
      meant_side run at x = child_end (observe (run (at x)))

      side_end :
          (run : Process W → Result W) (at : W → Process W) → run_side run at ≡ meant_side run at
      side_end run at i x = child-observe (run (at x)) i

      same :
          os.both (run_side run_right rd) (run_side run_left wr) (os.pipe p.world).2
          ≡ os.both (meant_side run_right rd) (meant_side run_left wr) (os.pipe p.world).2
      same i = os.both (side_end run_right rd i) (side_end run_left wr i) (os.pipe p.world).2

  -- `execute_command` gives every command the outcome that the relation `Runs` gives it: the statuses
  -- of lists, pipes and subshells are as that says, and the process ends where that says so.
  pub execute_command-Runs :
      (c : Command) (p : Process W) → Runs c p (observe (execute_command os c p))
  unfolding execute_command
  execute_command-Runs (simple_command f ws) p = simple-Runs f ws p
  execute_command-Runs (compound_command and_command f c d) p =
      and_list-Runs f c d p _ _ (execute_command-Runs c p) (λ q. execute_command-Runs d q)
  execute_command-Runs (compound_command or_command f c d) p =
      or_list-Runs f c d p _ _ (execute_command-Runs c p) (λ q. execute_command-Runs d q)
  execute_command-Runs (compound_command sequence_command f c d) p =
      sequence-Runs f c d p _ _ (execute_command-Runs c p) (λ q. execute_command-Runs d q)
  execute_command-Runs (compound_command pipe_command f c d) p =
      pipe-Runs f c d p _ _ (λ q. execute_command-Runs c q) (λ q. execute_command-Runs d q)
  execute_command-Runs (subshell_command f c) p =
      subshell-Runs f c p _ (λ q. execute_command-Runs c q)
