-- ===== src/Shell/Execute.antt =====
-- project1/execute-command.c: how the shell runs a command, and the statuses it records.
mod Kept
mod Returns
mod Semantics
mod Tests
use cs111_operating_system.Prelude.{
  ℕ, ◌%◌, Bool, true, false, Option, none, some, List, [], ◌∷◌, if◌then◌else◌, ◌==◌,
}
use cs111_operating_system.Shell.Command.{
  Str, str_eq, Fields, fields, Command, Compound, and_command, sequence_command, or_command,
  pipe_command, compound_command, simple_command, subshell_command,
}

-- A process: the files behind its descriptors 0 and 1, and the system around it.
pub record Process (W : Type 0) : Type 0 where
  pub stdin : ℕ
  pub stdout : ℕ
  pub world : W

-- The ends of two children: their exit statuses, and whether the first was back before the second.
pub record Ends (W : Type 0) : Type 0 where
  pub first_status : ℕ
  pub second_status : ℕ
  pub first_back : Bool
  pub world : W

-- The calls of the system that the shell makes. `open` gives a file or fails. `execvp` gives the exit
-- status of the program and the system after it, or fails. `both` runs two children at the same time
-- in the way it likes. `dup`, `dup2` and `fork` do not fail.
pub record Os (W : Type 0) : Type 0 where
  pub open_input : Str → W → Option (ℕ × W)
  pub open_output : Str → W → Option (ℕ × W)
  pub execvp : List Str → Process W → Option (ℕ × W)
  pub pipe : W → ℕ × ℕ × W
  pub both : (W → ℕ × W) → (W → ℕ × W) → W → Ends W

-- `returned c p`: the function is back, with the statuses in `c`. `exited s w`: the process that ran it
-- has ended, or is another program now that has ended, with status `s`.
pub data Result (W : Type 0) : Type 0 where
  returned : Command → Process W → Result W
  exited : ℕ → W → Result W

pub data Redirected (W : Type 0) : Type 0 where
  redirected : Process W → Redirected W
  failed : W → Redirected W

pub command_status : Command → ℕ
command_status c = (fields c).status

-- The words `exec` and its characters.
pub is_exec : List Str → Bool
is_exec [] = false
is_exec (w ∷ ws) = str_eq w (101 ∷ 120 ∷ 101 ∷ 99 ∷ [])

pub rest : List Str → List Str
rest [] = []
rest (w ∷ ws) = ws

module _ {W : Type 0} (os : Os W) where
  pub redirect_input : Fields → Process W → Redirected W
  redirect_input f p = elim f.input [
    | none ↦ redirected p
    | some name ↦ elim (os.open_input name p.world) [
      | none ↦ failed p.world
      | some r ↦ redirected (record p { stdin = r.0; world = r.1 })
    ]
  ]

  pub redirect_output : Fields → Process W → Redirected W
  redirect_output f p = elim f.output [
    | none ↦ redirected p
    | some name ↦ elim (os.open_output name p.world) [
      | none ↦ failed p.world
      | some r ↦ redirected (record p { stdout = r.0; world = r.1 })
    ]
  ]

  pub redirect : Fields → Process W → Redirected W
  redirect f p = elim (redirect_input f p) [
    | redirected q ↦ redirect_output f q
    | failed w ↦ failed w
  ]

  -- `execvp`, with `show_error` behind it: the status that `WEXITSTATUS` gives.
  pub run_program : List Str → Process W → ℕ × W
  run_program ws p = elim (os.execvp ws p) [ none ↦ (1, p.world) | some r ↦ (r.0 % 256, r.1) ]

  pub exe_exec_command : List Str → Process W → Result W
  exe_exec_command ws p = let r = run_program (rest ws) p in exited r.0 r.1

  pub exe_simple_command : Fields → List Str → Process W → Result W
  exe_simple_command f ws p = elim (redirect f p) [
    | failed w ↦ exited 1 w
    | redirected q ↦
        if is_exec ws
        then exe_exec_command ws q
        else let r = run_program ws q in
          returned (simple_command (record f { status = r.0 }) ws) (record p { world = r.1 })
  ]

  -- `c->status = c->u.command[1]->status`, once the right command is back.
  pub take_status : Compound → Fields → Command → Result W → Result W
  take_status op f left (exited s w) = exited s w
  take_status op f left (returned right p) =
      returned (compound_command op (record f { status = command_status right }) left right) p

  -- The left command is back, or the process has ended in it; `run_right` executes the right one.
  pub exe_and_command : Fields → Command → Result W → (Process W → Result W) → Result W
  exe_and_command f d (exited s w) run_right = exited s w
  exe_and_command f d (returned left p) run_right =
      if command_status left == 0
      then take_status and_command f left (run_right p)
      else returned
          (compound_command and_command (record f { status = command_status left }) left d) p

  pub exe_or_command : Fields → Command → Result W → (Process W → Result W) → Result W
  exe_or_command f d (exited s w) run_right = exited s w
  exe_or_command f d (returned left p) run_right =
      if command_status left == 0
      then returned (compound_command or_command (record f { status = command_status left }) left d)
          p
      else take_status or_command f left (run_right p)

  pub exe_sequence_command : Fields → Result W → (Process W → Result W) → Result W
  exe_sequence_command f (exited s w) run_right = exited s w
  exe_sequence_command f (returned left p) run_right =
      take_status sequence_command f left (run_right p)

  -- A child that executes a command and ends with its status.
  pub child : Result W → ℕ × W
  child (returned c p) = (command_status c % 256, p.world)
  child (exited s w) = (s % 256, w)

  -- The first child executes the right command, the second the left one. The status is the one of the
  -- child that is back last.
  pub exe_pipe_command :
      Fields
      → (left right : Command) → (run_left run_right : Process W → Result W) → Process W
      → Result W
  exe_pipe_command f c d run_left run_right p =
      let (fd_read, fd_write, w) = os.pipe p.world in
      let ends =
        os.both (λ x. child (run_right (record p { stdin = fd_read; world = x })))
          (λ x. child (run_left (record p { stdout = fd_write; world = x }))) w in
      let st : ℕ = if ends.first_back then ends.second_status else ends.first_status in
      returned (compound_command pipe_command (record f { status = st }) c d)
        (record p { world = ends.world })

  -- The inner command is back, in a shell whose descriptors are those of `p` again.
  pub leave_subshell : Fields → Process W → Result W → Result W
  leave_subshell f p (exited s w) = exited s w
  leave_subshell f p (returned c q) =
      returned (subshell_command (record f { status = command_status c }) c)
        (record p { world = q.world })

  pub exe_subshell_command : Fields → (Process W → Result W) → Process W → Result W
  exe_subshell_command f run_inner p = elim (redirect f p) [
    | failed w ↦ exited 1 w
    | redirected q ↦ leave_subshell f p (run_inner q)
  ]

  pub execute_command : Command → Process W → Result W
  execute_command (simple_command f ws) p = exe_simple_command f ws p
  execute_command (compound_command and_command f c d) p =
      exe_and_command f d (execute_command c p) (λ q. execute_command d q)
  execute_command (compound_command or_command f c d) p =
      exe_or_command f d (execute_command c p) (λ q. execute_command d q)
  execute_command (compound_command sequence_command f c d) p =
      exe_sequence_command f (execute_command c p) (λ q. execute_command d q)
  execute_command (compound_command pipe_command f c d) p =
      exe_pipe_command f c d (λ q. execute_command c q) (λ q. execute_command d q) p
  execute_command (subshell_command f c) p = exe_subshell_command f (λ q. execute_command c q) p
