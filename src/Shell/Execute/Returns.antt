-- ===== src/Shell/Execute/Returns.antt =====
-- Which commands of project1/execute-command.c leave the shell running.
use cs111_operating_system.Prelude.{◌≡◌, false, none}
use cs111_operating_system.Shell.Command.{
  Fields, Command, and_command, sequence_command, or_command, pipe_command, compound_command,
  simple_command, subshell_command,
}
use cs111_operating_system.Shell.Execute.{Process, Result, returned, is_exec}

abbrev pub Unredirected : Fields → Type 0
Unredirected f = (f.input ≡ none) × (f.output ≡ none)

-- No command outside the pipes is `exec` or has a redirection.
unfoldable pub Plain : Command → Type 0
Plain (simple_command f ws) = Unredirected f × (is_exec ws ≡ false)
Plain (subshell_command f c) = Unredirected f × Plain c
Plain (compound_command and_command f c d) = Plain c × Plain d
Plain (compound_command or_command f c d) = Plain c × Plain d
Plain (compound_command sequence_command f c d) = Plain c × Plain d
Plain (compound_command pipe_command f c d) = Unit

-- The function that executes the command comes back.
pub data Returns {W : Type 0} : Result W → Type 0 where
  back : {c : Command} {p : Process W} → Returns (returned c p)
