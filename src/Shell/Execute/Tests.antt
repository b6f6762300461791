-- ===== src/Shell/Execute/Tests.antt =====
-- Runs of `execute_command` on a small system, and the theorems about it.
use cs111_operating_system.Prelude.{ℕ, ◌+◌, ◌≡◌, refl, true, some, none, [], ◌∷◌}
use cs111_operating_system.Shell.Command.{
  str_eq, Fields, Command, and_command, or_command, compound_command, simple_command,
}
use cs111_operating_system.Shell.Execute.{
  Process, Os, command_status, is_exec, redirect_input, redirect_output, redirect, run_program,
  exe_simple_command, take_status, exe_and_command, exe_or_command, execute_command,
}
use cs111_operating_system.Shell.Execute.Kept.{Kept, execute_command-Kept}
use cs111_operating_system.Shell.Execute.Returns.{Returns}
use cs111_operating_system.Shell.Execute.Semantics.{done, Runs, observe, execute_command-Runs}

-- A system that counts the programs that ran. A program's status is the first character of its name;
-- there are no files to read; the second child of a pipe is back last.
abbrev counting : Os ℕ
counting = record {
  open_input = λ name w. none;
  open_output = λ name w. some (7, w);
  execvp = λ ws p. elim ws [
    | [] ↦ none
    | n ∷ ns ↦ elim n [ [] ↦ none | c ∷ cs ↦ some (c, p.world + 1) ]
  ];
  pipe = λ w. (5, 6, w);
  both = λ first second w.
      let a = first w in
      let b = second a.1 in
      record { first_status = a.0; second_status = b.0; first_back = true; world = b.1 };
}

abbrev plain : Fields
plain = record { line = 1; status = 0; input = none; output = none }

abbrev program : ℕ → Command
program s = simple_command plain ((s ∷ []) ∷ [])

abbrev shell : Process ℕ
shell = record { stdin = 0; stdout = 1; world = 0 }

-- `0 && 3 || 4`
abbrev chain : Command
chain =
    compound_command or_command plain (compound_command and_command plain (program 0) (program 3))
      (program 4)

-- Three programs run, and the last one gives the status.
chain_runs : observe (execute_command counting chain shell) ≡ done 4 (record shell { world = 3 })
unfolding execute_command exe_simple_command exe_and_command exe_or_command take_status redirect
    redirect_input redirect_output run_program is_exec str_eq observe command_status
chain_runs = refl

execute_command-Kept_example : Kept chain shell (execute_command counting chain shell)
execute_command-Kept_example = execute_command-Kept counting chain shell

execute_command-Runs_example :
    Runs counting chain shell (observe (execute_command counting chain shell))
execute_command-Runs_example = execute_command-Runs counting chain shell
