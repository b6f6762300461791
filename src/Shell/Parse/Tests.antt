-- ===== src/Shell/Parse/Tests.antt =====
-- Small token lists, and the theorems about `make_command`.
use cs111_operating_system.Prelude.{◌≡◌, refl, some, none, [], ◌∷◌}
use cs111_operating_system.Shell.Command.{
  str_eq, Command, and_command, pipe_command, sequence_command, compound_command, simple_command,
}
use cs111_operating_system.Shell.Parse.{
  oper_cmp, pops, compound_of, make_compound_command, new_fields, oper_token, output_token,
  command_token, combine, reduce, push_operator, close_subshell, set_fields, change_top, step, run,
  finish, make_command, semicolon, close_paren, bar,
}
use cs111_operating_system.Shell.Parse.Tree.{
  plain, group, command_of, operand_tokens, tokens_of, items_of, leaf, in_order, IsGrouped,
  make_command-IsGrouped,
}

abbrev a : Command
a = simple_command (new_fields 1) ((97 ∷ []) ∷ [])

abbrev b : Command
b = simple_command (new_fields 1) ((98 ∷ []) ∷ [])

-- `a ; b | a`
make_command_pipe :
    make_command 1 (
      command_token a
      ∷ oper_token semicolon
      ∷ command_token b
      ∷ oper_token bar
      ∷ command_token a
      ∷ [])
    ≡ some (
        compound_command sequence_command
          (new_fields 1)
          a
          (compound_command pipe_command (new_fields 1) b a))
unfolding make_command run step reduce push_operator pops oper_cmp finish combine
    make_compound_command compound_of str_eq
make_command_pipe = refl

-- `a > b`
make_command_output :
    make_command 1 (command_token a ∷ output_token (98 ∷ []) ∷ [])
    ≡ some (simple_command (record (new_fields 1) { output = some (98 ∷ []) }) ((97 ∷ []) ∷ []))
unfolding make_command run step change_top set_fields finish
make_command_output = refl

-- A `)` without a `(` ends the program.
make_command_close : make_command 1 (command_token a ∷ oper_token close_paren ∷ []) ≡ none
unfolding make_command run step close_subshell str_eq
make_command_close = refl

-- `a && (b) | a`
make_command-IsGrouped_example :
    (c : Command) × (make_command 1 (
        operand_tokens (plain (new_fields 1) ((97 ∷ []) ∷ [])) (
          tokens_of
            ((and_command, group b) ∷ (pipe_command, plain (new_fields 1) ((97 ∷ []) ∷ [])) ∷ [])))
      ≡ some c)
    × IsGrouped c
    × (in_order c
        ≡ leaf (command_of 1 (plain (new_fields 1) ((97 ∷ []) ∷ [])))
          ∷ items_of 1
              ((and_command, group b) ∷ (pipe_command, plain (new_fields 1) ((97 ∷ []) ∷ [])) ∷ []))
make_command-IsGrouped_example =
    make_command-IsGrouped 1 (plain (new_fields 1) ((97 ∷ []) ∷ []))
      ((and_command, group b) ∷ (pipe_command, plain (new_fields 1) ((97 ∷ []) ∷ [])) ∷ [])
