-- ===== src/Shell/Parse/Precedence.antt =====
-- The precedence of the operators, and `oper_cmp` of project1/read-command.c against it.
use cs111_operating_system.Prelude.{ℕ, ◌≡◌, refl, leb}
use cs111_operating_system.Shell.Command.{
  Str, str_eq, Compound, and_command, sequence_command, or_command, pipe_command,
}
use cs111_operating_system.Shell.Parse.{semicolon, and_and, or_or, bar, oper_cmp, pops, compound_of}

-- How strongly the operator of a compound command binds: pipes most, sequences least.
abbrev pub precedence : Compound → ℕ
precedence sequence_command = 0
precedence and_command = 1
precedence or_command = 1
precedence pipe_command = 2

-- The operator as it stands in a script.
abbrev pub text : Compound → Str
text sequence_command = semicolon
text and_command = and_and
text or_command = or_or
text pipe_command = bar

pub compound_of-text : (o : Compound) → compound_of (text o) ≡ o
unfolding compound_of str_eq
compound_of-text sequence_command = refl
compound_of-text and_command = refl
compound_of-text or_command = refl
compound_of-text pipe_command = refl

-- An operator on the stack makes room for the next operator of the script exactly if it binds at least
-- as strongly.
pub pops_lem : (t o : Compound) → pops (text t) (text o) ≡ leb (precedence t) (precedence o)
unfolding pops oper_cmp str_eq
pops_lem sequence_command sequence_command = refl
pops_lem sequence_command and_command = refl
pops_lem sequence_command or_command = refl
pops_lem sequence_command pipe_command = refl
pops_lem and_command sequence_command = refl
pops_lem and_command and_command = refl
pops_lem and_command or_command = refl
pops_lem and_command pipe_command = refl
pops_lem or_command sequence_command = refl
pops_lem or_command and_command = refl
pops_lem or_command or_command = refl
pops_lem or_command pipe_command = refl
pops_lem pipe_command sequence_command = refl
pops_lem pipe_command and_command = refl
pops_lem pipe_command or_command = refl
pops_lem pipe_command pipe_command = refl
