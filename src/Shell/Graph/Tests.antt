-- ===== src/Shell/Graph/Tests.antt =====
-- The graph of a small script, and the theorems about it.
use cs111_operating_system.Prelude.{
  ℕ, ◌+◌, ◌<◌, ◌≡◌, ◌↔◌, refl, true, false, some, none, List, [], ◌∷◌, length,
}
use mathlib.Core.List.Memᴰ.{Memᴰ}
use cs111_operating_system.Shell.Command.{str_eq, Fields, Command, simple_command, subshell_command}
use cs111_operating_system.Shell.Graph.{
  GraphNode, init_graph_node, add_name, is_option, add_arguments, arguments, process_command,
  has_name, reads_after, writes_after, is_dependent, check_one, check_from, check_dependency,
  enqueue, add_command, add_commands, create_graph, forked, waited, start_node,
  execute_no_dependencies, wait_nodes, execute_dependencies, execute_graph,
}
use cs111_operating_system.Shell.Graph.Dependent.{Conflict, is_dependent_lem, subshell_independent}
use cs111_operating_system.Shell.Graph.Queues.{Inv, create_graph-Inv}
use cs111_operating_system.Shell.Graph.Order.{Ordered, forks, execute_graph-Ordered}

abbrev plain : Fields
plain = record { line = 1; status = 0; input = none; output = none }

-- `cat a > b`, `cat c` and `cat b`
abbrev script : List Command
script =
    simple_command (record plain { output = some (98 ∷ []) }) ((99 ∷ []) ∷ (97 ∷ []) ∷ [])
    ∷ simple_command plain ((99 ∷ []) ∷ (99 ∷ []) ∷ [])
    ∷ simple_command plain ((99 ∷ []) ∷ (98 ∷ []) ∷ [])
    ∷ []

abbrev node_of : Command → GraphNode
node_of c = process_command c (init_graph_node c)

script_runs :
    (execute_graph (λ i. i + 100) (create_graph script)).log
    ≡ forked 2 102 ∷ waited (some 100) ∷ forked 1 101 ∷ forked 0 100 ∷ []
unfolding execute_graph create_graph add_commands add_command enqueue check_dependency check_from
    check_one process_command init_graph_node add_name add_arguments arguments is_option has_name
    reads_after writes_after is_dependent start_node wait_nodes execute_no_dependencies
    execute_dependencies str_eq
script_runs = refl

abbrev writer : GraphNode
writer = node_of (simple_command (record plain { output = some (98 ∷ []) }) ((99 ∷ []) ∷ []))

abbrev reader : GraphNode
reader = node_of (simple_command plain ((99 ∷ []) ∷ (98 ∷ []) ∷ []))

is_dependent_lem_example : (is_dependent writer reader ≡ true) ↔ Conflict writer reader
is_dependent_lem_example = is_dependent_lem writer reader

-- `cat a > b` and then `(cat b)`
subshell_independent_example :
    is_dependent writer
      (node_of (subshell_command plain (simple_command plain ((99 ∷ []) ∷ (98 ∷ []) ∷ []))))
    ≡ false
subshell_independent_example =
    subshell_independent writer plain (simple_command plain ((99 ∷ []) ∷ (98 ∷ []) ∷ [])) refl refl

create_graph-Inv_example : Inv (create_graph script) × ((create_graph script).count ≡ 3)
create_graph-Inv_example = create_graph-Inv script

execute_graph-Ordered_example :
    Ordered
      (λ i. i + 100)
      (λ i. ((create_graph script).nodes i).before)
      (execute_graph (λ i. i + 100) (create_graph script)).log
    × ((i : ℕ)
        → i < length script
        → Memᴰ (forked i (i + 100)) (execute_graph (λ i. i + 100) (create_graph script)).log)
    × (forks (execute_graph (λ i. i + 100) (create_graph script)).log ≡ length script)
execute_graph-Ordered_example = execute_graph-Ordered (λ i. i + 100) script
