-- ===== src/Shell/Graph.antt =====
-- project1/main.c: which commands of a script wait for which, and the order in which they start.
mod Dependent
mod Check
mod Queues
mod Order
mod Tests
use cs111_operating_system.Prelude.{
  ℕ, zero, suc, ◌+◌, ◌-◌, Bool, true, false, ◌||◌, not, Option, none, some, List, [], ◌∷◌, ◌++◌,
  update, if◌then◌else◌, ◌==◌,
}
use cs111_operating_system.Shell.Command.{
  Str, str_eq, Command, Fields, compound_command, simple_command, subshell_command,
}

-- `before` holds pointers to other nodes, here their indices; `pid` is -1, here `none`, until the
-- command is started. The lists of names have no bound here, where the source has 1024 places.
pub record GraphNode : Type 0 where
  pub command : Command
  pub before : List ℕ
  pub read_list : List Str
  pub write_list : List Str
  pub pid : Option ℕ

pub init_graph_node : Command → GraphNode
init_graph_node c = record { command = c; before = []; read_list = []; write_list = []; pid = none }

-- `item[itemNum] = ...; itemNum++`, where there is a name.
pub add_name : List Str → Option Str → List Str
add_name xs none = xs
add_name xs (some s) = xs ++ (s ∷ [])

-- Whether the first character of a word is a `-`.
pub is_option : Str → Bool
is_option [] = false
is_option (c ∷ cs) = c == 45

-- The `for` over the words of a simple command, from the second on.
pub add_arguments : List Str → List Str → List Str
add_arguments xs [] = xs
add_arguments xs (w ∷ ws) = add_arguments (if is_option w then xs else xs ++ (w ∷ [])) ws

-- The words behind the first.
pub arguments : List Str → List Str
arguments [] = []
arguments (w ∷ ws) = ws

pub process_command : Command → GraphNode → GraphNode
process_command (simple_command f ws) n = record n {
  read_list = add_arguments (add_name n.read_list f.input) (arguments ws);
  write_list = add_name n.write_list f.output;
}
process_command (subshell_command f c) n = record n {
  read_list = add_name n.read_list f.input;
  write_list = add_name n.write_list f.output;
}
process_command (compound_command op f c d) n = process_command d (process_command c n)

-- An inner `for` of `isDependent`: whether `s` is one of the names.
pub has_name : Str → List Str → Bool
has_name s [] = false
has_name s (x ∷ xs) = str_eq s x || has_name s xs

-- The first `for` of `isDependent`: reads after writes.
pub reads_after : List Str → GraphNode → Bool
reads_after [] n1 = false
reads_after (s ∷ ss) n1 = has_name s n1.write_list || reads_after ss n1

-- The second `for`: writes after reads, and writes after writes.
pub writes_after : List Str → GraphNode → Bool
writes_after [] n1 = false
writes_after (s ∷ ss) n1 =
    has_name s n1.read_list || (has_name s n1.write_list || writes_after ss n1)

pub is_dependent : GraphNode → GraphNode → Bool
is_dependent n1 n2 = reads_after n2.read_list n1 || writes_after n2.write_list n1

-- The body of the `for` of `checkDependency`; `last` is `gnCount - 1`.
pub check_one : (ℕ → GraphNode) → (last i : ℕ) → ℕ → GraphNode
check_one nodes last i =
    let n = nodes last in
    if is_dependent (nodes i) n
    then update nodes last (record n { before = n.before ++ (i ∷ []) })
    else nodes

-- The `for` from index `i` on.
pub check_from : (ℕ → GraphNode) → (last rounds i : ℕ) → ℕ → GraphNode
check_from nodes last zero i = nodes
check_from nodes last (suc f) i = check_from (check_one nodes last i) last f (i + 1)

pub check_dependency : (ℕ → GraphNode) → (count : ℕ) → ℕ → GraphNode
check_dependency nodes count = check_from nodes (count - 1) (count - 1) 0

-- The nodes of the script, in its order, and the two queues, whose nodes are named by their indices.
pub record Graph : Type 0 where
  pub nodes : ℕ → GraphNode
  pub count : ℕ
  pub no_dependencies : List ℕ
  pub dependencies : List ℕ

-- The last `if` of the `while` of `create_graph`: the node `count` goes to the queue that its list
-- `before` says.
pub enqueue : Graph → (nodes : ℕ → GraphNode) → (before : List ℕ) → Graph
enqueue g nodes [] = record g {
  nodes = nodes;
  count = g.count + 1;
  no_dependencies = g.no_dependencies ++ (g.count ∷ []);
}
enqueue g nodes (j ∷ js) = record g {
  nodes = nodes;
  count = g.count + 1;
  dependencies = g.dependencies ++ (g.count ∷ []);
}

-- One round of the `while` of `create_graph`.
pub add_command : Graph → Command → Graph
add_command g c =
    let node = process_command c (init_graph_node c) in
    let nodes = check_dependency (update g.nodes g.count node) (g.count + 1) in
    enqueue g nodes (nodes g.count).before

pub add_commands : Graph → List Command → Graph
add_commands g [] = g
add_commands g (c ∷ cs) = add_commands (add_command g c) cs

-- The graph before the first round. What stands in a node behind `count` does not matter.
abbrev pub empty_graph : Graph
empty_graph =
    let nothing : Fields = record { line = 0; status = 0; input = none; output = none } in
    record {
      nodes = λ i. init_graph_node (simple_command nothing []);
      count = 0;
      no_dependencies = [];
      dependencies = [];
    }

-- The commands are those that `read_command_stream` gives.
pub create_graph : List Command → Graph
create_graph cs = add_commands empty_graph cs

-- What the shell asks of the system: to start a child for a node, with its process number, and to wait
-- for a process, `none` being the number -1.
pub data Event : Type 0 where
  forked : (node pid : ℕ) → Event
  waited : (pid : Option ℕ) → Event

-- The nodes, and the events so far, the last one first.
pub record Run : Type 0 where
  pub nodes : ℕ → GraphNode
  pub log : List Event

-- `pid_of` gives the process number that `fork` returns for the child of a node.
module _ (pid_of : ℕ → ℕ) where
  -- `fork` as the parent sees it.
  pub start_node : Run → ℕ → Run
  start_node r i =
      let n = r.nodes i in
      record r {
        nodes = update r.nodes i (record n { pid = some (pid_of i) });
        log = forked i (pid_of i) ∷ r.log;
      }

  pub execute_no_dependencies : Run → List ℕ → Run
  execute_no_dependencies r [] = r
  execute_no_dependencies r (i ∷ is) = execute_no_dependencies (start_node r i) is

  -- The `while` with `waitpid`. The one before it goes through the list and changes nothing.
  pub wait_nodes : Run → List ℕ → Run
  wait_nodes r [] = r
  wait_nodes r (j ∷ js) = wait_nodes (record r { log = waited (r.nodes j).pid ∷ r.log }) js

  pub execute_dependencies : Run → List ℕ → Run
  execute_dependencies r [] = r
  execute_dependencies r (i ∷ is) =
      execute_dependencies (start_node (wait_nodes r (r.nodes i).before) i) is

  pub execute_graph : Graph → Run
  execute_graph g =
      execute_dependencies
        (execute_no_dependencies (record { nodes = g.nodes; log = [] }) g.no_dependencies)
        g.dependencies
