-- ===== src/Shell/Graph/Queues.antt =====
-- The graph that `create_graph` of project1/main.c builds.
use cs111_operating_system.Prelude.{
  ℕ, ◌+◌, ◌<◌, ◌≡◌, ◌≢◌, ◌⊎◌, inl, inr, refl, sym, ap, ◌∙◌, arith, true, List, [], ◌∷◌, ◌++◌,
  length, length-append, update, ℕ_discrete,
}
use mathlib.Core.List.Memᴰ
use mathlib.Core.List.Memᴰ.{Memᴰ, head, tail}
use cs111_operating_system.Shell.Command.{Command}
use cs111_operating_system.Shell.Graph.{
  GraphNode, Graph, init_graph_node, process_command, is_dependent, check_dependency, enqueue,
  add_command, add_commands, create_graph, empty_graph,
}
use cs111_operating_system.Shell.Graph.Check.{
  Checked, same_answer, check_dependency-Checked, process_command-before,
}

-- A list of nodes in which each one's earlier nodes are done, or stand before it.
unfoldable pub Queue : (done : ℕ → Type 0) (before : ℕ → List ℕ) → List ℕ → Type 0
Queue done before [] = Unit
Queue done before (i ∷ is) =
    ((j : ℕ) → Memᴰ j (before i) → done j) × Queue (λ j. done j ⊎ (j ≡ i)) before is

Queue-snoc :
    (done : ℕ → Type 0) (before : ℕ → List ℕ) (l : List ℕ) (n : ℕ)
    → Queue done before l
    → ((j : ℕ) → Memᴰ j (before n) → done j ⊎ Memᴰ j l)
    → Queue done before (l ++ (n ∷ []))
unfolding Queue
Queue-snoc done before [] n q h = (λ j m. ready j (h j m), tt)
  where
    ready : (j : ℕ) → done j ⊎ Memᴰ j [] → done j
    ready j (inl d) = d
    ready j (inr m) = elim m [ ]
Queue-snoc done before (i ∷ l) n q h =
    (q.0, Queue-snoc (λ j. done j ⊎ (j ≡ i)) before l n q.1 (λ j m. moved j (h j m)))
  where
    moved : (j : ℕ) → done j ⊎ Memᴰ j (i ∷ l) → (done j ⊎ (j ≡ i)) ⊎ Memᴰ j l
    moved j (inl d) = inl (inl d)
    moved j (inr (head e)) = inl (inr e)
    moved j (inr (tail m)) = inr m

pub Queue-mono :
    (done done' : ℕ → Type 0) (before before' : ℕ → List ℕ) (l : List ℕ)
    → ((j : ℕ) → done j → done' j)
    → ((i : ℕ) → Memᴰ i l → before' i ≡ before i)
    → Queue done before l
    → Queue done' before' l
unfolding Queue
Queue-mono done done' before before' [] f same q = tt
Queue-mono done done' before before' (i ∷ l) f same q = (
  λ j m. f j (q.0 j (rw (same i (head refl)) at m)),
  Queue-mono (λ j. done j ⊎ (j ≡ i)) (λ j. done' j ⊎ (j ≡ i)) before before' l (λ j d. map_left j d)
      (λ k m. same k (tail m)) q.1,
)
  where
    map_left : (j : ℕ) → done j ⊎ (j ≡ i) → done' j ⊎ (j ≡ i)
    map_left j (inl d) = inl (f j d)
    map_left j (inr e) = inr e

-- The graph is right: a node waits for exactly the earlier commands that it depends on, it stands in
-- one of the queues according to that, and the queue of the dependent nodes respects the order.
pub record Inv (g : Graph) : Type 0 where
  pub sound :
      (i j : ℕ)
      → i < g.count
      → Memᴰ j (g.nodes i).before
      → (j < i) × (is_dependent (g.nodes j) (g.nodes i) ≡ true)
  pub complete :
      (i j : ℕ)
      → i < g.count
      → j < i
      → is_dependent (g.nodes j) (g.nodes i) ≡ true
      → Memᴰ j (g.nodes i).before
  pub free : (i : ℕ) → Memᴰ i g.no_dependencies → (i < g.count) × ((g.nodes i).before ≡ [])
  pub bound : (i : ℕ) → Memᴰ i g.dependencies → i < g.count
  pub placed : (i : ℕ) → i < g.count → Memᴰ i g.no_dependencies ⊎ Memᴰ i g.dependencies
  pub sizes : length g.no_dependencies + length g.dependencies ≡ g.count
  pub in_order : Queue (λ j. Memᴰ j g.no_dependencies) (λ i. (g.nodes i).before) g.dependencies

-- The nodes after one more command.
module _ (g : Graph) (c : Command) (inv : Inv g) where
  abbrev based : ℕ → GraphNode
  based = update g.nodes g.count (process_command c (init_graph_node c))

  abbrev grown : ℕ → GraphNode
  grown = check_dependency based (g.count + 1)

  checked : Checked based grown g.count 0 g.count
  checked = check_dependency-Checked based g.count

  old : (i : ℕ) → i < g.count → grown i ≡ g.nodes i
  old i h = checked.others i (λ e. absurd (omega arith)) ∙ ground arith

  fresh : (based g.count).before ≡ []
  unfolding init_graph_node
  fresh =
      let at_end : based g.count ≡ process_command c (init_graph_node c) = ground arith in
      rw at_end (process_command-before c (init_graph_node c))

  new_sound :
      (j : ℕ)
      → Memᴰ j (grown g.count).before
      → (j < g.count) × (is_dependent (grown j) (grown g.count) ≡ true)
  new_sound j m = elim (checked.sound j m) [
    | inl m0 ↦ absurd (Memᴰ.not-nil (rw fresh at m0))
    | inr (lo, hi, d) ↦
        (hi, same_answer based grown g.count 0 g.count j checked (λ e. absurd (omega arith)) ∙ d)
  ]

  new_complete :
      (j : ℕ)
      → j < g.count
      → is_dependent (grown j) (grown g.count) ≡ true
      → Memᴰ j (grown g.count).before
  new_complete j h d =
      checked.complete j (omega arith) h
        (sym (same_answer based grown g.count 0 g.count j checked (λ e. absurd (omega arith))) ∙ d)

  grown_sound :
      (i j : ℕ)
      → i < g.count + 1
      → Memᴰ j (grown i).before
      → (j < i) × (is_dependent (grown j) (grown i) ≡ true)
  grown_sound i j h m = elim (ℕ_discrete i g.count) [
    | yes e ↦ rw e (new_sound j (rw e at m))
    | no ne ↦ older (omega arith) (inv.sound i j (omega arith) (rw (old i (omega arith)) at m))
  ]
    where
      older :
          i < g.count
          → (j < i) × (is_dependent (g.nodes j) (g.nodes i) ≡ true)
          → (j < i) × (is_dependent (grown j) (grown i) ≡ true)
      older hi (lt, d) = (lt, rw (old i hi, old j (omega arith)) d)

  grown_complete :
      (i j : ℕ)
      → i < g.count + 1
      → j < i
      → is_dependent (grown j) (grown i) ≡ true
      → Memᴰ j (grown i).before
  grown_complete i j h lt d = elim (ℕ_discrete i g.count) [
    | yes e ↦ rw e (new_complete j (omega arith) (rw e at d))
    | no ne ↦
        let hi : i < g.count = omega arith in
        let hj : j < g.count = omega arith in
        rw (old i hi) (inv.complete i j hi lt (rw (old i hi, old j hj) at d))
  ]

  -- The new node goes to one of the queues.
  queued : (no_deps deps : List ℕ) → Graph
  queued no_deps deps = record g {
    nodes = grown;
    count = g.count + 1;
    no_dependencies = no_deps;
    dependencies = deps;
  }

  same_before : (i : ℕ) → Memᴰ i g.dependencies → (grown i).before ≡ (g.nodes i).before
  same_before i m = ap (λ (n : GraphNode). n.before) (old i (inv.bound i m))

  older_placed :
      (i : ℕ) → i < g.count + 1 → i ≢ g.count → Memᴰ i g.no_dependencies ⊎ Memᴰ i g.dependencies
  older_placed i h ne = inv.placed i (omega arith)

  older_free : (i : ℕ) → Memᴰ i g.no_dependencies → (i < g.count + 1) × ((grown i).before ≡ [])
  older_free i m =
      let (h, e) = inv.free i m in (omega arith, ap (λ (n : GraphNode). n.before) (old i h) ∙ e)

  free-Inv :
      (grown g.count).before ≡ []
      → Inv (queued (g.no_dependencies ++ (g.count ∷ [])) g.dependencies)
  unfolding queued
  free-Inv none_before = record {
    sound = grown_sound;
    complete = grown_complete;
    free = λ i m. elim (Memᴰ.append_cases g.no_dependencies m) [
      | inl m0 ↦ older_free i m0
      | inr m1 ↦ let e : i ≡ g.count = Memᴰ.eq_of_singleton m1 in (omega arith, rw e none_before)
    ];
    bound = λ i m. let h = inv.bound i m in omega arith;
    placed = λ i h. elim (ℕ_discrete i g.count) [
      | yes e ↦ inl (Memᴰ.append_right g.no_dependencies (head e))
      | no ne ↦ elim (older_placed i h ne) [
        | inl m ↦ inl (Memᴰ.append_left (g.count ∷ []) m)
        | inr m ↦ inr m
      ]
    ];
    sizes = omega (arith, length-append g.no_dependencies (g.count ∷ []), inv.sizes);
    in_order =
        Queue-mono _ _ _ _ g.dependencies (λ j m. Memᴰ.append_left (g.count ∷ []) m) same_before
          inv.in_order;
  }

  waiting-Inv : Inv (queued g.no_dependencies (g.dependencies ++ (g.count ∷ [])))
  unfolding queued
  waiting-Inv = record {
    sound = grown_sound;
    complete = grown_complete;
    free = older_free;
    bound = λ i m. elim (Memᴰ.append_cases g.dependencies m) [
      | inl m0 ↦ let h = inv.bound i m0 in omega arith
      | inr m1 ↦ let e : i ≡ g.count = Memᴰ.eq_of_singleton m1 in omega arith
    ];
    placed = λ i h. elim (ℕ_discrete i g.count) [
      | yes e ↦ inr (Memᴰ.append_right g.dependencies (head e))
      | no ne ↦ elim (older_placed i h ne) [
        | inl m ↦ inl m
        | inr m ↦ inr (Memᴰ.append_left (g.count ∷ []) m)
      ]
    ];
    sizes = omega (arith, length-append g.dependencies (g.count ∷ []), inv.sizes);
    in_order =
        Queue-snoc _ _ g.dependencies g.count
          (Queue-mono _ _ _ _ g.dependencies (λ j m. m) same_before inv.in_order)
          (λ j m. inv.placed j (new_sound j m).0);
  }

  add_command-Inv : Inv (add_command g c)
  unfolding add_command enqueue queued
  add_command-Inv = split (grown g.count).before refl
    where
      split : (b : List ℕ) → (grown g.count).before ≡ b → Inv (enqueue g grown b)
      split [] e = free-Inv e
      split (j ∷ js) e = waiting-Inv

enqueue-count :
    (g : Graph) (nodes : ℕ → GraphNode) (b : List ℕ) → (enqueue g nodes b).count ≡ g.count + 1
unfolding enqueue
enqueue-count g nodes [] = refl
enqueue-count g nodes (j ∷ js) = refl

add_commands-Inv : (g : Graph) (cs : List Command) → Inv g → Inv (add_commands g cs)
unfolding add_commands
add_commands-Inv g [] inv = inv
add_commands-Inv g (c ∷ cs) inv = add_commands-Inv (add_command g c) cs (add_command-Inv g c inv)

add_commands-count :
    (g : Graph) (cs : List Command) → (add_commands g cs).count ≡ g.count + length cs
unfolding add_commands add_command
add_commands-count g [] = omega arith
add_commands-count g (c ∷ cs) =
    omega (arith, add_commands-count (add_command g c) cs, enqueue-count g _ _)

empty-Inv : Inv empty_graph
unfolding Queue
empty-Inv = record {
  sound = λ i j h m. absurd (omega arith);
  complete = λ i j h lt d. absurd (omega arith);
  free = λ i m. absurd (Memᴰ.not-nil m);
  bound = λ i m. absurd (Memᴰ.not-nil m);
  placed = λ i h. absurd (omega arith);
  sizes = refl;
  in_order = tt;
}

-- The graph of a script has a node for each command. Each waits for exactly the earlier commands that
-- `isDependent` names; those that wait for none are in the first queue and the others in the second,
-- each in one place; and in the second queue each one's earlier commands are in the first or come
-- before it.
pub create_graph-Inv :
    (cs : List Command) → Inv (create_graph cs) × ((create_graph cs).count ≡ length cs)
unfolding create_graph
create_graph-Inv cs =
    (add_commands-Inv empty_graph cs empty-Inv, add_commands-count empty_graph cs ∙ omega arith)
