-- ===== src/Shell/Graph/Order.antt =====
-- The order in which `execute_graph` of project1/main.c starts the commands and waits for them.
use cs111_operating_system.Prelude.{
  ℕ, suc, ◌+◌, ◌<◌, ◌≡◌, ◌⊎◌, inl, inr, refl, sym, ap, arith, List, [], ◌∷◌, length, some,
}
use mathlib.Core.List.Memᴰ
use mathlib.Core.List.Memᴰ.{Memᴰ, head, tail}
use cs111_operating_system.Shell.Command.{Command}
use cs111_operating_system.Shell.Graph.{
  Graph, create_graph, Event, forked, waited, Run, start_node, execute_no_dependencies, wait_nodes,
  execute_dependencies, execute_graph,
}
use cs111_operating_system.Shell.Graph.Queues.{Queue, Inv, create_graph-Inv}

-- How many commands have been started.
pub forks : List Event → ℕ
forks [] = 0
forks (forked i p ∷ es) = suc (forks es)
forks (waited p ∷ es) = forks es

module _ (pid_of : ℕ → ℕ) (before : ℕ → List ℕ) where
  -- In these events, the last one first, a command starts only after each of the commands that it waits
  -- for has been started and waited for, and only started processes are waited for.
  pub Ordered : List Event → Type 0
  Ordered [] = Unit
  Ordered (forked i p ∷ es) =
      ((j : ℕ)
        → Memᴰ j (before i)
        → Memᴰ (waited (some (pid_of j))) es × Memᴰ (forked j (pid_of j)) es)
      × Ordered es
  Ordered (waited p ∷ es) =
      ((j : ℕ) × (p ≡ some (pid_of j)) × Memᴰ (forked j (pid_of j)) es) × Ordered es

  abbrev Done : Run → ℕ → Type 0
  Done r j = ((r.nodes j).pid ≡ some (pid_of j)) × Memᴰ (forked j (pid_of j)) r.log

  record Good (r : Run) : Type 0 where
    ordered : Ordered r.log
    same : (i : ℕ) → (r.nodes i).before ≡ before i

  -- The nodes of `l` have been started on the way from `r` to `r'`.
  record Went (r r' : Run) (l : List ℕ) : Type 0 where
    good : Good r'
    still : (j : ℕ) → Done r j → Done r' j
    all_done : (i : ℕ) → Memᴰ i l → Done r' i
    started : forks r'.log ≡ forks r.log + length l

  start_node-Went :
      (r : Run) (i : ℕ)
      → Good r
      → ((j : ℕ)
          → Memᴰ j (before i)
          → Memᴰ (waited (some (pid_of j))) r.log × Memᴰ (forked j (pid_of j)) r.log)
      → Went r (start_node pid_of r i) (i ∷ [])
  unfolding start_node Ordered forks
  start_node-Went r i g ready = record {
    good = record { ordered = (ready, g.ordered); same = λ j. ground (arith, g.same j, g.same i) };
    still = λ j d. (ground (arith, d.0), tail d.1);
    all_done = λ j m. here j (Memᴰ.eq_of_singleton m);
    started = omega arith;
  }
    where
      here : (j : ℕ) → j ≡ i → Done (start_node pid_of r i) j
      here j e = rw e (ground arith, head refl)

  Went-refl : (r : Run) → Good r → Went r r []
  Went-refl r g = record {
    good = g;
    still = λ j d. d;
    all_done = λ i m. absurd (Memᴰ.not-nil m);
    started = omega arith;
  }

  Went-cons :
      (r r1 r2 : Run) (i : ℕ) (l : List ℕ) → Went r r1 (i ∷ []) → Went r1 r2 l → Went r r2 (i ∷ l)
  Went-cons r r1 r2 i l a b = record {
    good = b.good;
    still = λ j d. b.still j (a.still j d);
    all_done = λ j m. elim (Memᴰ.cases_cons m) [
      | inl e ↦ b.still j (a.all_done j (head e))
      | inr m1 ↦ b.all_done j m1
    ];
    started = omega (arith, a.started, b.started);
  }

  execute_no_dependencies-Went :
      (r : Run) (l : List ℕ)
      → Good r
      → ((i : ℕ) → Memᴰ i l → before i ≡ [])
      → Went r (execute_no_dependencies pid_of r l) l
  unfolding execute_no_dependencies
  execute_no_dependencies-Went r [] g free = Went-refl r g
  execute_no_dependencies-Went r (i ∷ l) g free =
      let first =
        start_node-Went r i g (λ j m. absurd (Memᴰ.not-nil (rw (free i (head refl)) at m))) in
      Went-cons r (start_node pid_of r i) _ i l first
        (execute_no_dependencies-Went (start_node pid_of r i) l first.good (λ k m. free k (tail m)))

  -- What the `while` with `waitpid` leaves behind.
  record Waited (r r' : Run) (js : List ℕ) : Type 0 where
    good : Good r'
    nodes : r'.nodes ≡ r.nodes
    logged : (e : Event) → Memᴰ e r.log → Memᴰ e r'.log
    all_waited : (j : ℕ) → Memᴰ j js → Memᴰ (waited (some (pid_of j))) r'.log
    started : forks r'.log ≡ forks r.log

  abbrev wait_one : Run → ℕ → Run
  wait_one r j = record r { log = waited (r.nodes j).pid ∷ r.log }

  wait_one-Good : (r : Run) (j : ℕ) → Good r → Done r j → Good (wait_one r j)
  unfolding Ordered
  wait_one-Good r j g d = record { ordered = ((j, d.0, d.1), g.ordered); same = g.same }

  Waited-cons :
      (r r' : Run) (j : ℕ) (js : List ℕ)
      → Done r j
      → Waited (wait_one r j) r' js
      → Waited r r' (j ∷ js)
  unfolding forks
  Waited-cons r r' j js d rest = record {
    good = rest.good;
    nodes = rest.nodes;
    logged = λ e m. rest.logged e (tail m);
    all_waited = λ i m. elim (Memᴰ.cases_cons m) [
      | inl e ↦ rest.logged _ (head (ap waited (rw e (sym d.0))))
      | inr m1 ↦ rest.all_waited i m1
    ];
    started = rest.started;
  }

  wait_nodes-Waited :
      (r : Run) (js : List ℕ)
      → Good r
      → ((j : ℕ) → Memᴰ j js → Done r j)
      → Waited r (wait_nodes pid_of r js) js
  unfolding wait_nodes
  wait_nodes-Waited r [] g done = record {
    good = g;
    nodes = refl;
    logged = λ e m. m;
    all_waited = λ j m. absurd (Memᴰ.not-nil m);
    started = refl;
  }
  wait_nodes-Waited r (j ∷ js) g done = Waited-cons r _ j js (done j (head refl)) (
      wait_nodes-Waited (wait_one r j) js (wait_one-Good r j g (done j (head refl)))
        (λ i m. let d = done i (tail m) in (d.0, tail d.1)))

  -- One round of `execute_dependencies`.
  abbrev one_round : Run → ℕ → Run
  one_round r i = start_node pid_of (wait_nodes pid_of r (r.nodes i).before) i

  one_round-Went :
      (r : Run) (i : ℕ)
      → Good r
      → ((j : ℕ) → Memᴰ j (before i) → Done r j)
      → Went r (one_round r i) (i ∷ [])
  one_round-Went r i g ready = record {
    good = went.good;
    still = λ j d. went.still j (kept j d);
    all_done = went.all_done;
    started = omega (arith, went.started, w.started);
  }
    where
      mid : Run
      mid = wait_nodes pid_of r (r.nodes i).before

      w : Waited r mid (r.nodes i).before
      w = wait_nodes-Waited r (r.nodes i).before g (λ j m. ready j (rw (g.same i) at m))

      kept : (j : ℕ) → Done r j → Done mid j
      kept j d = (rw w.nodes d.0, w.logged _ d.1)

      went : Went mid (start_node pid_of mid i) (i ∷ [])
      went =
          start_node-Went mid i w.good
            (λ j m. (w.all_waited j (rw (g.same i) m), (kept j (ready j m)).1))

  execute_dependencies-Went :
      (done : ℕ → Type 0) (r : Run) (l : List ℕ)
      → Good r
      → ((j : ℕ) → done j → Done r j)
      → Queue done before l
      → Went r (execute_dependencies pid_of r l) l
  unfolding execute_dependencies Queue
  execute_dependencies-Went done r [] g known q = Went-refl r g
  execute_dependencies-Went done r (i ∷ l) g known q =
      let first = one_round-Went r i g (λ j m. known j (q.0 j m)) in
      Went-cons r (one_round r i) _ i l first (
        execute_dependencies-Went (λ j. done j ⊎ (j ≡ i)) (one_round r i) l first.good
          (λ j d. elim d [
            | inl old ↦ first.still j (known j old)
            | inr e ↦ first.all_done j (head e)
          ])
          q.1)

-- In time-travel mode every command of the script is started, and started once: there are as many
-- starts as commands. A command starts only after each earlier command that it depends on has been
-- started and waited for, and the shell waits for no other process than those it has started.
pub execute_graph-Ordered :
    (pid_of : ℕ → ℕ) (cs : List Command)
    → Ordered pid_of
        (λ i. ((create_graph cs).nodes i).before)
        (execute_graph pid_of (create_graph cs)).log
      × ((i : ℕ)
          → i < length cs
          → Memᴰ (forked i (pid_of i)) (execute_graph pid_of (create_graph cs)).log)
      × (forks (execute_graph pid_of (create_graph cs)).log ≡ length cs)
unfolding execute_graph Ordered forks
execute_graph-Ordered pid_of cs = (
  second.good.ordered,
  λ i h. elim (inv.placed i (omega (arith, (create_graph-Inv cs).1))) [
    | inl m ↦ (second.still i (first.all_done i m)).1
    | inr m ↦ (second.all_done i m).1
  ],
  omega (arith, first.started, second.started, inv.sizes, (create_graph-Inv cs).1),
)
  where
    g : Graph
    g = create_graph cs

    inv : Inv g
    inv = (create_graph-Inv cs).0

    before : ℕ → List ℕ
    before i = (g.nodes i).before

    r0 : Run
    r0 = record { nodes = g.nodes; log = [] }

    r1 : Run
    r1 = execute_no_dependencies pid_of r0 g.no_dependencies

    first : Went pid_of before r0 r1 g.no_dependencies
    first =
        execute_no_dependencies-Went pid_of before r0 g.no_dependencies
          (record { ordered = tt; same = λ i. refl }) (λ i m. (inv.free i m).1)

    second : Went pid_of before r1 (execute_dependencies pid_of r1 g.dependencies) g.dependencies
    second =
        execute_dependencies-Went pid_of before (λ j. Memᴰ j g.no_dependencies) r1 g.dependencies
          first.good first.all_done inv.in_order
