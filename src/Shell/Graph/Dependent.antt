-- ===== src/Shell/Graph/Dependent.antt =====
-- What `isDependent` of project1/main.c finds out.
use cs111_operating_system.Prelude.{
  ◌≡◌, ◌↔◌, inl, inr, refl, arith, true, false, ◌||◌, Bool-cases, List, [], ◌∷◌, none,
}
use mathlib.Core.List.Memᴰ.{Memᴰ, head, tail}
use cs111_operating_system.Shell.Command.{
  Command, Fields, subshell_command, Str, str_eq, str_eq_refl, str_eq-eq,
}
use cs111_operating_system.Shell.Graph.{
  GraphNode, init_graph_node, add_name, process_command, has_name, reads_after, writes_after,
  is_dependent,
}

has_name-Memᴰ : (s : Str) (xs : List Str) → has_name s xs ≡ true → Memᴰ s xs
unfolding has_name
has_name-Memᴰ s [] e = absurd (ground arith)
has_name-Memᴰ s (x ∷ xs) e = elim (Bool-cases (str_eq s x)) [
  | inl same ↦ head (str_eq-eq s x same)
  | inr other ↦ tail (has_name-Memᴰ s xs (ground arith))
]

Memᴰ-has_name : (s : Str) (xs : List Str) → Memᴰ s xs → has_name s xs ≡ true
unfolding has_name
Memᴰ-has_name s [] m = elim m [ ]
Memᴰ-has_name s (x ∷ xs) (head e) = rw (← e) (ground (arith, str_eq_refl s))
Memᴰ-has_name s (x ∷ xs) (tail m) = ground (arith, Memᴰ-has_name s xs m)

-- A name that both nodes use and that one of them writes: `n2` reads what `n1` writes, or writes what
-- `n1` reads or writes.
pub data Conflict (n1 n2 : GraphNode) : Type 0 where
  raw : (s : Str) → Memᴰ s n2.read_list → Memᴰ s n1.write_list → Conflict n1 n2
  war : (s : Str) → Memᴰ s n2.write_list → Memᴰ s n1.read_list → Conflict n1 n2
  waw : (s : Str) → Memᴰ s n2.write_list → Memᴰ s n1.write_list → Conflict n1 n2

module _ (n1 n2 : GraphNode) where
  reads_after-Conflict :
      (ss : List Str)
      → ((s : Str) → Memᴰ s ss → Memᴰ s n2.read_list)
      → reads_after ss n1 ≡ true
      → Conflict n1 n2
  unfolding reads_after
  reads_after-Conflict [] inside e = absurd (ground arith)
  reads_after-Conflict (s ∷ ss) inside e = elim (Bool-cases (has_name s n1.write_list)) [
    | inl hit ↦ raw s (inside s (head refl)) (has_name-Memᴰ s n1.write_list hit)
    | inr miss ↦ reads_after-Conflict ss (λ x m. inside x (tail m)) (ground arith)
  ]

  writes_after-Conflict :
      (ss : List Str)
      → ((s : Str) → Memᴰ s ss → Memᴰ s n2.write_list)
      → writes_after ss n1 ≡ true
      → Conflict n1 n2
  unfolding writes_after
  writes_after-Conflict [] inside e = absurd (ground arith)
  writes_after-Conflict (s ∷ ss) inside e = elim (Bool-cases (has_name s n1.read_list)) [
    | inl hit ↦ war s (inside s (head refl)) (has_name-Memᴰ s n1.read_list hit)
    | inr miss ↦ elim (Bool-cases (has_name s n1.write_list)) [
      | inl hit ↦ waw s (inside s (head refl)) (has_name-Memᴰ s n1.write_list hit)
      | inr miss2 ↦ writes_after-Conflict ss (λ x m. inside x (tail m)) (ground arith)
    ]
  ]

  raw-reads_after :
      (s : Str) (ss : List Str) → Memᴰ s ss → Memᴰ s n1.write_list → reads_after ss n1 ≡ true
  unfolding reads_after
  raw-reads_after s [] m w = elim m [ ]
  raw-reads_after s (x ∷ xs) (head e) w = rw (← e) (ground (arith, Memᴰ-has_name s n1.write_list w))
  raw-reads_after s (x ∷ xs) (tail m) w = ground (arith, raw-reads_after s xs m w)

  wrote-writes_after :
      (s : Str) (ss : List Str)
      → Memᴰ s ss
      → (has_name s n1.read_list || has_name s n1.write_list) ≡ true
      → writes_after ss n1 ≡ true
  unfolding writes_after
  wrote-writes_after s [] m w = elim m [ ]
  wrote-writes_after s (x ∷ xs) (head e) w = rw (← e) (ground (arith, w))
  wrote-writes_after s (x ∷ xs) (tail m) w = ground (arith, wrote-writes_after s xs m w)

-- `isDependent` says yes if and only if the later command reads a name that the earlier one writes, or
-- writes a name that the earlier one reads or writes.
pub is_dependent_lem : (n1 n2 : GraphNode) → (is_dependent n1 n2 ≡ true) ↔ Conflict n1 n2
unfolding is_dependent
is_dependent_lem n1 n2 = (found, finds)
  where
    found : (reads_after n2.read_list n1 || writes_after n2.write_list n1) ≡ true → Conflict n1 n2
    found e = elim (Bool-cases (reads_after n2.read_list n1)) [
      | inl r ↦ reads_after-Conflict n1 n2 n2.read_list (λ s m. m) r
      | inr no_raw ↦ writes_after-Conflict n1 n2 n2.write_list (λ s m. m) (ground arith)
    ]

    finds : Conflict n1 n2 → (reads_after n2.read_list n1 || writes_after n2.write_list n1) ≡ true
    finds (raw s m w) = ground (arith, raw-reads_after n1 n2 s n2.read_list m w)
    finds (war s m r) = ground (
      arith,
      wrote-writes_after n1 n2 s n2.write_list m (ground (arith, Memᴰ-has_name s n1.read_list r)),
    )
    finds (waw s m w) = ground (
      arith,
      wrote-writes_after n1 n2 s n2.write_list m (ground (arith, Memᴰ-has_name s n1.write_list w)),
    )

-- A subshell without redirections of its own depends on no command, whatever the commands in it read
-- and write.
pub subshell_independent :
    (n1 : GraphNode) (f : Fields) (c : Command)
    → f.input ≡ none
    → f.output ≡ none
    → is_dependent n1
        (process_command (subshell_command f c) (init_graph_node (subshell_command f c)))
      ≡ false
unfolding is_dependent process_command init_graph_node add_name reads_after writes_after
subshell_independent n1 f c no_input no_output = rw (no_input, no_output) refl
