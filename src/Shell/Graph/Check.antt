-- ===== src/Shell/Graph/Check.antt =====
-- What the `for` of `checkDependency` in project1/main.c leaves in the nodes.
use cs111_operating_system.Prelude.{
  ℕ, zero, suc, ◌+◌, ◌-◌, ◌<◌, ◌≤◌, ◌≡◌, ◌≢◌, ◌⊎◌, inl, inr, refl, sym, ◌∙◌, arith, true,
  Bool-cases, [], ◌∷◌, ◌++◌, update, dec_lt,
}
use mathlib.Core.List.Memᴰ
use mathlib.Core.List.Memᴰ.{Memᴰ, head}
use cs111_operating_system.Shell.Command.{
  Command, simple_command, subshell_command, compound_command,
}
use cs111_operating_system.Shell.Graph.{
  GraphNode, process_command, is_dependent, check_one, check_from, check_dependency,
}

-- The indices from `lo` on and below `hi` have been compared with the node `last`.
pub record Checked (nodes nodes' : ℕ → GraphNode) (last lo hi : ℕ) : Type 0 where
  pub others : (k : ℕ) → k ≢ last → nodes' k ≡ nodes k
  pub reads : (nodes' last).read_list ≡ (nodes last).read_list
  pub writes : (nodes' last).write_list ≡ (nodes last).write_list
  pub kept : (j : ℕ) → Memᴰ j (nodes last).before → Memᴰ j (nodes' last).before
  pub sound :
      (j : ℕ)
      → Memᴰ j (nodes' last).before
      → Memᴰ j (nodes last).before
        ⊎ ((lo ≤ j) × (j < hi) × (is_dependent (nodes j) (nodes last) ≡ true))
  pub complete :
      (j : ℕ)
      → lo ≤ j
      → j < hi
      → is_dependent (nodes j) (nodes last) ≡ true
      → Memᴰ j (nodes' last).before

Checked-refl : (nodes : ℕ → GraphNode) (last lo : ℕ) → Checked nodes nodes last lo lo
Checked-refl nodes last lo = record {
  others = λ k ne. refl;
  reads = refl;
  writes = refl;
  kept = λ j m. m;
  sound = λ j m. inl m;
  complete = λ j lo hi d. absurd (omega arith);
}

check_one-Checked :
    (nodes : ℕ → GraphNode) (last i : ℕ)
    → i < last
    → Checked nodes (check_one nodes last i) last i (i + 1)
unfolding check_one
check_one-Checked nodes last i h = elim (Bool-cases (is_dependent (nodes i) (nodes last))) [
  | inl d ↦ rw d (record {
    others = λ k ne. ground arith;
    reads = ground arith;
    writes = ground arith;
    kept = λ j m. rw own (Memᴰ.append_left (i ∷ []) m);
    sound = λ j m. elim (Memᴰ.append_cases (nodes last).before (rw own at m)) [
      | inl old ↦ inl old
      | inr new ↦ inr (found d j (Memᴰ.eq_of_singleton new))
    ];
    complete = λ j lo hi e. rw own (Memᴰ.append_right (nodes last).before (head (omega arith)));
  })
  | inr u ↦ rw u (record {
    others = λ k ne. refl;
    reads = refl;
    writes = refl;
    kept = λ j m. m;
    sound = λ j m. inl m;
    complete = λ j lo hi e. absurd (ground (arith, e, u, last_one j lo hi));
  })
]
  where
    own :
        (update nodes last
          (record (nodes last) { before = (nodes last).before ++ (i ∷ []) })
          last).before
        ≡ (nodes last).before ++ (i ∷ [])
    own = ground arith

    last_one : (j : ℕ) → i ≤ j → j < i + 1 → j ≡ i
    last_one j lo hi = omega arith

    found :
        is_dependent (nodes i) (nodes last) ≡ true
        → (j : ℕ) → j ≡ i
        → (i ≤ j) × (j < i + 1) × (is_dependent (nodes j) (nodes last) ≡ true)
    found d j e = (omega arith, omega arith, rw e d)

-- The answer of `isDependent` depends on the lists of names only.
pub same_answer :
    (nodes nodes' : ℕ → GraphNode) (last lo hi j : ℕ)
    → Checked nodes nodes' last lo hi
    → j ≢ last
    → is_dependent (nodes' j) (nodes' last) ≡ is_dependent (nodes j) (nodes last)
unfolding is_dependent
same_answer nodes nodes' last lo hi j c ne = rw (c.others j ne, c.reads, c.writes) refl

Checked-trans :
    (nodes nodes1 nodes2 : ℕ → GraphNode) (last lo mid hi : ℕ)
    → lo ≤ mid
    → mid ≤ hi
    → hi ≤ last
    → Checked nodes nodes1 last lo mid
    → Checked nodes1 nodes2 last mid hi
    → Checked nodes nodes2 last lo hi
Checked-trans nodes nodes1 nodes2 last lo mid hi h1 h2 h3 c d = record {
  others = λ k ne. d.others k ne ∙ c.others k ne;
  reads = d.reads ∙ c.reads;
  writes = d.writes ∙ c.writes;
  kept = λ j m. d.kept j (c.kept j m);
  sound = λ j m. elim (d.sound j m) [
    | inl old ↦ elim (c.sound j old) [
      | inl older ↦ inl older
      | inr (a, b, e) ↦ inr (a, omega arith, e)
    ]
    | inr (a, b, e) ↦ inr (
      omega arith,
      b,
      sym (same_answer nodes nodes1 last lo mid j c (λ eq. absurd (omega arith))) ∙ e,
    )
  ];
  complete = λ j lo' hi' e. elim (dec_lt j mid) [
    | yes lt ↦ d.kept j (c.complete j lo' lt e)
    | no ge ↦
        d.complete j (omega arith) hi'
          (same_answer nodes nodes1 last lo mid j c (λ eq. absurd (omega arith)) ∙ e)
  ];
}

check_from-Checked :
    (f : ℕ) (nodes : ℕ → GraphNode) (last i : ℕ)
    → i + f ≡ last
    → Checked nodes (check_from nodes last f i) last i last
unfolding check_from
check_from-Checked zero nodes last i e =
    let at_end : i ≡ last = omega (arith, e) in rw at_end (Checked-refl nodes last last)
check_from-Checked (suc f) nodes last i e =
    Checked-trans nodes _ _ last i (i + 1) last (omega arith) (omega arith) (omega arith)
      (check_one-Checked nodes last i (omega arith))
      (check_from-Checked f (check_one nodes last i) last (i + 1) (omega arith))

-- `checkDependency` adds to the last node the earlier ones that it depends on.
pub check_dependency-Checked :
    (nodes : ℕ → GraphNode) (last : ℕ)
    → Checked nodes (check_dependency nodes (last + 1)) last 0 last
unfolding check_dependency
check_dependency-Checked nodes last = rw less (check_from-Checked last nodes last 0 (omega arith))
  where
    less : last + 1 - 1 ≡ last
    less = omega arith

pub process_command-before : (c : Command) (n : GraphNode) → (process_command c n).before ≡ n.before
unfolding process_command
process_command-before (simple_command f ws) n = refl
process_command-before (subshell_command f c) n = refl
process_command-before (compound_command op f c d) n =
    process_command-before d (process_command c n) ∙ process_command-before c n
