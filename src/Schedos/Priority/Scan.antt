-- ===== src/Schedos/Priority/Scan.antt =====
-- What the two `for` loops of algorithm 2 of SchedOS's `schedule` find out.
use cs111_operating_system.Prelude.{
  ℕ, zero, suc, ◌+◌, ◌%◌, ◌<◌, ◌≤◌, ◌≡◌, ◌⊎◌, refl, ap, arith, inl, inr, ℕ_discrete, some, none,
  true, false, Bool-cases, ◌==◌, ◌&&◌, int_ltb, if◌then◌else◌,
}
use cs111_operating_system.Schedos.State.{Process}
use cs111_operating_system.Schedos.{ready, find_higher, find_equal}

-- Of the processes from `i` on, `f` of them, none that can run has a priority before `m`.
abbrev pub NoneBefore : (ℕ → Process) → (i f m : ℕ) → Type 0
NoneBefore procs i f m =
    (j : ℕ) → i ≤ j → j < i + f → ready procs j ≡ true → int_ltb (procs j).priority m ≡ false

-- What the first `for` finds out.
abbrev pub Found : (ℕ → Process) → (f i min found : ℕ) → ℕ × ℕ → Type 0
Found procs f i min found r =
    ((r.0 ≡ min) × (r.1 ≡ found) × NoneBefore procs i f min)
    ⊎ ((i ≤ r.1)
        × (r.1 < i + f)
        × (ready procs r.1 ≡ true)
        × (r.0 ≡ (procs r.1).priority)
        × (int_ltb r.0 min ≡ true)
        × NoneBefore procs i f r.0)

module _ (procs : ℕ → Process) where
  pub find_higher-Found :
      (f i min found : ℕ) → Found procs f i min found (find_higher procs f i min found)
  unfolding find_higher
  find_higher-Found zero i min found = inl (refl, refl, λ j lo hi. absurd (omega arith))
  find_higher-Found (suc f) i min found =
      elim (Bool-cases (ready procs i && int_ltb (procs i).priority min)) [
        | inl better ↦
            rw
              (ap
                (λ b.
                  find_higher procs f (i + 1) (if b then (procs i).priority else min)
                    (if b then i else found))
                better)
              (taken (find_higher procs f (i + 1) (procs i).priority i)
                (find_higher-Found f (i + 1) (procs i).priority i) better)
        | inr worse ↦
            rw
              (ap
                (λ b.
                  find_higher procs f (i + 1) (if b then (procs i).priority else min)
                    (if b then i else found))
                worse)
              (skipped (find_higher procs f (i + 1) min found)
                (find_higher-Found f (i + 1) min found) worse)
      ]
    where
      taken :
          (r : ℕ × ℕ)
          → Found procs f (i + 1) (procs i).priority i r
          → (ready procs i && int_ltb (procs i).priority min) ≡ true
          → Found procs (suc f) i min found r
      taken (m, q) (inl (em, eq, least)) better = inr (
        omega arith,
        omega arith,
        ground arith,
        ground arith,
        ground arith,
        λ j lo hi r. elim (ℕ_discrete j i) [
          | yes e ↦ ground arith
          | no ne ↦ rw em (least j (omega arith) (omega arith) r)
        ],
      )
      taken (m, q) (inr (lo, hi, now, em, lt, least)) better = inr (
        omega arith,
        omega arith,
        now,
        em,
        ground arith,
        λ j jlo jhi r. elim (ℕ_discrete j i) [
          | yes e ↦ ground arith
          | no ne ↦ least j (omega arith) (omega arith) r
        ],
      )

      skipped :
          (r : ℕ × ℕ)
          → Found procs f (i + 1) min found r
          → (ready procs i && int_ltb (procs i).priority min) ≡ false
          → Found procs (suc f) i min found r
      skipped (m, q) (inl (em, eq, least)) worse = inl (
        em,
        eq,
        λ j lo hi r. elim (ℕ_discrete j i) [
          | yes e ↦ ground arith
          | no ne ↦ least j (omega arith) (omega arith) r
        ],
      )
      skipped (m, q) (inr (lo, hi, now, em, lt, least)) worse = inr (
        omega arith,
        omega arith,
        now,
        em,
        lt,
        λ j jlo jhi r. elim (ℕ_discrete j i) [
          | yes e ↦ ground arith
          | no ne ↦ least j (omega arith) (omega arith) r
        ],
      )

  -- What the second `for` finds from `pid + i` on.
  pub record Equal (f pid i min j : ℕ) : Type 0 where
    pub offset : ℕ
    pub from : i ≤ offset
    pub to : offset < i + f
    pub here : j ≡ (pid + offset) % 5
    pub now : ready procs j ≡ true
    pub same : (procs j).priority ≡ min
    pub before :
        (x : ℕ)
        → i ≤ x
        → x < offset
        → (ready procs ((pid + x) % 5) && (procs ((pid + x) % 5)).priority == min) ≡ false

  pub find_equal-Equal :
      (f pid i min : ℕ)
      → ((j : ℕ) × (find_equal procs f pid i min ≡ some j) × Equal f pid i min j)
        ⊎ ((find_equal procs f pid i min ≡ none)
            × ((x : ℕ)
                → i ≤ x
                → x < i + f
                → (ready procs ((pid + x) % 5) && (procs ((pid + x) % 5)).priority == min) ≡ false))
  unfolding find_equal
  find_equal-Equal zero pid i min = inr (refl, λ x lo hi. absurd (omega arith))
  find_equal-Equal (suc f) pid i min =
      elim (Bool-cases (ready procs ((pid + i) % 5) && (procs ((pid + i) % 5)).priority == min)) [
        | inl hit ↦ inl (
          (pid + i) % 5,
          rw hit,
          record {
            offset = i;
            from = omega arith;
            to = omega arith;
            here = refl;
            now = ground arith;
            same = ground arith;
            before = λ x lo hi. absurd (omega arith);
          },
        )
        | inr miss ↦ rw miss (elim (find_equal-Equal f pid (i + 1) min) [
          | inl (j, e, r) ↦ inl (
            j,
            e,
            record {
              offset = r.offset;
              from = omega (arith, r.from);
              to = omega (arith, r.to);
              here = r.here;
              now = r.now;
              same = r.same;
              before = λ x lo hi. elim (ℕ_discrete x i) [
                | yes at ↦ rw at miss
                | no ne ↦ r.before x (omega arith) hi
              ];
            },
          )
          | inr (e, none_at) ↦ inr (
            e,
            λ x lo hi. elim (ℕ_discrete x i) [
              | yes at ↦ rw at miss
              | no ne ↦ none_at x (omega arith) (omega arith)
            ],
          )
        ])
      ]
