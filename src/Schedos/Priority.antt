-- ===== src/Schedos/Priority.antt =====
-- Which process algorithm 2 of SchedOS's `schedule` runs. A lower number is a higher priority.
mod Scan
use cs111_operating_system.Prelude.{
  ℕ, zero, suc, ◌+◌, ◌-◌, ◌%◌, ◌^◌, ◌<◌, ◌≤◌, ◌≡◌, ◌≢◌, ◌⊎◌, ◌∙◌, refl, sym, ap, arith, inl, inr,
  ℕ_discrete, dec_lt, Option, some, none, true, false, Bool-cases, Option-cases, ◌==◌, ==-eq_false,
  ◌&&◌, not, int_ltb, if◌then◌else◌,
}
use cs111_operating_system.Schedos.State.{nprocs, Process, Kernel, Outcome, running, looping}
use cs111_operating_system.Schedos.{
  ready, find_higher, find_equal, priority_round, priority_loop, choose, schedule,
}
use cs111_operating_system.Schedos.Inv.{Table, Inv}
use cs111_operating_system.Schedos.RoundRobin.{between, NoneReady}
use Scan.{NoneBefore, Found, find_higher-Found, Equal, find_equal-Equal}

-- A process of the highest priority, where that is higher than the one of `pid`.
pub record Higher (procs : ℕ → Process) (pid q : ℕ) : Type 0 where
  pub bounded : q < nprocs
  pub now : ready procs q ≡ true
  pub higher : int_ltb (procs q).priority (procs pid).priority ≡ true
  pub highest :
      (i : ℕ)
      → i < nprocs
      → ready procs i ≡ true
      → int_ltb (procs i).priority (procs q).priority ≡ false

-- The next process with the priority of `pid`, going round the table, where no process that can run
-- has a higher one.
pub record NextEqual (procs : ℕ → Process) (pid q : ℕ) : Type 0 where
  pub bounded : q < nprocs
  pub now : ready procs q ≡ true
  pub equal : (procs q).priority ≡ (procs pid).priority
  pub highest :
      (i : ℕ)
      → i < nprocs
      → ready procs i ≡ true
      → int_ltb (procs i).priority (procs q).priority ≡ false
  pub in_turn :
      (i : ℕ)
      → i < nprocs
      → ready procs i ≡ true
      → (procs i).priority ≡ (procs q).priority
      → between pid q ≤ between pid i

-- Every process that can run has a lower priority than `pid`.
abbrev pub AllLower : (ℕ → Process) → ℕ → Type 0
AllLower procs pid =
    (i : ℕ)
    → i < nprocs
    → ready procs i ≡ true
    → (int_ltb (procs i).priority (procs pid).priority ≡ false)
      × ((procs i).priority ≢ (procs pid).priority)

-- The process that stands `between pid i + 1` places behind `pid` is `i`.
place : (pid i : ℕ) → pid < nprocs → i < nprocs → (pid + (between pid i + 1)) % 5 ≡ i
place pid i h hi = omega arith

-- What one round of the `while` does.
data Round (procs : ℕ → Process) (pid : ℕ) (r : Option ℕ) : Type 0 where
  higher : (q : ℕ) → r ≡ some q → Higher procs pid q → Round procs pid r
  equal : (q : ℕ) → r ≡ some q → NextEqual procs pid q → Round procs pid r
  next_one :
      r ≡ some ((pid + 1) % 5)
      → ready procs ((pid + 1) % 5) ≡ true
      → AllLower procs pid
      → Round procs pid r
  none_now : r ≡ none → ready procs ((pid + 1) % 5) ≡ false → AllLower procs pid → Round procs pid r

module _ (procs : ℕ → Process) (t : Table procs) where
  zero_not_ready : ready procs 0 ≡ false
  zero_not_ready = ground (arith, t.slot_zero)

  -- Behind the first `for`, with nothing found.
  no_higher-Round :
      (pid : ℕ)
      → pid < nprocs
      → NoneBefore procs 0 5 (procs pid).priority
      → Round procs pid (elim (find_equal procs 5 pid 1 (procs pid).priority) [
        | some j ↦ some j
        | none ↦ if ready procs ((pid + 1) % 5) then some ((pid + 1) % 5) else none
      ])
  no_higher-Round pid h least = elim (find_equal-Equal procs 5 pid 1 (procs pid).priority) [
    | inl (j, e, r) ↦ rw e (
        equal j refl (record {
          bounded = omega (arith, r.here);
          now = r.now;
          equal = r.same;
          highest = λ i hi now. rw r.same (least i (omega arith) hi now);
          in_turn = λ i hi now same. turn j r i hi now same;
        }))
    | inr (e, none_at) ↦ rw e (elim (Bool-cases (ready procs ((pid + 1) % 5))) [
      | inl now ↦
          rw now
            (next_one refl now (λ i hi r. (least i (omega arith) hi r, differs none_at i hi r)))
      | inr not_now ↦
          rw not_now
            (none_now refl not_now (λ i hi r. (least i (omega arith) hi r, differs none_at i hi r)))
    ])
  ]
    where
      differs :
          ((x : ℕ)
            → 1 ≤ x
            → x < 6
            → (ready procs ((pid + x) % 5)
                && (procs ((pid + x) % 5)).priority == (procs pid).priority)
              ≡ false)
          → (i : ℕ) → i < nprocs
          → ready procs i ≡ true
          → (procs i).priority ≢ (procs pid).priority
      differs none_at i hi now = λ eq. absurd (
          ground (arith, place pid i h hi, none_at (between pid i + 1) (omega arith) (omega arith)))

      turn :
          (j : ℕ)
          → (r : Equal procs 5 pid 1 (procs pid).priority j) → (i : ℕ) → i < nprocs
          → ready procs i ≡ true
          → (procs i).priority ≡ (procs j).priority
          → between pid j ≤ between pid i
      turn j r i hi now same = elim (dec_lt (between pid i + 1) r.offset) [
        | no ge ↦ omega (arith, r.here, r.from, r.to)
        | yes lt ↦ absurd (
            ground (arith, r.same, place pid i h hi, r.before (between pid i + 1) (omega arith) lt))
      ]

  priority_round-Round : (pid : ℕ) → pid < nprocs → Round procs pid (priority_round procs pid)
  unfolding priority_round
  priority_round-Round pid h =
      split (find_higher procs 5 0 (procs pid).priority 0)
        (find_higher-Found procs 5 0 (procs pid).priority 0)
    where
      split :
          (r : ℕ × ℕ)
          → Found procs 5 0 (procs pid).priority 0 r
          → Round procs pid (
              if not (r.1 == 0) then some r.1 else elim (find_equal procs 5 pid 1 r.0) [
                | some j ↦ some j
                | none ↦ if ready procs ((pid + 1) % 5) then some ((pid + 1) % 5) else none
              ])
      split (m, q) (inl (em, eq, least)) = rw (eq, em) (no_higher-Round pid h least)
      split (m, q) (inr (lo, hi, now, em, lt, least)) = rw (==-eq_false q 0 nonzero) (
          higher q refl (record {
            bounded = omega arith;
            now = now;
            higher = ground arith;
            highest = λ i hi r. rw (← em) (least i (omega arith) hi r);
          }))
        where
          nonzero : q ≢ 0
          nonzero = λ e. absurd (ground (arith, zero_not_ready))

  -- What `f` rounds of the `while` have found out.
  abbrev Searched : (f pid : ℕ) → Option ℕ → Type 0
  Searched f pid none = (i : ℕ) → i < nprocs → between pid i < f → ready procs i ≡ false
  Searched f pid (some q) = (q < nprocs) × (ready procs q ≡ true)

  priority_loop-Searched : (f pid : ℕ) → pid < nprocs → Searched f pid (priority_loop procs f pid)
  unfolding priority_loop
  priority_loop-Searched zero pid h = λ i hi lt. absurd (omega arith)
  priority_loop-Searched (suc f) pid h = elim (priority_round-Round pid h) [
    | higher q e r ↦ rw (e, Searched) (r.bounded, r.now)
    | equal q e r ↦ rw (e, Searched) (r.bounded, r.now)
    | next_one e now lower ↦ rw (e, Searched) (omega arith, now)
    | none_now e idle lower ↦
        rw (e, Searched)
          (back idle (priority_loop procs f ((pid + 1) % 5))
            (priority_loop-Searched f ((pid + 1) % 5) (omega arith)))
  ]
    where
      back :
          ready procs ((pid + 1) % 5) ≡ false
          → (r : Option ℕ) → Searched f ((pid + 1) % 5) r
          → Searched (suc f) pid r
      back idle none t = λ i hi lt. elim (ℕ_discrete i ((pid + 1) % 5)) [
        | yes e ↦ rw e idle
        | no ne ↦ t i hi (omega arith)
      ]
      back idle (some q) t = t

  pub priority_loop_lem :
      (pid : ℕ)
      → pid < nprocs
      → ((q : ℕ) × (priority_loop procs nprocs pid ≡ some q)
          × (q < nprocs)
          × (ready procs q ≡ true))
        ⊎ ((priority_loop procs nprocs pid ≡ none) × NoneReady procs)
  priority_loop_lem pid h = split (priority_loop procs 5 pid) refl (priority_loop-Searched 5 pid h)
    where
      split :
          (r : Option ℕ)
          → priority_loop procs 5 pid ≡ r
          → Searched 5 pid r
          → ((q : ℕ) × (priority_loop procs nprocs pid ≡ some q)
              × (q < nprocs)
              × (ready procs q ≡ true))
            ⊎ ((priority_loop procs nprocs pid ≡ none) × NoneReady procs)
      split (some q) e t = inl (q, e, t.0, t.1)
      split none e t = inr (e, λ i hi. t i hi (omega arith))

-- Algorithm 2, entered while the running process can go on: `schedule` runs a process of the highest
-- priority, where one has a higher priority than the running one; else, of the processes with the
-- priority of the running one, the next round the table. It changes nothing but `current`.
pub schedule_priority :
    (k : Kernel)
    → Inv k
    → k.scheduling_algorithm ≡ 2
    → (q : ℕ) × (schedule k ≡ running (record k { current = q }))
      × (Higher k.proc_array k.current q ⊎ NextEqual k.proc_array k.current q)
unfolding schedule choose priority_loop
schedule_priority k inv alg =
    elim (priority_round-Round k.proc_array inv.table k.current inv.current_in) [
      | higher q e r ↦ (q, chosen q e, inl r)
      | equal q e r ↦ (q, chosen q e, inr r)
      | next_one e now lower ↦ absurd (own lower)
      | none_now e idle lower ↦ absurd (own lower)
    ]
  where
    own : ¬ AllLower k.proc_array k.current
    own lower = (lower k.current inv.current_in (ground (arith, inv.current_runnable))).1 refl

    chosen :
        (q : ℕ)
        → priority_round k.proc_array k.current ≡ some q
        → schedule k ≡ running (record k { current = q })
    chosen q e = ground (arith, e, alg, inv.pids k.current inv.current_in)

-- Algorithm 2, entered with no process of the priority of descriptor `pid` of the running process, or of
-- a higher one, able to run: where the next process round the table can run, `schedule` runs that one,
-- whatever the priorities of the others.
pub schedule_ignores_priority :
    (k : Kernel)
    → Table k.proc_array
    → k.current < nprocs
    → k.scheduling_algorithm ≡ 2
    → AllLower k.proc_array k.current
    → ready k.proc_array ((k.current + 1) % nprocs) ≡ true
    → schedule k ≡ running (record k { current = (k.current + 1) % nprocs })
unfolding schedule choose priority_loop
schedule_ignores_priority k t h alg lower now =
    elim (priority_round-Round k.proc_array t k.current h) [
      | higher q e r ↦ absurd (ground (arith, lower q r.bounded r.now, r.higher))
      | equal q e r ↦ absurd ((lower q r.bounded r.now).1 r.equal)
      | next_one e _ _ ↦ ground (arith, e, alg, t.pids k.current h)
      | none_now e idle _ ↦ absurd (ground (arith, now, idle))
    ]
