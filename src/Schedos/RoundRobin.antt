-- ===== src/Schedos/RoundRobin.antt =====
-- Which process the algorithms 0 and 1 of SchedOS's `schedule` run.
use cs111_operating_system.Prelude.{
  ℕ, zero, suc, ◌+◌, ◌-◌, ◌%◌, ◌<◌, ◌≡◌, ◌⊎◌, refl, arith, inl, inr, ℕ_discrete, Option, some, none,
  true, false, Bool-cases,
}
use cs111_operating_system.Schedos.State.{nprocs, Process, Kernel, running, looping}
use cs111_operating_system.Schedos.{ready, next_ready, choose, schedule}
use cs111_operating_system.Schedos.Inv.{Table}

-- How many other processes come between `pid` and `i` on the way round the table.
abbrev pub between : (pid i : ℕ) → ℕ
between pid i = (i + 9 - pid) % 5

-- `q` is the first runnable process behind `pid`, going round the table.
pub record FirstReady (procs : ℕ → Process) (pid q : ℕ) : Type 0 where
  pub bounded : q < nprocs
  pub now : ready procs q ≡ true
  pub first : (i : ℕ) → i < nprocs → between pid i < between pid q → ready procs i ≡ false

abbrev pub NoneReady : (ℕ → Process) → Type 0
NoneReady procs = (i : ℕ) → i < nprocs → ready procs i ≡ false

-- What `f` rounds of the loop have found out.
abbrev Searched : (ℕ → Process) → (f pid : ℕ) → Option ℕ → Type 0
Searched procs f pid none = (i : ℕ) → i < nprocs → between pid i < f → ready procs i ≡ false
Searched procs f pid (some q) = FirstReady procs pid q

module _ (procs : ℕ → Process) where
  next_ready-Searched : (f pid : ℕ) → pid < nprocs → Searched procs f pid (next_ready procs f pid)
  unfolding next_ready
  next_ready-Searched zero pid h = λ i hi lt. absurd (omega arith)
  next_ready-Searched (suc f) pid h = elim (Bool-cases (ready procs ((pid + 1) % 5))) [
    | inl hit ↦
        rw hit
          (record { bounded = omega arith; now = hit; first = λ i hi lt. absurd (omega arith) })
    | inr miss ↦ rw miss (
        back miss (next_ready procs f ((pid + 1) % 5))
          (next_ready-Searched f ((pid + 1) % 5) (omega arith)))
  ]
    where
      back :
          ready procs ((pid + 1) % 5) ≡ false
          → (r : Option ℕ) → Searched procs f ((pid + 1) % 5) r
          → Searched procs (suc f) pid r
      back miss none t = λ i hi lt. elim (ℕ_discrete i ((pid + 1) % 5)) [
        | yes e ↦ rw e miss
        | no ne ↦ t i hi (omega arith)
      ]
      back miss (some q) t = record {
        bounded = t.bounded;
        now = t.now;
        first = λ i hi lt. elim (ℕ_discrete i ((pid + 1) % 5)) [
          | yes e ↦ rw e miss
          | no ne ↦ t.first i hi (omega (arith, t.bounded))
        ];
      }

  pub next_ready-none : NoneReady procs → (f pid : ℕ) → next_ready procs f pid ≡ none
  unfolding next_ready
  next_ready-none idle zero pid = refl
  next_ready-none idle (suc f) pid =
      rw (idle ((pid + 1) % 5) (omega arith)) (next_ready-none idle f ((pid + 1) % 5))

  -- Five rounds find the first runnable process, or there is none.
  pub next_ready_lem :
      (pid : ℕ)
      → pid < nprocs
      → ((q : ℕ) × (next_ready procs nprocs pid ≡ some q) × FirstReady procs pid q)
        ⊎ ((next_ready procs nprocs pid ≡ none) × NoneReady procs)
  next_ready_lem pid h = split (next_ready procs 5 pid) refl (next_ready-Searched 5 pid h)
    where
      split :
          (r : Option ℕ)
          → next_ready procs 5 pid ≡ r
          → Searched procs 5 pid r
          → ((q : ℕ) × (next_ready procs nprocs pid ≡ some q) × FirstReady procs pid q)
            ⊎ ((next_ready procs nprocs pid ≡ none) × NoneReady procs)
      split (some q) e t = inl (q, e, t)
      split none e t = inr (e, λ i hi. t i hi (omega arith))

-- Algorithm 0: `schedule` runs the first runnable process behind the running one, going round the
-- table, and changes nothing but `current`; or no process is runnable, and then the loop finds none
-- however many rounds it makes.
pub schedule_in_turn :
    (k : Kernel)
    → (k.proc_array k.current).pid < nprocs
    → k.scheduling_algorithm ≡ 0
    → ((q : ℕ) × (schedule k ≡ running (record k { current = q }))
        × FirstReady k.proc_array (k.proc_array k.current).pid q)
      ⊎ ((schedule k ≡ looping k)
          × ((f : ℕ) → next_ready k.proc_array f (k.proc_array k.current).pid ≡ none))
unfolding schedule choose
schedule_in_turn k h alg = elim (next_ready_lem k.proc_array (k.proc_array k.current).pid h) [
  | inl (q, e, t) ↦ inl (q, ground arith, t)
  | inr (e, idle) ↦
      inr (ground arith, λ f. next_ready-none k.proc_array idle f (k.proc_array k.current).pid)
]

-- Algorithm 1: where descriptor 0 is not in use, `schedule` runs the runnable process with the least
-- number; or no process is runnable, and then the loop finds none however many rounds it makes.
pub schedule_least_first :
    (k : Kernel)
    → Table k.proc_array
    → k.scheduling_algorithm ≡ 1
    → ((q : ℕ) × (schedule k ≡ running (record k { current = q }))
        × (ready k.proc_array q ≡ true)
        × ((i : ℕ) → i < q → ready k.proc_array i ≡ false))
      ⊎ ((schedule k ≡ looping k) × ((f : ℕ) → next_ready k.proc_array f 0 ≡ none))
unfolding schedule choose
schedule_least_first k t alg = elim (next_ready_lem k.proc_array 0 (omega arith)) [
  | inl (q, e, n) ↦ inl (q, ground arith, n.now, λ i lt. least q n i lt)
  | inr (e, idle) ↦ inr (ground arith, λ f. next_ready-none k.proc_array idle f 0)
]
  where
    least : (q : ℕ) → FirstReady k.proc_array 0 q → (i : ℕ) → i < q → ready k.proc_array i ≡ false
    least q n i lt = elim (ℕ_discrete i 0) [
      | yes e ↦ ground (arith, t.slot_zero)
      | no ne ↦ n.first i (omega (arith, n.bounded)) (omega (arith, n.bounded))
    ]
