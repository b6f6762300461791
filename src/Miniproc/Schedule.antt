-- ===== src/Miniproc/Schedule.antt =====
-- Which process `schedule` of MiniprocOS runs.
use cs111_operating_system.Prelude.{
  ℕ, zero, suc, ◌+◌, ◌-◌, ◌%◌, ◌<◌, ◌≡◌, ◌⊎◌, refl, arith, inl, inr, ℕ_discrete, Option, some, none,
  true, false, Bool-cases,
}
use cs111_operating_system.Miniproc.State.{Kernel, Process, is_runnable, nprocs, running, looping}
use cs111_operating_system.Miniproc.{next_runnable, schedule}
use cs111_operating_system.Miniproc.Inv.{Table, Inv}

-- How many processes are tried before `i` when the last one run was `pid`.
abbrev pub distance : (pid i : ℕ) → ℕ
distance pid i = (i + 31 - pid) % 16

-- `q` is the first runnable process after `pid`, going round the table.
pub record Next (procs : ℕ → Process) (pid q : ℕ) : Type 0 where
  pub bounded : q < nprocs
  pub ready : is_runnable (procs q).state ≡ true
  pub first :
      (i : ℕ) → i < nprocs → distance pid i < distance pid q → is_runnable (procs i).state ≡ false

-- What a run of the loop has found, by its result.
abbrev Tried : (ℕ → Process) → (f pid : ℕ) → Option ℕ → Type 0
Tried procs f pid none =
    (i : ℕ) → i < nprocs → distance pid i < f → is_runnable (procs i).state ≡ false
Tried procs f pid (some q) = Next procs pid q

next_runnable-Tried :
    (procs : ℕ → Process) (f pid : ℕ) → pid < nprocs → Tried procs f pid (next_runnable procs f pid)
unfolding next_runnable
next_runnable-Tried procs zero pid h = λ i hi lt. absurd (omega arith)
next_runnable-Tried procs (suc f) pid h =
    elim (Bool-cases (is_runnable (procs ((pid + 1) % 16)).state)) [
      | inl now ↦
          rw now
            (record { bounded = omega arith; ready = now; first = λ i hi lt. absurd (omega arith) })
      | inr later ↦ rw later (
          step (next_runnable procs f ((pid + 1) % 16))
            (next_runnable-Tried procs f ((pid + 1) % 16) (omega arith)) later)
    ]
  where
    step :
        (r : Option ℕ)
        → Tried procs f ((pid + 1) % 16) r
        → is_runnable (procs ((pid + 1) % 16)).state ≡ false
        → Tried procs (suc f) pid r
    step none t later = λ i hi lt. elim (ℕ_discrete i ((pid + 1) % 16)) [
      | yes e ↦ rw e later
      | no ne ↦ t i hi (omega arith)
    ]
    step (some q) t later = record {
      bounded = t.bounded;
      ready = t.ready;
      first = λ i hi lt. elim (ℕ_discrete i ((pid + 1) % 16)) [
        | yes e ↦ rw e later
        | no ne ↦ t.first i hi (omega (arith, t.bounded))
      ];
    }

-- No process can be run.
abbrev pub IsIdle : Kernel → Type 0
IsIdle k = (i : ℕ) → i < nprocs → is_runnable (k.proc_array i).state ≡ false

next_runnable-none : (k : Kernel) → IsIdle k → (f pid : ℕ) → next_runnable k.proc_array f pid ≡ none
unfolding next_runnable
next_runnable-none k idle zero pid = refl
next_runnable-none k idle (suc f) pid =
    rw (idle ((pid + 1) % 16) (omega arith)) (next_runnable-none k idle f ((pid + 1) % 16))

abbrev Chosen : Kernel → (pid : ℕ) → Option ℕ → Type 0
Chosen k pid (some q) = Next k.proc_array pid q
Chosen k pid none = IsIdle k

chosen : (k : Kernel) (pid : ℕ) → pid < nprocs → Chosen k pid (next_runnable k.proc_array 16 pid)
chosen k pid h =
    weaken (next_runnable k.proc_array 16 pid) (next_runnable-Tried k.proc_array 16 pid h)
  where
    weaken : (r : Option ℕ) → Tried k.proc_array 16 pid r → Chosen k pid r
    weaken (some q) t = t
    weaken none t = λ i hi. t i hi (omega arith)

-- Where the running process has a number below 16, `schedule` runs the first runnable process after
-- it, going round the table, and changes nothing but `current`; or no process is runnable, and then
-- the loop finds none however many rounds it makes.
pub schedule_round_robin :
    (k : Kernel)
    → (k.proc_array k.current).pid < nprocs
    → ((q : ℕ) × (schedule k ≡ running (record k { current = q }))
        × Next k.proc_array (k.proc_array k.current).pid q)
      ⊎ ((schedule k ≡ looping k)
          × IsIdle k
          × ((f : ℕ) → next_runnable k.proc_array f (k.proc_array k.current).pid ≡ none))
unfolding schedule
schedule_round_robin k h = split (next_runnable k.proc_array 16 pid) refl (chosen k pid h)
  where
    pid : ℕ
    pid = (k.proc_array k.current).pid

    split :
        (r : Option ℕ)
        → next_runnable k.proc_array 16 pid ≡ r
        → Chosen k pid r
        → ((q : ℕ) × (schedule k ≡ running (record k { current = q })) × Next k.proc_array pid q)
          ⊎ ((schedule k ≡ looping k)
              × IsIdle k
              × ((f : ℕ) → next_runnable k.proc_array f pid ≡ none))
    split (some q) e n = inl (q, ground arith, n)
    split none e idle = inr (ground arith, idle, λ f. next_runnable-none k idle f pid)

-- What `schedule` runs is well formed, if the table is.
pub schedule-Inv :
    (k k' : Kernel) → Table k.proc_array → k.current < nprocs → schedule k ≡ running k' → Inv k'
schedule-Inv k k' t c e = elim (schedule_round_robin k (ground (arith, t.pids k.current))) [
  | inl (q, r, n) ↦
      let same : record k { current = q } ≡ k' = cc in
      let good : Inv (record k { current = q }) = record {
        table = t;
        current_in = n.bounded;
        current_nonzero = ground (arith, t.slot_zero, n.ready);
        current_runnable = ground (arith, n.ready);
      } in
      rw same at good
  | inr (r, idle, _) ↦ absurd (cc)
]
