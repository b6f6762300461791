-- ===== src/Schedos/Invariant.antt =====
-- Every interrupt keeps SchedOS's table and kernel well formed, and the kernel runs a process as long
-- as one can run.
use cs111_operating_system.Prelude.{
  ℕ, ◌<◌, ◌≡◌, ◌⊎◌, refl, arith, inl, inr, ℕ_discrete, dec_lt, true, ◌==◌, if-both,
}
use mathlib.Core.Path.{subst}
use cs111_operating_system.Miniproc.State.{Registers, ProcState}
use cs111_operating_system.Schedos.State.{
  nprocs, int_sys_yield, int_sys_exit, int_sys_user1, int_sys_user2, int_clock, Process, Kernel,
  Outcome, running, looping,
}
use cs111_operating_system.Schedos.{
  set_process, ready, choose, schedule, interrupt, first_process, start,
}
use cs111_operating_system.Schedos.Inv.{Table, Inv}
use cs111_operating_system.Schedos.RoundRobin.{NoneReady, next_ready_lem}
use cs111_operating_system.Schedos.Priority.{priority_loop_lem}

-- `schedule` runs a process that can run and changes nothing else; or it stays in a loop, and no
-- process can run.
abbrev pub Scheduled : Kernel → Type 0
Scheduled k =
    ((q : ℕ) × (schedule k ≡ running (record k { current = q }))
      × (q < nprocs)
      × (ready k.proc_array q ≡ true))
    ⊎ ((schedule k ≡ looping k) × NoneReady k.proc_array)

-- Each of the three algorithms runs a process that can run, if there is one, and stays in its loop
-- only if there is none.
pub schedule-Scheduled :
    (k : Kernel)
    → Table k.proc_array
    → k.current < nprocs
    → k.scheduling_algorithm < 3
    → Scheduled k
unfolding schedule choose
schedule-Scheduled k t h alg = elim (ℕ_discrete k.scheduling_algorithm 0) [
  | yes at0 ↦ elim (next_ready_lem k.proc_array (k.proc_array k.current).pid pid_in) [
    | inl (q, e, n) ↦ inl (q, ground arith, n.bounded, n.now)
    | inr (e, idle) ↦ inr (ground arith, idle)
  ]
  | no not0 ↦ elim (ℕ_discrete k.scheduling_algorithm 1) [
    | yes at1 ↦ elim (next_ready_lem k.proc_array 0 (omega arith)) [
      | inl (q, e, n) ↦ inl (q, ground arith, n.bounded, n.now)
      | inr (e, idle) ↦ inr (ground arith, idle)
    ]
    | no not1 ↦ elim (priority_loop_lem k.proc_array t (k.proc_array k.current).pid pid_in) [
      | inl (q, e, hi, now) ↦ inl (q, ground arith, hi, now)
      | inr (e, idle) ↦ inr (ground arith, idle)
    ]
  ]
]
  where
    pid_in : (k.proc_array k.current).pid < nprocs
    pid_in = rw (t.pids k.current h) h

-- What an interrupt leaves well formed: the whole kernel, or the table where it loops.
pub data Good : Outcome → Type 0 where
  goes_on : {k : Kernel} → Inv k → Good (running k)
  stops : {k : Kernel} → Table k.proc_array → Good (looping k)

pub Good-Inv : {k : Kernel} → Good (running k) → Inv k
Good-Inv (goes_on inv) = inv

chosen-Inv :
    (k : Kernel) (q : ℕ)
    → Table k.proc_array
    → q < nprocs
    → ready k.proc_array q ≡ true
    → Inv (record k { current = q })
chosen-Inv k q t hi now = record {
  table = t;
  current_in = hi;
  current_nonzero = λ e. absurd (ground (arith, t.slot_zero));
  current_runnable = ground arith;
}

schedule-Good : (k : Kernel) → Table k.proc_array → k.current < nprocs → Good (schedule k)
unfolding schedule choose
schedule-Good k t h = elim (dec_lt k.scheduling_algorithm 3) [
  | yes lt ↦ elim (schedule-Scheduled k t h lt) [
    | inl (q, e, hi, now) ↦ rw e (goes_on (chosen-Inv k q t hi now))
    | inr (e, idle) ↦ rw e (stops t)
  ]
  | no ge ↦ rw (unknown ge) (stops t)
]
  where
    unknown : ¬ k.scheduling_algorithm < 3 → schedule k ≡ looping k
    unknown ge = ground arith

-- The table with a new descriptor for the running process.
saved-Table :
    (k : Kernel)
    → Inv k
    → (p : Process) → p.pid ≡ (k.proc_array k.current).pid
    → Table (set_process k k.current p).proc_array
saved-Table k inv p e = record {
  pids = λ i h. ground (arith, inv.pids i h);
  slot_zero = ground (arith, inv.slot_zero, inv.current_nonzero);
}

saved-Inv :
    (k : Kernel)
    → Inv k
    → (p : Process) → p.pid ≡ (k.proc_array k.current).pid
    → p.state ≡ ProcState.runnable
    → Inv (set_process k k.current p)
saved-Inv k inv p e r = record {
  table = saved-Table k inv p e;
  current_in = inv.current_in;
  current_nonzero = inv.current_nonzero;
  current_runnable = ground arith;
}

-- Every interrupt taken from a running process, with any registers and any scheduling algorithm,
-- leaves the kernel well formed, with a process other than 0 that can run at the processor; or the
-- kernel loops, and the table is well formed.
pub interrupt-Good : (k : Kernel) (reg : Registers) → Inv k → Good (interrupt k reg)
unfolding interrupt
interrupt-Good k reg inv =
    if-both Good (reg.intno == int_sys_yield) _ _ (λ _. schedule-Good k1 inv1.table inv1.current_in)
      (λ _.
        if-both Good (reg.intno == int_sys_exit) _ _
          (λ _. schedule-Good _ (saved-Table k1 inv1 exited (ground arith)) inv1.current_in)
          (λ _.
            if-both Good (reg.intno == int_sys_user1) _ _
              (λ _.
                goes_on
                  (saved-Inv k1 inv1 retuned (ground arith) (ground (arith, inv.current_runnable))))
              (λ _.
                if-both Good (reg.intno == int_sys_user2) _ _ (λ _. goes_on inv1)
                  (λ _.
                    if-both Good (reg.intno == int_clock) _ _
                      (λ _. schedule-Good k1 inv1.table inv1.current_in) (λ _. stops inv1.table)))))
  where
    saved : Process
    saved = let p = k.proc_array k.current in record p { registers = reg }

    k1 : Kernel
    k1 = set_process k k.current saved

    exited : Process
    exited = record saved { state = ProcState.zombie; exit_status = reg.eax }

    retuned : Process
    retuned = record saved { priority = reg.eax }

    inv1 : Inv k1
    inv1 = saved-Inv k inv _ refl inv.current_runnable

-- The kernels that a run of the machine goes through while a process runs, under a choice of
-- algorithm. Between two interrupts the processes change their registers in any way.
pub data Run : Kernel → Type 0 where
  boot :
      (entry : ℕ → ℕ) (alg : ℕ) {k : Kernel}
      → start entry ≡ running k
      → Run (record k { scheduling_algorithm = alg })
  trap : {k k' : Kernel} (reg : Registers) → Run k → interrupt k reg ≡ running k' → Run k'

start-Inv :
    (entry : ℕ → ℕ) (alg : ℕ)
    → Inv (record { proc_array = first_process entry; current = 1; scheduling_algorithm = alg })
unfolding first_process
start-Inv entry alg = record {
  table = record { pids = λ i h. ground arith; slot_zero = refl };
  current_in = omega arith;
  current_nonzero = omega arith;
  current_runnable = refl;
}

Chosen : ℕ → Outcome → Type 0
Chosen alg (running k) = Inv (record k { scheduling_algorithm = alg })
Chosen alg (looping k) = Unit

-- Every kernel that a run goes through from `start` on, whatever the algorithm, is well formed.
pub Run-Inv : {k : Kernel} → Run k → Inv k
unfolding start Chosen
Run-Inv (boot entry alg {k} e) = subst (Chosen alg) e (start-Inv entry alg)
Run-Inv (trap {k} reg r e) = Good-Inv (rw e at (interrupt-Good k reg (Run-Inv r)))
