-- ===== src/Miniproc/Invariant.antt =====
-- Every system call of MiniprocOS keeps the process table and the kernel well formed.
use cs111_operating_system.Prelude.{
  ◌∙◌, sym, ℕ, ◌<◌, ◌≡◌, refl, arith, inl, inr, ◌≢◌, ℕ_discrete, some, false, Bool-cases, update,
  minus_one, Memory, ◌==◌,
}
use cs111_operating_system.Miniproc.State.{
  Kernel, Process, ProcState, Registers, is_zombie, nprocs, running, int_sys_getpid, int_sys_fork,
  int_sys_yield, int_sys_exit, int_sys_wait,
}
use cs111_operating_system.Miniproc.{
  wake, set_process, set_state, return_value, copy_stack, exit_current, sys_exit, sys_wait,
  sys_fork, dispatch, interrupt, wait_for, bad_wait, start, boot_process,
}
use cs111_operating_system.Miniproc.Inv.{Table, Inv}
use cs111_operating_system.Miniproc.Memcpy.{InStack, copy_stack_fields, copy_stack_others}
use cs111_operating_system.Miniproc.Fork.{
  with_child, fork_slot-current, do_fork_of_slot, do_fork_overruns,
}
use cs111_operating_system.Miniproc.Schedule.{schedule-Inv}

-- A new descriptor for process `i` that fits the table.
record Fits (i : ℕ) (p : Process) : Type 0 where
  bounded : i < nprocs
  nonzero : i ≢ 0
  pid : p.pid ≡ i
  not_zombie : is_zombie p.state ≡ false
  queue_in : (w : ℕ) → p.queue ≡ some w → w < nprocs
  queue_nonzero : (w : ℕ) → p.queue ≡ some w → w ≢ 0

Table-update :
    (procs : ℕ → Process) (i : ℕ) (p : Process) → Table procs → Fits i p → Table (update procs i p)
Table-update procs i p t f = record {
  pids = λ j h. ground (arith, t.pids j h);
  slot_zero = ground (arith, t.slot_zero);
  no_zombie = λ j h. ground (arith, t.no_zombie j h);
  queues_in = λ j w h. ground (arith, t.queues_in j w h, f.queue_in w);
  queues_nonzero = λ j w h. ground (arith, t.queues_nonzero j w h, f.queue_nonzero w);
}

-- A process that goes on running with a result in eax.
running-Inv :
    (k : Kernel) (i v : ℕ)
    → Table k.proc_array
    → i < nprocs
    → i ≢ 0
    → (k.proc_array i).state ≡ ProcState.runnable
    → Inv (record (return_value k i v) { current = i })
running-Inv k i v t h nz r = record {
  table = Table-update k.proc_array i _ t (record {
    bounded = h;
    nonzero = nz;
    pid = t.pids i h;
    not_zombie = t.no_zombie i h;
    queue_in = λ w. t.queues_in i w h;
    queue_nonzero = λ w. t.queues_nonzero i w h;
  });
  current_in = h;
  current_nonzero = nz;
  current_runnable = ground arith;
}

module _ (k : Kernel) (inv : Inv k) where
  exit_current-Table : Table (exit_current k).proc_array
  unfolding exit_current wake
  exit_current-Table = record {
    pids = λ j h. ground (arith, inv.pids j h, inv.pids k.current);
    slot_zero = ground (arith, inv.slot_zero, inv.queues_nonzero k.current 0);
    no_zombie = λ j h. ground (arith, inv.no_zombie j h);
    queues_in = λ j w h. ground (arith, inv.queues_in j w h);
    queues_nonzero = λ j w h. ground (arith, inv.queues_nonzero j w h);
  }

  own-Fits :
      (p : Process)
      → p.pid ≡ (k.proc_array k.current).pid
      → p.queue ≡ (k.proc_array k.current).queue
      → is_zombie p.state ≡ false
      → Fits k.current p
  own-Fits p e q z = record {
    bounded = inv.current_in;
    nonzero = inv.current_nonzero;
    pid = e ∙ inv.pids k.current inv.current_in;
    not_zombie = z;
    queue_in = λ w h. inv.queues_in k.current w inv.current_in (sym q ∙ h);
    queue_nonzero = λ w h. inv.queues_nonzero k.current w inv.current_in (sym q ∙ h);
  }

  returned-Table : (v : ℕ) → Table (return_value k k.current v).proc_array
  returned-Table v =
      Table-update k.proc_array k.current _ inv.table
        (own-Fits _ refl refl (inv.no_zombie k.current inv.current_in))

  blocked-Table :
      (p : ℕ)
      → bad_wait k p ≡ false
      → Table
          (let k1 = set_state k k.current ProcState.blocked in
            let target = k1.proc_array p in
            set_process k1 p (record target { queue = some k.current })).proc_array
  unfolding bad_wait
  blocked-Table p g = record {
    pids = λ j h. ground (arith, inv.pids j h, inv.pids k.current, inv.pids p);
    slot_zero = ground (arith, inv.slot_zero, inv.current_nonzero);
    no_zombie = λ j h. ground (arith, inv.no_zombie j h, inv.no_zombie p);
    queues_in = λ j w h. ground (arith, inv.queues_in j w h, inv.current_in);
    queues_nonzero = λ j w h. ground (arith, inv.queues_nonzero j w h, inv.current_nonzero);
  }

  wait_for-Table : (p : ℕ) → Table (wait_for k p).proc_array
  unfolding wait_for
  wait_for-Table p = elim (Bool-cases (bad_wait k p)) [
    | inl bad ↦ rw bad (returned-Table minus_one)
    | inr fine ↦ elim (Bool-cases (is_zombie (k.proc_array p).state)) [
      | inl z ↦ rw (fine, z) (returned-Table (k.proc_array p).exit_status)
      | inr live ↦ rw (fine, live) (blocked-Table p fine)
    ]
  ]

  wait_for-current : (p : ℕ) → (wait_for k p).current ≡ k.current
  unfolding wait_for
  wait_for-current p = ground arith

  sys_wait-Inv : {k' : Kernel} → sys_wait k ≡ running k' → Inv k'
  unfolding sys_wait
  sys_wait-Inv {k'} e =
      schedule-Inv _ k' (wait_for-Table _)
        (rw (wait_for-current (k.proc_array k.current).registers.eax) inv.current_in) e

  exit_current-current : (exit_current k).current ≡ k.current
  unfolding exit_current wake
  exit_current-current = ground arith

  sys_exit-Inv : {k' : Kernel} → sys_exit k ≡ running k' → Inv k'
  unfolding sys_exit
  sys_exit-Inv {k'} e =
      schedule-Inv (exit_current k) k' exit_current-Table (rw exit_current-current inv.current_in) e

  -- A child in descriptor `c`, before and after its stack is copied.
  child-Table :
      (c : ℕ)
      → c < nprocs
      → c ≢ 0
      → Table (copy_stack (with_child k k.current c) c k.current).proc_array
  child-Table c h nz = record {
    pids = λ j hj. rw (fields j).0 (placed.pids j hj);
    slot_zero = (fields 0).1 ∙ placed.slot_zero;
    no_zombie = λ j hj. rw (fields j).1 (placed.no_zombie j hj);
    queues_in = λ j w hj q. placed.queues_in j w hj (sym (fields j).2 ∙ q);
    queues_nonzero = λ j w hj q. placed.queues_nonzero j w hj (sym (fields j).2 ∙ q);
  }
    where
      placed : Table (with_child k k.current c).proc_array
      placed = Table-update k.proc_array c _ inv.table (record {
        bounded = h;
        nonzero = nz;
        pid = refl;
        not_zombie = refl;
        queue_in = λ w. inv.queues_in c w h;
        queue_nonzero = λ w. inv.queues_nonzero c w h;
      })

      fields :
          (i : ℕ)
          → (((copy_stack (with_child k k.current c) c k.current).proc_array i).pid
              ≡ ((with_child k k.current c).proc_array i).pid)
            × (((copy_stack (with_child k k.current c) c k.current).proc_array i).state
                ≡ ((with_child k k.current c).proc_array i).state)
            × (((copy_stack (with_child k k.current c) c k.current).proc_array i).queue
                ≡ ((with_child k k.current c).proc_array i).queue)
      fields = copy_stack_fields (with_child k k.current c) c k.current

  forked-Inv :
      (c : ℕ)
      → c < nprocs
      → c ≢ 0
      → c ≢ k.current
      → Inv (record (return_value (copy_stack (with_child k k.current c) c k.current) k.current c) {
        current = k.current;
      })
  forked-Inv c h nz ne =
      running-Inv (copy_stack (with_child k k.current c) c k.current) k.current c
        (child-Table c h nz) inv.current_in inv.current_nonzero
        (rw (copy_stack_others (with_child k k.current c) c k.current k.current (λ e. ne (sym e)))
          (ground (arith, inv.current_runnable)))

  sys_fork-Inv : {k' : Kernel} → sys_fork k ≡ running k' → Inv k'
  unfolding sys_fork
  sys_fork-Inv {k'} e = elim (ℕ_discrete k.current 15) [
    | yes last ↦ absurd (ground (arith, do_fork_overruns inv last))
    | no below ↦
        let (r, found, s) = fork_slot-current inv (omega (arith, inv.current_in)) in
        let fork = do_fork_of_slot k k.current r (inv.pids k.current inv.current_in) found in
        elim (ℕ_discrete r k.current) [
          | yes own ↦
              let same : record (return_value k k.current minus_one) { current = k.current } ≡ k' =
                ground (arith, fork) in
              rw same at (
                running-Inv k k.current minus_one inv.table inv.current_in inv.current_nonzero
                  inv.current_runnable)
          | no new ↦
              let same : record (return_value (copy_stack (with_child k k.current r) r k.current)
                    k.current r) { current = k.current }
                  ≡ k' =
                ground (arith, fork) in
              rw same at (forked-Inv r s.bounded s.nonzero new)
        ]
  ]

dispatch-Inv : (k : Kernel) (n : ℕ) {k' : Kernel} → Inv k → dispatch k n ≡ running k' → Inv k'
unfolding dispatch
dispatch-Inv k n {k'} inv e = elim (Bool-cases (n == int_sys_getpid)) [
  | inl pid ↦
      let same : record (return_value k k.current (k.proc_array k.current).pid) {
        current = k.current;
      }
          ≡ k' =
        ground arith in
      rw same at (
        running-Inv k k.current (k.proc_array k.current).pid inv.table inv.current_in
          inv.current_nonzero inv.current_runnable)
  | inr a ↦ elim (Bool-cases (n == int_sys_fork)) [
    | inl fork ↦ sys_fork-Inv k inv (ground arith)
    | inr b ↦ elim (Bool-cases (n == int_sys_yield)) [
      | inl yield ↦ schedule-Inv k k' inv.table inv.current_in (ground arith)
      | inr c ↦ elim (Bool-cases (n == int_sys_exit)) [
        | inl exit ↦ sys_exit-Inv k inv (ground arith)
        | inr d ↦ elim (Bool-cases (n == int_sys_wait)) [
          | inl wait ↦ sys_wait-Inv k inv (ground arith)
          | inr other ↦ absurd (ground arith)
        ]
      ]
    ]
  ]
]

saved-Inv :
    (k : Kernel) (reg : Registers)
    → Inv k
    → Inv (let p = k.proc_array k.current in set_process k k.current (record p { registers = reg }))
saved-Inv k reg inv = record {
  table =
      Table-update k.proc_array k.current _ inv.table
        (own-Fits k inv _ refl refl (inv.no_zombie k.current inv.current_in));
  current_in = inv.current_in;
  current_nonzero = inv.current_nonzero;
  current_runnable = ground (arith, inv.current_runnable);
}

-- A system call, whatever its number and registers, that gives the processor to a process leaves a
-- well-formed kernel: that process is runnable, its number is not 0, no descriptor is a zombie, and
-- every waiting queue names a process of the table. (The table is apart from the memory here: `Kernel`.)
pub interrupt-Inv :
    (k : Kernel) (reg : Registers) {k' : Kernel} → Inv k → interrupt k reg ≡ running k' → Inv k'
unfolding interrupt
interrupt-Inv k reg inv e = dispatch-Inv _ reg.intno (saved-Inv k reg inv) e

-- The kernels that a run of the machine goes through while a process runs. Between two system calls
-- the processes change their memory `m` and their registers in any way. Nothing isolates them from the
-- kernel, whose own data are assumed to be left alone: no process writes them itself, and none forks with
-- a stack pointer outside of its stack, which would have `memcpy` copy to where they may lie.
pub data Reach : Kernel → Type 0 where
  boot : (entry : ℕ) (m : Memory) {k : Kernel} → start entry m ≡ running k → Reach k
  trap :
      {k k' : Kernel} (m : Memory) (reg : Registers)
      → Reach k
      → (reg.intno ≡ int_sys_fork → InStack k.current reg.esp)
      → interrupt (record k { memory = m }) reg ≡ running k'
      → Reach k'

start-Inv : (entry : ℕ) (m : Memory) {k : Kernel} → start entry m ≡ running k → Inv k
unfolding start boot_process
start-Inv entry m {k} e = rw same at good
  where
    first : Kernel
    first = record { proc_array = boot_process entry; current = 1; memory = m }

    same : first ≡ k
    same = cc

    good : Inv first
    good = record {
      table = record {
        pids = λ i h. ground arith;
        slot_zero = refl;
        no_zombie = λ i h. ground arith;
        queues_in = λ i w h q. absurd (ground arith);
        queues_nonzero = λ i w h q. absurd (ground arith);
      };
      current_in = omega arith;
      current_nonzero = omega arith;
      current_runnable = refl;
    }

-- Every kernel that a run goes through from `start` on is well formed: the table of processes and the
-- running process are as `Inv` says. In the run the processes leave the kernel's own data alone, and fork
-- only with a stack pointer in their stack.
pub Reach-Inv : {k : Kernel} → Reach k → Inv k
Reach-Inv (boot entry m e) = start-Inv entry m e
Reach-Inv (trap {k} m reg r inside e) =
    interrupt-Inv (record k { memory = m }) reg (remembered (Reach-Inv r)) e
  where
    remembered : Inv k → Inv (record k { memory = m })
    remembered inv = record {
      table = inv.table;
      current_in = inv.current_in;
      current_nonzero = inv.current_nonzero;
      current_runnable = inv.current_runnable;
    }
