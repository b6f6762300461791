-- ===== src/Schedos.antt =====
-- weensyos2/schedos-kern.c, the kernel of SchedOS, with `run` and `special_registers_init` of
-- weensyos2/schedos-x86.c. Its data are in Schedos/State.
pub mod State
mod Inv
mod RoundRobin
mod Priority
mod Invariant
mod Fair
mod Tests
use cs111_operating_system.Prelude.{
  ℕ, zero, suc, ◌+◌, ◌-◌, ◌*◌, ◌%◌, Bool, ◌&&◌, not, Option, none, some, update, if◌then◌else◌,
  ◌==◌, ltb, leb, int_ltb,
}
use cs111_operating_system.Miniproc.State.{Registers, ProcState, is_runnable}
use cs111_operating_system.Miniproc.{zero_registers}
use cs111_operating_system.Schedos.State.{
  nprocs, proc1_start, proc_size, int_sys_yield, int_sys_exit, int_sys_user1, int_sys_user2,
  int_clock, Process, Kernel, Outcome, running, looping,
}

abbrev pub set_process : Kernel → ℕ → Process → Kernel
set_process k i p = record k { proc_array = update k.proc_array i p }

-- `run(&proc_array[i])`.
abbrev pub run : Kernel → ℕ → Outcome
run k i = running (record k { current = i })

abbrev pub ready : (ℕ → Process) → ℕ → Bool
ready procs i = is_runnable (procs i).state

-- `while (1) { pid = (pid + 1) % NPROCS; if (runnable) run(...); }`, the loop of the algorithms 0 and
-- 1, for a number of rounds.
pub next_ready : (ℕ → Process) → (rounds pid : ℕ) → Option ℕ
next_ready procs zero pid = none
next_ready procs (suc f) pid =
    let rest = next_ready procs f ((pid + 1) % nprocs) in
    if ready procs ((pid + 1) % nprocs) then some ((pid + 1) % nprocs) else rest

-- The first `for` of algorithm 2, from index `i` on: the least priority below `min`, and who has it.
pub find_higher : (ℕ → Process) → (rounds i min found : ℕ) → ℕ × ℕ
find_higher procs zero i min found = (min, found)
find_higher procs (suc f) i min found =
    let better = ready procs i && int_ltb (procs i).priority min in
    find_higher procs f (i + 1) (if better then (procs i).priority else min)
      (if better then i else found)

-- The second `for`: the next process round the table that has priority `min`.
pub find_equal : (ℕ → Process) → (rounds pid i min : ℕ) → Option ℕ
find_equal procs zero pid i min = none
find_equal procs (suc f) pid i min =
    let rest = find_equal procs f pid (i + 1) min in
    let j : ℕ = (pid + i) % nprocs in
    if ready procs j && (procs j).priority == min then some j else rest

-- One round of the `while` of algorithm 2: whom it runs, if it runs a process.
pub priority_round : (ℕ → Process) → (pid : ℕ) → Option ℕ
priority_round procs pid =
    let (min, found) = find_higher procs nprocs 0 (procs pid).priority 0 in
    if not (found == 0) then some found else elim (find_equal procs nprocs pid 1 min) [
      | some j ↦ some j
      | none ↦ if ready procs ((pid + 1) % nprocs) then some ((pid + 1) % nprocs) else none
    ]

pub priority_loop : (ℕ → Process) → (rounds pid : ℕ) → Option ℕ
priority_loop procs zero pid = none
priority_loop procs (suc f) pid =
    let rest = priority_loop procs f ((pid + 1) % nprocs) in
    elim (priority_round procs pid) [ some j ↦ some j | none ↦ rest ]

-- Whom `schedule` runs. Each loop has `NPROCS` rounds: after those it is back where it began.
pub choose : Kernel → Option ℕ
choose k =
    let pid : ℕ = (k.proc_array k.current).pid in
    if k.scheduling_algorithm == 0
    then next_ready k.proc_array nprocs pid
    else if k.scheduling_algorithm == 1
    then next_ready k.proc_array nprocs 0
    else if k.scheduling_algorithm == 2
    then priority_loop k.proc_array nprocs pid
    else none

pub schedule : Kernel → Outcome
schedule k = elim (choose k) [ some i ↦ run k i | none ↦ looping k ]

pub interrupt : Kernel → Registers → Outcome
interrupt k reg =
    let p = k.proc_array k.current in
    let saved : Process = record p { registers = reg } in
    let k1 = set_process k k.current saved in
    if reg.intno == int_sys_yield
    then schedule k1
    else if reg.intno == int_sys_exit
    then schedule (
        set_process k1 k.current (record saved { state = ProcState.zombie; exit_status = reg.eax }))
    else if reg.intno == int_sys_user1
    then run (set_process k1 k.current (record saved { priority = reg.eax })) k.current
    else if reg.intno == int_sys_user2
    then run k1 k.current
    else if reg.intno == int_clock
    then schedule k1
    else looping k1

-- Selectors 0x18 and 0x20 at privilege level 3, with interrupts enabled.
abbrev pub app_registers : Registers
app_registers = record zero_registers { cs = 0x1b; ds = 0x23; es = 0x23; ss = 0x23; eflags = 0x200 }

-- The priorities that `start` hands out.
abbrev pub first_priority : ℕ → ℕ
first_priority i =
    if i == 1 then 3 else if i == 2 then 2 else if i == 3 then 1 else if i == 4 then 3 else 0

-- The processes as `start` leaves them; `entry` gives the entry points that the loader finds.
pub first_process : (entry : ℕ → ℕ) → ℕ → Process
first_process entry i =
    if leb 1 i && ltb i nprocs
    then record {
      pid = i;
      registers = record app_registers { esp = proc1_start + i * proc_size; eip = entry (i - 1) };
      state = ProcState.runnable;
      exit_status = 0;
      priority = first_priority i;
    }
    else record {
      pid = i;
      registers = zero_registers;
      state = ProcState.empty;
      exit_status = 0;
      priority = 0;
    }

pub start : (entry : ℕ → ℕ) → Outcome
start entry =
    run (record { proc_array = first_process entry; current = 1; scheduling_algorithm = 0 }) 1
