-- ===== src/Schedos/Inv.antt =====
-- The well-formedness of SchedOS's process table, and of the kernel whenever a process runs.
use cs111_operating_system.Prelude.{ℕ, ◌<◌, ◌≡◌, ◌≢◌}
use cs111_operating_system.Miniproc.State.{ProcState}
use cs111_operating_system.Schedos.State.{nprocs, Process, Kernel}

pub record Table (procs : ℕ → Process) : Type 0 where
  pub pids : (i : ℕ) → i < nprocs → (procs i).pid ≡ i
  pub slot_zero : (procs 0).state ≡ ProcState.empty

pub record Inv (k : Kernel) : Type 0 where
  pub table : Table k.proc_array
  pub open table use *
  pub current_in : k.current < nprocs
  pub current_nonzero : k.current ≢ 0
  pub current_runnable : (k.proc_array k.current).state ≡ ProcState.runnable
