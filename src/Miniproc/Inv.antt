-- ===== src/Miniproc/Inv.antt =====
-- The well-formedness of MiniprocOS's process table, and of the kernel whenever a process runs.
use cs111_operating_system.Prelude.{ℕ, ◌<◌, ◌≡◌, ◌≢◌, some, false}
use cs111_operating_system.Miniproc.State.{Kernel, Process, ProcState, is_zombie, nprocs}

pub record Table (procs : ℕ → Process) : Type 0 where
  pub pids : (i : ℕ) → i < nprocs → (procs i).pid ≡ i
  pub slot_zero : (procs 0).state ≡ ProcState.empty
  pub no_zombie : (i : ℕ) → i < nprocs → is_zombie (procs i).state ≡ false
  pub queues_in : (i w : ℕ) → i < nprocs → (procs i).queue ≡ some w → w < nprocs
  pub queues_nonzero : (i w : ℕ) → i < nprocs → (procs i).queue ≡ some w → w ≢ 0

pub record Inv (k : Kernel) : Type 0 where
  pub table : Table k.proc_array
  pub open table use *
  pub current_in : k.current < nprocs
  pub current_nonzero : k.current ≢ 0
  pub current_runnable : (k.proc_array k.current).state ≡ ProcState.runnable
