-- ===== src/Schedos/State.antt =====
-- The data of weensyos2: schedos-kern.h `process_t`, schedos.h and the globals of schedos-kern.c. The
-- registers and the process states are those of weensyos1, whose x86.h is the same file.
use cs111_operating_system.Prelude.{ℕ}
use cs111_operating_system.Miniproc.State.{Registers, ProcState}

abbrev pub nprocs : ℕ
nprocs = 5

abbrev pub proc1_start : ℕ
proc1_start = 0x200000

abbrev pub proc_size : ℕ
proc_size = 0x100000

abbrev pub int_sys_yield : ℕ
int_sys_yield = 48

abbrev pub int_sys_exit : ℕ
int_sys_exit = 49

abbrev pub int_sys_user1 : ℕ
int_sys_user1 = 50

abbrev pub int_sys_user2 : ℕ
int_sys_user2 = 51

abbrev pub int_clock : ℕ
int_clock = 32

-- `p_priority` is an int, as its pattern of 32 bits.
pub record Process : Type 0 where
  pub pid : ℕ
  pub registers : Registers
  pub state : ProcState
  pub exit_status : ℕ
  pub priority : ℕ

pub record Kernel : Type 0 where
  pub proc_array : ℕ → Process
  pub current : ℕ
  pub scheduling_algorithm : ℕ

-- `running k`: the processor goes to the process `current` of `k`. `looping k`: the kernel stays in
-- a loop that changes nothing.
pub data Outcome : Type 0 where
  running : Kernel → Outcome
  looping : Kernel → Outcome
