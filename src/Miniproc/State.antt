-- ===== src/Miniproc/State.antt =====
-- The data of weensyos1: x86.h `registers_t`, mpos-kern.h `procstate_t` and `process_t`, mpos.h.
use cs111_operating_system.Prelude.{ℕ, Bool, true, false, Option, Memory}

abbrev pub nprocs : ℕ
nprocs = 16

abbrev pub int_sys_getpid : ℕ
int_sys_getpid = 48

abbrev pub int_sys_fork : ℕ
int_sys_fork = 49

abbrev pub int_sys_yield : ℕ
int_sys_yield = 50

abbrev pub int_sys_exit : ℕ
int_sys_exit = 51

abbrev pub int_sys_wait : ℕ
int_sys_wait = 52

-- The registers that a system call saves, in the order of the C structure, less its padding.
pub record Registers : Type 0 where
  pub edi : ℕ
  pub esi : ℕ
  pub ebp : ℕ
  pub original_esp : ℕ
  pub ebx : ℕ
  pub edx : ℕ
  pub ecx : ℕ
  pub eax : ℕ
  pub es : ℕ
  pub ds : ℕ
  pub intno : ℕ
  pub err : ℕ
  pub eip : ℕ
  pub cs : ℕ
  pub eflags : ℕ
  pub esp : ℕ
  pub ss : ℕ

pub data ProcState : Type 0 where
  empty runnable blocked zombie : ProcState

abbrev pub is_empty : ProcState → Bool
is_empty ProcState.empty = true
is_empty _ = false

abbrev pub is_runnable : ProcState → Bool
is_runnable ProcState.runnable = true
is_runnable _ = false

abbrev pub is_zombie : ProcState → Bool
is_zombie ProcState.zombie = true
is_zombie _ = false

-- The pointer `queue` is an index of `proc_array`; NULL is `none`.
pub record Process : Type 0 where
  pub pid : ℕ
  pub registers : Registers
  pub state : ProcState
  pub exit_status : ℕ
  pub queue : Option ℕ

-- The globals `proc_array` and `current` (an index of it), and the bytes of RAM less those globals: a
-- write to the addresses where they lie is not seen in `proc_array`, so what is said of a run assumes that
-- there is none.
pub record Kernel : Type 0 where
  pub proc_array : ℕ → Process
  pub current : ℕ
  pub memory : Memory

-- How a system call ends: `run` gives the processor to the process `current`, or the kernel loops
-- for ever, or it has gone past the end of `proc_array`.
pub data Outcome : Type 0 where
  running : Kernel → Outcome
  looping : Kernel → Outcome
  out_of_array : Kernel → Outcome
