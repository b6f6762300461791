-- ===== src/Miniproc.antt =====
-- weensyos1/mpos-kern.c, the kernel of MiniprocOS, with `run` and `special_registers_init` of
-- weensyos1/mpos-x86.c and `memcpy` of weensyos1/lib.c. Its data are in Miniproc/State.
pub mod State
mod Inv
mod Memcpy
mod Schedule
mod Fork
mod Invariant
mod Wait
mod Tests
use cs111_operating_system.Prelude.{
  ℕ, zero, suc, ◌+◌, ◌*◌, ◌%◌, ◌^◌, Bool, ◌&&◌, ◌||◌, not, Option, none, some, Memory, update,
  if◌then◌else◌, ◌==◌, ltb, leb, add32, sub32, u32, is_negative, minus_one,
}
use cs111_operating_system.Miniproc.State.{
  nprocs, int_sys_getpid, int_sys_fork, int_sys_yield, int_sys_exit, int_sys_wait, Registers,
  ProcState, is_empty, is_runnable, is_zombie, Process, Kernel, Outcome, running, looping,
  out_of_array,
}

abbrev pub proc1_stack_addr : ℕ
proc1_stack_addr = 0x280000

abbrev pub proc_stack_size : ℕ
proc_stack_size = 0x040000

-- `memcpy` copies byte by byte from the low end; the addresses have 32 bits.
pub memcpy : Memory → (dst src n : ℕ) → Memory
memcpy m dst src zero = m
memcpy m dst src (suc n) = memcpy (update m dst (m src)) (add32 dst 1) (add32 src 1) n

abbrev pub set_process : Kernel → ℕ → Process → Kernel
set_process k i p = record k { proc_array = update k.proc_array i p }

-- `current = proc`, and the processor goes to user mode.
abbrev pub run : Kernel → ℕ → Outcome
run k i = running (record k { current = i })

-- The rounds of the loop of `schedule`, which tries the process after `pid`, and so on round.
pub next_runnable : (ℕ → Process) → (rounds pid : ℕ) → Option ℕ
next_runnable procs zero pid = none
next_runnable procs (suc f) pid =
    let rest = next_runnable procs f ((pid + 1) % nprocs) in
    if is_runnable (procs ((pid + 1) % nprocs)).state then some ((pid + 1) % nprocs) else rest

-- After `nprocs` rounds the loop is back where it began, and nothing has changed.
pub schedule : Kernel → Outcome
schedule k = elim (next_runnable k.proc_array nprocs (k.proc_array k.current).pid) [
  | some i ↦ run k i
  | none ↦ looping k
]

-- `copy_stack`: `dest` and `src` are indices of `proc_array`.
pub copy_stack : Kernel → (dest src : ℕ) → Kernel
copy_stack k dest src =
    let s = k.proc_array src in
    let d = k.proc_array dest in
    let src_stack_top : ℕ = u32 (proc1_stack_addr + s.pid * proc_stack_size) in
    let src_stack_bottom : ℕ = s.registers.esp in
    let dest_stack_top : ℕ = u32 (proc1_stack_addr + d.pid * proc_stack_size) in
    let dest_stack_bottom : ℕ = add32 dest_stack_top (sub32 src_stack_bottom src_stack_top) in
    let regs : Registers = record d.registers { esp = dest_stack_bottom; ebp = dest_stack_top } in
    record k {
      proc_array = update k.proc_array dest (record d { registers = regs });
      memory =
          memcpy k.memory dest_stack_bottom src_stack_bottom (sub32 src_stack_top src_stack_bottom);
    }

-- The loop of `do_fork` that looks for an empty descriptor; index 16 is past the array.
pub fork_slot : (ℕ → Process) → (rounds parent childpid : ℕ) → Option ℕ
fork_slot procs zero parent childpid = none
fork_slot procs (suc f) parent childpid =
    let rest = fork_slot procs f parent ((childpid + 1) % nprocs) in
    if leb nprocs childpid
    then none
    else if (not (is_empty (procs childpid).state) && not (childpid == parent)) || childpid == 0
    then rest
    else some childpid

-- What `do_fork` returns, with the kernel that it leaves.
pub data Forked : Type 0 where
  returned : Kernel → ℕ → Forked
  overrun : Forked

pub do_fork : Kernel → (parent : ℕ) → Forked
do_fork k parent =
    let p = k.proc_array parent in
    elim (fork_slot k.proc_array (nprocs + 1) p.pid (p.pid + 1)) [
      | none ↦ Forked.overrun
      | some childpid ↦
          if childpid == p.pid
          then Forked.returned k minus_one
          else let old = k.proc_array childpid in
            let child : Process = record old {
              pid = childpid;
              registers = record p.registers { eax = 0 };
              state = ProcState.runnable;
            } in
            Forked.returned (copy_stack (set_process k childpid child) childpid parent) childpid
    ]

-- `current->p_registers.reg_eax = v`.
abbrev pub return_value : Kernel → (i v : ℕ) → Kernel
return_value k i v =
    let p = k.proc_array i in
    set_process k i (record p { registers = record (p.registers) { eax = v } })

abbrev pub set_state : Kernel → ℕ → ProcState → Kernel
set_state k i st = let p = k.proc_array i in set_process k i (record p { state = st })

pub sys_fork : Kernel → Outcome
sys_fork k = elim (do_fork k k.current) [
  | Forked.returned k' r ↦ run (return_value k' k.current r) k.current
  | Forked.overrun ↦ out_of_array k
]

-- The waiter that `queue` names becomes runnable, with the exit status as the result of its wait.
pub wake : Kernel → Option ℕ → (status : ℕ) → Kernel
wake k none status = k
wake k (some w) status = return_value (set_state k w ProcState.runnable) w status

-- `sys_exit` up to its call of `schedule`.
pub exit_current : Kernel → Kernel
exit_current k =
    let p = k.proc_array k.current in
    let dead : Process = record p { state = ProcState.zombie; exit_status = p.registers.eax } in
    let k1 = set_process k k.current dead in
    let k2 = wake k1 (k1.proc_array k.current).queue (k1.proc_array k.current).exit_status in
    set_state k2 k.current ProcState.empty

pub sys_exit : Kernel → Outcome
sys_exit k = schedule (exit_current k)

-- `p <= 0 || p >= NPROCS || p == current->p_pid || proc_array[p].p_state == P_EMPTY`; the last test
-- is made only within the array.
pub bad_wait : Kernel → (p : ℕ) → Bool
bad_wait k p =
    is_negative p
    || p == 0
    || leb nprocs p
    || p == (k.proc_array k.current).pid
    || is_empty (k.proc_array p).state

pub wait_for : Kernel → (p : ℕ) → Kernel
wait_for k p =
    if bad_wait k p
    then return_value k k.current minus_one
    else if is_zombie (k.proc_array p).state
    then return_value k k.current (k.proc_array p).exit_status
    else let k1 = set_state k k.current ProcState.blocked in
      let target = k1.proc_array p in set_process k1 p (record target { queue = some k.current })

pub sys_wait : Kernel → Outcome
sys_wait k = schedule (wait_for k (k.proc_array k.current).registers.eax)

-- The `switch` of the handler. No call comes back, so no case falls through to the next.
pub dispatch : Kernel → (intno : ℕ) → Outcome
dispatch k intno =
    if intno == int_sys_getpid
    then run (return_value k k.current (k.proc_array k.current).pid) k.current
    else if intno == int_sys_fork
    then sys_fork k
    else if intno == int_sys_yield
    then schedule k
    else if intno == int_sys_exit
    then sys_exit k
    else if intno == int_sys_wait
    then sys_wait k
    else looping k

-- The handler: the saved registers go into the descriptor, and the number chooses the call.
pub interrupt : Kernel → Registers → Outcome
interrupt k reg =
    let p = k.proc_array k.current in
    dispatch (set_process k k.current (record p { registers = reg })) reg.intno

abbrev pub zero_registers : Registers
zero_registers = record {
  edi = 0;
  esi = 0;
  ebp = 0;
  original_esp = 0;
  ebx = 0;
  edx = 0;
  ecx = 0;
  eax = 0;
  es = 0;
  ds = 0;
  intno = 0;
  err = 0;
  eip = 0;
  cs = 0;
  eflags = 0;
  esp = 0;
  ss = 0;
}

-- `special_registers_init`: selectors 0x18 and 0x20, at privilege level 3.
pub special_registers : Registers
special_registers = record zero_registers { cs = 0x1b; ds = 0x23; es = 0x23; ss = 0x23 }

-- The processes as `start` leaves them; `entry` is the entry point that the loader has found.
pub boot_process : (entry i : ℕ) → Process
boot_process entry i =
    if i == 1
    then record {
      pid = 1;
      registers = record special_registers {
        eip = entry;
        esp = proc1_stack_addr + proc_stack_size;
      };
      state = ProcState.runnable;
      exit_status = 0;
      queue = none;
    }
    else record {
      pid = i;
      registers = zero_registers;
      state = ProcState.empty;
      exit_status = 0;
      queue = none;
    }

pub start : (entry : ℕ) → Memory → Outcome
start entry m = run (record { proc_array = boot_process entry; current = 1; memory = m }) 1
