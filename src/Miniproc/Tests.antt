-- ===== src/Miniproc/Tests.antt =====
-- Runs of MiniprocOS's kernel on small inputs, and its theorems at concrete kernels.
use cs111_operating_system.Prelude.{
  ℕ, ◌+◌, ◌-◌, ◌%◌, ◌≡◌, ◌⊎◌, refl, arith, ◌≢◌, Option, some, none, if◌then◌else◌, minus_one, ◌==◌,
}
use cs111_operating_system.Miniproc.State.{Kernel, Registers, Process, ProcState, running, looping}
use cs111_operating_system.Miniproc.{
  zero_registers, special_registers, interrupt, dispatch, sys_fork, sys_wait, bad_wait,
  next_runnable, schedule, wake, set_process, return_value, exit_current, wait_for, do_fork,
  fork_slot, Forked, copy_stack, memcpy, start, boot_process,
}
use cs111_operating_system.Miniproc.Inv.{Inv}
use cs111_operating_system.Miniproc.Schedule.{Next, IsIdle, schedule_round_robin}
use cs111_operating_system.Miniproc.Fork.{with_child, Child, IsFull, do_fork_copies}
use cs111_operating_system.Miniproc.Invariant.{boot, trap, Reach, Reach-Inv}
use cs111_operating_system.Miniproc.Wait.{CanWait, exits, wait_for_lem, wait_for-exit_current}

abbrev at : (pid esp eax : ℕ) → ProcState → Option ℕ → Process
at pid esp eax st q = record {
  pid = pid;
  registers = record zero_registers { esp = esp; eax = eax; intno = 51 };
  state = st;
  exit_status = 0;
  queue = q;
}

-- Process 1 runs with a stack of eight bytes, and process 2 waits for it.
abbrev busy : Kernel
busy = record {
  proc_array = λ i.
      if i == 1
      then at 1 (0x2C0000 - 8) 7 ProcState.runnable (some 2)
      else if i == 2
      then at 2 0x300000 0 ProcState.blocked none
      else at i 0 0 ProcState.empty none;
  current = 1;
  memory = λ x. x % 256;
}

busy-Inv : Inv busy
busy-Inv = record {
  table = record {
    pids = λ i h. ground arith;
    slot_zero = refl;
    no_zombie = λ i h. ground arith;
    queues_in = λ i w h q. ground arith;
    queues_nonzero = λ i w h q. ground arith;
  };
  current_in = omega arith;
  current_nonzero = omega arith;
  current_runnable = refl;
}

do_fork_copies_example :
    ((c : ℕ) × (k' : Kernel) × (do_fork busy 1 ≡ Forked.returned k' c) × Child busy k' 1 c)
    ⊎ ((do_fork busy 1 ≡ Forked.returned busy minus_one) × IsFull busy)
do_fork_copies_example = do_fork_copies busy-Inv (omega arith) (omega arith)

schedule_round_robin_example :
    ((q : ℕ) × (schedule busy ≡ running (record busy { current = q })) × Next busy.proc_array 1 q)
    ⊎ ((schedule busy ≡ looping busy)
        × IsIdle busy
        × ((f : ℕ) → next_runnable busy.proc_array f 1 ≡ none))
schedule_round_robin_example = schedule_round_robin busy (omega arith)

-- Process 1 exits: its waiter gets the processor.
after_exit : Kernel
unfolding exit_current wake
after_exit = record (exit_current (set_process busy 1 (busy.proc_array 1))) { current = 2 }

abbrev booted : Kernel
booted = record { proc_array = boot_process 0x200000; current = 1; memory = λ _. 0 }

-- Process 1 forks with eight bytes on its stack, and then waits for its child.
abbrev fork_registers : Registers
fork_registers = record special_registers { esp = 0x2C0000 - 8; intno = 49 }

abbrev saved : Kernel
saved =
    set_process booted 1 (let p = booted.proc_array 1 in record p { registers = fork_registers })

abbrev forked : Kernel
forked = record (return_value (copy_stack (with_child saved 1 2) 2 1) 1 2) { current = 1 }

abbrev wait_registers : Registers
wait_registers = record special_registers { eax = 2; intno = 52 }

abbrev saved_again : Kernel
saved_again =
    set_process forked 1 (let p = forked.proc_array 1 in record p { registers = wait_registers })

abbrev waited : Kernel
waited = record (wait_for saved_again 2) { current = 2 }

booted-Reach : Reach booted
unfolding start
booted-Reach = boot 0x200000 (λ _. 0) refl

forked-Reach : Reach forked
unfolding interrupt dispatch sys_fork do_fork fork_slot boot_process copy_stack
forked-Reach = trap (λ _. 0) fork_registers booted-Reach (λ _. omega arith) refl

waited-Reach : Reach waited
unfolding interrupt dispatch sys_wait wait_for schedule next_runnable boot_process copy_stack
    bad_wait
waited-Reach = trap forked.memory wait_registers forked-Reach (λ e. absurd (omega arith)) refl

Reach-Inv_example : Inv waited
Reach-Inv_example = Reach-Inv waited-Reach

wait_for_lem_example :
    (CanWait busy 2
      × ((wait_for busy 2).proc_array 1 ≡ record (busy.proc_array 1) { state = ProcState.blocked })
      × ((wait_for busy 2).proc_array 2 ≡ record (busy.proc_array 2) { queue = some 1 })
      × ((i : ℕ) → i ≢ 1 → i ≢ 2 → (wait_for busy 2).proc_array i ≡ busy.proc_array i))
    ⊎ ((CanWait busy 2 → ⊥) × (wait_for busy 2 ≡ return_value busy 1 minus_one))
wait_for_lem_example = wait_for_lem busy 2 busy-Inv

abbrev status_7 : Registers
status_7 = record zero_registers { eax = 7 }

wait_for-exit_current_example :
    ((exits busy 2 status_7).proc_array 1 ≡ record (busy.proc_array 1) {
      registers = record ((busy.proc_array 1).registers) { eax = 7 };
    })
    × (((exits busy 2 status_7).proc_array 2).state ≡ ProcState.empty)
    × ((i : ℕ) → i ≢ 1 → i ≢ 2 → (exits busy 2 status_7).proc_array i ≡ busy.proc_array i)
wait_for-exit_current_example =
    wait_for-exit_current busy 2 status_7 busy-Inv
      (record { bounded = omega arith; nonzero = omega arith; other = omega arith; alive = refl })

-- The child of process 1 gets descriptor 3, and the eight bytes of its stack.
fork_test :
    (elim (do_fork busy 1) [
      | Forked.returned k c ↦ k.memory (0x340000 - 8) + c
      | Forked.overrun ↦ 0
    ])
    ≡ 0xf8 + 3
unfolding do_fork fork_slot copy_stack memcpy
fork_test = refl
