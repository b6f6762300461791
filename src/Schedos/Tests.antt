-- ===== src/Schedos/Tests.antt =====
-- Runs of SchedOS's scheduler on small tables, and its theorems at concrete kernels.
use cs111_operating_system.Prelude.{ℕ, ◌*◌, ◌≡◌, ◌⊎◌, refl, arith}
use cs111_operating_system.Miniproc.State.{ProcState}
use cs111_operating_system.Miniproc.{zero_registers}
use cs111_operating_system.Schedos.State.{Kernel, running, looping}
use cs111_operating_system.Schedos.{
  next_ready, find_higher, find_equal, priority_round, priority_loop, choose, schedule, set_process,
  first_process, start,
}
use cs111_operating_system.Schedos.Inv.{Table, Inv}
use cs111_operating_system.Schedos.Priority.{
  Higher, NextEqual, schedule_priority, schedule_ignores_priority,
}
use cs111_operating_system.Schedos.Invariant.{Scheduled, schedule-Scheduled, boot, Run-Inv}
use cs111_operating_system.Schedos.Fair.{Served, clock-Served}

-- The table that `start` makes, and process 3 at the processor.
abbrev third : (alg : ℕ) → Kernel
third alg = record {
  proc_array = first_process (λ i. i * 16);
  current = 3;
  scheduling_algorithm = alg;
}

third-Inv : (alg : ℕ) → Inv (third alg)
unfolding first_process
third-Inv alg = record {
  table = record { pids = λ i h. ground arith; slot_zero = refl };
  current_in = omega arith;
  current_nonzero = omega arith;
  current_runnable = refl;
}

-- The process 3 has exited.
abbrev exited : (alg : ℕ) → Kernel
exited alg =
    let k = third alg in
    let p = k.proc_array 3 in set_process k 3 (record p { state = ProcState.zombie })

exited-Table : (alg : ℕ) → Table (exited alg).proc_array
unfolding first_process
exited-Table alg = record { pids = λ i h. ground arith; slot_zero = refl }

schedule-third_0 : schedule (third 0) ≡ running (record (third 0) { current = 4 })
unfolding schedule choose next_ready first_process
schedule-third_0 = refl

schedule-third_1 : schedule (third 1) ≡ running (record (third 1) { current = 1 })
unfolding schedule choose next_ready first_process
schedule-third_1 = refl

schedule-third_2 : schedule (third 2) ≡ running (third 2)
unfolding schedule choose priority_loop priority_round find_higher find_equal first_process
schedule-third_2 = refl

schedule_unknown : schedule (third 3) ≡ looping (third 3)
unfolding schedule choose
schedule_unknown = refl

schedule_priority_example :
    (q : ℕ) × (schedule (third 2) ≡ running (record (third 2) { current = q }))
    × (Higher (third 2).proc_array 3 q ⊎ NextEqual (third 2).proc_array 3 q)
schedule_priority_example = schedule_priority (third 2) (third-Inv 2) refl

-- Process 3 had the highest priority, and process 4, with priority 3, runs before process 2, with
-- priority 2.
schedule_ignores_priority_example :
    schedule (exited 2) ≡ running (record (exited 2) { current = 4 })
unfolding first_process
schedule_ignores_priority_example =
    schedule_ignores_priority (exited 2) (exited-Table 2) (omega arith) refl
      (λ i h now. (ground arith, ground arith)) refl

schedule-Scheduled_example : Scheduled (exited 2)
schedule-Scheduled_example =
    schedule-Scheduled (exited 2) (exited-Table 2) (omega arith) (omega arith)

Run-Inv_example :
    Inv (record { proc_array = first_process (λ i. i); current = 1; scheduling_algorithm = 2 })
unfolding start
Run-Inv_example = Run-Inv (boot (λ i. i) 2 refl)

clock-Served_example : Served (λ n. zero_registers) 2 5 (third 0)
unfolding first_process
clock-Served_example =
    clock-Served (λ n. zero_registers) 2 5 (third 0) (third-Inv 0) refl (omega arith) refl
      (omega arith)
