-- ===== src/Miniproc/Wait.antt =====
-- `sys_wait` and `sys_exit` of MiniprocOS: how a waiting process gets an exit status.
use cs111_operating_system.Prelude.{
  ℕ, ◌<◌, ◌≡◌, ◌⊎◌, arith, inl, inr, ◌≢◌, some, false, Bool-cases, minus_one,
}
use cs111_operating_system.Miniproc.State.{
  Kernel, Registers, ProcState, is_empty, is_zombie, nprocs,
}
use cs111_operating_system.Miniproc.{
  wake, return_value, set_process, exit_current, wait_for, bad_wait,
}
use cs111_operating_system.Miniproc.Inv.{Inv}

-- The processes that the running one may wait for.
pub record CanWait (k : Kernel) (p : ℕ) : Type 0 where
  pub bounded : p < nprocs
  pub nonzero : p ≢ 0
  pub other : p ≢ k.current
  pub alive : is_empty (k.proc_array p).state ≡ false

-- Process `p` gets the processor right after the current one has begun to wait for it, and exits
-- with the registers `reg`.
abbrev pub exits : Kernel → (p : ℕ) → Registers → Kernel
exits k p reg =
    let k1 : Kernel = record (wait_for k p) { current = p } in
    let target = k1.proc_array p in
    exit_current (set_process k1 p (record target { registers = reg }))

-- What `sys_wait` does with the number in eax, before it schedules: where the number is that of
-- another process of the table, the caller is blocked and becomes the one process in the queue of
-- that process; otherwise the caller's result is -1. All other descriptors stay as they were. So a
-- number whose process has exited, whose descriptor is empty by then, gives -1 and not its status,
-- and a process that has not exited blocks the caller, where mpos-app.h promises WAIT_TRYAGAIN.
pub wait_for_lem :
    (k : Kernel) (p : ℕ)
    → Inv k
    → (CanWait k p
        × ((wait_for k p).proc_array k.current
            ≡ record (k.proc_array k.current) { state = ProcState.blocked })
        × ((wait_for k p).proc_array p ≡ record (k.proc_array p) { queue = some k.current })
        × ((i : ℕ) → i ≢ k.current → i ≢ p → (wait_for k p).proc_array i ≡ k.proc_array i))
      ⊎ ((CanWait k p → ⊥) × (wait_for k p ≡ return_value k k.current minus_one))
unfolding wait_for bad_wait
wait_for_lem k p inv = elim (Bool-cases (bad_wait k p)) [
  | inl bad ↦ inr (
    λ c. ground (arith, c.bounded, c.nonzero, c.other, c.alive, inv.pids k.current),
    ground arith,
  )
  | inr fine ↦
      let can : CanWait k p = record {
        bounded = ground arith;
        nonzero = ground arith;
        other = ground (arith, inv.pids k.current);
        alive = ground arith;
      } in
      let live : is_zombie (k.proc_array p).state ≡ false = inv.no_zombie p can.bounded in
      inl (can, ground (arith, can.other), ground (arith, can.other), λ i a b. ground arith)
]

-- A process that waits for process `p`, which then gets the processor and exits with the registers
-- `reg`: the waiter is what it was before its wait, runnable again, but for eax, which is the value
-- that `p` had in eax; the descriptor of `p` is empty, and all others are as they were before the wait.
pub wait_for-exit_current :
    (k : Kernel) (p : ℕ) (reg : Registers)
    → Inv k
    → CanWait k p
    → ((exits k p reg).proc_array k.current ≡ record (k.proc_array k.current) {
      registers = record ((k.proc_array k.current).registers) { eax = reg.eax };
    })
      × (((exits k p reg).proc_array p).state ≡ ProcState.empty)
      × ((i : ℕ) → i ≢ k.current → i ≢ p → (exits k p reg).proc_array i ≡ k.proc_array i)
unfolding exit_current wake
wait_for-exit_current k p reg inv can = elim (wait_for_lem k p inv) [
  | inr (cannot, _) ↦ absurd (cannot can)
  | inl (_, caller, target, others) ↦ (
    ground (arith, can.other, inv.current_runnable, caller, target),
    ground (arith, can.other, caller, target),
    λ i a b. ground (arith, can.other, caller, target, others i a b),
  )
]
