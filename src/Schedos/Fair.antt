-- ===== src/Schedos/Fair.antt =====
-- Every process that can run gets the processor: algorithm 0 of SchedOS under clock interrupts.
use cs111_operating_system.Prelude.{
  ℕ, zero, suc, ◌<◌, ◌≤◌, ◌≡◌, ◌⊎◌, arith, inl, inr, ℕ_discrete, dec_lt, true,
}
use cs111_operating_system.Miniproc.State.{Registers}
use cs111_operating_system.Schedos.State.{nprocs, int_clock, Kernel, running}
use cs111_operating_system.Schedos.{set_process, ready, schedule, choose, interrupt}
use cs111_operating_system.Schedos.Inv.{Inv}
use cs111_operating_system.Schedos.RoundRobin.{between, FirstReady, next_ready_lem}
use cs111_operating_system.Schedos.Invariant.{interrupt-Good, Good-Inv}

-- A clock interrupt with the registers `frame`.
abbrev pub clock : Registers → Registers
clock frame = record frame { intno = int_clock }

-- Process `i` is at the processor, or will be after at most `n` clock interrupts; `frames` gives the
-- registers that each finds.
pub Served : (frames : ℕ → Registers) → (i n : ℕ) → Kernel → Type 0
Served frames i zero k = k.current ≡ i
Served frames i (suc n) k =
    (k.current ≡ i)
    ⊎ ((k' : Kernel) × (interrupt k (clock (frames n)) ≡ running k') × Served frames i n k')

module _ (k : Kernel) (reg : Registers) (inv : Inv k) where
  abbrev saved : Kernel
  saved = set_process k k.current (record (k.proc_array k.current) { registers = clock reg })

  -- What one clock interrupt does under algorithm 0.
  clock_lem :
      (i : ℕ)
      → k.scheduling_algorithm ≡ 0
      → i < nprocs
      → ready k.proc_array i ≡ true
      → (q : ℕ) × (interrupt k (clock reg) ≡ running (record saved { current = q }))
        × (between k.current q ≤ between k.current i)
  unfolding interrupt schedule choose
  clock_lem i alg h now =
      elim (next_ready_lem saved.proc_array (saved.proc_array k.current).pid
        (rw own inv.current_in)) [
          | inl (q, e, n) ↦ (
            q,
            ground (arith, alg, e),
            nearer q n (dec_lt (between k.current i) (between k.current q)),
          )
          | inr (e, idle) ↦ absurd (ground (arith, same, idle i h))
        ]
    where
      own : (saved.proc_array k.current).pid ≡ k.current
      own = ground (arith, inv.pids k.current inv.current_in)

      same : ready saved.proc_array i ≡ true
      same = ground (arith, now)

      nearer :
          (q : ℕ)
          → FirstReady saved.proc_array (saved.proc_array k.current).pid q
          → Dec (between k.current i < between k.current q)
          → between k.current q ≤ between k.current i
      nearer q n (no ge) = omega arith
      nearer q n (yes lt) = absurd (ground (arith, same, n.first i h (rw own lt)))

Served-here : (frames : ℕ → Registers) (i n : ℕ) (k : Kernel) → k.current ≡ i → Served frames i n k
unfolding Served
Served-here frames i zero k e = e
Served-here frames i (suc n) k e = inl e

-- Round robin is fair: under algorithm 0 a process that can run is at the processor after at most as
-- many clock interrupts as there are places from the running process to it, so after at most five,
-- whatever registers the processes leave.
pub clock-Served :
    (frames : ℕ → Registers) (i n : ℕ) (k : Kernel)
    → Inv k
    → k.scheduling_algorithm ≡ 0
    → i < nprocs
    → ready k.proc_array i ≡ true
    → between k.current i < n
    → Served frames i n k
unfolding Served
clock-Served frames i zero k inv alg h now near = absurd (omega arith)
clock-Served frames i (suc n) k inv alg h now near =
    let (q, e, close) = clock_lem k (frames n) inv i alg h now in
    inr (
      record (saved k (frames n) inv) { current = q },
      e,
      next q e close (ℕ_discrete q i)
          (clock-Served frames i n (record (saved k (frames n) inv) { current = q })),
    )
  where
    next :
        (q : ℕ)
        → interrupt k (clock (frames n)) ≡ running (record (saved k (frames n) inv) { current = q })
        → between k.current q ≤ between k.current i
        → Dec (q ≡ i)
        → (Inv (record (saved k (frames n) inv) { current = q })
            → k.scheduling_algorithm ≡ 0
            → i < nprocs
            → ready (saved k (frames n) inv).proc_array i ≡ true
            → between q i < n
            → Served frames i n (record (saved k (frames n) inv) { current = q }))
        → Served frames i n (record (saved k (frames n) inv) { current = q })
    next q e close (yes at) again = Served-here frames i n _ at
    next q e close (no away) again =
        again inv' alg h (ground (arith, now)) (omega (arith, inv.current_in, inv'.current_in))
      where
        inv' : Inv (record (saved k (frames n) inv) { current = q })
        inv' = Good-Inv (rw e at (interrupt-Good k (clock (frames n)) inv))
