-- ===== src/Osprd/Lost.antt =====
-- What becomes of the tickets of OSPRDIOCACQUIRE after a write request was refused with -EDEADLK
-- behind the first critical section.
use cs111_operating_system.Prelude.{ℕ, ◌≤◌, ◌<◌, ◌≢◌, Bool, some}
use cs111_operating_system.Osprd.System.{System}
use cs111_operating_system.Osprd.Inv.{Inv, ticket}
use cs111_operating_system.Osprd.Tickets.{Without}

module _ (n : ℕ) (pid : ℕ → ℕ) (writer : ℕ → Bool) where
  -- Ticket `t` was given out and not served, no agent has it, and no loop will skip it.
  record Lost (t : ℕ) (s : System) : Type 0 where
    behind : s.dev.ticket_tail ≤ t
    given : t < s.dev.ticket_head
    unheld : (i : ℕ) → ticket (s.pc i) ≢ some t
    not_skipped : Without t s.dev.invalid_pids
