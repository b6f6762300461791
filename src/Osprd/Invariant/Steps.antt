-- ===== src/Osprd/Invariant/Steps.antt =====
-- The steps of an agent that leave the counts of locks alone, and those that change them, keep the
-- invariant of the ramdisk's lock.
use cs111_operating_system.Prelude.{
  ℕ, ◌+◌, ◌-◌, ◌<◌, ◌^◌, ◌≡◌, arith, Bool, true, false, update, if◌then◌else◌, some, add32,
}
use cs111_operating_system.Osprd.{Device, give_up, pass_ticket}
use cs111_operating_system.Osprd.Count.{count-update}
use cs111_operating_system.Osprd.System.{Pc, idle, ticketed, waiting, entered, System}
use cs111_operating_system.Osprd.Inv.{Inv, ticket, served, reader, served-ticket}

module _ (n : ℕ) (writer : ℕ → Bool) where
  pub take-Inv :
      (s : System) (i : ℕ)
      → s.dev.ticket_head + 1 < 2 ^ 32
      → Inv n writer s
      → Inv n writer (record s {
        dev = record (s.dev) { ticket_head = add32 s.dev.ticket_head 1 };
        pc = update s.pc i (ticketed s.dev.ticket_head);
      })
  take-Inv s i small v = record {
    small = omega arith;
    below = λ j x h. ground (arith, v.below j x);
    unique = λ j l x h f. ground (arith, v.unique j l x, v.below j x, v.below l x);
    serving = λ j x h. ground (arith, v.serving j x);
    writers = v.writers;
    readers = v.readers;
  }

  -- A step that moves one agent to a place with the ticket that it had, or with none.
  pub move-Inv :
      (s : System) (i : ℕ) (p : Pc)
      → Inv n writer s
      → ((t : ℕ) → ticket p ≡ some t → ticket (s.pc i) ≡ some t)
      → ((t : ℕ) → served p ≡ some t → t ≡ s.dev.ticket_tail)
      → Inv n writer (record s { pc = update s.pc i p })
  move-Inv s i p v same tail = record {
    small = v.small;
    below = λ j x h. ground (arith, v.below j x, same x);
    unique = λ j l x h f. ground (arith, v.unique j l x, same x);
    serving = λ j x h. ground (arith, v.serving j x, tail x);
    writers = v.writers;
    readers = v.readers;
  }

  pub signal-Inv :
      (s : System) (i t : ℕ)
      → s.pc i ≡ waiting t
      → Inv n writer s
      → Inv n writer (record s { dev = give_up s.dev t; pc = update s.pc i idle })
  unfolding give_up
  signal-Inv s i t e v = record {
    small = v.small;
    below = λ j x h. ground (arith, v.below j x);
    unique = λ j l x h f. ground (arith, v.unique j l x);
    serving = λ j x h. ground (arith, v.serving j x, v.unique i j x);
    writers = v.writers;
    readers = v.readers;
  }

  pub finish-Inv :
      (s : System) (i t : ℕ)
      → s.pc i ≡ entered t
      → Inv n writer s
      → Inv n writer (record s { dev = pass_ticket s.dev; pc = update s.pc i idle })
  unfolding pass_ticket
  finish-Inv s i t e v = record {
    small = v.small;
    below = λ j x h. ground (arith, v.below j x);
    unique = λ j l x h f. ground (arith, v.unique j l x);
    serving = λ j x h.
        absurd
          (ground (arith, v.serving i t, v.serving j x, served-ticket (s.pc j) x, v.unique i j t));
    writers = v.writers;
    readers = v.readers;
  }

  -- The file of agent `i` gets the lock, and the device counts it.
  pub lock-Inv :
      (s : System) (i : ℕ) (d : Device)
      → i < n
      → Inv n writer s
      → d.ticket_head ≡ s.dev.ticket_head
      → d.ticket_tail ≡ s.dev.ticket_tail
      → d.n_write_lock ≡ (if writer i then s.dev.n_write_lock + 1 else s.dev.n_write_lock)
      → d.n_read_lock ≡ (if writer i then s.dev.n_read_lock else s.dev.n_read_lock + 1)
      → Inv n writer (record s { dev = d; held = update s.held i true })
  lock-Inv s i d lt v hd tl dw dr = record {
    small = ground (arith, v.small);
    below = λ j x h. ground (arith, v.below j x);
    unique = v.unique;
    serving = λ j x h. ground (arith, v.serving j x);
    writers = ground (arith, v.writers, count-update n s.held writer i true lt);
    readers = ground (arith, v.readers, count-update n s.held (reader writer) i true lt);
  }

  -- The file of agent `i` gives the lock back.
  pub unlock-Inv :
      (s : System) (i : ℕ) (d : Device)
      → i < n
      → Inv n writer s
      → s.held i ≡ true
      → d.ticket_head ≡ s.dev.ticket_head
      → d.ticket_tail ≡ s.dev.ticket_tail
      → d.n_write_lock ≡ (if writer i then s.dev.n_write_lock - 1 else s.dev.n_write_lock)
      → d.n_read_lock ≡ (if writer i then s.dev.n_read_lock else s.dev.n_read_lock - 1)
      → Inv n writer (record s { dev = d; held = update s.held i false })
  unlock-Inv s i d lt v has hd tl dw dr = record {
    small = ground (arith, v.small);
    below = λ j x h. ground (arith, v.below j x);
    unique = v.unique;
    serving = λ j x h. ground (arith, v.serving j x);
    writers = ground (arith, v.writers, count-update n s.held writer i false lt);
    readers = ground (arith, v.readers, count-update n s.held (reader writer) i false lt);
  }

  pub same-Inv :
      (s : System) (i : ℕ)
      → i < n
      → Inv n writer s
      → Inv n writer (record s { held = update s.held i (s.held i) })
  same-Inv s i lt v = record {
    small = v.small;
    below = v.below;
    unique = v.unique;
    serving = v.serving;
    writers = ground (arith, v.writers, count-update n s.held writer i (s.held i) lt);
    readers = ground (arith, v.readers, count-update n s.held (reader writer) i (s.held i) lt);
  }
