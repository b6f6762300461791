-- ===== src/Osprd/System.antt =====
-- The lock calls of lab2/osprd.c as any number of agents make them, one critical section or one
-- unprotected read of a field at a time.
-- An agent is a process with one open file of the ramdisk; `pid` and `writer` give its process and
-- the mode of its file, and two agents may be of one process.
use cs111_operating_system.Prelude.{
  ℕ, ◌+◌, ◌<◌, ◌^◌, ◌≡◌, ◌≢◌, Bool, true, false, ◌&&◌, some, update,
}
use cs111_operating_system.Osprd.{
  Device, setup, File, take_ticket, is_reader, give_up, grant, pass_ticket, try_acquire, release,
  close_last,
}

-- Where an agent stands in OSPRDIOCACQUIRE, with its ticket.
pub data Pc : Type 0 where
  idle : Pc  -- outside of the call
  ticketed : (ticket : ℕ) → Pc  -- behind the first critical section
  waiting : (ticket : ℕ) → Pc  -- in the loop, with no field of CONDITION read
  no_reader : (ticket : ℕ) → Pc  -- has read n_read_lock, which was 0
  no_writer : (ticket : ℕ) → Pc  -- has read n_write_lock, which was 0
  passed : (ticket : ℕ) → Pc  -- behind the loop, CONDITION was true
  entered : (ticket : ℕ) → Pc  -- behind the critical section that takes the lock

-- Where an agent stands that reads n_write_lock next, in the mode of its file.
abbrev pub before_writers : (writable : Bool) → (ticket : ℕ) → Pc
before_writers true t = Pc.no_reader t
before_writers false t = Pc.waiting t

pub record System : Type 0 where
  pub dev : Device
  pub pc : ℕ → Pc
  pub held : ℕ → Bool  -- F_OSPRD_LOCKED of the agent's file

abbrev pub booted : System
booted = record { dev = setup; pc = λ _. Pc.idle; held = λ _. false }

module _ (n : ℕ) (pid : ℕ → ℕ) (writer : ℕ → Bool) where
  abbrev pub file : System → ℕ → File
  file s i = record { writable = writer i; locked = s.held i }

  -- One step of agent `i`. Fewer than 2 ^ 32 tickets are given out.
  pub data Step (s : System) : System → Type 0 where
    take :
        (i : ℕ) (d : Device) (t : ℕ)
        → i < n
        → s.pc i ≡ Pc.idle
        → s.dev.ticket_head + 1 < 2 ^ 32
        → take_ticket s.dev (pid i) ≡ (d, some t)
        → Step s (record s { dev = d; pc = update s.pc i (Pc.ticketed t) })
    -- -EDEADLK: a read lock of the process stands in the way of its write lock.
    deadlock :
        (i t : ℕ)
        → i < n
        → s.pc i ≡ Pc.ticketed t
        → writer i && is_reader (pid i) s.dev.read_lock_pids ≡ true
        → Step s (record s { pc = update s.pc i Pc.idle })
    wait :
        (i t : ℕ)
        → i < n
        → s.pc i ≡ Pc.ticketed t
        → writer i && is_reader (pid i) s.dev.read_lock_pids ≡ false
        → Step s (record s { pc = update s.pc i (Pc.waiting t) })
    -- CONDITION is read without the mutex, field after field: a writer begins with n_read_lock (and
    -- stays where it is if that is not 0),
    read_readers :
        (i t : ℕ)
        → i < n
        → writer i ≡ true
        → s.pc i ≡ Pc.waiting t
        → s.dev.n_read_lock ≡ 0
        → Step s (record s { pc = update s.pc i (Pc.no_reader t) })
    -- and then reads n_write_lock, with which a reader begins,
    read_writers :
        (i t : ℕ)
        → i < n
        → s.pc i ≡ before_writers (writer i) t
        → s.dev.n_write_lock ≡ 0
        → Step s (record s { pc = update s.pc i (Pc.no_writer t) })
    -- and both end with ticket_tail.
    pass :
        (i t : ℕ)
        → i < n
        → s.pc i ≡ Pc.no_writer t
        → t ≡ s.dev.ticket_tail
        → Step s (record s { pc = update s.pc i (Pc.passed t) })
    -- A test is false, and the loop goes on.
    retry_writers :
        (i t : ℕ)
        → i < n
        → s.pc i ≡ Pc.no_reader t
        → s.dev.n_write_lock ≢ 0
        → Step s (record s { pc = update s.pc i (Pc.waiting t) })
    retry_tail :
        (i t : ℕ)
        → i < n
        → s.pc i ≡ Pc.no_writer t
        → t ≢ s.dev.ticket_tail
        → Step s (record s { pc = update s.pc i (Pc.waiting t) })
    -- -ERESTARTSYS
    signal :
        (i t : ℕ)
        → i < n
        → s.pc i ≡ Pc.waiting t
        → Step s (record s { dev = give_up s.dev t; pc = update s.pc i Pc.idle })
    enter :
        (i t : ℕ)
        → i < n
        → s.pc i ≡ Pc.passed t
        → Step s (record {
          dev = grant s.dev (writer i) (pid i);
          pc = update s.pc i (Pc.entered t);
          held = update s.held i true;
        })
    finish :
        (i t : ℕ)
        → i < n
        → s.pc i ≡ Pc.entered t
        → Step s (record s { dev = pass_ticket s.dev; pc = update s.pc i Pc.idle })
    try :
        (i : ℕ)
        → i < n
        → s.pc i ≡ Pc.idle
        → Step s (record s {
          dev = (try_acquire s.dev (file s i)).0;
          held = update s.held i (try_acquire s.dev (file s i)).1.locked;
        })
    unlock :
        (i : ℕ)
        → i < n
        → s.pc i ≡ Pc.idle
        → Step s (record s {
          dev = (release s.dev (file s i)).0;
          held = update s.held i (release s.dev (file s i)).1.locked;
        })
    close :
        (i : ℕ)
        → i < n
        → s.pc i ≡ Pc.idle
        → Step s (record s {
          dev = (close_last s.dev (file s i) (pid i)).0;
          held = update s.held i (close_last s.dev (file s i) (pid i)).1.locked;
        })

  pub data Reach (s : System) : System → Type 0 where
    here : Reach s s
    next : {t u : System} → Reach s t → Step t u → Reach s u
