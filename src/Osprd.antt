-- ===== src/Osprd.antt =====
-- lab2/osprd.c, the ramdisk driver: the device, its lock calls piece by piece between two critical
-- sections, and the transfer of sectors. The interleavings of the pieces are in Osprd/System.
pub mod Count
pub mod Inv
pub mod System
pub mod Invariant
pub mod Exclusion
pub mod Tickets
pub mod Lost
pub mod Transfer
mod Tests
use cs111_operating_system.Prelude.{
  ℕ, ◌+◌, ◌-◌, ◌*◌, ◌<◌, Bool, true, false, ◌&&◌, ◌||◌, not, Option, none, some, List, [], ◌∷◌,
  ◌++◌, Memory, if◌then◌else◌, ◌==◌, ltb, leb, add32, minus_one,
}

-- `osprd_info_t`, less what only the kernel uses. The arrays and lists of numbers are lists; the
-- counts of locks are C ints that stay far from their limits, and `ticket_*` are unsigned.
pub record Device : Type 0 where
  pub ticket_head : ℕ
  pub ticket_tail : ℕ
  pub n_write_lock : ℕ
  pub n_read_lock : ℕ
  pub write_lock_pid : ℕ
  pub read_lock_pids : List ℕ
  pub invalid_pids : List ℕ
  pub sectors : Memory

-- `osprd_setup`, after `setup_device` has cleared the structure.
abbrev pub setup : Device
setup = record {
  ticket_head = 0;
  ticket_tail = 0;
  n_write_lock = 0;
  n_read_lock = 0;
  write_lock_pid = 0;
  read_lock_pids = [];
  invalid_pids = [];
  sectors = λ _. 0;
}

-- What the lock calls use of a `struct file`: FMODE_WRITE and F_OSPRD_LOCKED.
pub record File : Type 0 where
  pub writable : Bool
  pub locked : Bool

-- What the calls return.
pub data Result : Type 0 where
  ok edeadlk erestartsys ebusy einval : Result

-- OSPRDIOCACQUIRE, the first critical section: -EDEADLK (`none`) or a ticket.
pub take_ticket : Device → (pid : ℕ) → Device × Option ℕ
take_ticket d pid =
    if pid == d.write_lock_pid
    then (d, none)
    else (record d { ticket_head = add32 d.ticket_head 1 }, some d.ticket_head)

-- The search of a writer for its own process among the readers.
pub is_reader : (pid : ℕ) → List ℕ → Bool
is_reader pid [] = false
is_reader pid (x ∷ xs) = x == pid || is_reader pid xs

-- CONDITION, by the mode of the file.
abbrev pub condition : Device → (writable : Bool) → (ticket : ℕ) → Bool
condition d true t = d.n_read_lock == 0 && d.n_write_lock == 0 && t == d.ticket_tail
condition d false t = d.n_write_lock == 0 && t == d.ticket_tail

-- The wait was ended by a signal.
pub give_up : Device → (ticket : ℕ) → Device
give_up d t = record d {
  ticket_tail = if d.ticket_tail == t then add32 d.ticket_tail 1 else d.ticket_tail;
  invalid_pids = d.invalid_pids ++ (t ∷ []);
}

-- The lock is taken.
pub grant : Device → (writable : Bool) → (pid : ℕ) → Device
grant d true pid = record d { n_write_lock = d.n_write_lock + 1; write_lock_pid = pid }
grant d false pid = record d {
  n_read_lock = d.n_read_lock + 1;
  read_lock_pids = d.read_lock_pids ++ (pid ∷ []);
}

-- `for (i = 0; i < d->n_invalid_pid; i++) if (d->invalid_pid_list[i] == d->ticket_tail) ...`
pub skip_invalid : (tail : ℕ) → List ℕ → ℕ
skip_invalid tail [] = tail
skip_invalid tail (x ∷ xs) = skip_invalid (if x == tail then add32 tail 1 else tail) xs

-- The last critical section of OSPRDIOCACQUIRE.
pub pass_ticket : Device → Device
pass_ticket d = record d { ticket_tail = skip_invalid (add32 d.ticket_tail 1) d.invalid_pids }

-- OSPRDIOCTRYACQUIRE.
pub try_acquire : Device → File → Device × File × Result
try_acquire d f =
    if f.writable
    then if ltb 0 d.n_write_lock || ltb 0 d.n_read_lock || not (d.ticket_tail == d.ticket_head)
      then (d, f, ebusy)
      else (record d { n_write_lock = d.n_write_lock + 1 }, record f { locked = true }, ok)
    else if ltb 0 d.n_write_lock || not (d.ticket_head == d.ticket_tail)
    then (d, f, ebusy)
    else (record d { n_read_lock = d.n_read_lock + 1 }, record f { locked = true }, ok)

-- One lock less. (The count is at least 1 where this runs: Osprd/Invariant.)
abbrev pub uncount : Device → (writable : Bool) → Device
uncount d true = record d { n_write_lock = d.n_write_lock - 1 }
uncount d false = record d { n_read_lock = d.n_read_lock - 1 }

-- OSPRDIOCRELEASE.
pub release : Device → File → Device × File × Result
release d f =
    if f.locked then (uncount d f.writable, record f { locked = false }, ok) else (d, f, einval)

-- The loop of `osprd_close_last` behind the first element of the list.
pub unlink_reader : (pid : ℕ) → List ℕ → List ℕ
unlink_reader pid [] = []
unlink_reader pid (x ∷ xs) = if x == pid then xs else x ∷ unlink_reader pid xs

-- At the first element `slow` and `fast` are one node, and nothing is unlinked.
pub drop_reader : (pid : ℕ) → List ℕ → List ℕ
drop_reader pid [] = []
drop_reader pid (x ∷ xs) = if x == pid then x ∷ xs else x ∷ unlink_reader pid xs

-- `osprd_close_last` for a file of the ramdisk.
pub close_last : Device → File → (pid : ℕ) → Device × File
close_last d f pid =
    if f.locked
    then (
      if f.writable
          then record d { n_write_lock = d.n_write_lock - 1; write_lock_pid = minus_one }
          else record d {
            n_read_lock = d.n_read_lock - 1;
            read_lock_pids = drop_reader pid d.read_lock_pids;
          },
      record f { locked = false },
    )
    else (d, f)
