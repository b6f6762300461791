-- ===== src/Osprd/Tests.antt =====
-- Runs of the ramdisk driver of lab2/osprd.c on small inputs, and its theorems at concrete systems.
use cs111_operating_system.Prelude.{
  ℕ, ◌+◌, ◌*◌, ◌≤◌, ◌<◌, ◌≡◌, ◌⊎◌, refl, arith, Bool, true, false, update, ◌==◌, ◌%◌, [], ◌∷◌,
}
use cs111_operating_system.Osprd.{Device, setup, grant, skip_invalid, pass_ticket}
use cs111_operating_system.Osprd.System.{
  idle, ticketed, waiting, passed, entered, System, booted, no_reader, no_writer, Reach,
}
use cs111_operating_system.Osprd.Exclusion.{writer_beside_reader}
use cs111_operating_system.Osprd.Transfer.{
  Direction, Request, process_request, write_then_read, process_request_bounds, sector_size,
}

-- Two files of process 10, agent 0 open for writing and agent 1 for reading.
abbrev pids : ℕ → ℕ
pids _ = 10

abbrev first_writes : ℕ → Bool
first_writes i = i == 0

abbrev second_writes : ℕ → Bool
second_writes i = i == 1

abbrev one_ticket : Device
one_ticket = record setup { ticket_head = 1 }

abbrev two_tickets : Device
two_tickets = record setup { ticket_head = 2 }

-- Agent 0 has passed the loop with ticket 0, and agent 1 has ticket 1.
abbrev both : System
both = record {
  dev = two_tickets;
  pc =
      update
        (update
          (update (update (update (update booted.pc 0 (ticketed 0)) 1 (ticketed 1)) 0 (waiting 0)) 0
            (no_reader 0))
          0 (no_writer 0))
        0 (passed 0);
  held = booted.held;
}

abbrev locked : System
locked = record {
  dev = grant two_tickets true 10;
  pc = update both.pc 0 (entered 0);
  held = update both.held 0 true;
}

writer_beside_reader_example :
    (s : System) × Reach 2 pids first_writes booted s × (s.held 0 ≡ true) × (s.held 1 ≡ true)
writer_beside_reader_example =
    writer_beside_reader 2 pids first_writes 0 1 (omega arith) (omega arith) (omega arith) refl refl
      (omega arith) (omega arith)

-- Agent 0 holds a read lock, and agent 1 of the same process asks for a write lock.
abbrev reading : System
reading = record {
  dev = record (pass_ticket (grant one_ticket false 10)) { ticket_head = 2 };
  pc =
      update
        (update
          (update
            (update
              (update (update (update booted.pc 0 (ticketed 0)) 0 (waiting 0)) 0 (no_writer 0)) 0
              (passed 0))
            0 (entered 0))
          0 idle)
        1 (ticketed 1);
  held = update booted.held 0 true;
}

abbrev refused : System
refused = record reading { pc = update reading.pc 1 idle }

abbrev write_one : Request
write_one = record {
  fs = true;
  sector = 3;
  current_nr_sectors = 1;
  direction = Direction.write;
  buffer = λ x. x % 256;
}

abbrev read_one : Request
read_one = record write_one { direction = Direction.read; buffer = λ x. 0 }

write_then_read_example :
    (d1 : Device) × (r1 : Request) × (process_request 32 32 setup write_one ≡ (d1, write_one, true))
    × (process_request 32 32 d1 read_one ≡ (d1, r1, true))
    × ((x : ℕ) → x < 1 * sector_size → r1.buffer x ≡ x % 256)
    × ((x : ℕ)
        → (x < 3 * sector_size) ⊎ ((3 + 1) * sector_size ≤ x)
        → d1.sectors x ≡ setup.sectors x)
write_then_read_example =
    write_then_read 32 32 setup write_one read_one
      (record { fs = refl; fits = omega arith; small = omega arith }) refl refl refl refl refl

process_request_bounds_example :
    ((x : ℕ)
      → 32 * sector_size ≤ x
      → (process_request 32 32 setup write_one).0.sectors x ≡ setup.sectors x)
    × (((process_request 32 32 setup write_one).2 ≡ true)
        ⊎ (process_request 32 32 setup write_one ≡ (setup, write_one, false)))
process_request_bounds_example = process_request_bounds 32 32 setup write_one (omega arith)

-- The tickets that were given up are skipped only in one pass over the list: 5 before 4 is not.
skip_test : skip_invalid 4 (5 ∷ 4 ∷ []) ≡ 5
unfolding skip_invalid
skip_test = refl
