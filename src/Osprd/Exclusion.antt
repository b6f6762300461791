-- ===== src/Osprd/Exclusion.antt =====
-- Whom the lock of lab2/osprd.c lets in together: CONDITION is read field after field, so a writer
-- may count the readers before the last of them has come in.
use cs111_operating_system.Prelude.{ℕ, ◌<◌, ◌≡◌, ◌≢◌, refl, arith, Bool, true, false, update}
use cs111_operating_system.Osprd.{
  Device, setup, take_ticket, grant, skip_invalid, pass_ticket, is_reader,
}
use cs111_operating_system.Osprd.System.{
  Pc, idle, ticketed, waiting, no_reader, no_writer, passed, entered, System, booted, take, wait,
  read_readers, read_writers, pass, enter, finish, Reach, here, next,
}

-- The places of a writer `i` and a reader `j`: the reader draws ticket 0 and the writer ticket 1,
module _ (i j : ℕ) where
  abbrev drawn : ℕ → Pc
  drawn = update (update booted.pc j (ticketed 0)) i (ticketed 1)

  -- both come to the loop, where the writer finds neither a reader nor a writer,
  abbrev tested : ℕ → Pc
  tested =
      update (update (update (update drawn j (waiting 0)) i (waiting 1)) i (no_reader 1)) i
        (no_writer 1)

  -- then the reader takes the lock,
  abbrev reader_in : ℕ → Pc
  reader_in = update (update (update tested j (no_writer 0)) j (passed 0)) j (entered 0)

  -- and after it the writer.
  abbrev both_in : ℕ → Pc
  both_in = update (update (update reader_in j idle) i (passed 1)) i (entered 1)

abbrev tickets : (given : ℕ) → Device
tickets given = record setup { ticket_head = given }

module _ (n : ℕ) (pid : ℕ → ℕ) (writer : ℕ → Bool) (i j : ℕ) (hi : i < n) (hj : j < n) (ne : i ≢ j)
    (wi : writer i ≡ true) (rj : writer j ≡ false) (pi : pid i ≢ 0) (pj : pid j ≢ 0) where
  abbrev at_drawn : System
  at_drawn = record { dev = tickets 2; pc = drawn i j; held = λ _. false }

  drawn-Reach : Reach n pid writer booted at_drawn
  unfolding take_ticket
  drawn-Reach =
      next (next here (take j (tickets 1) 0 hj refl (omega arith) (ground arith)))
        (take i (tickets 2) 1 hi (ground arith) (omega arith) (ground arith))

  abbrev at_tested : System
  at_tested = record { dev = tickets 2; pc = tested i j; held = λ _. false }

  tested-Reach : Reach n pid writer booted at_tested
  unfolding is_reader
  tested-Reach =
      next
        (next
          (next (next drawn-Reach (wait j 0 hj (ground arith) (ground arith)))
            (wait i 1 hi (ground arith) (ground arith)))
          (read_readers i 1 hi wi (ground arith) refl))
        (read_writers i 1 hi (ground arith) refl)

  abbrev at_reader_in : System
  at_reader_in = record {
    dev = grant (tickets 2) (writer j) (pid j);
    pc = reader_in i j;
    held = update (λ _. false) j true;
  }

  reader_in-Reach : Reach n pid writer booted at_reader_in
  reader_in-Reach =
      next
        (next (next tested-Reach (read_writers j 0 hj (ground arith) refl))
          (pass j 0 hj (ground arith) refl))
        (enter j 0 hj (ground arith))

  abbrev at_both_in : System
  at_both_in = record {
    dev = grant (pass_ticket (grant (tickets 2) (writer j) (pid j))) (writer i) (pid i);
    pc = both_in i j;
    held = update (update (λ _. false) j true) i true;
  }

  both_in-Reach : Reach n pid writer booted at_both_in
  unfolding pass_ticket grant skip_invalid
  both_in-Reach =
      next
        (next (next reader_in-Reach (finish j 0 hj (ground arith)))
          (pass i 1 hi (ground arith) (ground arith)))
        (enter i 1 hi (ground arith))

  -- The lock does not exclude: for any agent `i` whose file is open for writing and any other agent
  -- `j` whose file is not, with numbers of processes that are not 0, there is an interleaving from
  -- the start after which both files hold the lock.
  pub writer_beside_reader :
      (s : System) × Reach n pid writer booted s × (s.held i ≡ true) × (s.held j ≡ true)
  writer_beside_reader = (at_both_in, both_in-Reach, ground arith, ground arith)
