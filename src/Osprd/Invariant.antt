-- ===== src/Osprd/Invariant.antt =====
-- Every step of the ramdisk's lock keeps its invariant: the tickets, and the counts of locks.
mod Steps
use cs111_operating_system.Prelude.{
  ℕ, ◌<◌, ◌≡◌, refl, arith, Bool, true, update, Bool-cases, inl, inr, ap,
}
use cs111_operating_system.Osprd.{grant, try_acquire, release, close_last, uncount}
use cs111_operating_system.Osprd.Count.{count-none}
use cs111_operating_system.Osprd.System.{
  Pc, idle, waiting, passed, entered, System, booted, file, Step, take, deadlock, wait,
  read_readers, read_writers, no_reader, no_writer, pass, retry_writers, retry_tail, signal, enter,
  finish, try, unlock, close, Reach, here, next,
}
use cs111_operating_system.Osprd.Inv.{
  Inv, ticket, served, reader, take_ticket_lem, ticket-before_writers, grant_lem, try_acquire_lem,
  uncount_lem,
}
use Steps.{take-Inv, move-Inv, signal-Inv, finish-Inv, lock-Inv, unlock-Inv, same-Inv}

module _ (n : ℕ) (pid : ℕ → ℕ) (writer : ℕ → Bool) where
  booted-Inv : Inv n writer booted
  booted-Inv = record {
    small = omega arith;
    below = λ i t e. cc;
    unique = λ i j t e f. cc;
    serving = λ i t e. cc;
    writers = omega (arith, count-none n writer);
    readers = omega (arith, count-none n (reader writer));
  }

  enter-Inv :
      (s : System) (i t : ℕ)
      → i < n
      → s.pc i ≡ passed t
      → Inv n writer s
      → Inv n writer (record {
        dev = grant s.dev (writer i) (pid i);
        pc = update s.pc i (entered t);
        held = update s.held i true;
      })
  enter-Inv s i t lt e v =
      let now = v.serving i t (ap served e) in
      let moved : Inv n writer (record s { pc = update s.pc i (entered t) }) =
        move-Inv n writer s i (entered t) v (λ x h. cc (ap ticket e)) (λ x h. ground arith) in
      lock-Inv n writer (record s { pc = update s.pc i (entered t) }) i
        (grant s.dev (writer i) (pid i)) lt moved (grant_lem s.dev (writer i) (pid i)).0
        (grant_lem s.dev (writer i) (pid i)).1 (grant_lem s.dev (writer i) (pid i)).2
        (grant_lem s.dev (writer i) (pid i)).3

  try-Inv :
      (s : System) (i : ℕ)
      → i < n
      → Inv n writer s
      → Inv n writer (record s {
        dev = (try_acquire s.dev (file n pid writer s i)).0;
        held = update s.held i (try_acquire s.dev (file n pid writer s i)).1.locked;
      })
  try-Inv s i lt v = elim (try_acquire_lem s.dev (writer i) (s.held i)) [
    | inl e ↦ rw e (same-Inv n writer s i lt v)
    | inr (d, e, g) ↦ rw e (lock-Inv n writer s i d lt v g.0 g.1 g.2 g.3)
  ]

  release-Inv :
      (s : System) (i : ℕ)
      → i < n
      → Inv n writer s
      → Inv n writer (record s {
        dev = (release s.dev (file n pid writer s i)).0;
        held = update s.held i (release s.dev (file n pid writer s i)).1.locked;
      })
  unfolding release
  release-Inv s i lt v = elim (Bool-cases (s.held i)) [
    | inl has ↦
        let u = uncount_lem s.dev (writer i) in
        rw has (unlock-Inv n writer s i (uncount s.dev (writer i)) lt v has u.0 u.1 u.2 u.3)
    | inr free ↦ rw (free, ← free) (same-Inv n writer s i lt v)
  ]

  close-Inv :
      (s : System) (i : ℕ)
      → i < n
      → Inv n writer s
      → Inv n writer (record s {
        dev = (close_last s.dev (file n pid writer s i) (pid i)).0;
        held = update s.held i (close_last s.dev (file n pid writer s i) (pid i)).1.locked;
      })
  unfolding close_last
  close-Inv s i lt v = elim (Bool-cases (s.held i)) [
    | inr free ↦ rw (free, ← free) (same-Inv n writer s i lt v)
    | inl has ↦ elim (Bool-cases (writer i)) [
      | inl w ↦ rw (has, w) (unlock-Inv n writer s i _ lt v has refl refl (rw w) (rw w))
      | inr r ↦ rw (has, r) (unlock-Inv n writer s i _ lt v has refl refl (rw r) (rw r))
    ]
  ]

  Step-Inv : {s u : System} → Step n pid writer s u → Inv n writer s → Inv n writer u
  Step-Inv {s} (take i d t lt e small q) v =
      let r = take_ticket_lem s.dev d (pid i) t q in rw (r.0, r.1) (take-Inv n writer s i small v)
  Step-Inv {s} (deadlock i t lt e q) v = move-Inv n writer s i idle v (λ x h. cc) (λ x h. cc)
  Step-Inv {s} (wait i t lt e q) v =
      move-Inv n writer s i (waiting t) v (λ x h. cc (ap ticket e)) (λ x h. cc)
  Step-Inv {s} (read_readers i t lt w e q) v =
      move-Inv n writer s i (no_reader t) v (λ x h. cc (ap ticket e)) (λ x h. cc)
  Step-Inv {s} (read_writers i t lt e q) v =
      move-Inv n writer s i (no_writer t) v
        (λ x h. cc (ap ticket e, ticket-before_writers (writer i) t)) (λ x h. cc)
  Step-Inv {s} (pass i t lt e q) v =
      move-Inv n writer s i (passed t) v (λ x h. cc (ap ticket e)) (λ x h. cc)
  Step-Inv {s} (retry_writers i t lt e q) v =
      move-Inv n writer s i (waiting t) v (λ x h. cc (ap ticket e)) (λ x h. cc)
  Step-Inv {s} (retry_tail i t lt e q) v =
      move-Inv n writer s i (waiting t) v (λ x h. cc (ap ticket e)) (λ x h. cc)
  Step-Inv {s} (signal i t lt e) v = signal-Inv n writer s i t e v
  Step-Inv {s} (enter i t lt e) v = enter-Inv s i t lt e v
  Step-Inv {s} (finish i t lt e) v = finish-Inv n writer s i t e v
  Step-Inv {s} (try i lt e) v = try-Inv s i lt v
  Step-Inv {s} (unlock i lt e) v = release-Inv s i lt v
  Step-Inv {s} (close i lt e) v = close-Inv s i lt v

  pub Reach-Inv : {s : System} → Reach n pid writer booted s → Inv n writer s
  Reach-Inv here = booted-Inv
  Reach-Inv (next r st) = Step-Inv st (Reach-Inv r)
