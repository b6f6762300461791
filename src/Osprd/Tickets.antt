-- ===== src/Osprd/Tickets.antt =====
-- The tickets of OSPRDIOCACQUIRE: which ones are still to be served, and in which order.
use cs111_operating_system.Prelude.{
  ℕ, ◌+◌, ◌≤◌, ◌<◌, ◌^◌, ◌≡◌, ◌≢◌, refl, arith, Bool, true, false, update, if◌then◌else◌, ◌==◌,
  some, add32, List, [], ◌∷◌, ◌++◌, ◌⊎◌, inl, inr, ap,
}
use cs111_operating_system.Osprd.{
  Device, give_up, grant, skip_invalid, pass_ticket, try_acquire, release, close_last,
}
use cs111_operating_system.Osprd.System.{
  Pc, idle, ticketed, waiting, passed, entered, System, booted, file, Step, take, deadlock, wait,
  read_readers, read_writers, no_reader, no_writer, retry_writers, retry_tail, pass, signal, enter,
  finish, try, unlock, close, Reach, here, next,
}
use cs111_operating_system.Osprd.Inv.{Inv, ticket, ticket-before_writers, take_ticket_lem}
use cs111_operating_system.Osprd.Invariant.{Reach-Inv}

-- The number is not in the list.
abbrev pub Without : ℕ → List ℕ → Type 0
Without t [] = Unit {0}
Without t (x ∷ xs) = (x ≢ t) × Without t xs

pub Without-append : (t x : ℕ) (xs : List ℕ) → Without t xs → x ≢ t → Without t (xs ++ x ∷ [])
Without-append t x [] w ne = (ne, tt)
Without-append t x (y ∷ ys) w ne = (w.0, Without-append t x ys w.1 ne)

-- The loop over the tickets that were given up stops at the latest at a ticket that was not.
pub skip_invalid-le :
    (t tail : ℕ) (xs : List ℕ) → t < 2 ^ 32 → Without t xs → tail ≤ t → skip_invalid tail xs ≤ t
unfolding skip_invalid
skip_invalid-le t tail [] small w le = le
skip_invalid-le t tail (x ∷ xs) small w le =
    skip_invalid-le t (if x == tail then add32 tail 1 else tail) xs small w.1 (ground (arith, w.0))

-- Every ticket that an agent holds is still to be served, and was not given up; nor was one that is
-- not yet given out.
pub record Queue (s : System) : Type 0 where
  pub to_come : (i t : ℕ) → ticket (s.pc i) ≡ some t → s.dev.ticket_tail ≤ t
  pub kept : (i t : ℕ) → ticket (s.pc i) ≡ some t → Without t s.dev.invalid_pids
  pub fresh : (t : ℕ) → s.dev.ticket_head ≤ t → Without t s.dev.invalid_pids
  pub ordered : s.dev.ticket_tail ≤ s.dev.ticket_head

-- The calls that only count locks do not touch the tickets.
pub record SameTickets (d d' : Device) : Type 0 where
  pub head : d'.ticket_head ≡ d.ticket_head
  pub tail : d'.ticket_tail ≡ d.ticket_tail
  pub invalid : d'.invalid_pids ≡ d.invalid_pids

grant-SameTickets : (d : Device) (w : Bool) (p : ℕ) → SameTickets d (grant d w p)
unfolding grant
grant-SameTickets d true p = record { head = refl; tail = refl; invalid = refl }
grant-SameTickets d false p = record { head = refl; tail = refl; invalid = refl }

pub ticket-idle :
    (f : ℕ → Pc) (i j t : ℕ)
    → ticket (update f i idle j) ≡ some t
    → (i ≢ j) × (ticket (f j) ≡ some t)
ticket-idle f i j t h = (λ e. ground arith, ground arith)

pub ticket-ticketed :
    (f : ℕ → Pc) (i j x t : ℕ)
    → ticket (update f i (ticketed x) j) ≡ some t
    → (t ≡ x) ⊎ (ticket (f j) ≡ some t)
ticket-ticketed f i j x t h = ground arith

module _ (n : ℕ) (pid : ℕ → ℕ) (writer : ℕ → Bool) where
  try-SameTickets :
      (s : System) (i : ℕ) → SameTickets s.dev (try_acquire s.dev (file n pid writer s i)).0
  unfolding try_acquire
  try-SameTickets s i = record { head = ground arith; tail = ground arith; invalid = ground arith }

  release-SameTickets :
      (s : System) (i : ℕ) → SameTickets s.dev (release s.dev (file n pid writer s i)).0
  unfolding release
  release-SameTickets s i = record {
    head = ground arith;
    tail = ground arith;
    invalid = ground arith;
  }

  close-SameTickets :
      (s : System) (i : ℕ) → SameTickets s.dev (close_last s.dev (file n pid writer s i) (pid i)).0
  unfolding close_last
  close-SameTickets s i = record {
    head = ground arith;
    tail = ground arith;
    invalid = ground arith;
  }

  -- A step after which every agent has the ticket that it had, or none, with the tickets of the
  -- device as they were.
  pub record Keeps (s u : System) : Type 0 where
    pub device : SameTickets s.dev u.dev
    pub agents : (i t : ℕ) → ticket (u.pc i) ≡ some t → ticket (s.pc i) ≡ some t

  -- What a step does to the tickets.
  pub data Effect (s : System) : System → Type 0 where
    keeps : {u : System} → Keeps s u → Effect s u
    gives :
        (i : ℕ)
        → s.dev.ticket_head + 1 < 2 ^ 32
        → Effect s (record s {
          dev = record (s.dev) { ticket_head = add32 s.dev.ticket_head 1 };
          pc = update s.pc i (ticketed s.dev.ticket_head);
        })
    gives_up :
        (i t : ℕ)
        → s.pc i ≡ waiting t
        → Effect s (record s { dev = give_up s.dev t; pc = update s.pc i idle })
    ends :
        (i t : ℕ)
        → s.pc i ≡ entered t
        → Effect s (record s { dev = pass_ticket s.dev; pc = update s.pc i idle })

  moved-Keeps :
      (s : System) (i : ℕ) (p : Pc)
      → ((t : ℕ) → ticket p ≡ some t → ticket (s.pc i) ≡ some t)
      → Keeps s (record s { pc = update s.pc i p })
  moved-Keeps s i p same = record {
    device = record { head = refl; tail = refl; invalid = refl };
    agents = λ j t h. ground (arith, same t);
  }

  pub Step-Effect : {s u : System} → Step n pid writer s u → Effect s u
  Step-Effect {s} (take i d t lt e small q) =
      let r = take_ticket_lem s.dev d (pid i) t q in rw (r.0, r.1) (gives i small)
  Step-Effect {s} (deadlock i t lt e q) = keeps (moved-Keeps s i idle (λ x h. cc))
  Step-Effect {s} (wait i t lt e q) = keeps (moved-Keeps s i (waiting t) (λ x h. cc (ap ticket e)))
  Step-Effect {s} (read_readers i t lt w e q) =
      keeps (moved-Keeps s i (no_reader t) (λ x h. cc (ap ticket e)))
  Step-Effect {s} (read_writers i t lt e q) =
      keeps (
        moved-Keeps s i (no_writer t) (λ x h. cc (ap ticket e, ticket-before_writers (writer i) t)))
  Step-Effect {s} (retry_writers i t lt e q) =
      keeps (moved-Keeps s i (waiting t) (λ x h. cc (ap ticket e)))
  Step-Effect {s} (retry_tail i t lt e q) =
      keeps (moved-Keeps s i (waiting t) (λ x h. cc (ap ticket e)))
  Step-Effect {s} (pass i t lt e q) = keeps (moved-Keeps s i (passed t) (λ x h. cc (ap ticket e)))
  Step-Effect {s} (signal i t lt e) = gives_up i t e
  Step-Effect {s} (enter i t lt e) = keeps (record {
    device = grant-SameTickets s.dev (writer i) (pid i);
    agents = (moved-Keeps s i (entered t) (λ x h. cc (ap ticket e))).agents;
  })
  Step-Effect {s} (finish i t lt e) = ends i t e
  Step-Effect {s} (try i lt e) =
      keeps (record { device = try-SameTickets s i; agents = λ j t h. h })
  Step-Effect {s} (unlock i lt e) =
      keeps (record { device = release-SameTickets s i; agents = λ j t h. h })
  Step-Effect {s} (close i lt e) =
      keeps (record { device = close-SameTickets s i; agents = λ j t h. h })

  Effect-Queue : {s u : System} → Effect s u → Inv n writer s → Queue s → Queue u
  unfolding give_up pass_ticket
  Effect-Queue {s} (keeps k) v q = record {
    to_come = λ i t h. omega (arith, q.to_come i t (k.agents i t h), k.device.tail);
    kept = λ i t h. rw k.device.invalid (q.kept i t (k.agents i t h));
    fresh = λ t h. rw k.device.invalid (q.fresh t (omega (arith, k.device.head)));
    ordered = omega (arith, q.ordered, k.device.head, k.device.tail);
  }
  Effect-Queue {s} (gives i small) v q = record {
    to_come = λ j t h. ground (arith, q.to_come j t, q.ordered);
    kept = λ j t h. elim (ticket-ticketed s.pc i j s.dev.ticket_head t h) [
      | inl e ↦ q.fresh t (omega arith)
      | inr old ↦ q.kept j t old
    ];
    fresh = λ t h. q.fresh t (omega arith);
    ordered = omega (arith, q.ordered);
  }
  Effect-Queue {s} (gives_up i t e) v q = record {
    to_come = λ j x h. ground (arith, q.to_come j x, v.unique i j x, v.small, v.below j x);
    kept = λ j x h.
        let (ne, old) = ticket-idle s.pc i j x h in
        Without-append x t s.dev.invalid_pids (q.kept j x old) (ground (arith, v.unique i j t));
    fresh =
        λ x h. Without-append x t s.dev.invalid_pids (q.fresh x h) (ground (arith, v.below i t));
    ordered = ground (arith, q.ordered, v.below i t, v.small);
  }
  Effect-Queue {s} (ends i t e) v q = record {
    to_come = λ j x h.
        let (ne, old) = ticket-idle s.pc i j x h in
        skip_invalid-le x _ s.dev.invalid_pids (omega (arith, v.below j x old, v.small))
          (q.kept j x old)
          (ground
            (arith, q.to_come j x old, v.below j x old, v.small, v.serving i t, v.unique i j t));
    kept = λ j x h. q.kept j x (ticket-idle s.pc i j x h).1;
    fresh = q.fresh;
    ordered =
        skip_invalid-le s.dev.ticket_head _ s.dev.invalid_pids v.small
          (q.fresh s.dev.ticket_head (omega arith))
          (ground (arith, v.below i t, v.small, v.serving i t));
  }

  pub Reach-Queue : {s : System} → Reach n pid writer booted s → Queue s
  Reach-Queue here = record {
    to_come = λ i t h. cc;
    kept = λ i t h. cc;
    fresh = λ t h. tt;
    ordered = omega arith;
  }
  Reach-Queue (next r st) = Effect-Queue (Step-Effect st) (Reach-Inv n pid writer r) (Reach-Queue r)
