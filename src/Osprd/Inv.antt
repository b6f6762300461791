-- ===== src/Osprd/Inv.antt =====
-- The invariant of the ramdisk's lock, and what each call does to the counts that it speaks of.
use cs111_operating_system.Prelude.{
  ℕ, ◌+◌, ◌-◌, ◌≤◌, ◌<◌, ◌^◌, ◌≡◌, refl, arith, Bool, true, false, if◌then◌else◌, not, Option, none,
  some, add32, inl, inr, ◌⊎◌, Bool-cases, ltb, ◌||◌, ◌==◌,
}
use cs111_operating_system.Osprd.{Device, take_ticket, grant, try_acquire, uncount, ok, ebusy}
use cs111_operating_system.Osprd.Count.{count}
use cs111_operating_system.Osprd.System.{
  Pc, idle, ticketed, waiting, no_reader, no_writer, passed, entered, before_writers, System,
}

-- The ticket that an agent holds.
abbrev pub ticket : Pc → Option ℕ
ticket idle = none
ticket (ticketed t) = some t
ticket (waiting t) = some t
ticket (no_reader t) = some t
ticket (no_writer t) = some t
ticket (passed t) = some t
ticket (entered t) = some t

-- The ticket of an agent behind the loop.
abbrev pub served : Pc → Option ℕ
served (passed t) = some t
served (entered t) = some t
served _ = none

abbrev pub reader : (ℕ → Bool) → ℕ → Bool
reader writer i = not (writer i)

pub record Inv (n : ℕ) (writer : ℕ → Bool) (s : System) : Type 0 where
  pub small : s.dev.ticket_head < 2 ^ 32
  pub below : (i t : ℕ) → ticket (s.pc i) ≡ some t → t < s.dev.ticket_head
  pub unique : (i j t : ℕ) → ticket (s.pc i) ≡ some t → ticket (s.pc j) ≡ some t → i ≡ j
  pub serving : (i t : ℕ) → served (s.pc i) ≡ some t → t ≡ s.dev.ticket_tail
  pub writers : count n s.held writer ≤ s.dev.n_write_lock
  pub readers : count n s.held (reader writer) ≤ s.dev.n_read_lock

pub ticket-before_writers : (w : Bool) (t : ℕ) → ticket (before_writers w t) ≡ some t
ticket-before_writers true t = refl
ticket-before_writers false t = refl

pub served-ticket : (p : Pc) (t : ℕ) → served p ≡ some t → ticket p ≡ some t
served-ticket p t e = ground arith

-- The device `d'` is `d` with one more lock in the mode `w`.
abbrev pub Counted : (d d' : Device) → Bool → Type 0
Counted d d' w =
    (d'.ticket_head ≡ d.ticket_head)
    × (d'.ticket_tail ≡ d.ticket_tail)
    × (d'.n_write_lock ≡ (if w then d.n_write_lock + 1 else d.n_write_lock))
    × (d'.n_read_lock ≡ (if w then d.n_read_lock else d.n_read_lock + 1))

pub grant_lem : (d : Device) (w : Bool) (p : ℕ) → Counted d (grant d w p) w
unfolding grant
grant_lem d true p = (refl, refl, refl, refl)
grant_lem d false p = (refl, refl, refl, refl)

pub try_acquire_lem :
    (d : Device) (w l : Bool)
    → (try_acquire d (record { writable = w; locked = l })
        ≡ (d, record { writable = w; locked = l }, ebusy))
      ⊎ ((d' : Device) × (try_acquire d (record { writable = w; locked = l })
            ≡ (d', record { writable = w; locked = true }, ok))
          × Counted d d' w)
unfolding try_acquire
try_acquire_lem d true l =
    elim (Bool-cases
      (ltb 0 d.n_write_lock || ltb 0 d.n_read_lock || not (d.ticket_tail == d.ticket_head))) [
        | inl busy ↦ inl (rw busy)
        | inr free ↦
            inr (record d { n_write_lock = d.n_write_lock + 1 }, rw free, (refl, refl, refl, refl))
      ]
try_acquire_lem d false l =
    elim (Bool-cases (ltb 0 d.n_write_lock || not (d.ticket_head == d.ticket_tail))) [
      | inl busy ↦ inl (rw busy)
      | inr free ↦
          inr (record d { n_read_lock = d.n_read_lock + 1 }, rw free, (refl, refl, refl, refl))
    ]

pub uncount_lem :
    (d : Device) (w : Bool)
    → ((uncount d w).ticket_head ≡ d.ticket_head)
      × ((uncount d w).ticket_tail ≡ d.ticket_tail)
      × ((uncount d w).n_write_lock ≡ (if w then d.n_write_lock - 1 else d.n_write_lock))
      × ((uncount d w).n_read_lock ≡ (if w then d.n_read_lock else d.n_read_lock - 1))
uncount_lem d true = (refl, refl, refl, refl)
uncount_lem d false = (refl, refl, refl, refl)

pub take_ticket_lem :
    (d d' : Device) (p t : ℕ)
    → take_ticket d p ≡ (d', some t)
    → (d' ≡ record d { ticket_head = add32 d.ticket_head 1 }) × (t ≡ d.ticket_head)
unfolding take_ticket
take_ticket_lem d d' p t e = (ground arith, ground arith)
