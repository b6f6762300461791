-- ===== src/Osprd/Transfer.antt =====
-- `osprd_process_request` of lab2/osprd.c: sectors copied between the ramdisk and a request's buffer.
use cs111_operating_system.Prelude.{
  ℕ, ◌+◌, ◌-◌, ◌*◌, ◌%◌, ◌^◌, ◌≤◌, ◌<◌, ◌≡◌, ◌⊎◌, arith, Bool, true, false, Memory, if◌then◌else◌,
  ltb, leb, ◌&&◌,
}
use native.Mathlib.Nat.{mod-eq_of_lt}
use cs111_operating_system.Osprd.{Device}

abbrev pub sector_size : ℕ
sector_size = 512

-- `rq_data_dir`, which Linux computes from one bit.
pub data Direction : Type 0 where
  read write : Direction

-- What the driver uses of a `struct request`; `fs` is `blk_fs_request`.
pub record Request : Type 0 where
  pub fs : Bool
  pub sector : ℕ
  pub current_nr_sectors : ℕ
  pub direction : Direction
  pub buffer : Memory

-- `memcpy` between two arrays: the `n` bytes of `src` from `s` on go to `dst` from `d` on.
abbrev pub copy_bytes : (dst : Memory) (d : ℕ) (src : Memory) (s n : ℕ) → Memory
copy_bytes dst d src s n x = if leb d x && ltb x (d + n) then src (s + (x - d)) else dst x

-- The device and the request afterwards, and the argument of `end_request`. Sector numbers are
-- unsigned and have `bits` bits, so their sum wraps.
unfoldable pub process_request : (bits nsectors : ℕ) → Device → Request → Device × Request × Bool
process_request bits nsectors d req =
    let len : ℕ = req.current_nr_sectors * sector_size in
    let ptr : ℕ = req.sector * sector_size in
    if req.fs
    then (if ltb nsectors ((req.sector + req.current_nr_sectors) % 2 ^ bits)
        then (d, req, false)
        else elim req.direction [
          | read ↦ (d, record req { buffer = copy_bytes req.buffer 0 d.sectors ptr len }, true)
          | write ↦ (record d { sectors = copy_bytes d.sectors ptr req.buffer 0 len }, req, true)
        ])
    else (d, req, false)

-- A request of the file system for sectors of the ramdisk.
pub record InRange (bits nsectors : ℕ) (req : Request) : Type 0 where
  pub fs : req.fs ≡ true
  pub fits : req.sector + req.current_nr_sectors ≤ nsectors
  pub small : req.sector + req.current_nr_sectors < 2 ^ bits

module _ (bits nsectors : ℕ) (d : Device) where
  -- The sum of the two numbers does not wrap where it is small.
  sum_lem :
      (req : Request)
      → InRange bits nsectors req
      → ltb nsectors ((req.sector + req.current_nr_sectors) % 2 ^ bits) ≡ false
  sum_lem req r = grind (arith, r.fits, r.small)

  -- A request in range of the ramdisk succeeds. A write puts the buffer into its sectors and changes
  -- no other byte; a read of the same sectors that follows fills its buffer with what was written,
  -- and leaves the device.
  pub write_then_read :
      (w r : Request)
      → InRange bits nsectors w
      → w.direction ≡ Direction.write
      → r.direction ≡ Direction.read
      → r.fs ≡ true
      → r.sector ≡ w.sector
      → r.current_nr_sectors ≡ w.current_nr_sectors
      → (d1 : Device) × (r1 : Request) × (process_request bits nsectors d w ≡ (d1, w, true))
        × (process_request bits nsectors d1 r ≡ (d1, r1, true))
        × ((x : ℕ) → x < w.current_nr_sectors * sector_size → r1.buffer x ≡ w.buffer x)
        × ((x : ℕ)
            → (x < w.sector * sector_size) ⊎ ((w.sector + w.current_nr_sectors) * sector_size ≤ x)
            → d1.sectors x ≡ d.sectors x)
  unfolding process_request
  write_then_read w r range dw dr fs es en =
      let len : ℕ = w.current_nr_sectors * sector_size in
      let ptr : ℕ = w.sector * sector_size in
      let d1 : Device = record d { sectors = copy_bytes d.sectors ptr w.buffer 0 len } in
      (
        d1,
        record r { buffer = copy_bytes r.buffer 0 d1.sectors ptr len },
        ground (arith, sum_lem w range, range.fs),
        ground (arith, sum_lem w range, range.fs),
        λ x h. ground arith,
        λ x h. ground arith,
      )

  -- Where the sum of sector and count does not wrap, a request leaves the bytes behind the last
  -- sector of the ramdisk; and it either succeeds or changes neither the device nor the request.
  pub process_request_bounds :
      (req : Request)
      → req.sector + req.current_nr_sectors < 2 ^ bits
      → ((x : ℕ)
          → nsectors * sector_size ≤ x
          → (process_request bits nsectors d req).0.sectors x ≡ d.sectors x)
        × (((process_request bits nsectors d req).2 ≡ true)
            ⊎ (process_request bits nsectors d req ≡ (d, req, false)))
  unfolding process_request
  process_request_bounds req small =
      let sum : (req.sector + req.current_nr_sectors) % 2 ^ bits
          ≡ req.sector + req.current_nr_sectors =
        mod-eq_of_lt small in
      rw sum (λ x h. ground arith, ground arith)
